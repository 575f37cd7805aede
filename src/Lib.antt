-- ===== src/Lib.antt =====
-- A model of programs of the course "Network System Programming": two shells, a dictionary with its
-- local and remote versions of `lookup`, a transfer between two processes through shared memory,
-- servers of number ranges and of files, rings of messages, a tree of processes, `popen`, the
-- signal functions of System V, events of files, and programs that copy files. The programs are
-- separate; the first shell is compared with the second, and the clients of the dictionary and of
-- the files talk to their servers. A function of the C code is a function here with its name. Bytes
-- and codes of characters are natural numbers, a C string is a list of them, and memory is a list
-- of bytes. What the system answers (fork, pipe, execvp, waitpid, open, the network) is an
-- argument.
--
-- Base: Boolean tests, lists, integers, decimal numbers with `atoi`, memory and C strings,
-- `strcmp`.
--
-- Shell: SP_HW4/part2, a shell with pipes, redirection and built-in commands. Words is `strtok`;
-- Parse is parse.c, with the bytes written past the end of a block counted; Scan is
-- is_background.c, pipe_present.c, redirect_in.c and redirect_out.c; Pipeline is pipe_command.c,
-- whose processes are a trace of events and the way the process ends; Command is run_command.c;
-- Builtin is builtin.c with the pointer `this` passed along; Main is shell.c. A vector is a list of
-- cells, NULL being `none`. The loop of `strtok` has fuel for every byte of the line, the recursion
-- of `pipe_and_exec` for every cell of the vector, and the loop of `main` for every byte of the
-- input: each round takes at least one. The bytes that flow through a pipe are not modelled, nor is
-- the order in which processes run. The vector of the right side of a pipe has no closing NULL
-- within its block: whether `execvp` takes it is an argument, and what the write past the block
-- does to the heap is not modelled.
--
-- FirstShell: SP_HW2, the first version of that shell, whose `parse` prints; it is compared with
-- Shell. Its `free_argv` is the text of the other one.
--
-- Dict: SP_HW4/part3 and SP_HW11. Record is dict.h: a record is 512 bytes, and a string in it runs
-- up to its first NUL, beyond its field if need be. Convert is convert.c; Prompt is main.c of the
-- local version, for the words that are typed in; Linear is lookup1.c, whose loop has fuel for
-- every byte of the file; Search is lookup5.c, with `bsearch` of the C library on fuel for every
-- record; Server is usock_server.c, isock_server.c and udp_server.c; Client is lookup7.c,
-- lookup8.c, lookup9.c and main.c; Remote puts clients and servers together. Each `recv` gives one
-- message, as it was sent; the end of a connection, at which the servers' loop goes on for ever
-- with empty messages, is not modelled.
--
-- Transfer: SP_HW9/54, svshm_xfr_writer.c and svshm_xfr_reader.c with binary_sems.c. Each process
-- is at a call or a test; a turn does it, and a step relation interleaves the turns in any order.
-- Calls can be interrupted or fail, and `read` can be short. The states start when the semaphores
-- and the memory have been made. Counts wrap at 2^32. Ends has a measure that every turn that
-- changes something lowers; Counted, Counting and Counts are about what both print at the end.
--
-- Seqnum: SP_HW8/44-6 and SP_HW8/44-7, fifo_seqnum_server.c and fifo_seqnum_client_normal.c. A
-- round of a server is given what its calls answer; numbers are 32-bit patterns of `int`.
--
-- FileServer: SP_HW9/52, svmsg_file_server.c and svmsg_file_client.c. A `struct` is its bytes, with
-- 8 of a little-endian `long` first, and a message is a number of bytes from its start. A file is
-- read in chunks of 8192 bytes, on fuel for every byte. Removing children, and a failed
-- `mq_receive` of a response, are not modelled.
--
-- Messages: SP_HW10/program.c. The producer's loop gives the memory at each signal, and a consumer
-- is awake for some of the signals; a value that `seqcmp` does not return is a Boolean argument,
-- whether it happens to be the number of the signal. The totals are ints, the last 32 bits of the
-- numbers (Base.Int).
--
-- Messages.Enhanced: SP_HW10/program_enhanced.c. Its `main` as that of program.c, with the loss
-- rate; Lock is the same program as a step relation, in which producer and consumers take the lock,
-- write or read a byte, and release it in any order. A signal reaches a consumer at any time after
-- it was sent.
--
-- Process: SP_HW3. Status is what is read of /proc; Owned is hw3_part1.c, OpenFiles is hw3_part3.c;
-- Tree is hw3_part2.c: its nodes are a function from the indices of the array, a pointer is an
-- index, and the field `space` is a map of its own. The walk to the last sibling has fuel for every
-- node in front of the first child; `traversal` has fuel for n nodes by a rank that falls from a
-- node to its child and to its sibling (Tree.Traversal). Names and paths are taken to fit their
-- buffers.
--
-- Popen: SP_HW5/popen_pclose.c. The table `fdtopid` and the descriptors of the process are
-- functions; Table is about parent and child, Reading about what `main` prints. The loop of `main`
-- over commands, with `read(...) != EOF`, is not modelled.
--
-- Signals: SP_HW7/SP_HW7-2/system_v.c. The state is the static `sa`, the signal mask and the
-- dispositions; `sigaction` and `sigprocmask` are as POSIX has them. Release is about my_sigrelse
-- and my_sigpause, SystemV compares with what System V promises. Speed is
-- SP_HW7/SP_HW7-1/sig_speed_sigwaitinfo.c, two processes as a step relation.
--
-- Files: SP_HW1/hw1-1.c, hw1-2.c and produce_file.c, SP_HW4/part1/mycat.c, SP_HW9/49/49-1.c. A file
-- system is a function from paths to contents. The loop of mycat.c has fuel for every byte of the
-- file. No two paths name the same file. The size that hw1-2.c takes is an int. What a mapping
-- shows is what the file holds at that time.
--
-- Notify: SP_HW6/file_notify.c. The buffer is its bytes, with room for ten places of 272 bytes, and
-- an event is read from any of them; what `nftw` visits is an argument.
--
-- TwoWay: SP_HW5/bidirection_pipe.c. A round of the parent and its child, each `read` of a pipe
-- giving all that was written to it.
--
-- Examples: the theorems at concrete inputs.
--
-- Not modelled: copies of library files of another project (get_num.c, error_functions.c,
-- tlpi_hdr.h) and of a program of theirs (SP_HW7/SP_HW7-1/sig_speed_sigsuspend.c), exercises that
-- make a few system calls in a row (pipe_ls.c, mydate.c, printdir.c and hostinfo.c of SP_HW4/part1,
-- SP_HW12), a test client of SP_HW8/44-6, the users of the signal functions in SP_HW7/SP_HW7-2.
pub mod Base
pub mod Shell
pub mod FirstShell
pub mod Dict
pub mod Transfer
pub mod TwoWay
pub mod Seqnum
pub mod Signals
pub mod FileServer
pub mod Files
pub mod Messages
pub mod Notify
pub mod Popen
pub mod Process
pub mod Examples
