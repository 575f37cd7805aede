-- ===== src/Examples/Tree.antt =====
-- The theorems on SP_HW3/hw3_part2.c, with a few processes.
use network_system_programmi.Base.{
  ℕ, zero, suc, ◌<◌, ◌≡◌, ◌↔◌, refl, ap, ◌∙◌, false, none, some, List, [], ◌∷◌, codes, pos, eq_int,
  arith, update, update-other, atoi, digits_value, strtok, skip_delims, scan_key,
}
use Prim.Native.String.{String}
use network_system_programmi.Process.Status.{Entry}
use network_system_programmi.Process.Tree.{
  Node, Nodes, read_status, collect, nodes, link_all, Line, prints, main, init_line, Walk,
}
use network_system_programmi.Process.Tree.Linking.{Listed}
use network_system_programmi.Process.Tree.Found.{IsFather}
use network_system_programmi.Process.Tree.Fathers.{Fresh, link_all_lem}
use network_system_programmi.Process.Tree.Traversal.{Printed}
use network_system_programmi.Process.Tree.Printed.{Descends}
use network_system_programmi.Process.Tree.Main.{main_lem}
use network_system_programmi.Process.Tree.Depth.{Within, main-ascending}

abbrev process : ℕ → ℕ → String → Node
process pid ppid name = record {
  pid = pos pid;
  ppid = pos ppid;
  name = codes name;
  child = none;
  father = none;
  sibling = none;
}

-- init, its child sh with a child ls, and another child of init in front of sh.
abbrev processes : Nodes
processes zero = process 1 0 "init"
processes (suc zero) = process 7 1 "cron"
processes (suc (suc zero)) = process 8 1 "sh"
processes (suc (suc (suc zero))) = process 9 8 "ls"
processes (suc (suc (suc (suc n)))) = process 10 0 ""

unlinked :
    (x : ℕ)
    → ((processes x).child ≡ none) × ((processes x).father ≡ none) × ((processes x).sibling ≡ none)
unlinked zero = (refl, refl, refl)
unlinked (suc zero) = (refl, refl, refl)
unlinked (suc (suc zero)) = (refl, refl, refl)
unlinked (suc (suc (suc zero))) = (refl, refl, refl)
unlinked (suc (suc (suc (suc n)))) = (refl, refl, refl)

processes-Fresh : Fresh 4 processes
processes-Fresh = record {
  no_child = λ x lt. (unlinked x).0;
  no_father = λ x lt. (unlinked x).1;
  no_sibling = λ x lt. (unlinked x).2;
}

link_all_lem_example :
    (((link_all 4 processes 2).father ≡ some 0) ↔ IsFather processes 2 0)
    × (IsFather processes 2 0 → Listed (link_all 4 processes) 0 2)
link_all_lem_example = link_all_lem 4 processes processes-Fresh 2 (omega arith) 0

abbrev entry : String → String → String → Entry
entry pid name ppid = record { d_name = codes pid; status = some (codes name ∷ codes ppid ∷ []) }

-- Two processes and a directory that is none.
abbrev proc : List Entry
proc =
    entry "1" "Name:\tinit\n" "PPid:\t0\n"
    ∷ record { d_name = codes "bus"; status = none }
    ∷ entry "2" "Name:\tkthreadd\n" "PPid:\t0\n"
    ∷ []

abbrev memory : Nodes
memory x = process 0 0 ""

abbrev two_nodes : Nodes
two_nodes = update (update memory 0 (process 1 0 "init")) 1 (process 2 0 "kthreadd")

proc_collected : collect proc 0 memory ≡ nodes 2 two_nodes
unfolding collect read_status strtok skip_delims scan_key atoi digits_value
proc_collected = refl

main_lem_example :
    (lines : List Line) × (main proc memory ≡ prints (init_line ∷ lines))
    × ((x : ℕ) → x < 2 → Descends two_nodes x → Printed lines (two_nodes x).name)
main_lem_example = main_lem proc memory 2 two_nodes proc_collected (omega arith)

-- The same with another process instead of the second.
abbrev other_proc : List Entry
other_proc = entry "1" "Name:\tinit\n" "PPid:\t0\n" ∷ entry "7" "Name:\tcron\n" "PPid:\t1\n" ∷ []

abbrev other_nodes : Nodes
other_nodes = update (update memory 0 (process 1 0 "init")) 1 (process 7 1 "cron")

other_collected : collect other_proc 0 memory ≡ nodes 2 other_nodes
unfolding collect read_status strtok skip_delims scan_key atoi digits_value
other_collected = refl

other-no_2 : (x : ℕ) → eq_int (other_nodes x).pid (pos 2) ≡ false
unfolding update
other-no_2 zero = refl
other-no_2 (suc zero) = refl
other-no_2 (suc (suc x)) =
    let first = update memory 0 (process 1 0 "init") in
    let a : other_nodes (suc (suc x)) ≡ first (suc (suc x)) =
      update-other first 1 (process 7 1 "cron") (omega arith) in
    let b : first (suc (suc x)) ≡ memory (suc (suc x)) =
      update-other memory 0 (process 1 0 "init") (omega arith) in
    ap (λ p. eq_int p.pid (pos 2)) (a ∙ b)

main-ascending_example :
    (w : Walk) × (main other_proc memory ≡ prints (init_line ∷ w.lines)) × Within 0 w.count w.lines
main-ascending_example =
    main-ascending other_proc memory 2 other_nodes other_collected (omega arith) other-no_2
