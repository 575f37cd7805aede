-- ===== src/Examples/Queues.antt =====
-- The theorems on the servers of SP_HW8 and SP_HW9/52 at a few requests.
use network_system_programmi.Base.{
  as_int, ℕ, ◌+◌, ◌/◌, ◌%◌, ◌≤◌, ◌≡◌, refl, get_elem?, length, ◌++◌, Bool, true, false, some, List,
  [], ◌∷◌, codes, arith, replicate,
}
use network_system_programmi.Seqnum.{
  Round, discarded, received, round_blocking, round_nonblocking, serve,
}
use network_system_programmi.Seqnum.Laws.{serve_blocking-disjoint, total}
use network_system_programmi.Seqnum.Starts.{total_opened, serve_nonblocking-serve_blocking}
use network_system_programmi.FileServer.{
  Response, resp_msg_size, serve_request, client, client_main, done, message, request_message,
  pathname_of,
}
use network_system_programmi.FileServer
use network_system_programmi.FileServer.Counted.{client_main-serve_request, answered}
use network_system_programmi.FileServer.Request.{pathname_of-request_message}

abbrev ask : ℕ → ℕ → Bool → Round
ask pid n opens = received (record { pid = pid; seq_len = n }) opens true

-- The FIFO of the second client has no reader.
abbrev rounds : List Round
rounds = ask 10 3 true ∷ ask 11 2 false ∷ discarded ∷ ask 12 4 true ∷ []

serve_blocking-disjoint_example : 0 + 3 ≤ 3
unfolding serve round_blocking
serve_blocking-disjoint_example =
    serve_blocking-disjoint rounds 0 1 (record { pid = 10; seq_num = 0; seq_len = 3 })
      (record { pid = 12; seq_num = 3; seq_len = 4 }) (omega arith) (omega arith) refl refl

serve_nonblocking-serve_blocking_example :
    (get_elem?
        (serve round_nonblocking 0 (rounds ++ ask 13 1 true ∷ []))
        (length (serve round_nonblocking 0 rounds))
      ≡ some (record { pid = 13; seq_num = total rounds % 4294967296; seq_len = 1 }))
    × (get_elem?
          (serve round_blocking 0 (rounds ++ ask 13 1 true ∷ []))
          (length (serve round_blocking 0 rounds))
        ≡ some (record { pid = 13; seq_num = total_opened rounds % 4294967296; seq_len = 1 }))
serve_nonblocking-serve_blocking_example =
    serve_nonblocking-serve_blocking rounds [] (record { pid = 13; seq_len = 1 })

abbrev blank : Response
blank = replicate 8200 0

client_main-serve_request_example :
    client_main
      (codes "f" ∷ [])
      (answered (serve_request (λ n. true) blank (some (codes "text"))))
      blank
    ≡ done (FileServer.received 4 (as_int ((4 + 8191) / 8192 + 1)))
client_main-serve_request_example =
    client_main-serve_request (codes "f") (codes "text") 0 blank blank refl refl refl refl

pathname_of-request_message_example :
    pathname_of (request_message (0 ∷ 0 ∷ 0 ∷ 0 ∷ []) (codes "f")) (replicate 4108 0) ≡ codes "f"
pathname_of-request_message_example =
    pathname_of-request_message (0 ∷ 0 ∷ 0 ∷ 0 ∷ []) (codes "f") (replicate 4108 0) refl (refl, tt)
      (omega arith) refl
