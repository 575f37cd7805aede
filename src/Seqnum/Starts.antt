-- ===== src/Seqnum/Starts.antt =====
-- Where the ranges start that the servers of SP_HW8 give out.
use network_system_programmi.Base.{
  ℕ, ◌+◌, ◌%◌, ◌≡◌, refl, ap, true, false, some, List, [], ◌∷◌, ◌++◌, ◌∙◌, Option, none,
  if◌then◌else◌, length, get_elem?, arith,
}
use network_system_programmi.Seqnum.{
  Request, Grant, Round, discarded, received, Turn, grant, round_blocking, round_nonblocking,
  add_response, serve,
}
use network_system_programmi.Seqnum.Laws.{asked_in, total}

-- What a round takes of the numbers in 44-6, where a client whose FIFO does not open takes none.
abbrev pub opened_in : Round → ℕ
opened_in discarded = 0
opened_in (received r opens w) = if opens then r.seq_len else 0

abbrev pub total_opened : List Round → ℕ
total_opened [] = 0
total_opened (r ∷ rs) = opened_in r + total_opened rs

get_elem-add_response :
    (x : Option Grant) (gs hs : List Grant)
    → get_elem? (add_response x gs) (length (add_response x hs)) ≡ get_elem? gs (length hs)
get_elem-add_response none gs hs = refl
get_elem-add_response (some g) gs hs = refl

module _ (round : ℕ → Round → Turn) (taken : Round → ℕ) (all_taken : List Round → ℕ)
    (nothing : all_taken [] ≡ 0)
    (more : (r : Round) (rs : List Round) → all_taken (r ∷ rs) ≡ taken r + all_taken rs)
    (moves : (n : ℕ) (r : Round) → (round (n % 4294967296) r).seq_num ≡ (n + taken r) % 4294967296)
    (answers : (seq : ℕ) (r : Request)
      → (round seq (received r true true)).response ≡ some (grant seq r)) where
  serve-starts :
      (before after : List Round) (r : Request) (n : ℕ)
      → get_elem?
          (serve round (n % 4294967296) (before ++ received r true true ∷ after))
          (length (serve round (n % 4294967296) before))
        ≡ some (grant ((n + all_taken before) % 4294967296) r)
  unfolding serve
  serve-starts [] after r n =
      let here : n + all_taken [] ≡ n = omega (arith, nothing) in
      rw (answers (n % 4294967296) r, here) refl
  serve-starts (b ∷ before) after r n =
      let turn = round (n % 4294967296) b in
      let later = serve-starts before after r (n + taken b) in
      let same : n + taken b + all_taken before ≡ n + all_taken (b ∷ before) =
        omega (arith, more b before) in
      get_elem-add_response turn.response
        (serve round turn.seq_num (before ++ received r true true ∷ after))
        (serve round turn.seq_num before)
      ∙ rw (moves n b) (later ∙ ap (λ m. some (grant (m % 4294967296) r)) same)

nonblocking-moves :
    (n : ℕ) (r : Round)
    → (round_nonblocking (n % 4294967296) r).seq_num ≡ (n + asked_in r) % 4294967296
unfolding round_nonblocking
nonblocking-moves n discarded = omega arith
nonblocking-moves n (received r o w) = omega arith

blocking-moves :
    (n : ℕ) (r : Round)
    → (round_blocking (n % 4294967296) r).seq_num ≡ (n + opened_in r) % 4294967296
unfolding round_blocking
blocking-moves n discarded = omega arith
blocking-moves n (received r true w) = omega arith
blocking-moves n (received r false w) = omega arith

nonblocking-answers :
    (seq : ℕ) (r : Request)
    → (round_nonblocking seq (received r true true)).response ≡ some (grant seq r)
unfolding round_nonblocking
nonblocking-answers seq r = refl

blocking-answers :
    (seq : ℕ) (r : Request)
    → (round_blocking seq (received r true true)).response ≡ some (grant seq r)
unfolding round_blocking
blocking-answers seq r = refl

-- A request whose client can be opened and written to, behind any rounds: the server of 44-7 gives
-- it a range that starts at the sum, modulo 2^32, of all lengths asked for in front of it, so that
-- a client that is not there costs the range it asked for; the server of 44-6 gives it one that
-- starts at the sum of the lengths of those clients that could be opened.
pub serve_nonblocking-serve_blocking :
    (before after : List Round) (r : Request)
    → (get_elem?
          (serve round_nonblocking 0 (before ++ received r true true ∷ after))
          (length (serve round_nonblocking 0 before))
        ≡ some (record { pid = r.pid; seq_num = total before % 4294967296; seq_len = r.seq_len }))
      × (get_elem?
            (serve round_blocking 0 (before ++ received r true true ∷ after))
            (length (serve round_blocking 0 before))
          ≡ some (record {
            pid = r.pid;
            seq_num = total_opened before % 4294967296;
            seq_len = r.seq_len;
          }))
serve_nonblocking-serve_blocking before after r =
    let zero_mod : 0 % 4294967296 ≡ 0 = refl in
    let by_44_7 =
      serve-starts round_nonblocking asked_in total refl (λ x xs. refl) nonblocking-moves
        nonblocking-answers before after r 0 in
    let by_44_6 =
      serve-starts round_blocking opened_in total_opened refl (λ x xs. refl) blocking-moves
        blocking-answers before after r 0 in
    let a : 0 + total before ≡ total before = omega arith in
    let b : 0 + total_opened before ≡ total_opened before = omega arith in
    (rw (zero_mod, a) at by_44_7, rw (zero_mod, b) at by_44_6)
