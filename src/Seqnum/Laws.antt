-- ===== src/Seqnum/Laws.antt =====
-- The ranges that the servers of SP_HW8 give out.
use network_system_programmi.Base.{
  ℕ, zero, suc, ◌+◌, ◌%◌, ◌≤◌, ◌<◌, ◌≡◌, refl, sym, Bool, true, false, some, List, [], ◌∷◌, ◌&&◌,
  get_elem?, arith, Option-cases, inl, inr,
}
use network_system_programmi.Seqnum.{
  Request, Grant, Round, discarded, received, Turn, grant, respond, skip, round_blocking,
  round_nonblocking, serve,
}

-- All that is asked for.
abbrev pub asked_in : Round → ℕ
asked_in discarded = 0
asked_in (received r o w) = r.seq_len

abbrev pub total : List Round → ℕ
total [] = 0
total (r ∷ rs) = asked_in r + total rs

-- Each range starts where the one in front of it ends, or later.
abbrev pub Rising : ℕ → List Grant → Type 0
Rising n [] = Unit
Rising n (g ∷ gs) = (n ≤ g.seq_num) × Rising (g.seq_num + g.seq_len) gs

Rising-lower : (m n : ℕ) (gs : List Grant) → m ≤ n → Rising n gs → Rising m gs
Rising-lower m n [] le h = tt
Rising-lower m n (g ∷ gs) le h = (omega (arith, h.0), h.1)

-- Every range of a rising list starts at n or later.
Rising-above :
    (n : ℕ) (gs : List Grant) (i : ℕ) (g : Grant)
    → Rising n gs
    → get_elem? gs i ≡ some g
    → n ≤ g.seq_num
Rising-above n [] i g h e = cc
Rising-above n (x ∷ gs) zero g h e = let q : x ≡ g = cc in rw (sym q) h.0
Rising-above n (x ∷ gs) (suc i) g h e =
    omega (arith, h.0, Rising-above (x.seq_num + x.seq_len) gs i g h.1 e)

Rising-disjoint :
    (n : ℕ) (gs : List Grant) (i j : ℕ) (g h : Grant)
    → Rising n gs
    → i < j
    → get_elem? gs i ≡ some g
    → get_elem? gs j ≡ some h
    → g.seq_num + g.seq_len ≤ h.seq_num
Rising-disjoint n [] i j g h r lt e q = cc
Rising-disjoint n (x ∷ gs) i zero g h r lt e q = elim lt [ ]
Rising-disjoint n (x ∷ gs) zero (suc j) g h r lt e q =
    let same : x ≡ g = cc in rw (sym same) (Rising-above (x.seq_num + x.seq_len) gs j h r.1 q)
Rising-disjoint n (x ∷ gs) (suc i) (suc j) g h r lt e q =
    Rising-disjoint (x.seq_num + x.seq_len) gs i j g h r.1 (omega arith) e q

-- A round within the range of `int`: a response starts at `seqNum`, which then moves behind its range;
-- without a response `seqNum` does not move back, nor beyond what was asked for.
record Sound (seq n : ℕ) (t : Turn) : Type 0 where
  low : seq ≤ t.seq_num
  high : t.seq_num ≤ seq + n
  range : (g : Grant) → t.response ≡ some g → (g.seq_num ≡ seq) × (t.seq_num ≡ seq + g.seq_len)

mod_small : (n : ℕ) → n < 4294967296 → n % 4294967296 ≡ n
mod_small n h = omega arith

response :
    (seq : ℕ) (r : Request) (w : Bool) (g : Grant)
    → (respond seq r w).response ≡ some g
    → (respond seq r w).seq_num ≡ seq + r.seq_len
    → (g.seq_num ≡ seq) × ((respond seq r w).seq_num ≡ seq + g.seq_len)
response seq r true g e m = let q : grant seq r ≡ g = cc in rw (sym q) (refl, m)
response seq r false g e m = cc

respond-Sound :
    (seq : ℕ) (r : Request) (w : Bool)
    → seq + r.seq_len < 4294967296
    → Sound seq r.seq_len (respond seq r w)
respond-Sound seq r w h =
    let m = mod_small (seq + r.seq_len) h in
    record {
      low = omega (arith, m);
      high = omega (arith, m);
      range = λ g e. response seq r w g e m;
    }

skip-Sound : (seq n : ℕ) → Sound seq n (skip seq)
skip-Sound seq n = record { low = omega arith; high = omega arith; range = λ g e. cc }

round_blocking-Sound :
    (seq : ℕ) (r : Round)
    → seq + asked_in r < 4294967296
    → Sound seq (asked_in r) (round_blocking seq r)
unfolding round_blocking
round_blocking-Sound seq discarded h = skip-Sound seq 0
round_blocking-Sound seq (received r true w) h = respond-Sound seq r w h
round_blocking-Sound seq (received r false w) h = skip-Sound seq r.seq_len

round_nonblocking-Sound :
    (seq : ℕ) (r : Round)
    → seq + asked_in r < 4294967296
    → Sound seq (asked_in r) (round_nonblocking seq r)
unfolding round_nonblocking
round_nonblocking-Sound seq discarded h = skip-Sound seq 0
round_nonblocking-Sound seq (received r o w) h = respond-Sound seq r (o && w) h

module _ (round : ℕ → Round → Turn)
    (sound : (seq : ℕ) (r : Round)
      → seq + asked_in r < 4294967296
      → Sound seq (asked_in r) (round seq r)) where
  serve-Rising :
      (rs : List Round) (seq : ℕ) → seq + total rs < 4294967296 → Rising seq (serve round seq rs)
  unfolding serve
  serve-Rising [] seq h = tt
  serve-Rising (r ∷ rs) seq h =
      let s = sound seq r (omega (arith, h)) in
      let later = serve-Rising rs (round seq r).seq_num (omega (arith, h, s.high)) in
      elim (Option-cases (round seq r).response) [
        | inl e ↦ rw e (Rising-lower seq (round seq r).seq_num _ s.low later)
        | inr (g, e) ↦
            let (start, next) = s.range g e in
            rw e (
              omega (arith, start),
              Rising-lower (g.seq_num + g.seq_len) (round seq r).seq_num _
                  (omega (arith, start, next)) later,
            )
      ]

  ranges_apart :
      (rs : List Round) (i j : ℕ) (g h : Grant)
      → total rs < 2147483648
      → i < j
      → get_elem? (serve round 0 rs) i ≡ some g
      → get_elem? (serve round 0 rs) j ≡ some h
      → g.seq_num + g.seq_len ≤ h.seq_num
  ranges_apart rs i j g h small lt =
      Rising-disjoint 0 (serve round 0 rs) i j g h (serve-Rising rs 0 (omega (arith, small))) lt

-- As long as the lengths asked for sum up to less than 2^31, two responses that the server of 44-6
-- gives start ranges that do not overlap: the range of the earlier one ends where the later one
-- starts, or before.
pub serve_blocking-disjoint :
    (rs : List Round) (i j : ℕ) (g h : Grant)
    → total rs < 2147483648
    → i < j
    → get_elem? (serve round_blocking 0 rs) i ≡ some g
    → get_elem? (serve round_blocking 0 rs) j ≡ some h
    → g.seq_num + g.seq_len ≤ h.seq_num
serve_blocking-disjoint = ranges_apart round_blocking round_blocking-Sound

-- As long as the lengths asked for sum up to less than 2^31, two responses that the server of 44-7
-- gives start ranges that do not overlap either.
pub serve_nonblocking-disjoint :
    (rs : List Round) (i j : ℕ) (g h : Grant)
    → total rs < 2147483648
    → i < j
    → get_elem? (serve round_nonblocking 0 rs) i ≡ some g
    → get_elem? (serve round_nonblocking 0 rs) j ≡ some h
    → g.seq_num + g.seq_len ≤ h.seq_num
serve_nonblocking-disjoint = ranges_apart round_nonblocking round_nonblocking-Sound
