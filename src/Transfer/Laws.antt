-- ===== src/Transfer/Laws.antt =====
-- Every turn of the transfer of SP_HW9/54 keeps its invariant.
use network_system_programmi.Base.{
  IfSome, ℕ, zero, suc, ◌+◌, ◌≤◌, ◌<◌, ◌≡◌, refl, sym, ap, ◌∙◌, [], ◌∷◌, ◌++◌, take, drop, write_at,
  length, ℤ, min, arith, length-write_at, length-take, take-append-drop, append_assoc, append-nil,
}
use network_system_programmi.Transfer.State.{
  Bytes, buf_size, WriterAt, ReaderAt, Counts, Answer, completes, interrupted, fails,
}
use network_system_programmi.Transfer.Turns.{writer_turn, reader_turn}
use network_system_programmi.Transfer.Control.{
  checks, returns, leaves, dead, waiting, Mode, pending, Control, begins, never, over, reads,
  has_read, handed, looks, writes, releases, last, left, removes, ended, not_removed, writer_lost,
  reader_lost, Holds, Inv, state, writer-Away, reader-Idle,
}

take-write_at :
    (bs mem : Bytes) → length bs ≤ length mem → take (length bs) (write_at 0 bs mem) ≡ bs
unfolding write_at
take-write_at [] mem h = refl
take-write_at (b ∷ bs) [] h = elim h [ ]
take-write_at (b ∷ bs) (m ∷ mem) h = ap (λ t. b ∷ t) (take-write_at bs mem (omega arith))

take-take : (m n : ℕ) (xs : Bytes) → m ≤ n → take m (take n xs) ≡ take m xs
take-take zero n xs h = refl
take-take (suc m) zero xs h = elim h [ ]
take-take (suc m) (suc n) [] h = refl
take-take (suc m) (suc n) (x ∷ xs) h = ap (λ t. x ∷ t) (take-take m n xs (omega arith))

pub read-end : (n : ℕ) (input : Bytes) → 0 < n → length (take n input) ≡ 0 → drop n input ≡ []
read-end zero input lo e = elim lo [ ]
read-end (suc n) [] lo e = refl
read-end (suc n) (b ∷ input) lo e = absurd (omega arith)

module _ (all : Bytes) where
  inv :
      {ws rs : ℕ} {w : WriterAt} {r : ReaderAt} {c : ℤ} {m : Mode}
      → (buf input output : Bytes) (sent received : Counts) → Control ws rs w r c m
      → length buf ≡ buf_size
      → Holds all m buf input output
      → Inv all (state ws rs w r c buf input output sent received)
  inv buf input output sent received c size h = record {
    mode = _;
    control = c;
    size = size;
    bytes = h;
  }

  -- The chunk that `read` gave, and what is left.
  read-Holds :
      (n : ℕ) (buf input output : Bytes)
      → length buf ≡ buf_size
      → 0 < n
      → n ≤ buf_size
      → all ≡ output ++ input
      → Holds all
          (pending (length (take n input)))
          (write_at 0 (take n input) buf)
          (drop n input)
          output
  read-Holds n buf input output size lo hi e = (
    rw
        (
          take-write_at (take n input) buf (omega (arith, length-take n input, size)),
          take-append-drop n input,
        )
        e,
    read-end n input lo,
  )

  pub writer_keeps :
      {ws rs : ℕ} {w : WriterAt} {r : ReaderAt} {c : ℤ} {m : Mode}
      → Control ws rs w r c m
      → (a : Answer) (buf input output : Bytes) (sent received : Counts) → length buf ≡ buf_size
      → Holds all m buf input output
      → IfSome (Inv all) (writer_turn w a (state ws rs w r c buf input output sent received))
  unfolding writer_turn
  writer_keeps (begins i) (completes k) b x y s t size h = inv b x y s t (reads i) size h
  writer_keeps (begins i) interrupted b x y s t size h = inv b x y s t (begins i) size h
  writer_keeps (begins i) (fails k) b x y s t size h = inv b x y s t (never i) size h
  writer_keeps (never i) a b x y s t size h = tt
  writer_keeps (over checks i) a b x y s t size h = inv b x y _ t (over returns i) size h
  writer_keeps (over returns i) (completes k) b x y s t size h = inv b x y s t (reads i) size h
  writer_keeps (over returns i) interrupted b x y s t size h = inv b x y s t (over returns i) size h
  writer_keeps (over returns i) (fails k) b x y s t size h = inv b x y s t (over dead i) size h
  writer_keeps (over dead i) a b x y s t size h = tt
  writer_keeps (reads i) (completes k) b x y s t size h =
      inv _ _ y s t (has_read i) (length-write_at 0 _ b ∙ size)
        (read-Holds (min (k + 1) buf_size) b x y size (omega arith) (omega arith) h)
  writer_keeps (reads i) interrupted b x y s t size h = inv b x y s t (writer_lost i) size (x, h)
  writer_keeps (reads i) (fails k) b x y s t size h = inv b x y s t (writer_lost i) size (x, h)
  writer_keeps (has_read i) (completes k) b x y s t size h = inv b x y s t (handed checks i) size h
  writer_keeps (has_read i) interrupted b x y s t size h =
      inv b x y s t (writer_lost i) size (_, h.0)
  writer_keeps (has_read i) (fails k) b x y s t size h = inv b x y s t (writer_lost i) size (_, h.0)
  writer_keeps (handed w i) a b x y s t size h =
      writer-Away w (Inv all) a 1 _ b x y s t (λ v u z. inv b x y u t (handed z i) size h)
  writer_keeps (looks w) a b x y s t size h =
      writer-Away w (Inv all) a 0 _ b x y s t (λ v u z. inv b x y u t (looks z) size h)
  writer_keeps (writes w) a b x y s t size h =
      writer-Away w (Inv all) a 0 _ b x y s t (λ v u z. inv b x y u t (writes z) size h)
  writer_keeps (releases w) a b x y s t size h =
      writer-Away w (Inv all) a 0 _ b x y s t (λ v u z. inv b x y u t (releases z) size h)
  writer_keeps (last w) a b x y s t size h =
      writer-Away w (Inv all) a 0 _ b x y s t (λ v u z. inv b x y u t (last z) size h)
  writer_keeps (left checks) a b x y s t size h = inv b x y s t (left leaves) size h
  writer_keeps (left leaves) (completes k) b x y s t size h = inv b x y s t removes size h
  writer_keeps (left leaves) interrupted b x y s t size h = inv b x y s t (left leaves) size h
  writer_keeps (left leaves) (fails k) b x y s t size h = inv b x y s t (left dead) size h
  writer_keeps (left dead) a b x y s t size h = tt
  writer_keeps removes (completes k) b x y s t size h = inv b x y s t ended size h
  writer_keeps removes interrupted b x y s t size h = inv b x y s t not_removed size h
  writer_keeps removes (fails k) b x y s t size h = inv b x y s t not_removed size h
  writer_keeps ended a b x y s t size h = tt
  writer_keeps not_removed a b x y s t size h = tt
  writer_keeps (writer_lost i) a b x y s t size h = tt
  writer_keeps (reader_lost w) a b x y s t size h =
      writer-Away w (Inv all) a 0 _ b x y s t (λ v u z. inv b x y u t (reader_lost z) size h)

  cut :
      (buf input output : Bytes) (n k : ℕ)
      → all ≡ output ++ (take n buf ++ input)
      → (rest : Bytes) × (all ≡ (output ++ take (min k n) buf) ++ rest)
  cut buf input output n k e = (
    drop (min k n) (take n buf) ++ input,
    e
        ∙ rw
            (
              append_assoc output (take (min k n) buf) (drop (min k n) (take n buf) ++ input),
              sym (append_assoc (take (min k n) buf) (drop (min k n) (take n buf)) input),
              sym (take-take (min k n) n buf (omega arith)),
              take-append-drop (min k n) (take n buf),
            )
            refl,
  )

  pub reader_keeps :
      {ws rs : ℕ} {w : WriterAt} {r : ReaderAt} {c : ℤ} {m : Mode}
      → Control ws rs w r c m
      → (a : Answer) (buf input output : Bytes) (sent received : Counts) → length buf ≡ buf_size
      → Holds all m buf input output
      → IfSome (Inv all) (reader_turn r a (state ws rs w r c buf input output sent received))
  unfolding reader_turn
  reader_keeps (begins i) a b x y s t size h =
      reader-Idle i (Inv all) a 1 _ _ b x y s t (λ v z. inv b x y s t (begins z) size h)
  reader_keeps (never i) a b x y s t size h =
      reader-Idle i (Inv all) a 1 _ _ b x y s t (λ v z. inv b x y s t (never z) size h)
  reader_keeps (over w i) a b x y s t size h =
      reader-Idle i (Inv all) a 1 _ _ b x y s t (λ v z. inv b x y s t (over w z) size h)
  reader_keeps (reads i) a b x y s t size h =
      reader-Idle i (Inv all) a 0 _ _ b x y s t (λ v z. inv b x y s t (reads z) size h)
  reader_keeps (has_read i) a b x y s t size h =
      reader-Idle i (Inv all) a 0 _ _ b x y s t (λ v z. inv b x y s t (has_read z) size h)
  reader_keeps (handed w waiting) (completes k) b x y s t size h = inv b x y s t (looks w) size h
  reader_keeps (handed w waiting) interrupted b x y s t size h =
      inv b x y s t (handed w waiting) size h
  reader_keeps (handed w waiting) (fails k) b x y s t size h = inv b x y s t (handed w dead) size h
  reader_keeps (handed w dead) a b x y s t size h = tt
  reader_keeps (looks {n = zero} w) a b x y s t size h =
      inv b x y s t (last w) size (h.0 ∙ rw (h.1 refl) (append-nil y))
  reader_keeps (looks {n = suc n} w) a b x y s t size h = inv b x y s _ (writes w) size h
  reader_keeps (writes {n = n} w) (completes k) b x y s t size h =
      inv b x _ s t (releases w) size (h.0 ∙ sym (append_assoc y (take (suc n) b) x))
  reader_keeps (writes w) interrupted b x y s t size h = inv b x y s t (reader_lost w) size (_, h.0)
  reader_keeps (writes {n = n} w) (fails k) b x y s t size h =
      inv b x _ s t (reader_lost w) size (cut b x y (suc n) k h.0)
  reader_keeps (releases w) (completes k) b x y s t size h = inv b x y s _ (over w waiting) size h
  reader_keeps (releases w) interrupted b x y s t size h = inv b x y s t (reader_lost w) size (x, h)
  reader_keeps (releases w) (fails k) b x y s t size h = inv b x y s t (reader_lost w) size (x, h)
  reader_keeps (last w) (completes k) b x y s t size h = inv b x y s t (left w) size h
  reader_keeps (last w) interrupted b x y s t size h =
      inv b x y s t (reader_lost w) size ([], h ∙ sym (append-nil y))
  reader_keeps (last w) (fails k) b x y s t size h =
      inv b x y s t (reader_lost w) size ([], h ∙ sym (append-nil y))
  reader_keeps (left w) a b x y s t size h = tt
  reader_keeps removes a b x y s t size h = tt
  reader_keeps ended a b x y s t size h = tt
  reader_keeps not_removed a b x y s t size h = tt
  reader_keeps (writer_lost i) a b x y s t size h =
      reader-Idle i (Inv all) a 0 _ _ b x y s t (λ v z. inv b x y s t (writer_lost z) size h)
  reader_keeps (reader_lost w) a b x y s t size h = tt
