-- ===== src/TwoWay/Laws.antt =====
-- What comes back through the pipes.
use network_system_programmi.Base.{
  take-all, drop, write_at-start, ℕ, suc, ◌≤◌, ◌<◌, ◌≡◌, refl, sym, ap, ◌∙◌, false, [], ◌∷◌, ◌++◌,
  map, arith, ◌==◌, length, write_at, c_string, c_string-buffer, c_string-append, NoNul, append-nil,
  append_assoc, length-append,
}
use network_system_programmi.TwoWay.{
  Bytes, toupper, fresh, read_into, capitals, child, send, receive, round,
}

toupper-nonzero : (c : ℕ) → (c == 0) ≡ false → (toupper c == 0) ≡ false
toupper-nonzero c h = ground arith

NoNul-map : (s : Bytes) → NoNul s → NoNul (map toupper s)
NoNul-map [] h = tt
NoNul-map (c ∷ s) h = (toupper-nonzero c h.0, NoNul-map s h.1)

length-map : (s : Bytes) → length (map toupper s) ≡ length s
length-map [] = refl
length-map (c ∷ s) = ap suc (length-map s)

capitals-append : (s t : Bytes) → NoNul s → capitals (s ++ 0 ∷ t) ≡ map toupper s ++ 0 ∷ t
unfolding capitals
capitals-append [] t h = refl
capitals-append (c ∷ s) t h = rw (h.0, capitals-append s t h.1) refl

read_into-text : (s : Bytes) → NoNul s → length s < 200 → c_string (read_into s fresh) ≡ s
read_into-text s h short =
    rw (take-all 200 s (omega (arith, short)), sym (append-nil (write_at 0 s fresh)))
      (c_string-buffer 200 s [] h short)

length-fresh : length fresh ≡ 200
length-fresh = refl

-- The child gives the text in capitals.
child_lem : (s : Bytes) → NoNul s → length s < 200 → child (s ++ 0 ∷ []) ≡ map toupper s
unfolding child
child_lem s h short =
    let fits : length (s ++ 0 ∷ []) ≤ 200 = omega (arith, short, length-append s (0 ∷ [])) in
    let after : Bytes = drop (length (s ++ 0 ∷ [])) fresh in
    let read : read_into (s ++ 0 ∷ []) fresh ≡ s ++ 0 ∷ after =
      ap (λ x. write_at 0 x fresh) (take-all 200 (s ++ 0 ∷ []) fits)
      ∙ write_at-start (s ++ 0 ∷ []) fresh (omega (arith, fits, length-fresh))
      ∙ append_assoc s (0 ∷ []) after in
    ap (λ x. c_string (capitals x)) read
    ∙ ap c_string (capitals-append s after h)
    ∙ c_string-append (map toupper s) after (NoNul-map s h)

-- A text of fewer than 200 bytes, none of them zero, comes back with its letters in capitals and
-- all else as it was, whole.
pub round_lem : (s : Bytes) → NoNul s → length s < 200 → round s ≡ map toupper s
unfolding round send receive
round_lem s h short =
    rw (read_into-text s h short, child_lem s h short)
      (read_into-text (map toupper s) (NoNul-map s h) (omega (arith, short, length-map s)))
