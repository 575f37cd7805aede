-- ===== src/Popen/Reading.antt =====
-- What popen_pclose.c prints of the output of a command.
use network_system_programmi.Base.{
  drop-all, ℕ, zero, suc, ◌≤◌, ◌<◌, ◌≡◌, refl, ap, ◌∙◌, [], ◌∷◌, ◌++◌, arith, length, drop,
  write_at, write_at-start, c_string, c_string-buffer, NoNul, append-nil,
}
use network_system_programmi.Popen.{Bytes, read_loop, zeroed}

-- A buffer without a NUL is printed with what lies behind it.
c_string-beyond : (s t : Bytes) → NoNul s → c_string (s ++ t) ≡ s ++ c_string t
unfolding c_string
c_string-beyond [] t h = refl
c_string-beyond (c ∷ s) t h = rw (h.0, c_string-beyond s t h.1) refl

NoNul-append : (s t : Bytes) → NoNul s → NoNul t → NoNul (s ++ t)
NoNul-append [] t h k = k
NoNul-append (c ∷ s) t h k = (h.0, NoNul-append s t h.1 k)

NoNul-drop : (n : ℕ) (s : Bytes) → NoNul s → NoNul (drop n s)
NoNul-drop zero s h = h
NoNul-drop (suc n) [] h = tt
NoNul-drop (suc n) (c ∷ s) h = NoNul-drop n s h.1

length-zeroed : length zeroed ≡ 200
length-zeroed = refl

-- An output of fewer than 200 bytes without a NUL is printed as it is.
pub read_loop-short :
    (beyond out : Bytes) → NoNul out → length out < 200 → read_loop beyond (out ∷ []) zeroed ≡ out
unfolding read_loop
read_loop-short beyond out h short = rw (c_string-buffer 200 out beyond h short) (append-nil out)

-- Of an output of more than 200 bytes and fewer than 400, without a NUL: behind the first 200 bytes, and again at the end,
-- comes what lies behind the buffer, and behind the rest comes the part of the first 200 bytes that it did not overwrite.
pub read_loop-stale :
    (beyond full rest : Bytes)
    → NoNul full
    → NoNul rest
    → length full ≡ 200
    → length rest ≤ 200
    → read_loop beyond (full ∷ rest ∷ []) zeroed
      ≡ (full ++ c_string beyond) ++ ((rest ++ drop (length rest) full) ++ c_string beyond)
unfolding read_loop
read_loop-stale beyond full rest h k two le =
    let filled : write_at 0 full zeroed ≡ full =
      write_at-start full zeroed (omega (arith, two, length-zeroed))
      ∙ ap (λ r. full ++ r) (drop-all (length full) zeroed (omega (arith, two, length-zeroed)))
      ∙ append-nil full in
    let again : write_at 0 rest full ≡ rest ++ drop (length rest) full =
      write_at-start rest full (omega (arith, two, le)) in
    rw
      (
        filled,
        again,
        c_string-beyond full beyond h,
        c_string-beyond (rest ++ drop (length rest) full) beyond
            (NoNul-append rest _ k (NoNul-drop (length rest) full h)),
        append-nil ((rest ++ drop (length rest) full) ++ c_string beyond),
      )
      refl
