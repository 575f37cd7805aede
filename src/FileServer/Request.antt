-- ===== src/FileServer/Request.antt =====
-- The path in a request of SP_HW9/52: what the server reads of what the client sent.
use network_system_programmi.Base.{
  ℕ, zero, suc, ◌+◌, ◌-◌, ◌≤◌, ◌<◌, ◌≡◌, refl, ap, sym, ◌∙◌, [], ◌∷◌, ◌++◌, take, drop,
  write_at-start, length, length-take, length-append, replicate, arith, c_string-append, NoNul,
  append_assoc,
}
use network_system_programmi.FileServer.{
  Bytes, long, req_msg_size, pathname_field, request_message, pathname_of,
}

drop-long : (xs ys : Bytes) (n : ℕ) → n ≡ length xs → drop n (xs ++ ys) ≡ ys
drop-long [] ys n e = rw e refl
drop-long (x ∷ xs) ys n e = rw e (drop-long xs ys (length xs) refl)

take-string :
    (n : ℕ) (p t : Bytes) → length p < n → (u : Bytes) × (take n (p ++ 0 ∷ t) ≡ p ++ 0 ∷ u)
take-string zero p t h = elim h [ ]
take-string (suc n) [] t h = (take n t, refl)
take-string (suc n) (x ∷ p) t h =
    let (u, e) = take-string n p t (omega arith) in (u, ap (λ s. x ∷ s) e)

padded :
    (n k : ℕ) (p : Bytes)
    → length p < n
    → 0 < k
    → (t : Bytes) × (take n (p ++ replicate k 0) ≡ p ++ 0 ∷ t)
padded n zero p h z = elim z [ ]
padded n (suc k) p h z = take-string n p (replicate k 0) h

-- Bytes of a message that is cut: the head, and a string with its NUL.
cut :
    (n : ℕ) (head p t : Bytes)
    → length head + length p < n
    → (u : Bytes) × (take n (head ++ (p ++ 0 ∷ t)) ≡ head ++ (p ++ 0 ∷ u))
cut n [] p t h = take-string n p t (omega arith)
cut zero (x ∷ head) p t h = absurd (omega arith)
cut (suc n) (x ∷ head) p t h = let (u, e) = cut n head p t (omega arith) in (u, ap (λ s. x ∷ s) e)

-- A string behind a head of 12 bytes is read back from the memory that the message was written to.
read_back :
    (head p u mem : Bytes)
    → length head ≡ 12
    → NoNul p
    → length (head ++ (p ++ 0 ∷ u)) ≤ length mem
    → pathname_of (head ++ (p ++ 0 ∷ u)) mem ≡ p
unfolding pathname_of
read_back head p u mem twelve nn fits =
    rw
      (
        write_at-start (head ++ (p ++ 0 ∷ u)) mem fits,
        append_assoc head (p ++ 0 ∷ u) (drop (length (head ++ (p ++ 0 ∷ u))) mem),
        drop-long head ((p ++ 0 ∷ u) ++ drop (length (head ++ (p ++ 0 ∷ u))) mem) 12 (sym twelve),
        append_assoc p (0 ∷ u) (drop (length (head ++ (p ++ 0 ∷ u))) mem),
      )
      (c_string-append p _ nn)

request_message-cut :
    (id path : Bytes)
    → length id ≡ 4
    → length path < 4088
    → (u : Bytes) × (request_message id path ≡ (long 1 ++ id) ++ (path ++ 0 ∷ u))
unfolding request_message
request_message-cut id path four short =
    let (t, field) = padded 4095 (4095 - length path) path (omega arith) (omega arith) in
    let (u, e) =
      cut 4100 (long 1 ++ id) path (t ++ 0 ∷ []) (omega (arith, length-append (long 1) id)) in
    (
      u,
      ap (λ x. take req_msg_size ((long 1 ++ id) ++ (x ++ 0 ∷ []))) field
          ∙ ap (λ x. take req_msg_size ((long 1 ++ id) ++ x)) (append_assoc path (0 ∷ t) (0 ∷ []))
          ∙ e,
    )

length-request_message : (id path : Bytes) → length (request_message id path) ≤ 4100
unfolding request_message
length-request_message id path =
    omega (arith, length-take req_msg_size ((long 1 ++ id) ++ pathname_field path))

-- The server reads the path that the client asked for, if it is a string of at most 4087 bytes,
-- whatever its memory held before.
pub pathname_of-request_message :
    (id path req : Bytes)
    → length id ≡ 4
    → NoNul path
    → length path < 4088
    → length req ≡ 8 + req_msg_size
    → pathname_of (request_message id path) req ≡ path
pathname_of-request_message id path req four nn short size =
    let (u, e) = request_message-cut id path four short in
    rw e (
      read_back (long 1 ++ id) path u req (omega (arith, length-append (long 1) id)) nn
        (omega (arith, ap length e, length-request_message id path, size)))
