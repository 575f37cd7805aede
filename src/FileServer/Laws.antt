-- ===== src/FileServer/Laws.antt =====
-- What the client of SP_HW9/52 counts, for every file that the server sends.
use network_system_programmi.Base.{
  ℕ, zero, suc, ◌≤◌, ◌<◌, ◌≡◌, refl, ap, ◌∙◌, true, List, [], ◌∷◌, ◌++◌, take, drop,
  write_at-append, write_at-start, length, length-take, length-drop, length-append, arith, map,
}
use network_system_programmi.FileServer.{
  Bytes, resp_msg_size, mt_data, Response, set_data, sent, send_loop,
}

-- A file in chunks of 8192 bytes, the last one shorter.
unfoldable pub chunks : ℕ → Bytes → List Bytes
chunks zero file = []
chunks (suc f) [] = []
chunks (suc f) (b ∷ file) = take resp_msg_size (b ∷ file) ∷ chunks f (drop resp_msg_size (b ∷ file))

-- The message for a chunk: as many bytes as the chunk has, but of the struct, of which `mtype` is the
-- first 8.
abbrev pub data_message : Bytes → Bytes
data_message c = take (length c) (mt_data ++ c)

-- The struct of the server, its `mtype` being set.
abbrev pub typed : Bytes → Response
typed d = mt_data ++ d

pub take-front : (n : ℕ) (xs ys : Bytes) → n ≤ length xs → take n (xs ++ ys) ≡ take n xs
take-front zero xs ys h = refl
take-front (suc n) [] ys h = elim h [ ]
take-front (suc n) (x ∷ xs) ys h = ap (λ t. x ∷ t) (take-front n xs ys (omega arith))

set_data-typed :
    (c d : Bytes) → length c ≤ length d → set_data c (typed d) ≡ typed (c ++ drop (length c) d)
set_data-typed c d h =
    write_at-append mt_data c d 8 refl ∙ ap (λ t. mt_data ++ t) (write_at-start c d h)

sent-typed : (c d : Bytes) → sent (length c) (typed (c ++ d)) ≡ data_message c
sent-typed c d = take-front (length c) (mt_data ++ c) d (omega (arith, length-append mt_data c))

-- One chunk of the file.
send_chunk :
    (c d : Bytes)
    → length c ≤ length d
    → (sent (length c) (set_data c (typed d)) ≡ data_message c)
      × (set_data c (typed d) ≡ typed (c ++ drop (length c) d))
      × (length (c ++ drop (length c) d) ≡ length d)
send_chunk c d h = (
  rw (set_data-typed c d h) (sent-typed c (drop (length c) d)),
  set_data-typed c d h,
  omega (arith, length-append c (drop (length c) d), length-drop (length c) d),
)

send_loop-suc :
    (f : ℕ) (b : ℕ) (file : Bytes) (r : Response)
    → send_loop (suc f) (λ n. true) r (b ∷ file)
      ≡ sent (length (take resp_msg_size (b ∷ file))) (set_data (take resp_msg_size (b ∷ file)) r)
        ∷ send_loop f
            (λ n. true)
            (set_data (take resp_msg_size (b ∷ file)) r)
            (drop resp_msg_size (b ∷ file))
unfolding send_loop
send_loop-suc f b file r = refl

pub send_loop_lem :
    (f : ℕ) (file d : Bytes)
    → length file < f
    → length d ≡ resp_msg_size
    → send_loop f (λ n. true) (typed d) file ≡ map data_message (chunks f file)
unfolding send_loop chunks
send_loop_lem zero file d h size = absurd (omega arith)
send_loop_lem (suc f) [] d h size = refl
send_loop_lem (suc f) (b ∷ file) d h size =
    let (m, r, l) =
      send_chunk (take resp_msg_size (b ∷ file)) d
        (omega (arith, length-take resp_msg_size (b ∷ file), size)) in
    send_loop-suc f b file (typed d)
    ∙ rw (m, r)
        (ap (λ t. data_message (take resp_msg_size (b ∷ file)) ∷ t)
          (send_loop_lem f (drop resp_msg_size (b ∷ file)) _
            (omega (arith, length-drop resp_msg_size (b ∷ file))) (omega (arith, l, size))))
