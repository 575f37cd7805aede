-- ===== src/FileServer/Counted.antt =====
-- What the client of SP_HW9/52 prints, for every file, and for none.
use network_system_programmi.Base.{
  as_int, ℕ, zero, suc, ◌+◌, ◌-◌, ◌/◌, ◌<◌, ◌≡◌, refl, ap, ◌∙◌, Bool, true, false, none, some, List,
  [], ◌∷◌, ◌++◌, eq_bytes, take, drop, write_at, write_at-start, write_at-append, length,
  length-take, length-drop, length-append, replicate, arith, map, c_string, codes, All,
}
use network_system_programmi.FileServer.{
  Bytes, resp_msg_size, long, mt_data, mt_failure, Response, mtype, end_message, failure_message,
  serve_request, received, message, receive, count_loop, client, ClientCalls, done, client_main,
  path_fits,
}
use network_system_programmi.FileServer.Laws.{chunks, data_message, send_loop_lem}

-- The `mtype` of a struct, as a number below 256.
abbrev pub Typed : ℕ → Response → Type 0
Typed m r = mtype r ≡ long m

overlay :
    (k n : ℕ) (xs mem : Bytes)
    → take k mem ≡ take k xs
    → take k (write_at 0 (take n xs) mem) ≡ take k xs
unfolding write_at
overlay zero n xs mem h = refl
overlay (suc k) zero xs mem h = h
overlay (suc k) (suc n) [] mem h = h
overlay (suc k) (suc n) (x ∷ xs) [] h = h
overlay (suc k) (suc n) (x ∷ xs) (m ∷ mem) h = ap (λ t. x ∷ t) (overlay k n xs mem (ap (drop 1) h))

-- A message of one byte at least sets the type, where the other bytes of the type are 0 already.
receive-Typed :
    (b m n : ℕ) (c : Bytes) (r : Response)
    → Typed b r
    → Typed m (receive (take (suc n) (long m ++ c)) r)
unfolding write_at
receive-Typed b m n c [] h = cc
receive-Typed b m n c (x ∷ r) h =
    ap (λ t. m ∷ t) (overlay 7 n (replicate 7 0 ++ c) r (ap (drop 1) h))

-- A chunk has a byte.
abbrev pub IsChunk : Bytes → Type 0
IsChunk c = 0 < length c

receive-data :
    (b : ℕ) (c : Bytes) (r : Response)
    → IsChunk c
    → Typed b r
    → Typed 2 (receive (data_message c) r)
receive-data b [] r h t = elim h [ ]
receive-data b (x ∷ c) r h t = receive-Typed b 2 (length c) (x ∷ c) r t

length-data : (c : Bytes) → length (data_message c) ≡ length c
length-data c = omega (arith, length-take (length c) (mt_data ++ c), length-append mt_data c)

abbrev pub sum : List Bytes → ℕ
sum [] = 0
sum (c ∷ cs) = length c + sum cs

abbrev messages : List Bytes → List Bytes
messages cs = map data_message cs ++ end_message ∷ []

count_loop_lem :
    (cs : List Bytes) (tot num : ℕ) (r : Response)
    → All IsChunk cs
    → Typed 2 r
    → count_loop tot num r (messages cs) ≡ received (tot + sum cs) (as_int (num + length cs + 1))
unfolding count_loop
count_loop_lem [] tot num r h t =
    let e : Typed 3 (receive end_message r) = receive-Typed 2 3 0 (replicate resp_msg_size 0) r t in
    let total : tot + 1 - 1 ≡ tot + 0 = omega arith in
    let messages_in : num + 1 ≡ num + 0 + 1 = omega arith in rw (t, e, total, messages_in) refl
count_loop_lem (c ∷ cs) tot num r h t =
    let rest =
      count_loop_lem cs (tot + length (data_message c)) (num + 1) (receive (data_message c) r) h.1
        (receive-data 2 c r h.0 t) in
    let total : tot + length (data_message c) + sum cs ≡ tot + (length c + sum cs) =
      omega (arith, length-data c) in
    let messages_in : num + 1 + length cs + 1 ≡ num + suc (length cs) + 1 = omega arith in
    rw t (rest ∙ rw (total, messages_in) refl)

client-messages :
    (cs : List Bytes) (b : ℕ) (r : Response)
    → All IsChunk cs
    → Typed b r
    → client r (messages cs) ≡ received (sum cs) (as_int (length cs + 1))
unfolding client count_loop
client-messages [] b r h t =
    let e : Typed 3 (receive end_message r) = receive-Typed b 3 0 (replicate resp_msg_size 0) r t in
    rw e refl
client-messages (c ∷ cs) b r h t =
    let e = receive-data b c r h.0 t in
    let n : 1 + length cs + 1 ≡ suc (length cs) + 1 = omega arith in
    rw e (
      count_loop_lem cs (length (data_message c)) 1 (receive (data_message c) r) h.1 e
      ∙ rw (length-data c, n) refl)

one_more : (n m : ℕ) → 0 < n → m ≡ (n - 8192 + 8191) / 8192 → suc m ≡ (n + 8191) / 8192
one_more n m h e = omega arith

chunks_lem :
    (f : ℕ) (file : Bytes)
    → length file < f
    → All IsChunk (chunks f file)
      × (sum (chunks f file) ≡ length file)
      × (length (chunks f file) ≡ (length file + 8191) / 8192)
unfolding chunks
chunks_lem zero file h = absurd (omega arith)
chunks_lem (suc f) [] h = (tt, refl, refl)
chunks_lem (suc f) (b ∷ file) h =
    let shorter = length-drop resp_msg_size (b ∷ file) in
    let size = length-take resp_msg_size (b ∷ file) in
    let (all, whole, many) =
      chunks_lem f (drop resp_msg_size (b ∷ file)) (omega (arith, shorter)) in
    (
      (omega arith, all),
      omega (arith, whole, size, shorter),
      one_more (length (b ∷ file)) _ (omega arith) (many ∙ ap (λ k. (k + 8191) / 8192) shorter),
    )

client-serve_request :
    (file : Bytes) (b : ℕ) (r s : Response)
    → Typed b r
    → length s ≡ 8 + resp_msg_size
    → client r (serve_request (λ n. true) s (some file))
      ≡ received (length file) (as_int ((length file + 8191) / 8192 + 1))
unfolding serve_request
client-serve_request file b r s t size =
    let f = suc (length file) in
    let (all, whole, many) = chunks_lem f file (omega arith) in
    let typed_eq : write_at 0 mt_data s ≡ mt_data ++ drop 8 s =
      write_at-start mt_data s (omega (arith, size)) in
    rw
      (
        typed_eq,
        send_loop_lem f file (drop 8 s) (omega arith) (omega (arith, length-drop 8 s, size)),
      )
      (client-messages (chunks f file) b r all t ∙ rw (whole, many) refl)

-- Every call of the client succeeds.
abbrev pub answered : List Bytes → ClientCalls
answered ms = record { open_server_ok = true; open_own_ok = true; send_ok = true; responses = ms }

-- Where every call succeeds, and the bytes of `mtype` in the memory of the client are 0 but for the
-- first, the client prints for every file that the server can open its length, and as an `int` the
-- number of messages, one for each 8192 bytes begun and one for the end.
pub client_main-serve_request :
    (path file : Bytes) (b : ℕ) (r s : Response)
    → eq_bytes path (codes "--help") ≡ false
    → path_fits path ≡ true
    → Typed b r
    → length s ≡ 8 + resp_msg_size
    → client_main (path ∷ []) (answered (serve_request (λ n. true) s (some file))) r
      ≡ done (received (length file) (as_int ((length file + 8191) / 8192 + 1)))
unfolding client_main
client_main-serve_request path file b r s help fits t size =
    rw (help, fits) (ap done (client-serve_request file b r s t size))

failure_message_lem :
    (s : Response) → length s ≡ 8 + resp_msg_size → failure_message s ≡ mt_failure ++ codes "Couldn"
failure_message_lem s full =
    rw
      (
        write_at-start mt_failure s (omega (arith, full)),
        write_at-append mt_failure (codes "Couldn't open" ++ 0 ∷ []) (drop 8 s) 8 refl,
        write_at-start (codes "Couldn't open" ++ 0 ∷ []) (drop 8 s)
            (omega (arith, length-drop 8 s, full)),
      )
      refl

-- For a file that the server cannot open the client prints the first 6 letters of the message, and
-- goes on with what its memory held, since no NUL arrives.
pub client-no_file :
    (ok : ℕ → Bool) (r s : Response)
    → length r ≡ 8 + resp_msg_size
    → length s ≡ 8 + resp_msg_size
    → client r (serve_request ok s none) ≡ message (codes "Couldn" ++ c_string (drop 14 r))
unfolding serve_request client c_string
client-no_file ok r s size full =
    rw
      (
        failure_message_lem s full,
        write_at-start (mt_failure ++ codes "Couldn") r (omega (arith, size)),
      )
      refl
