-- ===== src/Transfer/Counting.antt =====
-- Every turn of the transfer of SP_HW9/54 keeps the counts true.
use network_system_programmi.Base.{
  IfSome, ℕ, zero, suc, ◌+◌, ◌%◌, ◌≤◌, ◌≡◌, refl, take, length, ℤ, pos, negsuc, min, arith,
  length-take, length-append,
}
use network_system_programmi.Transfer.State.{
  Bytes, buf_size, WriterAt, w_reserve, w_read, w_release, w_check, w_last, w_remove, w_ended,
  w_failed, ReaderAt, Counts, r_reserve, r_look, r_write, r_release, r_last, r_ended, r_failed,
  Answer, completes, interrupted, fails,
}
use network_system_programmi.Transfer.Turns.{writer_turn, reader_turn}
use network_system_programmi.Transfer.Control.{Mode, Control, handed, state}
use network_system_programmi.Transfer.Reached.{writer_holds, reader_holds}
use network_system_programmi.Transfer.Counted.{
  Carried-add, Carried-all, Counted, Even-got, Even-moved, Even-sent, Even-zero, Received,
  Received-idle, read-Even, read-Sent, releasing,
}

module _ (total : ℕ) where
  pub writer_counts :
      (w : WriterAt) (a : Answer) (ws rs : ℕ) (r : ReaderAt) (c : ℤ) (buf input output : Bytes)
      (sent received : Counts)
      → ws + rs + writer_holds w + reader_holds r ≤ 1
      → Counted total (state ws rs w r c buf input output sent received)
      → IfSome (Counted total) (writer_turn w a (state ws rs w r c buf input output sent received))
  unfolding writer_turn
  writer_counts w_reserve (completes k) zero rs r c b x y s t one h = tt
  writer_counts w_reserve (completes k) (suc v) rs r c b x y s t one (f, (u, (g, e))) =
      (f, (u, (g, λ wo. e (λ q. cc))))
  writer_counts w_reserve interrupted ws rs r c b x y s t one h = h
  writer_counts w_reserve (fails k) ws rs r c b x y s t one (f, (u, (g, e))) =
      (f, (tt, (g, λ wo. absurd (wo refl))))
  writer_counts w_read (completes k) ws rs r c b x y s t one (f, (u, (g, e))) = (
    omega (arith, length-take (min (k + 1) buf_size) x),
    (
      read-Sent total (min (k + 1) buf_size) s.bytes x (omega arith) u,
      (
        Received-idle r c _ (length y) t.bytes (omega arith) g,
        λ wo ro.
            read-Even rs r c (pos (length (take (min (k + 1) buf_size) x))) s.xfrs t.xfrs
              (omega arith) (e (λ q. cc) ro),
      ),
    ),
  )
  writer_counts w_read interrupted ws rs r c b x y s t one (f, (u, (g, e))) =
      (tt, (tt, (Received-idle r c _ (length y) t.bytes (omega arith) g, λ wo. absurd (wo refl))))
  writer_counts w_read (fails k) ws rs r c b x y s t one (f, (u, (g, e))) =
      (tt, (tt, (Received-idle r c _ (length y) t.bytes (omega arith) g, λ wo. absurd (wo refl))))
  writer_counts w_release (completes k) ws rs r (pos n) b x y s t one (f, (u, (g, e))) =
      (f, (u, (g, λ wo ro. Even-moved (omega arith) (e (λ q. cc) ro))))
  writer_counts w_release (completes k) ws rs r (negsuc n) b x y s t one (f, (u, (g, e))) = absurd u
  writer_counts w_release interrupted ws rs r c b x y s t one (f, (u, (g, e))) =
      (f, (tt, (g, λ wo. absurd (wo refl))))
  writer_counts w_release (fails k) ws rs r c b x y s t one (f, (u, (g, e))) =
      (f, (tt, (g, λ wo. absurd (wo refl))))
  writer_counts w_check a ws rs r (pos zero) b x y s t one (f, (u, (g, e))) =
      (f, (Carried-all u.0 (u.1 refl), (g, λ wo. e (λ q. cc))))
  writer_counts w_check a ws rs r (pos (suc n)) b x y s t one (f, (u, (g, e))) =
      (f, (Carried-add u.0, (g, λ wo ro. Even-sent (e (λ q. cc) ro))))
  writer_counts w_check a ws rs r (negsuc n) b x y s t one (f, (u, (g, e))) = absurd u
  writer_counts w_last (completes k) zero rs r c b x y s t one h = tt
  writer_counts w_last (completes k) (suc v) rs r c b x y s t one (f, (u, (g, e))) =
      (f, (u, (g, λ wo. e (λ q. cc))))
  writer_counts w_last interrupted ws rs r c b x y s t one h = h
  writer_counts w_last (fails k) ws rs r c b x y s t one (f, (u, (g, e))) =
      (f, (tt, (g, λ wo. absurd (wo refl))))
  writer_counts w_remove (completes k) ws rs r c b x y s t one (f, (u, (g, e))) =
      (f, (u, (g, λ wo. e (λ q. cc))))
  writer_counts w_remove interrupted ws rs r c b x y s t one (f, (u, (g, e))) =
      (f, (tt, (g, λ wo. absurd (wo refl))))
  writer_counts w_remove (fails k) ws rs r c b x y s t one (f, (u, (g, e))) =
      (f, (tt, (g, λ wo. absurd (wo refl))))
  writer_counts w_ended a ws rs r c b x y s t one h = tt
  writer_counts w_failed a ws rs r c b x y s t one h = tt

  -- A semaphore that the reader can take comes with a chunk.
  handed-Received :
      {ws v : ℕ} {w : WriterAt} {r : ReaderAt} {c : ℤ} {m : Mode}
      → Control ws (suc v) w r c m
      → (done b : ℕ) → b ≡ done % 4294967296
      → Received r_look c done b
  handed-Received (handed w i) done b h = h

  pub reader_counts :
      (r : ReaderAt) (a : Answer) (ws rs : ℕ) (w : WriterAt) (c : ℤ) (buf input output : Bytes)
      (sent received : Counts) (m : Mode)
      → Control ws rs w r c m
      → length buf ≡ buf_size
      → Counted total (state ws rs w r c buf input output sent received)
      → IfSome (Counted total) (reader_turn r a (state ws rs w r c buf input output sent received))
  unfolding reader_turn
  reader_counts r_reserve (completes k) ws zero w c b x y s t m o size h = tt
  reader_counts r_reserve (completes k) ws (suc v) w c b x y s t m o size (f, (u, (g, e))) = (
    f,
    (
      u,
      (handed-Received o (length y) t.bytes g, λ wo ro. Even-moved (omega arith) (e wo (λ q. cc))),
    ),
  )
  reader_counts r_reserve interrupted ws rs w c b x y s t m o size h = h
  reader_counts r_reserve (fails k) ws rs w c b x y s t m o size (f, (u, (g, e))) =
      (f, (u, (tt, λ wo ro. absurd (ro refl))))
  reader_counts r_look a ws rs w (pos zero) b x y s t m o size (f, (u, (g, e))) =
      (f, (u, (g, λ wo ro. Even-zero (e wo (λ q. cc)))))
  reader_counts r_look a ws rs w (pos (suc n)) b x y s t m o size (f, (u, (g, e))) =
      (f, (u, (omega arith, λ wo ro. e wo (λ q. cc))))
  reader_counts r_look a ws rs w (negsuc n) b x y s t m o size (f, (u, (g, e))) = absurd g
  reader_counts r_write a ws rs w (pos zero) b x y s t m o size (f, (u, (g, e))) = absurd g
  reader_counts r_write (completes k) ws rs w (pos (suc n)) b x y s t m o size (f, (u, (g, e))) = (
    f,
    (
      u,
      (
        omega (arith, length-append y (take (suc n) b), length-take (suc n) b),
        λ wo ro. e wo (λ q. cc),
      ),
    ),
  )
  reader_counts r_write interrupted ws rs w (pos (suc n)) b x y s t m o size (f, (u, (g, e))) =
      (f, (u, (tt, λ wo ro. absurd (ro refl))))
  reader_counts r_write (fails k) ws rs w (pos (suc n)) b x y s t m o size (f, (u, (g, e))) =
      (f, (u, (tt, λ wo ro. absurd (ro refl))))
  reader_counts r_write a ws rs w (negsuc n) b x y s t m o size (f, (u, (g, e))) = absurd g
  reader_counts r_release a ws rs w (pos zero) b x y s t m o size (f, (u, (g, e))) = absurd g
  reader_counts r_release (completes k) ws rs w (pos (suc n)) b x y s t m o size (f, (u, (g, e))) =
      (
        f,
        (
          u,
          (
            g,
            λ wo ro.
                Even-moved (omega arith) (
                  Even-got
                    (Even-moved {n = suc (releasing w + rs)} (omega arith) (e wo (λ q. cc)))),
          ),
        ),
      )
  reader_counts r_release interrupted ws rs w (pos (suc n)) b x y s t m o size (f, (u, (g, e))) =
      (f, (u, (tt, λ wo ro. absurd (ro refl))))
  reader_counts r_release (fails k) ws rs w (pos (suc n)) b x y s t m o size (f, (u, (g, e))) =
      (f, (u, (tt, λ wo ro. absurd (ro refl))))
  reader_counts r_release a ws rs w (negsuc n) b x y s t m o size (f, (u, (g, e))) = absurd g
  reader_counts r_last (completes k) ws rs w c b x y s t m o size (f, (u, (g, e))) =
      (f, (u, (g, λ wo ro. e wo (λ q. cc))))
  reader_counts r_last interrupted ws rs w c b x y s t m o size (f, (u, (g, e))) =
      (f, (u, (tt, λ wo ro. absurd (ro refl))))
  reader_counts r_last (fails k) ws rs w c b x y s t m o size (f, (u, (g, e))) =
      (f, (u, (tt, λ wo ro. absurd (ro refl))))
  reader_counts r_ended a ws rs w c b x y s t m o size h = tt
  reader_counts r_failed a ws rs w c b x y s t m o size h = tt
