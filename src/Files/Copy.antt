-- ===== src/Files/Copy.antt =====
-- What the programs that copy a file leave behind.
use network_system_programmi.Base.{
  take-all, drop-all, ℕ, zero, suc, ◌<◌, ◌≤◌, ◌≡◌, refl, sym, ap, ◌∙◌, false, none, some, List, [],
  ◌∷◌, ◌++◌, arith, eq_bytes, eq_bytes→eq, eq_bytes_refl, take, drop, length, replicate, write_at,
  write_at-start, Bool-cases, inl, inr, take-append-drop, length-drop, length-replicate, append-nil,
}
use network_system_programmi.Files.{
  Bytes, FileSystem, put, content_of, mycat_loop, output, mycat, CopyCalls, buf_size_of,
  is_negative, copy, pad_to, mmap_copy, ends,
}

pub put-same : (fs : FileSystem) (p s : Bytes) → put fs p s p ≡ some s
unfolding put
put-same fs p s = rw (eq_bytes_refl p) refl

pub put-other : (fs : FileSystem) (p s q : Bytes) → eq_bytes q p ≡ false → put fs p s q ≡ fs q
unfolding put
put-other fs p s q e = rw e refl

-- Writing a file once more.
pub put-put : (fs : FileSystem) (p s t q : Bytes) → put (put fs p s) p t q ≡ put fs p t q
unfolding put
put-put fs p s t q = elim (Bool-cases (eq_bytes q p)) [ inl e ↦ rw e refl | inr e ↦ rw e refl ]

-- Writing what a file holds changes nothing.
pub put-content :
    (fs : FileSystem) (p s : Bytes) → fs p ≡ some s → (q : Bytes) → put fs p s q ≡ fs q
unfolding put
put-content fs p s e q = elim (Bool-cases (eq_bytes q p)) [
  | inl same ↦ rw (same, eq_bytes→eq q p same) (sym e)
  | inr other ↦ rw other refl
]

put-cong : (fs gs : FileSystem) (p s q : Bytes) → fs q ≡ gs q → put fs p s q ≡ put gs p s q
unfolding put
put-cong fs gs p s q e = elim (Bool-cases (eq_bytes q p)) [
  | inl same ↦ rw same refl
  | inr other ↦ rw other e
]

mycat_loop_lem : (fuel : ℕ) (file : Bytes) → length file ≤ fuel → mycat_loop fuel file ≡ file
unfolding mycat_loop
mycat_loop_lem zero [] h = refl
mycat_loop_lem zero (c ∷ s) h = absurd (omega (arith, h))
mycat_loop_lem (suc fuel) [] h = refl
mycat_loop_lem (suc fuel) (c ∷ s) h =
    let rest =
      mycat_loop_lem fuel (drop 1024 (c ∷ s)) (omega (arith, h, length-drop 1024 (c ∷ s))) in
    ap (λ r. take 1024 (c ∷ s) ++ r) rest ∙ take-append-drop 1024 (c ∷ s)

-- `mycat` prints a file that it can open byte for byte, zero bytes included.
pub mycat_lem :
    (path file : Bytes) (more : List Bytes) (fs : FileSystem)
    → fs path ≡ some file
    → mycat (path ∷ more) fs ≡ output file
unfolding mycat
mycat_lem path file more fs e = rw e (ap output (mycat_loop_lem (length file) file (omega arith)))

-- The calls of `copy` take all bytes.
pub record Full (c : CopyCalls) (content : Bytes) : Type 0 where
  pub failing : c.failing ≡ none
  pub fits : length content < 2147483648
  pub buffer : length c.buffer ≡ length content
  pub reads : length content ≤ c.read_count
  pub writes : length content ≤ c.write_count

size-fits : (size : ℕ) → size < 2147483648 → buf_size_of size ≡ size
size-fits size h = omega arith

size-positive : (size : ℕ) → size < 2147483648 → is_negative size ≡ false
size-positive size h = ground (arith, size-fits size h)

copied :
    (c : CopyCalls) (content : Bytes)
    → Full c content
    → take (length content) (
        take c.write_count
          (write_at 0 (take (length content) (take c.read_count content)) c.buffer))
      ≡ content
copied c content h =
    let all = take-all c.read_count content h.reads in
    let filled : write_at 0 content c.buffer ≡ content =
      write_at-start content c.buffer (omega (arith, h.buffer))
      ∙ ap (λ r. content ++ r) (drop-all (length content) c.buffer (omega (arith, h.buffer)))
      ∙ append-nil content in
    let whole = take-all (length content) content (omega arith) in
    rw (all, whole, filled, take-all c.write_count content h.writes) whole

copy_lem :
    (c : CopyCalls) (source target content : Bytes) (fs : FileSystem)
    → fs source ≡ some content
    → Full c content
    → (after : FileSystem) × (copy c source target fs ≡ ends after)
      × ((q : Bytes) → after q ≡ put fs target content q)
unfolding copy
copy_lem c source target content fs e h = (
  put (put fs source content) target content,
  rw
      (
        h.failing,
        e,
        put-same fs source content,
        size-positive (length content) h.fits,
        size-fits (length content) h.fits,
        copied c content h,
      )
      refl,
  λ q. put-cong _ fs target content q (put-content fs source content e q),
)

take-append : (s t : Bytes) → take (length s) (s ++ t) ≡ s
take-append [] t = refl
take-append (c ∷ s) t = ap (λ r. c ∷ r) (take-append s t)

-- What the mapping of the target is filled with, and what that leaves.
mmap_copy-to :
    (source target content shown : Bytes) (fs : FileSystem)
    → fs source ≡ some content
    → content_of (put (put fs target []) target (pad_to (length content) []) source) ≡ shown
    → (after : FileSystem) × (mmap_copy none source target fs ≡ ends after)
      × ((q : Bytes) → after q ≡ put fs target (pad_to (length content) shown) q)
unfolding mmap_copy
mmap_copy-to source target content shown fs e seen =
    let sized = put (put fs target []) target (pad_to (length content) []) in
    (
      put sized target (pad_to (length content) shown),
      rw (mmap_copy, e, seen) refl,
      λ q.
          put-put (put fs target []) target (pad_to (length content) []) _ q
          ∙ put-put fs target [] _ q,
    )

-- With the paths of two different files, a source of fewer than 2 ^ 31 bytes, no call that fails,
-- and `read` and `write` taking all bytes, hw1-2.c and 49-1.c leave the same files: the target
-- holds what the source holds, and all else is as before.
pub mmap_copy-copy :
    (c : CopyCalls) (source target content : Bytes) (fs : FileSystem)
    → fs source ≡ some content
    → Full c content
    → eq_bytes source target ≡ false
    → ((after : FileSystem) × (mmap_copy none source target fs ≡ ends after)
        × ((q : Bytes) → after q ≡ put fs target content q))
      × ((after : FileSystem) × (copy c source target fs ≡ ends after)
          × ((q : Bytes) → after q ≡ put fs target content q))
mmap_copy-copy c source target content fs e full apart =
    let kept =
      put-other (put fs target []) target (pad_to (length content) []) source apart
      ∙ put-other fs target [] source apart
      ∙ e in
    let (after, done, result) =
      mmap_copy-to source target content content fs e (ap content_of kept) in
    (
      (
        after,
        done,
        λ q.
            result q
            ∙ ap (λ s. put fs target s q) (take-append content (replicate (length content) 0)),
      ),
      copy_lem c source target content fs e full,
    )

-- With the same path twice, a file of fewer than 2 ^ 31 bytes, no call that fails, and `read` and
-- `write` taking all bytes: 49-1.c replaces the file by as many zero bytes, and hw1-2.c leaves
-- every file as it was.
pub mmap_copy-same :
    (c : CopyCalls) (path content : Bytes) (fs : FileSystem)
    → fs path ≡ some content
    → Full c content
    → ((after : FileSystem) × (mmap_copy none path path fs ≡ ends after)
        × (after path ≡ some (replicate (length content) 0)))
      × ((after : FileSystem) × (copy c path path fs ≡ ends after) × ((q : Bytes) → after q ≡ fs q))
mmap_copy-same c path content fs e full =
    let zeros : Bytes = replicate (length content) 0 in
    let size : length zeros ≡ length content = length-replicate (length content) zero in
    let padded : take (length content) (replicate (length content) 0) ≡ zeros =
      take-all (length content) zeros (omega (arith, size)) in
    let shown =
      ap content_of (put-same (put fs path []) path (pad_to (length content) [])) ∙ padded in
    let (after, done, result) = mmap_copy-to path path content zeros fs e shown in
    let (left, copied_to, kept) = copy_lem c path path content fs e full in
    (
      (
        after,
        done,
        result path
            ∙ put-same fs path (pad_to (length content) zeros)
            ∙ ap some (ap (λ n. take n (zeros ++ zeros)) (sym size) ∙ take-append zeros zeros),
      ),
      (left, copied_to, λ q. kept q ∙ put-content fs path content e q),
    )
