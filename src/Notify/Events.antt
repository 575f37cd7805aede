-- ===== src/Notify/Events.antt =====
-- Which events of a read file_notify.c shows.
use network_system_programmi.Base.{
  ℕ, zero, suc, ◌+◌, ◌/◌, ◌%◌, ◌≤◌, ◌<◌, ◌≡◌, refl, ap, ◌∙◌, Bool, true, false, Option, List, [],
  ◌∷◌, ◌++◌, if◌then◌else◌, arith, length, length-append, replicate, length-replicate, write_at,
  write_at-start, c_string, c_string-append, NoNul, append-nil, append_assoc, map, some, Bool-cases,
  inl, inr, ltb, lt→ltb,
}
use network_system_programmi.Notify.{
  Bytes, event_size, buf_len, byte_at, word_at, event_at, Flag, all_flags, has_flag, rewatches,
  Shown, wd_is, cookie_is, name_is, flag_is, watching, end_of_event, display_files, display_flags,
  Display, nothing, ◌then◌, display_all_event, display_places, round,
}

byte_at-zeros : (n p : ℕ) → byte_at (replicate n 0) p ≡ 0
byte_at-zeros zero p = refl
byte_at-zeros (suc n) zero = refl
byte_at-zeros (suc n) (suc p) = byte_at-zeros n p

-- Behind what was read the buffer is zero.
byte_at-behind :
    (bytes : Bytes) (n p : ℕ) → length bytes ≤ p → byte_at (write_at 0 bytes (replicate n 0)) p ≡ 0
unfolding write_at
byte_at-behind [] n p h = byte_at-zeros n p
byte_at-behind (b ∷ bs) zero p h = refl
byte_at-behind (b ∷ bs) (suc n) zero h = absurd (omega (arith, h))
byte_at-behind (b ∷ bs) (suc n) (suc p) h = byte_at-behind bs n p (omega (arith, h))

then-nothing :
    (shown : List Shown) (on : Bool)
    → let d : Display = record { shown = shown; goes_on = on } in d then nothing ≡ d
then-nothing s true = ap (λ x. record { shown = x; goes_on = true }) (append-nil s)
then-nothing s false = refl

module _ (files : Option (List (Option ℕ))) (bytes : Bytes) (n : ℕ) where
  abbrev buffer : Bytes
  buffer = write_at 0 bytes (replicate n 0)

  nothing_behind :
      (p : ℕ) → length bytes ≤ p → display_all_event files (event_at buffer p) ≡ nothing
  unfolding display_all_event
  nothing_behind p h =
      rw
        (
          byte_at-behind bytes n p h,
          byte_at-behind bytes n (p + 1) (omega (arith, h)),
          byte_at-behind bytes n (p + 2) (omega (arith, h)),
          byte_at-behind bytes n (p + 3) (omega (arith, h)),
        )
        refl

  places_behind : (k p : ℕ) → length bytes ≤ p → display_places files k buffer p ≡ nothing
  unfolding display_places
  places_behind zero p h = refl
  places_behind (suc k) p h =
      rw (nothing_behind p h, places_behind k (p + event_size) (omega (arith, h))) refl

-- Of a read of at most 272 bytes only the first event is shown.
round-first :
    (files : Option (List (Option ℕ))) (bytes : Bytes)
    → length bytes ≤ event_size
    → round files bytes
      ≡ display_all_event files (event_at (write_at 0 bytes (replicate buf_len 0)) 0)
unfolding round display_places
round-first files bytes h =
    let mem = write_at 0 bytes (replicate buf_len 0) in
    let d = display_all_event files (event_at mem 0) in
    ap (λ e. d then e) (places_behind files bytes buf_len 9 event_size h)
    ∙ then-nothing d.shown d.goes_on

abbrev pub bytes_of : ℕ → Bytes
bytes_of n = n % 256 ∷ n / 256 % 256 ∷ n / 65536 % 256 ∷ n / 16777216 % 256 ∷ []

-- An event as the system writes it: the name is followed by `suc k` zeros, which count in `len`.
abbrev pub encode : (wd mask cookie k : ℕ) → Bytes → Bytes
encode wd mask cookie k name =
    bytes_of wd
    ++ bytes_of mask
    ++ bytes_of cookie
    ++ bytes_of (length name + suc k)
    ++ name
    ++ replicate (suc k) 0

word_at-bytes_of : (n : ℕ) (s : Bytes) → n < 4294967296 → word_at (bytes_of n ++ s) 0 ≡ n
word_at-bytes_of n s h = omega (arith, h)

-- The fields of the first event, with whatever comes behind it.
event_at-encode :
    (wd mask cookie k : ℕ) (name more : Bytes)
    → wd < 4294967296
    → mask < 4294967296
    → cookie < 4294967296
    → length name + suc k < 4294967296
    → NoNul name
    → event_at (encode wd mask cookie k name ++ more) 0
      ≡ record { wd = wd; mask = mask; cookie = cookie; len = length name + suc k; name = name }
event_at-encode wd mask cookie k name more a b c d nn = λ i. record {
  wd = word_at-bytes_of wd [] a i;
  mask = word_at-bytes_of mask [] b i;
  cookie = word_at-bytes_of cookie [] c i;
  len = word_at-bytes_of (length name + suc k) [] d i;
  name =
      (ap c_string (append_assoc name (replicate (suc k) 0) more)
          ∙ c_string-append name (replicate k 0 ++ more) nn)
        i;
}

-- The answers to `nftw` and to `inotify_add_watch` when none fails.
abbrev pub all_watched : List ℕ → Option (List (Option ℕ))
all_watched wds = some (map some wds)

-- What is to be shown of the flags, and of an event.
abbrev pub flags_shown : List ℕ → ℕ → List Flag → List Shown
flags_shown wds mask [] = []
flags_shown wds mask (f ∷ fs) =
    let rest = flags_shown wds mask fs in
    let anew : List Shown = if rewatches f then map watching wds else [] in
    if has_flag mask f then flag_is f ∷ (anew ++ rest) else rest

abbrev pub event_shown : List ℕ → (wd mask cookie : ℕ) → Bytes → List Shown
event_shown wds wd mask cookie name =
    let cookies : List Shown = if ltb 0 cookie then cookie_is cookie ∷ [] else [] in
    wd_is wd ∷ (cookies ++ name_is name ∷ (flags_shown wds mask all_flags ++ end_of_event ∷ []))

abbrev goes_on_with : List Shown → Display
goes_on_with shown = record { shown = shown; goes_on = true }

display_files_lem : (wds : List ℕ) → display_files (map some wds) ≡ goes_on_with (map watching wds)
display_files_lem [] = refl
display_files_lem (wd ∷ wds) = rw (display_files_lem wds) refl

display_flags_lem :
    (wds : List ℕ) (mask : ℕ) (fs : List Flag)
    → display_flags (all_watched wds) mask fs ≡ goes_on_with (flags_shown wds mask fs)
display_flags_lem wds mask [] = refl
display_flags_lem wds mask (f ∷ fs) = elim (Bool-cases (has_flag mask f)) [
  | inr off ↦ rw off (display_flags_lem wds mask fs)
  | inl on ↦ elim (Bool-cases (rewatches f)) [
    | inl anew ↦ rw (on, anew, display_files_lem wds, display_flags_lem wds mask fs) refl
    | inr plain ↦ rw (on, plain, display_flags_lem wds mask fs) refl
  ]
]

display_all_event_lem :
    (wds : List ℕ) (wd mask cookie k : ℕ) (name : Bytes)
    → 0 < wd
    → wd < 2147483648
    → display_all_event
        (all_watched wds)
        (record { wd = wd; mask = mask; cookie = cookie; len = length name + suc k; name = name })
      ≡ goes_on_with (event_shown wds wd mask cookie name)
unfolding display_all_event
display_all_event_lem wds wd mask cookie k name low high =
    let flags = display_flags_lem wds mask all_flags in
    elim (Bool-cases (ltb 0 cookie)) [
      | inl some_cookie ↦
          rw
            (
              lt→ltb 0 wd low,
              lt→ltb wd 2147483648 high,
              lt→ltb 0 (length name + suc k) (omega arith),
              some_cookie,
              flags,
            )
            refl
      | inr no_cookie ↦
          rw
            (
              lt→ltb 0 wd low,
              lt→ltb wd 2147483648 high,
              lt→ltb 0 (length name + suc k) (omega arith),
              no_cookie,
              flags,
            )
            refl
    ]

-- A read of at most 272 bytes begins with an event: a descriptor that is a positive `int`, a mask
-- and a cookie of 32 bits, and a name without NUL that is followed by one NUL or more; the walks
-- over the files succeed, with the same descriptors each time. Then `main` shows of the event the
-- descriptor, a cookie that is not 0, the name and the flags, with the files that are watched anew
-- behind four of them, and it shows nothing of the events that come behind.
pub round-encode :
    (watched : List ℕ) (wd mask cookie k : ℕ) (name more : Bytes)
    → 0 < wd
    → wd < 2147483648
    → mask < 4294967296
    → cookie < 4294967296
    → NoNul name
    → length (encode wd mask cookie k name ++ more) ≤ event_size
    → round (all_watched watched) (encode wd mask cookie k name ++ more)
      ≡ record { shown = event_shown watched wd mask cookie name; goes_on = true }
round-encode watched wd mask cookie k name more low a b c nn short =
    round-first (all_watched watched) (encode wd mask cookie k name ++ more) short
    ∙ ap (display_all_event (all_watched watched)) here
    ∙ display_all_event_lem watched wd mask cookie k name low a
  where
    bytes : Bytes
    bytes = encode wd mask cookie k name ++ more

    long : length name + suc k ≤ length bytes
    long =
        let pad : Bytes = replicate (suc k) 0 in
        omega (
          arith,
          length-append (name ++ pad) more,
          length-append name pad,
          length-replicate (suc k) zero,
        )

    here :
        event_at (write_at 0 bytes (replicate buf_len 0)) 0
        ≡ record { wd = wd; mask = mask; cookie = cookie; len = length name + suc k; name = name }
    here =
        ap (λ mem. event_at mem 0)
          (write_at-start bytes (replicate buf_len 0) (omega (arith, short))
            ∙ append_assoc (encode wd mask cookie k name) more _)
        ∙ event_at-encode wd mask cookie k name _ (omega (arith, a)) b c
            (omega (arith, long, short)) nn
