-- ===== src/Dict/Search/Laws.antt =====
-- `bsearch` against its specification, and what `lookup` of lookup5.c answers on a sorted file.
use network_system_programmi.Base.{
  ℕ, zero, suc, ◌+◌, ◌/◌, ◌≤◌, ◌<◌, ◌≡◌, ◌≢◌, refl, sym, Option, none, some, length, arith,
  Option-cases, inl, inr, strcmp, strcmp_refl, strcmp-eq→eq, strcmp-gt→lt, strcmp-lt→gt,
  strcmp_trans, Ordering,
}
use network_system_programmi.Dict.Record.{
  Bytes, Dictrec, record_size, word_of, text_of, strcpy_text, found, not_found,
}
use network_system_programmi.Dict.Search.{
  dict_cmp, bsearch, Statics, entry, search, lookup, first_time,
}

-- What the comparison answers rises with the index.
pub record IsMonotone (cmp : ℕ → Ordering) (n : ℕ) : Type 0 where
  pub above : (i j : ℕ) → i < j → j < n → cmp i ≡ Ordering.lt → cmp j ≡ Ordering.lt
  pub below : (i j : ℕ) → i < j → j < n → cmp j ≡ Ordering.gt → cmp i ≡ Ordering.gt
  pub lone : (i j : ℕ) → i < j → j < n → cmp i ≡ Ordering.eq → cmp j ≡ Ordering.lt

module _ (cmp : ℕ → Ordering) where
  pub bsearch_sound :
      (f l u i : ℕ) → bsearch cmp f l u ≡ some i → (l ≤ i) × (i < u) × (cmp i ≡ Ordering.eq)
  unfolding bsearch
  bsearch_sound zero l u i h = cc
  bsearch_sound (suc f) l u i h =
      ground (arith, bsearch_sound f l ((l + u) / 2) i, bsearch_sound f ((l + u) / 2 + 1) u i)

  module _ {n : ℕ} (m : IsMonotone cmp n) where
    -- The index that compares equal is found.
    pub bsearch_complete :
        (f l u i : ℕ)
        → u < l + f
        → u ≤ n
        → l ≤ i
        → i < u
        → cmp i ≡ Ordering.eq
        → bsearch cmp f l u ≡ some i
    unfolding bsearch
    bsearch_complete zero l u i fuel le lo hi e = absurd (omega arith)
    bsearch_complete (suc f) l u i fuel le lo hi e = ground (
      arith,
      bsearch_complete f l ((l + u) / 2) i,
      bsearch_complete f ((l + u) / 2 + 1) u i,
      m.above ((l + u) / 2) i,
      m.below i ((l + u) / 2),
      m.lone i ((l + u) / 2),
      m.lone ((l + u) / 2) i,
    )

-- The words of the first n records rise, as the comment of lookup5.c assumes.
abbrev pub IsSorted : Bytes → ℕ → Type 0
IsSorted table n =
    (i j : ℕ)
    → i < j
    → j < n
    → strcmp (word_of (entry table i)) (word_of (entry table j)) ≡ Ordering.lt

IsSorted-IsMonotone :
    (table : Bytes) (n : ℕ) (key : Dictrec)
    → IsSorted table n
    → IsMonotone (λ i. dict_cmp key (entry table i)) n
unfolding dict_cmp
IsSorted-IsMonotone table n key s = record {
  above = λ i j lt hi e.
      strcmp_trans (word_of key) (word_of (entry table i)) (word_of (entry table j)) e
        (s i j lt hi);
  below = λ i j lt hi e. strcmp-lt→gt (word_of (entry table i)) (word_of key) (
      strcmp_trans (word_of (entry table i)) (word_of (entry table j)) (word_of key) (s i j lt hi)
        (strcmp-gt→lt (word_of key) (word_of (entry table j)) e));
  lone = λ i j lt hi e. rw (strcmp-eq→eq (word_of key) (word_of (entry table i)) e) (s i j lt hi);
}

abbrev pub records : Bytes → ℕ
records file = length file / record_size

-- The static variables once the file is in memory.
abbrev pub loaded : Bytes → Statics
loaded file = record { table = some file; numrec = records file }

module _ (file : Bytes) (sought : Dictrec) where
  search-found :
      IsSorted file (records file)
      → (i : ℕ) → i < records file
      → word_of (entry file i) ≡ word_of sought
      → search (loaded file) file sought ≡ record {
        answer = found;
        sought = strcpy_text (text_of (entry file i)) sought;
        statics = loaded file;
      }
  unfolding search
  search-found s i hi e = rw (
      bsearch_complete (λ j. dict_cmp sought (entry file j))
        (IsSorted-IsMonotone file (records file) sought s) (suc (records file)) 0 (records file) i
        (omega arith) (omega arith) (omega arith) hi
        (unfold dict_cmp in rw e (strcmp_refl (word_of sought))))

  search-not_found :
      ((i : ℕ) → i < records file → word_of (entry file i) ≢ word_of sought)
      → search (loaded file) file sought
        ≡ record { answer = not_found; sought = sought; statics = loaded file }
  unfolding search
  search-not_found absent =
      elim (Option-cases (bsearch cmp (suc (records file)) 0 (records file))) [
        | inl e ↦ rw e
        | inr (i, e) ↦
            let (lo, hi, q) = bsearch_sound cmp (suc (records file)) 0 (records file) i e in
            absurd (
              absent i hi (
                sym
                  (strcmp-eq→eq (word_of sought) (word_of (entry file i)) (unfold dict_cmp in q))))
      ]
    where
      cmp : ℕ → Ordering
      cmp j = dict_cmp sought (entry file j)

  -- In a file whose words rise, a word that some record has is found by `lookup` of lookup5.c: the
  -- text of that record is copied behind the word sought. The first call, which opens the file, and
  -- every later one, which does not, agree.
  pub lookup-found :
      IsSorted file (records file)
      → (i : ℕ) → i < records file
      → word_of (entry file i) ≡ word_of sought
      → (later : Option Bytes)
      → (lookup first_time (some file) sought
          ≡ some (record {
            answer = found;
            sought = strcpy_text (text_of (entry file i)) sought;
            statics = loaded file;
          }))
        × (lookup (loaded file) later sought ≡ lookup first_time (some file) sought)
  unfolding lookup
  lookup-found s i hi e later = (rw (search-found s i hi e), refl)

  -- A word that no record has is not found by `lookup` of lookup5.c, whether the file is sorted or
  -- not, and the record sought stays as it was, in the first call and in later ones; a file that
  -- cannot be opened ends the program.
  pub lookup-not_found :
      ((i : ℕ) → i < records file → word_of (entry file i) ≢ word_of sought)
      → (later : Option Bytes)
      → (lookup first_time (some file) sought
          ≡ some (record { answer = not_found; sought = sought; statics = loaded file }))
        × (lookup (loaded file) later sought ≡ lookup first_time (some file) sought)
        × (lookup first_time none sought ≡ none)
  unfolding lookup
  lookup-not_found absent later = (rw (search-not_found absent), refl, refl)
