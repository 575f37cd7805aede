-- ===== src/Examples/Dict.antt =====
-- The theorems on the dictionary programs at a small dictionary.
use network_system_programmi.Dict.Prompt.{prompt}
use network_system_programmi.Dict.Prompt.Laws.{Typed, shown_word, convert-prompt}
use network_system_programmi.Base.{map}
use network_system_programmi.Base.{
  ℕ, zero, suc, ◌-◌, ◌<◌, ◌≡◌, ◌≢◌, refl, true, false, none, some, [], ◌∷◌, ◌++◌, codes, length,
  arith, replicate, strcmp, eq_bytes, eq_bytes_refl, c_string,
}
use network_system_programmi.Dict.Record.{
  Bytes, Dictrec, word_size, text_size, word_of, text_of, strcpy_text, found,
}
use network_system_programmi.Dict.Search
use network_system_programmi.Dict.Search.{entry, first_time}
use network_system_programmi.Dict.Search.Laws.{IsSorted, records, loaded, lookup-found}
use network_system_programmi.Dict.Convert.{main, wrote}
use network_system_programmi.Dict.Convert.Laws.{
  Entry, Fits, source_all, records_of, main-source_all,
}
use network_system_programmi.Dict.Linear
use network_system_programmi.Dict.Linear.Memory.{memory}
use network_system_programmi.Dict.Linear.Laws.{find_entry, fresh, opened, outcome, convert-lookup}
use network_system_programmi.Dict.Linear.Shown.{entry_of}

-- Records of words that rise.
abbrev pub record_for : Bytes → Bytes → Bytes
record_for w t =
    (w ++ replicate (word_size - length w) 0) ++ (t ++ replicate (text_size - length t) 0)

abbrev pub shelf : Bytes
shelf = record_for (codes "ant") (codes "insect\n") ++ record_for (codes "bee") (codes "flies\n")

pub shelf-IsSorted : IsSorted shelf (records shelf)
unfolding strcmp c_string
shelf-IsSorted zero zero lt hi = absurd (omega arith)
shelf-IsSorted zero (suc zero) lt hi = refl
shelf-IsSorted zero (suc (suc j)) lt hi = absurd (omega arith)
shelf-IsSorted (suc i) (suc zero) lt hi = absurd (omega arith)
shelf-IsSorted (suc i) (suc (suc j)) lt hi = absurd (omega arith)
shelf-IsSorted (suc i) zero lt hi = absurd (omega arith)

abbrev asked : Bytes → Dictrec
asked w = record_for w []

lookup-found_example :
    (Search.lookup first_time (some shelf) (asked (codes "bee"))
      ≡ some (record {
        answer = found;
        sought = strcpy_text (text_of (entry shelf 1)) (asked (codes "bee"));
        statics = loaded shelf;
      }))
    × (Search.lookup (loaded shelf) none (asked (codes "bee"))
        ≡ Search.lookup first_time (some shelf) (asked (codes "bee")))
unfolding c_string
lookup-found_example =
    lookup-found shelf (asked (codes "bee")) shelf-IsSorted 1 (omega arith) refl none

different : (a b : Bytes) → eq_bytes a b ≡ false → a ≢ b
different a b h e = let same : eq_bytes a b ≡ true = rw e (eq_bytes_refl b) in ground arith

absent : (i : ℕ) → i < records shelf → word_of (entry shelf i) ≢ word_of (asked (codes "cat"))
unfolding c_string
absent zero hi = different _ _ refl
absent (suc zero) hi = different _ _ refl
absent (suc (suc i)) hi = absurd (omega arith)

abbrev bee : Entry
bee = entry_of (codes "bee") (codes "an insect") (codes "that flies" ∷ [])

bee-Fits : Fits bee
bee-Fits = record {
  word_text = ((refl, refl), ((refl, refl), ((refl, refl), tt)));
  line_texts = (
    (
      (refl, refl),
      (
        (refl, refl),
        (
          (refl, refl),
          (
            (refl, refl),
            ((refl, refl), ((refl, refl), ((refl, refl), ((refl, refl), ((refl, refl), tt))))),
          ),
        ),
      ),
    ),
    (
      (
        (refl, refl),
        (
          (refl, refl),
          (
            (refl, refl),
            (
              (refl, refl),
              (
                (refl, refl),
                ((refl, refl), ((refl, refl), ((refl, refl), ((refl, refl), ((refl, refl), tt))))),
              ),
            ),
          ),
        ),
      ),
      tt,
    ),
  );
  word_room = omega arith;
  text_room = omega arith;
}

convert-lookup_example :
    (file : Bytes) × (main 3 (some (source_all (bee ∷ []))) true ≡ wrote file)
    × (Linear.lookup fresh (some file) (memory (codes "bee") 0 (replicate 507 0))
        ≡ some (record {
          result = outcome (codes "bee") (replicate 507 0) (find_entry (codes "bee") (bee ∷ []));
          statics = opened file;
        }))
    × (Linear.lookup (opened file) none (memory (codes "bee") 0 (replicate 507 0))
        ≡ Linear.lookup fresh (some file) (memory (codes "bee") 0 (replicate 507 0)))
convert-lookup_example =
    convert-lookup (bee ∷ []) (codes "bee") (replicate 507 0) 0 none (bee-Fits, tt)
      ((refl, refl), ((refl, refl), ((refl, refl), tt)))

main-source_all_example : main 3 (some (source_all (bee ∷ []))) true ≡ wrote (records_of (bee ∷ []))
main-source_all_example = main-source_all (bee ∷ []) (bee-Fits, tt)

bee-Typed : Typed (codes "bee")
bee-Typed = (((refl, refl), ((refl, refl), ((refl, refl), tt))), omega arith)

-- "bee", a word that is not there, and "bee" again.
convert-prompt_example :
    (file : Bytes) × (main 3 (some (source_all (bee ∷ []))) true ≡ wrote file)
    × (prompt fresh (some file) (replicate 512 0) (codes "bee" ∷ codes "x" ∷ codes "bee" ∷ [])
        ≡ map (shown_word (bee ∷ [])) (codes "bee" ∷ codes "x" ∷ codes "bee" ∷ []))
convert-prompt_example =
    convert-prompt (bee ∷ []) (codes "bee" ∷ codes "x" ∷ codes "bee" ∷ []) (replicate 512 0)
      (bee-Fits, tt) (bee-Typed, ((((refl, refl), tt), omega arith), (bee-Typed, tt))) refl
