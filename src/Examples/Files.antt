-- ===== src/Examples/Files.antt =====
-- The theorems on the programs that copy files.
use network_system_programmi.Base.{◌≡◌, refl, none, some, [], ◌∷◌, arith, length, replicate, codes}
use network_system_programmi.Files.{
  Bytes, FileSystem, put, CopyCalls, copy, mmap_copy, ends, produce_file, nullbyte_txt,
}
use network_system_programmi.Files.Copy.{Full, put-same, mmap_copy-copy, mmap_copy-same}
use network_system_programmi.Files.Tee.{Texts}

abbrev no_files : FileSystem
no_files p = none

-- The file that produce_file.c makes.
abbrev source : Bytes
source = codes "nullbyte.txt"

abbrev files : FileSystem
files = produce_file no_files

files-source : files source ≡ some nullbyte_txt
unfolding produce_file
files-source = put-same no_files source nullbyte_txt

abbrev calls : CopyCalls
calls = record { failing = none; buffer = replicate 24 7; read_count = 24; write_count = 24 }

calls-Full : Full calls nullbyte_txt
calls-Full = record {
  failing = refl;
  fits = omega arith;
  buffer = refl;
  reads = omega arith;
  writes = omega arith;
}

mmap_copy-copy_example :
    ((after : FileSystem) × (mmap_copy none source (codes "b") files ≡ ends after)
      × ((q : Bytes) → after q ≡ put files (codes "b") nullbyte_txt q))
    × ((after : FileSystem) × (copy calls source (codes "b") files ≡ ends after)
        × ((q : Bytes) → after q ≡ put files (codes "b") nullbyte_txt q))
mmap_copy-copy_example =
    mmap_copy-copy calls source (codes "b") nullbyte_txt files files-source calls-Full refl

mmap_copy-same_example :
    ((after : FileSystem) × (mmap_copy none source source files ≡ ends after)
      × (after source ≡ some (replicate (length nullbyte_txt) 0)))
    × ((after : FileSystem) × (copy calls source source files ≡ ends after)
        × ((q : Bytes) → after q ≡ files q))
mmap_copy-same_example = mmap_copy-same calls source nullbyte_txt files files-source calls-Full

-- "one\n" and "two\n"
abbrev one : Bytes
one = codes "one\n"

abbrev two : Bytes
two = codes "two\n"

both-Texts : Texts (one ∷ two ∷ [])
both-Texts = (
  ((refl, (refl, (refl, (refl, tt)))), omega arith, omega arith),
  (((refl, (refl, (refl, (refl, tt)))), omega arith, omega arith), tt),
)
