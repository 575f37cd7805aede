-- ===== src/Dict/Remote/Serve.antt =====
-- What the servers of SP_HW11 answer.
use network_system_programmi.Base.{
  ℕ, zero, suc, ◌<◌, ◌≡◌, ◌≢◌, refl, ◌∙◌, true, Option, none, some, List, [], ◌∷◌, ◌++◌, length,
  map, take, drop, arith, if◌then◌else◌, Option-cases, inl, inr, All, NoNul, NoNul-c_string,
  eq_bytes, eq_bytes→eq, eq_bytes_refl, length-write_at,
}
use native.Mathlib.Decide.{dec_lt}
use network_system_programmi.Dict.Record.{
  Bytes, Dictrec, word_size, text_size, record_size, word_of, text_of, strcpy_text, found,
  not_found,
}
use network_system_programmi.Dict.Search.{Statics, entry, first_time, lookup}
use network_system_programmi.Dict.Search.Laws.{
  IsSorted, records, loaded, lookup-found, lookup-not_found,
}
use network_system_programmi.Dict.Server.{
  no_entry, receive_word, clear_word, Served, serve_request, serve_requests,
}
use network_system_programmi.Dict.Remote.Memory.{
  Ready, word_of-receive_word, word_of-Ready, Ready-clear_word, text_of-strcpy_text,
}

-- The index of a record with a word, among the first n of a file, by a plain scan.
unfoldable pub scan : Bytes → Bytes → ℕ → Option ℕ
scan file w zero = none
scan file w (suc n) =
    let rest = scan file w n in if eq_bytes (word_of (entry file n)) w then some n else rest

-- What the file says of a word.
abbrev pub entry_for : Bytes → Bytes → Option ℕ
entry_for file w = scan file w (records file)

abbrev pub reply_of : Bytes → Option ℕ → Bytes
reply_of file none = no_entry
reply_of file (some i) = text_of (entry file i)

abbrev pub meaning : Bytes → Bytes → Bytes
meaning file w = reply_of file (entry_for file w)

pub scan-found :
    (file w : Bytes) (n i : ℕ) → scan file w n ≡ some i → (i < n) × (word_of (entry file i) ≡ w)
unfolding scan
scan-found file w zero i h = cc
scan-found file w (suc n) i h =
    ground (arith, scan-found file w n i, eq_bytes→eq (word_of (entry file n)) w)

scan-absent :
    (file w : Bytes) (n : ℕ) → scan file w n ≡ none → (i : ℕ) → i < n → word_of (entry file i) ≢ w
unfolding scan
scan-absent file w zero h i lt e = absurd (omega arith)
scan-absent file w (suc n) h i lt e = elim (dec_lt i n) [
  | yes p ↦ scan-absent file w n (ground arith) i p e
  | no q ↦
      let last : n ≡ i = omega arith in
      let same : eq_bytes (word_of (entry file n)) w ≡ true = rw (last, e) (eq_bytes_refl w) in
      ground arith
]

-- Every definition fits the buffers with its NUL.
abbrev pub TextsFit : Bytes → Type 0
TextsFit file = (i : ℕ) → i < records file → length (text_of (entry file i)) < text_size

-- The file is there, and it is open or will be opened.
pub data Serves (file : Bytes) : Statics → Type 0 where
  not_yet : Serves file first_time
  already : Serves file (loaded file)

module _ (file : Bytes) (sorted : IsSorted file (records file)) (mem : Dictrec) where
  lookup-absent :
      (st : Statics)
      → Serves file st
      → entry_for file (word_of mem) ≡ none
      → lookup st (some file) mem
        ≡ some (record { answer = not_found; sought = mem; statics = loaded file })
  lookup-absent st not_yet q =
      (lookup-not_found file mem (scan-absent file (word_of mem) (records file) q) (some file)).0
  lookup-absent st already q =
      let r =
        lookup-not_found file mem (scan-absent file (word_of mem) (records file) q) (some file) in
      r.1 ∙ r.0

  lookup-present :
      (st : Statics)
      → Serves file st
      → (i : ℕ) → entry_for file (word_of mem) ≡ some i
      → lookup st (some file) mem
        ≡ some (record {
          answer = found;
          sought = strcpy_text (text_of (entry file i)) mem;
          statics = loaded file;
        })
  lookup-present st not_yet i q =
      let (hi, e) = scan-found file (word_of mem) (records file) i q in
      (lookup-found file mem sorted i hi e (some file)).0
  lookup-present st already i q =
      let (hi, e) = scan-found file (word_of mem) (records file) i q in
      let r = lookup-found file mem sorted i hi e (some file) in r.1 ∙ r.0

-- A request was answered with a text, and the process is ready for the next.
record Answers (file reply : Bytes) (o : Option Served) : Type 0 where
  served : Served
  served_eq : o ≡ some served
  reply_eq : served.reply ≡ reply
  statics_eq : served.statics ≡ loaded file
  ready : Ready served.tryit
  size : length served.tryit ≡ record_size

module _ (file : Bytes) (sorted : IsSorted file (records file)) (fit : TextsFit file) where
  serve_request-Answers :
      (st : Statics) (mem : Dictrec) (msg : Bytes)
      → Serves file st
      → length mem ≡ record_size
      → Answers file
          (meaning file (word_of (receive_word msg mem)))
          (serve_request (some file) st mem msg)
  unfolding serve_request
  serve_request-Answers st mem msg s size = elim (Option-cases (entry_for file (word_of asked))) [
    | inl q ↦ rw q (
        rw (lookup-absent file sorted asked st s q) (record {
          served = record {
            tryit = clear_word (strcpy_text no_entry asked);
            statics = loaded file;
            reply = text_of (strcpy_text no_entry asked);
          };
          served_eq = refl;
          reply_eq =
              text_of-strcpy_text no_entry asked (refl, (refl, (refl, (refl, tt)))) (omega arith)
                asked_size;
          statics_eq = refl;
          ready = Ready-clear_word _ (copied no_entry);
          size = length-write_at 0 _ (strcpy_text no_entry asked) ∙ copied no_entry;
        }))
    | inr (i, q) ↦
        let (hi, e) = scan-found file (word_of asked) (records file) i q in
        rw q (
          rw (lookup-present file sorted asked st s i q) (record {
            served = record {
              tryit = clear_word (strcpy_text (text_of (entry file i)) asked);
              statics = loaded file;
              reply = text_of (strcpy_text (text_of (entry file i)) asked);
            };
            served_eq = refl;
            reply_eq =
                text_of-strcpy_text (text_of (entry file i)) asked (NoNul-c_string _) (fit i hi)
                  asked_size;
            statics_eq = refl;
            ready = Ready-clear_word _ (copied _);
            size = length-write_at 0 _ (strcpy_text (text_of (entry file i)) asked) ∙ copied _;
          }))
  ]
    where
      asked : Dictrec
      asked = receive_word msg mem

      asked_size : length asked ≡ record_size
      asked_size = length-write_at 0 (take word_size msg) mem ∙ size

      copied : (t : Bytes) → length (strcpy_text t asked) ≡ record_size
      copied t = length-write_at word_size (t ++ 0 ∷ []) asked ∙ asked_size

  -- Once the word is cleared, each message is answered by what the file says of it.
  pub serve_requests-Ready :
      (msgs : List Bytes)
      → All (λ w. NoNul w × (length w < word_size)) msgs
      → (st : Statics) (mem : Dictrec) → Serves file st
      → Ready mem
      → length mem ≡ record_size
      → serve_requests (some file) st mem msgs ≡ map (meaning file) msgs
  unfolding serve_requests
  serve_requests-Ready [] h st mem s r size = refl
  serve_requests-Ready (w ∷ ws) (hw, hs) st mem s r size =
      let a = serve_request-Answers st mem w s size in
      let word : word_of (receive_word w mem) ≡ w = word_of-Ready w mem hw.0 hw.1 r in
      let later : serve_requests (some file) a.served.statics a.served.tryit ws
          ≡ map (meaning file) ws =
        serve_requests-Ready ws hs a.served.statics a.served.tryit (rw a.statics_eq already) a.ready
          a.size in
      rw (a.served_eq, a.reply_eq, word, later) refl

  -- A server over a sorted file whose texts fit, asked for words of at most 31 bytes without a NUL,
  -- looks the first message of a connection up with what stood behind it in the record, which no
  -- code has set, and answers every later message by what a scan of the file says of it.
  pub serve_requests_lem :
      (garbage : Dictrec)
      → length garbage ≡ record_size
      → (w : Bytes) (msgs : List Bytes) → All (λ m. NoNul m × (length m < word_size)) (w ∷ msgs)
      → serve_requests (some file) first_time garbage (w ∷ msgs)
        ≡ meaning file (w ++ word_of (drop (length w) garbage)) ∷ map (meaning file) msgs
  unfolding serve_requests
  serve_requests_lem garbage size w ws (hw, hs) =
      let a = serve_request-Answers first_time garbage w not_yet size in
      let word = word_of-receive_word w garbage hw.0 (omega (arith, hw.1)) size in
      let later =
        serve_requests-Ready ws hs a.served.statics a.served.tryit (rw a.statics_eq already) a.ready
          a.size in
      rw (a.served_eq, a.reply_eq, word, later) refl
