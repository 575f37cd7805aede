-- ===== src/Process/Tree/Main.antt =====
-- The nodes of hw3_part2.c before they are linked.
use network_system_programmi.Base.{
  ℕ, ◌+◌, ◌≤◌, ◌<◌, ◌≡◌, refl, ap, Option, none, some, List, [], ◌∷◌, Option-cases, Bool-cases, inl,
  inr, arith, update, ◌==◌, atoi, Key, strtok,
}
use mathlib.Core.Path.{subst}
use network_system_programmi.Process.Status.{Bytes, Entry, is_space, is_zero, reads_as}
use network_system_programmi.Process.Tree.{
  Node, Nodes, Collected, with_value, read_status, collect, nodes, crashed, returned, new_node,
  prints, init_line, Line, main,
}
use network_system_programmi.Process.Tree.Fathers.{Fresh}
use network_system_programmi.Process.Tree.Traversal.{Printed}
use network_system_programmi.Process.Tree.Printed.{Descends, traversal_lem}

abbrev Unlinked : Node → Type 0
Unlinked node = (node.child ≡ none) × (node.father ≡ none) × (node.sibling ≡ none)

some-Unlinked : (node : Node) {out : Node} → Unlinked node → some node ≡ some out → Unlinked out
some-Unlinked node {out} h e = let same : node ≡ out = ground arith in subst Unlinked same h

with_value-Unlinked :
    (value : Option Key) (f : Bytes → Option Node) {out : Node}
    → with_value value f ≡ some out
    → ((v : Bytes) → f v ≡ some out → Unlinked out)
    → Unlinked out
with_value-Unlinked none f e h = absurd (ground (arith, e))
with_value-Unlinked (some value) f e h = h value.token e

read_status-Unlinked :
    (ls : List Bytes) (node : Node) {out : Node}
    → Unlinked node
    → read_status ls node ≡ some out
    → Unlinked out
unfolding read_status
read_status-Unlinked [] node h e = some-Unlinked node h e
read_status-Unlinked (l ∷ ls) node h e = elim (Option-cases (strtok is_space l)) [
  | inl no_key ↦ absurd (ground (arith, rw (read_status, no_key) at e))
  | inr (key, is_key) ↦
      let e1 = rw (read_status, is_key) at e in
      elim (Bool-cases (reads_as key "Name:")) [
        | inl named ↦
            with_value-Unlinked (strtok is_space key.rest) _ (rw named at e1)
              (λ v e2. read_status-Unlinked ls _ h e2)
        | inr other ↦
            let e2 = rw other at e1 in
            elim (Bool-cases (reads_as key "PPid:")) [
              | inl parent ↦
                  with_value-Unlinked (strtok is_space key.rest) _ (rw parent at e2)
                    (λ v e3. some-Unlinked _ h e3)
              | inr neither ↦ read_status-Unlinked ls node h (rw neither at e2)
            ]
      ]
]

Fresh-update :
    (i : ℕ) (pn : Nodes) (node : Node)
    → Unlinked node
    → Fresh i pn
    → Fresh (i + 1) (update pn i node)
unfolding update
Fresh-update i pn node u h = record {
  no_child = λ x lt. at Node.child x u.0 (λ le. h.no_child x le) lt;
  no_father = λ x lt. at Node.father x u.1 (λ le. h.no_father x le) lt;
  no_sibling = λ x lt. at Node.sibling x u.2 (λ le. h.no_sibling x le) lt;
}
  where
    at :
        (field : Node → Option ℕ) (x : ℕ)
        → field node ≡ none
        → (x < i → field (pn x) ≡ none)
        → x < i + 1
        → field (update pn i node x) ≡ none
    at field x new old lt = elim (Bool-cases (x == i)) [
      | inl same ↦ rw same new
      | inr other ↦ rw other (old (ground (arith, other, lt)))
    ]

count_of : Collected → ℕ
count_of (nodes n pn) = n
count_of crashed = 0
count_of returned = 0

array_of : Nodes → Collected → Nodes
array_of d (nodes n pn) = pn
array_of d crashed = d
array_of d returned = d

nodes-injective : {m n : ℕ} {pn qn : Nodes} → nodes m pn ≡ nodes n qn → (m ≡ n) × (pn ≡ qn)
unfolding count_of array_of
nodes-injective {pn} e = (ap count_of e, ap (array_of pn) e)

collect-Fresh :
    (es : List Entry) (i : ℕ) (pn : Nodes) {n : ℕ} {qn : Nodes}
    → Fresh i pn
    → collect es i pn ≡ nodes n qn
    → Fresh n qn
unfolding collect
collect-Fresh [] i pn {n} {qn} h e =
    let (same_n, same_pn) = nodes-injective e in
    subst (λ m. Fresh m qn) same_n (subst (Fresh i) same_pn h)
collect-Fresh (x ∷ es) i pn h e = elim (Bool-cases (is_zero (atoi x.d_name))) [
  | inl skip ↦ collect-Fresh es i pn h (rw (collect, skip) at e)
  | inr kept ↦
      let e1 = rw (collect, kept) at e in
      elim (Option-cases x.status) [
        | inl closed ↦ absurd (ground (arith, rw closed at e1))
        | inr (lines, open_ok) ↦
            let e2 = rw open_ok at e1 in
            elim (Option-cases (read_status lines (new_node (atoi x.d_name) (pn i)))) [
              | inl bad ↦ absurd (ground (arith, rw bad at e2))
              | inr (node, good) ↦
                  collect-Fresh es (i + 1) (update pn i node)
                    (Fresh-update i pn node (read_status-Unlinked lines _ (refl, refl, refl) good)
                      h)
                    (rw good at e2)
            ]
      ]
]

pub main-Fresh :
    (entries : List Entry) (memory : Nodes) {n : ℕ} {pn : Nodes}
    → collect entries 0 memory ≡ nodes n pn
    → Fresh n pn
main-Fresh entries memory e =
    let none_yet : Fresh 0 memory = record {
      no_child = λ x lt. absurd (omega (arith, lt));
      no_father = λ x lt. absurd (omega (arith, lt));
      no_sibling = λ x lt. absurd (omega (arith, lt));
    } in
    collect-Fresh entries 0 memory none_yet e

-- When the "status" of every entry of /proc that is a number can be opened and read, and there are
-- two of them or more, `main` prints "init" and lines behind it and ends, whatever the memory held;
-- among the lines is one with the name of each process that descends from the first two by the
-- numbers of process and parent, the parent standing in front.
pub main_lem :
    (entries : List Entry) (memory : Nodes) (n : ℕ) (pn : Nodes)
    → collect entries 0 memory ≡ nodes n pn
    → 2 ≤ n
    → (lines : List Line) × (main entries memory ≡ prints (init_line ∷ lines))
      × ((x : ℕ) → x < n → Descends pn x → Printed lines (pn x).name)
unfolding main
main_lem entries memory n pn e two =
    let fresh = main-Fresh entries memory e in
    let (w, ends, names) = traversal_lem n pn fresh two in (w.lines, rw (main, e, ends) refl, names)
