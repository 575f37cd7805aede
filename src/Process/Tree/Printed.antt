-- ===== src/Process/Tree/Printed.antt =====
-- `main` of hw3_part2.c ends, and prints the processes that descend from the first two.
use network_system_programmi.Base.{
  ℕ, zero, suc, ◌+◌, ◌-◌, ◌*◌, ◌≤◌, ◌<◌, ◌≡◌, refl, sym, ap, ◌∙◌, none, some, Option-cases, inl,
  inr, arith, update-same, update-other,
}
use native.Mathlib.Nat.{mul-le-mul_right}
use network_system_programmi.Process.Tree.{
  Node, Nodes, link_all, link_kthreadd, Walk, traversal, fuel_for, fresh_walk,
}
use network_system_programmi.Process.Tree.Linked.{Linked, field-update}
use network_system_programmi.Process.Tree.Found.{IsFather}
use network_system_programmi.Process.Tree.Linking.{Listed, first, next, Keeps, set_sibling-Keeps}
use network_system_programmi.Process.Tree.Fathers.{Fresh, Fresh-Done, link_all-Done, link_all_lem}
use network_system_programmi.Process.Tree.Traversal.{
  Reaches, here, down, across, Printed, above, rank, rank-child, rank-sibling, Walked, walk_on,
}

-- Node 0, node 1, and every node whose parent, as the pids have it, descends from them.
pub data Descends (pn : Nodes) : ℕ → Type 0 where
  init : Descends pn 0
  kthreadd : Descends pn 1
  child : {x f : ℕ} → IsFather pn x f → Descends pn f → Descends pn x

Reaches-append : {pn : Nodes} {p q x : ℕ} → Reaches pn p q → Reaches pn q x → Reaches pn p x
Reaches-append here r = r
Reaches-append (down e q) r = down e (Reaches-append q r)
Reaches-append (across e q) r = across e (Reaches-append q r)

module _ (n : ℕ) (pn : Nodes) (h : Linked n 0 pn) (two : 2 ≤ n) where
  abbrev tn : Nodes
  tn = link_kthreadd pn

  child-same : (p : ℕ) → (tn p).child ≡ (pn p).child
  child-same = field-update Node.child pn 0 _ refl

  sibling-same : (p : ℕ) → 0 < p → (tn p).sibling ≡ (pn p).sibling
  sibling-same p after = ap Node.sibling (update-other pn 0 _ (omega (arith, after)))

  sibling-first : (tn 0).sibling ≡ some 1
  sibling-first = ap Node.sibling (update-same pn 0 _)

  -- A child and a sibling are never node 0.
  child-inside : (p c : ℕ) → p < n → (pn p).child ≡ some c → (0 < c) × (c < n)
  child-inside p c lt e =
      let (in_c, up) = h.child_of p c lt e in (omega (arith, (h.father_of c p in_c up).0), in_c)

  sibling-inside : (p s : ℕ) → p < n → (pn p).sibling ≡ some s → (0 < s) × (s < n)
  sibling-inside p s lt e =
      let (less, f, up_p, up_s) = h.sibling_of p s lt e in
      let in_s : s < n = omega (arith, less, lt) in
      (omega (arith, (h.father_of s f in_s up_s).0), in_s)

  walked :
      (fuel p : ℕ)
      → 0 < p
      → p < n
      → rank n pn p < fuel
      → (w : Walk) → Walked tn p w (traversal fuel tn p w)
  walked zero p after lt less w = absurd (omega (arith, less))
  walked (suc fuel) p after lt less w =
      walk_on tn fuel p
        (λ c e v.
          let old = sym (child-same p) ∙ e in
          let (in_a, in_c) = child-inside p c lt old in
          walked fuel c in_a in_c (omega (arith, rank-child h p c lt old, less)) v)
        (λ s e v.
          let old = sym (sibling-same p after) ∙ e in
          let (in_a, in_s) = sibling-inside p s lt old in
          walked fuel s in_a in_s (omega (arith, rank-sibling h p s lt old, less)) v)
        w

  rank-bound : (p : ℕ) → p < n → rank n pn p < (n + 1) * (n + 1) + n + 1
  rank-bound p lt =
      let most = mul-le-mul_right {m = n - above (pn p).father} {n = n + 1} (n + 1) (omega arith) in
      omega (arith, most, lt)

  no_sibling : (pn 0).sibling ≡ none
  no_sibling = elim (Option-cases (pn 0).sibling) [
    | inl e ↦ e
    | inr (s, e) ↦ absurd (omega (arith, (h.sibling_of 0 s (omega (arith, two)) e).0))
  ]

  kept : Keeps pn tn
  kept = set_sibling-Keeps 1 pn 0 no_sibling

  traversal-Walked : (w : Walk) → Walked tn 0 w (traversal (fuel_for n) tn 0 w)
  traversal-Walked w =
      walk_on tn ((n + 1) * (n + 1) + n + 1) 0
        (λ c e v.
          let (in_a, in_c) = child-inside 0 c (omega (arith, two)) (sym (child-same 0) ∙ e) in
          walked _ c in_a in_c (rank-bound c in_c) v)
        (λ s e v.
          let is_1 : 1 ≡ s = (let both : some 1 ≡ some s = sym sibling-first ∙ e in ground arith) in
          walked _ s (omega (arith, is_1)) (omega (arith, is_1, two))
            (rank-bound s (omega (arith, is_1, two))) v)
        w

  Reaches-Listed : {p f x : ℕ} → Reaches tn p f → Listed pn f x → Reaches tn p x
  Reaches-Listed {f} r (first e) = Reaches-append r (down (child-same f ∙ e) here)
  Reaches-Listed r (next {x} {y} l e) =
      Reaches-append (Reaches-Listed r l) (across (kept.1 y x e) here)

  Descends-Reaches :
      (old : Nodes)
      → ((x f : ℕ) → x < n → IsFather old x f → Listed pn f x)
      → {x : ℕ} → x < n
      → Descends old x
      → Reaches tn 0 x
  Descends-Reaches old all lt init = here
  Descends-Reaches old all lt kthreadd = across sibling-first here
  Descends-Reaches old all {x} lt (child {f} up d) =
      Reaches-Listed (Descends-Reaches old all (omega (arith, up.before, lt)) d) (all x f lt up)

-- Two nodes or more, not linked yet: with the fuel that `main` gives it `traversal` ends, and it has
-- then printed the name of each node that descends from the first two.
pub traversal_lem :
    (n : ℕ) (pn : Nodes)
    → Fresh n pn
    → 2 ≤ n
    → let tree = link_all n pn in
      (w : Walk) × (traversal (fuel_for n) (link_kthreadd tree) 0 fresh_walk ≡ some w)
      × ((x : ℕ) → x < n → Descends pn x → Printed w.lines (pn x).name)
traversal_lem n pn fresh two =
    let d = link_all-Done n pn pn (omega arith) (Fresh-Done n pn fresh) in
    let tree = link_all n pn in
    let w = traversal-Walked n tree d.linked two fresh_walk in
    (
      w.after,
      w.ends,
      λ x lt way. rw (sym (field-update Node.name tree 0 _ refl x ∙ d.names x)) (
          w.printed x (
            Descends-Reaches n tree d.linked two pn
              (λ y f in_n. (link_all_lem n pn fresh y in_n f).1) lt way)),
    )
