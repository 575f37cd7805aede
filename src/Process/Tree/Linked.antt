-- ===== src/Process/Tree/Linked.antt =====
-- The pointers of hw3_part2.c: where they lead, while the nodes are linked from the last to the first.
use network_system_programmi.Base.{
  ℕ, zero, suc, ◌≤◌, ◌<◌, ◌≡◌, ◌≢◌, ◌⊎◌, refl, sym, ap, ◌∙◌, none, some, ◌==◌, Bool-cases,
  Option-cases, inl, inr, arith, update, update-other,
}
use network_system_programmi.Process.Tree.{
  Node, Nodes, last_sibling, set_father, set_child, set_sibling,
}

-- Of `n` nodes, those from `j` on have been linked.
pub record Linked (n j : ℕ) (pn : Nodes) : Type 0 where
  pub father_of : (x f : ℕ) → x < n → (pn x).father ≡ some f → (f < x) × (j ≤ x)
  pub child_of : (x c : ℕ) → x < n → (pn x).child ≡ some c → (c < n) × ((pn c).father ≡ some x)
  pub sibling_of :
      (x s : ℕ)
      → x < n
      → (pn x).sibling ≡ some s
      → (s < x) × (f : ℕ) × ((pn x).father ≡ some f) × ((pn s).father ≡ some f)

-- A field that an update of another field leaves as it was.
pub field-update {ℓ} :
    {B : Type ℓ} (field : Node → B) (pn : Nodes) (i : ℕ) (v : Node)
    → field v ≡ field (pn i)
    → (x : ℕ) → field (update pn i v x) ≡ field (pn x)
unfolding update
field-update field pn i v e x = elim (Bool-cases (x == i)) [
  | inl same ↦ let at : x ≡ i = ground arith in rw (same, at) e
  | inr other ↦ rw other refl
]

-- A changed field: the old value elsewhere, the new one at the node.
changed {ℓ} :
    {B : Type ℓ} (field : Node → B) (pn : Nodes) (i : ℕ) (v : Node) (x : ℕ) {b : B}
    → field (update pn i v x) ≡ b
    → ((x ≡ i) × (field v ≡ b)) ⊎ ((x ≢ i) × (field (pn x) ≡ b))
unfolding update
changed field pn i v x h = elim (Bool-cases (x == i)) [
  | inl same ↦ inl (ground arith, rw same at h)
  | inr other ↦ inr (ground arith, rw other at h)
]

module _ {n j : ℕ} {pn : Nodes} where
  pub set_father-Linked :
      (k : ℕ) → k < j → j < n → Linked n (suc j) pn → Linked n j (set_father pn j k)
  set_father-Linked k below inside h = record {
    father_of = λ x f lt e. elim (changed Node.father pn j _ x e) [
      | inl (at, same) ↦ (ground arith, omega (arith, at))
      | inr (off, old) ↦ let r = h.father_of x f lt old in (r.0, omega (arith, r.1))
    ];
    child_of = λ x c lt e.
        let (in_c, up) = h.child_of x c lt (sym (kept_child x) ∙ e) in
        let late = h.father_of c x in_c up in (in_c, update-other-father c late.1 ∙ up);
    sibling_of = λ x s lt e.
        let (down, f, up_x, up_s) = h.sibling_of x s lt (sym (kept_sibling x) ∙ e) in
        let late_x = h.father_of x f lt up_x in
        let late_s = h.father_of s f (omega (arith, down)) up_s in
        (down, f, update-other-father x late_x.1 ∙ up_x, update-other-father s late_s.1 ∙ up_s);
  }
    where
      kept_child : (x : ℕ) → (set_father pn j k x).child ≡ (pn x).child
      kept_child = field-update Node.child pn j _ refl

      kept_sibling : (x : ℕ) → (set_father pn j k x).sibling ≡ (pn x).sibling
      kept_sibling = field-update Node.sibling pn j _ refl

      update-other-father : (x : ℕ) → suc j ≤ x → (set_father pn j k x).father ≡ (pn x).father
      update-other-father x late = ap Node.father (update-other pn j _ (omega (arith, late)))

  -- A node without a child gets one that has it as father.
  pub set_child-Linked :
      (k : ℕ) → j < n → (pn j).father ≡ some k → Linked n j pn → Linked n j (set_child pn k j)
  set_child-Linked k inside up h = record {
    father_of = λ x f lt e. h.father_of x f lt (sym (kept_father x) ∙ e);
    child_of = λ x c lt e. elim (changed Node.child pn k _ x e) [
      | inl (at, same) ↦
          let c_is : j ≡ c = ground arith in
          (omega (arith, c_is), kept_father c ∙ (rw (sym c_is, at) up))
      | inr (off, old) ↦ let r = h.child_of x c lt old in (r.0, kept_father c ∙ r.1)
    ];
    sibling_of = λ x s lt e.
        let (down, f, a, b) = h.sibling_of x s lt (sym (kept_sibling x) ∙ e) in
        (down, f, kept_father x ∙ a, kept_father s ∙ b);
  }
    where
      kept_father : (x : ℕ) → (set_child pn k j x).father ≡ (pn x).father
      kept_father = field-update Node.father pn k _ refl

      kept_sibling : (x : ℕ) → (set_child pn k j x).sibling ≡ (pn x).sibling
      kept_sibling = field-update Node.sibling pn k _ refl

  -- A node gets a sibling that stands before it and has the same father.
  pub set_sibling-Linked :
      (p k : ℕ)
      → j < p
      → (pn j).father ≡ some k
      → (pn p).father ≡ some k
      → Linked n j pn
      → Linked n j (set_sibling pn p j)
  set_sibling-Linked p k below up_j up_p h = record {
    father_of = λ x f lt e. h.father_of x f lt (sym (kept_father x) ∙ e);
    child_of = λ x c lt e.
        let r = h.child_of x c lt (sym (kept_child x) ∙ e) in (r.0, kept_father c ∙ r.1);
    sibling_of = λ x s lt e. elim (changed Node.sibling pn p _ x e) [
      | inl (at, same) ↦
          let s_is : j ≡ s = ground arith in
          (
            omega (arith, s_is, at),
            k,
            kept_father x ∙ (rw at up_p),
            kept_father s ∙ (rw (sym s_is) up_j),
          )
      | inr (off, old) ↦
          let (down, f, a, b) = h.sibling_of x s lt old in
          (down, f, kept_father x ∙ a, kept_father s ∙ b)
    ];
  }
    where
      kept_father : (x : ℕ) → (set_sibling pn p j x).father ≡ (pn x).father
      kept_father = field-update Node.father pn p _ refl

      kept_child : (x : ℕ) → (set_sibling pn p j x).child ≡ (pn x).child
      kept_child = field-update Node.child pn p _ refl

-- What the loop to the last sibling ends at, started with fuel for every node before.
pub record Last (pn : Nodes) (p l : ℕ) : Type 0 where
  pub down : l ≤ p
  pub same_father : (pn l).father ≡ (pn p).father
  pub ends : (pn l).sibling ≡ none

pub last_sibling-Last :
    {n j : ℕ} {pn : Nodes}
    → Linked n j pn
    → (fuel p : ℕ) → p ≤ fuel
    → p < n
    → Last pn p (last_sibling fuel pn p)
unfolding last_sibling
last_sibling-Last {pn} h zero p le lt = record {
  down = omega arith;
  same_father = refl;
  ends = elim (Option-cases (pn p).sibling) [
    | inl e ↦ e
    | inr (s, e) ↦ absurd (omega (arith, le, (h.sibling_of p s lt e).0))
  ];
}
last_sibling-Last {pn} h (suc fuel) p le lt = elim (Option-cases (pn p).sibling) [
  | inl e ↦ rw (last_sibling, e) (record { down = omega arith; same_father = refl; ends = e })
  | inr (s, e) ↦
      let (down, f, up_p, up_s) = h.sibling_of p s lt e in
      let r = last_sibling-Last h fuel s (omega (arith, le, down)) (omega (arith, lt, down)) in
      rw (last_sibling, e)
        (record {
          down = omega (arith, r.down, down);
          same_father = r.same_father ∙ up_s ∙ sym up_p;
          ends = r.ends;
        })
]

pub last_sibling-same :
    (pn qn : Nodes)
    → ((x : ℕ) → (qn x).sibling ≡ (pn x).sibling)
    → (fuel p : ℕ) → last_sibling fuel qn p ≡ last_sibling fuel pn p
unfolding last_sibling
last_sibling-same pn qn same zero p = refl
last_sibling-same pn qn same (suc fuel) p = elim (Option-cases (pn p).sibling) [
  | inl e ↦ rw (last_sibling, same p, e) refl
  | inr (s, e) ↦ rw (last_sibling, same p, e) (last_sibling-same pn qn same fuel s)
]
