-- ===== src/Process/Tree/Linking.antt =====
-- What hw3_part2.c links: every node with a father stands in the list of that father's children.
use network_system_programmi.Base.{
  ℕ, zero, suc, ◌<◌, ◌≡◌, ◌≢◌, refl, sym, ap, ◌∙◌, Option, none, some, Option-cases, inl, inr,
  arith, update-same, update-other,
}
use mathlib.Core.Path.{subst}
use network_system_programmi.Process.Tree.{
  Node, Nodes, last_sibling, set_father, set_child, set_sibling, adopt,
}
use network_system_programmi.Process.Tree.Linked.{
  Linked, field-update, set_father-Linked, set_child-Linked, set_sibling-Linked, last_sibling-Last,
  last_sibling-same,
}

-- The children of a node: the first one, and the siblings behind it.
pub data Listed (pn : Nodes) (f : ℕ) : ℕ → Type 0 where
  first : {x : ℕ} → (pn f).child ≡ some x → Listed pn f x
  next : {x y : ℕ} → Listed pn f y → (pn y).sibling ≡ some x → Listed pn f x

abbrev pub Complete : ℕ → Nodes → Type 0
Complete n pn = (x f : ℕ) → x < n → (pn x).father ≡ some f → Listed pn f x

-- Links that are there stay there.
abbrev pub Keeps : Nodes → Nodes → Type 0
Keeps pn qn =
    ((x c : ℕ) → (pn x).child ≡ some c → (qn x).child ≡ some c)
    × ((x s : ℕ) → (pn x).sibling ≡ some s → (qn x).sibling ≡ some s)

pub Keeps-Listed : {pn qn : Nodes} {f x : ℕ} → Keeps pn qn → Listed pn f x → Listed qn f x
Keeps-Listed {f} keep (first {x} e) = first (keep.0 f x e)
Keeps-Listed keep (next {x} {y} l e) = next (Keeps-Listed keep l) (keep.1 y x e)

last_sibling-Listed :
    {f : ℕ} (pn : Nodes) (fuel p : ℕ) → Listed pn f p → Listed pn f (last_sibling fuel pn p)
unfolding last_sibling
last_sibling-Listed pn zero p l = l
last_sibling-Listed pn (suc fuel) p l = elim (Option-cases (pn p).sibling) [
  | inl e ↦ rw (last_sibling, e) l
  | inr (s, e) ↦ rw (last_sibling, e) (last_sibling-Listed pn fuel s (next l e))
]

-- A node whose link is NULL is not one whose link is set.
unset :
    (field : Node → Option ℕ) (pn : Nodes) {k x c : ℕ}
    → field (pn k) ≡ none
    → field (pn x) ≡ some c
    → x ≢ k
unset field pn {c} empty e at =
    let both : none ≡ some c = sym empty ∙ subst (λ i. field (pn i) ≡ some c) at e in
    absurd (ground (arith, both))

module _ (j : ℕ) (pn : Nodes) (k : ℕ) where
  set_father-Keeps : Keeps pn (set_father pn j k)
  set_father-Keeps = (
    λ x c e. field-update Node.child pn j _ refl x ∙ e,
    λ x s e. field-update Node.sibling pn j _ refl x ∙ e,
  )

  set_child-Keeps : (pn k).child ≡ none → Keeps pn (set_child pn k j)
  set_child-Keeps empty = (
    λ x c e. ap Node.child (update-other pn k _ (unset Node.child pn empty e)) ∙ e,
    λ x s e. field-update Node.sibling pn k _ refl x ∙ e,
  )

  pub set_sibling-Keeps : (pn k).sibling ≡ none → Keeps pn (set_sibling pn k j)
  set_sibling-Keeps empty = (
    λ x c e. field-update Node.child pn k _ refl x ∙ e,
    λ x s e. ap Node.sibling (update-other pn k _ (unset Node.sibling pn empty e)) ∙ e,
  )

-- What linking one node comes to.
pub record Adopted (n j k : ℕ) (pn qn : Nodes) : Type 0 where
  pub linked : Linked n j qn
  pub keeps : Keeps pn qn
  pub listed : Listed qn k j
  pub fathers : (x : ℕ) → (qn x).father ≡ (set_father pn j k x).father
  pub pids : (x : ℕ) → (qn x).pid ≡ (pn x).pid
  pub ppids : (x : ℕ) → (qn x).ppid ≡ (pn x).ppid
  pub names : (x : ℕ) → (qn x).name ≡ (pn x).name

pub father-set : (pn : Nodes) (j k : ℕ) → (set_father pn j k j).father ≡ some k
father-set pn j k = ap Node.father (update-same pn j _)

module _ {n : ℕ} (j k : ℕ) (pn : Nodes) where
  adopt-first :
      Linked n j (set_father pn j k)
      → j < n
      → (set_father pn j k k).child ≡ none
      → Adopted n j k pn (set_child (set_father pn j k) k j)
  adopt-first h inside empty =
      let ln = set_father pn j k in
      let a = set_father-Keeps j pn k in
      let b = set_child-Keeps j ln k empty in
      record {
        linked = set_child-Linked k inside (father-set pn j k) h;
        keeps = (λ x c e. b.0 x c (a.0 x c e), λ x s e. b.1 x s (a.1 x s e));
        listed = first (ap Node.child (update-same ln k _));
        fathers = field-update Node.father ln k _ refl;
        pids = λ x. field-update Node.pid ln k _ refl x ∙ field-update Node.pid pn j _ refl x;
        ppids = λ x. field-update Node.ppid ln k _ refl x ∙ field-update Node.ppid pn j _ refl x;
        names = λ x. field-update Node.name ln k _ refl x ∙ field-update Node.name pn j _ refl x;
      }

  adopt-next :
      (l : ℕ)
      → Linked n j (set_father pn j k)
      → j < l
      → (set_father pn j k l).father ≡ some k
      → (set_father pn j k l).sibling ≡ none
      → Listed (set_father pn j k) k l
      → Adopted n j k pn (set_sibling (set_father pn j k) l j)
  adopt-next l h below up_l ends listed =
      let ln = set_father pn j k in
      let a = set_father-Keeps j pn k in
      let b = set_sibling-Keeps j ln l ends in
      record {
        linked = set_sibling-Linked l k below (father-set pn j k) up_l h;
        keeps = (λ x c e. b.0 x c (a.0 x c e), λ x s e. b.1 x s (a.1 x s e));
        listed = next (Keeps-Listed b listed) (ap Node.sibling (update-same ln l _));
        fathers = field-update Node.father ln l _ refl;
        pids = λ x. field-update Node.pid ln l _ refl x ∙ field-update Node.pid pn j _ refl x;
        ppids = λ x. field-update Node.ppid ln l _ refl x ∙ field-update Node.ppid pn j _ refl x;
        names = λ x. field-update Node.name ln l _ refl x ∙ field-update Node.name pn j _ refl x;
      }

  pub adopt-Adopted : k < j → j < n → Linked n (suc j) pn → Adopted n j k pn (adopt pn j k)
  unfolding adopt
  adopt-Adopted below inside h =
      let ln = set_father pn j k in
      let hl = set_father-Linked k below inside h in
      elim (Option-cases (ln k).child) [
        | inl e ↦ rw (adopt, e) (adopt-first hl inside e)
        | inr (c, e) ↦
            let (in_c, up_c) = hl.child_of k c (omega (arith, below, inside)) e in
            let r = last_sibling-Last hl c c (omega arith) in_c in
            rw (adopt, e)
              (adopt-next _ hl (late c in_c (sym (same_child k) ∙ e)) (r.same_father ∙ up_c) r.ends
                (last_sibling-Listed ln c c (first e)))
      ]
    where
      same_child : (x : ℕ) → (set_father pn j k x).child ≡ (pn x).child
      same_child = field-update Node.child pn j _ refl

      -- The last child of k so far stands behind j.
      late : (c : ℕ) → c < n → (pn k).child ≡ some c → j < last_sibling c (set_father pn j k) c
      late c in_c e =
          let r = last_sibling-Last h c c (omega arith) in_c in
          let up_c = (h.child_of k c (omega (arith, below, inside)) e).1 in
          let behind = h.father_of _ k (omega (arith, r.down, in_c)) (r.same_father ∙ up_c) in
          rw (last_sibling-same pn (set_father pn j k) (field-update Node.sibling pn j _ refl) c c)
            behind.1
