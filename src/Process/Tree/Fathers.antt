-- ===== src/Process/Tree/Fathers.antt =====
-- The loop of hw3_part2.c that links the nodes.
use network_system_programmi.Base.{
  ◌↔◌, ℕ, zero, suc, ◌≤◌, ◌<◌, ◌≡◌, ◌≢◌, refl, sym, ap, ◌∙◌, Option, none, some, Bool-cases,
  Option-cases, inl, inr, arith, update-other, ℤ, ◌==◌,
}
use mathlib.Core.Path.{subst}
use network_system_programmi.Process.Tree.{Node, Nodes, find_father, adopt, link_node, link_all}
use network_system_programmi.Process.Tree.Linked.{Linked}
use network_system_programmi.Process.Tree.Found.{IsFather, find_father-lt, find_father-IsFather}
use network_system_programmi.Process.Tree.Linking.{
  Listed, Complete, Keeps-Listed, Adopted, adopt-Adopted, father-set,
}

-- Nodes that are not linked yet.
pub record Fresh (n : ℕ) (pn : Nodes) : Type 0 where
  pub no_child : (x : ℕ) → x < n → (pn x).child ≡ none
  pub no_father : (x : ℕ) → x < n → (pn x).father ≡ none
  pub no_sibling : (x : ℕ) → x < n → (pn x).sibling ≡ none

-- The nodes from `j` on have been linked, starting with the nodes `old`.
pub record Done (n j : ℕ) (old pn : Nodes) : Type 0 where
  pub linked : Linked n j pn
  pub complete : Complete n pn
  pub pids : (x : ℕ) → (pn x).pid ≡ (old x).pid
  pub ppids : (x : ℕ) → (pn x).ppid ≡ (old x).ppid
  pub names : (x : ℕ) → (pn x).name ≡ (old x).name
  pub fathers : (x : ℕ) → j ≤ x → x < n → (pn x).father ≡ find_father x old (old x).ppid

none-some : {x : Option ℕ} {f : ℕ} {A : Type 0} → x ≡ none → x ≡ some f → A
none-some {x} {f} e s = let both : none ≡ some f = sym e ∙ s in absurd (ground (arith, both))

pub Fresh-Done : (n : ℕ) (pn : Nodes) → Fresh n pn → Done n n pn pn
Fresh-Done n pn h = record {
  linked = record {
    father_of = λ x f lt e. none-some (h.no_father x lt) e;
    child_of = λ x c lt e. none-some (h.no_child x lt) e;
    sibling_of = λ x s lt e. none-some (h.no_sibling x lt) e;
  };
  complete = λ x f lt e. none-some (h.no_father x lt) e;
  pids = λ x. refl;
  ppids = λ x. refl;
  names = λ x. refl;
  fathers = λ x le lt. absurd (omega (arith, le, lt));
}

find_father-same :
    (left : ℕ) (pn old : Nodes) (ppid : ℤ)
    → ((x : ℕ) → (pn x).pid ≡ (old x).pid)
    → find_father left pn ppid ≡ find_father left old ppid
unfolding find_father
find_father-same zero pn old ppid same = refl
find_father-same (suc k) pn old ppid same =
    rw (find_father, same k, find_father-same k pn old ppid same) refl

module _ {n : ℕ} (j : ℕ) (old pn : Nodes) (inside : j < n) (h : Done n (suc j) old pn) where
  -- The nodes from j on, the first of them apart.
  from_here :
      {P : ℕ → Type 0} → P j → ((x : ℕ) → suc j ≤ x → x < n → P x) → (x : ℕ) → j ≤ x → x < n → P x
  from_here {P} here above x le lt = elim (Bool-cases (x == j)) [
    | inl same ↦ let at : x ≡ j = ground arith in rw at here
    | inr other ↦ above x (ground (arith, other, le)) lt
  ]

  looked_for : find_father j pn (pn j).ppid ≡ find_father j old (old j).ppid
  looked_for = rw (h.ppids j) (find_father-same j pn old (old j).ppid h.pids)

  orphan-Done : find_father j pn (pn j).ppid ≡ none → Done n j old pn
  orphan-Done e = record {
    linked = record {
      father_of = λ x f lt up. let r = h.linked.father_of x f lt up in (r.0, omega (arith, r.1));
      child_of = h.linked.child_of;
      sibling_of = h.linked.sibling_of;
    };
    complete = h.complete;
    pids = h.pids;
    ppids = h.ppids;
    names = h.names;
    fathers =
        from_here {P = λ x. (pn x).father ≡ find_father x old (old x).ppid}
          (unlinked ∙ sym e ∙ looked_for) h.fathers;
  }
    where
      unlinked : (pn j).father ≡ none
      unlinked = elim (Option-cases (pn j).father) [
        | inl none_yet ↦ none_yet
        | inr (f, up) ↦ absurd (omega (arith, (h.linked.father_of j f inside up).1))
      ]

  adopt-Done : (k : ℕ) → find_father j pn (pn j).ppid ≡ some k → Done n j old (adopt pn j k)
  adopt-Done k e = record {
    linked = a.linked;
    complete = complete;
    pids = λ x. a.pids x ∙ h.pids x;
    ppids = λ x. a.ppids x ∙ h.ppids x;
    names = λ x. a.names x ∙ h.names x;
    fathers =
        from_here {P = λ x. (adopt pn j k x).father ≡ find_father x old (old x).ppid}
          (a.fathers j ∙ father-set pn j k ∙ sym e ∙ looked_for)
          (λ x le lt.
            a.fathers x
            ∙ ap Node.father (update-other pn j _ (omega (arith, le)))
            ∙ h.fathers x le lt);
  }
    where
      a : Adopted n j k pn (adopt pn j k)
      a = adopt-Adopted j k pn (find_father-lt j pn (pn j).ppid e).0 inside h.linked

      complete : Complete n (adopt pn j k)
      complete x f lt up = elim (Bool-cases (x == j)) [
        | inl same ↦
            let at : x ≡ j = ground arith in
            let is_k : some k ≡ some f =
              sym (father-set pn j k)
              ∙ sym (a.fathers j)
              ∙ subst (λ i. (adopt pn j k i).father ≡ some f) at up in
            let same_f : k ≡ f = ground arith in rw (at, sym same_f) a.listed
        | inr other ↦
            let off : x ≢ j = ground arith in
            Keeps-Listed a.keeps (
              h.complete x f lt
                (sym (ap Node.father (update-other pn j _ off)) ∙ sym (a.fathers x) ∙ up))
      ]

  link_node-Done : Done n j old (link_node pn j)
  unfolding link_node
  link_node-Done = elim (Option-cases (find_father j pn (pn j).ppid)) [
    | inl e ↦ rw (link_node, e) (orphan-Done e)
    | inr (k, e) ↦ rw (link_node, e) (adopt-Done k e)
  ]

pub link_all-Done :
    {n : ℕ} (j : ℕ) (old pn : Nodes) → j ≤ n → Done n j old pn → Done n 0 old (link_all j pn)
unfolding link_all
link_all-Done zero old pn le h = h
link_all-Done (suc j) old pn le h =
    link_all-Done j old (link_node pn j) (omega arith) (link_node-Done j old pn (omega arith) h)

-- Of nodes that are not linked yet, the loop makes the last one before a node that has its ppid as
-- pid the father of that node, and no other; the node is then among the children of that father.
pub link_all_lem :
    (n : ℕ) (pn : Nodes)
    → Fresh n pn
    → (x : ℕ) → x < n
    → (f : ℕ)
    → (((link_all n pn x).father ≡ some f) ↔ IsFather pn x f)
      × (IsFather pn x f → Listed (link_all n pn) f x)
link_all_lem n pn fresh x lt f =
    let d = link_all-Done n pn pn (omega arith) (Fresh-Done n pn fresh) in
    let found = d.fathers x (omega arith) lt in
    let (to, from) = find_father-IsFather pn x f in
    ((λ e. to (sym found ∙ e), λ h. found ∙ from h), λ h. d.complete x f lt (found ∙ from h))
