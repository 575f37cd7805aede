-- ===== src/Process/Tree/Found.antt =====
-- The search of hw3_part2.c for the father of a node.
use network_system_programmi.Base.{
  ℕ, zero, suc, ◌<◌, ◌≡◌, ◌≢◌, sym, ap, ◌∙◌, some, ◌==◌, Bool-cases, inl, inr, arith, ℤ, eq_int,
  eq_int→eq, eq_int_refl, ◌↔◌, true, false,
}
use network_system_programmi.Process.Tree.{Nodes, find_father}

-- The last node before x that has the parent of x as its process.
pub record IsFather (pn : Nodes) (x f : ℕ) : Type 0 where
  pub before : f < x
  pub is_parent : (pn f).pid ≡ (pn x).ppid
  pub is_last : (k : ℕ) → f < k → k < x → (pn k).pid ≢ (pn x).ppid

pub find_father-lt :
    (left : ℕ) (pn : Nodes) (ppid : ℤ) {k : ℕ}
    → find_father left pn ppid ≡ some k
    → (k < left) × ((pn k).pid ≡ ppid)
unfolding find_father
find_father-lt zero pn ppid e = absurd (ground (arith, e))
find_father-lt (suc i) pn ppid {k} e = elim (Bool-cases (eq_int ppid (pn i).pid)) [
  | inl hit ↦
      let found : some i ≡ some k = rw hit at e in
      let at : i ≡ k = ground arith in
      (omega (arith, at), rw (sym at) (sym (eq_int→eq ppid (pn i).pid hit)))
  | inr miss ↦ let r = find_father-lt i pn ppid (rw miss at e) in (omega (arith, r.0), r.1)
]

differs : (a b : ℤ) → eq_int a b ≡ false → a ≢ b
differs a b miss e =
    let hit : eq_int a b ≡ true = rw e (eq_int_refl b) in
    let both = sym hit ∙ miss in absurd (ground (arith, both))

find_father-last :
    (left : ℕ) (pn : Nodes) (ppid : ℤ) {f : ℕ}
    → find_father left pn ppid ≡ some f
    → (k : ℕ) → f < k
    → k < left
    → (pn k).pid ≢ ppid
unfolding find_father
find_father-last zero pn ppid e k above below = absurd (ground (arith, e))
find_father-last (suc i) pn ppid {f} e k above below = elim (Bool-cases (eq_int ppid (pn i).pid)) [
  | inl hit ↦
      let found : some i ≡ some f = rw hit at e in
      let at : i ≡ f = ground arith in absurd (omega (arith, at, above, below))
  | inr miss ↦ elim (Bool-cases (k == i)) [
    | inl same ↦
        let at : k ≡ i = ground arith in λ q. differs ppid (pn i).pid miss (rw at at (sym q))
    | inr other ↦ find_father-last i pn ppid (rw miss at e) k above (ground (arith, other, below))
  ]
]

find_father-found :
    (left : ℕ) (pn : Nodes) (ppid : ℤ) (f : ℕ)
    → f < left
    → (pn f).pid ≡ ppid
    → ((k : ℕ) → f < k → k < left → (pn k).pid ≢ ppid)
    → find_father left pn ppid ≡ some f
unfolding find_father
find_father-found zero pn ppid f lt is_parent is_last = absurd (omega (arith, lt))
find_father-found (suc i) pn ppid f lt is_parent is_last =
    elim (Bool-cases (eq_int ppid (pn i).pid)) [
      | inl hit ↦ elim (Bool-cases (f == i)) [
        | inl same ↦ let at : f ≡ i = ground arith in rw (find_father, hit) (ap some (sym at))
        | inr other ↦ absurd (
            is_last i (ground (arith, other, lt)) (omega arith)
              (sym (eq_int→eq ppid (pn i).pid hit)))
      ]
      | inr miss ↦ elim (Bool-cases (f == i)) [
        | inl same ↦
            let at : f ≡ i = ground arith in
            absurd (differs ppid (pn i).pid miss (rw at at (sym is_parent)))
        | inr other ↦
            rw (find_father, miss)
              (find_father-found i pn ppid f (ground (arith, other, lt)) is_parent
                (λ k above below. is_last k above (omega (arith, below))))
      ]
    ]

pub find_father-IsFather :
    (pn : Nodes) (x f : ℕ) → (find_father x pn (pn x).ppid ≡ some f) ↔ IsFather pn x f
find_father-IsFather pn x f = (
  λ e.
      let r = find_father-lt x pn (pn x).ppid e in
      record { before = r.0; is_parent = r.1; is_last = find_father-last x pn (pn x).ppid e },
  λ h. find_father-found x pn (pn x).ppid f h.before h.is_parent h.is_last,
)
