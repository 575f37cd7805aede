-- ===== src/Process/Tree/Depth.antt =====
-- The depths that hw3_part2.c prints.
use network_system_programmi.Base.{
  ℕ, zero, suc, ◌+◌, ◌≤◌, ◌≡◌, refl, false, Option, none, some, List, [], ◌∷◌, ◌++◌, Option-cases,
  inl, inr, arith, update-same, pos, eq_int, ◌∙◌,
}
use mathlib.Core.Path.{subst}
use network_system_programmi.Process.Tree.{
  Nodes, Line, Walk, print_line, enter_child, enter_sibling, traversal, fresh_walk, Node, collect,
  nodes, link_all, link_kthreadd, fuel_for, prints, init_line, main,
}
use network_system_programmi.Process.Status.{Entry}
use network_system_programmi.Process.Tree.Linked.{field-update}
use network_system_programmi.Process.Tree.Fathers.{Fresh-Done, link_all-Done}
use network_system_programmi.Process.Tree.Printed.{traversal_lem}
use network_system_programmi.Process.Tree.Main.{main-Fresh}

-- Each line is at least as deep as the one before, from l on and up to b.
abbrev pub Within : ℕ → ℕ → List Line → Type 0
Within l b [] = l ≤ b
Within l b (x ∷ xs) = (l ≤ x.space) × Within x.space b xs

Within-snoc :
    (l b : ℕ) (xs : List Line) (x : Line) → x.space ≡ b → Within l b xs → Within l b (xs ++ x ∷ [])
Within-snoc l b [] x e h = (omega (arith, h), omega (arith, e))
Within-snoc l b (y ∷ xs) x e h = (h.0, Within-snoc y.space b xs x e h.1)

Within-le : (l b c : ℕ) (xs : List Line) → b ≤ c → Within l b xs → Within l c xs
Within-le l b c [] le h = omega arith
Within-le l b c (y ∷ xs) le h = (h.0, Within-le y.space b c xs le h.1)

-- What holds when `traversal` is called, and when it returns.
abbrev Rising : Walk → Type 0
Rising w = Within 0 w.count w.lines

module _ (pn : Nodes) (no_2 : (x : ℕ) → eq_int (pn x).pid (pos 2) ≡ false) where
  Rising-print : (p : ℕ) (w : Walk) → w.space p ≡ w.count → Rising w → Rising (print_line pn p w)
  Rising-print p w at h = Within-snoc 0 w.count w.lines _ at h

  Rising-child : (c : ℕ) (w : Walk) → Rising w → Rising (enter_child c w)
  Rising-child c w h = Within-le 0 w.count (w.count + 1) w.lines (omega arith) h

  Rising-sibling : (s : ℕ) (w : Walk) → Rising w → Rising (enter_sibling pn s w)
  Rising-sibling s w h = rw (no_2 s) h

  sibling-space : (s : ℕ) (w : Walk) → (enter_sibling pn s w).space s ≡ (enter_sibling pn s w).count
  sibling-space s w = update-same w.space s _

  -- From the end of the part below p.
  beside :
      (fuel p : ℕ) (below : Walk) {after : Walk}
      → Rising below
      → ((s : ℕ) → traversal fuel pn s (enter_sibling pn s below) ≡ some after → Rising after)
      → elim (pn p).sibling as (λ _. Option Walk) [
        | none ↦ some below
        | some s ↦ traversal fuel pn s (enter_sibling pn s below)
      ]
        ≡ some after
      → Rising after
  beside fuel p below {after} up call rest = elim (Option-cases (pn p).sibling) [
    | inl no_sibling ↦
        let ended : some below ≡ some after = rw no_sibling at rest in
        let same : below ≡ after = ground arith in subst Rising same up
    | inr (s, sibling) ↦ call s (rw sibling at rest)
  ]

  traversal-Rising :
      (fuel p : ℕ) (w : Walk) {after : Walk}
      → w.space p ≡ w.count
      → Rising w
      → traversal fuel pn p w ≡ some after
      → Rising after
  unfolding traversal
  traversal-Rising zero p w at h e = absurd (ground (arith, e))
  traversal-Rising (suc fuel) p w {after} at h e =
      let printed = print_line pn p w in
      let start = Rising-print p w at h in
      let next = λ (below : Walk) (up : Rising below) (s : ℕ).
        traversal-Rising fuel s (enter_sibling pn s below) {after = after} (sibling-space s below)
          (Rising-sibling s below up) in
      elim (Option-cases (pn p).child) [
        | inl no_child ↦
            beside fuel p printed start (next printed start) (rw (traversal, no_child) at e)
        | inr (c, child) ↦
            let e1 = rw (traversal, child) at e in
            elim (Option-cases (traversal fuel pn c (enter_child c printed))) [
              | inl stuck ↦ absurd (ground (arith, rw stuck at e1))
              | inr (below, done) ↦
                  let up =
                    traversal-Rising fuel c _ (update-same printed.space c _)
                      (Rising-child c printed start) done in
                  beside fuel p below up (next below up) (rw done at e1)
            ]
      ]

-- When the "status" of every entry of /proc that is a number can be opened and read, there are two
-- of them or more, and no node has pid 2, for which the depth starts anew: `main` prints "init" and
-- lines behind it, none of them with less depth than the line before, not even that of a process
-- behind all the descendants of its sibling.
pub main-ascending :
    (entries : List Entry) (memory : Nodes) (n : ℕ) (pn : Nodes)
    → collect entries 0 memory ≡ nodes n pn
    → 2 ≤ n
    → ((x : ℕ) → eq_int (pn x).pid (pos 2) ≡ false)
    → (w : Walk) × (main entries memory ≡ prints (init_line ∷ w.lines)) × Within 0 w.count w.lines
unfolding main
main-ascending entries memory n pn e two no_2 =
    let fresh = main-Fresh entries memory e in
    let d = link_all-Done n pn pn (omega arith) (Fresh-Done n pn fresh) in
    let tree = link_kthreadd (link_all n pn) in
    let (w, ends, names) = traversal_lem n pn fresh two in
    let same : (x : ℕ) → (tree x).pid ≡ (pn x).pid =
      λ x. field-update Node.pid (link_all n pn) 0 _ refl x ∙ d.pids x in
    (
      w,
      rw (main, e, ends) refl,
      traversal-Rising tree (λ x. rw (same x) (no_2 x)) (fuel_for n) 0 fresh_walk refl (omega arith)
          ends,
    )
