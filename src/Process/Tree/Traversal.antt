-- ===== src/Process/Tree/Traversal.antt =====
-- `traversal` of hw3_part2.c ends, and prints the processes that descend from the first two.
use network_system_programmi.Base.{
  ℕ, suc, ◌+◌, ◌-◌, ◌*◌, ◌≤◌, ◌<◌, ◌≡◌, refl, sym, Option, none, some, List, Option-cases, inl, inr,
  arith,
}
use mathlib.Core.List.{Memᴰ}
use mathlib.Core.List.Memᴰ
use native.Mathlib.Nat.{suc-mul, mul-le-mul_right}
use network_system_programmi.Process.Status.{Bytes}
use network_system_programmi.Process.Tree.{
  Nodes, Line, Walk, print_line, enter_child, enter_sibling, traversal,
}
use network_system_programmi.Process.Tree.Linked.{Linked}

-- The nodes that `traversal` comes to from p.
pub data Reaches (pn : Nodes) : ℕ → ℕ → Type 0 where
  here : {p : ℕ} → Reaches pn p p
  down : {p c x : ℕ} → (pn p).child ≡ some c → Reaches pn c x → Reaches pn p x
  across : {p s x : ℕ} → (pn p).sibling ≡ some s → Reaches pn s x → Reaches pn p x

abbrev pub Printed : List Line → Bytes → Type 0
Printed lines name = (s : ℕ) × Memᴰ (record { space = s; name = name }) lines

-- 0 for no father.
abbrev pub above : Option ℕ → ℕ
above none = 0
above (some f) = f + 1

-- It falls on the way to a child and to a sibling.
abbrev pub rank : ℕ → Nodes → ℕ → ℕ
rank n pn p = (n - above (pn p).father) * (n + 1) + p

step_down : (a b m : ℕ) → a < b → a * m + m ≤ b * m
step_down a b m h = rw (sym (suc-mul a m)) (mul-le-mul_right m h)

above-le : {n : ℕ} {pn : Nodes} → Linked n 0 pn → (p : ℕ) → p < n → above (pn p).father ≤ p
above-le {pn} h p lt = elim (Option-cases (pn p).father) [
  | inl e ↦ rw e (omega arith)
  | inr (f, e) ↦ rw e (omega (arith, (h.father_of p f lt e).0))
]

pub rank-child :
    {n : ℕ} {pn : Nodes}
    → Linked n 0 pn
    → (p c : ℕ) → p < n
    → (pn p).child ≡ some c
    → rank n pn c < rank n pn p
rank-child {n} {pn} h p c lt e =
    let (in_c, up) = h.child_of p c lt e in
    let less =
      step_down (n - (p + 1)) (n - above (pn p).father) (n + 1) (omega (arith, above-le h p lt)) in
    rw up (omega (arith, less, in_c))

pub rank-sibling :
    {n : ℕ} {pn : Nodes}
    → Linked n 0 pn
    → (p s : ℕ) → p < n
    → (pn p).sibling ≡ some s
    → rank n pn s < rank n pn p
rank-sibling {n} {pn} h p s lt e =
    let (less, f, up_p, up_s) = h.sibling_of p s lt e in rw (up_p, up_s) (omega (arith, less))

-- `traversal` of p, with the walk w so far, has ended.
pub record Walked (pn : Nodes) (p : ℕ) (w : Walk) (result : Option Walk) : Type 0 where
  pub after : Walk
  pub ends : result ≡ some after
  pub kept : (l : Line) → Memᴰ l w.lines → Memᴰ l after.lines
  pub printed : (x : ℕ) → Reaches pn p x → Printed after.lines (pn x).name

-- Of a call, that a child or sibling may or may not be there for.
record Visited (pn : Nodes) (link : Option ℕ) (w : Walk) (result : Option Walk) : Type 0 where
  after : Walk
  ends : result ≡ some after
  kept : (l : Line) → Memᴰ l w.lines → Memᴰ l after.lines
  printed : (q x : ℕ) → link ≡ some q → Reaches pn q x → Printed after.lines (pn x).name

module _ (pn : Nodes) (fuel : ℕ) (w : Walk) (enter : ℕ → Walk → Walk) where
  visit :
      (link : Option ℕ)
      → ((q : ℕ) → (enter q w).lines ≡ w.lines)
      → ((q : ℕ) → link ≡ some q → Walked pn q (enter q w) (traversal fuel pn q (enter q w)))
      → Visited pn link w (elim link [ none ↦ some w | some q ↦ traversal fuel pn q (enter q w) ])
  visit none lines call = record {
    after = w;
    ends = refl;
    kept = λ l m. m;
    printed = λ q x e r. absurd (ground (arith, e));
  }
  visit (some q) lines call =
      let h = call q refl in
      record {
        after = h.after;
        ends = h.ends;
        kept = λ l m. h.kept l (rw (lines q) m);
        printed = λ k x e r. let same : q ≡ k = ground arith in h.printed x (rw same r);
      }

printed_line : (pn : Nodes) (p : ℕ) (w : Walk) → Printed (print_line pn p w).lines (pn p).name
printed_line pn p w = (w.space p, Memᴰ.append_right w.lines (Memᴰ.head refl))

keep :
    {lines more : List Line} {name : Bytes}
    → ((l : Line) → Memᴰ l lines → Memᴰ l more)
    → Printed lines name
    → Printed more name
keep kept (s, m) = (s, kept _ m)

-- Every way from p begins with p itself, its child or its sibling.
by_way :
    {pn : Nodes} {lines : List Line} {p x : ℕ}
    → Reaches pn p x
    → Printed lines (pn p).name
    → ((c y : ℕ) → (pn p).child ≡ some c → Reaches pn c y → Printed lines (pn y).name)
    → ((s y : ℕ) → (pn p).sibling ≡ some s → Reaches pn s y → Printed lines (pn y).name)
    → Printed lines (pn x).name
by_way here own child sibling = own
by_way (down {c} {x} e r) own child sibling = child c x e r
by_way (across {s} {x} e r) own child sibling = sibling s x e r

pub walk_on :
    (pn : Nodes) (fuel p : ℕ)
    → ((c : ℕ) → (pn p).child ≡ some c → (v : Walk) → Walked pn c v (traversal fuel pn c v))
    → ((s : ℕ) → (pn p).sibling ≡ some s → (v : Walk) → Walked pn s v (traversal fuel pn s v))
    → (w : Walk) → Walked pn p w (traversal (suc fuel) pn p w)
unfolding traversal
walk_on pn fuel p child sibling w =
    let first = print_line pn p w in
    let below = visit pn fuel first enter_child (pn p).child (λ q. refl) (λ q e. child q e _) in
    let rest =
      visit pn fuel below.after (enter_sibling pn) (pn p).sibling (λ q. refl)
        (λ q e. sibling q e _) in
    rw (traversal, below.ends)
      (record {
        after = rest.after;
        ends = rest.ends;
        kept = λ l m. rest.kept l (below.kept l (Memᴰ.append_left _ m));
        printed = λ x r.
            by_way r (keep rest.kept (keep below.kept (printed_line pn p w)))
              (λ c y e q. keep rest.kept (below.printed c y e q)) rest.printed;
      })
