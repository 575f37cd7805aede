-- ===== src/Process/Tree.antt =====
-- SP_HW3/hw3_part2.c: the processes as nodes in an array, linked to a tree and printed.
pub mod Linked
pub mod Found
pub mod Linking
pub mod Fathers
pub mod Traversal
pub mod Printed
pub mod Main
pub mod Depth
use network_system_programmi.Base.{
  ℕ, zero, suc, ◌+◌, ◌*◌, ◌-◌, Bool, true, false, Option, none, some, List, [], ◌∷◌, ◌++◌,
  replicate, if◌then◌else◌, ◌==◌, ◌||◌, update, eq_bytes, codes, atoi, ℤ, pos, eq_int, Key, strtok,
}
use network_system_programmi.Process.Status.{Bytes, Entry, is_space, is_zero, reads_as}

-- `struct process_node`, less `space`, which only `traversal` changes. A pointer is the index of a
-- node of the array, and NULL is `none`.
pub record Node : Type 0 where
  pub pid : ℤ
  pub ppid : ℤ
  pub name : Bytes
  pub child : Option ℕ
  pub father : Option ℕ
  pub sibling : Option ℕ

abbrev pub Nodes : Type 0
Nodes = ℕ → Node

-- `strcpy` or `atoi` of the next token of the line; `none` when it is NULL.
abbrev pub with_value : Option Key → (Bytes → Option Node) → Option Node
with_value none use_it = none
with_value (some value) use_it = use_it value.token

-- The loop over the lines of "status"; `none` when `strtok` gives NULL to `strcmp` or `strcpy`.
unfoldable pub read_status : List Bytes → Node → Option Node
read_status [] node = some node
read_status (l ∷ ls) node = elim (strtok is_space l) [
  | none ↦ none
  | some key ↦
      let value = strtok is_space key.rest in
      let named = with_value value (λ v. read_status ls (record node { name = v })) in
      let parent = with_value value (λ v. some (record node { ppid = atoi v })) in
      let next = read_status ls node in
      if reads_as key "Name:" then named else if reads_as key "PPid:" then parent else next
]

pub data Collected : Type 0 where
  crashed : Collected
  -- `if(f == NULL) return 0;`
  returned : Collected
  nodes : ℕ → Nodes → Collected

-- A node of fresh memory, before "status" is read.
abbrev pub new_node : ℤ → Node → Node
new_node pid node = record node { pid = pid; child = none; father = none; sibling = none }

-- The loop over the entries of /proc, with `i` nodes so far.
unfoldable pub collect : List Entry → ℕ → Nodes → Collected
collect [] i pn = nodes i pn
collect (e ∷ es) i pn =
    let next : Collected = elim e.status [
      | none ↦ returned
      | some lines ↦ elim (read_status lines (new_node (atoi e.d_name) (pn i))) [
        | none ↦ crashed
        | some node ↦ collect es (i + 1) (update pn i node)
      ]
    ] in
    let skip = collect es i pn in if is_zero (atoi e.d_name) then skip else next

-- `while(ptr -> sibling) ptr = ptr -> sibling;`, on fuel.
unfoldable pub last_sibling : ℕ → Nodes → ℕ → ℕ
last_sibling zero pn p = p
last_sibling (suc fuel) pn p = elim (pn p).sibling [ none ↦ p | some s ↦ last_sibling fuel pn s ]

-- The inner loop, from k = `left` - 1 down to 0: the first index whose pid is the one looked for.
unfoldable pub find_father : ℕ → Nodes → ℤ → Option ℕ
find_father zero pn ppid = none
find_father (suc k) pn ppid =
    let rest = find_father k pn ppid in if eq_int ppid (pn k).pid then some k else rest

abbrev pub set_father : Nodes → ℕ → ℕ → Nodes
set_father pn j k = update pn j (record (pn j) { father = some k })

abbrev pub set_child : Nodes → ℕ → ℕ → Nodes
set_child pn k j = update pn k (record (pn k) { child = some j })

abbrev pub set_sibling : Nodes → ℕ → ℕ → Nodes
set_sibling pn p j = update pn p (record (pn p) { sibling = some j })

-- `ptr` goes down in the array, so the index of the first child is fuel enough.
unfoldable pub adopt : Nodes → ℕ → ℕ → Nodes
adopt pn j k =
    let linked = set_father pn j k in
    elim (linked k).child [
      | none ↦ set_child linked k j
      | some c ↦ set_sibling linked (last_sibling c linked c) j
    ]

unfoldable pub link_node : Nodes → ℕ → Nodes
link_node pn j = elim (find_father j pn (pn j).ppid) [ none ↦ pn | some k ↦ adopt pn j k ]

-- `for(;j >= 0;j--)`, from j = `left` - 1
unfoldable pub link_all : ℕ → Nodes → Nodes
link_all zero pn = pn
link_all (suc j) pn = link_all j (link_node pn j)

-- One line of the output: "--" so many times, and the name.
pub record Line : Type 0 where
  pub space : ℕ
  pub name : Bytes

pub record Walk : Type 0 where
  pub count : ℕ
  pub space : ℕ → ℕ
  pub lines : List Line

abbrev pub print_line : Nodes → ℕ → Walk → Walk
print_line pn p w = record w {
  lines = w.lines ++ record { space = w.space p; name = (pn p).name } ∷ [];
}

-- `p -> child -> space = count;`, behind `count++`
abbrev pub enter_child : ℕ → Walk → Walk
enter_child c w = record w { count = w.count + 1; space = update w.space c (w.count + 1) }

abbrev pub count_at : ℤ → ℕ → ℕ
count_at pid count = if eq_int pid (pos 2) then 1 else count

abbrev pub enter_sibling : Nodes → ℕ → Walk → Walk
enter_sibling pn s w =
    let count = count_at (pn s).pid w.count in
    record w { count = count; space = update w.space s count }

-- On fuel: `none` when it runs out.
unfoldable pub traversal : ℕ → Nodes → ℕ → Walk → Option Walk
traversal zero pn p w = none
traversal (suc fuel) pn p w =
    let printed = print_line pn p w in
    let down : Option Walk = elim (pn p).child [
      | none ↦ some printed
      | some c ↦ traversal fuel pn c (enter_child c printed)
    ] in
    elim down [
      | none ↦ none
      | some below ↦ elim (pn p).sibling [
        | none ↦ some below
        | some s ↦ traversal fuel pn s (enter_sibling pn s below)
      ]
    ]

-- `pn[0].sibling = &pn[1];`
abbrev pub link_kthreadd : Nodes → Nodes
link_kthreadd pn = set_sibling pn 0 1

abbrev pub fresh_walk : Walk
fresh_walk = record { count = 1; space = λ p. 1; lines = [] }

-- Enough for `n` nodes: see Traversal.
abbrev pub fuel_for : ℕ → ℕ
fuel_for n = suc ((n + 1) * (n + 1) + n + 1)

pub data Ended : Type 0 where
  crashes : Ended
  returns_early : Ended
  out_of_fuel : Ended
  prints : List Line → Ended

-- `printf("init\n")`
abbrev pub init_line : Line
init_line = record { space = 0; name = codes "init" }

abbrev pub shown : Option Walk → Ended
shown none = out_of_fuel
shown (some w) = prints (init_line ∷ w.lines)

-- `main`, over the entries of /proc and the memory that `realloc` gives.
unfoldable pub main : List Entry → Nodes → Ended
main entries memory = elim (collect entries 0 memory) [
  | crashed ↦ crashes
  | returned ↦ returns_early
  | nodes n pn ↦ shown (traversal (fuel_for n) (link_kthreadd (link_all n pn)) 0 fresh_walk)
]
