-- ===== src/Structure/Free.antt =====
-- `sysfs_structure_free` and `release_node` of kext/sysfs_structure.c.
use m_sl_sys_fs.Base.{
  ℕ, zero, suc, ◌+◌, Option, none, some, List, [], ◌∷◌, length, leb, if◌then◌else◌,
}
use m_sl_sys_fs.Types.{Snode}
use m_sl_sys_fs.Structure.{Structure, write, node_at}

-- `SYSFS_RELEASE_STACK_MAX`
abbrev pub release_stack_max : ℕ
release_stack_max = 256

abbrev orphan : Option Snode → Option Snode
orphan none = none
orphan (some x) = some (record x { parent = none })

-- The loop over the children: each loses its parent and is pushed; when the stack is full, the one
-- that does not fit and the rest are left behind.
unfoldable pub push_children : List ℕ → (ℕ → Option Snode) → List ℕ → (ℕ → Option Snode) × List ℕ
push_children [] cell stack = (cell, stack)
push_children (c ∷ cs) cell stack =
    let cell' = write cell c (orphan (cell c)) in
    let more = push_children cs cell' (c ∷ stack) in
    if leb release_stack_max (length stack) then (cell', stack) else more

-- The loop over the stack; each round frees a node, so that the number of nodes bounds the fuel.
unfoldable pub release_loop : ℕ → (ℕ → Option Snode) → List ℕ → ℕ → Option Snode
release_loop zero cell stack = cell
release_loop (suc fuel) cell [] = cell
release_loop (suc fuel) cell (n ∷ stack) =
    let (cell', stack') = push_children (node_at (cell n)).children cell stack in
    release_loop fuel (write cell' n none) stack'

-- `release_node`, on a root without a parent
unfoldable pub release_node : ℕ → Structure → Structure
release_node root s = record s { cell = release_loop (s.next + 1) s.cell (root ∷ []) }

unfoldable pub free_from : Option ℕ → Structure → Structure
free_from none s = s
free_from (some root) s = record (release_node root s) { root_node = none }

-- `sysfs_structure_free`
unfoldable pub structure_free : Structure → Structure
unfolding free_from
structure_free s = free_from s.root_node s
