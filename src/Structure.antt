-- ===== src/Structure.antt =====
-- kext/sysfs_structure.c: the layout tree on its heap, and the three functions that add to it. The
-- state is `root_node`, `next_node_id` and the heap that OSMalloc hands out nodes of.
pub mod Init
pub mod Links
pub mod Free
use m_sl_sys_fs.Base.{
  ℕ, suc, ◌+◌, ◌%◌, ◌^◌, Bool, true, false, ◌||◌, Option, none, some, List, [], ◌∷◌, ◌++◌, Bytes,
  codes, take, if◌then◌else◌, ◌==◌,
}
use m_sl_sys_fs.Types.{
  SfsType, sfs_file, sfs_dirthis, sfs_dirparent, SsnFlags, SizeFn, ReadFn, Snode, no_flags,
}

-- Addresses are numbers, handed out in order; a cell is none before it is allocated and after it
-- is freed.
pub record Structure : Type 0 where
  pub cell : ℕ → Option Snode
  pub next : ℕ
  pub next_node_id : ℕ  -- uint16_t
  pub root_node : Option ℕ

-- `MAX_STRUCT_NODE_NAME_LEN`
abbrev pub max_struct_node_name_len : ℕ
max_struct_node_name_len = 32

-- The state of the file's static variables, passed from call to call.
abbrev pub Build : Type 0 → Type 0
Build A = Structure → A × Structure

infixl 5 ◌>>=◌ ◌>>◌
abbrev pub ◌>>=◌ : {A B : Type 0} → Build A → (A → Build B) → Build B
◌>>=◌ m f s = f (m s).0 (m s).1

abbrev pub ◌>>◌ : {A B : Type 0} → Build A → Build B → Build B
◌>>◌ m k s = k (m s).1

abbrev pub pure : {A : Type 0} → A → Build A
pure a s = (a, s)

abbrev pub write : (ℕ → Option Snode) → ℕ → Option Snode → ℕ → Option Snode
write cell p v q = if p == q then v else cell q

-- A field of a node that is pointed to; a null or dangling pointer reads as nothing.
abbrev pub dynamic_of : Option Snode → Bool
dynamic_of none = false
dynamic_of (some x) = x.flags.dynamic

-- Reading through a pointer. The invariant of the tree says that the pointers that are followed lead
-- to live nodes; what C would read elsewhere is undefined, and is an empty node here.
abbrev pub node_at : Option Snode → Snode
node_at (some x) = x
node_at none = record {
  node_type = sfs_file;
  name = [];
  base_node_id = 0;
  flags = no_flags;
  instance_no = 0;
  parent = none;
  children = [];
  node_size = 0;
  getsize_fn = none;
  read_data_fn = none;
}

abbrev pub deref : Structure → ℕ → Snode
deref s p = node_at (s.cell p)

-- The nodes of a child queue, in order.
abbrev pub child_nodes : Structure → List ℕ → List Snode
child_nodes s [] = []
child_nodes s (p ∷ ps) = deref s p ∷ child_nodes s ps

-- `next_node_id++` on a uint16_t
unfoldable pub fresh_node_id : Build ℕ
fresh_node_id s = (s.next_node_id, record s { next_node_id = (s.next_node_id + 1) % 2 ^ 16 })

-- `TAILQ_INSERT_TAIL(&parent->ssn_children, node, ssn_next)`
abbrev pub insert_tail : (ℕ → Option Snode) → ℕ → ℕ → ℕ → Option Snode
insert_tail cell p n = elim (cell p) [
  | none ↦ cell
  | some x ↦ write cell p (some (record x { children = x.children ++ n ∷ [] }))
]

-- The node that `add_node` fills in before it is linked; `strlcpy` cuts the name to the buffer.
abbrev pub new_node :
    Option ℕ → Bytes → SfsType → ℕ → SsnFlags → ℕ → Option SizeFn → Option ReadFn → Bool → Snode
new_node parent name type node_id flags size size_fn read_fn inherited = record {
  node_type = type;
  name = take 31 name;
  base_node_id = node_id;
  flags = record flags { dynamic = flags.dynamic || inherited };
  instance_no = 0;
  parent = parent;
  children = [];
  node_size = size;
  getsize_fn = size_fn;
  read_data_fn = read_fn;
}

abbrev pub parent_dynamic : Structure → Option ℕ → Bool
parent_dynamic s none = false
parent_dynamic s (some p) = dynamic_of (s.cell p)

abbrev pub link_to : Option ℕ → (ℕ → Option Snode) → ℕ → ℕ → Option Snode
link_to none cell n = cell
link_to (some p) cell n = insert_tail cell p n

-- `add_node`; the allocation panics rather than fail, so there is no error to return.
unfoldable pub add_node :
    Option ℕ → Bytes → SfsType → ℕ → SsnFlags → ℕ → Option SizeFn → Option ReadFn → Build ℕ
add_node parent name type node_id flags size size_fn read_fn s = (
  s.next,
  record s {
    cell =
        link_to parent
          (write s.cell s.next (
            some (
              new_node parent name type node_id flags size size_fn read_fn
                (parent_dynamic s parent))))
          s.next;
    next = s.next + 1;
  },
)

-- The flags that the "." and ".." entries take over: `flags & SSN_FLAG_DYNAMIC`.
abbrev pub only_dynamic : SsnFlags → SsnFlags
only_dynamic f = record { dynamic = f.dynamic; whole_only = false; modules = false }

-- `add_directory` with `raw` 0. Its inner calls have `raw` 1, which leaves `add_node` alone.
unfoldable pub add_directory : Option ℕ → Bytes → SfsType → ℕ → SsnFlags → Build ℕ
add_directory parent name type node_id flags = do
  snode ← add_node parent name type node_id flags 0 none none
  this_id ← fresh_node_id
  add_node (some snode) (codes ".") sfs_dirthis this_id (only_dynamic flags) 0 none none
  parent_id ← fresh_node_id
  add_node (some snode) (codes "..") sfs_dirparent parent_id (only_dynamic flags) 0 none none
  pure snode

-- `add_file`
unfoldable pub add_file : ℕ → Bytes → ℕ → SsnFlags → ℕ → Option ReadFn → Build ℕ
add_file parent name node_id flags size read_fn =
    add_node (some parent) name sfs_file node_id flags size none read_fn

-- `node->ssn_instance = c`
unfoldable pub set_instance : ℕ → ℕ → Build (Unit {0})
set_instance p c s = (
  tt,
  record s {
    cell = elim (s.cell p) [
      | none ↦ s.cell
      | some x ↦ write s.cell p (some (record x { instance_no = c }))
    ];
  },
)

-- The calls as `sysfs_structure_init` makes them, with `next_node_id++` for the identifier.
unfoldable pub directory : ℕ → Bytes → SsnFlags → Build ℕ
directory parent name flags = do
  id ← fresh_node_id
  add_directory (some parent) name SfsType.sfs_dir id flags

unfoldable pub node : ℕ → Bytes → SfsType → SsnFlags → Build ℕ
node parent name type flags = do
  id ← fresh_node_id
  add_node (some parent) name type id flags 0 none none

unfoldable pub file : ℕ → Bytes → ℕ → ReadFn → Build ℕ
file parent name size read_fn = do
  id ← fresh_node_id
  add_file parent name id no_flags size (some read_fn)

-- `sysfs_structure_root_node`
unfoldable pub structure_root_node : Structure → Option ℕ
structure_root_node s = s.root_node

-- The static data at load time.
abbrev pub empty : Structure
empty = record { cell = λ _. none; next = 0; next_node_id = 2; root_node = none }
