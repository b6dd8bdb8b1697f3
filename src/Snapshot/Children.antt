-- ===== src/Snapshot/Children.antt =====
-- kext/sysfs_iokit.cpp: the child lists of a snapshot, one array for all of them, and the ordinals of
-- children with the same name.
pub mod Counts
pub mod Fill
pub mod Ordinals
use m_sl_sys_fs.Base.{ℕ, zero, suc, ◌+◌, Option, none, some, if◌then◌else◌, str_eq, ◌==◌}
use m_sl_sys_fs.Node.Hash.{write_at}
use m_sl_sys_fs.Snapshot.{SnapNode, Slots}
use m_sl_sys_fs.Snapshot.Hash.{hash_find}

abbrev pub or_root : Option ℕ → ℕ
or_root none = 0
or_root (some i) = i

-- The index that a node's parent is at; an orphan goes to the root.
unfoldable pub parent_index : ℕ → Slots → (ℕ → SnapNode) → ℕ → ℕ
parent_index size hash nodes i = or_root (hash_find size hash (nodes i).parent_regid)

abbrev pub bump : (ℕ → ℕ) → ℕ → ℕ → ℕ
bump f p = write_at f p (f p + 1)

-- The loops run over `i = 1, …, count - 1`: `n` is the number of rounds done, and `par` finds the
-- parent's index.
unfoldable pub count_children : (ℕ → ℕ) → ℕ → ℕ → ℕ
count_children par zero = λ p. 0
count_children par (suc n) = let counts = count_children par n in bump counts (par (suc n))

-- `total_children`, and `off`: the sum of the first `n` counts
unfoldable pub sum_counts : (ℕ → ℕ) → ℕ → ℕ
sum_counts counts zero = 0
sum_counts counts (suc n) = sum_counts counts n + counts n

abbrev pub set_children : ℕ → ℕ → SnapNode → SnapNode
set_children first num x = record x { first_child = first; num_children = num }

-- `num_children` and `first_child` of the first `n` nodes
unfoldable pub assign_offsets : (ℕ → ℕ) → ℕ → (ℕ → SnapNode) → ℕ → SnapNode
assign_offsets counts zero nodes = nodes
assign_offsets counts (suc n) nodes =
    let done = assign_offsets counts n nodes in
    write_at done n (set_children (sum_counts counts n) (counts n) (done n))

-- The loop that fills `child_idx`: the cursors and the array
pub record Filling : Type 0 where
  pub cursor : ℕ → ℕ
  pub child_idx : ℕ → ℕ

unfoldable pub fill : (ℕ → ℕ) → ℕ → Filling → Filling
fill par zero f = f
fill par (suc n) f =
    let done = fill par n f in
    let p = par (suc n) in
    record {
      cursor = bump done.cursor p;
      child_idx = write_at done.child_idx (done.cursor p) (suc n);
    }

-- The siblings before the `i`-th that have the name of node `ci`: the innermost loop
unfoldable pub count_dups : (ℕ → SnapNode) → (ℕ → ℕ) → ℕ → ℕ → ℕ → ℕ
count_dups nodes child_idx base ci zero = 0
count_dups nodes child_idx base ci (suc k) =
    let rest = count_dups nodes child_idx base ci k in
    if str_eq (nodes (child_idx (base + k))).name (nodes ci).name then rest + 1 else rest

abbrev pub set_dup : ℕ → SnapNode → SnapNode
set_dup dup x = record x { dup_ordinal = dup }

-- The first `i` children of one node
unfoldable pub dup_row : (ℕ → ℕ) → ℕ → ℕ → (ℕ → SnapNode) → ℕ → SnapNode
dup_row child_idx base zero nodes = nodes
dup_row child_idx base (suc i) nodes =
    let done = dup_row child_idx base i nodes in
    let ci = child_idx (base + i) in
    write_at done ci (set_dup (count_dups done child_idx base ci i) (done ci))

-- The first `p` nodes
unfoldable pub dup_rows : (ℕ → ℕ) → ℕ → (ℕ → SnapNode) → ℕ → SnapNode
dup_rows child_idx zero nodes = nodes
dup_rows child_idx (suc p) nodes =
    let done = dup_rows child_idx p nodes in
    dup_row child_idx (done p).first_child (done p).num_children done
