-- ===== src/Snapshot/Build.antt =====
-- kext/sysfs_iokit.cpp: `sysfs_snap_build` and `sysfs_snap_free`, with the memory that they take and
-- give back. Which allocations succeed is a parameter.
pub mod Fits
pub mod Sound
pub mod Tree
pub mod Whole
pub mod Memory
pub mod Owed
use m_sl_sys_fs.Base.{
  ℕ, zero, suc, ◌+◌, ◌-◌, ◌*◌, Bool, true, false, ◌&&◌, Option, none, some, List, [], ◌∷◌, Bytes,
  ◌==◌, ltb, if◌then◌else◌, take, min, length,
}
use m_sl_sys_fs.Iokit.{ModuleInfo}
use m_sl_sys_fs.Snapshot.{SnapNode, Snapshot}
use m_sl_sys_fs.Snapshot.Walk.{
  RegEntry, Walk, start_walk, walk, zero_node, count_entries, table_cap, table_size, max_nodes,
}
use m_sl_sys_fs.Snapshot.Children.{
  parent_index, count_children, sum_counts, assign_offsets, Filling, fill, dup_rows, set_children,
}

-- The sizes that the compiler gives the structures.
pub record Sizes : Type 0 where
  pub snapshot : ℕ
  pub node : ℕ
  pub slot : ℕ
  pub module_size : ℕ

-- Bytes that IOMalloc has handed out, the counters, and `g_last_node_count`.
pub record World : Type 0 where
  pub live : ℕ
  pub snap_bytes : ℕ
  pub snap_builds : ℕ
  pub last_node_count : ℕ

-- A kext as `copyLoadedKextInfo` describes it; a key that is missing is none.
pub record KextEntry : Type 0 where
  pub ident : Option Bytes
  pub described : Bool
  pub load_tag : Option ℕ
  pub load_size : Option ℕ
  pub retain_count : Option ℕ
  pub version : Option Bytes

-- What IOKit and the allocator answer during a build. `earlier` is what a count would iterate over.
pub record Answers : Type 0 where
  pub earlier : List RegEntry
  pub entries : List RegEntry
  pub kexts : Option (List KextEntry)
  pub snapshot_ok : Bool
  pub nodes_ok : Bool
  pub child_ok : Bool
  pub hash_ok : Bool
  pub counts_ok : Bool
  pub cursor_ok : Bool
  pub modules_ok : Bool
  pub iterator_ok : Bool
  pub uptime : ℕ

-- `sysfs_alloc`, and `sysfs_free` of a pointer that is not null
abbrev pub alloc : Bool → ℕ → World → World
alloc true n w = record w { live = w.live + n }
alloc false n w = w

abbrev pub free : ℕ → World → World
free n w = record w { live = w.live - n }

-- A pointer: none is null. `sysfs_free` of an array of `n` elements; no length, no release.
abbrev pub free_array : Bool → ℕ → World → World
free_array true n w = free n w
free_array false n w = w

-- `sysfs_snap_free` by the pointers that are set and the capacities in the header
unfoldable pub free_parts : Sizes → Bool → Bool → Bool → Bool → ℕ → ℕ → ℕ → ℕ → ℕ → World → World
free_parts z modules nodes child hash module_cap node_cap child_cap hash_size bytes w =
    let w1 = free_array modules (module_cap * z.module_size) w in
    let w2 = free_array nodes (node_cap * z.node) w1 in
    let w3 = free_array child (child_cap * 4) w2 in
    let w4 = free_array hash (hash_size * z.slot) w3 in
    free z.snapshot (record w4 { snap_bytes = w4.snap_bytes - bytes })

abbrev pub is_set : Option (List ModuleInfo) → Bool
is_set none = false
is_set (some ms) = true

unfoldable pub snap_free : Sizes → Option Snapshot → World → World
snap_free z none w = w
snap_free z (some s) w =
    free_parts z (is_set s.modules) true true true s.module_cap s.node_cap s.child_cap s.hash_size
      s.bytes w

abbrev pub or_zero : Option ℕ → ℕ
or_zero none = 0
or_zero (some n) = n

abbrev pub cut_version : Option Bytes → Bytes
cut_version none = []
cut_version (some v) = take 31 v

-- The module record of an entry with an identifier and a description.
abbrev pub module_of : Option Bytes → KextEntry → Option ModuleInfo
module_of none k = none
module_of (some ident) k =
    if k.described
    then some (record {
      load_tag = or_zero k.load_tag;
      load_size = or_zero k.load_size;
      refcnt = or_zero k.retain_count;
      name = take 127 ident;
      version = cut_version k.version;
    })
    else none

abbrev pub collected : Option ModuleInfo → (ℕ → List ModuleInfo) → ℕ → List ModuleInfo
collected none rest n = rest n
collected (some m) rest n = m ∷ rest (n + 1)

-- The loop of `sysfs_snap_build_modules`, at the `n`-th record
unfoldable pub collect : ℕ → List KextEntry → ℕ → List ModuleInfo
collect cap [] n = []
collect cap (k ∷ ks) n =
    let more = collected (module_of k.ident k) (λ m. collect cap ks m) n in
    if ltb n cap then more else []

-- SYSFS_IOKIT_MAXMODULES
abbrev pub max_modules : ℕ
max_modules = 1024

-- `sysfs_snap_build_modules`, for a dictionary with `cap` entries, cut to the bound
unfoldable pub build_modules :
    Sizes → Answers → Option (List KextEntry) → Snapshot → World → Snapshot × World
build_modules z a none s w = (s, w)
build_modules z a (some ks) s w =
    let cap = min (length ks) max_modules in
    let bytes = cap * z.module_size in
    if cap == 0
    then (s, w)
    else if a.modules_ok
    then (if a.iterator_ok
        then (
          record s { modules = some (collect cap ks 0); module_cap = cap; bytes = s.bytes + bytes },
          record (alloc true bytes w) { snap_bytes = w.snap_bytes + bytes },
        )
        else (s, free bytes (alloc true bytes w)))
    else (s, w)

abbrev pub estimate : Answers → World → ℕ
estimate a w = if w.last_node_count == 0 then count_entries a.earlier else w.last_node_count

-- The estimate after a walk that filled the table
unfoldable pub grow_estimate : ℕ → ℕ → World → World
grow_estimate count cap w =
    if ltb count cap
    then w
    else if ltb cap max_nodes
    then record w { last_node_count = if ltb max_nodes (cap * 2) then max_nodes else cap * 2 }
    else w

-- The snapshot when the walk has ended: no child is placed.
unfoldable pub walked_snapshot : Sizes → ℕ → ℕ → Walk → ℕ → Snapshot
walked_snapshot z cap size b uptime = record {
  modules = none;
  module_cap = 0;
  nodes = b.nodes;
  child_idx = λ i. 0;
  hash = b.hash;
  node_count = b.count;
  node_cap = cap;
  child_cap = cap;
  hash_size = size;
  uptime = uptime;
  bytes = z.snapshot + cap * z.node + cap * 4 + size * z.slot;
}

abbrev pub parents : Snapshot → ℕ → ℕ
parents s = parent_index s.hash_size s.hash s.nodes

abbrev pub child_counts : Snapshot → ℕ → ℕ
child_counts s = count_children (parents s) (s.node_count - 1)

-- The offsets and the children in their places.
abbrev pub offset_nodes : Snapshot → ℕ → SnapNode
offset_nodes s = assign_offsets (child_counts s) s.node_count s.nodes

abbrev pub filled : Snapshot → Filling
filled s =
    fill (parents s) (s.node_count - 1)
      (record { cursor = λ p. (offset_nodes s p).first_child; child_idx = s.child_idx })

-- From the placement of the children on; without cursors no node has any.
unfoldable pub place_children : Bool → Snapshot → Snapshot
place_children true s = record s {
  nodes = dup_rows (filled s).child_idx s.node_count (offset_nodes s);
  child_idx = (filled s).child_idx;
}
place_children false s = record s {
  nodes = λ i. set_children (offset_nodes s i).first_child 0 (offset_nodes s i);
}

-- From `child_counts` on. The array of the counts, and that of the cursors, are given back.
unfoldable pub build_children : Sizes → Answers → Snapshot → World → Option Snapshot × World
build_children z a s w =
    let count = s.node_count in
    let w1 = alloc true (count * 8) w in
    if a.counts_ok
    then (if ltb s.child_cap (sum_counts (child_counts s) count)
        then (none, snap_free z (some s) (free (count * 8) w1))
        else (let w2 = free_array a.cursor_ok (count * 4) (alloc a.cursor_ok (count * 4) w1) in
            let (s', w3) =
              build_modules z a a.kexts (place_children a.cursor_ok s) (free (count * 8) w2) in
            (some s', w3)))
    else (some s, w)

-- The three arrays, or nothing; the walk; and the children.
unfoldable pub build_tables : Sizes → Answers → ℕ → ℕ → World → Option Snapshot × World
build_tables z a cap size w =
    let w' =
      alloc a.hash_ok (size * z.slot)
        (alloc a.child_ok (cap * 4) (alloc a.nodes_ok (cap * z.node) w)) in
    if a.nodes_ok && (a.child_ok && a.hash_ok)
    then (let s = walked_snapshot z cap size (walk size cap a.entries (start_walk size)) a.uptime in
        build_children z a s (
          grow_estimate s.node_count cap
            (record w' { snap_bytes = w'.snap_bytes + s.bytes; snap_builds = w'.snap_builds + 1 })))
    else (none, free_parts z false a.nodes_ok a.child_ok a.hash_ok 0 0 0 0 0 w')

-- `sysfs_snap_build`
unfoldable pub snap_build : Sizes → Answers → World → Option Snapshot × World
snap_build z a w =
    let cap = table_cap (estimate a w) in
    if a.snapshot_ok
    then build_tables z a cap (table_size cap) (alloc true z.snapshot w)
    else (none, w)
