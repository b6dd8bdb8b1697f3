-- ===== src/Tests/Snapshots.antt =====
-- A small registry and its snapshot.
use m_sl_sys_fs.Base.{
  ℕ, ◌+◌, ◌*◌, ◌^◌, ◌≤◌, ◌≡◌, ◌≢◌, refl, true, false, Option, none, some, List, [], ◌∷◌, Bytes,
  codes, arith, to_decimal, digits_fuel,
}
use m_sl_sys_fs.Snapshot.{Snapshot}
use m_sl_sys_fs.Snapshot.Walk.{
  RegEntry, Parent, registry_root, below, zero_node, visit, walk, start_walk, node_of, table_cap,
  table_size, grow_size,
}
use m_sl_sys_fs.Snapshot.Hash.{hash_insert, hash_find, hash_of, insert_loop, find_loop}
use m_sl_sys_fs.Snapshot.Hash.Assoc.{insert_all, first_of, hash_find-first_of}
use m_sl_sys_fs.Snapshot.Hash.Map.{no_slots}
use m_sl_sys_fs.Snapshot.Hash.Probe.{IsPow2}
use m_sl_sys_fs.Snapshot.Children.{
  sum_counts, count_children, parent_index, dup_rows, dup_row, assign_offsets, fill, count_dups,
}
use m_sl_sys_fs.Snapshot.Build.{
  Sizes, World, Answers, snap_build, build_tables, build_children, build_modules, estimate,
  walked_snapshot, place_children,
}
use m_sl_sys_fs.Snapshot.Build.Fits.{table_size-stops}
use m_sl_sys_fs.Snapshot.Build.Memory.{leaked}
use m_sl_sys_fs.Snapshot.Build.Owed.{Owes, snap_build-Owes}
use m_sl_sys_fs.Snapshot.Query.{display, find, iokit, path_of, path_depth, emit_path, chain_up}
use m_sl_sys_fs.Snapshot.Query.Path.{path_text}
use m_sl_sys_fs.Snapshot.Query.Lead.{resolve, stop}
use m_sl_sys_fs.Snapshot.Registry.{ListsAll, snap_build-ListsAll}
use m_sl_sys_fs.Snapshot.Names.{snap_build-siblings_apart, snap_build-path_of}

abbrev pub sizes : Sizes
sizes = record { snapshot = 80; node = 208; slot = 16; module_size = 184 }

abbrev pub entry : ℕ → Parent → Bytes → RegEntry
entry id parent name = record {
  id = id;
  parent = parent;
  entry_name = some name;
  is_media = false;
  is_interface = false;
  is_serial = false;
  is_power = false;
  bsd_name = none;
  whole = none;
}

-- A bus with two entries of one name below it, and an entry whose parent is not in the registry.
abbrev pub entries : List RegEntry
entries =
    entry 10 registry_root (codes "bus")
    ∷ entry 11 (below 10) (codes "disk")
    ∷ entry 12 (below 10) (codes "disk")
    ∷ entry 13 (below 99) (codes "cpu")
    ∷ []

abbrev pub answers : Answers
answers = record {
  earlier = entries;
  entries = entries;
  kexts = none;
  snapshot_ok = true;
  nodes_ok = true;
  child_ok = true;
  hash_ok = true;
  counts_ok = true;
  cursor_ok = true;
  modules_ok = true;
  iterator_ok = true;
  uptime = 5;
}

abbrev pub start_world : World
start_world = record { live = 1000; snap_bytes = 0; snap_builds = 0; last_node_count = 0 }

abbrev or_empty : Option Snapshot → Snapshot
or_empty (some s) = s
or_empty none = record {
  modules = none;
  module_cap = 0;
  nodes = λ i. zero_node;
  child_idx = λ i. 0;
  hash = no_slots;
  node_count = 0;
  node_cap = 0;
  child_cap = 0;
  hash_size = 0;
  uptime = 0;
  bytes = 0;
}

abbrev pub snap : Snapshot
snap = or_empty (snap_build sizes answers start_world).0

pub snap_is_built : (snap_build sizes answers start_world).0 ≡ some snap
unfolding snap_build build_tables build_children build_modules walked_snapshot table_cap sum_counts
    walk start_walk visit hash_find find_loop table_size grow_size hash_insert insert_loop hash_of
    count_children parent_index node_of
snap_is_built = refl

pub snap_uptime : snap.uptime ≡ 5
unfolding snap_build build_tables build_children build_modules walked_snapshot table_cap sum_counts
    walk start_walk visit hash_find find_loop table_size grow_size hash_insert insert_loop hash_of
    count_children parent_index node_of place_children dup_rows dup_row assign_offsets fill
snap_uptime = refl

snap_count : snap.node_count ≡ 5
unfolding snap_build build_tables build_children build_modules walked_snapshot table_cap sum_counts
    walk start_walk visit hash_find find_loop table_size grow_size hash_insert insert_loop hash_of
    count_children parent_index node_of place_children dup_rows dup_row assign_offsets fill
snap_count = refl

bus_children : (snap.nodes 1).num_children ≡ 2
unfolding snap_build build_tables build_children build_modules walked_snapshot table_cap sum_counts
    walk start_walk visit hash_find find_loop table_size grow_size hash_insert insert_loop hash_of
    count_children parent_index node_of place_children dup_rows dup_row assign_offsets fill
bus_children = refl

disk_found : find snap 12 ≡ some 3
unfolding snap_build build_tables build_children build_modules walked_snapshot table_cap sum_counts
    walk start_walk visit hash_find find_loop table_size grow_size hash_insert insert_loop hash_of
    count_children parent_index node_of place_children dup_rows dup_row assign_offsets fill
disk_found = refl

disk_path : path_of snap 12 64 ≡ codes "bus/disk@1"
unfolding snap_build build_tables build_children build_modules walked_snapshot table_cap sum_counts
    walk start_walk visit hash_find find_loop table_size grow_size hash_insert insert_loop hash_of
    count_children parent_index node_of place_children dup_rows dup_row assign_offsets fill path_of
    emit_path chain_up display to_decimal digits_fuel count_dups
disk_path = refl

snap_build-ListsAll_example :
    ListsAll answers.entries (table_cap (estimate answers start_world)) snap
snap_build-ListsAll_example = snap_build-ListsAll sizes answers start_world snap snap_is_built refl

snap_build-siblings_apart_example :
    display (snap.nodes (snap.child_idx ((snap.nodes 1).first_child + 0)))
    ≢ display (snap.nodes (snap.child_idx ((snap.nodes 1).first_child + 1)))
snap_build-siblings_apart_example =
    snap_build-siblings_apart sizes answers start_world snap snap_is_built refl
      (refl, (refl, (refl, (refl, tt)))) 1 0 1 (omega (arith, snap_count)) (omega arith)
      (omega (arith, bus_children))

snap_build-path_of_example :
    (names : List Bytes) × (path_of snap 12 64 ≡ path_text 64 names)
    × (resolve (iokit snap) (snap.nodes (stop snap path_depth (some 3))).regid names ≡ some 12)
snap_build-path_of_example =
    snap_build-path_of sizes answers start_world snap snap_is_built refl
      (refl, (refl, (refl, (refl, tt)))) 12 64 3 (λ e. omega (arith, e)) (omega arith) disk_found

hash_find-first_of_example :
    hash_find (2 ^ 2) (insert_all (2 ^ 2) ((7, 1) ∷ (9, 2) ∷ (7, 3) ∷ []) no_slots) 7
    ≡ first_of 7 ((7, 1) ∷ (9, 2) ∷ (7, 3) ∷ [])
hash_find-first_of_example = hash_find-first_of 2 ((7, 1) ∷ (9, 2) ∷ (7, 3) ∷ []) 7 (omega arith)

table_size-stops_example :
    (table_cap 300 * 2 ≤ table_size (table_cap 300))
    × (table_size (table_cap 300) ≤ 65536)
    × IsPow2 (table_size (table_cap 300))
table_size-stops_example = table_size-stops 300

-- The nodes can be allocated, the child index cannot.
abbrev pub short_answers : Answers
short_answers = record answers { child_ok = false; hash_ok = false }

snap_build-Owes_example :
    Owes sizes short_answers start_world
      (leaked sizes short_answers (table_cap (estimate short_answers start_world)))
      (snap_build sizes short_answers start_world)
snap_build-Owes_example = snap_build-Owes sizes short_answers start_world

lost_nodes : leaked sizes short_answers (table_cap (estimate short_answers start_world)) ≡ 70 * 208
unfolding leaked table_cap
lost_nodes = refl
