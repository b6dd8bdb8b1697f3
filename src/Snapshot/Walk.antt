-- ===== src/Snapshot/Walk.antt =====
-- kext/sysfs_iokit.cpp: what the build of a snapshot reads of the IORegistry, and its walk. What
-- IOKit answers is a parameter: the entries that the iterator yields, in order.
pub mod Sound
use m_sl_sys_fs.Base.{
  ℕ, zero, suc, ◌+◌, ◌*◌, ◌/◌, Bool, true, false, Option, none, some, List, [], ◌∷◌, Bytes, codes,
  ◌==◌, if◌then◌else◌, ltb, take, min, length,
}
use m_sl_sys_fs.Node.Hash.{write_at}
use m_sl_sys_fs.Snapshot.{SnapNode, Slots}
use m_sl_sys_fs.Snapshot.Hash.{hash_insert, hash_find}
use m_sl_sys_fs.Snapshot.Hash.Map.{no_slots}

-- `getParentEntry`: no parent, the registry's root, or an entry with its id
pub data Parent : Type 0 where
  no_parent : Parent
  registry_root : Parent
  below : ℕ → Parent

-- `getRegistryEntryID`, `getParentEntry`, `getName`, the four `metaCast`s, and the properties
-- "BSD Name" and "Whole"
pub record RegEntry : Type 0 where
  pub id : ℕ
  pub parent : Parent
  pub entry_name : Option Bytes
  pub is_media : Bool
  pub is_interface : Bool
  pub is_serial : Bool
  pub is_power : Bool
  pub bsd_name : Option Bytes
  pub whole : Option Bool

-- SYSFS_CLASS_NONE and so on
abbrev pub class_no : ℕ
class_no = 0

abbrev pub class_net : ℕ
class_net = 1

abbrev pub class_block : ℕ
class_block = 2

abbrev pub class_tty : ℕ
class_tty = 3

abbrev pub class_power : ℕ
class_power = 4

-- The parent's regid: 0 for the root, and where there is no parent
abbrev pub parent_id : Parent → ℕ
parent_id no_parent = 0
parent_id registry_root = 0
parent_id (below id) = id

unfoldable pub class_of : RegEntry → ℕ
class_of e =
    if e.is_media
    then class_block
    else if e.is_interface
    then class_net
    else if e.is_serial
    then class_tty
    else if e.is_power
    then class_power
    else class_no

-- `strlcpy` into `name[SYSFS_IOKIT_NAMEMAX]`
abbrev pub kept_name : Option Bytes → Bytes
kept_name none = codes "unknown"
kept_name (some s) = take 127 s

abbrev pub is_whole : Option Bool → Bool
is_whole none = false
is_whole (some b) = b

-- `class_id`, `class_flags` and `bsdname` of an entry in a class
unfoldable pub member_of : ℕ → Bytes → Option Bytes → Option Bool → ℕ × Bool × Bytes
member_of class name (some bsd) whole =
    (class, if class == class_block then is_whole whole else false, take 31 bsd)
member_of class name none whole =
    if class == class_power then (class_power, false, take 31 name) else (class_no, false, [])

abbrev pub class_fields : ℕ → Bytes → Option Bytes → Option Bool → ℕ × Bool × Bytes
class_fields class name bsd whole =
    if class == class_no then (class_no, false, []) else member_of class name bsd whole

-- The node that the loop's body fills in.
unfoldable pub node_of : RegEntry → SnapNode
node_of e =
    let name = kept_name e.entry_name in
    let (class, whole, bsdname) = class_fields (class_of e) name e.bsd_name e.whole in
    record {
      regid = e.id;
      parent_regid = parent_id e.parent;
      first_child = 0;
      num_children = 0;
      dup_ordinal = 0;
      class_id = class;
      whole = whole;
      bsdname = bsdname;
      name = name;
    }

-- A node of zeroed memory; node 0, the synthetic root, stays one.
abbrev pub zero_node : SnapNode
zero_node = record {
  regid = 0;
  parent_regid = 0;
  first_child = 0;
  num_children = 0;
  dup_ordinal = 0;
  class_id = 0;
  whole = false;
  bsdname = [];
  name = [];
}

-- The node table, the hash and `count` during the walk.
pub record Walk : Type 0 where
  pub nodes : ℕ → SnapNode
  pub hash : Slots
  pub count : ℕ

unfoldable pub start_walk : ℕ → Walk
start_walk size = record { nodes = λ i. zero_node; hash = hash_insert size no_slots 0 0; count = 1 }

abbrev pub append : ℕ → RegEntry → Walk → Walk
append size e b = record {
  nodes = write_at b.nodes b.count (node_of e);
  hash = hash_insert size b.hash e.id b.count;
  count = b.count + 1;
}

-- A duplicate keeps its first appearance.
abbrev pub append_unless : ℕ → RegEntry → Option ℕ → Walk → Walk
append_unless size e (some i) b = b
append_unless size e none b = append size e b

-- The body of the loop; the id 0 is the root's.
unfoldable pub visit : ℕ → RegEntry → Walk → Walk
visit size e b = if e.id == 0 then b else append_unless size e (hash_find size b.hash e.id) b

-- `while ((e = it->getNextObject()) != nullptr && count < cap)`
unfoldable pub walk : ℕ → ℕ → List RegEntry → Walk → Walk
walk size cap [] b = b
walk size cap (e ∷ es) b =
    let rest = walk size cap es (visit size e b) in if ltb b.count cap then rest else b

-- SYSFS_IOKIT_MAXNODES
abbrev pub max_nodes : ℕ
max_nodes = 16384

-- `sysfs_count_entries`
abbrev pub count_entries : List RegEntry → ℕ
count_entries es = min (length es) max_nodes

-- The capacity for an estimate of the number of entries
unfoldable pub table_cap : ℕ → ℕ
table_cap maxe = min (maxe + (maxe / 4 + 64) + 1) max_nodes

-- `while (hsize < cap * 2u) hsize <<= 1;`
unfoldable pub grow_size : ℕ → ℕ → ℕ → ℕ
grow_size zero h target = h
grow_size (suc fuel) h target =
    let rest = grow_size fuel (h * 2) target in if ltb h target then rest else h

unfoldable pub table_size : ℕ → ℕ
table_size cap = grow_size (cap * 2) 16 (cap * 2)
