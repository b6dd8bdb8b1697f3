-- ===== src/Snapshot/Query.antt =====
-- The queries of kext/sysfs_iokit.cpp, answered from a snapshot: what the file system takes as the
-- registry.
pub mod Shows
pub mod Siblings
pub mod Lead
pub mod Path
use m_sl_sys_fs.Base.{
  ℕ, zero, suc, ◌+◌, ◌-◌, Bool, true, false, not, ◌&&◌, ◌||◌, Option, none, some, List, [], ◌∷◌,
  ◌++◌, Bytes, codes, ◌==◌, ltb, leb, if◌then◌else◌, take, length, get_elem?, str_eq, to_decimal,
}
use m_sl_sys_fs.Iokit.{Iokit, ModuleInfo}
use m_sl_sys_fs.Snapshot.{SnapNode, Snapshot}
use m_sl_sys_fs.Snapshot.Hash.{hash_find}

-- The name that a node is shown under among its siblings
unfoldable pub display : SnapNode → Bytes
display x = if x.dup_ordinal == 0 then x.name else x.name ++ (codes "@" ++ to_decimal x.dup_ordinal)

-- `strlcpy` and `snprintf` into a buffer of `buflen` bytes
abbrev pub cut : ℕ → Bytes → Bytes
cut buflen s = take (buflen - 1) s

abbrev pub find : Snapshot → ℕ → Option ℕ
find s regid = hash_find s.hash_size s.hash regid

abbrev pub child_node : Snapshot → ℕ → ℕ → SnapNode
child_node s pidx index = s.nodes (s.child_idx ((s.nodes pidx).first_child + index))

-- `sysfs_child_display`
unfoldable pub child_display : Snapshot → ℕ → ℕ → ℕ → Option (Bytes × ℕ)
child_display s pidx index buflen =
    if ltb pidx s.node_count && ltb index (s.nodes pidx).num_children
    then some (cut buflen (display (child_node s pidx index)), (child_node s pidx index).regid)
    else none

abbrev pub child_at_index : Snapshot → Option ℕ → ℕ → ℕ → Option (Bytes × ℕ)
child_at_index s none index buflen = none
child_at_index s (some pidx) index buflen = child_display s pidx index buflen

-- What a round of the loop makes of a child, and of the later rounds.
abbrev pub named_or : Bytes → Option (Bytes × ℕ) → Option ℕ → Option ℕ
named_or name none rest = none
named_or name (some (buf, id)) rest = if str_eq name buf then some id else rest

-- The loop of `sysfs_iokit_child_named` from the `i`-th child on, with `n` rounds left
unfoldable pub scan_children : Snapshot → ℕ → Bytes → ℕ → ℕ → Option ℕ
scan_children s pidx name zero i = none
scan_children s pidx name (suc n) i =
    let rest = scan_children s pidx name n (suc i) in
    named_or name (child_display s pidx i 144) rest

abbrev pub child_named_index : Snapshot → Option ℕ → Bytes → Option ℕ
child_named_index s none name = none
child_named_index s (some pidx) name = scan_children s pidx name (s.nodes pidx).num_children 0

abbrev pub parent_at : Snapshot → Option ℕ → Option ℕ
parent_at s none = none
parent_at s (some idx) = some (s.nodes idx).parent_regid

abbrev pub name_at : Snapshot → Option ℕ → ℕ → Bytes
name_at s none buflen = []
name_at s (some idx) buflen = cut buflen (s.nodes idx).name

-- A node of the class, with the flag that is asked for
unfoldable pub in_class : ℕ → Bool → SnapNode → Bool
in_class class whole x = (x.class_id == class) && (not whole || x.whole)

-- The loop of `sysfs_iokit_class_child_at` from node `i` on
unfoldable pub scan_class_at : Snapshot → ℕ → Bool → ℕ → ℕ → ℕ → ℕ → ℕ → Option (Bytes × ℕ)
scan_class_at s class whole index buflen zero i seen = none
scan_class_at s class whole index buflen (suc n) i seen =
    let x = s.nodes i in
    let next = scan_class_at s class whole index buflen n (suc i) (seen + 1) in
    let skip = scan_class_at s class whole index buflen n (suc i) seen in
    if in_class class whole x
    then (if seen == index then some (cut buflen x.bsdname, x.regid) else next)
    else skip

-- The loop of `sysfs_iokit_class_child_named` from node `i` on
unfoldable pub scan_class_named : Snapshot → ℕ → Bool → Bytes → ℕ → ℕ → Option ℕ
scan_class_named s class whole name zero i = none
scan_class_named s class whole name (suc n) i =
    let x = s.nodes i in
    let rest = scan_class_named s class whole name n (suc i) in
    if in_class class whole x && str_eq name x.bsdname then some x.regid else rest

-- SYSFS_IOKIT_PATHDEPTH
abbrev pub path_depth : ℕ
path_depth = 64

-- The walk up to the root: `acc` has the indices so far, the topmost first.
unfoldable pub chain_up : Snapshot → ℕ → Option ℕ → List ℕ → List ℕ
chain_up s n none acc = acc
chain_up s zero (some idx) acc = acc
chain_up s (suc n) (some idx) acc =
    let rest = chain_up s n (find s (s.nodes idx).parent_regid) (idx ∷ acc) in
    if idx == 0 then acc else rest

abbrev pub slash : Bytes → Bytes
slash [] = []
slash (c ∷ buf) = codes "/"

-- The loop that writes the path; what does not fit leaves nothing.
unfoldable pub emit_path : Snapshot → ℕ → Bytes → List ℕ → Bytes
emit_path s buflen buf [] = buf
emit_path s buflen buf (idx ∷ chain) =
    let text = slash buf ++ display (s.nodes idx) in
    let rest = emit_path s buflen (buf ++ text) chain in
    if (length text == 0) || leb (buflen - length buf) (length text) then [] else rest

-- `sysfs_iokit_path`
unfoldable pub path_of : Snapshot → ℕ → ℕ → Bytes
path_of s regid buflen =
    if regid == 0 then [] else emit_path s buflen [] (chain_up s path_depth (find s regid) [])

abbrev pub module_list : Option (List ModuleInfo) → List ModuleInfo
module_list none = []
module_list (some ms) = ms

-- The loops of `sysfs_iokit_module_named` and `sysfs_iokit_module_by_tag`
unfoldable pub first_named : Bytes → List ModuleInfo → Option ModuleInfo
first_named name [] = none
first_named name (m ∷ ms) = if str_eq name m.name then some m else first_named name ms

unfoldable pub first_tagged : ℕ → List ModuleInfo → Option ModuleInfo
first_tagged tag [] = none
first_tagged tag (m ∷ ms) = if m.load_tag == tag then some m else first_tagged tag ms

-- `sysfs_iokit_entry_exists`
unfoldable pub entry_exists : Snapshot → ℕ → Bool
entry_exists s regid =
    if regid == 0 then true else elim (find s regid) [ none ↦ false | some _ ↦ true ]

-- The queries, as the file system calls them: a child's and a member's name is copied to a buffer of
-- 256 bytes.
unfoldable pub iokit : Snapshot → Iokit
iokit s = record {
  child_at = λ regid index. child_at_index s (find s regid) index 256;
  child_named = λ regid name. child_named_index s (find s regid) name;
  parent_of = λ regid. if regid == 0 then some 0 else parent_at s (find s regid);
  name_of = λ regid buflen. name_at s (find s regid) buflen;
  class_child_at =
      λ class whole index. scan_class_at s class whole index 256 (s.node_count - 1) 1 0;
  class_child_named = λ class whole name. scan_class_named s class whole name (s.node_count - 1) 1;
  path_of = λ regid buflen. path_of s regid buflen;
  module_at = λ index. get_elem? (module_list s.modules) index;
  module_named = λ name. first_named name (module_list s.modules);
  module_by_tag = λ tag. first_tagged tag (module_list s.modules);
}
