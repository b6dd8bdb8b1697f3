-- ===== src/Vnops/Lookup.antt =====
-- `sysfs_vnop_lookup` of kext/sysfs_vnops.c, up to its call of `sysfsnode_find`: which structure node
-- and which identifier a name leads to.
pub mod Listed
pub mod Agree
pub mod Classes
use m_sl_sys_fs.Base.{
  ℕ, zero, suc, ◌+◌, ◌≤◌, ◌≡◌, Bool, true, false, not, ◌&&◌, ◌||◌, Option, none, some, List, [],
  ◌∷◌, Bytes, codes, ◌==◌, leb, if◌then◌else◌, take, length, str_eq,
}
use m_sl_sys_fs.Types.{
  Snode, Sfsnode, SfsId, Vtype, vdir, vreg, vlnk, no_regid, no_objectid, einval, enoent,
}
use m_sl_sys_fs.Structure.{Structure, deref}
use m_sl_sys_fs.Node.{get_parent_node_id}
use m_sl_sys_fs.Iokit.{Iokit, ModuleInfo}
use m_sl_sys_fs.Vnops.Readdir.{is_class_dir, is_module_dir, is_dir_objid, dev_attrs, mod_attrs}
use m_sl_sys_fs.Vnops.Readdir.Ops.{is_sfs_device, is_sfs_module, is_sfs_link}

-- `struct componentname`: the name, and whether ISDOTDOT is set
pub record Component : Type 0 where
  pub nameptr : Bytes
  pub isdotdot : Bool

-- A structure node and an identifier, the arguments of `sysfsnode_find`.
abbrev pub Match : Type 0
Match = ℕ × SfsId

-- What a lookup comes to.
pub data Target : Type 0 where
  fails : ℕ → Target
  itself : Target
  finds : Match → Target

abbrev pub name_max : ℕ
name_max = 255

-- The walks over a child queue: the first child with a property.
unfoldable pub first_child : Structure → (Snode → Bool) → List ℕ → Option ℕ
first_child st test [] = none
first_child st test (p ∷ ps) = if test (deref st p) then some p else first_child st test ps

abbrev pub match_id : Structure → ℕ → ℕ → ℕ → Match
match_id st p regid objectid =
    (p, record { regid = regid; objectid = objectid; base_id = (deref st p).base_node_id })

abbrev pub child_match : Structure → ℕ → ℕ → Option ℕ → Option Match
child_match st regid objectid none = none
child_match st regid objectid (some p) = some (match_id st p regid objectid)

-- The loops over `sysfs_dev_attrs` and `sysfs_mod_attrs`: the object id of a name.
unfoldable pub attr_named : List (Bytes × ℕ) → Bytes → Option ℕ
attr_named [] name = none
attr_named ((n, objid) ∷ attrs) name = if str_eq name n then some objid else attr_named attrs name

abbrev pub or_else : {A : Type 0} → Option A → Option A → Option A
or_else none b = b
or_else (some a) b = some a

abbrev pub with_objid : Structure → ℕ → ℕ → Option ℕ → Option Match
with_objid st p regid none = none
with_objid st p regid (some objid) = some (match_id st p regid objid)

abbrev pub with_regid : Structure → ℕ → ℕ → Option ℕ → Option Match
with_regid st p objid none = none
with_regid st p objid (some regid) = some (match_id st p regid objid)

module _ (io : Iokit) (st : Structure) where
  -- /sys/module: a loaded module, through the first child of type SFSmodule
  unfoldable pub match_module : List ℕ → Option ModuleInfo → Option Match
  match_module children none = none
  match_module children (some mi) =
      child_match st mi.load_tag 0 (first_child st (λ x. is_sfs_module x.node_type) children)

  -- a class directory: a device, through the first child of type SFSlink
  unfoldable pub match_link : List ℕ → Option ℕ → Option Match
  match_link children none = none
  match_link children (some regid) =
      child_match st regid no_objectid (first_child st (λ x. is_sfs_link x.node_type) children)

  -- /sys/devices and below: a static child of /sys/devices itself, an attribute of a registry entry,
  -- or a child of the entry
  unfoldable pub match_device : Sfsnode → Bytes → Option Match
  match_device dir name =
      let p = dir.structure_node in
      let regid = dir.node_id.regid in
      let static_child =
        if (regid == no_regid) && is_dir_objid dir.node_id.objectid
        then child_match st no_regid no_objectid
            (first_child st (λ x. str_eq name x.name) (deref st p).children)
        else none in
      let attr =
        if regid == no_regid then none else with_objid st p regid (attr_named dev_attrs name) in
      or_else static_child (or_else attr (with_regid st p 0 (io.child_named regid name)))

  -- the chain of tests on the directory's structure node
  unfoldable pub match_child : Sfsnode → Bytes → Option Match
  match_child dir name =
      let p = dir.structure_node in
      let snode = deref st p in
      if is_module_dir snode
      then match_module snode.children (io.module_named name)
      else if is_sfs_module snode.node_type && is_dir_objid dir.node_id.objectid
      then with_objid st p dir.node_id.regid (attr_named mod_attrs name)
      else if is_class_dir snode
      then match_link snode.children
          (io.class_child_named snode.instance_no snode.flags.whole_only name)
      else if is_sfs_device snode.node_type
      then match_device dir name
      else child_match st dir.node_id.regid dir.node_id.objectid
          (first_child st (λ x. str_eq name x.name) snode.children)

  -- the structure node that ".." belongs to; the root is its own parent
  abbrev pub parent_addr : ℕ → ℕ
  parent_addr p = elim ((deref st p).parent) [ none ↦ p | some q ↦ q ]

  abbrev pub known_parent : Option ℕ → ℕ
  known_parent none = 0
  known_parent (some regid) = regid

  -- the identifier of the parent, for a name with ISDOTDOT
  unfoldable pub match_parent : Sfsnode → Match
  match_parent dir =
      let p = dir.structure_node in
      let snode = deref st p in
      if is_sfs_module snode.node_type && is_dir_objid dir.node_id.objectid
      then match_id st (parent_addr p) no_regid no_objectid
      else if is_sfs_device snode.node_type && not (dir.node_id.regid == 0)
      then match_id st p (known_parent (io.parent_of dir.node_id.regid)) 0
      else (parent_addr p, get_parent_node_id st dir)

  abbrev pub found_or_enoent : Option Match → Target
  found_or_enoent none = fails enoent
  found_or_enoent (some m) = finds m

  abbrev pub lookup_in : Sfsnode → Component → Target
  lookup_in dir cn =
      let name = take name_max cn.nameptr in
      if cn.isdotdot
      then finds (match_parent dir)
      else if str_eq cn.nameptr (codes ".")
      then itself
      else found_or_enoent (match_child dir name)

  -- `sysfs_vnop_lookup`; `dir` is what `VTOSFS` gives for the directory's vnode.
  unfoldable pub vnop_lookup : Vtype → Option Sfsnode → Component → Target
  vnop_lookup vreg dir cn = fails einval
  vnop_lookup vlnk dir cn = fails einval
  vnop_lookup vdir none cn = fails einval
  vnop_lookup vdir (some dir) cn = if length cn.nameptr == 0 then fails einval else lookup_in dir cn
