-- ===== src/Vnops/Readdir/Ops.antt =====
-- `sysfs_vnop_readdir` and the three readdirs that it hands over to.
use m_sl_sys_fs.Base.{
  ℕ, ◌+◌, Bool, true, false, ◌||◌, Option, none, some, List, [], ◌∷◌, Bytes, codes, ◌==◌,
  if◌then◌else◌, map,
}
use m_sl_sys_fs.Types.{
  SfsType, sfs_root, sfs_dir, sfs_file, sfs_dirthis, sfs_dirparent, sfs_link, sfs_device, sfs_attr,
  sfs_subsystem, sfs_module, SfsId, Snode, Sfsnode, no_regid, no_objectid, is_directory_type, Vtype,
  vdir, vreg, vlnk,
}
use m_sl_sys_fs.Uio.{UioOf, Uiomove}
use m_sl_sys_fs.Subr.{get_fileid, get_node_fileid}
use m_sl_sys_fs.Structure.{Structure, deref, child_nodes}
use m_sl_sys_fs.Node.{get_parent_node_id}
use m_sl_sys_fs.Iokit.{Iokit, ModuleInfo}
use m_sl_sys_fs.Vnops.Dirent.{Entry, Dirent, dt_dir, dt_reg, dt_lnk}
use m_sl_sys_fs.Vnops.Readdir.{
  Listing, is_class_dir, is_module_dir, dev_attrs, mod_attrs, start_cursor, finish, emit, emit_dots,
  emit_queries,
}

abbrev pub entry_for : ℕ → SfsId → Bytes → Entry
entry_for dtype id name = record {
  dtype = dtype;
  ino = get_fileid id.regid id.objectid id.base_id;
  name = name;
}

abbrev child_id : SfsId → Snode → SfsId
child_id dir_id snode = record {
  regid = dir_id.regid;
  objectid = dir_id.objectid;
  base_id = snode.base_node_id;
}

-- The `switch` of `sysfs_vnop_readdir`: what is listed for a structure child. A child of type
-- SFSroot would be an error of the structure, and is skipped.
unfoldable pub static_entry : Structure → Sfsnode → Snode → SfsType → Option Entry
static_entry st dir snode sfs_root = none
static_entry st dir snode sfs_dir = some (entry_for dt_dir (child_id dir.node_id snode) snode.name)
static_entry st dir snode sfs_device =
    some (entry_for dt_dir (child_id dir.node_id snode) snode.name)
static_entry st dir snode sfs_subsystem =
    some (entry_for dt_dir (child_id dir.node_id snode) snode.name)
static_entry st dir snode sfs_module =
    some (entry_for dt_dir (child_id dir.node_id snode) snode.name)
static_entry st dir snode sfs_file = some (entry_for dt_reg (child_id dir.node_id snode) snode.name)
static_entry st dir snode sfs_attr = some (entry_for dt_reg (child_id dir.node_id snode) snode.name)
static_entry st dir snode sfs_link = some (entry_for dt_lnk (child_id dir.node_id snode) snode.name)
static_entry st dir snode sfs_dirthis = some (entry_for dt_dir dir.node_id snode.name)
static_entry st dir snode sfs_dirparent =
    some (entry_for dt_dir (get_parent_node_id st dir) snode.name)

-- The entries of a directory of the static tree, in the order of its children.
unfoldable pub static_entries : Structure → Sfsnode → List Snode → List Entry
static_entries st dir [] = []
static_entries st dir (x ∷ xs) = elim (static_entry st dir x x.node_type) [
  | none ↦ static_entries st dir xs
  | some e ↦ e ∷ static_entries st dir xs
]

abbrev pub is_nil : List Entry → Bool
is_nil [] = true
is_nil (e ∷ es) = false

-- The "." and ".." of the dynamic directories: both carry the directory's own file id.
abbrev pub dot_entries : ℕ → List Entry
dot_entries self =
    record { dtype = dt_dir; ino = self; name = codes "." }
    ∷ record { dtype = dt_dir; ino = self; name = codes ".." }
    ∷ []

abbrev pub attr_entries : ℕ → ℕ → List (Bytes × ℕ) → List Entry
attr_entries regid base attrs =
    map (λ a. record { dtype = dt_reg; ino = get_fileid regid a.1 base; name = a.0 }) attrs

-- The static children of /sys/devices, as `sysfs_devices_readdir` lists them.
abbrev pub device_static_entries : List Snode → List Entry
device_static_entries xs =
    map
      (λ x. record {
        dtype = if is_directory_type x.node_type then dt_dir else dt_reg;
        ino = get_fileid no_regid no_objectid x.base_node_id;
        name = x.name;
      })
      xs

-- The first child of type SFSmodule, or SFSlink: the marker that members are presented through.
abbrev pub is_sfs_module : SfsType → Bool
is_sfs_module sfs_module = true
is_sfs_module _ = false

abbrev pub is_sfs_link : SfsType → Bool
is_sfs_link sfs_link = true
is_sfs_link _ = false

abbrev pub is_sfs_device : SfsType → Bool
is_sfs_device sfs_device = true
is_sfs_device _ = false

unfoldable pub first_of_type : (SfsType → Bool) → List Snode → Option Snode
first_of_type test [] = none
first_of_type test (x ∷ xs) = if test x.node_type then some x else first_of_type test xs

abbrev pub with_type : ℕ → (ℕ → ℕ) → Option (Bytes × ℕ) → Option Entry
with_type dtype ino none = none
with_type dtype ino (some (name, id)) = some (record { dtype = dtype; ino = ino id; name = name })

abbrev pub module_entry : ℕ → Option ModuleInfo → Option Entry
module_entry base none = none
module_entry base (some mi) =
    some (record { dtype = dt_dir; ino = get_fileid mi.load_tag 0 base; name = mi.name })

-- The fuel for a loop over queries: every round takes room or comes nearer to the offset.
abbrev pub query_fuel : UioOf Dirent → ℕ
query_fuel uio = uio.offset + uio.resid + 1

module _ (uiomove : Uiomove Dirent) (io : Iokit) (st : Structure) where
  -- `sysfs_devices_readdir`
  unfoldable pub devices_readdir : Sfsnode → UioOf Dirent → Listing
  devices_readdir dir uio =
      let snode = deref st dir.structure_node in
      let regid = dir.node_id.regid in
      let base = snode.base_node_id in
      let c1 =
        emit_dots uiomove uio.offset (dot_entries (get_node_fileid dir.node_id base))
          (start_cursor uio) in
      let attrs : List Entry =
        if regid == no_regid then [] else attr_entries regid base dev_attrs in
      let statics : List Entry =
        if regid == no_regid then device_static_entries (child_nodes st snode.children) else [] in
      let c2 = (emit uiomove uio.offset attrs c1).0 in
      let c3 = (emit uiomove uio.offset statics c2).0 in
      let c4 =
        emit_queries uiomove uio.offset (query_fuel uio)
          (λ i. with_type dt_dir (λ id. get_fileid id 0 base) (io.child_at regid i)) 0 c3 in
      if c1.halted
      then finish c1 false
      else if c2.halted
      then finish c2 false
      else if c3.halted
      then finish c3 false
      else finish c4.0 c4.1

  -- `sysfs_class_readdir`
  unfoldable pub class_readdir : Sfsnode → UioOf Dirent → Listing
  class_readdir dir uio =
      let snode = deref st dir.structure_node in
      let base = snode.base_node_id in
      let c1 =
        emit_dots uiomove uio.offset (dot_entries (get_node_fileid dir.node_id base))
          (start_cursor uio) in
      let c2 =
        emit_queries uiomove uio.offset (query_fuel uio)
          (λ i.
            with_type dt_lnk (λ id. get_fileid id no_objectid base)
              (io.class_child_at snode.instance_no snode.flags.whole_only i))
          0 c1 in
      if c1.halted then finish c1 false else finish c2.0 c2.1

  -- `sysfs_module_readdir`, for the container and for the directory of one module
  unfoldable pub module_readdir : Sfsnode → UioOf Dirent → Listing
  module_readdir dir uio =
      let snode = deref st dir.structure_node in
      let base = snode.base_node_id in
      let c1 =
        emit_dots uiomove uio.offset (dot_entries (get_node_fileid dir.node_id base))
          (start_cursor uio) in
      let container : Listing = elim (first_of_type is_sfs_module (child_nodes st snode.children)) [
        | none ↦ finish c1 true
        | some mod_node ↦
            let c2 =
              emit_queries uiomove uio.offset (query_fuel uio)
                (λ i. module_entry mod_node.base_node_id (io.module_at i)) 0 c1 in
            finish c2.0 c2.1
      ] in
      let c3 = emit uiomove uio.offset (attr_entries dir.node_id.regid base mod_attrs) c1 in
      if c1.halted
      then finish c1 false
      else if is_module_dir snode
      then container
      else finish c3.0 (is_nil c3.1)

  -- The static part of `sysfs_vnop_readdir`
  unfoldable pub static_readdir : Sfsnode → UioOf Dirent → Listing
  static_readdir dir uio =
      let snode = deref st dir.structure_node in
      let r =
        emit uiomove uio.offset (static_entries st dir (child_nodes st snode.children))
          (start_cursor uio) in
      finish r.0 (is_nil r.1)

  -- `sysfs_vnop_readdir` behind its check of the vnode: the directory's structure node says which
  -- listing is asked for.
  unfoldable pub dir_readdir : Sfsnode → UioOf Dirent → Listing
  dir_readdir dir uio =
      let snode = deref st dir.structure_node in
      if is_sfs_device snode.node_type
      then devices_readdir dir uio
      else if is_module_dir snode || is_sfs_module snode.node_type
      then module_readdir dir uio
      else if is_class_dir snode
      then class_readdir dir uio
      else static_readdir dir uio

  -- `sysfs_vnop_readdir`, on a vnode of type `vtype`; none stands for ENOTDIR.
  unfoldable pub vnop_readdir : Vtype → Sfsnode → UioOf Dirent → Option Listing
  vnop_readdir vreg dir uio = none
  vnop_readdir vlnk dir uio = none
  vnop_readdir vdir dir uio = some (dir_readdir dir uio)
