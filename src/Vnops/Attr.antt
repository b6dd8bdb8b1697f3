-- ===== src/Vnops/Attr.antt =====
-- kext/sysfs_vnops.c: attributes, file content and symbolic links of nodes, and their vnodes.
pub mod Sizes
pub mod Depth
pub mod Links
use m_sl_sys_fs.Base.{
  ℕ, zero, suc, ◌+◌, ◌-◌, ◌≤◌, Bool, true, false, not, ◌&&◌, Option, none, some, List, [], ◌∷◌,
  ◌++◌, Bytes, codes, ◌==◌, leb, ltb, if◌then◌else◌, take, length, to_decimal,
}
use m_sl_sys_fs.Types.{
  SfsType, sfs_root, sfs_dir, sfs_file, sfs_dirthis, sfs_dirparent, sfs_link, sfs_device, sfs_attr,
  sfs_subsystem, sfs_module, Snode, Sfsnode, SfsId, SizeFn, ReadFn, Vtype, vdir, vreg, vlnk,
  is_directory_type, is_root, einval, eisdir, enoent, enotsup,
}
use m_sl_sys_fs.Uio.{Uiomove, UioOf}
use m_sl_sys_fs.Subr.{allocvp, get_node_fileid, copy_data}
use m_sl_sys_fs.Structure.{Structure, deref, child_nodes}
use m_sl_sys_fs.Iokit.{Iokit, ModuleInfo}
use m_sl_sys_fs.System.{Sysctl, read_data}
use m_sl_sys_fs.Vnops.Readdir.{is_dir_objid}
use m_sl_sys_fs.Vnops.Readdir.Ops.{is_sfs_device, is_sfs_module, is_sfs_link}

-- `SYSFS_ATTR_VALUE_MAX` and `SYSFS_LINK_TARGET_MAX`
abbrev pub attr_value_max : ℕ
attr_value_max = 256

abbrev pub link_target_max : ℕ
link_target_max = 1024

-- The fields of `struct vnode_attr` that depend on the node. The times are the clock's, and the
-- owner is root.
pub record VnodeAttr : Type 0 where
  pub va_mode : ℕ
  pub va_type : Vtype
  pub va_fsid : ℕ
  pub va_fileid : ℕ
  pub va_data_size : ℕ

-- READ_EXECUTE_ALL, READ_ALL and ALL_ACCESS_ALL: 0555, 0444 and 0777
abbrev pub read_execute_all : ℕ
read_execute_all = 365

abbrev pub read_all_mode : ℕ
read_all_mode = 292

abbrev pub all_access_all : ℕ
all_access_all = 511

-- The sum that `sysfs_get_node_size_attr` makes over the children of a directory.
unfoldable pub children_size : SfsId → List Snode → ℕ
children_size id [] = 0
children_size id (x ∷ xs) = elim (x.getsize_fn) [ none ↦ 1 | some f ↦ f id ] + children_size id xs

abbrev pub own_size : SfsId → Snode → ℕ
own_size id x = elim (x.getsize_fn) [ none ↦ x.node_size | some f ↦ f id ]

abbrev parent_of : Structure → Snode → Snode
parent_of st x = elim (x.parent) [ none ↦ x | some p ↦ deref st p ]

-- The structure node whose children count: that of "." and ".." is further up.
abbrev pub sized_node : Structure → SfsType → Snode → Snode
sized_node st sfs_dirthis x = parent_of st x
sized_node st sfs_dirparent x =
    if is_root (parent_of st x).node_type then parent_of st x else parent_of st (parent_of st x)
sized_node st _ x = x

-- `sysfs_get_node_size_attr`
unfoldable pub get_node_size_attr : Structure → Sfsnode → ℕ
get_node_size_attr st snp =
    let snode = deref st snp.structure_node in
    let sized = sized_node st snode.node_type snode in
    if is_directory_type snode.node_type
    then children_size snp.node_id (child_nodes st sized.children)
    else own_size snp.node_id sized

-- The steps from a structure node up to the root: parents are older, so that the address of the node
-- bounds them.
unfoldable pub climb : Structure → ℕ → Option ℕ → ℕ
climb st fuel none = 0
climb st zero (some p) = 0
climb st (suc fuel) (some p) =
    let above = climb st fuel (deref st p).parent in
    if is_root (deref st p).node_type then 0 else suc above

abbrev pub dot_dots : ℕ → Bytes
dot_dots zero = []
dot_dots (suc n) = codes "../" ++ dot_dots n

-- The target's text, before it is cut: the climb out of the class directory, and the path.
abbrev pub target_text : ℕ → Bytes → Bytes
target_text depth path = dot_dots depth ++ (codes "devices/" ++ path)

abbrev pub bounded_target : Bytes → ℕ → Bytes
bounded_target [] depth = []
bounded_target (c ∷ path) depth =
    if ltb (length (target_text depth (c ∷ path))) link_target_max
    then target_text depth (c ∷ path)
    else []

-- the value of a /sys/module attribute, before it is cut to the buffer
unfoldable pub module_text : Option ModuleInfo → ℕ → Bytes
module_text none objid = []
module_text (some mi) objid =
    if objid == 1
    then to_decimal mi.refcnt ++ codes "\n"
    else if objid == 2
    then to_decimal mi.load_size ++ codes "\n"
    else if objid == 3
    then codes "live\n"
    else if objid == 4
    then mi.version ++ codes "\n"
    else []

abbrev pub capped : ℕ → ℕ
capped n = if ltb (attr_value_max - 1) n then attr_value_max - 1 else n

abbrev pub dir_or : Bool → ℕ → ℕ × Vtype × ℕ
dir_or isdir size = if isdir then (read_execute_all, vdir, 0) else (read_all_mode, vreg, size)

abbrev pub by_handler : Sysctl → Uiomove ℕ → Option ReadFn → ℕ → UioOf ℕ → ℕ × UioOf ℕ
by_handler sys uiomove none cpu uio = (einval, uio)
by_handler sys uiomove (some f) cpu uio = read_data sys uiomove f cpu uio

module _ (io : Iokit) (st : Structure) where
  -- `sysfs_link_target`; no bytes stand for the result 0.
  unfoldable pub link_target : Sfsnode → Bytes
  link_target snp =
      bounded_target (io.path_of snp.node_id.regid link_target_max)
        (climb st snp.structure_node (deref st snp.structure_node).parent)

  -- the value of a /sys/devices attribute: the entry's name and a newline
  unfoldable pub device_value : Sfsnode → Bytes
  device_value snp = io.name_of snp.node_id.regid (attr_value_max - 1) ++ codes "\n"

  -- `sysfs_device_read_attr`
  unfoldable pub device_read_attr : Uiomove ℕ → Sfsnode → ℕ → UioOf ℕ → ℕ × UioOf ℕ
  device_read_attr uiomove snp objid uio =
      if objid == 1
      then copy_data uiomove (device_value snp) (length (device_value snp)) uio
      else (einval, uio)

  -- `sysfs_device_attr_size`
  unfoldable pub device_attr_size : Sfsnode → ℕ
  device_attr_size snp =
      if snp.node_id.objectid == 1
      then length (io.name_of snp.node_id.regid (attr_value_max - 1)) + 1
      else 0

  -- `sysfs_module_format_attr`: the length of the text, and the bytes that fit into the buffer
  unfoldable pub module_format_attr : Sfsnode → ℕ → ℕ × Bytes
  module_format_attr snp objid =
      let text = module_text (io.module_by_tag snp.node_id.regid) objid in
      (length text, take (attr_value_max - 1) text)

  -- `sysfs_module_read_attr`
  unfoldable pub module_read_attr : Uiomove ℕ → Sfsnode → ℕ → UioOf ℕ → ℕ × UioOf ℕ
  module_read_attr uiomove snp objid uio =
      let (n, bytes) = module_format_attr snp objid in
      if n == 0
      then (if ltb 4 objid then einval else 0, uio)
      else copy_data uiomove bytes (capped n) uio

  -- `sysfs_module_attr_size`
  unfoldable pub module_attr_size : Sfsnode → ℕ
  module_attr_size snp =
      let (n, bytes) = module_format_attr snp snp.node_id.objectid in if n == 0 then 0 else capped n

  -- mode, type and size
  unfoldable pub attr_of : Sfsnode → ℕ × Vtype × ℕ
  attr_of snp =
      let t = (deref st snp.structure_node).node_type in
      let isdir = is_dir_objid snp.node_id.objectid in
      if is_sfs_device t
      then dir_or isdir (device_attr_size snp)
      else if is_sfs_module t
      then dir_or isdir (module_attr_size snp)
      else if is_sfs_link t
      then (all_access_all, vlnk, length (link_target snp))
      else (
        (if is_directory_type t then read_execute_all else read_all_mode),
        allocvp t,
        get_node_size_attr st snp,
      )

  -- `sysfs_vnop_getattr`
  unfoldable pub vnop_getattr : Sfsnode → ℕ → VnodeAttr
  vnop_getattr snp pmnt_id =
      let (mode, vtype, size) = attr_of snp in
      record {
        va_mode = mode;
        va_type = vtype;
        va_fsid = pmnt_id;
        va_fileid = get_node_fileid snp.node_id (deref st snp.structure_node).base_node_id;
        va_data_size = size;
      }

  -- `sysfs_vnop_readlink`
  unfoldable pub vnop_readlink : Uiomove ℕ → Sfsnode → UioOf ℕ → ℕ × UioOf ℕ
  vnop_readlink uiomove snp uio =
      let target = link_target snp in
      if is_sfs_link (deref st snp.structure_node).node_type
      then (if length target == 0 then (enoent, uio) else uiomove target (length target) uio)
      else (einval, uio)

  -- `sysfs_vnop_read`
  unfoldable pub vnop_read : Sysctl → Uiomove ℕ → Sfsnode → UioOf ℕ → ℕ × UioOf ℕ
  vnop_read sys uiomove snp uio =
      let snode = deref st snp.structure_node in
      let objid = snp.node_id.objectid in
      if is_sfs_device snode.node_type
      then (if is_dir_objid objid then (eisdir, uio) else device_read_attr uiomove snp objid uio)
      else if is_sfs_module snode.node_type
      then (if is_dir_objid objid then (eisdir, uio) else module_read_attr uiomove snp objid uio)
      else if is_directory_type snode.node_type
      then (eisdir, uio)
      else by_handler sys uiomove snode.read_data_fn snode.instance_no uio

  -- the type of the vnode that `sysfs_create_vnode` asks for
  unfoldable pub create_vnode_type : Sfsnode → Vtype
  create_vnode_type snp =
      let t = (deref st snp.structure_node).node_type in
      let isdir = is_dir_objid snp.node_id.objectid in
      if is_sfs_device t
      then (if isdir then vdir else vreg)
      else if is_sfs_module t
      then (if isdir then vdir else vreg)
      else allocvp t

-- `sysfs_vnop_pathconf`; the names are _PC_LINK_MAX, _PC_NAME_MAX and so on.
pub data PathconfName : Type 0 where
  pc_link_max pc_name_max pc_path_max pc_chown_restricted pc_no_trunc : PathconfName
  pc_case_sensitive pc_case_preserving pc_other : PathconfName

unfoldable pub vnop_pathconf : PathconfName → Option ℕ
vnop_pathconf pc_link_max = some 1
vnop_pathconf pc_name_max = some 255
vnop_pathconf pc_path_max = some 1024
vnop_pathconf pc_chown_restricted = some 200112
vnop_pathconf pc_no_trunc = some 0
vnop_pathconf pc_case_sensitive = some 1
vnop_pathconf pc_case_preserving = some 1
vnop_pathconf pc_other = none

-- The operations that do nothing, and the fallback of the operations table.
unfoldable pub vnop_open : ℕ
vnop_open = 0

unfoldable pub vnop_access : ℕ
vnop_access = 0

unfoldable pub vnop_close : ℕ
vnop_close = 0

unfoldable pub vnop_inactive : ℕ
vnop_inactive = 0

unfoldable pub vnop_getattrlistbulk : ℕ
vnop_getattrlistbulk = enotsup

unfoldable pub vnop_default : ℕ
vnop_default = enotsup
