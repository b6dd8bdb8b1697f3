-- ===== src/Types.antt =====
-- The node model of include/fs/sysfs/sysfs.h: node types, flags, identifiers and error numbers.
-- The constructors keep the names of the C enumerators.
use m_sl_sys_fs.Base.{ℕ, ◌≡◌, Bool, true, false, ◌&&◌, Bytes, ◌==◌, ◌↔◌, arith, Option, List}

-- `sfstype`
pub data SfsType : Type 0 where
  sfs_root sfs_dir sfs_file sfs_dirthis sfs_dirparent sfs_link : SfsType
  sfs_device sfs_attr sfs_subsystem sfs_module : SfsType

-- `enum vtype`, as far as the file system uses it
pub data Vtype : Type 0 where
  vdir vreg vlnk : Vtype

-- Error numbers of sys/errno.h; success is 0.
abbrev pub enoent : ℕ
enoent = 2

abbrev pub enomem : ℕ
enomem = 12

abbrev pub efault : ℕ
efault = 14

abbrev pub enotdir : ℕ
enotdir = 20

abbrev pub eisdir : ℕ
eisdir = 21

abbrev pub einval : ℕ
einval = 22

abbrev pub enotsup : ℕ
enotsup = 45

-- `ssn_flags`: one Boolean for each SSN_FLAG_* bit
pub record SsnFlags : Type 0 where
  pub dynamic : Bool
  pub whole_only : Bool
  pub modules : Bool

abbrev pub no_flags : SsnFlags
no_flags = record { dynamic = false; whole_only = false; modules = false }

abbrev pub flag_dynamic : SsnFlags
flag_dynamic = record { dynamic = true; whole_only = false; modules = false }

abbrev pub flag_modules : SsnFlags
flag_modules = record { dynamic = false; whole_only = false; modules = true }

abbrev pub flag_whole : SsnFlags
flag_whole = record { dynamic = true; whole_only = true; modules = false }

-- The type of the root of the layout
abbrev pub is_root : SfsType → Bool
is_root sfs_root = true
is_root _ = false

-- `struct sfsid`
pub record SfsId : Type 0 where
  pub regid : ℕ  -- uint64_t
  pub objectid : ℕ  -- uint64_t
  pub base_id : ℕ  -- uint16_t

abbrev pub no_regid : ℕ
no_regid = 0

abbrev pub no_objectid : ℕ
no_objectid = 0

abbrev pub root_base_id : ℕ
root_base_id = 1

-- `SYSFS_ROOT_NODE_ID`
abbrev pub root_node_id : SfsId
root_node_id = record { regid = no_regid; objectid = no_objectid; base_id = root_base_id }

-- The four comparisons by which `sysfsnode_find` matches an identifier.
abbrev pub id_eq : SfsId → SfsId → Bool
id_eq a b = (a.regid == b.regid) && ((a.objectid == b.objectid) && (a.base_id == b.base_id))

pub id_eq_iff : (a b : SfsId) → (id_eq a b ≡ true) ↔ (a ≡ b)
id_eq_iff a b = ground arith

-- The read handlers that structure nodes point to, by the names of the C functions.
pub data ReadFn : Type 0 where
  do_zero_count do_cpulist do_cpumap do_node_meminfo do_node_distance do_node_numastat : ReadFn
  do_node_list do_cpu_kernel_max do_cpu_online do_cpu_package_id do_cpu_core_id : ReadFn
  do_cpu_thread_siblings do_cpu_core_siblings : ReadFn

-- `sysfs_node_size_fn`, a function of the node's identity (the credentials are never read)
abbrev pub SizeFn : Type 0
SizeFn = SfsId → ℕ

-- `struct sfssnode`; pointers are indices of the structure's heap, and the child queue is a list of
-- them in queue order.
pub record Snode : Type 0 where
  pub node_type : SfsType
  pub name : Bytes
  pub base_node_id : ℕ  -- uint16_t
  pub flags : SsnFlags
  pub instance_no : ℕ  -- `ssn_instance`, uint32_t
  pub parent : Option ℕ
  pub children : List ℕ
  pub node_size : ℕ
  pub getsize_fn : Option SizeFn
  pub read_data_fn : Option ReadFn

-- `struct sfsnode`, with the address that stands for its pointer
pub record Sfsnode : Type 0 where
  pub addr : ℕ
  pub vnode : Option ℕ
  pub attaching_vnode : Bool
  pub thread_waiting_attach : Bool
  pub mnt_id : ℕ
  pub node_id : SfsId
  pub structure_node : ℕ  -- a pointer to the structure node

-- `sysfs_is_directory_type`
unfoldable pub is_directory_type : SfsType → Bool
is_directory_type sfs_root = true
is_directory_type sfs_dir = true
is_directory_type sfs_dirthis = true
is_directory_type sfs_dirparent = true
is_directory_type sfs_device = true
is_directory_type sfs_subsystem = true
is_directory_type _ = false
