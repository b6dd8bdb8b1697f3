-- ===== src/Iokit.antt =====
-- include/fs/sysfs/sysfs_iokit.h: what the file system asks of the registry. The answers are those of
-- one published snapshot; a query that returns 0 is none here. The vnode operations take this record
-- as a parameter.
use m_sl_sys_fs.Base.{ℕ, Bool, Option, Bytes}

-- `struct sysfs_module_info`
pub record ModuleInfo : Type 0 where
  pub load_tag : ℕ
  pub load_size : ℕ
  pub refcnt : ℕ
  pub name : Bytes
  pub version : Bytes

-- The functions of the header, without their `sysfs_iokit_` prefix. A class is given by its number
-- and by the flag SYSFS_CLASSF_WHOLE.
pub record Iokit : Type 0 where
  pub child_at : ℕ → ℕ → Option (Bytes × ℕ)
  pub child_named : ℕ → Bytes → Option ℕ
  pub parent_of : ℕ → Option ℕ
  pub name_of : ℕ → ℕ → Bytes
  pub class_child_at : ℕ → Bool → ℕ → Option (Bytes × ℕ)
  pub class_child_named : ℕ → Bool → Bytes → Option ℕ
  pub path_of : ℕ → ℕ → Bytes
  pub module_at : ℕ → Option ModuleInfo
  pub module_named : Bytes → Option ModuleInfo
  pub module_by_tag : ℕ → Option ModuleInfo
