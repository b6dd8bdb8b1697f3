-- ===== src/Snapshot.antt =====
-- kext/sysfs_iokit.cpp: the snapshot of the IORegistry, and what is read of a registry entry.
pub mod Hash
pub mod Walk
pub mod Children
pub mod Build
pub mod Query
pub mod Registry
pub mod Refresh
pub mod Names
use m_sl_sys_fs.Base.{ℕ, Bool, Option, List, Bytes}
use m_sl_sys_fs.Iokit.{ModuleInfo}

-- `struct sysfs_snap_node`; `whole` is SYSFS_CLASSF_WHOLE, the one class flag.
pub record SnapNode : Type 0 where
  pub regid : ℕ
  pub parent_regid : ℕ
  pub first_child : ℕ
  pub num_children : ℕ
  pub dup_ordinal : ℕ
  pub class_id : ℕ
  pub whole : Bool
  pub bsdname : Bytes
  pub name : Bytes

-- `struct sysfs_hash_slot`: none is SYSFS_IDX_NONE, which no index reaches; else the regid and the
-- index.
abbrev pub Slots : Type 0
Slots = ℕ → Option (ℕ × ℕ)

-- `struct sysfs_snapshot`. The arrays are functions of the index; `modules` is none where the code
-- has a null pointer, and else has `module_count` elements.
pub record Snapshot : Type 0 where
  pub modules : Option (List ModuleInfo)
  pub module_cap : ℕ
  pub nodes : ℕ → SnapNode
  pub child_idx : ℕ → ℕ
  pub hash : Slots
  pub node_count : ℕ
  pub node_cap : ℕ
  pub child_cap : ℕ
  pub hash_size : ℕ
  pub uptime : ℕ
  pub bytes : ℕ
