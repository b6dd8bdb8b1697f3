-- ===== src/Vfsops.antt =====
-- kext/sysfs_vfsops.c: mount, unmount and the file system's attributes. The state is that of the
-- static variables of the kext, with the mounts that VFS knows.
pub mod Names
pub mod Count
pub mod Attr
use m_sl_sys_fs.Base.{
  ℕ, zero, suc, ◌+◌, ◌-◌, ◌%◌, ◌^◌, Bool, true, false, Option, none, some, List, [], ◌∷◌, ◌++◌,
  Bytes, codes, ◌==◌, if◌then◌else◌, to_decimal, length,
}
use m_sl_sys_fs.Types.{SfsId, root_node_id, Vtype, vdir, enomem}
use m_sl_sys_fs.Structure.{Structure, structure_root_node}
use m_sl_sys_fs.Structure.Init.{structure_init}
use m_sl_sys_fs.Structure.Free.{structure_free}

-- The sizes and counts of `populate_statfs_info`.
pub record Statfs : Type 0 where
  pub f_bsize : ℕ
  pub f_iosize : ℕ
  pub f_blocks : ℕ
  pub f_bfree : ℕ
  pub f_bavail : ℕ
  pub f_bused : ℕ
  pub f_files : ℕ
  pub f_ffree : ℕ
  pub f_mntfromname : Bytes

-- What a mount is given: the user's data, which may be absent or fail to be copied in, the time, the
-- file system id that VFS allocates, and the owner.
pub record MountArgs : Type 0 where
  pub mount_data : Option (Option ℕ)
  pub time : ℕ
  pub fsid : ℕ
  pub owner : ℕ

-- The flags that `sysfs_mount` sets
pub data MntFlag : Type 0 where
  mnt_nosuid mnt_noexec mnt_nodev mnt_noatime mnt_local mnt_dontbrowse : MntFlag

-- `struct sfsmount` with the mount it belongs to, and what VFS keeps for that: flags, id, owner and
-- `vfsstatfs`
pub record Mount : Type 0 where
  pub mp : ℕ
  pub pmnt_id : ℕ
  pub pmnt_flags : ℕ
  pub pmnt_mount_time : ℕ
  pub vfs_flags : List MntFlag
  pub f_fsid : ℕ
  pub f_owner : ℕ
  pub statfs : Statfs

-- The static variables and the mounts. `sysfs_mount_id` is an int32_t, given by its bit pattern;
-- `mounted_instance_count` is an int, and counts mounts that are held in memory.
pub record Kext : Type 0 where
  pub mounts : List Mount
  pub mount_id : ℕ
  pub mounted_instance_count : ℕ
  pub hash_ready : Bool
  pub structure : Structure
  pub stat_vfs_getattr : ℕ

-- `MPTOPMP`
unfoldable pub mount_of : List Mount → ℕ → Option Mount
mount_of [] mp = none
mount_of (m ∷ ms) mp = if m.mp == mp then some m else mount_of ms mp

abbrev pub without : List Mount → ℕ → List Mount
without [] mp = []
without (m ∷ ms) mp = if m.mp == mp then ms else m ∷ without ms mp

-- the name that `populate_statfs_info` makes; MOUNTED_DEVICE_NAME is "sys"
unfoldable pub mounted_name : ℕ → Bytes
mounted_name count = if count == 1 then codes "sys" else codes "sys" ++ to_decimal count

unfoldable pub populate_statfs_info : ℕ → Statfs
populate_statfs_info count = record {
  f_bsize = 4096;
  f_iosize = 4096;
  f_blocks = 0;
  f_bfree = 0;
  f_bavail = 0;
  f_bused = 0;
  f_files = 0;
  f_ffree = 0;
  f_mntfromname = mounted_name count;
}

-- The options, with 0 for what cannot be read
abbrev pub mount_options : Option (Option ℕ) → ℕ
mount_options none = 0
mount_options (some none) = 0
mount_options (some (some options)) = options

-- What OSAddAtomic leaves in `sysfs_mount_id`
abbrev pub next_mount_id : ℕ → ℕ
next_mount_id id = (id + 1) % 2 ^ 32

-- The sfsmount of a new mount, with its flags and its statfs
abbrev pub made_mount : ℕ → MountArgs → Kext → Mount
made_mount mp args k = record {
  mp = mp;
  pmnt_id = next_mount_id k.mount_id;
  pmnt_flags = mount_options args.mount_data;
  pmnt_mount_time = args.time;
  vfs_flags = mnt_nosuid ∷ mnt_noexec ∷ mnt_nodev ∷ mnt_noatime ∷ mnt_local ∷ mnt_dontbrowse ∷ [];
  f_fsid = args.fsid;
  f_owner = args.owner;
  statfs = populate_statfs_info (k.mounted_instance_count + 1);
}

-- The body of `sysfs_mount` for a mount that has no sfsmount yet.
unfoldable pub new_mount : ℕ → ℕ → MountArgs → Kext → Kext
new_mount ncpu mp args k = record {
  mounts = made_mount mp args k ∷ k.mounts;
  mount_id = next_mount_id k.mount_id;
  mounted_instance_count = k.mounted_instance_count + 1;
  hash_ready = true;
  structure = structure_init ncpu k.structure;
  stat_vfs_getattr = k.stat_vfs_getattr;
}

-- `sysfs_mount`; `memory` says whether OSMalloc succeeds.
unfoldable pub mount : ℕ → Bool → ℕ → MountArgs → Kext → ℕ × Kext
mount ncpu memory mp args k = elim (mount_of k.mounts mp) [
  | some m ↦ (0, k)
  | none ↦ if memory then (0, new_mount ncpu mp args k) else (enomem, k)
]

abbrev pub drop_mount : Option Mount → ℕ → Kext → Kext
drop_mount none mp k = k
drop_mount (some m) mp k = record k {
  mounts = without k.mounts mp;
  mounted_instance_count = k.mounted_instance_count - 1;
  hash_ready = if k.mounted_instance_count == 1 then false else k.hash_ready;
}

-- `sysfs_unmount`
unfoldable pub unmount : ℕ → Kext → Kext
unmount mp k =
    let k' = drop_mount (mount_of k.mounts mp) mp k in
    record k' { structure = structure_free k'.structure }

-- What `sysfs_root` asks `sysfsnode_find` for: the mount, the id, and the structure node of a node
-- that has to be made, none for NULL.
pub record RootRequest : Type 0 where
  pub mount_id : ℕ
  pub id : SfsId
  pub snode : Option ℕ

-- `sysfs_root`, up to the call of `sysfsnode_find`, which it always makes
unfoldable pub vfs_root : Mount → Kext → RootRequest
vfs_root m k = record {
  mount_id = m.pmnt_id;
  id = root_node_id;
  snode = structure_root_node k.structure;
}

-- `sysfs_sync`, and the type of the vnode that `sysfs_create_root_vnode` asks for
unfoldable pub sync : ℕ
sync = 0

unfoldable pub create_root_vnode : Vtype
create_root_vnode = vdir

-- What `populate_vfs_attr` returns
pub record VfsAttr : Type 0 where
  pub f_objcount : ℕ
  pub f_filecount : ℕ
  pub f_dircount : ℕ
  pub f_maxobjcount : ℕ
  pub f_bsize : ℕ
  pub f_iosize : ℕ
  pub f_blocks : ℕ
  pub f_bfree : ℕ
  pub f_bavail : ℕ
  pub f_bused : ℕ
  pub f_files : ℕ
  pub f_ffree : ℕ
  pub f_fsid : ℕ
  pub f_owner : ℕ
  pub f_create_time : ℕ
  pub f_modify_time : ℕ
  pub f_access_time : ℕ
  pub f_fssubtype : ℕ

unfoldable pub populate_vfs_attr : Mount → VfsAttr
populate_vfs_attr m = record {
  f_objcount = 0;
  f_filecount = 0;
  f_dircount = 0;
  f_maxobjcount = 0;
  f_bsize = 4096;
  f_iosize = 4096;
  f_blocks = 0;
  f_bfree = 0;
  f_bavail = 0;
  f_bused = 0;
  f_files = 0;
  f_ffree = 0;
  f_fsid = m.f_fsid;
  f_owner = m.f_owner;
  f_create_time = m.pmnt_mount_time;
  f_modify_time = m.pmnt_mount_time;
  f_access_time = m.pmnt_mount_time;
  f_fssubtype = 0;
}

-- `sysfs_getattr`
unfoldable pub vfs_getattr : Mount → Kext → VfsAttr × Kext
vfs_getattr m k = (populate_vfs_attr m, record k { stat_vfs_getattr = k.stat_vfs_getattr + 1 })
