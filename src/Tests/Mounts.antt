-- ===== src/Tests/Mounts.antt =====
-- Two mounts, and the unmount of the first.
use m_sl_sys_fs.Base.{arith, false, ◌==◌, ◌≡◌, refl, true, false, none, some, [], ◌∷◌}
use m_sl_sys_fs.Types.{root_node_id}
use m_sl_sys_fs.Structure.{empty}
use m_sl_sys_fs.Vfsops.{
  vfs_getattr, mnt_nosuid, mnt_noexec, mnt_nodev, mnt_noatime, mnt_local, mnt_dontbrowse, MountArgs,
  populate_statfs_info, Kext, Mount, mount, mount_of, new_mount, unmount, vfs_root,
}
use m_sl_sys_fs.Vfsops.Count.{
  loaded, mounts, unmounts, IsConsistent, Runs-IsConsistent, mount_calls,
}
use m_sl_sys_fs.Vfsops.Attr.{Agrees, vfs_getattr-stays}
use m_sl_sys_fs.Vfsops.Names.{unmount-vfs_root, unmount-next_name}

abbrev idle_kext : Kext
idle_kext = record {
  mounts = [];
  mount_id = 0;
  mounted_instance_count = 0;
  hash_ready = false;
  structure = empty;
  stat_vfs_getattr = 0;
}

abbrev first_args : MountArgs
first_args = record { mount_data = some (some 0); time = 60; fsid = 8; owner = 0 }

abbrev one_mount : Kext
one_mount = new_mount 2 100 first_args idle_kext

Runs-IsConsistent_example :
    IsConsistent
      (unmount 100 (mount 2 true 101 first_args (mount 2 true 100 first_args idle_kext).1).1)
Runs-IsConsistent_example =
    Runs-IsConsistent _
      (unmounts 100 _ (mounts 2 101 first_args true _ (mounts 2 100 first_args true _ loaded)))
      (unfold mount_calls in omega arith)

abbrev first_kext : Kext
first_kext = (mount 2 true 100 first_args idle_kext).1

abbrev first : Mount
first = record {
  mp = 100;
  pmnt_id = 1;
  pmnt_flags = 0;
  pmnt_mount_time = 60;
  vfs_flags = mnt_nosuid ∷ mnt_noexec ∷ mnt_nodev ∷ mnt_noatime ∷ mnt_local ∷ mnt_dontbrowse ∷ [];
  f_fsid = 8;
  f_owner = 0;
  statfs = populate_statfs_info 1;
}

first_found : mount_of first_kext.mounts 100 ≡ some first
unfolding mount new_mount mount_of
first_found = refl

vfs_getattr-stays_example :
    Agrees (vfs_getattr first first_kext).0 first.statfs
    × (mount_of (mount 2 true 101 first_args first_kext).1.mounts 100 ≡ some first)
    × (mount_of (unmount 101 first_kext).mounts 100 ≡ some first)
vfs_getattr-stays_example =
    vfs_getattr-stays 2 101 first_args true first_kext 100 first
      (mounts 2 100 first_args true _ loaded) refl first_found

-- Two instances are mounted, and the first is unmounted.
abbrev two_mounts : Kext
two_mounts = (mount 2 true 101 first_args first_kext).1

second_found :
    (mount_of first_kext.mounts 101 ≡ none) × (mount_of two_mounts.mounts 100 ≡ some first)
unfolding mount new_mount mount_of
second_found = (refl, refl)

abbrev second : Mount
second = record first { mp = 101; pmnt_id = 2; statfs = populate_statfs_info 2 }

second_there : mount_of two_mounts.mounts 101 ≡ some second
unfolding mount new_mount mount_of
second_there = refl

third_free : mount_of (unmount 100 two_mounts).mounts 102 ≡ none
unfolding mount new_mount mount_of unmount
third_free = refl

unmount-vfs_root_example :
    (mount_of (unmount 100 two_mounts).mounts 101 ≡ some second)
    × (vfs_root second (unmount 100 two_mounts)
        ≡ record { mount_id = second.pmnt_id; id = root_node_id; snode = none })
unmount-vfs_root_example = unmount-vfs_root 100 101 two_mounts second second_there refl

unmount-next_name_example :
    let k' = (mount 2 true 102 first_args (unmount 100 two_mounts)).1 in
    (x : Mount) × (y : Mount) × (mount_of k'.mounts 101 ≡ some x)
    × (mount_of k'.mounts 102 ≡ some y)
    × ((101 == 102) ≡ false)
    × (x.statfs.f_mntfromname ≡ y.statfs.f_mntfromname)
unmount-next_name_example =
    unmount-next_name 2 101 100 102 first_args first_args first_kext first second_found.0
      first_found refl third_free
