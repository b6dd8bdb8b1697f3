-- ===== src/Vfsops/Names.antt =====
-- Unmounting one of several instances (kext/sysfs_vfsops.c).
use m_sl_sys_fs.Base.{
  ℕ, ◌+◌, ◌-◌, ◌≡◌, refl, ◌∙◌, sym, true, false, Bool-cases, inl, inr, Option, none, some, arith,
  ap, subst, ◌==◌, ==_iff,
}
use m_sl_sys_fs.Types.{root_node_id}
use m_sl_sys_fs.Structure.{Structure, structure_root_node}
use m_sl_sys_fs.Structure.Free.{structure_free, free_from}
use m_sl_sys_fs.Vfsops.{
  MountArgs, Kext, Mount, mount_of, mounted_name, populate_statfs_info, mount, new_mount, unmount,
  vfs_root, drop_mount, made_mount,
}
use m_sl_sys_fs.Vfsops.Attr.{unmount-other, new_mount-other}

free_from-root : (r : Option ℕ) (s : Structure) → s.root_node ≡ r → (free_from r s).root_node ≡ none
unfolding free_from
free_from-root none s e = e
free_from-root (some root) s e = refl

structure_free-root : (s : Structure) → (structure_free s).root_node ≡ none
unfolding structure_free
structure_free-root s = free_from-root s.root_node s refl

-- The unmount of one instance frees the layout tree under all others: another mount is still mounted,
-- but sysfs_root asks for its root node with a NULL structure node from then on.
pub unmount-vfs_root :
    (mp other : ℕ) (k : Kext) (m : Mount)
    → mount_of k.mounts other ≡ some m
    → (mp == other) ≡ false
    → (mount_of (unmount mp k).mounts other ≡ some m)
      × (vfs_root m (unmount mp k)
          ≡ record { mount_id = m.pmnt_id; id = root_node_id; snode = none })
unfolding vfs_root
unmount-vfs_root mp other k m e ne = (
  unmount-other mp other k ne ∙ e,
  unfold unmount structure_root_node in
      ap (λ r. record { mount_id = m.pmnt_id; id = root_node_id; snode = r })
        (structure_free-root (drop_mount (mount_of k.mounts mp) mp k).structure),
)

-- What a mount that finds no sfsmount adds
mount-new :
    (ncpu mp : ℕ) (args : MountArgs) (k : Kext)
    → mount_of k.mounts mp ≡ none
    → (mount ncpu true mp args k).1 ≡ new_mount ncpu mp args k
unfolding mount
mount-new ncpu mp args k e = rw (e, mount) refl

-- A new mount has the name that is made from the number of instances with it.
new_mount-name :
    (ncpu mp : ℕ) (args : MountArgs) (k : Kext)
    → (x : Mount) × (mount_of (new_mount ncpu mp args k).mounts mp ≡ some x)
      × (x.statfs.f_mntfromname ≡ mounted_name (k.mounted_instance_count + 1))
unfolding new_mount mount_of populate_statfs_info
new_mount-name ncpu mp args k =
    let e : (mp == mp) ≡ true = ground arith in (made_mount mp args k, rw e refl, refl)

drop_mount-count :
    (k : Kext) (o : Option Mount) (mp : ℕ) (m : Mount)
    → o ≡ some m
    → (drop_mount o mp k).mounted_instance_count ≡ k.mounted_instance_count - 1
drop_mount-count k none mp m e = absurd (cc e)
drop_mount-count k (some x) mp m e = refl

unmount-count :
    (k : Kext) (mp : ℕ) (m : Mount)
    → mount_of k.mounts mp ≡ some m
    → (unmount mp k).mounted_instance_count ≡ k.mounted_instance_count - 1
unfolding unmount
unmount-count k mp m e = drop_mount-count k (mount_of k.mounts mp) mp m e

new_mount-count :
    (ncpu mp : ℕ) (args : MountArgs) (k : Kext)
    → (new_mount ncpu mp args k).mounted_instance_count ≡ k.mounted_instance_count + 1
unfolding new_mount
new_mount-count ncpu mp args k = refl

-- Where `new` is mounted while `other` is, `other` is unmounted, and `third`, where nothing is then
-- mounted, is mounted next, the mounts at `new` and `third` are both there and have the same
-- mount-from name: names are made from the number of instances, which has fallen in between.
pub unmount-next_name :
    (ncpu new other third : ℕ) (args args' : MountArgs) (k : Kext) (m : Mount)
    → mount_of k.mounts new ≡ none
    → mount_of k.mounts other ≡ some m
    → (new == other) ≡ false
    → mount_of (unmount other (mount ncpu true new args k).1).mounts third ≡ none
    → let k' = (mount ncpu true third args' (unmount other (mount ncpu true new args k).1)).1 in
      (x : Mount) × (y : Mount) × (mount_of k'.mounts new ≡ some x)
      × (mount_of k'.mounts third ≡ some y)
      × ((new == third) ≡ false)
      × (x.statfs.f_mntfromname ≡ y.statfs.f_mntfromname)
unmount-next_name ncpu new other third args args' k m free e ne vacant =
    let k1 : Kext = new_mount ncpu new args k in
    let q : (mount ncpu true new args k).1 ≡ k1 = mount-new ncpu new args k free in
    let vacant' : mount_of (unmount other k1).mounts third ≡ none =
      subst (λ (z : Kext). mount_of (unmount other z).mounts third ≡ none) q vacant in
    let (x, hx, nx) = new_mount-name ncpu new args k in
    let (y, hy, ny) = new_mount-name ncpu third args' (unmount other k1) in
    let on : (other == new) ≡ false = ground (arith, ne) in
    let kept : mount_of (unmount other k1).mounts new ≡ some x =
      unmount-other other new k1 on ∙ hx in
    let apart : (third == new) ≡ false = elim (Bool-cases (third == new)) [
      | inl s ↦ absurd (
          let z : third ≡ new = (==_iff third new).0 s in
          cc (subst (λ p. mount_of (unmount other k1).mounts p ≡ none) z vacant', kept))
      | inr s ↦ s
    ] in
    let there : mount_of k1.mounts other ≡ some m = new_mount-other ncpu new args k other ne ∙ e in
    let count : (unmount other k1).mounted_instance_count + 1 ≡ k.mounted_instance_count + 1 =
      omega (arith, unmount-count k1 other m there, new_mount-count ncpu new args k) in
    rw (q, mount-new ncpu third args' (unmount other k1) vacant')
      (
        x,
        y,
        new_mount-other ncpu third args' (unmount other k1) new apart ∙ kept,
        hy,
        ground (arith, apart),
        nx ∙ ap mounted_name (sym count) ∙ sym ny,
      )
