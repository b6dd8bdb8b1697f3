-- ===== src/Vfsops/Attr.antt =====
-- The attributes of a mount (kext/sysfs_vfsops.c) while others come and go.
use m_sl_sys_fs.Base.{
  ℕ, ◌≡◌, refl, ◌∙◌, ap, Bool, true, false, Option, none, some, List, [], ◌∷◌, All, ◌==◌,
  if◌then◌else◌, Bool-cases, inl, inr, subst, arith,
}
use m_sl_sys_fs.Vfsops.{
  MountArgs, Kext, Mount, Statfs, VfsAttr, mount_of, without, new_mount, mount, unmount, drop_mount,
  vfs_getattr, populate_vfs_attr, populate_statfs_info,
}
use m_sl_sys_fs.Vfsops.Count.{Runs, loaded, mounts, unmounts}

pub without-other :
    (ms : List Mount) (mp other : ℕ)
    → (mp == other) ≡ false
    → mount_of (without ms mp) other ≡ mount_of ms other
unfolding mount_of
without-other [] mp other ne = refl
without-other (m ∷ ms) mp other ne = elim (Bool-cases (m.mp == mp)) [
  | inl e ↦ let f : (m.mp == other) ≡ false = ground (arith, e, ne) in rw (e, f) refl
  | inr e ↦ rw e (ap (λ o. if m.mp == other then some m else o) (without-other ms mp other ne))
]

drop_mount-other :
    (o : Option Mount) (mp other : ℕ) (k : Kext)
    → (mp == other) ≡ false
    → mount_of (drop_mount o mp k).mounts other ≡ mount_of k.mounts other
drop_mount-other none mp other k ne = refl
drop_mount-other (some m) mp other k ne = without-other k.mounts mp other ne

pub unmount-other :
    (mp other : ℕ) (k : Kext)
    → (mp == other) ≡ false
    → mount_of (unmount mp k).mounts other ≡ mount_of k.mounts other
unfolding unmount
unmount-other mp other k ne = drop_mount-other (mount_of k.mounts mp) mp other k ne

pub new_mount-other :
    (ncpu mp : ℕ) (args : MountArgs) (k : Kext) (other : ℕ)
    → (mp == other) ≡ false
    → mount_of (new_mount ncpu mp args k).mounts other ≡ mount_of k.mounts other
unfolding new_mount mount_of
new_mount-other ncpu mp args k other ne = rw ne refl

mount-other :
    (ncpu mp : ℕ) (args : MountArgs) (memory : Bool) (k : Kext) (other : ℕ) (o : Option Mount)
    → (mp == other) ≡ false
    → mount_of k.mounts mp ≡ o
    → mount_of (mount ncpu memory mp args k).1.mounts other ≡ mount_of k.mounts other
unfolding mount
mount-other ncpu mp args memory k other (some m) ne e = rw (e, mount) refl
mount-other ncpu mp args true k other none ne e =
    rw (e, mount) (new_mount-other ncpu mp args k other ne)
mount-other ncpu mp args false k other none ne e = rw (e, mount) refl

-- The attributes of VFS_GETATTR agree with the statfs that was filled in at the mount.
pub record Agrees (a : VfsAttr) (s : Statfs) : Type 0 where
  pub bsize : a.f_bsize ≡ s.f_bsize
  pub iosize : a.f_iosize ≡ s.f_iosize
  pub blocks : a.f_blocks ≡ s.f_blocks
  pub bfree : a.f_bfree ≡ s.f_bfree
  pub bavail : a.f_bavail ≡ s.f_bavail
  pub bused : a.f_bused ≡ s.f_bused
  pub files : a.f_files ≡ s.f_files
  pub ffree : a.f_ffree ≡ s.f_ffree

AllAgree : List Mount → Type 0
AllAgree = All (λ m. Agrees (populate_vfs_attr m) m.statfs)

new_mount-Agrees :
    (ncpu mp : ℕ) (args : MountArgs) (k : Kext)
    → AllAgree k.mounts
    → AllAgree (new_mount ncpu mp args k).mounts
unfolding new_mount AllAgree populate_vfs_attr populate_statfs_info
new_mount-Agrees ncpu mp args k h = (
  record {
    bsize = refl;
    iosize = refl;
    blocks = refl;
    bfree = refl;
    bavail = refl;
    bused = refl;
    files = refl;
    ffree = refl;
  },
  h,
)

mount-Agrees :
    (ncpu mp : ℕ) (args : MountArgs) (memory : Bool) (k : Kext) (o : Option Mount)
    → mount_of k.mounts mp ≡ o
    → AllAgree k.mounts
    → AllAgree (mount ncpu memory mp args k).1.mounts
unfolding mount
mount-Agrees ncpu mp args memory k (some m) e h = rw (e, mount) h
mount-Agrees ncpu mp args true k none e h = rw (e, mount) (new_mount-Agrees ncpu mp args k h)
mount-Agrees ncpu mp args false k none e h = rw (e, mount) h

without-Agrees : (ms : List Mount) (mp : ℕ) → AllAgree ms → AllAgree (without ms mp)
unfolding AllAgree
without-Agrees [] mp h = h
without-Agrees (m ∷ ms) mp h = elim (Bool-cases (m.mp == mp)) [
  | inl e ↦ rw e h.1
  | inr e ↦ rw e (h.0, without-Agrees ms mp h.1)
]

drop_mount-Agrees :
    (o : Option Mount) (mp : ℕ) (k : Kext) → AllAgree k.mounts → AllAgree (drop_mount o mp k).mounts
drop_mount-Agrees none mp k h = h
drop_mount-Agrees (some m) mp k h = without-Agrees k.mounts mp h

Runs-Agrees : (k : Kext) → Runs k → AllAgree k.mounts
unfolding unmount
Runs-Agrees k loaded = unfold AllAgree in tt
Runs-Agrees k' (mounts ncpu mp args memory k r) =
    mount-Agrees ncpu mp args memory k (mount_of k.mounts mp) refl (Runs-Agrees k r)
Runs-Agrees k' (unmounts mp k r) = drop_mount-Agrees (mount_of k.mounts mp) mp k (Runs-Agrees k r)

found-Agrees :
    (ms : List Mount) (mp : ℕ) (m : Mount)
    → AllAgree ms
    → mount_of ms mp ≡ some m
    → Agrees (populate_vfs_attr m) m.statfs
unfolding AllAgree mount_of
found-Agrees [] mp m h e = absurd (cc e)
found-Agrees (x ∷ ms) mp m h e = elim (Bool-cases (x.mp == mp)) [
  | inl q ↦
      let z : some x ≡ some m = subst (λ c. (if c then some x else mount_of ms mp) ≡ some m) q e in
      let same : x ≡ m = cc z in
      subst (λ (y : Mount). Agrees (populate_vfs_attr y) y.statfs) same h.0
  | inr q ↦
      found-Agrees ms mp m h.1 (subst (λ c. (if c then some x else mount_of ms mp) ≡ some m) q e)
]

-- After any mounts and unmounts, the sizes and counts that VFS_GETATTR reports for a mount are those of
-- its statfs; and neither a mount nor an unmount at another mount point changes what it reports.
pub vfs_getattr-stays :
    (ncpu mp : ℕ) (args : MountArgs) (memory : Bool) (k : Kext) (other : ℕ) (m : Mount)
    → Runs k
    → (mp == other) ≡ false
    → mount_of k.mounts other ≡ some m
    → Agrees (vfs_getattr m k).0 m.statfs
      × (mount_of (mount ncpu memory mp args k).1.mounts other ≡ some m)
      × (mount_of (unmount mp k).mounts other ≡ some m)
unfolding vfs_getattr
vfs_getattr-stays ncpu mp args memory k other m r ne e = (
  found-Agrees k.mounts other m (Runs-Agrees k r) e,
  mount-other ncpu mp args memory k other (mount_of k.mounts mp) ne refl ∙ e,
  unmount-other mp other k ne ∙ e,
)
