-- ===== src/Vnops/Attr/Links.antt =====
-- Symbolic links (`sysfs_vnop_readlink` and `sysfs_link_target` of kext/sysfs_vnops.c).
use m_sl_sys_fs.Base.{
  tests, ℕ, ◌+◌, ◌≤◌, ◌<◌, ◌≡◌, refl, arith, Bool-cases, inl, inr, true, false, if◌then◌else◌, ◌==◌,
  ltb, length, take, [], ◌∷◌, Bytes, length-append, length-take, min, ==_iff,
}
use m_sl_sys_fs.Types.{SfsType, sfs_link, Sfsnode, enoent}
use m_sl_sys_fs.Uio.{Uiomove, UioOf, MovesBytes}
use m_sl_sys_fs.Structure.{Structure, deref}
use m_sl_sys_fs.Iokit.{Iokit}
use m_sl_sys_fs.Vnops.Readdir.Ops.{is_sfs_device, is_sfs_module, is_sfs_link}
use m_sl_sys_fs.Vnops.Attr.{
  vnop_getattr, attr_of, vnop_readlink, link_target, bounded_target, link_target_max, target_text,
  climb,
}

pub target_bound : (path : Bytes) (depth : ℕ) → length (bounded_target path depth) < 1024
target_bound [] depth = omega arith
target_bound (c ∷ path) depth =
    elim (Bool-cases (ltb (length (target_text depth (c ∷ path))) 1024)) [
      | inl e ↦ rw e (grind tests)
      | inr e ↦ rw e (omega arith)
    ]

link_only :
    (t : SfsType) → is_sfs_link t ≡ true → (is_sfs_device t ≡ false) × (is_sfs_module t ≡ false)
link_only sfs_link e = (refl, refl)
link_only t e = ground (arith, e)

copied_link :
    (move : Uiomove ℕ)
    → MovesBytes move
    → (t : Bytes) (uio : UioOf ℕ) → length t ≤ uio.resid
    → let r = if length t == 0 then (enoent, uio) else move t (length t) uio in
      (length r.1.moved ≡ length uio.moved + length t)
      × (r.0 ≡ (if length t == 0 then enoent else 0))
copied_link move moves t uio room = elim (Bool-cases (length t == 0)) [
  | inl z ↦ let n : length t ≡ 0 = (==_iff (length t) 0).0 z in rw z (omega arith, refl)
  | inr z ↦
      let m = moves t (length t) uio (omega arith) in
      rw (z, m)
        (
          let k : length (take (min (length t) uio.resid) t) ≡ length t =
                omega (arith, length-take (min (length t) uio.resid) t) in
              omega (arith, length-append uio.moved (take (min (length t) uio.resid) t), k),
          refl,
        )
]

module _ (io : Iokit) (st : Structure) where
  link_size :
      (snp : Sfsnode) (pmnt_id : ℕ)
      → is_sfs_link (deref st snp.structure_node).node_type ≡ true
      → (vnop_getattr io st snp pmnt_id).va_data_size ≡ length (link_target io st snp)
  unfolding vnop_getattr attr_of
  link_size snp pmnt_id l =
      let (d, m) = link_only (deref st snp.structure_node).node_type l in rw (d, m, l) refl

  link_target-bound : (snp : Sfsnode) → length (link_target io st snp) < 1024
  unfolding link_target
  link_target-bound snp =
      target_bound (io.path_of snp.node_id.regid link_target_max)
        (climb st snp.structure_node (deref st snp.structure_node).parent)

  -- A symbolic link, read into a buffer with room for it: if getattr reports a size, that many bytes
  -- are copied, fewer than 1024, and the call succeeds; if it reports none, the link leads nowhere.
  pub vnop_readlink-size :
      (move : Uiomove ℕ)
      → MovesBytes move
      → (snp : Sfsnode) (pmnt_id : ℕ) (uio : UioOf ℕ)
      → is_sfs_link (deref st snp.structure_node).node_type ≡ true
      → (vnop_getattr io st snp pmnt_id).va_data_size ≤ uio.resid
      → let size = (vnop_getattr io st snp pmnt_id).va_data_size in
        let r = vnop_readlink io st move snp uio in
        (size < link_target_max)
        × (length r.1.moved ≡ length uio.moved + size)
        × (r.0 ≡ (if size == 0 then enoent else 0))
  unfolding vnop_readlink
  vnop_readlink-size move moves snp pmnt_id uio l room =
      let size = link_size snp pmnt_id l in
      let t : Bytes = link_target io st snp in
      let b : length t < 1024 = link_target-bound snp in
      rw (size, l)
        (let (m, e) =
            copied_link move moves t uio
              (let r : length t ≤ uio.resid = omega (arith, room, size) in r) in
          (b, m, e))
