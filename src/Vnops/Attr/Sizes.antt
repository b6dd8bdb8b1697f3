-- ===== src/Vnops/Attr/Sizes.antt =====
-- What getattr reports (kext/sysfs_vnops.c) against what read and readlink give.
use m_sl_sys_fs.Base.{
  tests, ℕ, ◌-◌, ◌≤◌, ◌<◌, ◌≡◌, refl, arith, ap, sym, ◌∙◌, Bool-cases, inl, inr, Bool, true, false,
  if◌then◌else◌, ◌==◌, ltb, length, take, Bytes, codes, length-append, length-take, min, ==_iff,
  subst, le→leb,
}
use m_sl_sys_fs.Types.{
  SfsType, sfs_file, sfs_link, sfs_device, sfs_attr, sfs_module, Sfsnode, Vtype, vdir, vreg, vlnk,
  eisdir, einval, is_directory_type,
}
use m_sl_sys_fs.Uio.{Uiomove, UioOf, MovesBytes}
use m_sl_sys_fs.Subr.{allocvp, copy_data}
use m_sl_sys_fs.Subr.Copy.{read_all, read_all-copy_data}
use m_sl_sys_fs.Structure.{Structure, deref}
use m_sl_sys_fs.Iokit.{Iokit}
use m_sl_sys_fs.System.{Sysctl}
use m_sl_sys_fs.Vnops.Readdir.{is_dir_objid}
use m_sl_sys_fs.Vnops.Readdir.Ops.{is_sfs_device, is_sfs_module, is_sfs_link}
use m_sl_sys_fs.Vnops.Attr.{
  vnop_getattr, attr_of, vnop_read, create_vnode_type, device_attr_size, device_read_attr,
  device_value, module_attr_size, module_read_attr, module_format_attr, module_text, capped,
  attr_value_max, dir_or, all_access_all,
}

-- The three ways in which a type is decided.
abbrev type_of : SfsType → Bool → Vtype
type_of t isdir =
    if is_sfs_device t
    then (if isdir then vdir else vreg)
    else if is_sfs_module t
    then (if isdir then vdir else vreg)
    else allocvp t

abbrev triple_of : SfsType → Bool → ℕ → ℕ → ℕ → ℕ → ℕ → ℕ × Vtype × ℕ
triple_of t isdir device module_ link mode other =
    if is_sfs_device t
    then dir_or isdir device
    else if is_sfs_module t
    then dir_or isdir module_
    else if is_sfs_link t
    then (all_access_all, vlnk, link)
    else (mode, allocvp t, other)

type-triple :
    (t : SfsType) (isdir : Bool) (d m l mode other : ℕ)
    → type_of t isdir ≡ (triple_of t isdir d m l mode other).1
unfolding allocvp
type-triple sfs_device true d m l mode other = refl
type-triple sfs_device false d m l mode other = refl
type-triple sfs_module true d m l mode other = refl
type-triple sfs_module false d m l mode other = refl
type-triple sfs_link isdir d m l mode other = refl
type-triple t isdir d m l mode other = refl

-- A node that is a directory to getattr is one to read.
abbrev read_of : {A : Type 0} → SfsType → Bool → A → A → A → A → A
read_of t isdir dir device module_ other =
    if is_sfs_device t
    then (if isdir then dir else device)
    else if is_sfs_module t
    then (if isdir then dir else module_)
    else if is_directory_type t
    then dir
    else other

dir-read :
    {A : Type 0} (t : SfsType) (isdir : Bool) (dir device module_ other : A)
    → type_of t isdir ≡ vdir
    → read_of t isdir dir device module_ other ≡ dir
unfolding allocvp is_directory_type
dir-read sfs_device true dir device module_ other e = refl
dir-read sfs_device false dir device module_ other e = ground (arith, e)
dir-read sfs_module true dir device module_ other e = refl
dir-read sfs_module false dir device module_ other e = ground (arith, e)
dir-read sfs_file isdir dir device module_ other e = ground (arith, e)
dir-read sfs_attr isdir dir device module_ other e = ground (arith, e)
dir-read sfs_link isdir dir device module_ other e = ground (arith, e)
dir-read t isdir dir device module_ other e = refl

-- The length that is read and reported, and the bytes that fit into the buffer.
capped_length : (n : ℕ) → (if n == 0 then 0 else capped n) ≡ min 255 n
capped_length n = elim (Bool-cases (n == 0)) [
  | inl z ↦ let e : n ≡ 0 = (==_iff n 0).0 z in rw z (omega arith)
  | inr z ↦
      rw z
        (elim (Bool-cases (ltb 255 n)) [ inl l ↦ rw l (grind tests) | inr l ↦ rw l (grind tests) ])
]

copy_none :
    (move : Uiomove ℕ) (bytes : Bytes) (uio : UioOf ℕ) → copy_data move bytes 0 uio ≡ (0, uio)
unfolding copy_data
copy_none move bytes uio = rw (le→leb 0 uio.offset (omega arith)) refl

-- The read of a module's text.
copied :
    (move : Uiomove ℕ) (text : Bytes) (objid : ℕ) (uio : UioOf ℕ)
    → objid ≤ 4
    → (if length text == 0
        then (if ltb 4 objid then einval else 0, uio)
        else copy_data move (take 255 text) (capped (length text)) uio)
      ≡ copy_data move (take 255 text) (length (take 255 text)) uio
copied move text objid uio le = elim (Bool-cases (length text == 0)) [
  | inl z ↦
      let n : length text ≡ 0 = (==_iff (length text) 0).0 z in
      let k : length (take 255 text) ≡ 0 = omega (arith, length-take 255 text) in
      rw (z, k)
        (sym (ap (λ e. (e, uio)) (ground (arith, le))) ∙ sym (copy_none move (take 255 text) uio))
  | inr z ↦
      let c : capped (length text) ≡ min 255 (length text) =
        subst (λ b. (if b then 0 else capped (length text)) ≡ min 255 (length text)) z
          (capped_length (length text)) in
      rw z (ap (λ n. copy_data move (take 255 text) n uio) (c ∙ sym (length-take 255 text)))
]

module _ (io : Iokit) (st : Structure) where
  -- For every node, the vnode is created with the type that getattr reports.
  pub create_vnode_type-getattr :
      (snp : Sfsnode) (pmnt_id : ℕ)
      → create_vnode_type io st snp ≡ (vnop_getattr io st snp pmnt_id).va_type
  unfolding create_vnode_type vnop_getattr attr_of
  create_vnode_type-getattr snp pmnt_id =
      type-triple (deref st snp.structure_node).node_type (is_dir_objid snp.node_id.objectid) _ _ _
        _ _

  -- A node whose vnode is a directory reads as EISDIR, and the buffer is left alone.
  pub vnop_read-directory :
      (sys : Sysctl) (move : Uiomove ℕ) (snp : Sfsnode) (pmnt_id : ℕ) (uio : UioOf ℕ)
      → (vnop_getattr io st snp pmnt_id).va_type ≡ vdir
      → vnop_read io st sys move snp uio ≡ (eisdir, uio)
  unfolding vnop_read create_vnode_type
  vnop_read-directory sys move snp pmnt_id uio e =
      dir-read (deref st snp.structure_node).node_type (is_dir_objid snp.node_id.objectid)
        (eisdir, uio) _ _ _ (create_vnode_type-getattr snp pmnt_id ∙ e)

  -- A node that is read through `sysfs_copy_data` gives the bytes of its content, however many at a
  -- time.
  through_copy :
      (sys : Sysctl) (move : Uiomove ℕ)
      → MovesBytes move
      → (snp : Sfsnode) (bytes : Bytes) (chunk fuel : ℕ)
      → ((uio : UioOf ℕ)
          → vnop_read io st sys move snp uio ≡ copy_data move bytes (length bytes) uio)
      → 0 < chunk
      → length bytes < fuel
      → read_all (vnop_read io st sys move snp) chunk fuel 0 ≡ bytes
  through_copy sys move moves snp bytes chunk fuel h c f =
      let e : vnop_read io st sys move snp ≡ copy_data move bytes (length bytes) = λ i u. h u i in
      ap (λ r. read_all r chunk fuel 0) e ∙ read_all-copy_data move moves bytes chunk fuel c f

  device_size :
      (snp : Sfsnode) (pmnt_id : ℕ)
      → is_sfs_device (deref st snp.structure_node).node_type ≡ true
      → snp.node_id.objectid ≡ 1
      → (vnop_getattr io st snp pmnt_id).va_data_size ≡ length (device_value io st snp)
  unfolding vnop_getattr attr_of device_attr_size device_value
  device_size snp pmnt_id d o =
      rw (d, o)
        (sym (length-append (io.name_of snp.node_id.regid (attr_value_max - 1)) (codes "\n")))

  device_read :
      (sys : Sysctl) (move : Uiomove ℕ) (snp : Sfsnode) (uio : UioOf ℕ)
      → is_sfs_device (deref st snp.structure_node).node_type ≡ true
      → snp.node_id.objectid ≡ 1
      → vnop_read io st sys move snp uio
        ≡ copy_data move (device_value io st snp) (length (device_value io st snp)) uio
  unfolding vnop_read device_read_attr
  device_read sys move snp uio d o = rw (d, o) refl

  -- The "name" file of a registry entry: reads in pieces of any positive size, to the end, give as
  -- many bytes as getattr reports, with one call more than there are bytes.
  pub vnop_read-device :
      (sys : Sysctl) (move : Uiomove ℕ)
      → MovesBytes move
      → (snp : Sfsnode) (pmnt_id chunk fuel : ℕ)
      → is_sfs_device (deref st snp.structure_node).node_type ≡ true
      → snp.node_id.objectid ≡ 1
      → 0 < chunk
      → (vnop_getattr io st snp pmnt_id).va_data_size < fuel
      → length (read_all (vnop_read io st sys move snp) chunk fuel 0)
        ≡ (vnop_getattr io st snp pmnt_id).va_data_size
  vnop_read-device sys move moves snp pmnt_id chunk fuel d o c f =
      let size = device_size snp pmnt_id d o in
      ap length (
        through_copy sys move moves snp (device_value io st snp) chunk fuel
          (λ uio. device_read sys move snp uio d o) c (omega (arith, f, size)))
      ∙ sym size

  -- the bytes of a module's attribute
  abbrev module_bytes : Sfsnode → Bytes
  module_bytes snp =
      take (attr_value_max - 1)
        (module_text (io.module_by_tag snp.node_id.regid) snp.node_id.objectid)

  module_size :
      (snp : Sfsnode) (pmnt_id : ℕ)
      → is_sfs_module (deref st snp.structure_node).node_type ≡ true
      → is_sfs_device (deref st snp.structure_node).node_type ≡ false
      → is_dir_objid snp.node_id.objectid ≡ false
      → (vnop_getattr io st snp pmnt_id).va_data_size ≡ length (module_bytes snp)
  unfolding vnop_getattr attr_of module_attr_size module_format_attr
  module_size snp pmnt_id m d o =
      let text = module_text (io.module_by_tag snp.node_id.regid) snp.node_id.objectid in
      rw (d, m, o) (capped_length (length text) ∙ sym (length-take 255 text))

  module_read :
      (sys : Sysctl) (move : Uiomove ℕ) (snp : Sfsnode) (uio : UioOf ℕ)
      → is_sfs_module (deref st snp.structure_node).node_type ≡ true
      → is_sfs_device (deref st snp.structure_node).node_type ≡ false
      → is_dir_objid snp.node_id.objectid ≡ false
      → snp.node_id.objectid ≤ 4
      → vnop_read io st sys move snp uio
        ≡ copy_data move (module_bytes snp) (length (module_bytes snp)) uio
  unfolding vnop_read module_read_attr module_format_attr
  module_read sys move snp uio m d o le =
      let text = module_text (io.module_by_tag snp.node_id.regid) snp.node_id.objectid in
      rw (d, m, o) (copied move text snp.node_id.objectid uio le)

  -- A file below the directory of a module: reads in pieces of any positive size, to the end, give as
  -- many bytes as getattr reports, with one call more than there are bytes.
  pub vnop_read-module :
      (sys : Sysctl) (move : Uiomove ℕ)
      → MovesBytes move
      → (snp : Sfsnode) (pmnt_id chunk fuel : ℕ)
      → is_sfs_module (deref st snp.structure_node).node_type ≡ true
      → is_sfs_device (deref st snp.structure_node).node_type ≡ false
      → is_dir_objid snp.node_id.objectid ≡ false
      → snp.node_id.objectid ≤ 4
      → 0 < chunk
      → (vnop_getattr io st snp pmnt_id).va_data_size < fuel
      → length (read_all (vnop_read io st sys move snp) chunk fuel 0)
        ≡ (vnop_getattr io st snp pmnt_id).va_data_size
  vnop_read-module sys move moves snp pmnt_id chunk fuel m d o le c f =
      let size = module_size snp pmnt_id m d o in
      ap length (
        through_copy sys move moves snp (module_bytes snp) chunk fuel
          (λ uio. module_read sys move snp uio m d o le) c (omega (arith, f, size)))
      ∙ sym size
