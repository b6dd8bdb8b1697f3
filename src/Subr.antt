-- ===== src/Subr.antt =====
-- kext/sysfs_subr.c: vnode types, file identifiers, decimal input and the copying of file content.
pub mod Copy
pub mod Decimal
use m_sl_sys_fs.Base.{
  ℕ, suc, zero, ◌+◌, ◌-◌, ◌*◌, ◌%◌, ◌^◌, Option, none, some, Bytes, bit_or, leb, ◌&&◌,
  if◌then◌else◌, [], ◌∷◌, ltb, length, drop,
}
use m_sl_sys_fs.Types.{
  SfsType, sfs_root, sfs_dir, sfs_file, sfs_dirthis, sfs_dirparent, sfs_link, sfs_device, sfs_attr,
  sfs_subsystem, sfs_module, Vtype, vdir, vreg, vlnk, SfsId, efault, einval,
}
use m_sl_sys_fs.Uio.{Uiomove, UioOf}

-- `sysfs_allocvp`
unfoldable pub allocvp : SfsType → Vtype
allocvp sfs_root = vdir
allocvp sfs_dir = vdir
allocvp sfs_dirthis = vdir
allocvp sfs_dirparent = vdir
allocvp sfs_device = vdir
allocvp sfs_subsystem = vdir
allocvp sfs_module = vdir
allocvp sfs_file = vreg
allocvp sfs_attr = vreg
allocvp sfs_link = vlnk

-- `sysfs_get_fileid`: the shifts are on uint64_t, so bits above 63 are lost.
unfoldable pub get_fileid : ℕ → ℕ → ℕ → ℕ
get_fileid regid objectid base_id =
    bit_or (bit_or base_id (regid * 2 ^ 8 % 2 ^ 64)) (objectid * 2 ^ 24 % 2 ^ 64)

-- `sysfs_get_node_fileid`; `base` is the base id of the node's structure node.
unfoldable pub get_node_fileid : SfsId → ℕ → ℕ
unfolding get_fileid
get_node_fileid node_id base = get_fileid node_id.regid node_id.objectid base

-- The loop of `sysfs_atoi`: the value so far, and the digits read. The value is an `int`, given by its
-- bit pattern; what C leaves undefined, a value above INT_MAX, wraps around here.
unfoldable pub atoi_loop : Bytes → ℕ → ℕ → ℕ × ℕ × Bytes
atoi_loop [] value digits = (value, digits, [])
atoi_loop (c ∷ s) value digits =
    if leb b'0' c && leb c b'9'
    then atoi_loop s ((value * 10 + (c - b'0')) % 2 ^ 32) (digits + 1)
    else (value, digits, c ∷ s)

-- `sysfs_atoi`: the value, or none for -1, and the rest of the text at `*end_ptr`.
unfoldable pub atoi : Bytes → Option ℕ × Bytes
unfolding atoi_loop
atoi p =
    let (value, digits, rest) = atoi_loop p 0 0 in (if ltb 0 digits then some value else none, rest)

-- `sysfs_copy_data`, for a buffer that is not NULL
unfoldable pub copy_data : Uiomove ℕ → Bytes → ℕ → UioOf ℕ → ℕ × UioOf ℕ
copy_data uiomove bytes data_len uio =
    if leb data_len uio.offset
    then (0, uio)
    else uiomove (drop uio.offset bytes) (data_len - uio.offset) uio
