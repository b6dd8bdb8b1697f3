-- ===== src/Vnops/Readdir.antt =====
-- The readdir operations of kext/sysfs_vnops.c. Each loop is a function of its variables, which
-- stand in a `Cursor`.
pub mod Ops
pub mod Window
pub mod Phases
pub mod Whole
pub mod Dirs
pub mod Contract
pub mod Pages
pub mod ReadAll
use m_sl_sys_fs.Base.{
  ℕ, zero, suc, ◌+◌, Bool, true, false, not, ◌&&◌, Option, none, some, List, [], ◌∷◌, ◌++◌, Bytes,
  codes, ◌==◌, if◌then◌else◌,
}
use m_sl_sys_fs.Types.{
  SfsType, sfs_root, sfs_dir, sfs_file, sfs_dirthis, sfs_dirparent, sfs_link, sfs_device, sfs_attr,
  sfs_subsystem, sfs_module, SfsId, Snode, Sfsnode, no_regid, no_objectid, is_directory_type,
  einval, enotdir, Vtype, vdir,
}
use m_sl_sys_fs.Uio.{UioOf, Uiomove}
use m_sl_sys_fs.Subr.{get_fileid, get_node_fileid}
use m_sl_sys_fs.Structure.{Structure, deref, child_nodes}
use m_sl_sys_fs.Structure.Init.{class_none}
use m_sl_sys_fs.Node.{get_parent_node_id}
use m_sl_sys_fs.Iokit.{Iokit, ModuleInfo}
use m_sl_sys_fs.Vnops.Dirent.{
  Entry, Dirent, Cursor, put_entry, calc_dirent_size, dt_dir, dt_reg, dt_lnk, failed,
}

-- `ap->a_eofflag`, `ap->a_numdirent`, the buffer and the returned error
pub record Listing : Type 0 where
  pub error : ℕ
  pub uio : UioOf Dirent
  pub eofflag : Bool
  pub numdirent : ℕ

abbrev pub is_sfs_dir : SfsType → Bool
is_sfs_dir sfs_dir = true
is_sfs_dir _ = false

-- `sysfs_is_class_dir`
unfoldable pub is_class_dir : Snode → Bool
is_class_dir snode =
    snode.flags.dynamic && (is_sfs_dir snode.node_type && not (snode.instance_no == class_none))

-- `sysfs_is_module_dir`
unfoldable pub is_module_dir : Snode → Bool
is_module_dir snode = snode.flags.modules && is_sfs_dir snode.node_type

-- `sysfs_dev_is_dir` and `sysfs_mod_is_dir`: the object id of the directory itself is 0.
abbrev pub is_dir_objid : ℕ → Bool
is_dir_objid objectid = objectid == 0

-- `sysfs_dev_attrs` and `sysfs_mod_attrs`: names and object ids
abbrev pub dev_attrs : List (Bytes × ℕ)
dev_attrs = (codes "name", 1) ∷ []

abbrev pub mod_attrs : List (Bytes × ℕ)
mod_attrs =
    (codes "refcnt", 1) ∷ (codes "coresize", 2) ∷ (codes "initstate", 3) ∷ (codes "version", 4) ∷ []

abbrev pub start_cursor : UioOf Dirent → Cursor
start_cursor uio = record { uio = uio; nextpos = 0; numentries = 0; error = 0; halted = false }

-- The end of every readdir: the offset is written back, and a call that emitted nothing short of
-- the end is an error.
unfoldable pub finish : Cursor → Bool → Listing
finish c eof = record {
  error = if (c.error == 0) && ((c.numentries == 0) && not eof) then einval else c.error;
  uio = record (c.uio) { offset = c.nextpos };
  eofflag = eof;
  numdirent = c.numentries;
}

module _ (uiomove : Uiomove Dirent) (startpos : ℕ) where
  -- A loop over a list of entries, `while (… && uio_resid(uio) > 0)`: the variables at its end, and
  -- the entries that it has not handled.
  unfoldable pub emit : List Entry → Cursor → Cursor × List Entry
  emit [] c = (c, [])
  emit (e ∷ es) c =
      let c' = put_entry uiomove startpos e c in
      let rest = emit es c' in
      if c.uio.resid == 0 then (c, e ∷ es) else if c'.halted then (c', e ∷ es) else rest

  -- The loop over "." and "..", which does not look at the room that is left.
  unfoldable pub emit_dots : List Entry → Cursor → Cursor
  emit_dots [] c = c
  emit_dots (e ∷ es) c =
      let c' = put_entry uiomove startpos e c in
      let rest = emit_dots es c' in if c'.halted then c' else rest

  -- `for (i = 0; error == 0 && uio_resid(uio) > 0; i++)` over what `at` returns; true if the loop
  -- found the end. Each round uses room or moves towards `startpos`, which bounds the fuel.
  unfoldable pub emit_queries : ℕ → (ℕ → Option Entry) → ℕ → Cursor → Cursor × Bool
  emit_queries zero at i c = (c, false)
  emit_queries (suc fuel) at i c =
      let next : Cursor × Bool = elim (at i) [
        | none ↦ (c, true)
        | some e ↦
            let c' = put_entry uiomove startpos e c in
            let rest = emit_queries fuel at (suc i) c' in if c'.halted then (c', false) else rest
      ] in
      if c.uio.resid == 0 then (c, false) else next
