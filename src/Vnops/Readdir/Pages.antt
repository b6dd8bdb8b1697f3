-- ===== src/Vnops/Readdir/Pages.antt =====
-- Whole listings: which entries `sysfs_vnop_readdir` of kext/sysfs_vnops.c has for a directory, and
-- what a caller gets who reads it to the end.
use m_sl_sys_fs.Base.{
  ℕ, ◌<◌, ◌≡◌, refl, Bool, true, false, Option, none, some, List, Bytes, if◌then◌else◌, Bool-cases,
  inl, inr, ◌||◌,
}
use m_sl_sys_fs.Types.{Sfsnode, Snode}
use m_sl_sys_fs.Structure.{Structure, deref, child_nodes}
use m_sl_sys_fs.Iokit.{Iokit, ModuleInfo}
use m_sl_sys_fs.Uio.{UioOf, Uiomove, MovesRecords}
use m_sl_sys_fs.Vnops.Dirent.{Entry, Dirent}
use m_sl_sys_fs.Vnops.Readdir.{Listing, emit, start_cursor, is_class_dir, is_module_dir}
use m_sl_sys_fs.Vnops.Readdir.Ops.{
  module_readdir, dir_readdir, static_entries, is_sfs_device, is_sfs_module, first_of_type,
}
use m_sl_sys_fs.Vnops.Readdir.Dirs.{
  Answers, devices_entries, class_entries, modules_entries, mod_entries, modules_eof,
  devices_readdir-emit, class_readdir-emit, static_readdir-emit, module_readdir-emit,
  mod_readdir-emit, saw_end-IsCareful, all_done-IsCareful,
}
use m_sl_sys_fs.Vnops.Readdir.Phases.{saw_end}
use m_sl_sys_fs.Vnops.Readdir.Whole.{close, all_done}
use m_sl_sys_fs.Vnops.Readdir.Contract.{Lists, close-Lists, saw_end-IsPrompt, all_done-IsPrompt}

-- What a registry holds, as lists: the children of an entry, the members of a class, the modules.
pub record View : Type 0 where
  pub children : ℕ → List (Bytes × ℕ)
  pub members : ℕ → Bool → List (Bytes × ℕ)
  pub modules : List ModuleInfo

-- The queries by position answer from those lists.
pub record Shows (io : Iokit) (v : View) : Type 0 where
  pub child : (id : ℕ) → Answers (io.child_at id) (v.children id)
  pub member :
      (class : ℕ) (whole : Bool) → Answers (io.class_child_at class whole) (v.members class whole)
  pub module_ : Answers io.module_at v.modules

-- The entries of /sys/module, or of the directory of a module.
abbrev pub module_entries : View → Structure → Sfsnode → List Entry
module_entries v st dir =
    let snode = deref st dir.structure_node in
    if is_module_dir snode
    then modules_entries st dir (first_of_type is_sfs_module (child_nodes st snode.children))
        v.modules
    else mod_entries st dir

-- The entries of a directory.
abbrev pub entries : View → Structure → Sfsnode → List Entry
entries v st dir =
    let snode = deref st dir.structure_node in
    let children = child_nodes st snode.children in
    if is_sfs_device snode.node_type
    then devices_entries st dir (v.children dir.node_id.regid)
    else if is_module_dir snode || is_sfs_module snode.node_type
    then module_entries v st dir
    else if is_class_dir snode
    then class_entries st dir (v.members snode.instance_no snode.flags.whole_only)
    else static_entries st dir children

choose :
    (b : Bool) (r r' : UioOf Dirent → Listing) (all all' : List Entry)
    → (b ≡ true → Lists r all)
    → (b ≡ false → Lists r' all')
    → Lists (λ uio. if b then r uio else r' uio) (if b then all else all')
choose true r r' all all' then_ else_ = then_ refl
choose false r r' all all' then_ else_ = else_ refl

module _ (move : Uiomove Dirent) (moves : MovesRecords move) where
  by_loop :
      (readdir : UioOf Dirent → Listing) (all : List Entry) (r : UioOf Dirent → Listing)
      → ((uio : UioOf Dirent) → 0 < uio.resid → readdir uio ≡ r uio)
      → Lists r all
      → Lists readdir all
  by_loop readdir all r same l done rest uio split at room =
      rw (same uio room) (l done rest uio split at room)

  modules_eof-Lists :
      (marker : Option Snode) (all : List Entry)
      → Lists (λ uio. close (modules_eof marker) (emit move uio.offset all (start_cursor uio))) all
  unfolding modules_eof
  modules_eof-Lists none all =
      close-Lists move moves all_done all_done-IsCareful all_done-IsPrompt all
  modules_eof-Lists (some marker) all =
      close-Lists move moves saw_end saw_end-IsCareful saw_end-IsPrompt all

  modules-Lists :
      (io : Iokit) (v : View) (st : Structure) (dir : Sfsnode)
      → Shows io v
      → Lists (module_readdir move io st dir) (module_entries v st dir)
  modules-Lists io v st dir shows =
      elim (Bool-cases (is_module_dir (deref st dir.structure_node))) [
        | inl d ↦ rw d (
            by_loop _ _ _
              (λ uio h. module_readdir-emit move moves io st dir uio _ shows.module_ h d)
              (modules_eof-Lists _ _))
        | inr d ↦ rw d (
            by_loop _ _ _ (λ uio h. mod_readdir-emit move moves io st dir uio h d)
              (close-Lists move moves all_done all_done-IsCareful all_done-IsPrompt _))
      ]

  -- One call of `sysfs_vnop_readdir` on a directory, with room in the buffer and an offset that
  -- stands behind some of the entries, over a registry whose queries by position answer from the lists
  -- of `v`: it copies out the longest run of the following entries that fits, moves the offset behind
  -- it, counts it, reports the end only if nothing is left, and then always if room is left too, and
  -- fails with EINVAL exactly when entries are left and the first does not fit.
  pub dir_readdir-Lists :
      (io : Iokit) (v : View) (st : Structure) (dir : Sfsnode)
      → Shows io v
      → Lists (dir_readdir move io st dir) (entries v st dir)
  unfolding dir_readdir
  dir_readdir-Lists io v st dir shows =
      let snode : Snode = deref st dir.structure_node in
      let regid = dir.node_id.regid in
      choose (is_sfs_device snode.node_type) _ _ _ _
        (λ _.
          by_loop _ _ _
            (λ uio h. devices_readdir-emit move moves io st dir uio _ (shows.child regid) h)
            (close-Lists move moves _ saw_end-IsCareful saw_end-IsPrompt _))
        (λ _.
          choose (is_module_dir snode || is_sfs_module snode.node_type) _ _ _ _
            (λ _. modules-Lists io v st dir shows)
            (λ _.
              choose (is_class_dir snode) _ _ _ _
                (λ _.
                  by_loop _ _ _
                    (λ uio h. class_readdir-emit move moves io st dir uio _ (shows.member _ _) h)
                    (close-Lists move moves _ saw_end-IsCareful saw_end-IsPrompt _))
                (λ _.
                  by_loop _ _ _ (λ uio h. static_readdir-emit move moves io st dir uio)
                    (close-Lists move moves _ all_done-IsCareful all_done-IsPrompt _))))
