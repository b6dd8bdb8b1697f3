-- ===== src/Snapshot/Refresh/Files.antt =====
-- The vnode operations of kext/sysfs_vnops.c on the registry that kext/sysfs_iokit.cpp publishes.
use m_sl_sys_fs.Base.{ℕ, suc, ◌<◌, ◌≡◌, false, Bytes, length}
use m_sl_sys_fs.Types.{Sfsnode}
use m_sl_sys_fs.Structure.{Structure, deref}
use m_sl_sys_fs.Uio.{Uiomove, MovesRecords}
use m_sl_sys_fs.Snapshot.Build.{Sizes, World}
use m_sl_sys_fs.Snapshot.Refresh.Steps.{Threads, Reach}
use m_sl_sys_fs.Snapshot.Refresh.Serve.{served, lists, served-Shows}
use m_sl_sys_fs.Vnops.Dirent.{Dirent}
use m_sl_sys_fs.Vnops.Readdir.{is_class_dir}
use m_sl_sys_fs.Vnops.Readdir.Ops.{dir_readdir}
use m_sl_sys_fs.Vnops.Readdir.Window.{dirents}
use m_sl_sys_fs.Vnops.Readdir.Pages.{entries}
use m_sl_sys_fs.Vnops.Readdir.ReadAll.{HasRoom, read_pages, dir_readdir_complete}
use m_sl_sys_fs.Vnops.Lookup.{match_child}
use m_sl_sys_fs.Vnops.Lookup.Agree.{match_child-entries}
use m_sl_sys_fs.Vnops.Lookup.Listed.{match_fileid, listed_fileid, IsPlain, AreChildren}

-- Whenever vnode operations, mounts, refreshes and the stop have led there: while one snapshot is
-- published, the whole of a directory of /sys is read with a buffer that has room for each entry, and
-- a lookup of a name, where the directory is no class directory, leads to the file that the entry
-- read under that name has, or to none if there is none.
pub served-readdir_lookup :
    (z : Sizes) (w : World) {s : Threads}
    → Reach z w s
    → (move : Uiomove Dirent) → MovesRecords move
    → (st : Structure) (dir : Sfsnode) (room : ℕ) (name : Bytes) → 0 < room
    → HasRoom room (entries (lists s.shared) st dir)
    → IsPlain name
    → dir.node_id.objectid ≡ 0
    → AreChildren st (deref st dir.structure_node).children
    → is_class_dir (deref st dir.structure_node) ≡ false
    → (read_pages
          (dir_readdir move (served s.shared) st dir)
          room
          (suc (length (entries (lists s.shared) st dir)))
          0
        ≡ dirents 0 (entries (lists s.shared) st dir))
      × (listed_fileid name (entries (lists s.shared) st dir)
          ≡ match_fileid (match_child (served s.shared) st dir name))
served-readdir_lookup z w {s} r move moves st dir room name pos fits plain o kids c =
    let (shows, names) = served-Shows z w r in
    (
      dir_readdir_complete move moves (served s.shared) (lists s.shared) shows st dir room pos fits,
      match_child-entries st (served s.shared) (lists s.shared) dir name names plain o kids c,
    )
