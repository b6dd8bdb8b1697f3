-- ===== src/Tests/Listings.antt =====
-- Listings and lookups on the fixture.
use m_sl_sys_fs.Base.{suc, ◌≡◌, refl, [], codes, leb→le, take, drop, length, arith}
use m_sl_sys_fs.Types.{no_objectid}
use m_sl_sys_fs.Subr.{get_fileid}
use m_sl_sys_fs.Uio.{MovesRecords, move_record}
use m_sl_sys_fs.Vnops.Dirent.{Dirent, calc_dirent_size}
use m_sl_sys_fs.Vnops.Readdir.{is_class_dir, is_module_dir}
use m_sl_sys_fs.Vnops.Readdir.Window.{dirents}
use m_sl_sys_fs.Vnops.Readdir.Contract.{Listed}
use m_sl_sys_fs.Vnops.Readdir.Ops.{dir_readdir}
use m_sl_sys_fs.Vnops.Readdir.Pages.{entries, dir_readdir-Lists}
use m_sl_sys_fs.Vnops.Readdir.ReadAll.{read_pages, dir_readdir_complete}
use m_sl_sys_fs.Vnops.Lookup.{match_child, first_child}
use m_sl_sys_fs.Vnops.Lookup.Agree.{match_child-entries}
use m_sl_sys_fs.Vnops.Lookup.Listed.{match_fileid, listed_fileid, id_named, if_id}
use m_sl_sys_fs.Vnops.Lookup.Classes.{match_child-class}
use m_sl_sys_fs.Tests.Fixture.{
  registry, view, view-Shows, view-Names, layout, disk_dir, block_dir, block_members,
}

move_record-MovesRecords : MovesRecords {A = Dirent} move_record
move_record-MovesRecords a n u h = refl

dir_readdir_complete_example :
    read_pages
      (dir_readdir move_record registry layout disk_dir)
      40
      (suc (length (entries view layout disk_dir)))
      0
    ≡ dirents 0 (entries view layout disk_dir)
unfolding calc_dirent_size
dir_readdir_complete_example =
    dir_readdir_complete move_record move_record-MovesRecords registry view view-Shows layout
      disk_dir 40 (omega arith)
      (
        leb→le 32 40 refl,
        (leb→le 32 40 refl, (leb→le 32 40 refl, (leb→le 32 40 refl, (leb→le 32 40 refl, tt)))),
      )

dir_readdir-Lists_example :
    Listed
      (drop 2 (entries view layout disk_dir))
      (record { offset = 64; resid = 70; moved = [] })
      (dir_readdir move_record registry layout disk_dir
        (record { offset = 64; resid = 70; moved = [] }))
unfolding calc_dirent_size
dir_readdir-Lists_example =
    dir_readdir-Lists move_record move_record-MovesRecords registry view layout disk_dir view-Shows
      (take 2 (entries view layout disk_dir)) (drop 2 (entries view layout disk_dir))
      (record { offset = 64; resid = 70; moved = [] }) refl refl (omega arith)

match_child-entries_example :
    listed_fileid (codes "disk1") (entries view layout disk_dir)
    ≡ match_fileid (match_child registry layout disk_dir (codes "disk1"))
match_child-entries_example =
    match_child-entries layout registry view disk_dir (codes "disk1") view-Names (refl, refl) refl
      tt (unfold is_class_dir in refl)

match_child-class_example :
    (listed_fileid (codes "disk0") (entries view layout block_dir)
      ≡ if_id (λ regid. get_fileid regid no_objectid 5) (id_named (codes "disk0") block_members))
    × (match_fileid (match_child registry layout block_dir (codes "disk0"))
        ≡ if_id (λ regid. get_fileid regid no_objectid 6) (id_named (codes "disk0") block_members))
match_child-class_example =
    match_child-class layout registry view block_dir (codes "disk0") 5 (λ class whole n. refl)
      (refl, refl) (unfold is_class_dir in refl) (unfold is_module_dir in refl)
      (unfold first_child in refl)
