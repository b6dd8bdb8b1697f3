-- ===== src/Vnops/Lookup/Classes.antt =====
-- Lookup and readdir of a class directory (kext/sysfs_vnops.c): the same names, but file ids of
-- different structure nodes.
use m_sl_sys_fs.Base.{ℕ, ◌≡◌, refl, Bool, true, false, ◌&&◌, Option, none, some, List, Bytes, arith}
use m_sl_sys_fs.Types.{Snode, Sfsnode, SfsType, sfs_dir, no_objectid}
use m_sl_sys_fs.Subr.{get_fileid}
use m_sl_sys_fs.Structure.{Structure, deref}
use m_sl_sys_fs.Iokit.{Iokit}
use m_sl_sys_fs.Vnops.Dirent.{dt_lnk}
use m_sl_sys_fs.Vnops.Readdir.{is_sfs_dir, is_class_dir, is_module_dir}
use m_sl_sys_fs.Vnops.Readdir.Ops.{is_sfs_device, is_sfs_module, is_sfs_link}
use m_sl_sys_fs.Vnops.Readdir.Pages.{View, entries}
use m_sl_sys_fs.Vnops.Lookup.{match_child, match_link, first_child}
use m_sl_sys_fs.Vnops.Lookup.Listed.{
  match_fileid, listed_fileid, id_named, IsPlain, if_id, listed-children,
}

of_type :
    (b : Bool) (t : SfsType) (c : Bool)
    → (b && (is_sfs_dir t && c)) ≡ true
    → (is_sfs_device t ≡ false) × (is_sfs_module t ≡ false)
of_type b sfs_dir c e = (refl, refl)
of_type b t c e = ground (arith, e)

dir_only :
    (x : Snode)
    → is_class_dir x ≡ true
    → (is_sfs_device x.node_type ≡ false) × (is_sfs_module x.node_type ≡ false)
unfolding is_class_dir
dir_only x e = of_type x.flags.dynamic x.node_type _ e

module _ (st : Structure) where
  linked :
      (io : Iokit) (link : ℕ) (children : List ℕ) (o : Option ℕ)
      → first_child st (λ x. is_sfs_link x.node_type) children ≡ some link
      → match_fileid (match_link io st children o)
        ≡ if_id (λ regid. get_fileid regid no_objectid (deref st link).base_node_id) o
  unfolding match_link
  linked io link children none l = refl
  linked io link children (some regid) l = rw l refl

  -- In a class directory with a link node, a name leads to a file exactly if it is listed, but the
  -- file id of the listing is made with the base id of the directory, and that of the file with the
  -- base id of the link node.
  pub match_child-class :
      (io : Iokit) (v : View) (dir : Sfsnode) (name : Bytes) (link : ℕ)
      → ((class : ℕ) (whole : Bool) (n : Bytes)
          → io.class_child_named class whole n ≡ id_named n (v.members class whole))
      → IsPlain name
      → is_class_dir (deref st dir.structure_node) ≡ true
      → is_module_dir (deref st dir.structure_node) ≡ false
      → first_child st (λ x. is_sfs_link x.node_type) (deref st dir.structure_node).children
        ≡ some link
      → let snode = deref st dir.structure_node in
        let id = id_named name (v.members snode.instance_no snode.flags.whole_only) in
        (listed_fileid name (entries v st dir)
          ≡ if_id (λ regid. get_fileid regid no_objectid snode.base_node_id) id)
        × (match_fileid (match_child io st dir name)
            ≡ if_id (λ regid. get_fileid regid no_objectid (deref st link).base_node_id) id)
  unfolding match_child
  match_child-class io v dir name link named plain c m l =
      let snode : Snode = deref st dir.structure_node in
      let d = dir_only snode c in
      (
        rw (d.0, d.1, m, c, plain.0, plain.1) (listed-children name dt_lnk _ _),
        rw (m, d.1, c, named snode.instance_no snode.flags.whole_only name)
            (linked io link snode.children _ l),
      )
