-- ===== src/Vnops/Lookup/Agree.antt =====
-- Lookup and readdir of kext/sysfs_vnops.c name the same files.
use m_sl_sys_fs.Base.{
  ℕ, ◌≡◌, refl, Bool, true, false, Option, none, some, List, [], ◌∷◌, Bytes, ◌==◌, str_eq, arith,
  map, ap, sym, ◌∙◌, inl, inr, Bool-cases,
}
use m_sl_sys_fs.Types.{
  SfsType, sfs_root, sfs_dirthis, sfs_dirparent, Snode, Sfsnode, no_regid, no_objectid,
}
use m_sl_sys_fs.Subr.{get_fileid}
use m_sl_sys_fs.Structure.{Structure, deref, child_nodes}
use m_sl_sys_fs.Iokit.{Iokit, ModuleInfo}
use m_sl_sys_fs.Vnops.Dirent.{Entry, dt_dir}
use m_sl_sys_fs.Vnops.Readdir.{is_class_dir, is_module_dir, dev_attrs, mod_attrs}
use m_sl_sys_fs.Vnops.Readdir.Ops.{
  is_sfs_device, is_sfs_module, static_entry, static_entries, attr_entries, device_static_entries,
  first_of_type,
}
use m_sl_sys_fs.Vnops.Readdir.Dirs.{named_entry, devices_entries, modules_entries}
use m_sl_sys_fs.Vnops.Readdir.Pages.{View, entries}
use m_sl_sys_fs.Vnops.Lookup.{
  Match, match_child, match_module, match_device, first_child, child_match, attr_named, with_objid,
  with_regid,
}
use m_sl_sys_fs.Vnops.Lookup.Listed.{
  match_fileid, listed_fileid, info_named, Names, IsPlain, is_child, AreChildren, or_none,
  listed-append, match-or_else, if_id, listed-children, listed-attrs, info_fileid, listed-modules,
  other, no_device, module_no_device,
}

module _ (st : Structure) where
  fileid-objid :
      (p regid : ℕ) (o : Option ℕ)
      → match_fileid (with_objid st p regid o)
        ≡ if_id (λ objid. get_fileid regid objid (deref st p).base_node_id) o
  fileid-objid p regid none = refl
  fileid-objid p regid (some objid) = refl

  fileid-regid :
      (p objid : ℕ) (o : Option ℕ)
      → match_fileid (with_regid st p objid o)
        ≡ if_id (λ regid. get_fileid regid objid (deref st p).base_node_id) o
  fileid-regid p objid none = refl
  fileid-regid p objid (some regid) = refl

  -- The static children of /sys/devices.
  listed-statics :
      (name : Bytes) (ps : List ℕ)
      → listed_fileid name (device_static_entries (child_nodes st ps))
        ≡ match_fileid
            (child_match st no_regid no_objectid (first_child st (λ x. str_eq name x.name) ps))
  unfolding first_child
  listed-statics name [] = refl
  listed-statics name (p ∷ ps) = elim (Bool-cases (str_eq name (deref st p).name)) [
    | inl e ↦ rw (e) refl
    | inr e ↦ rw (e) (listed-statics name ps)
  ]

  entry-plain :
      (dir : Sfsnode) (x : Snode) (name : Bytes) (t : SfsType) (es : List Entry)
      → IsPlain name
      → is_child t x.name ≡ true
      → (str_eq name x.name ≡ true
          → listed_fileid name (elim (static_entry st dir x t) [ none ↦ es | some e ↦ e ∷ es ])
            ≡ some (get_fileid dir.node_id.regid dir.node_id.objectid x.base_node_id))
        × (str_eq name x.name ≡ false
            → listed_fileid name (elim (static_entry st dir x t) [ none ↦ es | some e ↦ e ∷ es ])
              ≡ listed_fileid name es)
  unfolding static_entry
  entry-plain dir x name sfs_root es plain h = ground (arith, h)
  entry-plain dir x name sfs_dirthis es plain h =
      let n = other name x.name _ h plain.0 in ((λ e. ground (arith, n)), (λ e. rw e refl))
  entry-plain dir x name sfs_dirparent es plain h =
      let n = other name x.name _ h plain.1 in ((λ e. ground (arith, n)), (λ e. rw e refl))
  entry-plain dir x name t es plain h = ((λ e. rw e refl), (λ e. rw e refl))

  -- The children of a static directory.
  listed-static :
      (dir : Sfsnode) (name : Bytes) (ps : List ℕ)
      → IsPlain name
      → AreChildren st ps
      → listed_fileid name (static_entries st dir (child_nodes st ps))
        ≡ match_fileid (
            child_match st dir.node_id.regid dir.node_id.objectid
              (first_child st (λ x. str_eq name x.name) ps))
  unfolding first_child static_entries
  listed-static dir name [] plain h = refl
  listed-static dir name (p ∷ ps) plain h =
      let x : Snode = deref st p in
      let rest : List Entry = static_entries st dir (child_nodes st ps) in
      let step = entry-plain dir x name x.node_type rest plain h.0 in
      elim (Bool-cases (str_eq name x.name)) [
        | inl e ↦ step.0 e ∙ rw e refl
        | inr e ↦ step.1 e ∙ listed-static dir name ps plain h.1 ∙ rw e refl
      ]

  -- /sys/devices and below.
  listed-device :
      (io : Iokit) (v : View) (dir : Sfsnode) (name : Bytes)
      → Names io v
      → IsPlain name
      → dir.node_id.objectid ≡ 0
      → listed_fileid name (devices_entries st dir (v.children dir.node_id.regid))
        ≡ match_fileid (match_device io st dir name)
  unfolding match_device
  listed-device io v dir name names plain o =
      let p = dir.structure_node in
      let regid = dir.node_id.regid in
      let base = (deref st p).base_node_id in
      let ino : ℕ → ℕ = λ id. get_fileid id 0 base in
      let kids : List Entry = map (named_entry dt_dir ino) (v.children regid) in
      let child : listed_fileid name kids
          ≡ match_fileid (with_regid st p 0 (io.child_named regid name)) =
        listed-children name dt_dir ino (v.children regid)
        ∙ ap (if_id ino) (sym (names.child regid name))
        ∙ sym (fileid-regid p 0 (io.child_named regid name)) in
      elim (Bool-cases (regid == no_regid)) [
        | inl z ↦
            rw (plain.0, plain.1, z, o)
              (listed-append name (device_static_entries (child_nodes st (deref st p).children))
                  kids
                ∙ ap (λ a. or_none a (listed_fileid name kids))
                    (listed-statics name (deref st p).children)
                ∙ ap (or_none _) child
                ∙ sym (match-or_else _ _))
        | inr z ↦
            rw (plain.0, plain.1, z)
              (listed-append name (attr_entries regid base dev_attrs) kids
                ∙ ap (λ a. or_none a (listed_fileid name kids))
                    (listed-attrs name regid base dev_attrs
                      ∙ sym (fileid-objid p regid (attr_named dev_attrs name)))
                ∙ ap (or_none _) child
                ∙ sym (match-or_else _ _))
      ]

  abbrev read_child : Option ℕ → Option Snode
  read_child none = none
  read_child (some p) = some (deref st p)

  first-marker :
      (test : SfsType → Bool) (ps : List ℕ)
      → first_of_type test (child_nodes st ps)
        ≡ read_child (first_child st (λ x. test x.node_type) ps)
  unfolding first_of_type first_child
  first-marker test [] = refl
  first-marker test (p ∷ ps) = elim (Bool-cases (test (deref st p).node_type)) [
    | inl e ↦ rw e refl
    | inr e ↦ rw e (first-marker test ps)
  ]

  abbrev through : Option ℕ → Option ModuleInfo → Option Match
  through marker none = none
  through marker (some mi) = child_match st mi.load_tag 0 marker

  through-none : (o : Option ModuleInfo) → match_fileid (through none o) ≡ none
  through-none none = refl
  through-none (some mi) = refl

  through-some :
      (p : ℕ) (o : Option ModuleInfo)
      → info_fileid (deref st p).base_node_id o ≡ match_fileid (through (some p) o)
  through-some p none = refl
  through-some p (some mi) = refl

  match-through :
      (io : Iokit) (children : List ℕ) (o : Option ModuleInfo)
      → match_module io st children o
        ≡ through (first_child st (λ x. is_sfs_module x.node_type) children) o
  unfolding match_module
  match-through io children none = refl
  match-through io children (some mi) = refl

  -- /sys/module.
  module-marker :
      (dir : Sfsnode) (name : Bytes) (modules : List ModuleInfo) (marker : Option ℕ)
      → IsPlain name
      → listed_fileid name (modules_entries st dir (read_child marker) modules)
        ≡ match_fileid (through marker (info_named name modules))
  module-marker dir name modules none plain = rw (plain.0, plain.1) (sym (through-none _))
  module-marker dir name modules (some p) plain =
      rw (plain.0, plain.1)
        (listed-modules name (deref st p).base_node_id modules
          ∙ through-some p (info_named name modules))

  listed-container :
      (io : Iokit) (v : View) (dir : Sfsnode) (name : Bytes)
      → Names io v
      → IsPlain name
      → let children = (deref st dir.structure_node).children in
        listed_fileid name
          (modules_entries st dir (first_of_type is_sfs_module (child_nodes st children)) v.modules)
        ≡ match_fileid (match_module io st children (io.module_named name))
  listed-container io v dir name names plain =
      let children = (deref st dir.structure_node).children in
      let marker : Option ℕ = first_child st (λ x. is_sfs_module x.node_type) children in
      ap (λ m. listed_fileid name (modules_entries st dir m v.modules))
        (first-marker is_sfs_module children)
      ∙ module-marker dir name v.modules marker plain
      ∙ ap (λ o. match_fileid (through marker o)) (sym (names.module_ name))
      ∙ ap match_fileid (sym (match-through io children (io.module_named name)))

  -- A directory of /sys that is no class directory lists, for each name but "." and "..", exactly the
  -- file that the name leads to: no entry if there is none, and else its file id.
  pub match_child-entries :
      (io : Iokit) (v : View) (dir : Sfsnode) (name : Bytes)
      → Names io v
      → IsPlain name
      → dir.node_id.objectid ≡ 0
      → AreChildren st (deref st dir.structure_node).children
      → is_class_dir (deref st dir.structure_node) ≡ false
      → listed_fileid name (entries v st dir) ≡ match_fileid (match_child io st dir name)
  unfolding match_child
  match_child-entries io v dir name names plain o kids c =
      let p = dir.structure_node in
      let snode : Snode = deref st p in
      elim (Bool-cases (is_module_dir snode)) [
        | inl m ↦ rw (m, module_no_device snode m) (listed-container io v dir name names plain)
        | inr m ↦ elim (Bool-cases (is_sfs_module snode.node_type)) [
          | inl k ↦
              rw (m, k, o, no_device snode.node_type k, plain.0, plain.1)
                (listed-attrs name dir.node_id.regid snode.base_node_id mod_attrs
                  ∙ sym (fileid-objid p dir.node_id.regid (attr_named mod_attrs name)))
          | inr k ↦ elim (Bool-cases (is_sfs_device snode.node_type)) [
            | inl d ↦ rw (m, k, d, c) (listed-device io v dir name names plain o)
            | inr d ↦ rw (m, k, d, c) (listed-static dir name snode.children plain kids)
          ]
        ]
      ]
