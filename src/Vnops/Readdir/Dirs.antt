-- ===== src/Vnops/Readdir/Dirs.antt =====
-- The four readdirs of kext/sysfs_vnops.c, each as one loop over the entries of its directory.
use m_sl_sys_fs.Base.{
  ℕ, zero, suc, ◌+◌, ◌<◌, ◌≡◌, refl, Bool, true, false, Option, none, some, List, [], ◌∷◌, ◌++◌,
  Bytes, map, arith, leb, ◌==◌, if◌then◌else◌, get_elem?, ◌||◌, not, ap, sym, ◌∙◌,
}
use m_sl_sys_fs.Types.{Sfsnode, Snode, no_regid, no_objectid}
use m_sl_sys_fs.Subr.{get_fileid, get_node_fileid}
use m_sl_sys_fs.Structure.{Structure, deref, child_nodes}
use m_sl_sys_fs.Iokit.{Iokit, ModuleInfo}
use m_sl_sys_fs.Uio.{UioOf, Uiomove, MovesRecords}
use m_sl_sys_fs.Vnops.Dirent.{Entry, Dirent, Cursor, dt_dir, dt_lnk}
use m_sl_sys_fs.Vnops.Readdir.{
  start_cursor, finish, emit, is_module_dir, emit_queries, dev_attrs, mod_attrs,
}
use m_sl_sys_fs.Vnops.Readdir.Ops.{
  static_readdir, devices_readdir, class_readdir, module_readdir, static_entries, is_sfs_module,
  first_of_type, dot_entries, attr_entries, device_static_entries, with_type, module_entry,
  query_fuel,
}
use m_sl_sys_fs.Vnops.Readdir.Phases.{saw_end, emit_queries-emit}
use m_sl_sys_fs.Vnops.Readdir.Whole.{close, all_done, IsCareful, Continues, emit-then, dots-then}

-- A query that answers for the members of a list, by position, and for nothing behind them.
abbrev pub Answers {ℓ} : {A : Type ℓ} → (ℕ → Option A) → List A → Type ℓ
Answers at xs = (k : ℕ) → at k ≡ get_elem? xs k

pub saw_end-IsCareful : IsCareful saw_end
saw_end-IsCareful r e = rw e refl

pub all_done-IsCareful : IsCareful all_done
all_done-IsCareful (c, []) e = sym e
all_done-IsCareful (c, x ∷ xs) e = refl

abbrev pub named_entry : ℕ → (ℕ → ℕ) → Bytes × ℕ → Entry
named_entry dtype ino (name, id) = record { dtype = dtype; ino = ino id; name = name }

abbrev pub mod_entry : ℕ → ModuleInfo → Entry
mod_entry base mi = record { dtype = dt_dir; ino = get_fileid mi.load_tag 0 base; name = mi.name }

from_zero :
    (at : ℕ → Option Entry) (es : List Entry)
    → Answers at es
    → (k : ℕ) → at (0 + k) ≡ get_elem? es k
from_zero at es answers k = let z : 0 + k ≡ k = omega arith in ap at z ∙ answers k

named :
    (dtype : ℕ) (ino : ℕ → ℕ) (xs : List (Bytes × ℕ))
    → Answers (λ i. with_type dtype ino (get_elem? xs i)) (map (named_entry dtype ino) xs)
named dtype ino [] k = refl
named dtype ino ((name, id) ∷ xs) zero = refl
named dtype ino ((name, id) ∷ xs) (suc k) = named dtype ino xs k

of_modules :
    (base : ℕ) (xs : List ModuleInfo)
    → Answers (λ i. module_entry base (get_elem? xs i)) (map (mod_entry base) xs)
of_modules base [] k = refl
of_modules base (x ∷ xs) zero = refl
of_modules base (x ∷ xs) (suc k) = of_modules base xs k

-- The entries of a directory of the registry, or of /sys/devices: "." and "..", the attributes of a
-- device, the static children of /sys/devices, and the children in the registry.
abbrev pub devices_entries : Structure → Sfsnode → List (Bytes × ℕ) → List Entry
devices_entries st dir children =
    let snode = deref st dir.structure_node in
    let regid = dir.node_id.regid in
    let base = snode.base_node_id in
    let attrs : List Entry = if regid == no_regid then [] else attr_entries regid base dev_attrs in
    let statics : List Entry =
      if regid == no_regid then device_static_entries (child_nodes st snode.children) else [] in
    dot_entries (get_node_fileid dir.node_id base)
    ++ (attrs ++ (statics ++ map (named_entry dt_dir (λ id. get_fileid id 0 base)) children))

-- The entries of a class directory, and those of /sys/module and of one module.
abbrev pub class_entries : Structure → Sfsnode → List (Bytes × ℕ) → List Entry
class_entries st dir members =
    let base = (deref st dir.structure_node).base_node_id in
    dot_entries (get_node_fileid dir.node_id base)
    ++ map (named_entry dt_lnk (λ id. get_fileid id no_objectid base)) members

abbrev pub modules_entries : Structure → Sfsnode → Option Snode → List ModuleInfo → List Entry
modules_entries st dir none modules =
    dot_entries (get_node_fileid dir.node_id (deref st dir.structure_node).base_node_id)
modules_entries st dir (some marker) modules =
    dot_entries (get_node_fileid dir.node_id (deref st dir.structure_node).base_node_id)
    ++ map (mod_entry marker.base_node_id) modules

abbrev pub mod_entries : Structure → Sfsnode → List Entry
mod_entries st dir =
    let base = (deref st dir.structure_node).base_node_id in
    dot_entries (get_node_fileid dir.node_id base) ++ attr_entries dir.node_id.regid base mod_attrs

-- /sys/module: with the marker the modules, without it the dots alone.
unfoldable pub modules_eof : Option Snode → Cursor × List Entry → Bool
modules_eof none = all_done
modules_eof (some marker) = saw_end

module _ (move : Uiomove Dirent) (moves : MovesRecords move) where
  queries-Continues :
      (uio : UioOf Dirent) (at : ℕ → Option Entry) (es : List Entry)
      → Answers at es
      → Continues move moves uio.offset uio.resid
          (λ c.
            finish
              (emit_queries move uio.offset (query_fuel uio) at 0 c).0
              (emit_queries move uio.offset (query_fuel uio) at 0 c).1)
          es
          saw_end
  queries-Continues uio at es answers c r le =
      ap (λ q. finish q.0 q.1)
        (emit_queries-emit move moves uio.offset (query_fuel uio) at 0 es c
          (from_zero at es answers) (omega arith) r)

  ready : (uio : UioOf Dirent) → 0 < uio.resid → (leb uio.offset 0 || not (uio.resid == 0)) ≡ true
  ready uio h = ground arith

  pub devices_readdir-emit :
      (io : Iokit) (st : Structure) (dir : Sfsnode) (uio : UioOf Dirent)
      (children : List (Bytes × ℕ))
      → Answers (io.child_at dir.node_id.regid) children
      → 0 < uio.resid
      → devices_readdir move io st dir uio
        ≡ close saw_end (emit move uio.offset (devices_entries st dir children) (start_cursor uio))
  unfolding devices_readdir
  devices_readdir-emit io st dir uio children answers h =
      let snode : Snode = deref st dir.structure_node in
      let regid = dir.node_id.regid in
      let ino : ℕ → ℕ = λ id. get_fileid id 0 snode.base_node_id in
      let attrs : List Entry =
        if regid == no_regid then [] else attr_entries regid snode.base_node_id dev_attrs in
      let statics : List Entry =
        if regid == no_regid then device_static_entries (child_nodes st snode.children) else [] in
      dots-then move moves uio.offset uio.resid _ _ _ saw_end saw_end-IsCareful
        (emit-then move moves uio.offset uio.resid attrs _ _ (
          emit-then move moves uio.offset uio.resid statics _ _ (
            queries-Continues uio _ (map (named_entry dt_dir ino) children)
              (λ k. ap (with_type dt_dir ino) (answers k) ∙ named dt_dir ino children k))))
        (start_cursor uio) (record { no_error = refl; going = refl }) (omega arith) (ready uio h)

  pub class_readdir-emit :
      (io : Iokit) (st : Structure) (dir : Sfsnode) (uio : UioOf Dirent)
      (members : List (Bytes × ℕ))
      → Answers
          (io.class_child_at
            (deref st dir.structure_node).instance_no
            (deref st dir.structure_node).flags.whole_only)
          members
      → 0 < uio.resid
      → class_readdir move io st dir uio
        ≡ close saw_end (emit move uio.offset (class_entries st dir members) (start_cursor uio))
  unfolding class_readdir
  class_readdir-emit io st dir uio members answers h =
      let ino : ℕ → ℕ =
        λ id. get_fileid id no_objectid (deref st dir.structure_node).base_node_id in
      dots-then move moves uio.offset uio.resid _ _ _ saw_end saw_end-IsCareful
        (queries-Continues uio _ (map (named_entry dt_lnk ino) members)
          (λ k. ap (with_type dt_lnk ino) (answers k) ∙ named dt_lnk ino members k))
        (start_cursor uio) (record { no_error = refl; going = refl }) (omega arith) (ready uio h)

  pub static_readdir-emit :
      (io : Iokit) (st : Structure) (dir : Sfsnode) (uio : UioOf Dirent)
      → static_readdir move io st dir uio
        ≡ close all_done (
            emit move uio.offset
              (static_entries st dir (child_nodes st (deref st dir.structure_node).children))
              (start_cursor uio))
  unfolding static_readdir
  static_readdir-emit io st dir uio = refl

  modules_one :
      (io : Iokit) (st : Structure) (dir : Sfsnode) (uio : UioOf Dirent) (modules : List ModuleInfo)
      → Answers io.module_at modules
      → 0 < uio.resid
      → is_module_dir (deref st dir.structure_node) ≡ true
      → (marker : Option Snode)
      → first_of_type is_sfs_module (child_nodes st (deref st dir.structure_node).children) ≡ marker
      → module_readdir move io st dir uio
        ≡ close
            (modules_eof marker)
            (emit move uio.offset (modules_entries st dir marker modules) (start_cursor uio))
  unfolding module_readdir modules_eof
  modules_one io st dir uio modules answers h d none m =
      rw (d, m)
        (dots-then move moves uio.offset uio.resid _ [] (λ c. finish c true) all_done
          all_done-IsCareful (λ c r le. unfold emit in refl) (start_cursor uio)
          (record { no_error = refl; going = refl }) (omega arith) (ready uio h))
  modules_one io st dir uio modules answers h d (some marker) m =
      let base = marker.base_node_id in
      rw (d, m)
        (dots-then move moves uio.offset uio.resid _ _ _ saw_end saw_end-IsCareful
          (queries-Continues uio _ (map (mod_entry base) modules)
            (λ k. ap (module_entry base) (answers k) ∙ of_modules base modules k))
          (start_cursor uio) (record { no_error = refl; going = refl }) (omega arith) (ready uio h))

  pub module_readdir-emit :
      (io : Iokit) (st : Structure) (dir : Sfsnode) (uio : UioOf Dirent) (modules : List ModuleInfo)
      → Answers io.module_at modules
      → 0 < uio.resid
      → is_module_dir (deref st dir.structure_node) ≡ true
      → let marker =
          first_of_type is_sfs_module (child_nodes st (deref st dir.structure_node).children) in
        module_readdir move io st dir uio
        ≡ close
            (modules_eof marker)
            (emit move uio.offset (modules_entries st dir marker modules) (start_cursor uio))
  module_readdir-emit io st dir uio modules answers h d =
      modules_one io st dir uio modules answers h d _ refl

  pub mod_readdir-emit :
      (io : Iokit) (st : Structure) (dir : Sfsnode) (uio : UioOf Dirent)
      → 0 < uio.resid
      → is_module_dir (deref st dir.structure_node) ≡ false
      → module_readdir move io st dir uio
        ≡ close all_done (emit move uio.offset (mod_entries st dir) (start_cursor uio))
  unfolding module_readdir
  mod_readdir-emit io st dir uio h d = rw d (
      dots-then move moves uio.offset uio.resid _ _ _ all_done all_done-IsCareful (λ c r le. refl)
        (start_cursor uio) (record { no_error = refl; going = refl }) (omega arith) (ready uio h))
