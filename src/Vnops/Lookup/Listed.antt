-- ===== src/Vnops/Lookup/Listed.antt =====
-- What a directory of kext/sysfs_vnops.c lists under a name, list by list.
use m_sl_sys_fs.Base.{
  ℕ, ◌≡◌, refl, Bool, true, false, ◌&&◌, Option, none, some, List, [], ◌∷◌, ◌++◌, Bytes, codes,
  if◌then◌else◌, str_eq, str_eq→eq, arith, map, ap, ◌∙◌,
}
use m_sl_sys_fs.Types.{SfsType, sfs_root, sfs_dirthis, sfs_dirparent, sfs_device, sfs_module, Snode}
use m_sl_sys_fs.Subr.{get_fileid}
use m_sl_sys_fs.Structure.{Structure, deref}
use m_sl_sys_fs.Iokit.{Iokit, ModuleInfo}
use m_sl_sys_fs.Vnops.Dirent.{Entry}
use m_sl_sys_fs.Vnops.Readdir.{is_sfs_dir, is_module_dir}
use m_sl_sys_fs.Vnops.Readdir.Ops.{is_sfs_device, is_sfs_module, dot_entries, attr_entries}
use m_sl_sys_fs.Vnops.Readdir.Dirs.{named_entry, mod_entry}
use m_sl_sys_fs.Vnops.Readdir.Pages.{View}
use m_sl_sys_fs.Vnops.Lookup.{Match, attr_named, or_else}

-- The file id of what a name leads to, and that of the first entry of a name.
abbrev pub match_fileid : Option Match → Option ℕ
match_fileid none = none
match_fileid (some (p, id)) = some (get_fileid id.regid id.objectid id.base_id)

abbrev pub listed_fileid : Bytes → List Entry → Option ℕ
listed_fileid name [] = none
listed_fileid name (e ∷ es) = if str_eq name e.name then some e.ino else listed_fileid name es

-- The first of a list of pairs with a name, and the first module with a name.
abbrev pub id_named : Bytes → List (Bytes × ℕ) → Option ℕ
id_named name [] = none
id_named name ((n, id) ∷ xs) = if str_eq name n then some id else id_named name xs

abbrev pub info_named : Bytes → List ModuleInfo → Option ModuleInfo
info_named name [] = none
info_named name (mi ∷ xs) = if str_eq name mi.name then some mi else info_named name xs

-- The queries by name answer with the first of the lists of `v` that has the name.
pub record Names (io : Iokit) (v : View) : Type 0 where
  pub child : (id : ℕ) (name : Bytes) → io.child_named id name ≡ id_named name (v.children id)
  pub module_ : (name : Bytes) → io.module_named name ≡ info_named name v.modules

-- A name that is not treated before the children are looked at.
abbrev pub IsPlain : Bytes → Type 0
IsPlain name = (str_eq name (codes ".") ≡ false) × (str_eq name (codes "..") ≡ false)

-- The children of a static directory: "." and ".." are named so, and the root is no child.
abbrev pub is_child : SfsType → Bytes → Bool
is_child sfs_root name = false
is_child sfs_dirthis name = str_eq name (codes ".")
is_child sfs_dirparent name = str_eq name (codes "..")
is_child _ name = true

abbrev pub AreChildren : Structure → List ℕ → Type 0
AreChildren st [] = Unit
AreChildren st (p ∷ ps) =
    (is_child (deref st p).node_type (deref st p).name ≡ true) × AreChildren st ps

abbrev pub or_none : Option ℕ → Option ℕ → Option ℕ
or_none none b = b
or_none (some a) b = some a

pub listed-append :
    (name : Bytes) (es fs : List Entry)
    → listed_fileid name (es ++ fs) ≡ or_none (listed_fileid name es) (listed_fileid name fs)
listed-append name [] fs = refl
listed-append name (e ∷ es) fs = ground (arith, listed-append name es fs)

pub match-or_else :
    (a b : Option Match) → match_fileid (or_else a b) ≡ or_none (match_fileid a) (match_fileid b)
match-or_else none b = refl
match-or_else (some a) b = refl

abbrev pub if_id : (ℕ → ℕ) → Option ℕ → Option ℕ
if_id ino none = none
if_id ino (some id) = some (ino id)

pub listed-children :
    (name : Bytes) (dtype : ℕ) (ino : ℕ → ℕ) (xs : List (Bytes × ℕ))
    → listed_fileid name (map (named_entry dtype ino) xs) ≡ if_id ino (id_named name xs)
listed-children name dtype ino [] = refl
listed-children name dtype ino ((n, id) ∷ xs) = ground (arith, listed-children name dtype ino xs)

pub listed-attrs :
    (name : Bytes) (regid base : ℕ) (xs : List (Bytes × ℕ))
    → listed_fileid name (attr_entries regid base xs)
      ≡ if_id (λ objid. get_fileid regid objid base) (attr_named xs name)
unfolding attr_named
listed-attrs name regid base [] = refl
listed-attrs name regid base ((n, id) ∷ xs) = ground (arith, listed-attrs name regid base xs)

pub listed-dots :
    (name : Bytes) (self : ℕ) (es : List Entry)
    → IsPlain name
    → listed_fileid name (dot_entries self ++ es) ≡ listed_fileid name es
listed-dots name self es plain = rw (plain.0, plain.1) refl

abbrev pub info_fileid : ℕ → Option ModuleInfo → Option ℕ
info_fileid base none = none
info_fileid base (some mi) = some (get_fileid mi.load_tag 0 base)

pub listed-modules :
    (name : Bytes) (base : ℕ) (xs : List ModuleInfo)
    → listed_fileid name (map (mod_entry base) xs) ≡ info_fileid base (info_named name xs)
listed-modules name base [] = refl
listed-modules name base (mi ∷ xs) = ground (arith, listed-modules name base xs)

pub other : (name n m : Bytes) → str_eq n m ≡ true → str_eq name m ≡ false → str_eq name n ≡ false
other name n m e ne = ap (str_eq name) (str_eq→eq n m e) ∙ ne

pub no_device : (t : SfsType) → is_sfs_module t ≡ true → is_sfs_device t ≡ false
no_device sfs_module e = refl
no_device sfs_device e = ground (arith, e)
no_device t e = refl

pub no_sfs_dir : (b : Bool) (t : SfsType) → (b && is_sfs_dir t) ≡ true → is_sfs_device t ≡ false
no_sfs_dir b sfs_device e = ground (arith, e)
no_sfs_dir b t e = refl

pub module_no_device : (x : Snode) → is_module_dir x ≡ true → is_sfs_device x.node_type ≡ false
unfolding is_module_dir
module_no_device x e = no_sfs_dir x.flags.modules x.node_type e
