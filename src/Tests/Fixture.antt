-- ===== src/Tests/Fixture.antt =====
-- A small registry and a small layout.
use m_sl_sys_fs.Base.{
  ℕ, refl, Bool, false, Option, none, some, List, [], ◌∷◌, Bytes, codes, ◌==◌, if◌then◌else◌,
  get_elem?, take,
}
use m_sl_sys_fs.Types.{
  SfsType, sfs_root, sfs_dir, sfs_dirthis, sfs_dirparent, sfs_link, sfs_device, sfs_module, Snode,
  Sfsnode, SfsId, SsnFlags, no_flags, flag_dynamic, flag_modules, flag_whole, root_node_id,
}
use m_sl_sys_fs.Structure.{Structure}
use m_sl_sys_fs.Iokit.{Iokit, ModuleInfo}
use m_sl_sys_fs.Vnops.Readdir.Pages.{View, Shows}
use m_sl_sys_fs.Vnops.Lookup.Listed.{id_named, info_named, Names}

abbrev pub disk_children : List (Bytes × ℕ)
disk_children = (codes "disk0", 9) ∷ (codes "disk1", 10) ∷ []

abbrev pub block_members : List (Bytes × ℕ)
block_members = (codes "disk0", 9) ∷ []

abbrev pub kext_info : ModuleInfo
kext_info = record {
  load_tag = 3;
  load_size = 4096;
  refcnt = 1;
  name = codes "sysfs";
  version = codes "1.0";
}

-- Entry 7 has two children, class 2 has one member, and one module is loaded.
abbrev pub children_of : ℕ → List (Bytes × ℕ)
children_of id = if id == 7 then disk_children else []

abbrev pub members_of : ℕ → Bool → List (Bytes × ℕ)
members_of class whole = if class == 2 then block_members else []

abbrev pub module_list : List ModuleInfo
module_list = kext_info ∷ []

abbrev pub view : View
view = record { children = children_of; members = members_of; modules = module_list }

abbrev pub tag_info : ℕ → Option ModuleInfo
tag_info tag = if tag == 3 then some kext_info else none

abbrev pub registry : Iokit
registry = record {
  child_at = λ id i. get_elem? (children_of id) i;
  child_named = λ id name. id_named name (children_of id);
  parent_of = λ id. if id == 7 then some 0 else none;
  name_of = λ id len. take len (codes "AppleDisk");
  class_child_at = λ class whole i. get_elem? (members_of class whole) i;
  class_child_named = λ class whole name. id_named name (members_of class whole);
  path_of = λ id len. take len (codes "bus0/disk0");
  module_at = λ i. get_elem? module_list i;
  module_named = λ name. info_named name module_list;
  module_by_tag = tag_info;
}

pub view-Shows : Shows registry view
view-Shows = record { child = λ id k. refl; member = λ c w k. refl; module_ = λ k. refl }

pub view-Names : Names registry view
view-Names = record { child = λ id name. refl; module_ = λ name. refl }

abbrev pub plain_node : SfsType → Bytes → ℕ → SsnFlags → ℕ → Option ℕ → List ℕ → Snode
plain_node t name base flags instance parent children = record {
  node_type = t;
  name = name;
  base_node_id = base;
  flags = flags;
  instance_no = instance;
  parent = parent;
  children = children;
  node_size = 0;
  getsize_fn = none;
  read_data_fn = none;
}

-- /: "." and "..", "devices", a class directory "block" with its link node, and "module" with its
-- marker.
abbrev pub cells : List Snode
cells =
    plain_node sfs_root (codes "/") 1 no_flags 0 none (1 ∷ 2 ∷ 3 ∷ 4 ∷ 6 ∷ [])
    ∷ plain_node sfs_dirthis (codes ".") 2 no_flags 0 (some 0) []
    ∷ plain_node sfs_dirparent (codes "..") 3 no_flags 0 (some 0) []
    ∷ plain_node sfs_device (codes "devices") 4 flag_dynamic 0 (some 0) []
    ∷ plain_node sfs_dir (codes "block") 5 flag_whole 2 (some 0) (5 ∷ [])
    ∷ plain_node sfs_link (codes "") 6 flag_whole 2 (some 4) []
    ∷ plain_node sfs_dir (codes "module") 7 flag_modules 0 (some 0) (7 ∷ [])
    ∷ plain_node sfs_module (codes "") 8 flag_modules 0 (some 6) []
    ∷ []

abbrev pub layout : Structure
layout = record { cell = get_elem? cells; next = 8; next_node_id = 9; root_node = some 0 }

abbrev pub node_for : ℕ → SfsId → Sfsnode
node_for p id = record {
  addr = 100;
  vnode = some 1;
  attaching_vnode = false;
  thread_waiting_attach = false;
  mnt_id = 1;
  node_id = id;
  structure_node = p;
}

abbrev pub root_dir : Sfsnode
root_dir = node_for 0 root_node_id

abbrev pub disk_dir : Sfsnode
disk_dir = node_for 3 (record { regid = 7; objectid = 0; base_id = 4 })

abbrev pub block_dir : Sfsnode
block_dir = node_for 4 (record { regid = 0; objectid = 0; base_id = 5 })
