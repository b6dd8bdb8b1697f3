-- ===== src/Tests/Attrs.antt =====
-- Attributes, content and links on the fixture.
use m_sl_sys_fs.Base.{
  ℕ, ◌≤◌, ◌<◌, ◌≡◌, ◌↔◌, refl, ◌∷◌, some, [], codes, length, drop, ◌^◌, ◌-◌, ◌+◌, ◌*◌, ◌++◌,
  to_decimal, arith, ◌==◌, if◌then◌else◌,
}
use m_sl_sys_fs.Types.{Sfsnode, eisdir, enoent}
use m_sl_sys_fs.Uio.{UioOf, move_bytes}
use m_sl_sys_fs.Subr.{atoi}
use m_sl_sys_fs.Subr.Copy.{read_all}
use m_sl_sys_fs.Subr.Decimal.{atoi-to_decimal}
use m_sl_sys_fs.System.{
  Sysctl, number, core_id, siblings_text, threads_of, ncpu, cpumap_text, cpumap_loop, group_count,
  to_hex,
}
use m_sl_sys_fs.System.Topology.{core_id-siblings, read_range}
use m_sl_sys_fs.System.CpuMap.{read_map, cpumap_text-ones, cpumap_text-length}
use m_sl_sys_fs.Vnops.Attr.{
  vnop_getattr, vnop_read, vnop_readlink, create_vnode_type, link_target_max, climb, attr_of,
  device_attr_size, module_attr_size, module_format_attr, module_text, link_target,
}
use m_sl_sys_fs.Vnops.Attr.Sizes.{
  create_vnode_type-getattr, vnop_read-directory, vnop_read-device, vnop_read-module,
}
use m_sl_sys_fs.Vnops.Attr.Links.{vnop_readlink-size}
use m_sl_sys_fs.Tests.Content.{move_bytes-MovesBytes}
use m_sl_sys_fs.Tests.Fixture.{registry, layout, node_for, disk_dir}

-- An Intel machine with four threads on two cores.
abbrev machine : Sysctl
machine = record {
  logicalcpu_max = number 4;
  physicalcpu_max = number 2;
  memsize_answer = some 8192;
  behind_buffer = 0;
}

core_id-siblings_example : (core_id machine 2 ≡ core_id machine 3) ↔ (
    ((read_range (siblings_text machine 3)).0 ≤ 2) × (2 ≤ (read_range (siblings_text machine 3)).1))
core_id-siblings_example = core_id-siblings machine 3 2 (unfold threads_of ncpu in omega arith)

cpumap_text-ones_example : read_map (cpumap_text 0 40) 0 ≡ 2 ^ 40 - 1
cpumap_text-ones_example = cpumap_text-ones 0 40 (omega arith) (omega arith)

cpumap_text-length_example :
    (length (cpumap_text 0 40) ≡ 9 * group_count 40) × (length (cpumap_text 0 40) < 512)
cpumap_text-length_example = cpumap_text-length 0 40 (omega arith) (omega arith)

-- From 57 groups on the text is cut, and one byte from behind the buffer is copied.
cut_map :
    (length (cpumap_text 7 1793) ≡ 513)
    × (drop 503 (cpumap_text 7 1793) ≡ codes ",fffffff" ++ 0 ∷ 7 ∷ [])
    × (cpumap_text 7 5000 ≡ (to_hex 8 255 ++ drop 8 (cpumap_text 7 1793)))
unfolding cpumap_text cpumap_loop to_hex
cut_map = (refl, refl, refl)

atoi-to_decimal_example : atoi (to_decimal 120 ++ codes ",x") ≡ (some 120, codes ",x")
atoi-to_decimal_example = atoi-to_decimal 120 (codes ",x") (omega arith) refl

create_vnode_type-getattr_example :
    create_vnode_type registry layout disk_dir ≡ (vnop_getattr registry layout disk_dir 1).va_type
create_vnode_type-getattr_example = create_vnode_type-getattr registry layout disk_dir 1

abbrev buffer : UioOf ℕ
buffer = record { offset = 0; resid = 1024; moved = [] }

vnop_read-directory_example :
    vnop_read registry layout machine move_bytes disk_dir buffer ≡ (eisdir, buffer)
vnop_read-directory_example =
    vnop_read-directory registry layout machine move_bytes disk_dir 1 buffer
      (unfold vnop_getattr attr_of in refl)

-- The name file of a registry entry, a file of a module, and a class link.
abbrev name_file : Sfsnode
name_file = node_for 3 (record { regid = 7; objectid = 1; base_id = 4 })

abbrev version_file : Sfsnode
version_file = node_for 7 (record { regid = 3; objectid = 4; base_id = 8 })

abbrev block_link : Sfsnode
block_link = node_for 5 (record { regid = 9; objectid = 0; base_id = 6 })

vnop_read-device_example :
    length (read_all (vnop_read registry layout machine move_bytes name_file) 4 100 0)
    ≡ (vnop_getattr registry layout name_file 1).va_data_size
unfolding vnop_getattr attr_of device_attr_size
vnop_read-device_example =
    vnop_read-device registry layout machine move_bytes move_bytes-MovesBytes name_file 1 4 100 refl
      refl (omega arith) (omega arith)

vnop_read-module_example :
    length (read_all (vnop_read registry layout machine move_bytes version_file) 4 100 0)
    ≡ (vnop_getattr registry layout version_file 1).va_data_size
unfolding vnop_getattr attr_of module_attr_size module_format_attr module_text
vnop_read-module_example =
    vnop_read-module registry layout machine move_bytes move_bytes-MovesBytes version_file 1 4 100
      refl refl refl (omega arith) (omega arith) (omega arith)

vnop_readlink-size_example :
    let size = (vnop_getattr registry layout block_link 1).va_data_size in
    let r = vnop_readlink registry layout move_bytes block_link buffer in
    (size < link_target_max)
    × (length r.1.moved ≡ length {A = ℕ} [] + size)
    × (r.0 ≡ (if size == 0 then enoent else 0))
unfolding vnop_getattr attr_of link_target climb
vnop_readlink-size_example =
    vnop_readlink-size registry layout move_bytes move_bytes-MovesBytes block_link 1 buffer refl
      (omega arith)
