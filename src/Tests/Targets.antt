-- ===== src/Tests/Targets.antt =====
-- The target of a class link in the layout of a machine that reports no CPU.
use m_sl_sys_fs.Base.{◌<◌, ◌≡◌, refl, true, some, ◌++◌, codes, length, arith}
use m_sl_sys_fs.Types.{Sfsnode}
use m_sl_sys_fs.Structure.{
  Structure, empty, deref, add_directory, add_node, directory, fresh_node_id, node, set_instance,
  file, add_file,
}
use m_sl_sys_fs.Structure.Init.{
  structure_init, init_unless, init_root, init_tree, init_classes, class_table, class_directory,
  class_content, init_rest, init_last, init_kernel_mm, mm_hugepages, mm_pool, mm_pool_files,
  hugepage_files, init_module, module_marker, init_devices, devices_content, system_content,
  init_cpu_dir, cpu_sets, init_cpus, cpu_content, cpu_file, cpu_topology, cpu_topology_dir,
  dev_views, init_cpu, init_dev, init_numa, node0_content, node0_hugepages, node0_pool,
  node_content,
}
use m_sl_sys_fs.Structure.Links.Whole.{IsVacant}
use m_sl_sys_fs.Vnops.Readdir.Ops.{is_sfs_link}
use m_sl_sys_fs.Vnops.Attr.{link_target, link_target_max, climb}
use m_sl_sys_fs.Vnops.Attr.Depth.{follow, link_target-follow}
use m_sl_sys_fs.Tests.Fixture.{registry, node_for}

vacant : IsVacant empty
vacant = record { rootless = refl; vacant = λ n. refl; small = omega arith }

abbrev built : Structure
built = structure_init 0 empty

-- The member of class/net
abbrev net_link : Sfsnode
net_link = node_for 16 (record { regid = 9; objectid = 0; base_id = 18 })

net_link_found :
    (built.cell 16 ≡ some (deref built 16)) × (is_sfs_link (deref built 16).node_type ≡ true)
unfolding structure_init init_unless init_root init_tree init_classes class_table class_directory
    class_content add_directory add_node directory fresh_node_id node set_instance file add_file
    init_rest init_last init_kernel_mm mm_hugepages mm_pool mm_pool_files hugepage_files init_module
    module_marker init_devices devices_content system_content init_cpu_dir cpu_sets init_cpus
    cpu_content cpu_file cpu_topology cpu_topology_dir dev_views init_cpu init_dev init_numa
    node0_content node0_hugepages node0_pool node_content
net_link_found = (refl, refl)

net_link_target : 0 < length (link_target registry built net_link)
unfolding link_target climb structure_init init_unless init_root init_tree init_classes class_table
    class_directory class_content add_directory add_node directory fresh_node_id node set_instance
    file add_file init_rest init_last init_kernel_mm mm_hugepages mm_pool mm_pool_files
    hugepage_files init_module module_marker init_devices devices_content system_content
    init_cpu_dir cpu_sets init_cpus cpu_content cpu_file cpu_topology cpu_topology_dir dev_views
    init_cpu init_dev init_numa node0_content node0_hugepages node0_pool node_content
net_link_target = omega arith

link_target-follow_example :
    follow built (link_target registry built net_link) (deref built 16).parent
    ≡ (built.root_node, codes "devices/" ++ registry.path_of 9 link_target_max)
link_target-follow_example =
    link_target-follow empty vacant 0 registry net_link (deref built 16) net_link_found.0
      net_link_found.1 net_link_target
