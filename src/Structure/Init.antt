-- ===== src/Structure/Init.antt =====
-- `sysfs_structure_init` of kext/sysfs_structure.c: the fixed /sys skeleton, region by region.
use m_sl_sys_fs.Base.{ℕ, zero, suc, ◌+◌, Option, none, some, Bytes, codes, ◌++◌, min, to_decimal}
use m_sl_sys_fs.Types.{
  sfs_root, sfs_link, sfs_device, sfs_module, no_flags, flag_dynamic, flag_modules, flag_whole,
  root_base_id, do_zero_count, do_cpulist, do_cpumap, do_node_meminfo, do_node_distance,
  do_node_numastat, do_node_list, do_cpu_kernel_max, do_cpu_online, do_cpu_package_id,
  do_cpu_core_id, do_cpu_thread_siblings, do_cpu_core_siblings, SsnFlags, ReadFn,
}
use m_sl_sys_fs.Structure.{
  Structure, Build, ◌>>=◌, ◌>>◌, pure, add_directory, directory, node, file, set_instance,
}

abbrev pub class_none : ℕ
class_none = 0

abbrev pub class_net : ℕ
class_net = 1

abbrev pub class_block : ℕ
class_block = 2

abbrev pub class_tty : ℕ
class_tty = 3

abbrev pub class_power : ℕ
class_power = 4

-- `SYSFS_MAX_CPU_NODES`
abbrev pub max_cpu_nodes : ℕ
max_cpu_nodes = 64

-- `SYSFS_ZERO_COUNT_LEN`
abbrev pub zero_count_len : ℕ
zero_count_len = 2

-- What stands in a class directory: its class, and the marker that members are presented through.
unfoldable pub class_content : ℕ → ℕ → Build (Unit {0})
class_content class cd = do
  set_instance cd class
  node cd (codes "__member__") sfs_link flag_dynamic
  pure tt

unfoldable pub class_directory : ℕ → Bytes → ℕ → SsnFlags → Build (Unit {0})
class_directory parent name class flags = do
  cd ← directory parent name flags
  class_content class cd

-- The classes of the `sysfs_classes` table, in its order.
unfoldable pub class_table : ℕ → Build (Unit {0})
class_table class_dir = do
  class_directory class_dir (codes "net") class_net flag_dynamic
  class_directory class_dir (codes "block") class_block flag_dynamic
  class_directory class_dir (codes "tty") class_tty flag_dynamic
  class_directory class_dir (codes "power_supply") class_power flag_dynamic

unfoldable pub init_classes : ℕ → Build (Unit {0})
init_classes root = do class_dir ← directory root (codes "class") no_flags; class_table class_dir

unfoldable pub dev_views : ℕ → Build (Unit {0})
dev_views dev_dir = do
  directory dev_dir (codes "char") no_flags
  directory dev_dir (codes "block") no_flags
  pure tt

unfoldable pub init_dev : ℕ → Build (Unit {0})
init_dev root = do dev_dir ← directory root (codes "dev") no_flags; dev_views dev_dir

-- The three huge-page counters that node0 and the system-wide pool share.
unfoldable pub hugepage_files : ℕ → Build (Unit {0})
hugepage_files dir = do
  file dir (codes "nr_hugepages") zero_count_len do_zero_count
  file dir (codes "free_hugepages") zero_count_len do_zero_count
  file dir (codes "surplus_hugepages") zero_count_len do_zero_count
  pure tt

unfoldable pub node0_pool : ℕ → Build (Unit {0})
node0_pool hugepages_dir = do
  hp_2m_dir ← directory hugepages_dir (codes "hugepages-2048kB") no_flags
  hugepage_files hp_2m_dir

unfoldable pub node0_hugepages : ℕ → Build (Unit {0})
node0_hugepages node0_dir = do
  hugepages_dir ← directory node0_dir (codes "hugepages") no_flags
  node0_pool hugepages_dir

-- node0 with its attributes, and the node-set files beside it
unfoldable pub node0_content : ℕ → ℕ → Build (Unit {0})
node0_content node_dir node0_dir = do
  node0_hugepages node0_dir
  file node0_dir (codes "cpulist") 0 do_cpulist
  file node0_dir (codes "cpumap") 0 do_cpumap
  file node0_dir (codes "meminfo") 0 do_node_meminfo
  file node0_dir (codes "distance") 0 do_node_distance
  file node0_dir (codes "numastat") 0 do_node_numastat
  file node_dir (codes "online") 0 do_node_list
  file node_dir (codes "possible") 0 do_node_list
  file node_dir (codes "has_cpu") 0 do_node_list
  file node_dir (codes "has_memory") 0 do_node_list
  pure tt

unfoldable pub node_content : ℕ → Build (Unit {0})
node_content node_dir = do
  node0_dir ← directory node_dir (codes "node0") no_flags
  node0_content node_dir node0_dir

unfoldable pub init_numa : ℕ → Build (Unit {0})
init_numa system_dir = do
  node_dir ← directory system_dir (codes "node") no_flags
  node_content node_dir

-- A file that carries its CPU number.
unfoldable pub cpu_file : ℕ → ℕ → Bytes → ReadFn → Build (Unit {0})
cpu_file c dir name read_fn = do f ← file dir name 0 read_fn; set_instance f c

unfoldable pub cpu_topology : ℕ → ℕ → Build (Unit {0})
cpu_topology c topo = do
  set_instance topo c
  cpu_file c topo (codes "core_id") do_cpu_core_id
  cpu_file c topo (codes "physical_package_id") do_cpu_package_id
  cpu_file c topo (codes "thread_siblings_list") do_cpu_thread_siblings
  cpu_file c topo (codes "core_siblings_list") do_cpu_core_siblings

unfoldable pub cpu_topology_dir : ℕ → ℕ → Build (Unit {0})
cpu_topology_dir c cpu_n = do
  topo ← directory cpu_n (codes "topology") no_flags
  cpu_topology c topo

unfoldable pub cpu_content : ℕ → ℕ → Build (Unit {0})
cpu_content c cpu_n = do
  set_instance cpu_n c
  cpu_file c cpu_n (codes "online") do_cpu_online
  cpu_topology_dir c cpu_n

-- One round of the CPU loop: cpu<c> and its topology.
unfoldable pub init_cpu : ℕ → ℕ → Build (Unit {0})
init_cpu cpu_dir c = do
  cpu_n ← directory cpu_dir (codes "cpu" ++ to_decimal c) no_flags
  cpu_content c cpu_n

-- `for (c = 0; c < ncpu && c < SYSFS_MAX_CPU_NODES; c++)`: the rounds left, and `c`.
unfoldable pub init_cpus : ℕ → ℕ → ℕ → Build (Unit {0})
init_cpus zero cpu_dir c s = (tt, s)
init_cpus (suc left) cpu_dir c s = init_cpus left cpu_dir (c + 1) (init_cpu cpu_dir c s).1

unfoldable pub cpu_sets : ℕ → ℕ → Build (Unit {0})
cpu_sets ncpu cpu_dir = do
  file cpu_dir (codes "online") 0 do_cpulist
  file cpu_dir (codes "possible") 0 do_cpulist
  file cpu_dir (codes "present") 0 do_cpulist
  file cpu_dir (codes "offline") 0 do_zero_count
  file cpu_dir (codes "kernel_max") 0 do_cpu_kernel_max
  init_cpus (min ncpu max_cpu_nodes) cpu_dir 0

unfoldable pub init_cpu_dir : ℕ → ℕ → Build (Unit {0})
init_cpu_dir ncpu system_dir = do
  cpu_dir ← directory system_dir (codes "cpu") no_flags
  cpu_sets ncpu cpu_dir

unfoldable pub system_content : ℕ → ℕ → Build (Unit {0})
system_content ncpu system_dir = do init_numa system_dir; init_cpu_dir ncpu system_dir

unfoldable pub devices_content : ℕ → ℕ → Build (Unit {0})
devices_content ncpu devices_node = do
  system_dir ← directory devices_node (codes "system") no_flags
  system_content ncpu system_dir

-- /sys/devices, with the static `system` hierarchy below it
unfoldable pub init_devices : ℕ → ℕ → Build (Unit {0})
init_devices root ncpu = do
  devices_node ← node root (codes "devices") sfs_device flag_dynamic
  devices_content ncpu devices_node

-- The system-wide huge-page pool, with the two counters that only it has
unfoldable pub mm_pool_files : ℕ → Build (Unit {0})
mm_pool_files mm_hp_2m = do
  hugepage_files mm_hp_2m
  file mm_hp_2m (codes "resv_hugepages") zero_count_len do_zero_count
  file mm_hp_2m (codes "nr_overcommit_hugepages") zero_count_len do_zero_count
  pure tt

unfoldable pub mm_pool : ℕ → Build (Unit {0})
mm_pool mm_hp_dir = do
  mm_hp_2m ← directory mm_hp_dir (codes "hugepages-2048kB") no_flags
  mm_pool_files mm_hp_2m

unfoldable pub mm_hugepages : ℕ → Build (Unit {0})
mm_hugepages mm_dir = do
  mm_hp_dir ← directory mm_dir (codes "hugepages") no_flags
  mm_pool mm_hp_dir

unfoldable pub init_kernel_mm : ℕ → Build (Unit {0})
init_kernel_mm kernel_dir = do
  mm_dir ← directory kernel_dir (codes "mm") no_flags
  mm_hugepages mm_dir

unfoldable pub module_marker : ℕ → Build (Unit {0})
module_marker module_dir = do node module_dir (codes "__member__") sfs_module flag_modules; pure tt

unfoldable pub init_module : ℕ → Build (Unit {0})
init_module root = do
  module_dir ← directory root (codes "module") flag_modules
  module_marker module_dir

-- The directories from module/ on, and kernel/mm.
unfoldable pub init_last : ℕ → ℕ → Build (Unit {0})
init_last root kernel_dir = do
  init_module root
  directory root (codes "power") no_flags
  init_kernel_mm kernel_dir

unfoldable pub init_rest : ℕ → Build (Unit {0})
init_rest root = do
  directory root (codes "firmware") no_flags
  directory root (codes "fs") no_flags
  directory root (codes "hypervisor") no_flags
  kernel_dir ← directory root (codes "kernel") no_flags
  init_last root kernel_dir

-- Everything below the root, in the order of the source.
unfoldable pub init_tree : ℕ → ℕ → Build (Unit {0})
init_tree root ncpu = do
  class_directory root (codes "block") class_block flag_whole
  directory root (codes "bus") no_flags
  init_classes root
  init_dev root
  init_devices root ncpu
  init_rest root

-- The root itself: `add_directory(NULL, "/", SFSroot, SYSFS_ROOT_NODE_BASE_ID, …)`
unfoldable pub init_root : Build ℕ
init_root = add_directory none (codes "/") sfs_root root_base_id no_flags

-- The body of `sysfs_structure_init`, by the value of `root_node`.
unfoldable pub init_unless : Option ℕ → ℕ → Structure → Structure
init_unless (some root) ncpu s = s
init_unless none ncpu s =
    let (root, s1) = init_root s in
    let s2 = (init_tree root ncpu s1).1 in record s2 { root_node = some root }

-- `sysfs_structure_init`, on a machine with `ncpu` logical CPUs: only the first mount builds.
unfoldable pub structure_init : ℕ → Structure → Structure
structure_init ncpu s = init_unless s.root_node ncpu s
