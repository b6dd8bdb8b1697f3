-- ===== src/System.antt =====
-- kext/sysfs_system.c: the contents of the files below /sys/devices/system, by what sysctl reports.
pub mod Topology
pub mod CpuMap
use m_sl_sys_fs.Base.{
  ℕ, zero, suc, ◌+◌, ◌-◌, ◌*◌, ◌/◌, ◌%◌, ◌^◌, Bool, Option, none, some, List, [], ◌∷◌, ◌++◌, Bytes,
  codes, leb, ltb, ◌==◌, if◌then◌else◌, length, take, to_decimal,
}
use m_sl_sys_fs.Types.{
  ReadFn, do_zero_count, do_cpulist, do_cpumap, do_node_meminfo, do_node_distance, do_node_numastat,
  do_node_list, do_cpu_kernel_max, do_cpu_online, do_cpu_package_id, do_cpu_core_id,
  do_cpu_thread_siblings, do_cpu_core_siblings,
}
use m_sl_sys_fs.Uio.{Uiomove, UioOf}
use m_sl_sys_fs.Subr.{copy_data}

-- An `int` that sysctlbyname gives: it fails, or gives a negative number or another one.
pub data Answer : Type 0 where
  no_answer : Answer
  negative : ℕ → Answer
  number : ℕ → Answer

-- hw.logicalcpu_max, hw.physicalcpu_max and hw.memsize, and the byte of the stack that stands behind
-- the buffer of a handler
pub record Sysctl : Type 0 where
  pub logicalcpu_max : Answer
  pub physicalcpu_max : Answer
  pub memsize_answer : Option ℕ
  pub behind_buffer : ℕ

abbrev newline : Bytes
newline = codes "\n"

-- `%08x`: the last eight hexadecimal digits
abbrev pub hex_digit : ℕ → ℕ
hex_digit d = if ltb d 10 then 48 + d else 87 + d

unfoldable pub to_hex : ℕ → ℕ → Bytes
to_hex zero n = []
to_hex (suc k) n = to_hex k (n / 16) ++ hex_digit (n % 16) ∷ []

-- `%8llu` and `%7llu`: spaces on the left up to a width
abbrev pub spaces : ℕ → Bytes
spaces zero = []
spaces (suc n) = 32 ∷ spaces n

abbrev pub pad_left : ℕ → Bytes → Bytes
pad_left width s = spaces (width - length s) ++ s

abbrev pub at_least_one : Answer → ℕ
at_least_one no_answer = 1
at_least_one (negative n) = 1
at_least_one (number zero) = 1
at_least_one (number (suc n)) = suc n

abbrev pub bytes_or_zero : Option ℕ → ℕ
bytes_or_zero none = 0
bytes_or_zero (some n) = n

-- The mask of the most significant group: its CPUs are the last ones.
abbrev pub top_mask : ℕ → ℕ
top_mask bits = if leb 32 bits then 4294967295 else 2 ^ bits - 1

-- The number of groups of 32 CPUs
abbrev pub group_count : ℕ → ℕ
group_count n = (n + 31) / 32

-- What the loop prints for group `g`, the most significant one first: the lower ones have a comma.
abbrev pub group_text : ℕ → ℕ → Bytes
group_text n g =
    if g == group_count n
    then to_hex 8 (top_mask (n - (group_count n - 1) * 32))
    else 44 ∷ to_hex 8 (top_mask 32)

-- `SYSFS_SYSTEM_BUFMAX`
abbrev pub system_bufmax : ℕ
system_bufmax = 512

-- The loop over the groups from `g` down, behind what is printed; `off` is the length of that. It ends
-- as soon as `off` has reached the size of the buffer.
unfoldable pub cpumap_loop : ℕ → ℕ → Bytes → Bytes
cpumap_loop n zero printed = printed
cpumap_loop n (suc g) printed =
    let rest = cpumap_loop n g (printed ++ group_text n (suc g)) in
    if ltb (length printed) system_bufmax then rest else printed

-- The `off` bytes from the start of the buffer, where `off` is the length of all that was printed:
-- snprintf has written what fits with the NUL, and `off` is at most one more than the size.
abbrev pub in_buffer : ℕ → Bytes → Bytes
in_buffer behind printed =
    if ltb (length printed) system_bufmax
    then printed
    else take (length printed) (take (system_bufmax - 1) printed ++ 0 ∷ behind ∷ [])

-- The text that `sysfs_do_cpumap` hands to `sysfs_copy_data`
unfoldable pub cpumap_text : ℕ → ℕ → Bytes
cpumap_text behind n = in_buffer behind (cpumap_loop n (group_count n) [] ++ newline)

unfoldable pub cpulist_text : ℕ → Bytes
cpulist_text n = if leb n 1 then codes "0\n" else codes "0-" ++ (to_decimal (n - 1) ++ newline)

abbrev meminfo_line : Bytes → ℕ → ℕ → Bytes → Bytes
meminfo_line label width value unit =
    label ++ (pad_left width (to_decimal value) ++ (unit ++ newline))

unfoldable pub meminfo_text : ℕ → Bytes
meminfo_text total_kb =
    meminfo_line (codes "Node 0 MemTotal:       ") 8 total_kb (codes " kB")
    ++ (meminfo_line (codes "Node 0 MemUsed:        ") 8 0 (codes " kB")
        ++ (meminfo_line (codes "Node 0 MemFree:        ") 8 0 (codes " kB")
            ++ (meminfo_line (codes "Node 0 HugePages_Total: ") 7 0 []
                ++ meminfo_line (codes "Node 0 HugePages_Free:  ") 7 0 [])))

abbrev numastat_text : Bytes
numastat_text =
    codes "numa_hit 0\nnuma_miss 0\nnuma_foreign 0\ninterleave_hit 0\nlocal_node 0\nother_node 0\n"

module _ (sys : Sysctl) where
  -- `sysfs_ncpu` and `sysfs_cpu_count`
  unfoldable pub ncpu : ℕ
  ncpu = at_least_one sys.logicalcpu_max

  -- `sysfs_memsize`
  unfoldable pub memsize : ℕ
  memsize = bytes_or_zero sys.memsize_answer

  -- `sysfs_threads_per_core`
  unfoldable pub threads_of : Answer → ℕ
  unfolding ncpu
  threads_of no_answer = 1
  threads_of (negative n) = 1
  threads_of (number zero) = 1
  threads_of (number (suc phys)) = if leb ncpu (suc phys) then 1 else ncpu / suc phys

  abbrev pub threads_per_core : ℕ
  threads_per_core = threads_of sys.physicalcpu_max

  -- `sysfs_do_cpu_core_id`
  unfoldable pub core_id : ℕ → ℕ
  core_id cpu = cpu / threads_per_core

  -- the first CPU of the core of a CPU, and the text of `sysfs_do_cpu_thread_siblings`; the last CPU
  -- is a uint32_t
  unfoldable pub first_sibling : ℕ → ℕ
  first_sibling cpu = cpu / threads_per_core * threads_per_core

  unfoldable pub siblings_text : ℕ → Bytes
  siblings_text cpu =
      if leb threads_per_core 1
      then to_decimal cpu ++ newline
      else to_decimal (first_sibling cpu)
        ++ (codes "-"
            ++ (to_decimal ((first_sibling cpu + threads_per_core - 1) % 2 ^ 32) ++ newline))

  -- The text that a read handler renders, for a node of instance `cpu`.
  unfoldable pub content : ReadFn → ℕ → Bytes
  content do_zero_count cpu = codes "0\n"
  content do_cpulist cpu = cpulist_text ncpu
  content do_cpumap cpu = cpumap_text sys.behind_buffer ncpu
  content do_node_meminfo cpu = meminfo_text (memsize / 1024)
  content do_node_distance cpu = codes "10\n"
  content do_node_numastat cpu = numastat_text
  content do_node_list cpu = codes "0\n"
  content do_cpu_kernel_max cpu = to_decimal (ncpu - 1) ++ newline
  content do_cpu_online cpu = codes "1\n"
  content do_cpu_package_id cpu = codes "0\n"
  content do_cpu_core_id cpu = to_decimal (core_id cpu) ++ newline
  content do_cpu_thread_siblings cpu = siblings_text cpu
  content do_cpu_core_siblings cpu = cpulist_text ncpu

  -- The handlers themselves: the text, through `sysfs_copy_data`.
  abbrev pub read_data : Uiomove ℕ → ReadFn → ℕ → UioOf ℕ → ℕ × UioOf ℕ
  read_data uiomove handler cpu uio =
      copy_data uiomove (content handler cpu) (length (content handler cpu)) uio
