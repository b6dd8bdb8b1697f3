-- ===== src/Structure/Links/Skeleton.antt =====
-- The regions of `sysfs_structure_init` keep the tree, and add a known number of nodes.
use m_sl_sys_fs.Base.{ℕ, zero, suc, ◌+◌, ◌*◌, ◌≤◌, ◌<◌, ◌≡◌, Bytes, arith, min, refl, subst}
use m_sl_sys_fs.Types.{SsnFlags, ReadFn}
use m_sl_sys_fs.Structure.{Build, set_instance}
use m_sl_sys_fs.Structure.Init.{
  class_content, class_directory, class_table, init_classes, dev_views, init_dev, hugepage_files,
  node0_pool, node0_hugepages, node0_content, node_content, init_numa, cpu_file, cpu_topology,
  cpu_topology_dir, cpu_content, init_cpu, init_cpus, cpu_sets, init_cpu_dir, system_content,
  devices_content, init_devices, mm_pool_files, mm_pool, mm_hugepages, init_kernel_mm,
  module_marker, init_module, init_last, init_rest, init_tree,
}
use m_sl_sys_fs.Structure.Links.Build.{
  Adds, bind-Adds, then-Adds, pure-Adds, node-Adds, file-Adds, directory-Adds, set_instance-Adds,
}

module _ {n0 k : ℕ} where
  resize :
      {n g h : ℕ} {A : Type 0} {a : A} {m : Build A} → g ≡ h → Adds n0 k n g a m → Adds n0 k n h a m
  resize {n} {a = a} {m = m} e x = subst (λ g. Adds n0 k n g a m) e x

  class_content-Adds :
      (n class cd : ℕ) → n0 ≤ cd → cd < n → Adds n0 k n 1 tt (class_content class cd)
  unfolding class_content
  class_content-Adds n class cd lo hi =
      then-Adds _ _ (set_instance-Adds n cd class lo hi) (
        then-Adds _ _ (node-Adds (n + 0) cd _ _ _ lo (omega arith) refl) (pure-Adds (n + 0 + 1) tt))

  class_directory-Adds :
      (n p : ℕ) (name : Bytes) (class : ℕ) (flags : SsnFlags)
      → n0 ≤ p
      → p < n
      → Adds n0 k n 4 tt (class_directory p name class flags)
  unfolding class_directory
  class_directory-Adds n p name class flags lo hi =
      bind-Adds _ (class_content class) (directory-Adds n p name flags lo hi)
        (class_content-Adds (n + 3) class n (omega arith) (omega arith))

  class_table-Adds : (n p : ℕ) → n0 ≤ p → p < n → Adds n0 k n 16 tt (class_table p)
  unfolding class_table
  class_table-Adds n p lo hi = then-Adds _ _ (class_directory-Adds n p _ _ _ lo hi) (
      then-Adds _ _ (class_directory-Adds (n + 4) p _ _ _ lo (omega arith)) (
        then-Adds _ _ (class_directory-Adds (n + 4 + 4) p _ _ _ lo (omega arith))
          (class_directory-Adds (n + 4 + 4 + 4) p _ _ _ lo (omega arith))))

  init_classes-Adds : (n p : ℕ) → n0 ≤ p → p < n → Adds n0 k n 19 tt (init_classes p)
  unfolding init_classes
  init_classes-Adds n p lo hi =
      bind-Adds _ class_table (directory-Adds n p _ _ lo hi)
        (class_table-Adds (n + 3) n (omega arith) (omega arith))

  dev_views-Adds : (n p : ℕ) → n0 ≤ p → p < n → Adds n0 k n 6 tt (dev_views p)
  unfolding dev_views
  dev_views-Adds n p lo hi =
      then-Adds _ _ (directory-Adds n p _ _ lo (omega arith))
        (then-Adds _ _ (directory-Adds (n + 3) p _ _ lo (omega arith)) (pure-Adds (n + 3 + 3) tt))

  init_dev-Adds : (n p : ℕ) → n0 ≤ p → p < n → Adds n0 k n 9 tt (init_dev p)
  unfolding init_dev
  init_dev-Adds n p lo hi =
      bind-Adds _ dev_views (directory-Adds n p _ _ lo hi)
        (dev_views-Adds (n + 3) n (omega arith) (omega arith))

  hugepage_files-Adds : (n p : ℕ) → n0 ≤ p → p < n → Adds n0 k n 3 tt (hugepage_files p)
  unfolding hugepage_files
  hugepage_files-Adds n p lo hi = then-Adds _ _ (file-Adds n p _ _ _ lo (omega arith)) (
      then-Adds _ _ (file-Adds (n + 1) p _ _ _ lo (omega arith)) (
        then-Adds _ _ (file-Adds (n + 1 + 1) p _ _ _ lo (omega arith))
          (pure-Adds (n + 1 + 1 + 1) tt)))

  node0_pool-Adds : (n p : ℕ) → n0 ≤ p → p < n → Adds n0 k n 6 tt (node0_pool p)
  unfolding node0_pool
  node0_pool-Adds n p lo hi =
      bind-Adds _ hugepage_files (directory-Adds n p _ _ lo hi)
        (hugepage_files-Adds (n + 3) n (omega arith) (omega arith))

  node0_hugepages-Adds : (n p : ℕ) → n0 ≤ p → p < n → Adds n0 k n 9 tt (node0_hugepages p)
  unfolding node0_hugepages
  node0_hugepages-Adds n p lo hi =
      bind-Adds _ node0_pool (directory-Adds n p _ _ lo hi)
        (node0_pool-Adds (n + 3) n (omega arith) (omega arith))

  node0_content-Adds :
      (n p q : ℕ) → n0 ≤ p → p < n → n0 ≤ q → q < n → Adds n0 k n 18 tt (node0_content p q)
  unfolding node0_content
  node0_content-Adds n p q lo hi lo' hi' =
      then-Adds _ _ (node0_hugepages-Adds n q lo' (omega arith)) (
        then-Adds _ _ (file-Adds (n + 9) q _ _ _ lo' (omega arith)) (
          then-Adds _ _ (file-Adds (n + 9 + 1) q _ _ _ lo' (omega arith)) (
            then-Adds _ _ (file-Adds (n + 9 + 1 + 1) q _ _ _ lo' (omega arith)) (
              then-Adds _ _ (file-Adds (n + 9 + 1 + 1 + 1) q _ _ _ lo' (omega arith)) (
                then-Adds _ _ (file-Adds (n + 9 + 1 + 1 + 1 + 1) q _ _ _ lo' (omega arith)) (
                  then-Adds _ _ (file-Adds (n + 9 + 1 + 1 + 1 + 1 + 1) p _ _ _ lo (omega arith)) (
                    then-Adds _ _
                      (file-Adds (n + 9 + 1 + 1 + 1 + 1 + 1 + 1) p _ _ _ lo (omega arith))
                      (then-Adds _ _
                        (file-Adds (n + 9 + 1 + 1 + 1 + 1 + 1 + 1 + 1) p _ _ _ lo (omega arith))
                        (then-Adds _ _
                          (file-Adds (n + 9 + 1 + 1 + 1 + 1 + 1 + 1 + 1 + 1) p _ _ _ lo
                            (omega arith))
                          (pure-Adds (n + 9 + 1 + 1 + 1 + 1 + 1 + 1 + 1 + 1 + 1) tt))))))))))

  node_content-Adds : (n p : ℕ) → n0 ≤ p → p < n → Adds n0 k n 21 tt (node_content p)
  unfolding node_content
  node_content-Adds n p lo hi =
      bind-Adds _ (node0_content p) (directory-Adds n p _ _ lo hi)
        (node0_content-Adds (n + 3) p n lo (omega arith) (omega arith) (omega arith))

  init_numa-Adds : (n p : ℕ) → n0 ≤ p → p < n → Adds n0 k n 24 tt (init_numa p)
  unfolding init_numa
  init_numa-Adds n p lo hi =
      bind-Adds _ node_content (directory-Adds n p _ _ lo hi)
        (node_content-Adds (n + 3) n (omega arith) (omega arith))

  cpu_file-Adds :
      (n c p : ℕ) (name : Bytes) (read_fn : ReadFn)
      → n0 ≤ p
      → p < n
      → Adds n0 k n 1 tt (cpu_file c p name read_fn)
  unfolding cpu_file
  cpu_file-Adds n c p name read_fn lo hi =
      bind-Adds _ (λ f. set_instance f c) (file-Adds n p name 0 read_fn lo hi)
        (set_instance-Adds (n + 1) n c (omega arith) (omega arith))

  cpu_topology-Adds : (n c p : ℕ) → n0 ≤ p → p < n → Adds n0 k n 4 tt (cpu_topology c p)
  unfolding cpu_topology
  cpu_topology-Adds n c p lo hi = then-Adds _ _ (set_instance-Adds n p c lo (omega arith)) (
      then-Adds _ _ (cpu_file-Adds (n + 0) c p _ _ lo (omega arith)) (
        then-Adds _ _ (cpu_file-Adds (n + 0 + 1) c p _ _ lo (omega arith)) (
          then-Adds _ _ (cpu_file-Adds (n + 0 + 1 + 1) c p _ _ lo (omega arith))
            (cpu_file-Adds (n + 0 + 1 + 1 + 1) c p _ _ lo (omega arith)))))

  cpu_topology_dir-Adds : (n c p : ℕ) → n0 ≤ p → p < n → Adds n0 k n 7 tt (cpu_topology_dir c p)
  unfolding cpu_topology_dir
  cpu_topology_dir-Adds n c p lo hi =
      bind-Adds _ (cpu_topology c) (directory-Adds n p _ _ lo hi)
        (cpu_topology-Adds (n + 3) c n (omega arith) (omega arith))

  cpu_content-Adds : (n c p : ℕ) → n0 ≤ p → p < n → Adds n0 k n 8 tt (cpu_content c p)
  unfolding cpu_content
  cpu_content-Adds n c p lo hi = then-Adds _ _ (set_instance-Adds n p c lo (omega arith)) (
      then-Adds _ _ (cpu_file-Adds (n + 0) c p _ _ lo (omega arith))
        (cpu_topology_dir-Adds (n + 0 + 1) c p lo (omega arith)))

  init_cpu-Adds : (n p c : ℕ) → n0 ≤ p → p < n → Adds n0 k n 11 tt (init_cpu p c)
  unfolding init_cpu
  init_cpu-Adds n p c lo hi =
      bind-Adds _ (cpu_content c) (directory-Adds n p _ _ lo hi)
        (cpu_content-Adds (n + 3) c n (omega arith) (omega arith))

  -- Every round of the CPU loop adds eleven nodes.
  init_cpus-Adds :
      (left n p c : ℕ) → n0 ≤ p → p < n → Adds n0 k n (11 * left) tt (init_cpus left p c)
  unfolding init_cpus
  init_cpus-Adds zero n p c lo hi = pure-Adds n tt
  init_cpus-Adds (suc left) n p c lo hi = record {
    run = λ s built e.
        let (b1, _, e1) = (init_cpu-Adds n p c lo hi).run s built e in
        let (b2, _, e2) = (init_cpus-Adds left (n + 11) p (c + 1) lo (omega arith)).run _ b1 e1 in
        (b2, refl, omega arith);
  }

  cpu_sets-Adds :
      (n ncpu p : ℕ) → n0 ≤ p → p < n → Adds n0 k n (5 + 11 * min ncpu 64) tt (cpu_sets ncpu p)
  unfolding cpu_sets
  cpu_sets-Adds n ncpu p lo hi = resize (omega arith) (
      then-Adds _ _ (file-Adds n p _ _ _ lo (omega arith)) (
        then-Adds _ _ (file-Adds (n + 1) p _ _ _ lo (omega arith)) (
          then-Adds _ _ (file-Adds (n + 1 + 1) p _ _ _ lo (omega arith)) (
            then-Adds _ _ (file-Adds (n + 1 + 1 + 1) p _ _ _ lo (omega arith)) (
              then-Adds _ _ (file-Adds (n + 1 + 1 + 1 + 1) p _ _ _ lo (omega arith))
                (init_cpus-Adds (min ncpu 64) (n + 1 + 1 + 1 + 1 + 1) p 0 lo (omega arith)))))))

  init_cpu_dir-Adds :
      (n ncpu p : ℕ) → n0 ≤ p → p < n → Adds n0 k n (8 + 11 * min ncpu 64) tt (init_cpu_dir ncpu p)
  unfolding init_cpu_dir
  init_cpu_dir-Adds n ncpu p lo hi = resize (omega arith) (
      bind-Adds _ (cpu_sets ncpu) (directory-Adds n p _ _ lo hi)
        (cpu_sets-Adds (n + 3) ncpu n (omega arith) (omega arith)))

  system_content-Adds :
      (n ncpu p : ℕ)
      → n0 ≤ p
      → p < n
      → Adds n0 k n (32 + 11 * min ncpu 64) tt (system_content ncpu p)
  unfolding system_content
  system_content-Adds n ncpu p lo hi = resize (omega arith) (
      then-Adds _ _ (init_numa-Adds n p lo hi) (init_cpu_dir-Adds (n + 24) ncpu p lo (omega arith)))

  devices_content-Adds :
      (n ncpu p : ℕ)
      → n0 ≤ p
      → p < n
      → Adds n0 k n (35 + 11 * min ncpu 64) tt (devices_content ncpu p)
  unfolding devices_content
  devices_content-Adds n ncpu p lo hi = resize (omega arith) (
      bind-Adds _ (system_content ncpu) (directory-Adds n p _ _ lo hi)
        (system_content-Adds (n + 3) ncpu n (omega arith) (omega arith)))

  init_devices-Adds :
      (n ncpu p : ℕ) → n0 ≤ p → p < n → Adds n0 k n (36 + 11 * min ncpu 64) tt (init_devices p ncpu)
  unfolding init_devices
  init_devices-Adds n ncpu p lo hi = resize (omega arith) (
      bind-Adds _ (devices_content ncpu) (node-Adds n p _ _ _ lo hi refl)
        (devices_content-Adds (n + 1) ncpu n (omega arith) (omega arith)))

  mm_pool_files-Adds : (n p : ℕ) → n0 ≤ p → p < n → Adds n0 k n 5 tt (mm_pool_files p)
  unfolding mm_pool_files
  mm_pool_files-Adds n p lo hi = then-Adds _ _ (hugepage_files-Adds n p lo (omega arith)) (
      then-Adds _ _ (file-Adds (n + 3) p _ _ _ lo (omega arith)) (
        then-Adds _ _ (file-Adds (n + 3 + 1) p _ _ _ lo (omega arith))
          (pure-Adds (n + 3 + 1 + 1) tt)))

  mm_pool-Adds : (n p : ℕ) → n0 ≤ p → p < n → Adds n0 k n 8 tt (mm_pool p)
  unfolding mm_pool
  mm_pool-Adds n p lo hi =
      bind-Adds _ mm_pool_files (directory-Adds n p _ _ lo hi)
        (mm_pool_files-Adds (n + 3) n (omega arith) (omega arith))

  mm_hugepages-Adds : (n p : ℕ) → n0 ≤ p → p < n → Adds n0 k n 11 tt (mm_hugepages p)
  unfolding mm_hugepages
  mm_hugepages-Adds n p lo hi =
      bind-Adds _ mm_pool (directory-Adds n p _ _ lo hi)
        (mm_pool-Adds (n + 3) n (omega arith) (omega arith))

  init_kernel_mm-Adds : (n p : ℕ) → n0 ≤ p → p < n → Adds n0 k n 14 tt (init_kernel_mm p)
  unfolding init_kernel_mm
  init_kernel_mm-Adds n p lo hi =
      bind-Adds _ mm_hugepages (directory-Adds n p _ _ lo hi)
        (mm_hugepages-Adds (n + 3) n (omega arith) (omega arith))

  module_marker-Adds : (n p : ℕ) → n0 ≤ p → p < n → Adds n0 k n 1 tt (module_marker p)
  unfolding module_marker
  module_marker-Adds n p lo hi =
      then-Adds _ _ (node-Adds n p _ _ _ lo (omega arith) refl) (pure-Adds (n + 1) tt)

  init_module-Adds : (n p : ℕ) → n0 ≤ p → p < n → Adds n0 k n 4 tt (init_module p)
  unfolding init_module
  init_module-Adds n p lo hi =
      bind-Adds _ module_marker (directory-Adds n p _ _ lo hi)
        (module_marker-Adds (n + 3) n (omega arith) (omega arith))

  init_last-Adds : (n p q : ℕ) → n0 ≤ p → p < n → n0 ≤ q → q < n → Adds n0 k n 21 tt (init_last p q)
  unfolding init_last
  init_last-Adds n p q lo hi lo' hi' = then-Adds _ _ (init_module-Adds n p lo (omega arith)) (
      then-Adds _ _ (directory-Adds (n + 4) p _ _ lo (omega arith))
        (init_kernel_mm-Adds (n + 4 + 3) q lo' (omega arith)))

  init_rest-Adds : (n p : ℕ) → n0 ≤ p → p < n → Adds n0 k n 33 tt (init_rest p)
  unfolding init_rest
  init_rest-Adds n p lo hi = then-Adds _ _ (directory-Adds n p _ _ lo (omega arith)) (
      then-Adds _ _ (directory-Adds (n + 3) p _ _ lo (omega arith)) (
        then-Adds _ _ (directory-Adds (n + 3 + 3) p _ _ lo (omega arith)) (
          bind-Adds _ (init_last p) (directory-Adds (n + 3 + 3 + 3) p _ _ lo (omega arith)) (
            init_last-Adds (n + 3 + 3 + 3 + 3) p (n + 3 + 3 + 3) lo (omega arith) (omega arith)
              (omega arith)))))

  pub init_tree-Adds :
      (n ncpu p : ℕ) → n0 ≤ p → p < n → Adds n0 k n (104 + 11 * min ncpu 64) tt (init_tree p ncpu)
  unfolding init_tree
  init_tree-Adds n ncpu p lo hi = resize (omega arith) (
      then-Adds _ _ (class_directory-Adds n p _ _ _ lo (omega arith)) (
        then-Adds _ _ (directory-Adds (n + 4) p _ _ lo (omega arith)) (
          then-Adds _ _ (init_classes-Adds (n + 4 + 3) p lo (omega arith)) (
            then-Adds _ _ (init_dev-Adds (n + 4 + 3 + 19) p lo (omega arith)) (
              then-Adds _ _ (init_devices-Adds (n + 4 + 3 + 19 + 9) ncpu p lo (omega arith)) (
                init_rest-Adds (n + 4 + 3 + 19 + 9 + (36 + 11 * min ncpu 64)) p lo
                  (omega arith)))))))
