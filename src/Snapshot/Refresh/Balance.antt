-- ===== src/Snapshot/Refresh/Balance.antt =====
-- kext/sysfs_iokit.cpp: the memory of the published snapshot over refreshes and the stop.
use m_sl_sys_fs.Base.{ℕ, ◌+◌, ◌-◌, ◌*◌, ◌≡◌, true, Option, none, some, arith, if_holds}
use m_sl_sys_fs.Snapshot.{Snapshot}
use m_sl_sys_fs.Snapshot.Walk.{table_cap}
use m_sl_sys_fs.Snapshot.Build.{
  Sizes, Answers, World, snap_build, snap_free, free_parts, is_set, estimate,
}
use m_sl_sys_fs.Snapshot.Build.Memory.{footprint, leaked, free_array-live, free_array-bytes}
use m_sl_sys_fs.Snapshot.Build.Owed.{Owes, snap_build-Owes}
use m_sl_sys_fs.Snapshot.Refresh.{Shared, publish, snap_refresh, iokit_teardown}

abbrev pub held : Sizes → Option Snapshot → ℕ
held z none = 0
held z (some s) = footprint z s

abbrev pub counted_bytes : Option Snapshot → ℕ
counted_bytes none = 0
counted_bytes (some s) = s.bytes

-- Beyond what is handed out otherwise, the published snapshot alone is handed out and counted.
pub record IsBalanced (z : Sizes) (base size : ℕ) (g : Shared) : Type 0 where
  pub live : g.world.live ≡ base + held z g.snapshot
  pub counted : g.world.snap_bytes ≡ size + counted_bytes g.snapshot

snap_free-live :
    (z : Sizes) (o : Option Snapshot) (w : World) → (snap_free z o w).live ≡ w.live - held z o
unfolding snap_free free_parts footprint
snap_free-live z none w = omega arith
snap_free-live z (some s) w =
    omega (arith, free_array-live (is_set s.modules) (s.module_cap * z.module_size) w)

snap_free-bytes :
    (z : Sizes) (o : Option Snapshot) (w : World)
    → (snap_free z o w).snap_bytes ≡ w.snap_bytes - counted_bytes o
unfolding snap_free free_parts
snap_free-bytes z none w = omega arith
snap_free-bytes z (some s) w =
    omega (arith, free_array-bytes (is_set s.modules) (s.module_cap * z.module_size) w)

publish-IsBalanced :
    (z : Sizes) (a : Answers) (gen uptime lost live bytes : ℕ) (o : Option Snapshot) (w : World)
    (g : Shared)
    → Owes z a g.world lost (o, w)
    → IsBalanced z live bytes g
    → IsBalanced z (live + lost) bytes (publish z gen uptime o w g)
publish-IsBalanced z a gen uptime lost live bytes none w g owes b = record {
  live = omega (arith, owes.live, b.live);
  counted = omega (arith, owes.counted, b.counted);
}
publish-IsBalanced z a gen uptime lost live bytes (some t) w g (h, e) b =
    let w' = record w { last_node_count = t.node_count } in
    record {
      live = omega (arith, h.live, b.live, e, snap_free-live z g.snapshot w');
      counted = omega (arith, h.counted, b.counted, snap_free-bytes z g.snapshot w');
    }

-- A refresh replaces the snapshot and gives the old one back, or keeps it where the build fails: the
-- published snapshot alone stays allocated, but for the arrays that a failed build loses.
pub snap_refresh-IsBalanced :
    (z : Sizes) (a : Answers) (gen uptime live bytes : ℕ) (g : Shared)
    → IsBalanced z live bytes g
    → IsBalanced z
        (live + leaked z a (table_cap (estimate a g.world)))
        bytes
        (snap_refresh z a gen uptime g)
unfolding snap_refresh
snap_refresh-IsBalanced z a gen uptime live bytes g b =
    publish-IsBalanced z a gen uptime (leaked z a (table_cap (estimate a g.world))) live bytes
      (snap_build z a g.world).0 (snap_build z a g.world).1 g (snap_build-Owes z a g.world) b

-- The stop gives the published snapshot back.
pub iokit_teardown-gives_back :
    (z : Sizes) (live bytes : ℕ) (g : Shared)
    → g.has_lock ≡ true
    → IsBalanced z live bytes g
    → ((iokit_teardown z g).world.live ≡ live) × ((iokit_teardown z g).world.snap_bytes ≡ bytes)
unfolding iokit_teardown
iokit_teardown-gives_back z live bytes g l b =
    let w' = record g.world { last_node_count = 0 } in
    if_holds (λ (r : Shared). (r.world.live ≡ live) × (r.world.snap_bytes ≡ bytes)) g.has_lock _ _
      (λ e. (
        omega (arith, b.live, snap_free-live z g.snapshot w'),
        omega (arith, b.counted, snap_free-bytes z g.snapshot w'),
      ))
      (λ e. absurd (cc (l, e)))
