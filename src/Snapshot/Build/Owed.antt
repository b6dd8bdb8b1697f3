-- ===== src/Snapshot/Build/Owed.antt =====
-- The memory that `sysfs_snap_build` of kext/sysfs_iokit.cpp has taken when it returns.
use m_sl_sys_fs.Base.{
  subst, ℕ, ◌+◌, ◌*◌, ◌≡◌, refl, ◌∙◌, sym, Bool, true, false, ◌&&◌, Option, none, some, ltb, arith,
  if_holds,
}
use m_sl_sys_fs.Snapshot.{Snapshot}
use m_sl_sys_fs.Snapshot.Walk.{table_cap, table_size, start_walk, walk}
use m_sl_sys_fs.Snapshot.Children.{sum_counts}
use m_sl_sys_fs.Snapshot.Build.{
  Sizes, Answers, World, alloc, free, free_array, free_parts, snap_free, walked_snapshot,
  child_counts, place_children, build_children, build_tables, snap_build, estimate, grow_estimate,
}
use m_sl_sys_fs.Snapshot.Build.Memory.{
  bytes_if, leaked, footprint, Held, Level, bytes_if-on, bytes_if-off, bytes_if_zero,
  free_array-live, free_array-bytes, alloc-live, alloc-bytes, snap_free-Level, place_children-Held,
  build_modules-Held,
}

module _ (z : Sizes) (a : Answers) (before : World) where
  abbrev OwesFor : ℕ → Option Snapshot → World → Type 0
  OwesFor lost none w = Level before lost w
  OwesFor lost (some s) w = Held z before s w × (lost ≡ 0)

  -- What a build has taken: the snapshot that it returns, and what is lost where it returns none.
  abbrev pub Owes : ℕ → Option Snapshot × World → Type 0
  Owes lost r = OwesFor lost r.0 r.1

  lent_back-Held :
      (s : Snapshot) (w : World) (n : ℕ) (ok : Bool)
      → Held z before s w
      → Held z before s
          (free (n * 8) (free_array ok (n * 4) (alloc ok (n * 4) (alloc true (n * 8) w))))
  lent_back-Held s w n true h = record { live = omega (arith, h.live); counted = h.counted }
  lent_back-Held s w n false h = record { live = omega (arith, h.live); counted = h.counted }

  placed_modules :
      (ok : Bool) (s : Snapshot) → s.modules ≡ none → (place_children ok s).modules ≡ none
  unfolding place_children
  placed_modules true s e = e
  placed_modules false s e = e

  grow_estimate-Held :
      (s : Snapshot) (count cap : ℕ) (w : World)
      → Held z before s w
      → Held z before s (grow_estimate count cap w)
  unfolding grow_estimate
  grow_estimate-Held s count cap w h =
      if_holds (Held z before s) (ltb count cap) _ _ (λ e. h)
        (λ e.
          if_holds (Held z before s) (ltb cap 16384) _ _
            (λ e. record { live = h.live; counted = h.counted }) (λ e. h))

  build_children-Owes :
      (s : Snapshot) (w : World)
      → s.modules ≡ none
      → Held z before s w
      → Owes 0 (build_children z a s w)
  unfolding build_children snap_free
  build_children-Owes s w e h =
      let n = s.node_count in
      let lent : World = alloc true (n * 8) w in
      let counts_back : Held z before s (free (n * 8) lent) = record {
        live = omega (arith, h.live);
        counted = h.counted;
      } in
      let both_back : Held z before s
          (free (n * 8) (free_array a.cursor_ok (n * 4) (alloc a.cursor_ok (n * 4) lent))) =
        lent_back-Held s w n a.cursor_ok h in
      if_holds (Owes 0) a.counts_ok _ _
        (λ memory.
          if_holds (Owes 0) (ltb s.child_cap (sum_counts (child_counts s) s.node_count))
            (none, snap_free z (some s) (free (n * 8) lent)) _
            (λ much. snap_free-Level z before s _ counts_back)
            (λ few. (
              build_modules-Held z before a a.kexts (place_children a.cursor_ok s) _
                  (placed_modules a.cursor_ok s e)
                  (place_children-Held z before a.cursor_ok s _ both_back),
              refl,
            )))
        (λ short. (h, refl))

  abbrev table_snapshot : ℕ → Snapshot
  table_snapshot cap =
      walked_snapshot z cap (table_size cap)
        (walk (table_size cap) cap a.entries (start_walk (table_size cap))) a.uptime

  -- The world that the children are built in
  abbrev grown : ℕ → World → World
  grown cap w = grow_estimate (table_snapshot cap).node_count cap (record w {
    snap_bytes = w.snap_bytes + (table_snapshot cap).bytes;
    snap_builds = w.snap_builds + 1;
  })

  abbrev kept_bytes : ℕ → ℕ
  kept_bytes cap =
      bytes_if a.nodes_ok (cap * z.node)
      + (bytes_if a.child_ok (cap * 4) + bytes_if a.hash_ok (table_size cap * z.slot))

  leaked_none : (cap : ℕ) → (a.nodes_ok && (a.child_ok && a.hash_ok)) ≡ true → leaked z a cap ≡ 0
  unfolding leaked
  leaked_none cap e = bytes_if-off _ (kept_bytes cap) (ground (arith, e))

  leaked_never : (cap : ℕ) → a.snapshot_ok ≡ false → leaked z a cap ≡ 0
  unfolding leaked
  leaked_never cap e = bytes_if-off _ (kept_bytes cap) (ground (arith, e))

  leaked_all :
      (cap : ℕ)
      → a.snapshot_ok ≡ true
      → (a.nodes_ok && (a.child_ok && a.hash_ok)) ≡ false
      → leaked z a cap ≡ kept_bytes cap
  unfolding leaked
  leaked_all cap ok e = bytes_if-on _ (kept_bytes cap) (ground (arith, ok, e))

  free_none-Level :
      (cap : ℕ) (w : World)
      → w.live ≡ before.live + (z.snapshot + kept_bytes cap)
      → w.snap_bytes ≡ before.snap_bytes
      → leaked z a cap ≡ kept_bytes cap
      → Level before
          (leaked z a cap)
          (free_parts z false a.nodes_ok a.child_ok a.hash_ok 0 0 0 0 0 w)
  unfolding free_parts
  free_none-Level cap w live counted lost =
      let w2 = free_array a.nodes_ok (0 * z.node) w in
      let w3 = free_array a.child_ok (0 * 4) w2 in
      let f : (free_array a.hash_ok (0 * z.slot) w3).live ≡ w.live = omega (
        arith,
        free_array-live a.hash_ok (0 * z.slot) w3,
        free_array-live a.child_ok (0 * 4) w2,
        free_array-live a.nodes_ok (0 * z.node) w,
        bytes_if_zero a.hash_ok (0 * z.slot) (omega arith),
        bytes_if_zero a.child_ok (0 * 4) (omega arith),
        bytes_if_zero a.nodes_ok (0 * z.node) (omega arith),
      ) in
      let g : (free_array a.hash_ok (0 * z.slot) w3).snap_bytes ≡ w.snap_bytes =
        free_array-bytes a.hash_ok (0 * z.slot) w3
        ∙ free_array-bytes a.child_ok (0 * 4) w2
        ∙ free_array-bytes a.nodes_ok (0 * z.node) w in
      record { live = omega (arith, f, live, lost); counted = omega (arith, g, counted) }

  build_tables-Owes :
      (cap : ℕ) (w : World)
      → Level before z.snapshot w
      → a.snapshot_ok ≡ true
      → Owes (leaked z a cap) (build_tables z a cap (table_size cap) w)
  unfolding build_tables snap_free free_parts
  build_tables-Owes cap w l ok =
      let all = a.nodes_ok && (a.child_ok && a.hash_ok) in
      let size = table_size cap in
      let w1 = alloc a.nodes_ok (cap * z.node) w in
      let w2 = alloc a.child_ok (cap * 4) w1 in
      let taken : World = alloc a.hash_ok (size * z.slot) w2 in
      let live : taken.live
          ≡ before.live
            + (z.snapshot
                + (bytes_if a.nodes_ok (cap * z.node)
                    + (bytes_if a.child_ok (cap * 4) + bytes_if a.hash_ok (size * z.slot)))) =
        omega (
          arith,
          alloc-live a.hash_ok (size * z.slot) w2,
          alloc-live a.child_ok (cap * 4) w1,
          alloc-live a.nodes_ok (cap * z.node) w,
          l.live,
        ) in
      let counted : taken.snap_bytes ≡ before.snap_bytes =
        alloc-bytes a.hash_ok (size * z.slot) w2
        ∙ alloc-bytes a.child_ok (cap * 4) w1
        ∙ alloc-bytes a.nodes_ok (cap * z.node) w
        ∙ l.counted in
      if_holds (Owes (leaked z a cap)) all _ _
        (λ e.
          subst (λ n. Owes n (build_children z a (table_snapshot cap) (grown cap taken)))
            (sym (leaked_none cap e))
            (build_children-Owes (table_snapshot cap) (grown cap taken)
              (unfold walked_snapshot in refl)
              (grow_estimate-Held (table_snapshot cap) (table_snapshot cap).node_count cap _ (
                unfold walked_snapshot footprint in
                record {
                  live = omega (
                    arith,
                    live,
                    bytes_if-on a.nodes_ok (cap * z.node) (ground (arith, e)),
                    bytes_if-on a.child_ok (cap * 4) (ground (arith, e)),
                    bytes_if-on a.hash_ok (size * z.slot) (ground (arith, e)),
                  );
                  counted = omega (arith, counted);
                }))))
        (λ e. free_none-Level cap taken live counted (leaked_all cap ok e))

-- A build that returns a snapshot has taken what the snapshot holds, and has added its size to the
-- counter. A build that returns none has given everything back, except after one failure: where the
-- snapshot could be allocated but one of the three arrays could not, those that could stay allocated.
pub snap_build-Owes :
    (z : Sizes) (a : Answers) (w : World)
    → Owes z a w (leaked z a (table_cap (estimate a w))) (snap_build z a w)
unfolding snap_build
snap_build-Owes z a w =
    let cap = table_cap (estimate a w) in
    if_holds (Owes z a w (leaked z a cap)) a.snapshot_ok _ _
      (λ e. build_tables-Owes z a w cap _ (record { live = refl; counted = refl }) e)
      (λ e. record { live = omega (arith, leaked_never z a w cap e); counted = refl })
