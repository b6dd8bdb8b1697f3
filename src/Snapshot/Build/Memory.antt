-- ===== src/Snapshot/Build/Memory.antt =====
-- The memory of a snapshot (kext/sysfs_iokit.cpp): what `sysfs_snap_build` takes and what
-- `sysfs_snap_free` gives back.
use m_sl_sys_fs.Base.{
  subst, ℕ, ◌+◌, ◌-◌, ◌*◌, ◌≡◌, refl, Bool, true, false, not, ◌&&◌, Option, none, some, List, ◌==◌,
  arith, if_holds, length, min,
}
use m_sl_sys_fs.Snapshot.{Snapshot}
use m_sl_sys_fs.Snapshot.Walk.{table_size}
use m_sl_sys_fs.Snapshot.Build.{
  Sizes, Answers, World, KextEntry, alloc, free_array, free_parts, is_set, snap_free, build_modules,
  place_children, collect,
}

abbrev pub bytes_if : Bool → ℕ → ℕ
bytes_if true n = n
bytes_if false n = 0

abbrev pub arrays : Sizes → Snapshot → ℕ
arrays z s = s.node_cap * z.node + (s.child_cap * 4 + (s.hash_size * z.slot + z.snapshot))

-- What `sysfs_snap_free` takes a snapshot to hold.
unfoldable pub footprint : Sizes → Snapshot → ℕ
footprint z s = bytes_if (is_set s.modules) (s.module_cap * z.module_size) + arrays z s

-- The arrays that stay behind where not all three could be allocated.
unfoldable pub leaked : Sizes → Answers → ℕ → ℕ
leaked z a cap = bytes_if (a.snapshot_ok && not (a.nodes_ok && (a.child_ok && a.hash_ok))) (
    bytes_if a.nodes_ok (cap * z.node)
    + (bytes_if a.child_ok (cap * 4) + bytes_if a.hash_ok (table_size cap * z.slot)))

-- Between the world before a build and a later one, the snapshot alone has been taken.
pub record Held (z : Sizes) (before : World) (s : Snapshot) (w : World) : Type 0 where
  pub live : w.live ≡ before.live + footprint z s
  pub counted : w.snap_bytes ≡ before.snap_bytes + s.bytes

-- As many bytes handed out as before, but for those lost.
pub record Level (before : World) (lost : ℕ) (w : World) : Type 0 where
  pub live : w.live ≡ before.live + lost
  pub counted : w.snap_bytes ≡ before.snap_bytes

pub bytes_if-on : (b : Bool) (n : ℕ) → b ≡ true → bytes_if b n ≡ n
bytes_if-on true n e = refl
bytes_if-on false n e = absurd (cc e)

pub bytes_if-off : (b : Bool) (n : ℕ) → b ≡ false → bytes_if b n ≡ 0
bytes_if-off true n e = absurd (cc e)
bytes_if-off false n e = refl

pub bytes_if_zero : (b : Bool) (n : ℕ) → n ≡ 0 → bytes_if b n ≡ 0
bytes_if_zero true n e = e
bytes_if_zero false n e = refl

pub free_array-live :
    (b : Bool) (n : ℕ) (w : World) → (free_array b n w).live ≡ w.live - bytes_if b n
free_array-live true n w = refl
free_array-live false n w = omega arith

pub free_array-bytes : (b : Bool) (n : ℕ) (w : World) → (free_array b n w).snap_bytes ≡ w.snap_bytes
free_array-bytes true n w = refl
free_array-bytes false n w = refl

pub alloc-live : (b : Bool) (n : ℕ) (w : World) → (alloc b n w).live ≡ w.live + bytes_if b n
alloc-live true n w = refl
alloc-live false n w = omega arith

pub alloc-bytes : (b : Bool) (n : ℕ) (w : World) → (alloc b n w).snap_bytes ≡ w.snap_bytes
alloc-bytes true n w = refl
alloc-bytes false n w = refl

module _ (z : Sizes) (before : World) where
  -- What is held is given back.
  pub snap_free-Level :
      (s : Snapshot) (w : World) → Held z before s w → Level before 0 (snap_free z (some s) w)
  unfolding snap_free free_parts footprint
  snap_free-Level s w h =
      let f = free_array-live (is_set s.modules) (s.module_cap * z.module_size) w in
      let g = free_array-bytes (is_set s.modules) (s.module_cap * z.module_size) w in
      record { live = omega (arith, f, h.live); counted = omega (arith, g, h.counted) }

  pub place_children-Held :
      (ok : Bool) (s : Snapshot) (w : World)
      → Held z before s w
      → Held z before (place_children ok s) w
  unfolding place_children footprint
  place_children-Held true s w h = record { live = h.live; counted = h.counted }
  place_children-Held false s w h = record { live = h.live; counted = h.counted }

  pub build_modules-Held :
      (a : Answers) (ks : Option (List KextEntry)) (s : Snapshot) (w : World)
      → s.modules ≡ none
      → Held z before s w
      → Held z before (build_modules z a ks s w).0 (build_modules z a ks s w).1
  unfolding build_modules
  build_modules-Held a none s w e h = h
  build_modules-Held a (some ks) s w e h =
      let Good : Snapshot × World → Type 0 = λ r. Held z before r.0 r.1 in
      let bytes = min (length ks) 1024 * z.module_size in
      let f : w.live ≡ before.live + (0 + arrays z s) =
        subst
          (λ m.
            w.live
            ≡ before.live + (bytes_if (is_set m) (s.module_cap * z.module_size) + arrays z s))
          e (unfold footprint in h.live) in
      if_holds Good (min (length ks) 1024 == 0) _ _ (λ e. h)
        (λ e.
          if_holds Good a.modules_ok _ _
            (λ e.
              if_holds Good a.iterator_ok
                (
                  record s {
                    modules = some (collect (min (length ks) 1024) ks 0);
                    module_cap = min (length ks) 1024;
                    bytes = s.bytes + bytes;
                  },
                  record (alloc true bytes w) { snap_bytes = w.snap_bytes + bytes },
                )
                _
                (λ e. record {
                  live = unfold footprint in omega (arith, f);
                  counted = omega (arith, h.counted);
                })
                (λ e. record { live = omega (arith, h.live); counted = h.counted }))
            (λ e. h))
