-- ===== src/Snapshot/Refresh/Throttle.antt =====
-- kext/sysfs_iokit.cpp: when `sysfs_snap_ensure` starts a refresh.
use m_sl_sys_fs.Base.{
  ◌≤◌, ◌<◌, ◌≡◌, ◌≢◌, ◌↔◌, refl, sym, ◌∙◌, Bool, true, false, ◌&&◌, not, Option, none, some, ◌==◌,
  lt→leb, ltb, leb, arith, tests, Bool-cases, if_holds, inl, inr, ◌⊎◌,
}
use m_sl_sys_fs.Snapshot.{Snapshot}
use m_sl_sys_fs.Snapshot.Refresh.{
  Shared, Clock, ttl_ns, min_rebuild_ns, since, is_current, is_recent, snap_ensure,
}

-- A snapshot is old enough to be replaced.
pub record IsStale (c : Clock) (g : Shared) (s : Snapshot) : Type 0 where
  pub changed : ((g.gen_valid ≡ false) ⊎ (g.snap_gen ≢ c.gen))
  pub old : ttl_ns < since c c.now s.uptime
  pub rested : (g.last_valid ≡ false) ⊎ (min_rebuild_ns ≤ since c c.later g.last_uptime)

ensure-tests :
    (c : Clock) (g : Shared)
    → (snap_ensure c g).1 ≡ (
        g.has_lock
        && (not (is_current c g g.snapshot)
            && (not (is_recent c g g.snapshot)
                && (not g.pending && (not g.building && g.has_call)))))
unfolding snap_ensure
ensure-tests c g =
    let Good : Shared × Bool → Type 0 = λ r. r.1 ≡ (
      g.has_lock
      && (not (is_current c g g.snapshot)
          && (not (is_recent c g g.snapshot)
              && (not g.pending && (not g.building && g.has_call))))) in
    if_holds Good (not g.has_lock) _ _ (λ e. ground (arith, e))
      (λ l.
        if_holds Good (is_current c g g.snapshot) _ _ (λ e. ground (arith, e))
          (λ k.
            if_holds Good (is_recent c g g.snapshot) _ _ (λ e. ground (arith, e))
              (λ m.
                if_holds Good (not g.pending && (not g.building && g.has_call)) _ _
                  (λ e. ground (arith, l, k, m, e)) (λ e. ground (arith, l, k, m, e)))))

-- There is no snapshot, or it may be replaced.
abbrev pub IsOpen : Clock → Shared → Option Snapshot → Type 0
IsOpen c g none = Unit
IsOpen c g (some s) = IsStale c g s

module _ (c : Clock) (g : Shared) where
  stale : (o : Option Snapshot) → is_current c g o ≡ false → is_recent c g o ≡ false → IsOpen c g o
  stale none e r = tt
  stale (some t) e r = record {
    changed = elim (Bool-cases g.gen_valid) [
      | inl v ↦
          let d : (g.snap_gen == c.gen) ≡ false = ground (arith, e, v) in inr (ground (arith, d))
      | inr v ↦ inl v
    ];
    old = let d : leb (since c c.now t.uptime) ttl_ns ≡ false = ground (arith, e) in grind tests;
    rested = elim (Bool-cases g.last_valid) [
      | inl v ↦
          let d : ltb (since c c.later g.last_uptime) min_rebuild_ns ≡ false =
            ground (arith, r, v) in
          inr (grind tests)
      | inr v ↦ inl v
    ];
  }

  unserved :
      (o : Option Snapshot) → IsOpen c g o → (is_current c g o ≡ false) × (is_recent c g o ≡ false)
  unserved none h = (refl, refl)
  unserved (some s) d =
      let old : leb (since c c.now s.uptime) ttl_ns ≡ false = lt→leb _ _ d.old in
      (
        elim d.changed [
          | inl v ↦ ground (arith, v, old)
          | inr n ↦
              let m : (g.snap_gen == c.gen) ≡ false = ground (arith, n) in ground (arith, m, old)
        ],
        elim d.rested [
          | inl v ↦ ground (arith, v)
          | inr r ↦
              let m : ltb (since c c.later g.last_uptime) min_rebuild_ns ≡ false = grind tests in
              ground (arith, m)
        ],
      )

-- `sysfs_snap_ensure` starts a refresh exactly if the lock and the call are there, no refresh is on its
-- way, and there is no snapshot, or the registry has changed since the snapshot, more than 2 seconds
-- have passed since it, and at least 30 since the last build.
pub snap_ensure-IsStale :
    (c : Clock) (g : Shared)
    → ((snap_ensure c g).1 ≡ true) ↔ (
        (g.has_lock ≡ true)
        × (g.has_call ≡ true)
        × (g.pending ≡ false)
        × (g.building ≡ false)
        × IsOpen c g g.snapshot)
snap_ensure-IsStale c g = (
  λ go.
      let t = sym (ensure-tests c g) ∙ go in
      let k : is_current c g g.snapshot ≡ false = ground (arith, t) in
      let m : is_recent c g g.snapshot ≡ false = ground (arith, t) in
      (
        ground (arith, t),
        ground (arith, t),
        ground (arith, t),
        ground (arith, t),
        stale c g g.snapshot k m,
      ),
  λ (l, h, p, b, f).
      let (k, m) = unserved c g g.snapshot f in ensure-tests c g ∙ ground (arith, k, m, l, h, p, b),
)
