-- ===== src/Snapshot/Refresh/Kept.antt =====
-- kext/sysfs_iokit.cpp: what a refresh leaves behind: the published snapshot and the estimate for the
-- next one.
use m_sl_sys_fs.Base.{
  ◌<◌, inl, inr, ℕ, ◌*◌, ◌≤◌, ◌<◌, ◌≡◌, refl, sym, ap, Bool, true, false, Option, none, some, ◌==◌,
  arith, if_holds, inl, inr, subst,
}
use m_sl_sys_fs.Snapshot.{Snapshot}
use m_sl_sys_fs.Snapshot.Build.{
  Sizes, Answers, World, snap_build, snap_free, free_parts, free_array, is_set, estimate,
}
use m_sl_sys_fs.Snapshot.Build.Sound.{IsSound}
use m_sl_sys_fs.Snapshot.Build.Whole.{snap_build-Built}
use m_sl_sys_fs.Snapshot.Refresh.{
  Shared, Clock, ttl_ns, min_rebuild_ns, since, snap_ensure, publish, snap_refresh, iokit_init,
  iokit_teardown,
}
use m_sl_sys_fs.Snapshot.Refresh.Steps.{Threads, after_ensure, after_prime, Move, Reach}
use m_sl_sys_fs.Snapshot.Refresh.Cases.{ensure-cases, prime-cases}
use m_sl_sys_fs.Snapshot.Refresh.Throttle.{snap_ensure-IsStale, IsOpen, IsStale}

-- A published snapshot is sound, and the time of the build is known.
record IsPublished (g : Shared) : Type 0 where
  sound : (s : Snapshot) → g.snapshot ≡ some s → IsSound s
  timed : (s : Snapshot) → g.snapshot ≡ some s → g.last_valid ≡ true

publish-IsPublished :
    (z : Sizes) (gen uptime : ℕ) (o : Option Snapshot) (w : World) (g : Shared)
    → ((s : Snapshot) → o ≡ some s → IsSound s)
    → IsPublished g
    → IsPublished (publish z gen uptime o w g)
publish-IsPublished z gen uptime none w g h p = record { sound = p.sound; timed = p.timed }
publish-IsPublished z gen uptime (some t) w g h p = record { sound = h; timed = λ s e. refl }

refresh-IsPublished :
    (z : Sizes) (a : Answers) (gen uptime : ℕ) (g : Shared)
    → IsPublished g
    → IsPublished (snap_refresh z a gen uptime g)
unfolding snap_refresh
refresh-IsPublished z a gen uptime g p =
    publish-IsPublished z gen uptime _ _ g (λ s e. (snap_build-Built z a g.world s e).sound) p

teardown-IsPublished : (z : Sizes) (g : Shared) → IsPublished g → IsPublished (iokit_teardown z g)
unfolding iokit_teardown
teardown-IsPublished z g p =
    if_holds IsPublished g.has_lock _ _
      (λ e. record { sound = λ s q. absurd (cc q); timed = λ s q. absurd (cc q) })
      (λ e. record { sound = p.sound; timed = p.timed })

Move-IsPublished :
    (z : Sizes) {s t : Threads} → Move z s t → IsPublished s.shared → IsPublished t.shared
Move-IsPublished z {s} (Move.starts l k e) p =
    unfold iokit_init in record { sound = p.sound; timed = p.timed }
Move-IsPublished z {s} (Move.ensures c e) p = elim (ensure-cases c s.shared) [
  | inl q ↦ subst (λ r. IsPublished (after_ensure r s).shared) (sym q) p
  | inr (l, k, b, q) ↦
      subst (λ r. IsPublished (after_ensure r s).shared) (sym q)
        (record { sound = p.sound; timed = p.timed })
]
Move-IsPublished z {s} (Move.enters e) p = p
Move-IsPublished z {s} (Move.runs gen e) p = p
Move-IsPublished z {s} (Move.primed gen e) p = elim (prime-cases s.shared) [
  | inl q ↦ subst (λ r. IsPublished (after_prime r gen s).shared) (sym q) p
  | inr (l, b, q) ↦
      subst (λ r. IsPublished (after_prime r gen s).shared) (sym q)
        (record { sound = p.sound; timed = p.timed })
]
Move-IsPublished z {s} (Move.call_ends a n gen xs ys e) p = refresh-IsPublished z a gen n s.shared p
Move-IsPublished z {s} (Move.prime_ends a n gen xs ys e) p =
    refresh-IsPublished z a gen n s.shared p
Move-IsPublished z {s} (Move.cancels u n e) p = p
Move-IsPublished z {s} (Move.stops c u e) p = teardown-IsPublished z s.shared p

published : (z : Sizes) (w : World) {s : Threads} → Reach z w s → IsPublished s.shared
published z w Reach.here = record { sound = λ s q. absurd (cc q); timed = λ s q. absurd (cc q) }
published z w (Reach.after r step) = Move-IsPublished z step (published z w r)

open_rested :
    (c : Clock) (g : Shared) (o : Option Snapshot) (t : Snapshot)
    → o ≡ some t
    → g.last_valid ≡ true
    → IsOpen c g o
    → (ttl_ns < since c c.now t.uptime) × (min_rebuild_ns ≤ since c c.later g.last_uptime)
open_rested c g none t e v h = absurd (cc e)
open_rested c g (some s) t e v h =
    let same : s ≡ t = cc e in
    let d = subst (IsStale c g) same h in
    (d.old, elim d.rested [ inl k ↦ absurd (cc (k, v)) | inr l ↦ l ])

-- Whatever the threads do in any order: a published snapshot is sound.
pub Reach-IsSound :
    (z : Sizes) (w : World) {s : Threads}
    → Reach z w s
    → (t : Snapshot) → s.shared.snapshot ≡ some t
    → IsSound t
Reach-IsSound z w {s} r t e = (published z w r).sound t e

-- Whatever the threads do in any order: while a snapshot is published, which is sound then,
-- `sysfs_snap_ensure` starts a refresh only when the snapshot is more than 2 seconds old and the last
-- build is 30 seconds or more ago.
pub Reach-IsRested :
    (z : Sizes) (w : World) {s : Threads}
    → Reach z w s
    → (t : Snapshot) (c : Clock) → s.shared.snapshot ≡ some t
    → (snap_ensure c s.shared).1 ≡ true
    → IsSound t
      × (ttl_ns < since c c.now t.uptime)
      × (min_rebuild_ns ≤ since c c.later s.shared.last_uptime)
Reach-IsRested z w {s} r t c e go =
    let p = published z w r in
    let (l, h, q, b, open_) = (snap_ensure-IsStale c s.shared).0 go in
    let (old, rested) = open_rested c s.shared s.shared.snapshot t e (p.timed t e) open_ in
    (p.sound t e, old, rested)

free_array_keeps :
    (b : Bool) (n : ℕ) (w : World) → (free_array b n w).last_node_count ≡ w.last_node_count
free_array_keeps true n w = refl
free_array_keeps false n w = refl

snap_free_keeps :
    (z : Sizes) (o : Option Snapshot) (w : World)
    → (snap_free z o w).last_node_count ≡ w.last_node_count
unfolding snap_free free_parts
snap_free_keeps z none w = refl
snap_free_keeps z (some s) w = free_array_keeps (is_set s.modules) (s.module_cap * z.module_size) w

publish-estimate :
    (z : Sizes) (gen uptime : ℕ) (o : Option Snapshot) (w : World) (g : Shared) (next : Answers)
    (t : Snapshot)
    → o ≡ some t
    → 0 < t.node_count
    → (estimate next (publish z gen uptime o w g).world ≡ t.node_count)
      × ((publish z gen uptime o w g).snapshot ≡ some t)
publish-estimate z gen uptime none w g next t e pos = absurd (cc e)
publish-estimate z gen uptime (some s) w g next t e pos =
    let same : t ≡ s = cc e in
    let kept : (snap_free z g.snapshot
          (record w { last_node_count = s.node_count })).last_node_count
        ≡ s.node_count =
      snap_free_keeps z g.snapshot _ in
    let full : (s.node_count == 0) ≡ false =
      let l = subst (λ (t : Snapshot). 0 < t.node_count) same pos in ground (arith, l) in
    (rw (kept, full) (ap (λ (t : Snapshot). t.node_count) (sym same)), e)

-- A refresh that publishes leaves the number of its nodes as the estimate for the next build, whatever
-- the walk had found of the room.
pub snap_refresh-estimate :
    (z : Sizes) (a next : Answers) (gen uptime : ℕ) (g : Shared) (t : Snapshot)
    → (snap_build z a g.world).0 ≡ some t
    → (estimate next (snap_refresh z a gen uptime g).world ≡ t.node_count)
      × ((snap_refresh z a gen uptime g).snapshot ≡ some t)
unfolding snap_refresh
snap_refresh-estimate z a next gen uptime g t e =
    publish-estimate z gen uptime (snap_build z a g.world).0 _ g next t e
      (snap_build-Built z a g.world t e).sound.pos
