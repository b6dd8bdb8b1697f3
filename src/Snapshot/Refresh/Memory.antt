-- ===== src/Snapshot/Refresh/Memory.antt =====
-- kext/sysfs_iokit.cpp: the memory over a whole run of the threads, from the load to the stop.
use m_sl_sys_fs.Base.{
  Option, none, ℕ, ◌+◌, ◌≡◌, refl, sym, ap, ◌∙◌, true, false, none, List, ◌∷◌, ◌++◌, length,
  length-append, arith, if_holds, Bool-cases, inl, inr, subst,
}
use m_sl_sys_fs.Snapshot.{Snapshot}
use m_sl_sys_fs.Snapshot.Walk.{table_cap}
use m_sl_sys_fs.Snapshot.Build.{Sizes, Answers, World, estimate}
use m_sl_sys_fs.Snapshot.Build.Memory.{leaked}
use m_sl_sys_fs.Snapshot.Refresh.{Shared, iokit_init, snap_refresh, iokit_teardown}
use m_sl_sys_fs.Snapshot.Refresh.Steps.{
  Phase, in_use, stopping, stopped, Threads, Move, Reach, after_ensure, after_prime,
}
use m_sl_sys_fs.Snapshot.Refresh.Cases.{IsFlight, ensure-cases, prime-cases, snap_refresh-Landed}
use m_sl_sys_fs.Snapshot.Refresh.Flight.{reached}
use m_sl_sys_fs.Snapshot.Refresh.Guarded.{count_if-le, on}
use m_sl_sys_fs.Snapshot.Refresh.Balance.{
  held, counted_bytes, IsBalanced, snap_refresh-IsBalanced, iokit_teardown-gives_back,
}

-- What the builds of a run have lost: the arrays left where a build could not allocate all three.
abbrev pub loss_of : (z : Sizes) {s t : Threads} → Move z s t → ℕ
loss_of z (Move.starts l k e) = 0
loss_of z (Move.ensures c e) = 0
loss_of z (Move.enters p) = 0
loss_of z (Move.runs gen q) = 0
loss_of z (Move.primed gen e) = 0
loss_of z {s} (Move.call_ends a n gen xs ys e) = leaked z a (table_cap (estimate a s.shared.world))
loss_of z {s} (Move.prime_ends a n gen xs ys e) = leaked z a (table_cap (estimate a s.shared.world))
loss_of z (Move.cancels e n p) = 0
loss_of z (Move.stops c e q) = 0

unfoldable pub lost : (z : Sizes) (w : World) {s : Threads} → Reach z w s → ℕ
lost z w Reach.here = 0
lost z w (Reach.after r step) = lost z w r + loss_of z step

-- The published snapshot alone is handed out; it is gone after the stop, and there is none without
-- the lock.
record IsAccounted (z : Sizes) (w : World) (n : ℕ) (s : Threads) : Type 0 where
  balanced : IsBalanced z (w.live + n) w.snap_bytes s.shared
  locked : s.shared.has_lock ≡ false → s.shared.snapshot ≡ none
  ended : s.phase ≡ stopped → s.shared.snapshot ≡ none

module _ (z : Sizes) (w : World) (n : ℕ) (s : Threads) (h : IsAccounted z w n s) where
  refreshed-IsAccounted :
      (a : Answers) (gen uptime : ℕ) (calls primes : List ℕ)
      → s.shared.building ≡ true
      → IsFlight s
      → IsAccounted z w (n + leaked z a (table_cap (estimate a s.shared.world))) (record s {
        calls = calls;
        primes = primes;
        shared = snap_refresh z a gen uptime s.shared;
      })
  refreshed-IsAccounted a gen uptime calls primes b f =
      let cost = leaked z a (table_cap (estimate a s.shared.world)) in
      let landed = snap_refresh-Landed z a gen uptime s.shared in
      let e : w.live + n + cost ≡ w.live + (n + cost) = omega arith in
      record {
        balanced =
            subst (λ m. IsBalanced z m w.snap_bytes (snap_refresh z a gen uptime s.shared)) e
              (snap_refresh-IsBalanced z a gen uptime (w.live + n) w.snap_bytes s.shared
                h.balanced);
        locked = λ q. absurd (cc (q, landed.lock, f.locked b));
        ended = λ q. absurd (cc (f.ended q, b));
      }

  -- What a step leaves where it changes neither the memory nor the snapshot.
  same-IsAccounted :
      (t : Threads)
      → s.shared.world ≡ t.shared.world
      → s.shared.snapshot ≡ t.shared.snapshot
      → (t.shared.has_lock ≡ false → s.shared.has_lock ≡ false)
      → (t.phase ≡ stopped → s.phase ≡ stopped)
      → IsAccounted z w (n + 0) t
  same-IsAccounted t e f l p = record {
    balanced = record {
      live = omega (arith, h.balanced.live, ap (λ (x : World). x.live) e, ap (held z) f);
      counted =
          omega (arith, h.balanced.counted, ap (λ (x : World). x.snap_bytes) e, ap counted_bytes f);
    };
    locked = λ q. sym f ∙ h.locked (l q);
    ended = λ q. sym f ∙ h.ended (p q);
  }

teardown-none :
    (z : Sizes) (g : Shared)
    → (g.has_lock ≡ false → g.snapshot ≡ none)
    → (iokit_teardown z g).snapshot ≡ none
unfolding iokit_teardown
teardown-none z g h =
    if_holds (λ (r : Shared). r.snapshot ≡ none) g.has_lock _ _ (λ e. refl) (λ e. h e)

teardown-world :
    (z : Sizes) (g : Shared) → g.has_lock ≡ false → (iokit_teardown z g).world ≡ g.world
unfolding iokit_teardown
teardown-world z g h =
    if_holds (λ (r : Shared). r.world ≡ g.world) g.has_lock _ _ (λ e. absurd (cc (e, h)))
      (λ e. refl)

teardown-accounts :
    (z : Sizes) (live bytes : ℕ) (g : Shared)
    → IsBalanced z live bytes g
    → (g.has_lock ≡ false → g.snapshot ≡ none)
    → ((iokit_teardown z g).world.live ≡ live) × ((iokit_teardown z g).world.snap_bytes ≡ bytes)
teardown-accounts z live bytes g b h = elim (Bool-cases g.has_lock) [
  | inl l ↦ iokit_teardown-gives_back z live bytes g l b
  | inr l ↦
      let same = teardown-world z g l in
      (
        omega (arith, b.live, ap (λ (x : World). x.live) same, ap (held z) (h l)),
        omega (arith, b.counted, ap (λ (x : World). x.snap_bytes) same, ap counted_bytes (h l)),
      )
]

Move-IsAccounted :
    (z : Sizes) (w : World) (n : ℕ) {s t : Threads} (step : Move z s t)
    → IsFlight s
    → IsAccounted z w n s
    → IsAccounted z w (n + loss_of z step) t
Move-IsAccounted z w n {s} (Move.starts l k e) f h =
    unfold iokit_init in same-IsAccounted z w n s h _ refl refl (λ q. ground (arith, q)) (λ q. q)
Move-IsAccounted z w n {s} (Move.ensures c e) f h = elim (ensure-cases c s.shared) [
  | inl q ↦
      subst (λ r. IsAccounted z w (n + 0) (after_ensure r s)) (sym q)
        (same-IsAccounted z w n s h (after_ensure (s.shared, false) s) refl refl (λ q. q) (λ q. q))
  | inr (l, k, b, q) ↦
      subst (λ r. IsAccounted z w (n + 0) (after_ensure r s)) (sym q)
        (same-IsAccounted z w n s h
          (after_ensure (record s.shared { pending = true; building = true }, true) s) refl refl
          (λ q. q) (λ q. q))
]
Move-IsAccounted z w n {s} (Move.enters p) f h =
    same-IsAccounted z w n s h _ refl refl (λ q. q) (λ q. q)
Move-IsAccounted z w n {s} (Move.runs gen q) f h =
    same-IsAccounted z w n s h _ refl refl (λ q. q) (λ q. q)
Move-IsAccounted z w n {s} (Move.primed gen e) f h = elim (prime-cases s.shared) [
  | inl q ↦
      subst (λ r. IsAccounted z w (n + 0) (after_prime r gen s)) (sym q)
        (same-IsAccounted z w n s h (after_prime (s.shared, false) gen s) refl refl (λ q. q)
          (λ q. q))
  | inr (l, b, q) ↦
      subst (λ r. IsAccounted z w (n + 0) (after_prime r gen s)) (sym q)
        (same-IsAccounted z w n s h (after_prime (record s.shared { building = true }, true) gen s)
          refl refl (λ q. q) (λ q. q))
]
Move-IsAccounted z w n {s} (Move.call_ends a m gen xs ys e) f h =
    refreshed-IsAccounted z w n s h a gen m (xs ++ ys) s.primes
      (on _ (
        omega (
          arith,
          f.count,
          count_if-le s.shared.building,
          ap length e,
          length-append xs (gen ∷ ys),
        )))
      f
Move-IsAccounted z w n {s} (Move.prime_ends a m gen xs ys e) f h =
    refreshed-IsAccounted z w n s h a gen m s.calls (xs ++ ys)
      (on _ (
        omega (
          arith,
          f.count,
          count_if-le s.shared.building,
          ap length e,
          length-append xs (gen ∷ ys),
        )))
      f
Move-IsAccounted z w n {s} (Move.cancels e m p) f h =
    same-IsAccounted z w n s h _ refl refl (λ q. q) (λ q. absurd (cc q))
Move-IsAccounted z w n {s} (Move.stops c e q) f h =
    let gone : (iokit_teardown z s.shared).snapshot ≡ none = teardown-none z s.shared h.locked in
    let (live, counted) =
      teardown-accounts z (w.live + n) w.snap_bytes s.shared h.balanced h.locked in
    record {
      balanced = record {
        live = omega (arith, live, ap (held z) gone);
        counted = omega (arith, counted, ap counted_bytes gone);
      };
      locked = λ q. gone;
      ended = λ q. gone;
    }

accounted : (z : Sizes) (w : World) {s : Threads} (r : Reach z w s) → IsAccounted z w (lost z w r) s
unfolding lost
accounted z w Reach.here = record {
  balanced = record { live = omega arith; counted = omega arith };
  locked = λ q. refl;
  ended = λ q. refl;
}
accounted z w (Reach.after r step) = Move-IsAccounted z w _ step (reached z w r) (accounted z w r)

-- The snapshot that is published; after the stop there is none.
abbrev pub left_in : Phase → Option Snapshot → Option Snapshot
left_in in_use o = o
left_in (stopping c) o = o
left_in stopped o = none

left_in-same : (p : Phase) (o : Option Snapshot) → (p ≡ stopped → o ≡ none) → o ≡ left_in p o
left_in-same in_use o h = refl
left_in-same (stopping c) o h = refl
left_in-same stopped o h = h refl

-- In every run of the threads, and whichever allocations fail: beyond what was handed out when the kext
-- was loaded, the published snapshot alone is handed out and counted, and after the stop nothing is,
-- but for what failed builds have lost.
pub Reach-IsBalanced :
    (z : Sizes) (w : World) {s : Threads} (r : Reach z w s)
    → (s.shared.world.live ≡ w.live + lost z w r + held z (left_in s.phase s.shared.snapshot))
      × (s.shared.world.snap_bytes
          ≡ w.snap_bytes + counted_bytes (left_in s.phase s.shared.snapshot))
Reach-IsBalanced z w {s} r =
    let h = accounted z w r in
    let same = left_in-same s.phase s.shared.snapshot h.ended in
    (
      omega (arith, h.balanced.live, ap (held z) same),
      omega (arith, h.balanced.counted, ap counted_bytes same),
    )
