-- ===== src/Snapshot/Refresh/Flight.antt =====
-- kext/sysfs_iokit.cpp: at most one refresh at a time, whatever the threads do (`g_building`).
use m_sl_sys_fs.Base.{
  zero, ℕ, suc, ◌≤◌, ◌<◌, ◌≡◌, refl, ap, Bool, true, false, ◌∷◌, length, length-append, arith,
}
use m_sl_sys_fs.Snapshot.Build.{Sizes, World}
use m_sl_sys_fs.Snapshot.Refresh.{snap_ensure, iokit_prime}
use m_sl_sys_fs.Snapshot.Refresh.Steps.{Threads, count_if, Move, Reach, at_load}
use m_sl_sys_fs.Snapshot.Refresh.Cases.{
  asynchronous, flights, IsFlight, ensure-cases, prime-cases, snap_refresh-Landed,
}
use m_sl_sys_fs.Snapshot.Refresh.Guarded.{
  ensured-IsFlight, primed-IsFlight, after_landing-IsFlight, starts-IsFlight, enters-IsFlight,
  runs-IsFlight, cancels-IsFlight, stops-IsFlight, count_if-le, on,
}

-- The invariant holds in what is reached.
pub Move-IsFlight : (z : Sizes) {s t : Threads} → Move z s t → IsFlight s → IsFlight t
Move-IsFlight z {s} (Move.starts lock_ok call_ok u) f = starts-IsFlight s f lock_ok call_ok u
Move-IsFlight z {s} (Move.ensures c u) f =
    ensured-IsFlight s f (snap_ensure c s.shared) u (ensure-cases c s.shared)
Move-IsFlight z {s} (Move.enters p) f = enters-IsFlight s f p
Move-IsFlight z {s} (Move.runs gen q) f = runs-IsFlight s f gen q
Move-IsFlight z {s} (Move.primed gen u) f =
    primed-IsFlight s f (iokit_prime s.shared) gen u (prime-cases s.shared)
Move-IsFlight z {s} (Move.call_ends a uptime gen xs ys e) f =
    after_landing-IsFlight s f _ _ _ (snap_refresh-Landed z a gen uptime s.shared)
      (omega (arith, ap length e, length-append xs (gen ∷ ys), length-append xs ys)) (omega arith)
Move-IsFlight z {s} (Move.prime_ends a uptime gen xs ys e) f =
    after_landing-IsFlight s f _ _ _ (snap_refresh-Landed z a gen uptime s.shared)
      (omega (arith, ap length e, length-append xs (gen ∷ ys), length-append xs ys))
      (omega (arith, ap length e, length-append xs (gen ∷ ys), length-append xs ys))
Move-IsFlight z {s} (Move.cancels u n p) f = cancels-IsFlight s f u n p
Move-IsFlight z {s} (Move.stops c u q) f = stops-IsFlight s f z c u q

at_load-IsFlight : (w : World) → IsFlight (at_load w)
at_load-IsFlight w = record {
  count = refl;
  locked = λ q. absurd (cc q);
  called = λ p. absurd (omega (arith, p));
  quiet = λ q. refl;
  cancelled = λ q. absurd (cc q);
  ended = λ q. refl;
}

pub reached : (z : Sizes) (w : World) {s : Threads} → Reach z w s → IsFlight s
reached z w Reach.here = at_load-IsFlight w
reached z w (Reach.after r step) = Move-IsFlight z step (reached z w r)

up_to : (n : ℕ) (b : Bool) → n ≤ 1 → (0 < n → b ≡ true) → n ≤ count_if b
up_to n true l h = l
up_to zero false l h = omega arith
up_to (suc n) false l h = absurd (cc (h (omega arith)))

-- Whatever vnode operations, mounts, the thread call and the stop do in any order: while `g_building`
-- is up at most one refresh is about to be queued, queued or running, and else none is; the lock is
-- there while `g_building` is up; and the thread call is there for each asynchronous refresh.
pub Reach-IsFlight :
    (z : Sizes) (w : World) {s : Threads}
    → Reach z w s
    → (flights s ≤ count_if s.shared.building)
      × (count_if s.shared.building ≤ count_if s.shared.has_lock)
      × (asynchronous s ≤ count_if s.shared.has_call)
Reach-IsFlight z w {s} r =
    let f = reached z w r in
    let top = count_if-le s.shared.building in
    (
      omega (arith, f.count),
      up_to _ s.shared.has_lock top (λ p. f.locked (on _ (omega (arith, p, top)))),
      up_to (asynchronous s) s.shared.has_call (omega (arith, f.count, top)) f.called,
    )
