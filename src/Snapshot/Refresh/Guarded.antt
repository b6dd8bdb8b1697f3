-- ===== src/Snapshot/Refresh/Guarded.antt =====
-- kext/sysfs_iokit.cpp: each section under the lock keeps the count of the refreshes on their way.
use m_sl_sys_fs.Base.{
  ℕ, suc, ◌+◌, ◌-◌, ◌≤◌, ◌<◌, ◌≡◌, refl, sym, ap, ◌∙◌, Bool, true, false, ◌&&◌, not, List, [], ◌∷◌,
  length, arith, if_holds, Bool-cases, inl, inr, ◌⊎◌, subst,
}
use m_sl_sys_fs.Snapshot.Build.{Sizes}
use m_sl_sys_fs.Snapshot.Refresh.{Shared, iokit_init, must_wait, iokit_teardown}
use m_sl_sys_fs.Snapshot.Refresh.Steps.{
  Phase, in_use, stopping, stopped, Threads, count_if, after_ensure, after_prime, after_cancel,
}
use m_sl_sys_fs.Snapshot.Refresh.Cases.{flights, was_cancelled, is_in_use, IsFlight, Landed}

pub count_if-le : (b : Bool) → count_if b ≤ 1
count_if-le true = omega arith
count_if-le false = omega arith

pub off : (b : Bool) → count_if b ≡ 0 → b ≡ false
off true e = absurd (omega (arith, e))
off false e = refl

pub on : (b : Bool) → count_if b ≡ 1 → b ≡ true
on true e = refl
on false e = absurd (omega (arith, e))

pub used-lacks : {A : Type 0} (p : Phase) → p ≡ in_use → is_in_use p ≡ false → A
used-lacks p u e = absurd (cc (ap is_in_use u, e))

pub used-goes_on : {A : Type 0} (p : Phase) → p ≡ in_use → p ≡ stopped → A
used-goes_on p u e = absurd (cc (u, e))

pub not_cancelled : (p : Phase) → p ≡ in_use → was_cancelled p ≡ false
not_cancelled p u = ap was_cancelled u

-- Nothing is on its way while the flag is down.
pub idle-none :
    (s : Threads)
    → IsFlight s
    → s.shared.building ≡ false
    → (flights s ≡ 0) × (was_cancelled s.phase ≡ false)
idle-none s f b =
    let e : flights s + count_if (was_cancelled s.phase) ≡ 0 = f.count ∙ ap count_if b in
    (omega (arith, e), off _ (omega (arith, e)))

pub cancel_splits : (h q : Bool) → count_if (not h && q) + count_if (h && q) ≡ count_if q
cancel_splits true true = refl
cancel_splits true false = refl
cancel_splits false true = refl
cancel_splits false false = refl

pub teardown-idle :
    (z : Sizes) (g : Shared) → g.building ≡ false → (iokit_teardown z g).building ≡ false
unfolding iokit_teardown
teardown-idle z g b =
    if_holds (λ (r : Shared). r.building ≡ false) g.has_lock _ _ (λ e. refl) (λ e. b)

module _ (s : Threads) (f : IsFlight s) where
  pub ensured-IsFlight :
      (r : Shared × Bool)
      → s.phase ≡ in_use
      → (r ≡ (s.shared, false))
        ⊎ ((s.shared.has_lock ≡ true)
            × (s.shared.has_call ≡ true)
            × (s.shared.building ≡ false)
            × (r ≡ (record s.shared { pending = true; building = true }, true)))
      → IsFlight (after_ensure r s)
  ensured-IsFlight r u (inl e) =
      subst (λ r. IsFlight (after_ensure r s)) (sym e)
        (record {
          count = omega (arith, f.count);
          locked = f.locked;
          called = λ p. f.called (omega arith);
          quiet = λ q. omega (arith, f.quiet q);
          cancelled = f.cancelled;
          ended = f.ended;
        })
  ensured-IsFlight r u (inr (l, c, b, e)) =
      subst (λ r. IsFlight (after_ensure r s)) (sym e)
        (record {
          count = omega (arith, (idle-none s f b).0, ap count_if (idle-none s f b).1);
          locked = λ q. l;
          called = λ p. c;
          quiet = λ q. used-lacks s.phase u q;
          cancelled = λ q. c;
          ended = λ q. used-goes_on s.phase u q;
        })

  pub primed-IsFlight :
      (r : Shared × Bool) (gen : ℕ)
      → s.phase ≡ in_use
      → (r ≡ (s.shared, false))
        ⊎ ((s.shared.has_lock ≡ true)
            × (s.shared.building ≡ false)
            × (r ≡ (record s.shared { building = true }, true)))
      → IsFlight (after_prime r gen s)
  primed-IsFlight r gen u (inl e) =
      subst (λ r. IsFlight (after_prime r gen s)) (sym e)
        (record {
          count = f.count;
          locked = f.locked;
          called = f.called;
          quiet = f.quiet;
          cancelled = f.cancelled;
          ended = f.ended;
        })
  primed-IsFlight r gen u (inr (l, b, e)) =
      subst (λ r. IsFlight (after_prime r gen s)) (sym e)
        (record {
          count = omega (arith, (idle-none s f b).0, ap count_if (idle-none s f b).1);
          locked = λ q. l;
          called = f.called;
          quiet = λ q. used-lacks s.phase u q;
          cancelled = f.cancelled;
          ended = λ q. used-goes_on s.phase u q;
        })

  -- A running refresh is the only one; when it has landed, nothing is on its way.
  pub after_landing-IsFlight :
      (g : Shared) (calls primes : List ℕ)
      → Landed s.shared g
      → length s.calls + length s.primes ≡ suc (length calls + length primes)
      → length primes ≤ length s.primes
      → IsFlight (record s { calls = calls; primes = primes; shared = g })
  after_landing-IsFlight g calls primes h e l =
      let top : flights s + count_if (was_cancelled s.phase) ≤ 1 =
        omega (arith, f.count, count_if-le s.shared.building) in
      record {
        count = omega (arith, ap count_if h.idle, top, e);
        locked = λ q. absurd (cc (q, h.idle));
        called = λ p. absurd (omega (arith, top, e));
        quiet = λ q. omega (arith, f.quiet q);
        cancelled = λ q. h.call ∙ f.cancelled q;
        ended = λ q. h.idle;
      }

  pub starts-IsFlight :
      (lock_ok call_ok : Bool)
      → s.phase ≡ in_use
      → IsFlight (record s { shared = iokit_init lock_ok call_ok s.shared })
  unfolding iokit_init
  starts-IsFlight lock_ok call_ok u = record {
    count = f.count;
    locked = λ q. rw (f.locked q) refl;
    called = λ p. rw (f.called p) refl;
    quiet = f.quiet;
    cancelled = λ q. rw (f.cancelled q) refl;
    ended = f.ended;
  }

  pub enters-IsFlight :
      0 < s.entering → IsFlight (record s { entering = s.entering - 1; queued = true })
  enters-IsFlight p =
      let top : flights s ≤ 1 = omega (arith, f.count, count_if-le s.shared.building) in
      record {
        count = omega (arith, f.count, top);
        locked = f.locked;
        called = λ q. f.called (omega arith);
        quiet = λ q. omega (arith, f.quiet q);
        cancelled = f.cancelled;
        ended = f.ended;
      }

  pub runs-IsFlight :
      (gen : ℕ) → s.queued ≡ true → IsFlight (record s { queued = false; calls = gen ∷ s.calls })
  runs-IsFlight gen q = record {
    count = omega (arith, f.count, ap count_if q);
    locked = f.locked;
    called = λ p. f.called (omega (arith, ap count_if q));
    quiet = f.quiet;
    cancelled = f.cancelled;
    ended = f.ended;
  }

  pub cancels-IsFlight :
      s.phase ≡ in_use → s.entering ≡ 0 → s.primes ≡ [] → IsFlight (after_cancel s)
  cancels-IsFlight u n p =
      let split = cancel_splits s.shared.has_call s.queued in
      record {
        count = omega (arith, f.count, split, ap count_if (not_cancelled s.phase u));
        locked = f.locked;
        called = λ q. f.called (omega (arith, split));
        quiet = λ q. omega (arith, n, ap length p);
        cancelled = λ q. ground (arith, q);
        ended = λ q. absurd (cc q);
      }

  -- The wait ends with nothing on its way.
  pub stops_idle :
      (c : Bool) → s.phase ≡ stopping c → must_wait s.shared ≡ false → s.shared.building ≡ false
  stops_idle c u w = elim (Bool-cases s.shared.building) [
    | inl b ↦
        let l = f.locked b in
        let no_call : s.shared.has_call ≡ false = ground (arith, w, b, l) in
        let e : flights s + count_if (was_cancelled s.phase) ≡ 1 = f.count ∙ ap count_if b in
        let q : s.entering + length s.primes ≡ 0 = f.quiet (ap is_in_use u) in
        elim (Bool-cases (was_cancelled s.phase)) [
          | inl k ↦ absurd (cc (f.cancelled k, no_call))
          | inr k ↦ absurd (cc (f.called (omega (arith, e, q, ap count_if k)), no_call))
        ]
    | inr b ↦ b
  ]

  pub stops-IsFlight :
      (z : Sizes) (c : Bool)
      → s.phase ≡ stopping c
      → must_wait s.shared ≡ false
      → IsFlight (record s { phase = stopped; shared = iokit_teardown z s.shared })
  stops-IsFlight z c u w =
      let b : s.shared.building ≡ false = stops_idle c u w in
      let b' : (iokit_teardown z s.shared).building ≡ false = teardown-idle z s.shared b in
      let (none_left, dropped) = idle-none s f b in
      record {
        count = omega (arith, none_left, ap count_if b');
        locked = λ q. absurd (cc (q, b'));
        called = λ p. absurd (omega (arith, none_left));
        quiet = λ q. omega (arith, none_left);
        cancelled = λ q. absurd (cc q);
        ended = λ q. b';
      }
