-- ===== src/Snapshot/Refresh/Stop.antt =====
-- kext/sysfs_iokit.cpp: whether `sysfs_iokit_teardown` returns.
use m_sl_sys_fs.Base.{
  ℕ, zero, suc, ◌+◌, ◌*◌, ◌<◌, ◌≡◌, refl, sym, ap, ◌∙◌, Bool, true, false, none, List, [], ◌∷◌,
  length, length-append, arith, Bool-cases, inl, inr, ◌⊎◌,
}
use m_sl_sys_fs.Snapshot.Build.{Sizes, Answers, World}
use m_sl_sys_fs.Snapshot.Refresh.Steps.{
  Phase, in_use, stopping, stopped, Threads, count_if, Move, Reach,
}
use m_sl_sys_fs.Snapshot.Refresh.Flight.{Move-IsFlight, reached}
use m_sl_sys_fs.Snapshot.Refresh.Guarded.{stops_idle, idle-none, off, count_if-le}
use m_sl_sys_fs.Snapshot.Refresh.Cases.{flights, was_cancelled, is_in_use, IsFlight}

-- Every sequence of steps from here leads to the end of the stop, and none gets stuck before.
pub data Ends (z : Sizes) : Threads → Type 0 where
  ended : {s : Threads} → s.phase ≡ stopped → Ends z s
  goes_on : {s t : Threads} → Move z s t → ((u : Threads) → Move z s u → Ends z u) → Ends z s

-- The work that is left before the stop can end
abbrev pub left : Threads → ℕ
left s = 2 * count_if s.queued + length s.calls

abbrev no_answers : ℕ → Answers
no_answers uptime = record {
  earlier = [];
  entries = [];
  kexts = none;
  snapshot_ok = false;
  nodes_ok = false;
  child_ok = false;
  hash_ok = false;
  counts_ok = false;
  cursor_ok = false;
  modules_ok = false;
  iterator_ok = false;
  uptime = uptime;
}

not_in_use : {A : Type 0} (p : Phase) (c : Bool) → p ≡ stopping c → p ≡ in_use → A
not_in_use p c u e = absurd (cc (u, e))

-- During a stop a step ends it, or leaves less work.
stop-lessens :
    (z : Sizes) (c : Bool) {s t : Threads}
    → Move z s t
    → IsFlight s
    → s.phase ≡ stopping c
    → ((t.phase ≡ stopped) × (s.shared.building ≡ false))
      ⊎ ((t.phase ≡ stopping c) × (left t < left s))
stop-lessens z c {s} (Move.starts l k e) f u = not_in_use s.phase c u e
stop-lessens z c {s} (Move.ensures k e) f u = not_in_use s.phase c u e
stop-lessens z c {s} (Move.enters p) f u = absurd (omega (arith, f.quiet (ap is_in_use u), p))
stop-lessens z c {s} (Move.runs gen q) f u = inr (u, omega (arith, ap count_if q))
stop-lessens z c {s} (Move.primed gen e) f u = not_in_use s.phase c u e
stop-lessens z c {s} (Move.call_ends a n gen xs ys e) f u =
    inr (u, omega (arith, ap length e, length-append xs (gen ∷ ys), length-append xs ys))
stop-lessens z c {s} (Move.prime_ends a n gen xs ys e) f u =
    absurd (omega (arith, f.quiet (ap is_in_use u), ap length e, length-append xs (gen ∷ ys)))
stop-lessens z c {s} (Move.cancels e n p) f u = not_in_use s.phase c u e
stop-lessens z c {s} (Move.stops k e q) f u = inl (refl, stops_idle s f k e q)

-- Where no call was cancelled, there is a step to take.
stop-goes_on :
    (z : Sizes) (s : Threads) → IsFlight s → s.phase ≡ stopping false → (t : Threads) × Move z s t
stop-goes_on z s f u = elim (Bool-cases s.queued) [
  | inl q ↦ (_, Move.runs 0 q)
  | inr q ↦ by_calls q s.calls refl
]
  where
    by_calls : s.queued ≡ false → (gens : List ℕ) → s.calls ≡ gens → (t : Threads) × Move z s t
    by_calls q [] e =
        let b : count_if s.shared.building ≡ 0 =
          sym f.count
          ∙ omega (
            arith,
            f.quiet (ap is_in_use u),
            ap length e,
            ap count_if q,
            ap count_if (ap was_cancelled u),
          ) in
        (_, Move.stops false u (ground (arith, off s.shared.building b)))
    by_calls q (gen ∷ gens) e = (_, Move.call_ends (no_answers 0) 0 gen [] gens e)

stopping-Ends :
    (n : ℕ) (z : Sizes) (s : Threads)
    → IsFlight s
    → s.phase ≡ stopping false
    → left s < n
    → Ends z s
stopping-Ends zero z s f u l = absurd (omega (arith, l))
stopping-Ends (suc n) z s f u l =
    let (t, step) = stop-goes_on z s f u in
    Ends.goes_on step (λ v st. elim (stop-lessens z false st f u) [
      | inl (e, b) ↦ Ends.ended e
      | inr (e, m) ↦ stopping-Ends n z v (Move-IsFlight z st f) e (omega (arith, l, m))
    ])

-- A stop that finds no queued refresh to cancel ends, in whatever order the threads go on.
pub stop-Ends :
    (z : Sizes) (w : World) {s : Threads} → Reach z w s → s.phase ≡ stopping false → Ends z s
stop-Ends z w {s} r u = stopping-Ends (suc (left s)) z s (reached z w r) u (omega arith)

-- A stop that has cancelled a queued refresh never ends: `g_building` stays up, nothing is on its way
-- that would take it down, and no thread has a step left.
pub cancelled_stop-waits :
    (z : Sizes) (w : World) {s t : Threads} → Reach z w s → s.phase ≡ stopping true → ¬ Move z s t
cancelled_stop-waits z w {s} r u st =
    let f = reached z w r in
    let n : flights s ≡ 0 =
      omega (arith, f.count, ap count_if (ap was_cancelled u), count_if-le s.shared.building) in
    elim (stop-lessens z true st f u) [
      | inl (e, b) ↦ cc ((idle-none s f b).1, ap was_cancelled u)
      | inr (e, m) ↦ absurd (omega (arith, m, n))
    ]
