-- ===== src/Snapshot/Refresh/Steps.antt =====
-- The threads that share the snapshot (kext/sysfs_iokit.cpp): vnode operations, mounts, the thread
-- call and the stop of the kext, in any order. What stands between the taking and the giving back of
-- the lock is one step.
use m_sl_sys_fs.Base.{
  ℕ, ◌+◌, ◌-◌, ◌<◌, ◌≡◌, Bool, true, false, ◌&&◌, not, none, List, [], ◌∷◌, ◌++◌,
}
use m_sl_sys_fs.Snapshot.Build.{Sizes, Answers, World}
use m_sl_sys_fs.Snapshot.Refresh.{
  Shared, Clock, iokit_init, snap_ensure, snap_refresh, iokit_prime, must_wait, iokit_teardown,
}

-- `sysfs_iokit_teardown` has cancelled the call, or has found none to cancel; or it has returned.
pub data Phase : Type 0 where
  in_use : Phase
  stopping : Bool → Phase
  stopped : Phase

-- `entering` vnode operations are on their way to `thread_call_enter`, the call may be queued, and
-- `calls` and `primes` have the generations that the running refreshes have sampled.
pub record Threads : Type 0 where
  pub shared : Shared
  pub entering : ℕ
  pub queued : Bool
  pub calls : List ℕ
  pub primes : List ℕ
  pub phase : Phase

abbrev pub count_if : Bool → ℕ
count_if true = 1
count_if false = 0

abbrev pub after_ensure : Shared × Bool → Threads → Threads
after_ensure r s = record s { shared = r.0; entering = s.entering + count_if r.1 }

abbrev pub with_prime : Bool → ℕ → List ℕ → List ℕ
with_prime true gen gens = gen ∷ gens
with_prime false gen gens = gens

abbrev pub after_prime : Shared × Bool → ℕ → Threads → Threads
after_prime r gen s = record s { shared = r.0; primes = with_prime r.1 gen s.primes }

-- `thread_call_cancel`, where there is a call
abbrev pub after_cancel : Threads → Threads
after_cancel s = record s {
  queued = not s.shared.has_call && s.queued;
  phase = stopping (s.shared.has_call && s.queued);
}

-- The kext stops when nothing is mounted: no vnode operation and no mount is under way then.
pub data Move (z : Sizes) : Threads → Threads → Type 0 where
  starts :
      {s : Threads} (lock_ok call_ok : Bool)
      → s.phase ≡ in_use
      → Move z s (record s { shared = iokit_init lock_ok call_ok s.shared })
  ensures :
      {s : Threads} (c : Clock)
      → s.phase ≡ in_use
      → Move z s (after_ensure (snap_ensure c s.shared) s)
  enters :
      {s : Threads}
      → 0 < s.entering
      → Move z s (record s { entering = s.entering - 1; queued = true })
  runs :
      {s : Threads} (gen : ℕ)
      → s.queued ≡ true
      → Move z s (record s { queued = false; calls = gen ∷ s.calls })
  primed :
      {s : Threads} (gen : ℕ)
      → s.phase ≡ in_use
      → Move z s (after_prime (iokit_prime s.shared) gen s)
  call_ends :
      {s : Threads} (a : Answers) (uptime gen : ℕ) (some_calls others : List ℕ)
      → s.calls ≡ some_calls ++ (gen ∷ others)
      → Move z s
          (record s { calls = some_calls ++ others; shared = snap_refresh z a gen uptime s.shared })
  prime_ends :
      {s : Threads} (a : Answers) (uptime gen : ℕ) (some_primes others : List ℕ)
      → s.primes ≡ some_primes ++ (gen ∷ others)
      → Move z s (record s {
        primes = some_primes ++ others;
        shared = snap_refresh z a gen uptime s.shared;
      })
  cancels :
      {s : Threads} → s.phase ≡ in_use → s.entering ≡ 0 → s.primes ≡ [] → Move z s (after_cancel s)
  stops :
      {s : Threads} (cancelled : Bool)
      → s.phase ≡ stopping cancelled
      → must_wait s.shared ≡ false
      → Move z s (record s { phase = stopped; shared = iokit_teardown z s.shared })

-- The static variables when the kext is loaded
abbrev pub unset : World → Shared
unset w = record {
  has_lock = false;
  has_call = false;
  snapshot = none;
  building = false;
  pending = false;
  snap_gen = 0;
  gen_valid = false;
  last_uptime = 0;
  last_valid = false;
  world = w;
}

abbrev pub at_load : World → Threads
at_load w = record {
  shared = unset w;
  entering = 0;
  queued = false;
  calls = [];
  primes = [];
  phase = in_use;
}

pub data Reach (z : Sizes) (w : World) : Threads → Type 0 where
  here : Reach z w (at_load w)
  after : {s t : Threads} → Reach z w s → Move z s t → Reach z w t
