-- ===== src/Snapshot/Refresh.antt =====
-- kext/sysfs_iokit.cpp: when the snapshot is built anew, and the stop of the refresh. What is written
-- under the lock is one function on the shared state.
pub mod Throttle
pub mod Kept
pub mod Balance
pub mod Memory
pub mod Serve
pub mod Files
pub mod Steps
pub mod Cases
pub mod Guarded
pub mod Flight
pub mod Stop
use m_sl_sys_fs.Base.{
  ℕ, zero, suc, ◌+◌, ◌-◌, ◌%◌, ◌^◌, Bool, true, false, not, ◌&&◌, ◌||◌, Option, none, some, ◌==◌,
  ltb, leb, if◌then◌else◌,
}
use m_sl_sys_fs.Snapshot.{Snapshot}
use m_sl_sys_fs.Snapshot.Build.{Sizes, Answers, World, snap_build, snap_free}

-- The file's static variables: `has_lock` and `has_call` say that `g_lock` and `g_refresh_call` are set.
pub record Shared : Type 0 where
  pub has_lock : Bool
  pub has_call : Bool
  pub snapshot : Option Snapshot
  pub building : Bool
  pub pending : Bool
  pub snap_gen : ℕ
  pub gen_valid : Bool
  pub last_uptime : ℕ
  pub last_valid : Bool
  pub world : World

-- SYSFS_SNAP_TTL_NS and SYSFS_SNAP_MIN_REBUILD_NS
abbrev pub ttl_ns : ℕ
ttl_ns = 2000000000

abbrev pub min_rebuild_ns : ℕ
min_rebuild_ns = 30000000000

-- What a read of a clock and of the registry's generation gives: the two readings of the uptime in
-- `sysfs_snap_ensure`, and `absolutetime_to_nanoseconds`.
pub record Clock : Type 0 where
  pub gen : ℕ
  pub now : ℕ
  pub later : ℕ
  pub to_ns : ℕ → ℕ

-- The difference of two readings, on 64 bits, in nanoseconds
abbrev pub since : Clock → ℕ → ℕ → ℕ
since c now before = c.to_ns ((now + 2 ^ 64 - before) % 2 ^ 64)

-- `sysfs_iokit_init`
unfoldable pub iokit_init : Bool → Bool → Shared → Shared
iokit_init lock_ok call_ok g = record g {
  has_lock = g.has_lock || lock_ok;
  has_call = g.has_call || call_ok;
}

-- The registry has not changed, or the snapshot is within its time.
abbrev pub is_current : Clock → Shared → Option Snapshot → Bool
is_current c g none = false
is_current c g (some s) =
    (g.gen_valid && (g.snap_gen == c.gen)) || leb (since c c.now s.uptime) ttl_ns

-- There is a snapshot, and the last build is not long ago.
abbrev pub is_recent : Clock → Shared → Option Snapshot → Bool
is_recent c g none = false
is_recent c g (some s) = g.last_valid && ltb (since c c.later g.last_uptime) min_rebuild_ns

-- `sysfs_snap_ensure`; the test says that it goes on to `thread_call_enter`.
unfoldable pub snap_ensure : Clock → Shared → Shared × Bool
snap_ensure c g =
    if not g.has_lock
    then (g, false)
    else if is_current c g g.snapshot
    then (g, false)
    else if is_recent c g g.snapshot
    then (g, false)
    else if not g.pending && (not g.building && g.has_call)
    then (record g { pending = true; building = true }, true)
    else (g, false)

-- What `sysfs_snap_refresh` writes when the build is done, and the release of the old snapshot.
abbrev pub publish : Sizes → ℕ → ℕ → Option Snapshot → World → Shared → Shared
publish z gen uptime none w g = record g { world = w; building = false; pending = false }
publish z gen uptime (some t) w g = record g {
  snapshot = some t;
  building = false;
  pending = false;
  snap_gen = gen;
  gen_valid = true;
  last_uptime = uptime;
  last_valid = true;
  world = snap_free z g.snapshot (record w { last_node_count = t.node_count });
}

-- `sysfs_snap_refresh`, with the generation that it sampled first
unfoldable pub snap_refresh : Sizes → Answers → ℕ → ℕ → Shared → Shared
snap_refresh z a gen uptime g = let r = snap_build z a g.world in publish z gen uptime r.0 r.1 g

abbrev pub have : Option Snapshot → Bool
have none = false
have (some s) = true

-- `sysfs_iokit_prime` up to the refresh; the test says that it goes on to it.
unfoldable pub iokit_prime : Shared → Shared × Bool
iokit_prime g =
    if not g.has_lock
    then (g, false)
    else if have g.snapshot || g.building
    then (g, false)
    else (record g { building = true }, true)

-- `sysfs_iokit_teardown` sleeps.
abbrev pub must_wait : Shared → Bool
must_wait g = g.has_call && (g.has_lock && g.building)

-- `sysfs_iokit_teardown` behind the wait
unfoldable pub iokit_teardown : Sizes → Shared → Shared
iokit_teardown z g =
    if g.has_lock
    then record {
      has_lock = false;
      has_call = false;
      snapshot = none;
      building = false;
      pending = false;
      snap_gen = g.snap_gen;
      gen_valid = false;
      last_uptime = 0;
      last_valid = false;
      world = snap_free z g.snapshot (record g.world { last_node_count = 0 });
    }
    else record g { has_call = false }
