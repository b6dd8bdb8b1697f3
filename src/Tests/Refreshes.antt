-- ===== src/Tests/Refreshes.antt =====
-- Threads that share a snapshot, up to a stop.
use m_sl_sys_fs.Base.{
  inr, List, none, some, Option, length, map, suc, codes, arith, [], ◌∷◌, Bool, ap, ◌∙◌, subst, sym,
  ◌&&◌, if◌then◌else◌, ℕ, ◌+◌, ◌-◌, ◌≤◌, ◌<◌, ◌≡◌, ◌↔◌, refl, true, false,
}
use m_sl_sys_fs.Snapshot.Build.{snap_build, estimate}
use m_sl_sys_fs.Snapshot.Build.Sound.{IsSound, IsSound-IsBounded}
use m_sl_sys_fs.Snapshot.Refresh.{
  publish, must_wait, Shared, Clock, iokit_init, iokit_prime, snap_ensure, snap_refresh,
  iokit_teardown, min_rebuild_ns, ttl_ns, since,
}
use m_sl_sys_fs.Snapshot.Refresh.Steps.{
  count_if, Threads, Move, Reach, unset, at_load, after_ensure, after_prime, after_cancel, stopping,
  stopped,
}
use m_sl_sys_fs.Snapshot.Refresh.Cases.{flights, asynchronous, snap_refresh-Landed}
use m_sl_sys_fs.Snapshot.Refresh.Flight.{Reach-IsFlight}
use m_sl_sys_fs.Snapshot.Refresh.Stop.{Ends, stop-Ends, cancelled_stop-waits}
use m_sl_sys_fs.Snapshot.Refresh.Throttle.{IsOpen, IsStale, snap_ensure-IsStale}
use m_sl_sys_fs.Snapshot.Refresh.Kept.{Reach-IsRested, snap_refresh-estimate}
use m_sl_sys_fs.Snapshot.Refresh.Memory.{lost, Reach-IsBalanced}
use m_sl_sys_fs.Snapshot.Refresh.Serve.{served, lists, view_of, empty_view}
use m_sl_sys_fs.Snapshot.Query.Shows.{view, shown, children_at, IsBounded}
use m_sl_sys_fs.Snapshot.Query.{find}
use m_sl_sys_fs.Snapshot.Build.Whole.{snap_build-Built}
use m_sl_sys_fs.Vnops.Readdir.Dirs.{named_entry}
use m_sl_sys_fs.Vnops.Dirent.{calc_dirent_size, dt_dir}
use m_sl_sys_fs.Snapshot.Refresh.Files.{served-readdir_lookup}
use m_sl_sys_fs.Types.{Sfsnode}
use m_sl_sys_fs.Vnops.Readdir.{is_class_dir}
use m_sl_sys_fs.Vnops.Readdir.Ops.{dir_readdir}
use m_sl_sys_fs.Vnops.Readdir.Window.{dirents}
use m_sl_sys_fs.Vnops.Readdir.Pages.{entries}
use m_sl_sys_fs.Vnops.Readdir.ReadAll.{HasRoom, read_pages}
use m_sl_sys_fs.Vnops.Lookup.{match_child}
use m_sl_sys_fs.Vnops.Lookup.Listed.{match_fileid, listed_fileid}
use m_sl_sys_fs.Uio.{move_record}
use m_sl_sys_fs.Tests.Fixture.{layout, disk_dir}
use m_sl_sys_fs.Tests.Snapshots.{sizes, answers, start_world, snap, snap_is_built, snap_uptime}

abbrev minute : Clock
minute = record { gen = 4; now = 60000000000; later = 60000000001; to_ns = λ t. t }

-- The kext has started.
abbrev started : Threads
started = record (at_load start_world) { shared = iokit_init true true (unset start_world) }

abbrev to_started : Reach sizes start_world started
to_started = Reach.after Reach.here (Move.starts true true refl)

-- A mount has built the first snapshot.
abbrev primed : Threads
primed = after_prime (iokit_prime started.shared) 3 started

to_primed : Reach sizes start_world primed
to_primed = Reach.after to_started (Move.primed 3 refl)

abbrev mounted : Threads
mounted = record primed { primes = []; shared = snap_refresh sizes answers 3 6 primed.shared }

one_prime : primed.primes ≡ 3 ∷ []
unfolding iokit_init iokit_prime
one_prime = refl

to_mounted : Reach sizes start_world mounted
to_mounted = Reach.after to_primed (Move.prime_ends answers 6 3 [] [] one_prime)

primed_builds : (snap_build sizes answers primed.shared.world).0 ≡ some snap
unfolding iokit_init iokit_prime
primed_builds = snap_is_built

mounted_snapshot : mounted.shared.snapshot ≡ some snap
mounted_snapshot =
    (snap_refresh-estimate sizes answers answers 3 6 primed.shared snap primed_builds).1

-- The directory of the bus.
abbrev bus_dir : Sfsnode
bus_dir = record disk_dir { node_id = record { regid = 10; objectid = 0; base_id = 3 } }

mounted_lock : mounted.shared.has_lock ≡ true
mounted_lock =
    (snap_refresh-Landed sizes answers 3 6 primed.shared).lock
    ∙ (unfold iokit_init iokit_prime in refl)

mounted_lists : lists mounted.shared ≡ view snap
unfolding lists
mounted_lists =
    ap (λ b. if b then view_of mounted.shared.snapshot else empty_view) mounted_lock
    ∙ ap view_of mounted_snapshot

shown_fits :
    (ino : ℕ → ℕ) (ks : List ℕ)
    → IsBounded snap
    → HasRoom 176 (map (named_entry dt_dir ino) (map (shown snap) ks))
unfolding calc_dirent_size
shown_fits ino [] b = tt
shown_fits ino (k ∷ ks) b = (let l = b.shown_fits k in omega (arith, l), shown_fits ino ks b)

children_fit_in :
    (ino : ℕ → ℕ) (o : Option ℕ)
    → IsBounded snap
    → HasRoom 176 (map (named_entry dt_dir ino) (children_at snap o))
children_fit_in ino none b = tt
children_fit_in ino (some p) b = shown_fits ino _ b

snap-IsBounded : IsBounded snap
snap-IsBounded =
    IsSound-IsBounded snap (snap_build-Built sizes answers start_world snap snap_is_built).sound

snap_fits : HasRoom 176 (entries (view snap) layout bus_dir)
unfolding view calc_dirent_size
snap_fits =
    (omega arith, (omega arith, (omega arith, children_fit_in _ (find snap 10) snap-IsBounded)))

bus_fits : HasRoom 176 (entries (lists mounted.shared) layout bus_dir)
bus_fits = subst (λ v. HasRoom 176 (entries v layout bus_dir)) (sym mounted_lists) snap_fits

served-readdir_lookup_example :
    (read_pages
        (dir_readdir move_record (served mounted.shared) layout bus_dir)
        176
        (suc (length (entries (lists mounted.shared) layout bus_dir)))
        0
      ≡ dirents 0 (entries (lists mounted.shared) layout bus_dir))
    × (listed_fileid (codes "disk@1") (entries (lists mounted.shared) layout bus_dir)
        ≡ match_fileid (match_child (served mounted.shared) layout bus_dir (codes "disk@1")))
served-readdir_lookup_example =
    served-readdir_lookup sizes start_world to_mounted move_record (λ a n u h. refl) layout bus_dir
      176 (codes "disk@1") (omega arith) bus_fits (refl, refl) refl tt (unfold is_class_dir in refl)

mounted_shared :
    mounted.shared
    ≡ publish sizes 3 6 (some snap) (snap_build sizes answers primed.shared.world).1 primed.shared
unfolding snap_refresh
mounted_shared =
    ap (λ o. publish sizes 3 6 o (snap_build sizes answers primed.shared.world).1 primed.shared)
      primed_builds

mounted-IsStale : IsStale minute mounted.shared snap
mounted-IsStale =
    let gen : mounted.shared.snap_gen ≡ 3 = ap (λ (g : Shared). g.snap_gen) mounted_shared in
    let last : mounted.shared.last_uptime ≡ 6 = ap (λ (g : Shared). g.last_uptime) mounted_shared in
    record {
      changed = inr (λ q. omega (arith, gen, q));
      old = rw snap_uptime (omega arith);
      rested = inr (rw last (omega arith));
    }

minute_starts : (snap_ensure minute mounted.shared).1 ≡ true
minute_starts = (snap_ensure-IsStale minute mounted.shared).1 (
  mounted_lock,
  (snap_refresh-Landed sizes answers 3 6 primed.shared).call
      ∙ (unfold iokit_init iokit_prime in refl),
  ap (λ (g : Shared). g.pending) mounted_shared,
  (snap_refresh-Landed sizes answers 3 6 primed.shared).idle,
  subst (IsOpen minute mounted.shared) (sym mounted_snapshot) mounted-IsStale,
)

Reach-IsRested_example :
    IsSound snap
    × (ttl_ns < since minute minute.now snap.uptime)
    × (min_rebuild_ns ≤ since minute minute.later mounted.shared.last_uptime)
Reach-IsRested_example =
    Reach-IsRested sizes start_world to_mounted snap minute mounted_snapshot minute_starts

-- A vnode operation has found no snapshot, and has put the call into the queue.
abbrev ensured : Threads
ensured = after_ensure (snap_ensure minute started.shared) started

to_ensured : Reach sizes start_world ensured
to_ensured = Reach.after to_started (Move.ensures minute refl)

abbrev queued : Threads
queued = record ensured { entering = ensured.entering - 1; queued = true }

one_enters : ensured.entering ≡ 1
unfolding iokit_init snap_ensure
one_enters = refl

to_queued : Reach sizes start_world queued
to_queued = Reach.after to_ensured (Move.enters (omega (arith, one_enters)))

Reach-IsFlight_example :
    (flights queued ≤ count_if queued.shared.building)
    × (count_if queued.shared.building ≤ count_if queued.shared.has_lock)
    × (asynchronous queued ≤ count_if queued.shared.has_call)
Reach-IsFlight_example = Reach-IsFlight sizes start_world to_queued

-- The stop cancels the queued call.
abbrev cancelled : Threads
cancelled = after_cancel queued

to_cancelled : Reach sizes start_world cancelled
to_cancelled = Reach.after to_queued (Move.cancels refl (omega (arith, one_enters)) refl)

cancelled_phase : cancelled.phase ≡ stopping true
unfolding iokit_init snap_ensure
cancelled_phase = refl

cancelled_stop-waits_example : ¬ Move sizes cancelled cancelled
cancelled_stop-waits_example = cancelled_stop-waits sizes start_world to_cancelled cancelled_phase

-- The call runs when the stop begins.
abbrev running : Threads
running = record queued { queued = false; calls = 4 ∷ queued.calls }

to_running : Reach sizes start_world running
to_running = Reach.after to_queued (Move.runs 4 refl)

abbrev waiting : Threads
waiting = after_cancel running

to_waiting : Reach sizes start_world waiting
to_waiting = Reach.after to_running (Move.cancels refl (omega (arith, one_enters)) refl)

waiting_phase : waiting.phase ≡ stopping false
unfolding iokit_init snap_ensure
waiting_phase = refl

stop-Ends_example : Ends sizes waiting
stop-Ends_example = stop-Ends sizes start_world to_waiting waiting_phase

-- The lock and the call, and no snapshot
abbrev ready : Shared
ready = record (unset start_world) { has_lock = true; has_call = true }

to_cancelled_none : Reach sizes start_world (after_cancel mounted)
to_cancelled_none = Reach.after to_mounted (Move.cancels refl refl refl)

and_false : (b : Bool) → (b && false) ≡ false
and_false true = refl
and_false false = refl

mounted_quiet : (after_cancel mounted).phase ≡ stopping false
mounted_quiet = ap stopping (and_false mounted.shared.has_call)

mounted_idle : must_wait (after_cancel mounted).shared ≡ false
mounted_idle =
    let idle = (snap_refresh-Landed sizes answers 3 6 primed.shared).idle in ground (arith, idle)

abbrev unloaded : Threads
unloaded = record (after_cancel mounted) {
  phase = stopped;
  shared = iokit_teardown sizes (after_cancel mounted).shared;
}

abbrev to_unloaded : Reach sizes start_world unloaded
to_unloaded = Reach.after to_cancelled_none (Move.stops false mounted_quiet mounted_idle)

Reach-IsBalanced_example :
    (unloaded.shared.world.live ≡ 1000 + lost sizes start_world to_unloaded + 0)
    × (unloaded.shared.world.snap_bytes ≡ 0 + 0)
Reach-IsBalanced_example = Reach-IsBalanced sizes start_world to_unloaded

snap_refresh-estimate_example :
    (estimate answers (snap_refresh sizes answers 3 6 ready).world ≡ snap.node_count)
    × ((snap_refresh sizes answers 3 6 ready).snapshot ≡ some snap)
snap_refresh-estimate_example =
    snap_refresh-estimate sizes answers answers 3 6 ready snap snap_is_built

snap_ensure-IsStale_example : ((snap_ensure minute ready).1 ≡ true) ↔ (
    (ready.has_lock ≡ true)
    × (ready.has_call ≡ true)
    × (ready.pending ≡ false)
    × (ready.building ≡ false)
    × IsOpen minute ready ready.snapshot)
snap_ensure-IsStale_example = snap_ensure-IsStale minute ready
