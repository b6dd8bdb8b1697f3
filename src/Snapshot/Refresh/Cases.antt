-- ===== src/Snapshot/Refresh/Cases.antt =====
-- kext/sysfs_iokit.cpp: the count of the refreshes on their way, and what each critical section does to
-- `g_building`.
use m_sl_sys_fs.Base.{
  ℕ, ◌+◌, ◌<◌, ◌≡◌, refl, Bool, true, false, ◌&&◌, ◌||◌, not, Option, none, some, length, arith,
  if_holds, inl, inr, ◌⊎◌,
}
use m_sl_sys_fs.Snapshot.{Snapshot}
use m_sl_sys_fs.Snapshot.Build.{Sizes, Answers, World}
use m_sl_sys_fs.Snapshot.Refresh.{
  Shared, Clock, snap_ensure, is_current, is_recent, publish, snap_refresh, have, iokit_prime,
}
use m_sl_sys_fs.Snapshot.Refresh.Steps.{Phase, in_use, stopping, stopped, Threads, count_if}

-- The refreshes that are on their way: about to be queued, queued, or running
abbrev pub asynchronous : Threads → ℕ
asynchronous s = s.entering + (count_if s.queued + length s.calls)

abbrev pub flights : Threads → ℕ
flights s = asynchronous s + length s.primes

abbrev pub was_cancelled : Phase → Bool
was_cancelled in_use = false
was_cancelled (stopping c) = c
was_cancelled stopped = false

abbrev pub is_in_use : Phase → Bool
is_in_use in_use = true
is_in_use (stopping c) = false
is_in_use stopped = false

-- `g_building` stands for the one refresh that is on its way, or for one that was cancelled.
pub record IsFlight (s : Threads) : Type 0 where
  pub count : flights s + count_if (was_cancelled s.phase) ≡ count_if s.shared.building
  pub locked : s.shared.building ≡ true → s.shared.has_lock ≡ true
  pub called : 0 < asynchronous s → s.shared.has_call ≡ true
  pub quiet : is_in_use s.phase ≡ false → s.entering + length s.primes ≡ 0
  pub cancelled : was_cancelled s.phase ≡ true → s.shared.has_call ≡ true
  pub ended : s.phase ≡ stopped → s.shared.building ≡ false

-- What `sysfs_snap_ensure` may do
pub ensure-cases :
    (c : Clock) (g : Shared)
    → (snap_ensure c g ≡ (g, false))
      ⊎ ((g.has_lock ≡ true)
          × (g.has_call ≡ true)
          × (g.building ≡ false)
          × (snap_ensure c g ≡ (record g { pending = true; building = true }, true)))
unfolding snap_ensure
ensure-cases c g =
    let Good : Shared × Bool → Type 0 = λ r.
      (r ≡ (g, false))
      ⊎ ((g.has_lock ≡ true)
          × (g.has_call ≡ true)
          × (g.building ≡ false)
          × (r ≡ (record g { pending = true; building = true }, true))) in
    if_holds Good (not g.has_lock) _ _ (λ e. inl refl)
      (λ locked.
        if_holds Good (is_current c g g.snapshot) _ _ (λ e. inl refl)
          (λ e.
            if_holds Good (is_recent c g g.snapshot) _ _ (λ e. inl refl)
              (λ e.
                if_holds Good (not g.pending && (not g.building && g.has_call)) _ _
                  (λ go. inr (ground (arith, locked), ground (arith, go), ground (arith, go), refl))
                  (λ e. inl refl))))

pub prime-cases :
    (g : Shared)
    → (iokit_prime g ≡ (g, false))
      ⊎ ((g.has_lock ≡ true)
          × (g.building ≡ false)
          × (iokit_prime g ≡ (record g { building = true }, true)))
unfolding iokit_prime
prime-cases g =
    let Good : Shared × Bool → Type 0 = λ r.
      (r ≡ (g, false))
      ⊎ ((g.has_lock ≡ true) × (g.building ≡ false) × (r ≡ (record g { building = true }, true))) in
    if_holds Good (not g.has_lock) _ _ (λ e. inl refl)
      (λ locked.
        if_holds Good (have g.snapshot || g.building) _ _ (λ e. inl refl)
          (λ go. inr (ground (arith, locked), ground (arith, go), refl)))

-- A refresh ends with no build under way; the lock and the call stay.
pub record Landed (g g' : Shared) : Type 0 where
  pub lock : g'.has_lock ≡ g.has_lock
  pub call : g'.has_call ≡ g.has_call
  pub idle : g'.building ≡ false

pub publish-Landed :
    (z : Sizes) (gen uptime : ℕ) (o : Option Snapshot) (w : World) (g : Shared)
    → Landed g (publish z gen uptime o w g)
publish-Landed z gen uptime none w g = record { lock = refl; call = refl; idle = refl }
publish-Landed z gen uptime (some t) w g = record { lock = refl; call = refl; idle = refl }

pub snap_refresh-Landed :
    (z : Sizes) (a : Answers) (gen uptime : ℕ) (g : Shared)
    → Landed g (snap_refresh z a gen uptime g)
unfolding snap_refresh
snap_refresh-Landed z a gen uptime g = publish-Landed z gen uptime _ _ g
