-- ===== src/Load/Balance.antt =====
-- Loading and unloading (kext/sysfs.c) are balanced.
use m_sl_sys_fs.Base.{ℕ, ◌≡◌, ◌⊎◌, inl, inr, refl, true, false, Option, none, some, List, ==_refl}
use m_sl_sys_fs.Load.{
  set_up_iokit, release_iokit, Resource, Statics, Allocs, init, init_tag, init_attr, init_group,
  init_mutex, fini, start, start_fs, stop_kext, stop_fs, stop_rest, sysctl_register,
  sysctl_unregister, kern_failure,
}

-- The static variables when the kext is loaded; `held` is what the rest of the kernel holds.
abbrev pub unloaded : List Resource → Statics
unloaded held = record {
  tag = none;
  group = none;
  mutex = none;
  table_ref = none;
  lock = none;
  call = none;
  initialized = false;
  held = held;
}

-- Nothing is left of the kext: no pointer, and no resource beside `held`.
pub record IsClean (held : List Resource) (s : Statics) : Type 0 where
  pub tag : s.tag ≡ none
  pub group : s.group ≡ none
  pub mutex : s.mutex ≡ none
  pub lock : s.lock ≡ none
  pub call : s.call ≡ none
  pub same : s.held ≡ held

-- What loading comes to: a failure that leaves nothing behind, or a success after which `stop_kext`, let
-- through by the kernel, leaves nothing behind.
abbrev pub IsBalanced : List Resource → ℕ × Statics → Type 0
IsBalanced held (ret, s) =
    ((ret ≡ kern_failure) × IsClean held s)
    ⊎ ((ret ≡ 0) × ((stop_kext true true s).0 ≡ 0) × IsClean held (stop_kext true true s).1)

-- However the allocations and the registration of the file system come out when the kext is loaded:
-- loading fails and gives back all it took, or it succeeds, and unloading then, once
-- sysfs_iokit_teardown returns, gives back all of it, although the kernel calls `sysfs_init` a second
-- time.
pub start-IsBalanced :
    (held : List Resource) (tag attr group mutex lock call added : Option ℕ) (again : Allocs)
    → IsBalanced held (
        start
          (record {
            tag = tag;
            attr = attr;
            group = group;
            mutex = mutex;
            lock = lock;
            call = call;
          })
          again
          added
          (unloaded held))
unfolding start start_fs stop_kext stop_fs stop_rest init init_tag init_attr init_group init_mutex
    fini sysctl_register sysctl_unregister set_up_iokit release_iokit
start-IsBalanced held none attr group mutex lock call added again =
    inl (
      refl,
      record { tag = refl; group = refl; mutex = refl; lock = refl; call = refl; same = refl },
    )
start-IsBalanced held (some t) none group mutex lock call added again = inl (
  refl,
  record {
    tag = refl;
    group = refl;
    mutex = refl;
    lock = refl;
    call = refl;
    same = rw (==_refl t) refl;
  },
)
start-IsBalanced held (some t) (some x) none mutex lock call added again = inl (
  refl,
  record {
    tag = refl;
    group = refl;
    mutex = refl;
    lock = refl;
    call = refl;
    same = rw (==_refl x, ==_refl t) refl;
  },
)
start-IsBalanced held (some t) (some x) (some g) none lock call added again = inl (
  refl,
  record {
    tag = refl;
    group = refl;
    mutex = refl;
    lock = refl;
    call = refl;
    same = rw (==_refl x, ==_refl g, ==_refl t) refl;
  },
)
start-IsBalanced held (some t) (some x) (some g) (some m) lock call none again = inl (
  refl,
  record {
    tag = refl;
    group = refl;
    mutex = refl;
    lock = refl;
    call = refl;
    same = rw (==_refl x, ==_refl t, ==_refl m, ==_refl g) refl;
  },
)
start-IsBalanced held (some t) (some x) (some g) (some m) none none (some r) again = inr (
  refl,
  refl,
  record {
    tag = refl;
    group = refl;
    mutex = refl;
    lock = refl;
    call = refl;
    same = rw (==_refl x, ==_refl r, ==_refl t, ==_refl m, ==_refl g) refl;
  },
)
start-IsBalanced held (some t) (some x) (some g) (some m) none (some c) (some r) again = inr (
  refl,
  refl,
  record {
    tag = refl;
    group = refl;
    mutex = refl;
    lock = refl;
    call = refl;
    same = rw (==_refl x, ==_refl c, ==_refl r, ==_refl t, ==_refl m, ==_refl g) refl;
  },
)
start-IsBalanced held (some t) (some x) (some g) (some m) (some l) none (some r) again = inr (
  refl,
  refl,
  record {
    tag = refl;
    group = refl;
    mutex = refl;
    lock = refl;
    call = refl;
    same = rw (==_refl x, ==_refl l, ==_refl r, ==_refl t, ==_refl m, ==_refl g) refl;
  },
)
start-IsBalanced held (some t) (some x) (some g) (some m) (some l) (some c) (some r) again = inr (
  refl,
  refl,
  record {
    tag = refl;
    group = refl;
    mutex = refl;
    lock = refl;
    call = refl;
    same = rw (==_refl x, ==_refl c, ==_refl l, ==_refl r, ==_refl t, ==_refl m, ==_refl g) refl;
  },
)
