-- ===== src/Load.antt =====
-- kext/sysfs.c: what the kext allocates when it is loaded, and gives back when it is unloaded or when
-- loading fails. `sysfs_iokit_init` of kext/sysfs_iokit.cpp is part of it; of `sysfs_iokit_teardown`
-- what it gives back once no refresh is on its way (how it waits for that, and the snapshot that it
-- frees, is the subject of Snapshot.Refresh).
pub mod Balance
use m_sl_sys_fs.Base.{
  ℕ, suc, Bool, true, false, Option, none, some, List, [], ◌∷◌, ◌==◌, if◌then◌else◌,
}
use m_sl_sys_fs.Types.{enomem}

-- What the kernel hands out, with its address, and what is registered with it.
pub data Resource : Type 0 where
  osmalloc_tag : ℕ → Resource
  group_attr : ℕ → Resource
  lock_group : ℕ → Resource
  hash_mutex : ℕ → Resource
  vfs_entry : ℕ → Resource
  snapshot_lock : ℕ → Resource  -- `g_lock`
  refresh_call : ℕ → Resource
  oid : ℕ → Resource

abbrev pub is_same : Resource → Resource → Bool
is_same (osmalloc_tag a) (osmalloc_tag b) = a == b
is_same (group_attr a) (group_attr b) = a == b
is_same (lock_group a) (lock_group b) = a == b
is_same (hash_mutex a) (hash_mutex b) = a == b
is_same (vfs_entry a) (vfs_entry b) = a == b
is_same (snapshot_lock a) (snapshot_lock b) = a == b
is_same (refresh_call a) (refresh_call b) = a == b
is_same (oid a) (oid b) = a == b
is_same _ _ = false

-- A resource is given back once; to give back what is not held changes nothing.
abbrev pub give_back : Resource → List Resource → List Resource
give_back r [] = []
give_back r (x ∷ xs) = if is_same r x then xs else x ∷ give_back r xs

-- The static variables, and what the kext and the rest of the kernel hold.
pub record Statics : Type 0 where
  pub tag : Option ℕ
  pub group : Option ℕ
  pub mutex : Option ℕ
  pub table_ref : Option ℕ
  pub lock : Option ℕ
  pub call : Option ℕ
  pub initialized : Bool
  pub held : List Resource

-- What the allocators return; none is NULL.
pub record Allocs : Type 0 where
  pub tag : Option ℕ
  pub attr : Option ℕ
  pub group : Option ℕ
  pub mutex : Option ℕ
  pub lock : Option ℕ
  pub call : Option ℕ

abbrev pub hold : Resource → Statics → Statics
hold r s = record s { held = r ∷ s.held }

abbrev pub drop_tag : Option ℕ → Statics → Statics
drop_tag none s = s
drop_tag (some t) s = record s { tag = none; held = give_back (osmalloc_tag t) s.held }

abbrev pub drop_mutex : Option ℕ → Statics → Statics
drop_mutex none s = s
drop_mutex (some m) s = record s { mutex = none; held = give_back (hash_mutex m) s.held }

abbrev pub drop_group : Option ℕ → Statics → Statics
drop_group none s = s
drop_group (some g) s = record s { group = none; held = give_back (lock_group g) s.held }

-- The labels `fail_tag` and `fail_grp`
abbrev pub fail_tag : Statics → ℕ × Statics
fail_tag s = (enomem, drop_tag s.tag s)

abbrev pub fail_grp : Statics → ℕ × Statics
fail_grp s = fail_tag (drop_group s.group s)

unfoldable pub init_mutex : Option ℕ → Statics → ℕ × Statics
init_mutex none s = fail_grp (record s { mutex = none })
init_mutex (some m) s = (0, hold (hash_mutex m) (record s { mutex = some m; initialized = true }))

-- The lock group; its attribute is given back at once, whether or not there is a group.
unfoldable pub init_group : Allocs → ℕ → Option ℕ → Statics → ℕ × Statics
init_group a attr none s =
    fail_tag (record s { group = none; held = give_back (group_attr attr) s.held })
init_group a attr (some g) s =
    init_mutex a.mutex
      (record s { group = some g; held = give_back (group_attr attr) (lock_group g ∷ s.held) })

unfoldable pub init_attr : Allocs → Option ℕ → Statics → ℕ × Statics
init_attr a none s = fail_tag s
init_attr a (some attr) s = init_group a attr a.group (hold (group_attr attr) s)

unfoldable pub init_tag : Allocs → Option ℕ → Statics → ℕ × Statics
init_tag a none s = (enomem, record s { tag = none })
init_tag a (some t) s = init_attr a a.attr (hold (osmalloc_tag t) (record s { tag = some t }))

-- `sysfs_init`
unfoldable pub init : Allocs → Statics → ℕ × Statics
init a s = if s.initialized then (0, s) else init_tag a a.tag s

-- `sysfs_fini`; `initialized` is a static variable of `sysfs_init`, and stays set.
unfoldable pub fini : Statics → Statics
fini s = let s1 = drop_tag s.tag s in let s2 = drop_mutex s1.mutex s1 in drop_group s2.group s2

abbrev pub kern_failure : ℕ
kern_failure = 5

-- `sysfs_sysctl_register`: the node, vfs_getattr, vnops, snap_builds, snap_bytes and live_nodes
unfoldable pub sysctl_register : Statics → Statics
sysctl_register s =
    hold (oid 5) (hold (oid 4) (hold (oid 3) (hold (oid 2) (hold (oid 1) (hold (oid 0) s)))))

abbrev pub unhold : Resource → Statics → Statics
unhold r s = record s { held = give_back r s.held }

-- `sysfs_sysctl_unregister`
unfoldable pub sysctl_unregister : Statics → Statics
sysctl_unregister s =
    unhold (oid 0)
      (unhold (oid 1) (unhold (oid 2) (unhold (oid 3) (unhold (oid 4) (unhold (oid 5) s)))))

abbrev pub take_lock : Option ℕ → Option ℕ → Statics → Statics
take_lock (some l) a s = s
take_lock none none s = s
take_lock none (some l) s = hold (snapshot_lock l) (record s { lock = some l })

abbrev pub take_call : Option ℕ → Option ℕ → Statics → Statics
take_call (some c) a s = s
take_call none none s = s
take_call none (some c) s = hold (refresh_call c) (record s { call = some c })

-- `sysfs_iokit_init`, which tells nobody when an allocation fails
unfoldable pub set_up_iokit : Allocs → Statics → Statics
set_up_iokit a s = let s1 = take_lock s.lock a.lock s in take_call s1.call a.call s1

abbrev pub drop_call : Option ℕ → Statics → Statics
drop_call none s = s
drop_call (some c) s = record s { call = none; held = give_back (refresh_call c) s.held }

abbrev pub drop_lock : Option ℕ → Statics → Statics
drop_lock none s = s
drop_lock (some l) s = record s { lock = none; held = give_back (snapshot_lock l) s.held }

-- What `sysfs_iokit_teardown` gives back when no refresh is on its way
unfoldable pub release_iokit : Statics → Statics
release_iokit s = let s1 = drop_call s.call s in drop_lock s1.lock s1

-- From `vfs_fsadd` on. When it succeeds it has called the entry's `vfs_init`, which is `sysfs_init`
-- again, with what the allocators would return then.
unfoldable pub start_fs : Allocs → Allocs → Option ℕ → Statics → ℕ × Statics
start_fs a again none s = (kern_failure, fini (record s { table_ref = none }))
start_fs a again (some r) s =
    let s' = hold (vfs_entry r) (record (init again s).1 { table_ref = some r }) in
    (0, sysctl_register (set_up_iokit a s'))

-- `sysfs_start`
unfoldable pub start : Allocs → Allocs → Option ℕ → Statics → ℕ × Statics
start a again added s =
    if (init a s).0 == 0 then start_fs a again added (init a s).1 else (kern_failure, (init a s).1)

-- From `sysfs_sysctl_unregister` on, where `sysfs_iokit_teardown` finds no refresh on its way
unfoldable pub stop_rest : Statics → ℕ × Statics
stop_rest s = (0, fini (release_iokit (sysctl_unregister s)))

-- `vfs_fsremove`, which fails while something is mounted
unfoldable pub stop_fs : Bool → Option ℕ → Statics → ℕ × Statics
stop_fs removed none s = stop_rest s
stop_fs false (some r) s = (kern_failure, s)
stop_fs true (some r) s = stop_rest (unhold (vfs_entry r) s)

-- `sysfs_stop`
unfoldable pub stop_kext : Bool → Bool → Statics → ℕ × Statics
stop_kext false removed s = (kern_failure, s)
stop_kext true removed s = stop_fs removed s.table_ref s
