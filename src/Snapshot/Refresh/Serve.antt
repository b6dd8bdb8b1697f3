-- ===== src/Snapshot/Refresh/Serve.antt =====
-- kext/sysfs_iokit.cpp: what the queries answer at any time, with and without a published snapshot.
use m_sl_sys_fs.Base.{Bool, true, false, ◌≡◌, refl, Option, none, some, [], ◌==◌, if◌then◌else◌}
use m_sl_sys_fs.Iokit.{Iokit}
use m_sl_sys_fs.Snapshot.{Snapshot}
use m_sl_sys_fs.Snapshot.Build.{Sizes, World}
use m_sl_sys_fs.Snapshot.Build.Sound.{IsSound, IsSound-IsBounded}
use m_sl_sys_fs.Snapshot.Query.{iokit}
use m_sl_sys_fs.Snapshot.Query.Shows.{view, iokit-Shows, iokit-Names}
use m_sl_sys_fs.Snapshot.Refresh.{Shared}
use m_sl_sys_fs.Snapshot.Refresh.Steps.{Threads, Reach}
use m_sl_sys_fs.Snapshot.Refresh.Kept.{Reach-IsSound}
use m_sl_sys_fs.Vnops.Readdir.Pages.{View, Shows}
use m_sl_sys_fs.Vnops.Lookup.Listed.{Names}

-- The returns of the queries without the lock or without a snapshot
abbrev pub no_registry : Iokit
no_registry = record {
  child_at = λ regid index. none;
  child_named = λ regid name. none;
  parent_of = λ regid. if regid == 0 then some 0 else none;
  name_of = λ regid buflen. [];
  class_child_at = λ class whole index. none;
  class_child_named = λ class whole name. none;
  path_of = λ regid buflen. [];
  module_at = λ index. none;
  module_named = λ name. none;
  module_by_tag = λ tag. none;
}

abbrev pub iokit_of : Option Snapshot → Iokit
iokit_of none = no_registry
iokit_of (some s) = iokit s

-- The queries, with their tests of `g_lock` and `g_snapshot`
unfoldable pub served : Shared → Iokit
served g = if g.has_lock then iokit_of g.snapshot else no_registry

abbrev pub empty_view : View
empty_view = record { children = λ id. []; members = λ class whole. []; modules = [] }

abbrev pub view_of : Option Snapshot → View
view_of none = empty_view
view_of (some s) = view s

-- The children, the members of the classes and the modules at the moment
unfoldable pub lists : Shared → View
lists g = if g.has_lock then view_of g.snapshot else empty_view

iokit_of-Shows :
    (o : Option Snapshot)
    → ((s : Snapshot) → o ≡ some s → IsSound s)
    → Shows (iokit_of o) (view_of o) × Names (iokit_of o) (view_of o)
iokit_of-Shows none sound = (
  record { child = λ id k. refl; member = λ class whole k. refl; module_ = λ k. refl },
  record { child = λ id name. refl; module_ = λ name. refl },
)
iokit_of-Shows (some s) sound =
    let b = IsSound-IsBounded s (sound s refl) in (iokit-Shows s b, iokit-Names s b)

with_lock-Shows :
    (locked : Bool) (o : Option Snapshot)
    → ((s : Snapshot) → o ≡ some s → IsSound s)
    → Shows (if locked then iokit_of o else no_registry) (if locked then view_of o else empty_view)
      × Names
          (if locked then iokit_of o else no_registry)
          (if locked then view_of o else empty_view)
with_lock-Shows true o sound = iokit_of-Shows o sound
with_lock-Shows false o sound = iokit_of-Shows none (λ s e. absurd (cc e))

-- Whatever the threads do in any order, and also before the first snapshot and after the stop: the
-- queries by position and by name answer from the same lists, which is what readdir and lookup need of
-- the registry.
pub served-Shows :
    (z : Sizes) (w : World) {s : Threads}
    → Reach z w s
    → Shows (served s.shared) (lists s.shared) × Names (served s.shared) (lists s.shared)
unfolding served lists
served-Shows z w {s} r =
    with_lock-Shows s.shared.has_lock s.shared.snapshot (λ t e. (Reach-IsSound z w r t e))
