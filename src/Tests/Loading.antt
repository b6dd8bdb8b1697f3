-- ===== src/Tests/Loading.antt =====
-- The kext is loaded while the kernel holds a lock group of another one.
use m_sl_sys_fs.Base.{none, some, [], ◌∷◌}
use m_sl_sys_fs.Load.{Allocs, lock_group, start}
use m_sl_sys_fs.Load.Balance.{unloaded, IsBalanced, start-IsBalanced}

abbrev allocs : Allocs
allocs = record {
  tag = some 16;
  attr = some 32;
  group = some 48;
  mutex = some 64;
  lock = some 96;
  call = none;
}

start-IsBalanced_example :
    IsBalanced (lock_group 8 ∷ []) (start allocs allocs (some 80) (unloaded (lock_group 8 ∷ [])))
start-IsBalanced_example =
    start-IsBalanced (lock_group 8 ∷ []) (some 16) (some 32) (some 48) (some 64) (some 96) none
      (some 80) allocs
