-- ===== src/Snapshot/Hash.antt =====
-- The open-addressing hash of kext/sysfs_iokit.cpp from registry ids to node indices.
pub mod Probe
pub mod Find
pub mod Map
pub mod Assoc
use m_sl_sys_fs.Base.{
  ℕ, zero, suc, ◌+◌, ◌-◌, ◌*◌, ◌/◌, ◌%◌, ◌^◌, Option, none, some, ◌==◌, if◌then◌else◌, bit_and,
}
use m_sl_sys_fs.Snapshot.{Slots}
use m_sl_sys_fs.Node.Hash.{write_at}

-- `sysfs_hash_of`: the multiplication wraps at 64 bits, and 24 bits are left.
unfoldable pub hash_of : ℕ → ℕ
hash_of regid = regid * 0x9E3779B97F4A7C15 % 2 ^ 64 / 2 ^ 40

-- A position cut to the table, `& mask`
abbrev pub masked : ℕ → ℕ → ℕ
masked size h = bit_and h (size - 1)

-- One round of `sysfs_hash_insert`: what it makes of the slot at `h`, and of the later rounds.
abbrev pub insert_round : Slots → ℕ → ℕ → ℕ → Option (ℕ × ℕ) → Slots → Slots
insert_round slots h regid index none rest = write_at slots h (some (regid, index))
insert_round slots h regid index (some (r, i)) rest = if r == regid then slots else rest

-- The loop, by the rounds that are left
unfoldable pub insert_loop : ℕ → ℕ → ℕ → ℕ → ℕ → Slots → Slots
insert_loop size zero h regid index slots = slots
insert_loop size (suc n) h regid index slots =
    let rest = insert_loop size n (masked size (h + 1)) regid index slots in
    insert_round slots h regid index (slots h) rest

-- `sysfs_hash_insert`
unfoldable pub hash_insert : ℕ → Slots → ℕ → ℕ → Slots
hash_insert size slots regid index =
    insert_loop size size (masked size (hash_of regid)) regid index slots

-- One round of `sysfs_hash_find`
abbrev pub find_round : ℕ → Option (ℕ × ℕ) → Option ℕ → Option ℕ
find_round regid none rest = none
find_round regid (some (r, i)) rest = if r == regid then some i else rest

unfoldable pub find_loop : ℕ → ℕ → ℕ → ℕ → Slots → Option ℕ
find_loop size zero h regid slots = none
find_loop size (suc n) h regid slots =
    let rest = find_loop size n (masked size (h + 1)) regid slots in find_round regid (slots h) rest

-- `sysfs_hash_find`, for a snapshot that has a table
unfoldable pub hash_find : ℕ → Slots → ℕ → Option ℕ
hash_find size slots regid = find_loop size size (masked size (hash_of regid)) regid slots
