-- ===== src/Snapshot/Build/Fits.antt =====
-- Bounds of a snapshot (kext/sysfs_iokit.cpp): the capacity, the hash and the names.
use native.Mathlib.Nat.{pow-suc}
use m_sl_sys_fs.Base.{
  ℕ, zero, suc, ◌+◌, ◌*◌, ◌/◌, ◌%◌, ◌^◌, ◌≤◌, ◌<◌, ◌≡◌, refl, ◌∙◌, ap, sym, Bool, Option, none,
  some, List, [], ◌∷◌, ◌++◌, Bytes, codes, All, ◌==◌, ltb, arith, tests, Bool-cases, Option-cases,
  inl, inr, length, length-append, length-take, to_decimal, digits_fuel, str_eq,
}
use m_sl_sys_fs.Node.Hash.{write_at}
use m_sl_sys_fs.Snapshot.{SnapNode}
use m_sl_sys_fs.Snapshot.Hash.{hash_find}
use m_sl_sys_fs.Snapshot.Hash.Probe.{IsPow2}
use m_sl_sys_fs.Snapshot.Walk.{
  RegEntry, Walk, kept_name, class_fields, class_of, member_of, node_of, start_walk, visit, walk,
  table_cap, table_size, grow_size, class_no, class_power,
}
use m_sl_sys_fs.Snapshot.Children.{count_dups, dup_row, dup_rows}
use m_sl_sys_fs.Snapshot.Children.Ordinals.{dup_rows-Reordered}
use m_sl_sys_fs.Snapshot.Query.{display}

pub table_cap-pos : (n : ℕ) → 1 ≤ table_cap n
unfolding table_cap
table_cap-pos n = omega arith

pub table_cap-le : (n : ℕ) → table_cap n ≤ 16384
unfolding table_cap
table_cap-le n = omega arith

-- The size stays a power of two, and reaches its target.
grow_size-pow : (fuel h target k : ℕ) → h ≡ 2 ^ k → IsPow2 (grow_size fuel h target)
unfolding grow_size
grow_size-pow zero h target k e = (k, e)
grow_size-pow (suc fuel) h target k e = elim (Bool-cases (ltb h target)) [
  | inl l ↦ rw l (grow_size-pow fuel (h * 2) target (suc k) (ap (λ z. z * 2) e ∙ sym (pow-suc 2 k)))
  | inr l ↦ rw l (k, e)
]

grow_size-reaches :
    (fuel h target : ℕ) → 0 < h → target ≤ h + fuel → target ≤ grow_size fuel h target
unfolding grow_size
grow_size-reaches zero h target pos l = omega arith
grow_size-reaches (suc fuel) h target pos l = elim (Bool-cases (ltb h target)) [
  | inl b ↦ rw b (grow_size-reaches fuel (h * 2) target (omega arith) (omega arith))
  | inr b ↦ rw b (grind tests)
]

pub table_size-IsPow2 : (cap : ℕ) → IsPow2 (table_size cap)
unfolding table_size
table_size-IsPow2 cap = grow_size-pow (cap * 2) 16 (cap * 2) 4 refl

-- The hash has twice as many slots as the table has nodes: the doubling loop ends in its fuel.
pub table_size-room : (cap : ℕ) → cap * 2 ≤ table_size cap
unfolding table_size
table_size-room cap = grow_size-reaches (cap * 2) 16 (cap * 2) (omega arith) (omega arith)

grow_size-lt :
    (fuel h target : ℕ) → h < 2 * target → 0 < target → grow_size fuel h target < 2 * target
unfolding grow_size
grow_size-lt zero h target l pos = l
grow_size-lt (suc fuel) h target l pos = elim (Bool-cases (ltb h target)) [
  | inl b ↦
      let c : h < target = grind tests in rw b (grow_size-lt fuel (h * 2) target (omega arith) pos)
  | inr b ↦ rw b l
]

-- For every estimate the loop that doubles the size of the hash ends by its test: at a power of two,
-- with at least two slots for each node, and before the size wraps at 32 bits.
pub table_size-stops :
    (n : ℕ)
    → (table_cap n * 2 ≤ table_size (table_cap n))
      × (table_size (table_cap n) ≤ 65536)
      × IsPow2 (table_size (table_cap n))
table_size-stops n =
    let cap = table_cap n in
    let least : 65 ≤ cap = unfold table_cap in omega arith in
    let most : table_size cap < 2 * (cap * 2) =
      unfold table_size in
      grow_size-lt (cap * 2) 16 (cap * 2) (omega (arith, least)) (omega (arith, least)) in
    (table_size-room cap, omega (arith, most, table_cap-le n), table_size-IsPow2 cap)

-- The names of a node fit into their fields.
pub record Fits (x : SnapNode) : Type 0 where
  pub name_fits : length x.name ≤ 127
  pub bsdname_fits : length x.bsdname ≤ 31

kept_name-le : (o : Option Bytes) → length (kept_name o) ≤ 127
kept_name-le none = omega arith
kept_name-le (some s) = omega (arith, length-take 127 s)

member_of-le :
    (class : ℕ) (name : Bytes) (bsd : Option Bytes) (whole : Option Bool)
    → length (member_of class name bsd whole).2 ≤ 31
unfolding member_of
member_of-le class name none whole = elim (Bool-cases (class == class_power)) [
  | inl e ↦ rw e (omega (arith, length-take 31 name))
  | inr e ↦ rw e (omega arith)
]
member_of-le class name (some bsd) whole = omega (arith, length-take 31 bsd)

class_fields-le :
    (class : ℕ) (name : Bytes) (bsd : Option Bytes) (whole : Option Bool)
    → length (class_fields class name bsd whole).2 ≤ 31
class_fields-le class name bsd whole = elim (Bool-cases (class == class_no)) [
  | inl e ↦ rw e (omega arith)
  | inr e ↦ rw e (member_of-le class name bsd whole)
]

node_of-Fits : (e : RegEntry) → Fits (node_of e)
unfolding node_of
node_of-Fits e = record {
  name_fits = kept_name-le e.entry_name;
  bsdname_fits = class_fields-le (class_of e) (kept_name e.entry_name) e.bsd_name e.whole;
}

-- What holds of each node that the walk writes, and of zeroed memory, holds of the whole table.
module _ (P : SnapNode → Type 0) where
  write_each :
      (nodes : ℕ → SnapNode) (c : ℕ) (e : RegEntry)
      → P (node_of e)
      → ((i : ℕ) → P (nodes i))
      → (i : ℕ) → P (write_at nodes c (node_of e) i)
  write_each nodes c e taken all i = elim (Bool-cases (c == i)) [
    | inl h ↦ rw h taken
    | inr h ↦ rw h (all i)
  ]

  visit_each :
      (size : ℕ) (e : RegEntry) (b : Walk)
      → P (node_of e)
      → ((i : ℕ) → P (b.nodes i))
      → (i : ℕ) → P ((visit size e b).nodes i)
  unfolding visit
  visit_each size e b taken all i = elim (Bool-cases (e.id == 0)) [
    | inl z ↦ rw z (all i)
    | inr z ↦ elim (Option-cases (hash_find size b.hash e.id)) [
      | inl absent ↦ rw (z, absent) (write_each b.nodes b.count e taken all i)
      | inr (j, h) ↦ rw (z, h) (all i)
    ]
  ]

  pub walk_each :
      (size cap : ℕ) (es : List RegEntry) (b : Walk)
      → All (λ e. P (node_of e)) es
      → ((i : ℕ) → P (b.nodes i))
      → (i : ℕ) → P ((walk size cap es b).nodes i)
  unfolding walk
  walk_each size cap [] b each all i = all i
  walk_each size cap (e ∷ es) b each all i = elim (Bool-cases (ltb b.count cap)) [
    | inl l ↦
        rw l (walk_each size cap es (visit size e b) each.1 (visit_each size e b each.0 all) i)
    | inr l ↦ rw l (all i)
  ]

every : (Q : RegEntry → Type 0) → ((e : RegEntry) → Q e) → (es : List RegEntry) → All Q es
every Q q [] = tt
every Q q (e ∷ es) = (q e, every Q q es)

pub start-Fits :
    (size cap : ℕ) (es : List RegEntry) (i : ℕ)
    → Fits ((walk size cap es (start_walk size)).nodes i)
start-Fits size cap es i =
    walk_each Fits size cap es (start_walk size) (every (λ e. Fits (node_of e)) node_of-Fits es)
      (λ j. unfold start_walk in record { name_fits = omega arith; bsdname_fits = omega arith }) i

abbrev pub IsBare : SnapNode → Type 0
IsBare x = (x.num_children ≡ 0) × (x.dup_ordinal ≡ 0)

node_of-IsBare : (e : RegEntry) → IsBare (node_of e)
unfolding node_of
node_of-IsBare e = (refl, refl)

pub start-IsBare :
    (size cap : ℕ) (es : List RegEntry) (i : ℕ)
    → IsBare ((walk size cap es (start_walk size)).nodes i)
start-IsBare size cap es i =
    walk_each IsBare size cap es (start_walk size)
      (every (λ e. IsBare (node_of e)) node_of-IsBare es) (λ j. unfold start_walk in (refl, refl)) i

-- The ordinals are less than the number of siblings.
count_dups-le :
    (nodes : ℕ → SnapNode) (a : ℕ → ℕ) (base ci k : ℕ) → count_dups nodes a base ci k ≤ k
unfolding count_dups
count_dups-le nodes a base ci zero = omega arith
count_dups-le nodes a base ci (suc k) =
    elim (Bool-cases (str_eq (nodes (a (base + k))).name (nodes ci).name)) [
      | inl e ↦ rw e (omega (arith, count_dups-le nodes a base ci k))
      | inr e ↦ rw e (omega (arith, count_dups-le nodes a base ci k))
    ]

dup_row-le :
    (a : ℕ → ℕ) (base n bound : ℕ) (nodes : ℕ → SnapNode)
    → n ≤ bound
    → ((i : ℕ) → (nodes i).dup_ordinal ≤ bound)
    → (i : ℕ) → (dup_row a base n nodes i).dup_ordinal ≤ bound
unfolding dup_row
dup_row-le a base zero bound nodes l all i = all i
dup_row-le a base (suc n) bound nodes l all i = elim (Bool-cases (a (base + n) == i)) [
  | inl e ↦ rw e (omega (arith, count_dups-le (dup_row a base n nodes) a base (a (base + n)) n))
  | inr e ↦ rw e (dup_row-le a base n bound nodes (omega arith) all i)
]

pub dup_rows-le :
    (a : ℕ → ℕ) (m bound : ℕ) (nodes : ℕ → SnapNode)
    → ((p : ℕ) → p < m → (nodes p).num_children ≤ bound)
    → ((i : ℕ) → (nodes i).dup_ordinal ≤ bound)
    → (i : ℕ) → (dup_rows a m nodes i).dup_ordinal ≤ bound
unfolding dup_rows
dup_rows-le a zero bound nodes few all i = all i
dup_rows-le a (suc m) bound nodes few all i =
    let done = dup_rows a m nodes in
    let g : (done m).num_children ≡ (nodes m).num_children =
      ap (λ (x : SnapNode). x.num_children) (dup_rows-Reordered a m nodes m) in
    dup_row-le a (done m).first_child (done m).num_children bound done
      (omega (arith, few m (omega arith), g))
      (dup_rows-le a m bound nodes (λ p l. few p (omega arith)) all) i

-- Decimal texts are short.
digits_length :
    (k f n : ℕ) (out : Bytes) → n < 10 ^ suc k → length (digits_fuel f n out) ≤ length out + suc k
unfolding digits_fuel
digits_length k zero n out l = omega arith
digits_length zero (suc f) n out l = ground arith
digits_length (suc k) (suc f) n out l = elim (Bool-cases (ltb n 10)) [
  | inl e ↦ rw e (omega arith)
  | inr e ↦
      let p : 10 ^ suc (suc k) ≡ 10 ^ suc k * 10 = pow-suc 10 (suc k) in
      rw e (omega (arith, digits_length k f (n / 10) ((b'0' + n % 10) ∷ out) (omega (arith, p))))
]

-- What a node is shown under fits into the smallest buffer.
pub display-lt :
    (x : SnapNode) → length x.name ≤ 127 → x.dup_ordinal ≤ 16384 → length (display x) < 144
unfolding display to_decimal
display-lt x l d = elim (Bool-cases (x.dup_ordinal == 0)) [
  | inl e ↦ rw e (omega arith)
  | inr e ↦
      rw (e, length-append {0} x.name (codes "@" ++ to_decimal x.dup_ordinal))
        (omega (arith, digits_length 4 (suc x.dup_ordinal) x.dup_ordinal [] (omega arith)))
]
