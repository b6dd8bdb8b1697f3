-- ===== src/Snapshot/Hash/Map.antt =====
-- The hash of kext/sysfs_iokit.cpp as a map: an insertion into a table with room adds the key unless
-- it is there, and changes nothing else.
use m_sl_sys_fs.Base.{
  ℕ, zero, suc, ◌+◌, ◌≤◌, ◌<◌, ◌≡◌, refl, ◌∙◌, ap, sym, Bool, true, false, Option, none, some, ◌==◌,
  ==_iff, if◌then◌else◌, arith, Bool-cases, Option-cases, inl, inr, subst,
}
use m_sl_sys_fs.Node.Hash.{write_at}
use m_sl_sys_fs.Node.Hash.Invariant.{write-same, write-other}
use m_sl_sys_fs.Snapshot.{Slots}
use m_sl_sys_fs.Snapshot.Hash.{masked, hash_of, hash_insert, find_loop, hash_find}
use m_sl_sys_fs.Snapshot.Hash.Probe.{IsPow2, masked-lt, probe, probe-lt, probe_reaches}
use m_sl_sys_fs.Snapshot.Hash.Find.{
  Inserted, found, filled, full, insert_loop-Inserted, IsMap, or_found, filled_other,
}

abbrev pub taken : Option (ℕ × ℕ) → ℕ
taken none = 0
taken (some v) = 1

-- The slots below `n` that are taken.
unfoldable pub used : ℕ → Slots → ℕ
used zero t = 0
used (suc n) t = taken (t n) + used n t

pub used-le : (n : ℕ) (t : Slots) → used n t ≤ n
unfolding used
used-le zero t = omega arith
used-le (suc n) t = ground (arith, used-le n t)

-- Fewer taken slots than slots: one is empty.
pub empty_slot : (n : ℕ) (t : Slots) → used n t < n → (s : ℕ) × (s < n) × (t s ≡ none)
unfolding used
empty_slot zero t l = absurd (omega arith)
empty_slot (suc n) t l = elim (Option-cases (t n)) [
  | inl z ↦ (n, omega arith, z)
  | inr (v, z) ↦
      let l' : 1 + used n t < suc n = rw z at l in
      let (s, b, e) = empty_slot n t (omega arith) in (s, omega arith, e)
]

used-above : (n s : ℕ) (t : Slots) (v : Option (ℕ × ℕ)) → n ≤ s → used n (write_at t s v) ≡ used n t
unfolding used
used-above zero s t v l = refl
used-above (suc n) s t v l =
    rw (write-other t s n v (ground arith), used-above n s t v (omega arith)) refl

used-write :
    (n s : ℕ) (t : Slots) (v : ℕ × ℕ)
    → s < n
    → t s ≡ none
    → used n (write_at t s (some v)) ≡ suc (used n t)
unfolding used
used-write zero s t v l e = absurd (omega arith)
used-write (suc n) s t v l e = elim (Bool-cases (s == n)) [
  | inl same ↦
      let p : s ≡ n = (==_iff s n).0 same in
      let z : t n ≡ none = ap t (sym p) ∙ e in
      rw (same, z, used-above n s t (some v) (omega arith)) (omega arith)
  | inr other ↦
      rw (write-other t s n (some v) other, used-write n s t v (ground (arith, other)) e)
        (omega arith)
]

abbrev pub is_found : Option ℕ → Bool
is_found none = false
is_found (some i) = true

module _ (size : ℕ) (p : IsPow2 size) (r i : ℕ) (t : Slots) (m : IsMap size t) where
  -- What an insertion leaves: a map again, with the key and with nothing else changed.
  pub record Inserts (t' : Slots) : Type 0 where
    pub is_map : IsMap size t'
    pub own : hash_find size t' r ≡ or_found (hash_find size t r) i
    pub others : (q : ℕ) → (q == r) ≡ false → hash_find size t' q ≡ hash_find size t q
    pub count :
        used size t' ≡ (if is_found (hash_find size t r) then used size t else suc (used size t))

  filled-Inserts :
      (s : ℕ)
      → s < size
      → t s ≡ none
      → hash_find size t r ≡ none
      → hash_find size (write_at t s (some (r, i))) r ≡ some i
      → Inserts (write_at t s (some (r, i)))
  filled-Inserts s l empty absent own = record {
    is_map = record {
      reached = λ s' q j w. elim (Bool-cases (s == s')) [
        | inl same ↦
            let v : some (r, i) ≡ some (q, j) =
              sym (write-same t s (some (r, i)))
              ∙ ap (write_at t s (some (r, i))) ((==_iff s s').0 same)
              ∙ w in
            let v' : r ≡ q = cc v in
            let v'' : i ≡ j = cc v in
            subst (λ k. hash_find size (write_at t s (some (r, i))) k ≡ some j) v'
              (own ∙ ap some v'')
        | inr apart ↦
            let old : hash_find size t q ≡ some j =
              m.reached s' q j (sym (write-other t s s' _ apart) ∙ w) in
            elim (Bool-cases (q == r)) [
              | inl eq ↦ absurd (cc (absent, ap (hash_find size t) ((==_iff q r).0 eq), old))
              | inr ne ↦ filled_other size p r i t m s empty q ne ∙ old
            ]
      ];
      inside = λ s' le. write-other t s s' _ (ground (arith, l, le)) ∙ m.inside s' le;
    };
    own = rw absent own;
    others = filled_other size p r i t m s empty;
    count = rw absent (used-write size s t (r, i) l empty);
  }

  kept-Inserts : (j : ℕ) → hash_find size t r ≡ some j → Inserts t
  kept-Inserts j e = record {
    is_map = m;
    own = rw e refl;
    others = λ q ne. refl;
    count = rw e refl;
  }

  -- With an empty slot, `sysfs_hash_insert` adds the key unless it is there.
  pub hash_insert-Inserts : used size t < size → Inserts (hash_insert size t r i)
  hash_insert-Inserts room =
      let h = masked size (hash_of r) in
      let hl : h < size = masked-lt size p (hash_of r) in
      let inserted : Inserted size size h r i t (hash_insert size t r i) =
        unfold hash_insert in insert_loop-Inserted size size h r i t in
      elim inserted [
        | found j e same ↦ subst Inserts (sym same) (kept-Inserts j (unfold hash_find in e))
        | filled k e l empty same own ↦ subst Inserts (sym same) (
            filled-Inserts (probe size h k) (probe-lt size p h k hl) empty (unfold hash_find in e)
              (unfold hash_find in subst (λ t'. find_loop size size h r t' ≡ some i) same own))
        | full all ↦
            let (s, l, e) = empty_slot size t room in
            let (j, lj, reach) = probe_reaches size p h s hl l in absurd (all j lj (ap t reach ∙ e))
      ]

-- The empty table.
abbrev pub no_slots : Slots
no_slots s = none

pub no_slots-IsMap : (size : ℕ) → IsMap size no_slots
no_slots-IsMap size = record { reached = λ s r i e. absurd (cc e); inside = λ s le. refl }

pub used-no_slots : (n : ℕ) → used n no_slots ≡ 0
unfolding used
used-no_slots zero = refl
used-no_slots (suc n) = omega (arith, used-no_slots n)

find_loop-no_slots : (size n h r : ℕ) → find_loop size n h r no_slots ≡ none
unfolding find_loop
find_loop-no_slots size zero h r = refl
find_loop-no_slots size (suc n) h r = refl

pub hash_find-no_slots : (size r : ℕ) → hash_find size no_slots r ≡ none
unfolding hash_find
hash_find-no_slots size r = find_loop-no_slots size size (masked size (hash_of r)) r
