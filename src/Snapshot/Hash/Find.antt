-- ===== src/Snapshot/Hash/Find.antt =====
-- The hash of kext/sysfs_iokit.cpp is a finite map: what an insertion changes of what is found.
use m_sl_sys_fs.Base.{
  ℕ, zero, suc, ◌+◌, ◌≤◌, ◌<◌, ◌≡◌, ◌≢◌, refl, ◌∙◌, ap, sym, false, Option, none, some, ◌==◌,
  ==_iff, ==_refl, arith, Bool-cases, Option-cases, inl, inr, ◌⊎◌, subst,
}
use m_sl_sys_fs.Node.Hash.{write_at}
use m_sl_sys_fs.Node.Hash.Invariant.{write-same, write-other}
use m_sl_sys_fs.Snapshot.{Slots}
use m_sl_sys_fs.Snapshot.Hash.{masked, hash_of, insert_loop, find_round, find_loop, hash_find}
use m_sl_sys_fs.Snapshot.Hash.Probe.{IsPow2, probe}

-- A key is found only where it is stored.
find_round-stored :
    (r : ℕ) (o : Option (ℕ × ℕ)) (rest : Option ℕ) (i : ℕ)
    → find_round r o rest ≡ some i
    → (o ≡ some (r, i)) ⊎ (rest ≡ some i)
find_round-stored r none rest i e = cc
find_round-stored r (some (q, j)) rest i e = elim (Bool-cases (q == r)) [
  | inl same ↦
      let p : q ≡ r = (==_iff q r).0 same in
      let f : some j ≡ some i = sym (rw same refl) ∙ e in inl (cc (p, f))
  | inr other ↦ inr (sym (rw other refl) ∙ e)
]

pub find_loop-stored :
    (size n h r : ℕ) (t : Slots) (i : ℕ)
    → find_loop size n h r t ≡ some i
    → (s : ℕ) × (t s ≡ some (r, i))
unfolding find_loop
find_loop-stored size zero h r t i e = cc
find_loop-stored size (suc n) h r t i e =
    elim (find_round-stored r (t h) (find_loop size n (masked size (h + 1)) r t) i e) [
      | inl here ↦ (h, here)
      | inr later ↦ find_loop-stored size n (masked size (h + 1)) r t i later
    ]

-- What is found stays found when an empty slot is filled.
find_round-kept :
    (r : ℕ) (o : Option (ℕ × ℕ)) (rest rest' : Option ℕ) (i : ℕ)
    → find_round r o rest ≡ some i
    → (rest ≡ some i → rest' ≡ some i)
    → find_round r o rest' ≡ some i
find_round-kept r none rest rest' i e k = cc
find_round-kept r (some (q, j)) rest rest' i e k = elim (Bool-cases (q == r)) [
  | inl same ↦ rw same (sym (rw same refl) ∙ e)
  | inr other ↦ rw other (k (sym (rw other refl) ∙ e))
]

find_loop-kept :
    (size n h r s : ℕ) (t : Slots) (v : Option (ℕ × ℕ)) (i : ℕ)
    → t s ≡ none
    → find_loop size n h r t ≡ some i
    → find_loop size n h r (write_at t s v) ≡ some i
unfolding find_loop
find_loop-kept size zero h r s t v i empty e = cc
find_loop-kept size (suc n) h r s t v i empty e = elim (Bool-cases (s == h)) [
  | inl same ↦
      let p : t h ≡ none = sym (ap t ((==_iff s h).0 same)) ∙ empty in
      absurd (
        let f : none ≡ some i =
          sym (ap (λ o. find_round r o (find_loop size n (masked size (h + 1)) r t)) p) ∙ e in
        cc f)
  | inr other ↦ rw (write-other t s h v other) (
      find_round-kept r (t h) _ _ i e (find_loop-kept size n (masked size (h + 1)) r s t v i empty))
]

-- How an insertion ends: the key was there, an empty slot is filled, or all slots are taken.
pub data Inserted (size n h r i : ℕ) (t t' : Slots) : Type 0 where
  found : (j : ℕ) → find_loop size n h r t ≡ some j → t' ≡ t → Inserted size n h r i t t'
  filled :
      (k : ℕ)
      → find_loop size n h r t ≡ none
      → k < n
      → t (probe size h k) ≡ none
      → t' ≡ write_at t (probe size h k) (some (r, i))
      → find_loop size n h r t' ≡ some i
      → Inserted size n h r i t t'
  full : ((k : ℕ) → k < n → t (probe size h k) ≢ none) → Inserted size n h r i t t'

-- A round that passes over another key.
find_pass :
    (size n h r q j : ℕ) (t : Slots)
    → t h ≡ some (q, j)
    → (q == r) ≡ false
    → find_loop size (suc n) h r t ≡ find_loop size n (masked size (h + 1)) r t
unfolding find_loop
find_pass size n h r q j t z other = rw (z, other) refl

insert_pass :
    (size n h r i q j : ℕ) (t : Slots)
    → t h ≡ some (q, j)
    → (q == r) ≡ false
    → insert_loop size (suc n) h r i t ≡ insert_loop size n (masked size (h + 1)) r i t
unfolding insert_loop
insert_pass size n h r i q j t z other = rw (z, other) refl

empty_apart : (t : Slots) (s h q j : ℕ) → t s ≡ none → t h ≡ some (q, j) → (s == h) ≡ false
empty_apart t s h q j empty z = elim (Bool-cases (s == h)) [
  | inl same ↦ absurd (cc (empty, ap t ((==_iff s h).0 same), z))
  | inr other ↦ other
]

pass-Inserted :
    (size n h r i q j : ℕ) (t t' : Slots)
    → t h ≡ some (q, j)
    → (q == r) ≡ false
    → Inserted size n (masked size (h + 1)) r i t t'
    → Inserted size (suc n) h r i t t'
unfolding probe
pass-Inserted size n h r i q j t t' z other (found m e s) =
    found m (find_pass size n h r q j t z other ∙ e) s
pass-Inserted size n h r i q j t t' z other (filled k e l empty w f) =
    let s = probe size (masked size (h + 1)) k in
    let same : t' h ≡ some (q, j) =
      ap (λ (x : Slots). x h) w
      ∙ write-other t s h (some (r, i)) (empty_apart t s h q j empty z)
      ∙ z in
    filled (suc k) (find_pass size n h r q j t z other ∙ e) (omega arith) empty w
      (find_pass size n h r q j t' same other ∙ f)
pass-Inserted size n h r i q j t t' z other (full all) = full (λ k.
    elim k as (λ k. k < suc n → t (probe size h k) ≢ none) [
      | zero ↦ (λ l e. cc (z, e))
      | suc k ↦ (λ l. all k (omega arith))
    ])

pub insert_loop-Inserted :
    (size n h r i : ℕ) (t : Slots) → Inserted size n h r i t (insert_loop size n h r i t)
insert_loop-Inserted size zero h r i t = full (λ k l. absurd (omega arith))
insert_loop-Inserted size (suc n) h r i t = elim (Option-cases (t h)) [
  | inl z ↦
      unfold find_loop insert_loop probe in
      filled 0 (rw z refl) (omega arith) z (rw z refl)
        (rw (z, write-same t h (some (r, i)), ==_refl r) refl)
  | inr ((q, j), z) ↦ elim (Bool-cases (q == r)) [
    | inl same ↦ unfold find_loop insert_loop in found j (rw (z, same) refl) (rw (z, same) refl)
    | inr other ↦
        subst (Inserted size (suc n) h r i t) (sym (insert_pass size n h r i q j t z other)) (
          pass-Inserted size n h r i q j t _ z other
            (insert_loop-Inserted size n (masked size (h + 1)) r i t))
  ]
]

-- A table that finds all that it holds, and holds nothing outside its slots.
pub record IsMap (size : ℕ) (t : Slots) : Type 0 where
  pub reached : (s r i : ℕ) → t s ≡ some (r, i) → hash_find size t r ≡ some i
  pub inside : (s : ℕ) → size ≤ s → t s ≡ none

abbrev pub or_found : Option ℕ → ℕ → Option ℕ
or_found none i = some i
or_found (some j) i = some j

module _ (size : ℕ) (p : IsPow2 size) (r i : ℕ) (t : Slots) (m : IsMap size t) where
  -- Another key is found exactly as before.
  pub filled_other :
      (s : ℕ)
      → t s ≡ none
      → (q : ℕ) → (q == r) ≡ false
      → hash_find size (write_at t s (some (r, i))) q ≡ hash_find size t q
  unfolding hash_find
  filled_other s empty q other = elim (Option-cases (hash_find size t q)) [
    | inr (j, e) ↦
        find_loop-kept size size (masked size (hash_of q)) q s t (some (r, i)) j empty e ∙ sym e
    | inl e ↦ elim (Option-cases (hash_find size (write_at t s (some (r, i))) q)) [
      | inl e' ↦ e' ∙ sym e
      | inr (j, e') ↦
          let (s', w) = find_loop-stored size size (masked size (hash_of q)) q _ j e' in
          absurd (elim (Bool-cases (s == s')) [
            | inl same ↦
                let v : some (r, i) ≡ some (q, j) =
                  sym (write-same t s (some (r, i)))
                  ∙ ap (write_at t s (some (r, i))) ((==_iff s s').0 same)
                  ∙ w in
                let v' : r ≡ q = cc v in cc (other, ==_refl q, ap (λ z. q == z) v')
            | inr apart ↦ cc (e, m.reached s' q j (sym (write-other t s s' _ apart) ∙ w))
          ])
    ]
  ]
