-- ===== src/Snapshot/Hash/Assoc.antt =====
-- The hash of kext/sysfs_iokit.cpp against a list of pairs: the first pair with a key counts.
use m_sl_sys_fs.Base.{
  ℕ, suc, ◌+◌, ◌≤◌, ◌≡◌, refl, ◌∙◌, Option, none, some, List, [], ◌∷◌, ◌^◌, subst, ◌==◌, ==_iff,
  if◌then◌else◌, arith, Bool-cases, Option-cases, inl, inr, length,
}
use m_sl_sys_fs.Snapshot.{Slots}
use m_sl_sys_fs.Snapshot.Hash.{hash_insert, hash_find}
use m_sl_sys_fs.Snapshot.Hash.Probe.{IsPow2}
use m_sl_sys_fs.Snapshot.Hash.Find.{IsMap, or_found}
use m_sl_sys_fs.Snapshot.Hash.Map.{
  no_slots-IsMap, used-no_slots, hash_find-no_slots, used, no_slots, is_found, Inserts,
  hash_insert-Inserts,
}

-- Insertions, one after the other
unfoldable pub insert_all : ℕ → List (ℕ × ℕ) → Slots → Slots
insert_all size [] t = t
insert_all size ((r, i) ∷ pairs) t = insert_all size pairs (hash_insert size t r i)

unfoldable pub first_of : ℕ → List (ℕ × ℕ) → Option ℕ
first_of r [] = none
first_of r ((q, i) ∷ pairs) = if q == r then some i else first_of r pairs

abbrev pub or_first : Option ℕ → Option ℕ → Option ℕ
or_first none o = o
or_first (some i) o = some i

or_first-found :
    (o : Option ℕ) (i : ℕ) (rest : Option ℕ) → or_first (or_found o i) rest ≡ or_first o (some i)
or_first-found none i rest = refl
or_first-found (some j) i rest = refl

used_grows : (o : Option ℕ) (n : ℕ) → (if is_found o then n else suc n) ≤ suc n
used_grows none n = omega arith
used_grows (some i) n = omega arith

module _ (size : ℕ) (p : IsPow2 size) where
  find_after :
      (pairs : List (ℕ × ℕ)) (t : Slots) (r : ℕ)
      → IsMap size t
      → used size t + length pairs ≤ size
      → hash_find size (insert_all size pairs t) r
        ≡ or_first (hash_find size t r) (first_of r pairs)
  unfolding insert_all first_of
  find_after [] t r m l = elim (Option-cases (hash_find size t r)) [
    | inl e ↦ rw e refl
    | inr (i, e) ↦ rw e refl
  ]
  find_after ((q, i) ∷ pairs) t r m l =
      let h : Inserts size p q i t m (hash_insert size t q i) =
        hash_insert-Inserts size p q i t m (omega arith) in
      let g = used_grows (hash_find size t q) (used size t) in
      find_after pairs (hash_insert size t q i) r h.is_map (omega (arith, h.count, g))
      ∙ elim (Bool-cases (q == r)) [
        | inl same ↦
            let e : q ≡ r = (==_iff q r).0 same in
            let own : hash_find size (hash_insert size t q i) r ≡ or_found (hash_find size t r) i =
              subst
                (λ k. hash_find size (hash_insert size t q i) k ≡ or_found (hash_find size t k) i) e
                h.own in
            rw (own, same) (or_first-found (hash_find size t r) i (first_of r pairs))
        | inr other ↦ rw (h.others r (ground (arith, other)), other) refl
      ]

-- A table of a power of two slots that takes at most as many pairs, one after the other, answers for
-- every key with the first pair that has it, whatever the keys are and however they collide.
pub hash_find-first_of :
    (k : ℕ) (pairs : List (ℕ × ℕ)) (r : ℕ)
    → length pairs ≤ 2 ^ k
    → hash_find (2 ^ k) (insert_all (2 ^ k) pairs no_slots) r ≡ first_of r pairs
hash_find-first_of k pairs r l =
    let p : IsPow2 (2 ^ k) = (k, refl) in
    find_after (2 ^ k) p pairs no_slots r (no_slots-IsMap (2 ^ k))
      (omega (arith, l, used-no_slots (2 ^ k)))
    ∙ rw (hash_find-no_slots (2 ^ k) r) refl
