-- ===== src/Snapshot/Query/Siblings.antt =====
-- The names that siblings are shown under (kext/sysfs_iokit.cpp) tell them apart.
use m_sl_sys_fs.Base.{
  ℕ, zero, suc, ◌+◌, ◌-◌, ◌<◌, ◌≡◌, ◌≢◌, refl, ◌∙◌, ap, sym, Bool, true, false, Option, none, some,
  [], ◌∷◌, ◌++◌, Bytes, ◌==◌, if◌then◌else◌, arith, Bool-cases, inl, inr, str_eq, str_eq_refl,
  to_decimal, subst,
}
use m_sl_sys_fs.Subr.Decimal.{read_digits, read-to_decimal}
use m_sl_sys_fs.Snapshot.{SnapNode, Snapshot}
use m_sl_sys_fs.Snapshot.Children.{count_dups}
use m_sl_sys_fs.Snapshot.Query.{display}
use m_sl_sys_fs.Snapshot.Build.Sound.{HasTree}

-- No `@` in a name.
abbrev pub no_at : Bytes → Bool
no_at [] = true
no_at (c ∷ s) = if c == b'@' then false else no_at s

-- The part before the first `@`, and the part behind it
unfoldable before_at : Bytes → Bytes
before_at [] = []
before_at (c ∷ s) = if c == b'@' then [] else c ∷ before_at s

unfoldable after_at : Bytes → Option Bytes
after_at [] = none
after_at (c ∷ s) = if c == b'@' then some s else after_at s

before-bare : (s : Bytes) → no_at s ≡ true → before_at s ≡ s
unfolding before_at
before-bare [] h = refl
before-bare (c ∷ s) h = ground (arith, before-bare s)

before-append : (s t : Bytes) → no_at s ≡ true → before_at (s ++ b'@' ∷ t) ≡ s
unfolding before_at
before-append [] t h = refl
before-append (c ∷ s) t h = ground (arith, before-append s t)

after-bare : (s : Bytes) → no_at s ≡ true → after_at s ≡ none
unfolding after_at
after-bare [] h = refl
after-bare (c ∷ s) h = ground (arith, after-bare s)

after-append : (s t : Bytes) → no_at s ≡ true → after_at (s ++ b'@' ∷ t) ≡ some t
unfolding after_at
after-append [] t h = refl
after-append (c ∷ s) t h = ground (arith, after-append s t)

to_decimal-injective : (m n : ℕ) → to_decimal m ≡ to_decimal n → m ≡ n
to_decimal-injective m n e =
    let (j, p, q) = read-to_decimal m [] refl in
    let (k, p', q') = read-to_decimal n [] refl in
    ap (λ r. r.0) (sym q ∙ ap (λ s. read_digits (s ++ []) 0 0) e ∙ q')

-- What is shown, read back.
shown_name : (x : SnapNode) → no_at x.name ≡ true → before_at (display x) ≡ x.name
unfolding display
shown_name x h = elim (Bool-cases (x.dup_ordinal == 0)) [
  | inl e ↦ rw e (before-bare x.name h)
  | inr e ↦ rw e (before-append x.name (to_decimal x.dup_ordinal) h)
]

abbrev ordinal_text : ℕ → Option Bytes
ordinal_text d = if d == 0 then none else some (to_decimal d)

shown_ordinal :
    (x : SnapNode) → no_at x.name ≡ true → after_at (display x) ≡ ordinal_text x.dup_ordinal
unfolding display
shown_ordinal x h = elim (Bool-cases (x.dup_ordinal == 0)) [
  | inl e ↦ rw e (after-bare x.name h)
  | inr e ↦ rw e (after-append x.name (to_decimal x.dup_ordinal) h)
]

positive : (n : ℕ) → ordinal_text (suc n) ≡ some (to_decimal (suc n))
positive n = ground arith

ordinal_text-injective : (m n : ℕ) → ordinal_text m ≡ ordinal_text n → m ≡ n
ordinal_text-injective zero zero e = refl
ordinal_text-injective zero (suc n) e = ground (arith, e)
ordinal_text-injective (suc m) zero e = ground (arith, e)
ordinal_text-injective (suc m) (suc n) e =
    let f : some (to_decimal (suc m)) ≡ some (to_decimal (suc n)) =
      sym (positive m) ∙ e ∙ positive n in
    to_decimal-injective (suc m) (suc n) (cc f)

-- Names without `@` that are shown alike are alike, with their ordinals.
pub display-injective :
    (x y : SnapNode)
    → no_at x.name ≡ true
    → no_at y.name ≡ true
    → display x ≡ display y
    → (x.name ≡ y.name) × (x.dup_ordinal ≡ y.dup_ordinal)
display-injective x y hx hy e = (
  sym (shown_name x hx) ∙ ap before_at e ∙ shown_name y hy,
  ordinal_text-injective x.dup_ordinal y.dup_ordinal
      (sym (shown_ordinal x hx) ∙ ap after_at e ∙ shown_ordinal y hy),
)

module _ (nodes : ℕ → SnapNode) (a : ℕ → ℕ) (base : ℕ) where
  count_dups_named :
      (ci cj k : ℕ)
      → (nodes ci).name ≡ (nodes cj).name
      → count_dups nodes a base ci k ≡ count_dups nodes a base cj k
  unfolding count_dups
  count_dups_named ci cj zero e = refl
  count_dups_named ci cj (suc k) e = rw (e, count_dups_named ci cj k e) refl

  -- A sibling with the same name is counted by those behind it.
  count_dups_more :
      (ci i k : ℕ)
      → (nodes (a (base + i))).name ≡ (nodes ci).name
      → count_dups nodes a base ci i < count_dups nodes a base ci (suc (i + k))
  unfolding count_dups
  count_dups_more ci i zero e =
      let z : i + 0 ≡ i = omega arith in rw (z, e, str_eq_refl (nodes ci).name) (omega arith)
  count_dups_more ci i (suc k) e =
      let z : i + suc k ≡ suc (i + k) = omega arith in
      rw z (elim (Bool-cases (str_eq (nodes (a (base + suc (i + k)))).name (nodes ci).name)) [
        | inl h ↦ rw h (omega (arith, count_dups_more ci i k e))
        | inr h ↦ rw h (count_dups_more ci i k e)
      ])

  count_dups_later :
      (i j : ℕ)
      → i < j
      → (nodes (a (base + i))).name ≡ (nodes (a (base + j))).name
      → count_dups nodes a base (a (base + i)) i < count_dups nodes a base (a (base + j)) j
  count_dups_later i j l e =
      let z : suc (i + (j - i - 1)) ≡ j = omega arith in
      let more = count_dups_more (a (base + j)) i (j - i - 1) e in
      let more' : count_dups nodes a base (a (base + j)) i
          < count_dups nodes a base (a (base + j)) j =
        subst
          (λ k. count_dups nodes a base (a (base + j)) i < count_dups nodes a base (a (base + j)) k)
          z more in
      omega (arith, count_dups_named (a (base + i)) (a (base + j)) i e)

-- The children of a node are shown under different names, where no name holds an `@`.
pub siblings_apart :
    (s : Snapshot) (p i j : ℕ)
    → HasTree s
    → ((x : ℕ) → no_at (s.nodes x).name ≡ true)
    → p < s.node_count
    → i < j
    → j < (s.nodes p).num_children
    → display (s.nodes (s.child_idx ((s.nodes p).first_child + i)))
      ≢ display (s.nodes (s.child_idx ((s.nodes p).first_child + j)))
siblings_apart s p i j t bare l lt lj e =
    let base = (s.nodes p).first_child in
    let (names, ordinals) =
      display-injective (s.nodes (s.child_idx (base + i))) (s.nodes (s.child_idx (base + j)))
        (bare _) (bare _) e in
    let later = count_dups_later s.nodes s.child_idx base i j lt names in
    omega (arith, t.ordinal p i l (omega arith), t.ordinal p j l lj)
