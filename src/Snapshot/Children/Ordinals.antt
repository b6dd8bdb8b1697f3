-- ===== src/Snapshot/Children/Ordinals.antt =====
-- The ordinals of children with the same name (kext/sysfs_iokit.cpp).
use m_sl_sys_fs.Base.{
  ℕ, zero, suc, ◌+◌, ◌≤◌, ◌<◌, ◌≡◌, refl, ◌∙◌, ap, sym, false, List, [], ◌∷◌, ◌++◌, ◌==◌, ==_iff,
  arith, Bool-cases, inl, inr, subst, length, length-append,
}
use m_sl_sys_fs.Node.Hash.{write_at}
use m_sl_sys_fs.Node.Hash.Invariant.{write-same, write-other}
use m_sl_sys_fs.Snapshot.{SnapNode}
use m_sl_sys_fs.Snapshot.Children.{set_dup, count_dups, dup_row, dup_rows}
use m_sl_sys_fs.Snapshot.Children.Counts.{kids, kids_taken, kids_left}
use m_sl_sys_fs.Snapshot.Children.Fill.{piece, length-piece}

snoc_injective :
    {A : Type 0} (xs ys : List A) (x y : A) → xs ++ x ∷ [] ≡ ys ++ y ∷ [] → (xs ≡ ys) × (x ≡ y)
snoc_injective [] [] x y e = (refl, cc e)
snoc_injective [] (b ∷ ys) x y e = absurd (omega (arith, ap length e, length-append ys (y ∷ [])))
snoc_injective (a ∷ xs) [] x y e = absurd (omega (arith, ap length e, length-append xs (x ∷ [])))
snoc_injective (a ∷ xs) (b ∷ ys) x y e =
    let t : xs ++ x ∷ [] ≡ ys ++ y ∷ [] = cc e in
    let h : a ≡ b = cc e in let (r, s) = snoc_injective xs ys x y t in (cc (h, r), s)

-- What the elements of a piece are that holds the children of `p` among the first `m` nodes.
pub record AreKids (par : ℕ → ℕ) (p m : ℕ) (a : ℕ → ℕ) (base n : ℕ) : Type 0 where
  pub below : (k : ℕ) → k < n → a (base + k) ≤ m
  pub own : (k : ℕ) → k < n → par (a (base + k)) ≡ p
  pub rising : (j k : ℕ) → j < k → k < n → a (base + j) < a (base + k)

more-AreKids :
    (par : ℕ → ℕ) (p m : ℕ) (a : ℕ → ℕ) (base n : ℕ)
    → AreKids par p m a base n
    → par (suc m) ≡ p
    → a (base + n) ≡ suc m
    → AreKids par p (suc m) a base (suc n)
more-AreKids par p m a base n w own e = record {
  below = λ k l. elim (Bool-cases (k == n)) [
    | inl same ↦ let q : k ≡ n = (==_iff k n).0 same in rw q (omega (arith, e))
    | inr other ↦ omega (arith, w.below k (ground (arith, l, other)))
  ];
  own = λ k l. elim (Bool-cases (k == n)) [
    | inl same ↦ let q : k ≡ n = (==_iff k n).0 same in rw (q, e) own
    | inr other ↦ w.own k (ground (arith, l, other))
  ];
  rising = λ j k lt l. elim (Bool-cases (k == n)) [
    | inl same ↦
        let q : k ≡ n = (==_iff k n).0 same in rw (q, e) (omega (arith, w.below j (omega arith)))
    | inr other ↦ w.rising j k lt (ground (arith, l, other))
  ];
}

no_kids : (par : ℕ → ℕ) (p m : ℕ) (a : ℕ → ℕ) (base : ℕ) → AreKids par p m a base 0
no_kids par p m a base = record {
  below = λ k l. absurd (omega arith);
  own = λ k l. absurd (omega arith);
  rising = λ j k lt l. absurd (omega arith);
}

weaker-AreKids :
    (par : ℕ → ℕ) (p m : ℕ) (a : ℕ → ℕ) (base n : ℕ)
    → AreKids par p m a base n
    → AreKids par p (suc m) a base n
weaker-AreKids par p m a base n w = record {
  below = λ k l. omega (arith, w.below k l);
  own = w.own;
  rising = w.rising;
}

last-AreKids :
    (par : ℕ → ℕ) (p m : ℕ) (a : ℕ → ℕ) (base : ℕ)
    → par (suc m) ≡ p
    → ((n : ℕ) → piece a base n ≡ kids par p m → AreKids par p m a base n)
    → (n : ℕ) → piece a base n ≡ kids par p m ++ suc m ∷ []
    → AreKids par p (suc m) a base n
unfolding piece
last-AreKids par p m a base own rest zero e =
    absurd (omega (arith, ap length e, length-append (kids par p m) (suc m ∷ [])))
last-AreKids par p m a base own rest (suc n) e =
    let (r, s) = snoc_injective (piece a base n) (kids par p m) (a (base + n)) (suc m) e in
    more-AreKids par p m a base n (rest n r) own s

pub piece-AreKids :
    (par : ℕ → ℕ) (p m : ℕ) (a : ℕ → ℕ) (base n : ℕ)
    → piece a base n ≡ kids par p m
    → AreKids par p m a base n
piece-AreKids par p zero a base zero e = no_kids par p 0 a base
piece-AreKids par p zero a base (suc n) e = absurd (
    let l : suc n ≡ 0 = sym (length-piece a base (suc n)) ∙ ap length e ∙ (unfold kids in refl) in
    omega arith)
piece-AreKids par p (suc m) a base n e = elim (Bool-cases (par (suc m) == p)) [
  | inr other ↦
      weaker-AreKids par p m a base n (piece-AreKids par p m a base n (e ∙ kids_left par m p other))
  | inl same ↦
      last-AreKids par p m a base ((==_iff _ p).0 same) (piece-AreKids par p m a base) n
        (e ∙ kids_taken par m p same)
]

-- A node with all but its ordinal unchanged.
abbrev pub Reordered : SnapNode → SnapNode → Type 0
Reordered x x' = x' ≡ set_dup x'.dup_ordinal x

pub Reordered-name : (x x' : SnapNode) → Reordered x x' → x'.name ≡ x.name
Reordered-name x x' e = ap (λ (y : SnapNode). y.name) e

write-Reordered :
    (nodes done : ℕ → SnapNode) (c d : ℕ)
    → ((x : ℕ) → Reordered (nodes x) (done x))
    → (x : ℕ) → Reordered (nodes x) (write_at done c (set_dup d (done c)) x)
write-Reordered nodes done c d r x = elim (Bool-cases (c == x)) [
  | inl same ↦
      let q : c ≡ x = (==_iff c x).0 same in
      subst (λ y. Reordered (nodes y) (write_at done c (set_dup d (done c)) y)) q
        (rw (write-same done c (set_dup d (done c))) (ap (set_dup d) (r c)))
  | inr other ↦ rw (other) (r x)
]

dup_row-Reordered :
    (a : ℕ → ℕ) (base n : ℕ) (nodes : ℕ → SnapNode) (x : ℕ)
    → Reordered (nodes x) (dup_row a base n nodes x)
unfolding dup_row
dup_row-Reordered a base zero nodes x = refl
dup_row-Reordered a base (suc n) nodes x =
    write-Reordered nodes (dup_row a base n nodes) (a (base + n)) _
      (dup_row-Reordered a base n nodes) x

-- The counts depend on the names alone.
pub count_dups_same :
    (nodes nodes' : ℕ → SnapNode) (a : ℕ → ℕ) (base ci k : ℕ)
    → ((x : ℕ) → (nodes' x).name ≡ (nodes x).name)
    → count_dups nodes' a base ci k ≡ count_dups nodes a base ci k
unfolding count_dups
count_dups_same nodes nodes' a base ci zero same = refl
count_dups_same nodes nodes' a base ci (suc k) same =
    rw (same (a (base + k)), same ci, count_dups_same nodes nodes' a base ci k same) refl

-- A row leaves other nodes alone, and gives each of its own the count.
dup_row_other :
    (a : ℕ → ℕ) (base n : ℕ) (nodes : ℕ → SnapNode) (x : ℕ)
    → ((k : ℕ) → k < n → (a (base + k) == x) ≡ false)
    → dup_row a base n nodes x ≡ nodes x
unfolding dup_row
dup_row_other a base zero nodes x apart = refl
dup_row_other a base (suc n) nodes x apart =
    write-other (dup_row a base n nodes) (a (base + n)) x _ (apart n (omega arith))
    ∙ dup_row_other a base n nodes x (λ k l. apart k (omega arith))

dup_row_own :
    (a : ℕ → ℕ) (base n : ℕ) (nodes : ℕ → SnapNode) (k : ℕ)
    → k < n
    → ((i j : ℕ) → i < j → j < n → a (base + i) < a (base + j))
    → (dup_row a base n nodes (a (base + k))).dup_ordinal ≡ count_dups nodes a base (a (base + k)) k
unfolding dup_row
dup_row_own a base zero nodes k l rising = absurd (omega arith)
dup_row_own a base (suc n) nodes k l rising = elim (Bool-cases (k == n)) [
  | inl same ↦
      let q : k ≡ n = (==_iff k n).0 same in
      rw q (
        ap (λ (x : SnapNode). x.dup_ordinal) (write-same (dup_row a base n nodes) (a (base + n)) _)
        ∙ count_dups_same nodes (dup_row a base n nodes) a base (a (base + n)) n (λ x.
          Reordered-name (nodes x) (dup_row a base n nodes x) (dup_row-Reordered a base n nodes x)))
  | inr other ↦
      let lt : k < n = ground (arith, l, other) in
      let r : a (base + k) < a (base + n) = rising k n lt (omega arith) in
      ap (λ (x : SnapNode). x.dup_ordinal)
        (write-other (dup_row a base n nodes) (a (base + n)) (a (base + k)) _ (ground (arith, r)))
      ∙ dup_row_own a base n nodes k lt (λ i j li lj. rising i j li (omega arith))
]

Reordered-trans : (x y z : SnapNode) → Reordered x y → Reordered y z → Reordered x z
Reordered-trans x y z e f = f ∙ ap (set_dup z.dup_ordinal) e

pub dup_rows-Reordered :
    (a : ℕ → ℕ) (m : ℕ) (nodes : ℕ → SnapNode) (x : ℕ) → Reordered (nodes x) (dup_rows a m nodes x)
unfolding dup_rows
dup_rows-Reordered a zero nodes x = refl
dup_rows-Reordered a (suc m) nodes x =
    let done = dup_rows a m nodes in
    Reordered-trans (nodes x) (done x) (dup_row a (done m).first_child (done m).num_children done x)
      (dup_rows-Reordered a m nodes x)
      (dup_row-Reordered a (done m).first_child (done m).num_children done x)

module _ (par : ℕ → ℕ) (total : ℕ) (a : ℕ → ℕ) (nodes : ℕ → SnapNode) where
  -- Each child has the number of earlier siblings with its name.
  pub dup_rows_own :
      (m : ℕ)
      → ((p : ℕ) → p < m → AreKids par p total a (nodes p).first_child (nodes p).num_children)
      → (p k : ℕ) → p < m
      → k < (nodes p).num_children
      → (dup_rows a m nodes (a ((nodes p).first_child + k))).dup_ordinal
        ≡ count_dups nodes a (nodes p).first_child (a ((nodes p).first_child + k)) k
  unfolding dup_rows
  dup_rows_own zero kids p k lp lk = absurd (omega arith)
  dup_rows_own (suc m) kids p k lp lk =
      let done = dup_rows a m nodes in
      let f : (done m).first_child ≡ (nodes m).first_child =
        ap (λ (x : SnapNode). x.first_child) (dup_rows-Reordered a m nodes m) in
      let g : (done m).num_children ≡ (nodes m).num_children =
        ap (λ (x : SnapNode). x.num_children) (dup_rows-Reordered a m nodes m) in
      let names : (x : ℕ) → (done x).name ≡ (nodes x).name =
        λ x. Reordered-name (nodes x) (done x) (dup_rows-Reordered a m nodes x) in
      rw (f, g)
        (elim (Bool-cases (p == m)) [
          | inl same ↦
              let q : p ≡ m = (==_iff p m).0 same in
              let lk' : k < (nodes m).num_children = subst (λ z. k < (nodes z).num_children) q lk in
              subst
                (λ z.
                  (dup_row a (nodes m).first_child (nodes m).num_children done
                    (a ((nodes z).first_child + k))).dup_ordinal
                  ≡ count_dups nodes a (nodes z).first_child (a ((nodes z).first_child + k)) k)
                (sym q)
                (dup_row_own a (nodes m).first_child (nodes m).num_children done k lk'
                    (kids m (omega arith)).rising
                  ∙ count_dups_same nodes done a (nodes m).first_child
                      (a ((nodes m).first_child + k)) k names)
          | inr other ↦
              let lt : p < m = ground (arith, lp, other) in
              let own = (kids p (omega arith)).own k lk in
              ap (λ (x : SnapNode). x.dup_ordinal)
                (dup_row_other a (nodes m).first_child (nodes m).num_children done
                  (a ((nodes p).first_child + k))
                  (λ j lj.
                    elim (Bool-cases
                      (a ((nodes m).first_child + j) == a ((nodes p).first_child + k))) [
                        | inl eq ↦
                            let e : a ((nodes m).first_child + j) ≡ a ((nodes p).first_child + k) =
                              (==_iff _ _).0 eq in
                            let pm : p ≡ m =
                              sym own ∙ ap par (sym e) ∙ (kids m (omega arith)).own j lj in
                            absurd (omega arith)
                        | inr ne ↦ ne
                      ]))
              ∙ dup_rows_own m (λ p l. kids p (omega arith)) p k lt lk
        ])
