-- ===== src/Snapshot/Children/Fill.antt =====
-- Filling the array of child lists (kext/sysfs_iokit.cpp): each node's piece holds its children.
use m_sl_sys_fs.Base.{
  ℕ, zero, suc, ◌+◌, ◌-◌, ◌≤◌, ◌<◌, ◌≡◌, refl, ◌∙◌, ap, sym, true, false, List, [], ◌∷◌, ◌++◌, ◌==◌,
  ==_iff, ==_refl, arith, tests, Bool-cases, inl, inr, ◌⊎◌, subst, length, length-append, ltb,
}
use m_sl_sys_fs.Node.Hash.{write_at}
use m_sl_sys_fs.Node.Hash.Invariant.{write-same, write-other}
use m_sl_sys_fs.Snapshot.Children.{bump, count_children, sum_counts, Filling, fill}
use m_sl_sys_fs.Snapshot.Children.Counts.{
  kids, bump-same, bump-other, kids_taken, kids_left, length-kids_taken, count_children-kids,
  kids_more, sum-count_children, sum_before,
}

-- The piece of `n` elements from `base` on.
unfoldable pub piece : (ℕ → ℕ) → ℕ → ℕ → List ℕ
piece a base zero = []
piece a base (suc n) = piece a base n ++ a (base + n) ∷ []

pub length-piece : (a : ℕ → ℕ) (base n : ℕ) → length (piece a base n) ≡ n
unfolding piece
length-piece a base zero = refl
length-piece a base (suc n) =
    length-append (piece a base n) (a (base + n) ∷ []) ∙ omega (arith, length-piece a base n)

abbrev IsApart : ℕ → ℕ → ℕ → Type 0
IsApart pos base n = (pos < base) ⊎ (base + n ≤ pos)

shorter : (pos base n : ℕ) → IsApart pos base (suc n) → IsApart pos base n
shorter pos base n (inl l) = inl l
shorter pos base n (inr l) = inr (omega arith)

last_apart : (pos base n : ℕ) → IsApart pos base (suc n) → (pos == (base + n)) ≡ false
last_apart pos base n (inl l) = ground (arith, l)
last_apart pos base n (inr l) = ground (arith, l)

piece-apart :
    (a : ℕ → ℕ) (pos v base n : ℕ)
    → IsApart pos base n
    → piece (write_at a pos v) base n ≡ piece a base n
unfolding piece
piece-apart a pos v base zero h = refl
piece-apart a pos v base (suc n) h =
    ap (λ xs. xs ++ write_at a pos v (base + n) ∷ [])
      (piece-apart a pos v base n (shorter pos base n h))
    ∙ ap (λ x. piece a base n ++ x ∷ []) (write-other a pos (base + n) v (last_apart pos base n h))

piece-extended :
    (a : ℕ → ℕ) (v base n : ℕ)
    → piece (write_at a (base + n) v) base (n + 1) ≡ piece a base n ++ v ∷ []
piece-extended a v base n =
    let e : suc n ≡ n + 1 = omega arith in
    subst (λ k. piece (write_at a (base + n) v) base k ≡ piece a base n ++ v ∷ []) e
      (unfold piece in
        ap (λ xs. xs ++ write_at a (base + n) v (base + n) ∷ [])
          (piece-apart a (base + n) v base n (inr (omega arith)))
        ∙ ap (λ x. piece a base n ++ x ∷ []) (write-same a (base + n) v))

module _ (par : ℕ → ℕ) (total count : ℕ) (valid : (i : ℕ) → par i < count) where
  abbrev offset : ℕ → ℕ
  offset = sum_counts (count_children par total)

  -- After `n` rounds: the cursors stand behind the children so far, which the pieces hold.
  pub record IsFilled (n : ℕ) (f : Filling) : Type 0 where
    pub at : (p : ℕ) → p < count → f.cursor p ≡ offset p + length (kids par p n)
    pub holds :
        (p : ℕ) → p < count → piece f.child_idx (offset p) (length (kids par p n)) ≡ kids par p n

  within : (p n : ℕ) → n ≤ total → length (kids par p n) ≤ count_children par total p
  within p n l =
      let e : n + (total - n) ≡ total = omega arith in
      let m : length (kids par p n) ≤ length (kids par p total) =
        subst (λ z. length (kids par p n) ≤ length (kids par p z)) e
          (kids_more par p n (total - n)) in
      omega (arith, count_children-kids par total p)

  -- The cursor of another node is outside the piece of `p`.
  cursor_own_piece :
      (p q n : ℕ)
      → suc n ≤ total
      → (q == p) ≡ false
      → (par (suc n) == q) ≡ true
      → IsApart (offset q + length (kids par q n)) (offset p) (length (kids par p n))
  cursor_own_piece p q n l ne own = elim (Bool-cases (ltb q p)) [
    | inl lt ↦
        let b : offset q + count_children par total q ≤ offset p =
          sum_before (count_children par total) q p (grind tests) in
        inl (omega (arith, length-kids_taken par n q own, within q (suc n) l))
    | inr ge ↦
        let lt : p < q = ground (arith, ne, ge) in
        let b : offset p + count_children par total p ≤ offset q =
          sum_before (count_children par total) p q lt in
        inr (omega (arith, within p n (omega arith)))
  ]

  round-IsFilled :
      (n : ℕ) (f : Filling)
      → suc n ≤ total
      → IsFilled n f
      → IsFilled (suc n) (record {
        cursor = bump f.cursor (par (suc n));
        child_idx = write_at f.child_idx (f.cursor (par (suc n))) (suc n);
      })
  round-IsFilled n f l w =
      let q = par (suc n) in
      let c : f.cursor q ≡ offset q + length (kids par q n) = w.at q (valid (suc n)) in
      record {
        at = λ p lp. elim (Bool-cases (q == p)) [
          | inl same ↦
              let e : q ≡ p = (==_iff q p).0 same in
              ap (λ z. bump f.cursor z p) e
              ∙ bump-same f.cursor p
              ∙ omega (arith, w.at p lp, length-kids_taken par n p same)
          | inr other ↦
              bump-other f.cursor q p other
              ∙ w.at p lp
              ∙ ap (λ z. offset p + length z) (sym (kids_left par n p other))
        ];
        holds = λ p lp. elim (Bool-cases (q == p)) [
          | inl same ↦
              let e : q ≡ p = (==_iff q p).0 same in
              let c' : f.cursor q ≡ offset p + length (kids par p n) = ap f.cursor e ∙ w.at p lp in
              ap
                (λ z.
                  piece (write_at f.child_idx z (suc n)) (offset p) (length (kids par p (suc n))))
                c'
              ∙ ap
                  (piece (write_at f.child_idx (offset p + length (kids par p n)) (suc n))
                    (offset p))
                  (length-kids_taken par n p same)
              ∙ piece-extended f.child_idx (suc n) (offset p) (length (kids par p n))
              ∙ ap (λ z. z ++ suc n ∷ []) (w.holds p lp)
              ∙ sym (kids_taken par n p same)
          | inr other ↦
              ap
                (λ z.
                  piece (write_at f.child_idx z (suc n)) (offset p) (length (kids par p (suc n))))
                c
              ∙ ap
                  (λ z.
                    piece (write_at f.child_idx (offset q + length (kids par q n)) (suc n))
                      (offset p) (length z))
                  (kids_left par n p other)
              ∙ piece-apart f.child_idx (offset q + length (kids par q n)) (suc n) (offset p)
                  (length (kids par p n)) (cursor_own_piece p q n l other (==_refl q))
              ∙ w.holds p lp
              ∙ sym (kids_left par n p other)
        ];
      }

  fill_round-IsFilled :
      (n : ℕ) (f : Filling)
      → suc n ≤ total
      → IsFilled n (fill par n f)
      → IsFilled (suc n) (fill par (suc n) f)
  unfolding fill
  fill_round-IsFilled n f l w = round-IsFilled n (fill par n f) l w

  pub fill-IsFilled :
      (n : ℕ) (f : Filling)
      → n ≤ total
      → ((p : ℕ) → p < count → f.cursor p ≡ offset p)
      → IsFilled n (fill par n f)
  fill-IsFilled zero f l start =
      unfold fill kids piece in
      record { at = λ p lp. start p lp ∙ omega arith; holds = λ p lp. refl }
  fill-IsFilled (suc n) f l start =
      fill_round-IsFilled n f l (fill-IsFilled n f (omega arith) start)

  -- When it is filled, the piece of a node is the list of its children, in order.
  pub fill-kids :
      (f : Filling)
      → ((p : ℕ) → p < count → f.cursor p ≡ offset p)
      → (p : ℕ) → p < count
      → piece (fill par total f).child_idx (offset p) (count_children par total p)
        ≡ kids par p total
  fill-kids f start p l =
      let w : IsFilled total (fill par total f) = fill-IsFilled total f (omega arith) start in
      rw (count_children-kids par total p) (w.holds p l)

  -- Every position that is written lies in the array.
  pub cursor_bound :
      (n : ℕ) (f : Filling)
      → suc n ≤ total
      → ((p : ℕ) → p < count → f.cursor p ≡ offset p)
      → (fill par n f).cursor (par (suc n)) < total
  cursor_bound n f l start =
      let q = par (suc n) in
      let w : IsFilled n (fill par n f) = fill-IsFilled n f (omega arith) start in
      let b : offset q + count_children par total q ≤ offset count =
        sum_before (count_children par total) q count (valid (suc n)) in
      omega (
        arith,
        w.at q (valid (suc n)),
        length-kids_taken par n q (==_refl q),
        within q (suc n) l,
        sum-count_children par total count valid,
      )
