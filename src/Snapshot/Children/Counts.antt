-- ===== src/Snapshot/Children/Counts.antt =====
-- The counts and offsets of the child lists (kext/sysfs_iokit.cpp).
use m_sl_sys_fs.Base.{
  ℕ, zero, suc, ◌+◌, ◌-◌, ◌≤◌, ◌<◌, ◌≡◌, refl, ◌∙◌, ap, sym, true, false, List, [], ◌∷◌, ◌++◌, ◌==◌,
  ==_iff, if◌then◌else◌, arith, Bool-cases, inl, inr, subst, length, length-append,
}
use m_sl_sys_fs.Node.Hash.Invariant.{write-same, write-other}
use m_sl_sys_fs.Snapshot.{SnapNode}
use m_sl_sys_fs.Snapshot.Children.{bump, count_children, sum_counts, assign_offsets, set_children}

-- The children of `p` among the nodes `1, …, n`, in order.
unfoldable pub kids : (ℕ → ℕ) → ℕ → ℕ → List ℕ
kids par p zero = []
kids par p (suc n) = if par (suc n) == p then kids par p n ++ suc n ∷ [] else kids par p n

pub bump-same : (f : ℕ → ℕ) (p : ℕ) → bump f p p ≡ f p + 1
bump-same f p = write-same f p (f p + 1)

pub bump-other : (f : ℕ → ℕ) (p q : ℕ) → (p == q) ≡ false → bump f p q ≡ f q
bump-other f p q ne = write-other f p q (f p + 1) ne

count_children_round :
    (par : ℕ → ℕ) (n p : ℕ)
    → count_children par (suc n) p ≡ bump (count_children par n) (par (suc n)) p
unfolding count_children
count_children_round par n p = refl

pub kids_taken :
    (par : ℕ → ℕ) (n p : ℕ)
    → (par (suc n) == p) ≡ true
    → kids par p (suc n) ≡ kids par p n ++ suc n ∷ []
unfolding kids
kids_taken par n p e = rw e refl

pub kids_left :
    (par : ℕ → ℕ) (n p : ℕ) → (par (suc n) == p) ≡ false → kids par p (suc n) ≡ kids par p n
unfolding kids
kids_left par n p e = rw e refl

pub length-kids_taken :
    (par : ℕ → ℕ) (n p : ℕ)
    → (par (suc n) == p) ≡ true
    → length (kids par p (suc n)) ≡ length (kids par p n) + 1
length-kids_taken par n p e =
    ap length (kids_taken par n p e) ∙ length-append (kids par p n) (suc n ∷ [])

pub count_children-kids : (par : ℕ → ℕ) (n p : ℕ) → count_children par n p ≡ length (kids par p n)
count_children-kids par zero p = unfold count_children kids in refl
count_children-kids par (suc n) p = elim (Bool-cases (par (suc n) == p)) [
  | inl same ↦
      let q : par (suc n) ≡ p = (==_iff _ p).0 same in
      count_children_round par n p
      ∙ ap (λ z. bump (count_children par n) z p) q
      ∙ bump-same (count_children par n) p
      ∙ ap (λ z. z + 1) (count_children-kids par n p)
      ∙ sym (length-kids_taken par n p same)
  | inr other ↦
      count_children_round par n p
      ∙ bump-other (count_children par n) (par (suc n)) p other
      ∙ count_children-kids par n p
      ∙ ap length (sym (kids_left par n p other))
]

kids_round : (par : ℕ → ℕ) (p n : ℕ) → length (kids par p n) ≤ length (kids par p (suc n))
kids_round par p n = elim (Bool-cases (par (suc n) == p)) [
  | inl same ↦ omega (arith, length-kids_taken par n p same)
  | inr other ↦ omega (arith, ap length (kids_left par n p other))
]

pub kids_more : (par : ℕ → ℕ) (p n k : ℕ) → length (kids par p n) ≤ length (kids par p (n + k))
kids_more par p n zero = let e : n + 0 ≡ n = omega arith in rw e (omega arith)
kids_more par p n (suc k) =
    let e : n + suc k ≡ suc (n + k) = omega arith in
    rw e (omega (arith, kids_more par p n k, kids_round par p (n + k)))

sum-bump_above : (f : ℕ → ℕ) (p m : ℕ) → m ≤ p → sum_counts (bump f p) m ≡ sum_counts f m
unfolding sum_counts
sum-bump_above f p zero l = refl
sum-bump_above f p (suc m) l =
    omega (arith, sum-bump_above f p m (omega arith), bump-other f p m (ground (arith, l)))

sum-bump : (f : ℕ → ℕ) (p m : ℕ) → p < m → sum_counts (bump f p) m ≡ sum_counts f m + 1
unfolding sum_counts
sum-bump f p zero l = absurd (omega arith)
sum-bump f p (suc m) l = elim (Bool-cases (p == m)) [
  | inl same ↦
      let q : p ≡ m = (==_iff p m).0 same in
      let b : bump f p m ≡ f m + 1 = ap (λ z. bump f z m) q ∙ bump-same f m in
      omega (arith, sum-bump_above f p m (omega arith), b)
  | inr other ↦ omega (arith, sum-bump f p m (ground (arith, other, l)), bump-other f p m other)
]

sum-zero : (m : ℕ) → sum_counts (λ p. 0) m ≡ 0
unfolding sum_counts
sum-zero zero = refl
sum-zero (suc m) = omega (arith, sum-zero m)

-- All children together: one for each node but the root.
pub sum-count_children :
    (par : ℕ → ℕ) (n m : ℕ) → ((i : ℕ) → par i < m) → sum_counts (count_children par n) m ≡ n
sum-count_children par zero m l = unfold count_children in sum-zero m
sum-count_children par (suc n) m l =
    let e : sum_counts (count_children par (suc n)) m
        ≡ sum_counts (bump (count_children par n) (par (suc n))) m =
      unfold count_children in refl in
    omega (
      arith,
      e,
      sum-bump (count_children par n) (par (suc n)) m (l (suc n)),
      sum-count_children par n m l,
    )

-- The piece of a node ends before that of a later one begins.
pub sum_apart : (f : ℕ → ℕ) (p k : ℕ) → sum_counts f p + f p ≤ sum_counts f (suc (p + k))
unfolding sum_counts
sum_apart f p zero = let e : p + 0 ≡ p = omega arith in rw e (omega arith)
sum_apart f p (suc k) =
    let e : p + suc k ≡ suc (p + k) = omega arith in rw e (omega (arith, sum_apart f p k))

pub sum_before : (f : ℕ → ℕ) (p q : ℕ) → p < q → sum_counts f p + f p ≤ sum_counts f q
sum_before f p q l =
    let e : suc (p + (q - p - 1)) ≡ q = omega arith in
    subst (λ z. sum_counts f p + f p ≤ sum_counts f z) e (sum_apart f p (q - p - 1))

-- `assign_offsets` gives each of the nodes its piece, and changes nothing else.
pub record Offset (counts : ℕ → ℕ) (j : ℕ) (x x' : SnapNode) : Type 0 where
  pub first : x'.first_child ≡ sum_counts counts j
  pub num : x'.num_children ≡ counts j
  pub same : x' ≡ set_children x'.first_child x'.num_children x

pub assign_offsets_past :
    (counts : ℕ → ℕ) (n j : ℕ) (nodes : ℕ → SnapNode)
    → n ≤ j
    → assign_offsets counts n nodes j ≡ nodes j
unfolding assign_offsets
assign_offsets_past counts zero j nodes l = refl
assign_offsets_past counts (suc n) j nodes l =
    write-other (assign_offsets counts n nodes) n j _ (ground (arith, l))
    ∙ assign_offsets_past counts n j nodes (omega arith)

pub assign_offsets-Offset :
    (counts : ℕ → ℕ) (n j : ℕ) (nodes : ℕ → SnapNode)
    → j < n
    → Offset counts j (nodes j) (assign_offsets counts n nodes j)
assign_offsets-Offset counts zero j nodes l = absurd (omega arith)
assign_offsets-Offset counts (suc n) j nodes l = elim (Bool-cases (n == j)) [
  | inl same ↦
      let q : n ≡ j = (==_iff n j).0 same in
      let e : assign_offsets counts (suc n) nodes j
          ≡ set_children (sum_counts counts j) (counts j) (nodes j) =
        unfold assign_offsets in
        ap (assign_offsets counts (suc n) nodes) (sym q)
        ∙ write-same (assign_offsets counts n nodes) n _
        ∙ ap (set_children (sum_counts counts n) (counts n))
            (assign_offsets_past counts n n nodes (omega arith))
        ∙ ap (λ z. set_children (sum_counts counts z) (counts z) (nodes z)) q in
      rw e (record { first = refl; num = refl; same = refl })
  | inr other ↦
      let e : assign_offsets counts (suc n) nodes j ≡ assign_offsets counts n nodes j =
        unfold assign_offsets in write-other (assign_offsets counts n nodes) n j _ other in
      rw e (assign_offsets-Offset counts n j nodes (ground (arith, l, other)))
]
