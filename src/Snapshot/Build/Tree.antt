-- ===== src/Snapshot/Build/Tree.antt =====
-- Placing the children (kext/sysfs_iokit.cpp) makes a sound snapshot with its tree.
use m_sl_sys_fs.Base.{
  ℕ, ◌+◌, ◌-◌, ◌≤◌, ◌<◌, ◌≡◌, refl, ◌∙◌, ap, sym, Bool, true, false, ltb, arith, tests, Bool-cases,
  Option-cases, inl, inr, subst,
}
use m_sl_sys_fs.Snapshot.{SnapNode, Snapshot}
use m_sl_sys_fs.Snapshot.Hash.{hash_find}
use m_sl_sys_fs.Snapshot.Children.{
  parent_index, or_root, sum_counts, dup_rows, set_children, set_dup, count_dups,
}
use m_sl_sys_fs.Snapshot.Children.Counts.{
  kids, Offset, assign_offsets-Offset, assign_offsets_past, sum-count_children, sum_before,
}
use m_sl_sys_fs.Snapshot.Children.Fill.{piece, fill-kids}
use m_sl_sys_fs.Snapshot.Children.Ordinals.{
  AreKids, piece-AreKids, Reordered, Reordered-name, count_dups_same, dup_rows-Reordered,
  dup_rows_own,
}
use m_sl_sys_fs.Snapshot.Build.{parents, child_counts, offset_nodes, filled, place_children}
use m_sl_sys_fs.Snapshot.Build.Fits.{Fits, dup_rows-le}
use m_sl_sys_fs.Snapshot.Query.{find}
use m_sl_sys_fs.Snapshot.Build.Sound.{HasTree, IsSound, IsFresh}

-- A node with all but its place among its siblings and its children unchanged.
abbrev pub Replaced : SnapNode → SnapNode → Type 0
Replaced x x' = x' ≡ set_dup x'.dup_ordinal (set_children x'.first_child x'.num_children x)

module _ (s : Snapshot) (f : IsFresh s) where
  parent-lt : (i : ℕ) → parents s i < s.node_count
  unfolding parent_index
  parent-lt i = elim (Option-cases (find s (s.nodes i).parent_regid)) [
    | inl e ↦ rw e f.sound.pos
    | inr (p, e) ↦ rw e (f.sound.from _ p e).0
  ]

  Offset-at : (p : ℕ) → p < s.node_count → Offset (child_counts s) p (s.nodes p) (offset_nodes s p)
  Offset-at p l = assign_offsets-Offset (child_counts s) s.node_count p s.nodes l

  -- The offsets change nothing but themselves.
  offset-same :
      (x : ℕ)
      → offset_nodes s x
        ≡ set_children (offset_nodes s x).first_child (offset_nodes s x).num_children (s.nodes x)
  offset-same x = elim (Bool-cases (ltb x s.node_count)) [
    | inl l ↦ (Offset-at x (grind tests)).same
    | inr l ↦
        let e : offset_nodes s x ≡ s.nodes x =
          assign_offsets_past (child_counts s) s.node_count x s.nodes (grind tests) in
        rw e refl
  ]

  regid-offset : (x : ℕ) → (offset_nodes s x).regid ≡ (s.nodes x).regid
  regid-offset x = ap (λ (y : SnapNode). y.regid) (offset-same x)

  Fits-offset : (x : ℕ) → Fits (offset_nodes s x)
  Fits-offset x =
      let fit = f.sound.fits x in
      record {
        name_fits =
            let e : (offset_nodes s x).name ≡ (s.nodes x).name =
              ap (λ (y : SnapNode). y.name) (offset-same x) in
            rw e fit.name_fits;
        bsdname_fits =
            let e : (offset_nodes s x).bsdname ≡ (s.nodes x).bsdname =
              ap (λ (y : SnapNode). y.bsdname) (offset-same x) in
            rw e fit.bsdname_fits;
      }

  unnumbered-offset : (x : ℕ) → (offset_nodes s x).dup_ordinal ≡ 0
  unnumbered-offset x = ap (λ (y : SnapNode). y.dup_ordinal) (offset-same x) ∙ f.unnumbered x

  nodes-offset :
      (x : ℕ)
      → Reordered (offset_nodes s x) (dup_rows (filled s).child_idx s.node_count (offset_nodes s) x)
  nodes-offset x = dup_rows-Reordered (filled s).child_idx s.node_count (offset_nodes s) x

  abbrev placed : Snapshot
  placed = record s {
    nodes = dup_rows (filled s).child_idx s.node_count (offset_nodes s);
    child_idx = (filled s).child_idx;
  }

  regid-placed : (x : ℕ) → (placed.nodes x).regid ≡ (s.nodes x).regid
  regid-placed x = ap (λ (y : SnapNode). y.regid) (nodes-offset x) ∙ regid-offset x

  parents-placed : parents placed ≡ parents s
  unfolding parent_index
  parents-placed =
      let h : (x : ℕ) → (placed.nodes x).parent_regid ≡ (s.nodes x).parent_regid = λ x.
        ap (λ (y : SnapNode). y.parent_regid) (nodes-offset x)
        ∙ ap (λ (y : SnapNode). y.parent_regid) (offset-same x) in
      λ i x. or_root (hash_find s.hash_size s.hash (h x i))

  first-placed :
      (p : ℕ) → p < s.node_count → (placed.nodes p).first_child ≡ sum_counts (child_counts s) p
  first-placed p l = ap (λ (y : SnapNode). y.first_child) (nodes-offset p) ∙ (Offset-at p l).first

  num-placed : (p : ℕ) → p < s.node_count → (placed.nodes p).num_children ≡ child_counts s p
  num-placed p l = ap (λ (y : SnapNode). y.num_children) (nodes-offset p) ∙ (Offset-at p l).num

  piece-offset :
      (p : ℕ)
      → p < s.node_count
      → piece (filled s).child_idx (sum_counts (child_counts s) p) (child_counts s p)
        ≡ kids (parents s) p (s.node_count - 1)
  piece-offset p l =
      fill-kids (parents s) (s.node_count - 1) s.node_count parent-lt
        (record { cursor = λ q. (offset_nodes s q).first_child; child_idx = s.child_idx })
        (λ q lq. (Offset-at q lq).first) p l

  counts-le : (p : ℕ) → p < s.node_count → child_counts s p ≤ 16384
  counts-le p l =
      let b : sum_counts (child_counts s) p + child_counts s p
          ≤ sum_counts (child_counts s) s.node_count =
        sum_before (child_counts s) p s.node_count l in
      let t : sum_counts (child_counts s) s.node_count ≡ s.node_count - 1 =
        sum-count_children (parents s) (s.node_count - 1) s.node_count parent-lt in
      omega (arith, f.sound.bound)

  are_kids :
      (p : ℕ)
      → p < s.node_count
      → AreKids
          (parents s)
          p
          (s.node_count - 1)
          (filled s).child_idx
          (offset_nodes s p).first_child
          (offset_nodes s p).num_children
  are_kids p l =
      rw ((Offset-at p l).first, (Offset-at p l).num)
        (piece-AreKids (parents s) p (s.node_count - 1) (filled s).child_idx
          (sum_counts (child_counts s) p) (child_counts s p) (piece-offset p l))

  placed-HasTree : HasTree placed
  placed-HasTree = record {
    children = λ p l. rw (first-placed p l, num-placed p l, parents-placed) (piece-offset p l);
    ordinal = λ p k l lk.
        let e : (placed.nodes p).first_child ≡ (offset_nodes s p).first_child =
          ap (λ (y : SnapNode). y.first_child) (nodes-offset p) in
        let lk' : k < (offset_nodes s p).num_children =
          subst (λ z. k < z) (ap (λ (y : SnapNode). y.num_children) (nodes-offset p)) lk in
        subst
          (λ z.
            (placed.nodes (placed.child_idx (z + k))).dup_ordinal
            ≡ count_dups placed.nodes placed.child_idx z (placed.child_idx (z + k)) k)
          (sym e)
          (dup_rows_own (parents s) (s.node_count - 1) (filled s).child_idx (offset_nodes s)
              s.node_count are_kids p k l lk'
            ∙ sym (
                count_dups_same (offset_nodes s) placed.nodes placed.child_idx
                  (offset_nodes s p).first_child
                  (placed.child_idx ((offset_nodes s p).first_child + k)) k
                  (λ x. Reordered-name (offset_nodes s x) (placed.nodes x) (nodes-offset x))));
  }

  Fits-placed : (x : ℕ) → Fits (placed.nodes x)
  Fits-placed x =
      let fit = Fits-offset x in
      record {
        name_fits =
            let e : (placed.nodes x).name ≡ (offset_nodes s x).name =
              Reordered-name (offset_nodes s x) (placed.nodes x) (nodes-offset x) in
            rw e fit.name_fits;
        bsdname_fits =
            let e : (placed.nodes x).bsdname ≡ (offset_nodes s x).bsdname =
              ap (λ (y : SnapNode). y.bsdname) (nodes-offset x) in
            rw e fit.bsdname_fits;
      }

  placed-IsSound : IsSound placed
  placed-IsSound = record {
    pos = f.sound.pos;
    bound = f.sound.bound;
    root = regid-placed 0 ∙ f.sound.root;
    at = λ i l. ap (find s) (regid-placed i) ∙ f.sound.at i l;
    from = λ r i e. let (l, g) = f.sound.from r i e in (l, regid-placed i ∙ g);
    fits = Fits-placed;
    ordinal_le =
        dup_rows-le (filled s).child_idx s.node_count 16384 (offset_nodes s)
          (λ p l. omega (arith, counts-le p l, (Offset-at p l).num))
          (λ i. omega (arith, unnumbered-offset i));
    tree = inl placed-HasTree;
  }

  bare-IsSound : IsSound (place_children false s)
  unfolding place_children
  bare-IsSound = record {
    pos = f.sound.pos;
    bound = f.sound.bound;
    root = regid-offset 0 ∙ f.sound.root;
    at = λ i l. ap (find s) (regid-offset i) ∙ f.sound.at i l;
    from = λ r i e. let (l, g) = f.sound.from r i e in (l, regid-offset i ∙ g);
    fits = λ x.
        let fit = Fits-offset x in
        record { name_fits = fit.name_fits; bsdname_fits = fit.bsdname_fits };
    ordinal_le = λ i. omega (arith, unnumbered-offset i);
    tree = inr (λ p. refl);
  }

  pub place_children-IsSound : (ok : Bool) → IsSound (place_children ok s)
  place_children-IsSound true = unfold place_children in placed-IsSound
  place_children-IsSound false = bare-IsSound

  pub place_children-HasTree : HasTree (place_children true s)
  unfolding place_children
  place_children-HasTree = placed-HasTree

  -- The children fit into the array: the check for too many never strikes.
  pub children_fit :
      s.node_count ≤ s.child_cap
      → ltb s.child_cap (sum_counts (child_counts s) s.node_count) ≡ false
  children_fit l =
      let t : sum_counts (child_counts s) s.node_count ≡ s.node_count - 1 =
        sum-count_children (parents s) (s.node_count - 1) s.node_count parent-lt in
      ground (arith, t, l)

  -- Placing changes the offsets, the counts of children and the ordinals alone.
  pub place_children_keeps :
      (ok : Bool) (x : ℕ) → Replaced (s.nodes x) ((place_children ok s).nodes x)
  unfolding place_children
  place_children_keeps true x =
      nodes-offset x
      ∙ ap (set_dup (placed.nodes x).dup_ordinal) (offset-same x)
      ∙ ap
          (λ (y : SnapNode).
            set_dup (placed.nodes x).dup_ordinal
              (set_children y.first_child y.num_children (s.nodes x)))
          (sym (nodes-offset x))
  place_children_keeps false x =
      let f = (offset_nodes s x).first_child in
      ap (set_children f 0) (offset-same x)
      ∙ ap (λ d. set_dup d (set_children f 0 (s.nodes x)))
          (sym (ap (λ (y : SnapNode). y.dup_ordinal) (offset-same x)))
