-- ===== src/Snapshot/Registry.antt =====
-- A built snapshot as the registry that the file system asks (kext/sysfs_iokit.cpp).
use m_sl_sys_fs.Base.{
  ℕ, zero, suc, ◌+◌, ◌-◌, ◌≤◌, ◌<◌, ◌≡◌, ◌↔◌, refl, ◌∙◌, ap, sym, true, ◌&&◌, Option, some, List,
  [], ◌∷◌, ◌++◌, ◌==◌, ==_iff, ==_refl, arith, Bool-cases, Option-cases, inl, inr, ◌⊎◌, map, All,
}
use m_sl_sys_fs.Structure.Links.{Member}
use m_sl_sys_fs.Snapshot.{Snapshot}
use m_sl_sys_fs.Snapshot.Hash.{hash_find}
use m_sl_sys_fs.Snapshot.Walk.{RegEntry, table_cap, table_size}
use m_sl_sys_fs.Snapshot.Children.{parent_index}
use m_sl_sys_fs.Snapshot.Children.Counts.{kids, kids_taken, kids_left}
use m_sl_sys_fs.Snapshot.Children.Fill.{piece}
use m_sl_sys_fs.Snapshot.Build.{Sizes, Answers, World, snap_build, estimate, parents}
use m_sl_sys_fs.Snapshot.Build.Sound.{IsSound, HasTree}
use m_sl_sys_fs.Snapshot.Build.Whole.{whole_walk, whole_walk-Captures, snap_build-Built}
use m_sl_sys_fs.Snapshot.Query.{find}
use m_sl_sys_fs.Snapshot.Query.Shows.{row, shown, view, children_at}

pub Member-snoc : (x y : ℕ) (xs : List ℕ) → Member x (xs ++ y ∷ []) ↔ (Member x xs ⊎ (x ≡ y))
Member-snoc x y [] = (
  λ m. elim m [ inl e ↦ inr e | inr b ↦ absurd b ],
  λ m. elim m [ inl b ↦ absurd b | inr e ↦ inl e ],
)
Member-snoc x y (z ∷ xs) = (
  λ m. elim m [
    | inl e ↦ inl (inl e)
    | inr r ↦ elim ((Member-snoc x y xs).0 r) [ inl h ↦ inl (inr h) | inr e ↦ inr e ]
  ],
  λ m. elim m [
    | inl h ↦ elim h [ inl e ↦ inl e | inr r ↦ inr ((Member-snoc x y xs).1 (inl r)) ]
    | inr e ↦ inr ((Member-snoc x y xs).1 (inr e))
  ],
)

-- The children of `p` are the nodes whose parent is at `p`.
pub kids-Member :
    (par : ℕ → ℕ) (p n x : ℕ) → Member x (kids par p n) ↔ ((0 < x) × (x ≤ n) × (par x ≡ p))
kids-Member par p zero x = unfold kids in (λ m. absurd m, λ h. absurd (omega arith))
kids-Member par p (suc n) x = elim (Bool-cases (par (suc n) == p)) [
  | inl own ↦
      let q : par (suc n) ≡ p = (==_iff _ p).0 own in
      rw (kids_taken par n p own) (
        λ m. elim ((Member-snoc x (suc n) (kids par p n)).0 m) [
          | inl h ↦ let (pos, le, e) = (kids-Member par p n x).0 h in (pos, omega arith, e)
          | inr e ↦ (omega arith, omega arith, ap par e ∙ q)
        ],
        λ h. (Member-snoc x (suc n) (kids par p n)).1 (elim (Bool-cases (x == suc n)) [
          | inl e ↦ inr ((==_iff x (suc n)).0 e)
          | inr ne ↦ inl ((kids-Member par p n x).1 (h.0, ground (arith, ne, h.1), h.2))
        ]),
      )
  | inr other ↦ rw (kids_left par n p other) (
    λ m. let (pos, le, e) = (kids-Member par p n x).0 m in (pos, omega arith, e),
    λ h. elim (Bool-cases (x == suc n)) [
      | inl e ↦
          let q : par (suc n) ≡ p = ap par (sym ((==_iff x (suc n)).0 e)) ∙ h.2 in
          absurd (cc (other, ==_refl p, ap (λ z. z == p) q))
      | inr ne ↦ (kids-Member par p n x).1 (h.0, ground (arith, ne, h.1), h.2)
    ],
  )
]

row-piece_split : (a : ℕ → ℕ) (base n : ℕ) → piece a base (suc n) ≡ a base ∷ piece a (base + 1) n
unfolding piece
row-piece_split a base zero = let z : base + 0 ≡ base = omega arith in rw z refl
row-piece_split a base (suc n) =
    let z : base + suc n ≡ base + 1 + n = omega arith in
    ap (λ xs. xs ++ a (base + suc n) ∷ []) (row-piece_split a base n) ∙ rw z refl

row_round : (a : ℕ → ℕ) (base n : ℕ) → row a base (suc n) ≡ a base ∷ row a (base + 1) n
unfolding row
row_round a base n = refl

pub row-piece : (a : ℕ → ℕ) (base n : ℕ) → row a base n ≡ piece a base n
row-piece a base zero = unfold row piece in refl
row-piece a base (suc n) =
    row_round a base n
    ∙ ap (λ xs. a base ∷ xs) (row-piece a (base + 1) n)
    ∙ sym (row-piece_split a base n)

-- The children that are shown of an entry are the nodes whose parent it is, in the order of the walk.
pub view-children :
    (s : Snapshot) (id p : ℕ)
    → IsSound s
    → HasTree s
    → find s id ≡ some p
    → (view s).children id ≡ map (shown s) (kids (parents s) p (s.node_count - 1))
unfolding view
view-children s id p w t e =
    ap (children_at s) e
    ∙ ap (map (shown s)) (
        row-piece s.child_idx (s.nodes p).first_child (s.nodes p).num_children
        ∙ t.children p (w.from id p e).0)

-- A node of the snapshot: it is found under its id, it is among the children of the node at its
-- parent's index, and it is no child of another.
pub record Placed (s : Snapshot) (i : ℕ) : Type 0 where
  pub found : find s (s.nodes i).regid ≡ some i
  pub parent_found : find s (s.nodes (parents s i)).regid ≡ some (parents s i)
  pub among : Member i (kids (parents s) (parents s i) (s.node_count - 1))
  pub only : (p : ℕ) → Member i (kids (parents s) p (s.node_count - 1)) → p ≡ parents s i

pub record ListsAll (es : List RegEntry) (full : ℕ) (s : Snapshot) : Type 0 where
  pub placed : (i : ℕ) → 0 < i → i < s.node_count → Placed s i
  pub children :
      (id p : ℕ)
      → find s id ≡ some p
      → (view s).children id ≡ map (shown s) (kids (parents s) p (s.node_count - 1))
  pub complete :
      s.node_count < full
      → All (λ e. (e.id ≡ 0) ⊎ ((i : ℕ) × (find s e.id ≡ some i) × (i < s.node_count))) es

pub parents-lt : (s : Snapshot) → IsSound s → (i : ℕ) → parents s i < s.node_count
unfolding parent_index
parents-lt s w i = elim (Option-cases (find s (s.nodes i).parent_regid)) [
  | inl e ↦ rw e w.pos
  | inr (p, e) ↦ rw e (w.from _ p e).0
]

sound-Placed : (s : Snapshot) → IsSound s → (i : ℕ) → 0 < i → i < s.node_count → Placed s i
sound-Placed s w i pos l = record {
  found = w.at i l;
  parent_found = w.at (parents s i) (parents-lt s w i);
  among = (kids-Member (parents s) (parents s i) (s.node_count - 1) i).1 (pos, omega arith, refl);
  only = λ p m. sym ((kids-Member (parents s) p (s.node_count - 1) i).0 m).2;
}

each_found :
    (b : ℕ → Option ℕ) (s : Snapshot) (es : List RegEntry)
    → IsSound s
    → ((r : ℕ) → find s r ≡ b r)
    → All (λ e. (e.id ≡ 0) ⊎ ((i : ℕ) × (b e.id ≡ some i))) es
    → All (λ e. (e.id ≡ 0) ⊎ ((i : ℕ) × (find s e.id ≡ some i) × (i < s.node_count))) es
each_found b s [] w same h = tt
each_found b s (e ∷ es) w same h = (
  elim h.0 [
    | inl z ↦ inl z
    | inr (i, f) ↦ let g : find s e.id ≡ some i = same e.id ∙ f in inr (i, g, (w.from e.id i g).0)
  ],
  each_found b s es w same h.1,
)

-- When a snapshot is built with memory for its children: each node but the root is found under its id
-- and is a child of exactly one node, which is where its parent's id is found, or else the root; the
-- children that are shown are these, in the order of the walk; and unless the table is full, each
-- entry of the registry with an id other than 0 is in the snapshot.
pub snap_build-ListsAll :
    (z : Sizes) (a : Answers) (w : World) (s : Snapshot)
    → (snap_build z a w).0 ≡ some s
    → (a.counts_ok && a.cursor_ok) ≡ true
    → ListsAll a.entries (table_cap (estimate a w)) s
snap_build-ListsAll z a w s e memory =
    let b = snap_build-Built z a w s e in
    let c = whole_walk-Captures a.entries (estimate a w) in
    record {
      placed = sound-Placed s b.sound;
      children = λ id p f. view-children s id p b.sound (b.tree memory) f;
      complete = λ l.
          each_found
            (hash_find (table_size (table_cap (estimate a w)))
              (whole_walk a.entries (estimate a w)).hash)
            s a.entries b.sound b.finds (c.all (omega (arith, b.count)));
    }
