-- ===== src/Structure/Links/Grow.antt =====
-- A new node under a live parent keeps the tree.
use m_sl_sys_fs.Base.{
  ℕ, ◌+◌, ◌-◌, ◌≤◌, ◌<◌, ◌≡◌, ◌≢◌, ◌⊎◌, inl, inr, refl, Option, none, some, List, [], ◌∷◌, ◌++◌,
  arith, ◌==◌, Bool-cases, ==_iff, ◌∙◌, sym, ap, subst, false,
}
use m_sl_sys_fs.Types.{Snode, is_root}
use m_sl_sys_fs.Structure.{write}
use m_sl_sys_fs.Structure.Links.{Member, IsIncreasing, AllBelow, id_at, IsTree}

Member-last : (n : ℕ) (xs : List ℕ) → Member n (xs ++ n ∷ [])
Member-last n [] = inl refl
Member-last n (x ∷ xs) = inr (Member-last n xs)

Member-append : (c n : ℕ) (xs : List ℕ) → Member c xs → Member c (xs ++ n ∷ [])
Member-append c n [] m = absurd m
Member-append c n (x ∷ xs) (inl e) = inl e
Member-append c n (x ∷ xs) (inr m) = inr (Member-append c n xs m)

append-Member : (c n : ℕ) (xs : List ℕ) → Member c (xs ++ n ∷ []) → Member c xs ⊎ (c ≡ n)
append-Member c n [] (inl e) = inr e
append-Member c n [] (inr m) = absurd m
append-Member c n (x ∷ xs) (inl e) = inl (inl e)
append-Member c n (x ∷ xs) (inr m) = elim (append-Member c n xs m) [
  | inl old ↦ inl (inr old)
  | inr new ↦ inr new
]

IsIncreasing-append :
    (low n : ℕ) (xs : List ℕ)
    → low < n
    → IsIncreasing low xs
    → AllBelow n xs
    → IsIncreasing low (xs ++ n ∷ [])
IsIncreasing-append low n [] h i b = (h, tt)
IsIncreasing-append low n (x ∷ xs) h (hx, i) (bx, b) = (hx, IsIncreasing-append x n xs bx i b)

AllBelow-suc : (n : ℕ) (xs : List ℕ) → AllBelow n xs → AllBelow (n + 1) xs
AllBelow-suc n [] b = tt
AllBelow-suc n (x ∷ xs) (bx, b) = (omega arith, AllBelow-suc n xs b)

AllBelow-append : (n : ℕ) (xs : List ℕ) → AllBelow n xs → AllBelow (n + 1) (xs ++ n ∷ [])
AllBelow-append n [] b = (omega arith, tt)
AllBelow-append n (x ∷ xs) (bx, b) = (omega arith, AllBelow-append n xs b)

module _ {n0 k next : ℕ} {cell : ℕ → Option Snode} (t : IsTree n0 k next cell) (p : ℕ)
    (y new : Snode) (at_p : cell p ≡ some y) (parent : new.parent ≡ some p)
    (childless : new.children ≡ []) (id : new.base_node_id ≡ id_at k (next - n0))
    (type : is_root new.node_type ≡ false) where
  abbrev pub y' : Snode
  y' = record y { children = y.children ++ next ∷ [] }

  abbrev pub cell' : ℕ → Option Snode
  cell' = write (write cell next (some new)) p (some y')

  -- The cells after the insertion, one case for each kind of address.
  data At (n : ℕ) (x : Snode) : Type 0 where
    at_parent : n ≡ p → x ≡ y' → At n x
    at_new : n ≡ next → x ≡ new → At n x
    at_old : n ≢ p → n ≢ next → cell n ≡ some x → At n x

  at : (n : ℕ) (x : Snode) → cell' n ≡ some x → At n x
  at n x e = elim (Bool-cases (p == n)) [
    | inl q ↦ at_parent (ground arith) (ground arith)
    | inr q ↦ elim (Bool-cases (next == n)) [
      | inl r ↦ at_new (ground arith) (ground arith)
      | inr r ↦ at_old (ground arith) (ground arith) (ground arith)
    ]
  ]

  -- Where the old cells stand in the new ones, and the two changed cells.
  new_at_p : cell' p ≡ some y'
  new_at_p = ground arith

  new_at_next : next ≢ p → cell' next ≡ some new
  new_at_next h = ground arith

  new_at_old : (n : ℕ) → n ≢ p → n ≢ next → cell' n ≡ cell n
  new_at_old n h h' = ground arith

  range_new : (n : ℕ) (x : Snode) → cell' n ≡ some x → (n0 ≤ n) × (n < next + 1)
  range_new n x e = elim (at n x e) [
    | at_parent q r ↦ omega (arith, t.range p y at_p)
    | at_new q r ↦ omega (arith, t.range p y at_p)
    | at_old q r h ↦ omega (arith, t.range n x h)
  ]

  p-ne-next : next ≢ p
  p-ne-next e = absurd (omega (arith, t.range p y at_p))

  live_new : (n : ℕ) → n0 ≤ n → n < next + 1 → (x : Snode) × (cell' n ≡ some x)
  live_new n lo hi = elim (Bool-cases (p == n)) [
    | inl q ↦ (y', rw (← (==_iff p n).0 q) new_at_p)
    | inr q ↦ elim (Bool-cases (next == n)) [
      | inl r ↦ (new, rw (← (==_iff next n).0 r) (new_at_next p-ne-next))
      | inr r ↦
          let (x, e) = t.live n lo (ground arith) in
          (x, new_at_old n (ground arith) (ground arith) ∙ e)
    ]
  ]

  ids_new : (n : ℕ) (x : Snode) → cell' n ≡ some x → x.base_node_id ≡ id_at k (n - n0)
  ids_new n x e = elim (at n x e) [
    | at_parent q r ↦ rw (q, r) (t.ids p y at_p)
    | at_new q r ↦ rw (q, r) id
    | at_old q r h ↦ t.ids n x h
  ]

  typed_new : (n : ℕ) (x : Snode) → cell' n ≡ some x → is_root x.node_type ≡ (n == n0)
  typed_new n x e = elim (at n x e) [
    | at_parent q r ↦ ap (λ (w : Snode). is_root w.node_type) r ∙ rw q (t.typed p y at_p)
    | at_new q r ↦
        let ne : (next == n0) ≡ false = ground (arith, t.range p y at_p) in
        ap (λ (w : Snode). is_root w.node_type) r ∙ rw q (type ∙ sym ne)
    | at_old q r h ↦ t.typed n x h
  ]

  top_new : (n : ℕ) (x : Snode) → cell' n ≡ some x → x.parent ≡ none → n ≡ n0
  top_new n x e f = elim (at n x e) [
    | at_parent q r ↦ q ∙ t.top p y at_p (sym (ap (λ (w : Snode). w.parent) r) ∙ f)
    | at_new q r ↦ cc (sym (ap (λ (w : Snode). w.parent) r) ∙ f, parent)
    | at_old q r h ↦ t.top n x h f
  ]

  -- An old node keeps its parent and its children.
  record Kept (q : ℕ) (z : Snode) : Type 0 where
    z' : Snode
    stands : cell' q ≡ some z'
    same_parent : z'.parent ≡ z.parent
    same_children : (c : ℕ) → Member c z.children → Member c z'.children

  kept : (q : ℕ) (z : Snode) → cell q ≡ some z → Kept q z
  kept q z e = elim (Bool-cases (p == q)) [
    | inl a ↦
        let same : p ≡ q = (==_iff p q).0 a in
        let yz : y ≡ z = cc in
        record {
          z' = y';
          stands = rw (← same) new_at_p;
          same_parent = ap (λ (w : Snode). w.parent) yz;
          same_children = λ c m. Member-append c next y.children (rw yz m);
        }
    | inr a ↦ record {
      z' = z;
      stands = new_at_old q (ground arith) (λ r. absurd (omega (arith, t.range q z e))) ∙ e;
      same_parent = refl;
      same_children = λ c m. m;
    }
  ]

  Parented : ℕ → ℕ → Type 0
  Parented n q = (z : Snode) × (q < n) × (cell' q ≡ some z) × Member n z.children

  old_parent : (n q : ℕ) (x : Snode) → cell n ≡ some x → x.parent ≡ some q → Parented n q
  unfolding Parented
  old_parent n q x e f =
      let (z, lt, e', m) = t.up n x q e f in
      let k = kept q z e' in (k.z', lt, k.stands, k.same_children n m)

  up_new : (n : ℕ) (x : Snode) (q : ℕ) → cell' n ≡ some x → x.parent ≡ some q → Parented n q
  up_new n x q e f = elim (at n x e) [
    | at_parent a b ↦ rw a (old_parent p q y at_p (sym (ap (λ (w : Snode). w.parent) b) ∙ f))
    | at_new a b ↦
        let bp : x.parent ≡ new.parent = ap (λ (w : Snode). w.parent) b in
        let pq : p ≡ q = cc in
        rw (a, ← pq)
          (unfold Parented in
            (y', omega (arith, t.range p y at_p), new_at_p, Member-last next y.children))
    | at_old a b h ↦ old_parent n q x h f
  ]

  Child : ℕ → ℕ → Type 0
  Child n c = (z : Snode) × (n < c) × (cell' c ≡ some z) × (z.parent ≡ some n)

  old-Child : (n c : ℕ) (x : Snode) → cell n ≡ some x → Member c x.children → Child n c
  unfolding Child
  old-Child n c x e m =
      let (z, lt, e', f) = t.down n x c e m in
      let k = kept c z e' in (k.z', lt, k.stands, k.same_parent ∙ f)

  down_new : (n : ℕ) (x : Snode) (c : ℕ) → cell' n ≡ some x → Member c x.children → Child n c
  down_new n x c e m = elim (at n x e) [
    | at_parent a b ↦
        elim (append-Member c next y.children (subst (λ (w : Snode). Member c w.children) b m)) [
          | inl old ↦ rw a (old-Child p c y at_p old)
          | inr last ↦
              rw (a, last)
                (unfold Child in
                  (new, omega (arith, t.range p y at_p), new_at_next p-ne-next, parent))
        ]
    | at_new a b ↦ absurd (subst (λ l. Member c l) (ap (λ (w : Snode). w.children) b ∙ childless) m)
    | at_old a b h ↦ old-Child n c x h m
  ]

  ordered_new :
      (n : ℕ) (x : Snode)
      → cell' n ≡ some x
      → IsIncreasing n x.children × AllBelow (next + 1) x.children
  ordered_new n x e = elim (at n x e) [
    | at_parent a b ↦
        let (i, o) = t.ordered p y at_p in
        rw (a, b)
          (
            IsIncreasing-append p next y.children (t.range p y at_p).1 i o,
            AllBelow-append next y.children o,
          )
    | at_new a b ↦ rw (b, childless) (tt, tt)
    | at_old a b h ↦ let (i, o) = t.ordered n x h in (i, AllBelow-suc next x.children o)
  ]

  pub grow-IsTree : IsTree n0 k (next + 1) cell'
  unfolding Parented Child
  grow-IsTree = record {
    range = range_new;
    live = live_new;
    ids = ids_new;
    typed = typed_new;
    top = top_new;
    up = up_new;
    down = down_new;
    ordered = ordered_new;
  }
