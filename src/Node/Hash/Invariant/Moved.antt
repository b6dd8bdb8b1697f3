-- ===== src/Node/Hash/Invariant/Moved.antt =====
-- Allocation, insertion, removal and release of nodes (kext/sysfs_node.c) keep the hash sound.
use m_sl_sys_fs.Base.{
  ℕ, ◌<◌, ◌≡◌, true, false, Option, none, some, List, [], ◌∷◌, ◌==◌, if◌then◌else◌, ==_iff,
  Bool-cases, inl, inr, arith, ap, sym, ◌∙◌, subst,
}
use m_sl_sys_fs.Types.{Sfsnode, id_eq_iff}
use m_sl_sys_fs.Structure.Links.{Member}
use m_sl_sys_fs.Node.Hash.{
  Request, Hash, write_at, remove, find_node, is_match, allocate, release, free_node, new_sfsnode,
}
use m_sl_sys_fs.Node.Hash.Invariant.{
  Held, IsSound, write-same, write-other, Member-remove, remove-Member,
}
use m_sl_sys_fs.Node.Hash.Invariant.Change.{write-cases}

matches :
    (req : Request) (n : Sfsnode)
    → n.mnt_id ≡ req.mount_id
    → n.node_id ≡ req.id
    → is_match req (some n) ≡ true
matches req n em ei =
    let m : (n.mnt_id == req.mount_id) ≡ true = (==_iff n.mnt_id req.mount_id).1 em in
    rw (m) ((id_eq_iff n.node_id req.id).1 ei)

-- A bucket that is searched in vain holds no node with the identity.
pub find_node-none :
    (cell : ℕ → Option Sfsnode) (req : Request) (l : List ℕ) (y : ℕ) (n : Sfsnode)
    → find_node cell req l ≡ none
    → Member y l
    → cell y ≡ some n
    → n.mnt_id ≡ req.mount_id
    → n.node_id ≡ req.id
    → ⊥
unfolding find_node
find_node-none cell req [] y n f m c em ei = absurd m
find_node-none cell req (a ∷ l) y n f m c em ei = elim (Bool-cases (is_match req (cell a))) [
  | inl e ↦ absurd (
      let b : some a ≡ none =
        subst (λ b. (if b then some a else find_node cell req l) ≡ none) e f in
      cc b)
  | inr e ↦
      let f' : find_node cell req l ≡ none =
        subst (λ b. (if b then some a else find_node cell req l) ≡ none) e f in
      elim m [
        | inr m' ↦ find_node-none cell req l y n f' m' c em ei
        | inl ya ↦
            let hit : is_match req (some n) ≡ true = matches req n em ei in
            let miss : is_match req (some n) ≡ false = ap (is_match req) (sym c ∙ ap cell ya) ∙ e in
            absurd (cc (hit, miss))
      ]
]

-- A thread gives up a node that it has not inserted.
pub release-IsSound :
    (h : Hash) (o m : Held) (a i : ℕ)
    → IsSound h o m
    → o i ≡ some a
    → IsSound (release (some a) h) (write_at o i none) m
release-IsSound h o m a i s own =
    let out : (b x : ℕ) → Member x (h.bucket b) → (a == x) ≡ false = λ b x q.
      elim (Bool-cases (a == x)) [
        | inl w ↦ absurd (
            (s.private_ i a own).1 b
              (subst (λ y. Member y (h.bucket b)) (sym ((==_iff a x).0 w)) q))
        | inr w ↦ w
      ] in
    let others : (j x : ℕ) → write_at o i none j ≡ some x → (o j ≡ some x) × ((a == x) ≡ false) =
      λ j x e. elim (write-cases o i j none (some x) e) [
        | inl (p, r) ↦ absurd (cc r)
        | inr (p, r) ↦ elim (Bool-cases (a == x)) [
          | inl w ↦
              let ij : i ≡ j = s.owner i j x (own ∙ ap some ((==_iff a x).0 w)) r in
              absurd (ground (arith, p, ij))
          | inr w ↦ (r, w)
        ]
      ] in
    let same : (x : ℕ) → (a == x) ≡ false → write_at h.cell a none x ≡ h.cell x =
      λ x w. write-other h.cell a x none w in
    let was : (x : ℕ) (n : Sfsnode)
        → write_at h.cell a none x ≡ some n
        → ((a == x) ≡ false) × (h.cell x ≡ some n) =
      λ x n c. elim (write-cases h.cell a x none (some n) c) [
        | inl (p, r) ↦ absurd (cc r)
        | inr r ↦ r
      ] in
    record {
      live = λ b x q. let (n, c, e) = s.live b x q in (n, same x (out b x q) ∙ c, e);
      one =
          λ b c x y n k p q cn ck em ei. s.one b c x y n k p q (was x n cn).1 (was y k ck).1 em ei;
      made =
          λ j x e. let (b, n, q, c, t, v) = s.made j x e in (b, n, q, same x (out b x q) ∙ c, t, v);
      maker = s.maker;
      marked = λ b x n q c t. s.marked b x n q (was x n c).1 t;
      private_ = λ j x e.
          let (r, w) = others j x e in let ((n, c), q) = s.private_ j x r in ((n, same x w ∙ c), q);
      owner = λ j k x e f. s.owner j k x (others j x e).0 (others k x f).0;
      kept = λ x n c. elim (s.kept x n (was x n c).1) [
        | inl q ↦ inl q
        | inr (j, ej) ↦ elim (Bool-cases (i == j)) [
          | inl w ↦
              let ij : i ≡ j = (==_iff i j).0 w in
              let ax : a ≡ x = cc (own, ij, ej) in absurd (ground (arith, (was x n c).0, ax))
          | inr w ↦ inr (j, write-other o i j none w ∙ ej)
        ]
      ];
      fresh = λ x n c. s.fresh x n (was x n c).1;
    }

-- A node leaves the hash and is freed: none that a vnode is created for, but its own.
pub free_node-IsSound :
    (h : Hash) (o m m' : Held) (a b : ℕ)
    → IsSound h o m
    → Member a (h.bucket b)
    → ((j x : ℕ) → m' j ≡ some x → (m j ≡ some x) × ((a == x) ≡ false))
    → ((j x : ℕ) → m j ≡ some x → (a == x) ≡ false → m' j ≡ some x)
    → IsSound (free_node a h) o m'
unfolding free_node
free_node-IsSound h o m m' a b s here fewer most =
    let same : (x : ℕ) → (a == x) ≡ false → write_at h.cell a none x ≡ h.cell x =
      λ x w. write-other h.cell a x none w in
    let was : (x : ℕ) (n : Sfsnode)
        → write_at h.cell a none x ≡ some n
        → ((a == x) ≡ false) × (h.cell x ≡ some n) =
      λ x n c. elim (write-cases h.cell a x none (some n) c) [
        | inl (p, r) ↦ absurd (cc r)
        | inr r ↦ r
      ] in
    let in_ : (c x : ℕ)
        → Member x (remove a (h.bucket c))
        → Member x (h.bucket c) × ((a == x) ≡ false) =
      λ c x q. Member-remove a x (h.bucket c) q in
    record {
      live = λ c x q. let (n, z, e) = s.live c x (in_ c x q).0 in (n, same x (in_ c x q).1 ∙ z, e);
      one = λ c d x y n k p q cn ck em ei.
          s.one c d x y n k (in_ c x p).0 (in_ d y q).0 (was x n cn).1 (was y k ck).1 em ei;
      made = λ j x e.
          let (r, w) = fewer j x e in
          let (c, n, q, z, t, v) = s.made j x r in
          (c, n, remove-Member a x (h.bucket c) q w, same x w ∙ z, t, v);
      maker = λ j k x e f. s.maker j k x (fewer j x e).0 (fewer k x f).0;
      marked = λ c x n q z t.
          let (j, ej) = s.marked c x n (in_ c x q).0 (was x n z).1 t in
          (j, most j x ej (in_ c x q).1);
      private_ = λ j x e.
          let ((n, z), out) = s.private_ j x e in
          elim (Bool-cases (a == x)) [
            | inl w ↦ absurd (out b (subst (λ y. Member y (h.bucket b)) ((==_iff a x).0 w) here))
            | inr w ↦ ((n, same x w ∙ z), λ c q. out c (in_ c x q).0)
          ];
      owner = s.owner;
      kept = λ x n c. elim (s.kept x n (was x n c).1) [
        | inl (d, q) ↦ inl (d, remove-Member a x (h.bucket d) q (was x n c).0)
        | inr q ↦ inr q
      ];
      fresh = λ x n c. s.fresh x n (was x n c).1;
    }

-- A thread that owns no node allocates one.
pub allocate-IsSound :
    (h : Hash) (o m : Held) (req : Request) (i : ℕ)
    → IsSound h o m
    → o i ≡ none
    → IsSound (allocate req h) (write_at o i (some h.next)) m
allocate-IsSound h o m req i s free =
    let a : ℕ = h.next in
    let new : Sfsnode = new_sfsnode a req in
    let apart : (x : ℕ) (n : Sfsnode) → h.cell x ≡ some n → (a == x) ≡ false = λ x n c.
      elim (Bool-cases (a == x)) [
        | inl w ↦
            absurd
              (let l : x < a = s.fresh x n c in let e : a ≡ x = (==_iff a x).0 w in omega arith)
        | inr w ↦ w
      ] in
    let keep : (x : ℕ) (n : Sfsnode) → h.cell x ≡ some n → write_at h.cell a (some new) x ≡ some n =
      λ x n c. write-other h.cell a x (some new) (apart x n c) ∙ c in
    let in_cell : (b x : ℕ) (n : Sfsnode)
        → Member x (h.bucket b)
        → write_at h.cell a (some new) x ≡ some n
        → h.cell x ≡ some n =
      λ b x n q c.
        let (n', z, e) = s.live b x q in
        sym (write-other h.cell a x (some new) (apart x n' z)) ∙ c in
    record {
      live = λ b x q. let (n, c, e) = s.live b x q in (n, keep x n c, e);
      one = λ b c x y n k p q cn ck em ei.
          s.one b c x y n k p q (in_cell b x n p cn) (in_cell c y k q ck) em ei;
      made = λ j x e. let (b, n, q, c, t, v) = s.made j x e in (b, n, q, keep x n c, t, v);
      maker = s.maker;
      marked = λ b x n q c t. s.marked b x n q (in_cell b x n q c) t;
      private_ = λ j x e. elim (write-cases o i j (some a) (some x) e) [
        | inl (p, r) ↦
            let ax : a ≡ x = cc r in
            (
              (
                new,
                ap (λ y. write_at h.cell a (some new) y) (sym ax) ∙ write-same h.cell a (some new),
              ),
              λ b q.
                  let (n, c, k) = s.live b x q in
                  absurd (let w : (a == x) ≡ false = apart x n c in ground (arith, w, ax)),
            )
        | inr (p, r) ↦ let ((n, c), out) = s.private_ j x r in ((n, keep x n c), out)
      ];
      owner = λ j k x e f. elim (write-cases o i j (some a) (some x) e) [
        | inl (p, r) ↦ elim (write-cases o i k (some a) (some x) f) [
          | inl (p', r') ↦ sym p ∙ p'
          | inr (p', r') ↦ absurd (
              let ((n, c), out) = s.private_ k x r' in
              let w : (a == x) ≡ false = apart x n c in
              let ax : a ≡ x = cc r in ground (arith, w, ax))
        ]
        | inr (p, r) ↦ elim (write-cases o i k (some a) (some x) f) [
          | inl (p', r') ↦ absurd (
              let ((n, c), out) = s.private_ j x r in
              let w : (a == x) ≡ false = apart x n c in
              let ax : a ≡ x = cc r' in ground (arith, w, ax))
          | inr (p', r') ↦ s.owner j k x r r'
        ]
      ];
      kept = λ x n c. elim (write-cases h.cell a x (some new) (some n) c) [
        | inl (p, r) ↦ inr (i, write-same o i (some a) ∙ ap some p)
        | inr (p, r) ↦ elim (s.kept x n r) [
          | inl q ↦ inl q
          | inr (j, ej) ↦ elim (Bool-cases (i == j)) [
            | inl w ↦ absurd (let ij : i ≡ j = (==_iff i j).0 w in cc (free, ij, ej))
            | inr w ↦ inr (j, write-other o i j (some a) w ∙ ej)
          ]
        ]
      ];
      fresh = λ x n c. elim (write-cases h.cell a x (some new) (some n) c) [
        | inl (p, r) ↦ omega arith
        | inr (p, r) ↦ let l : x < a = s.fresh x n r in omega arith
      ];
    }
