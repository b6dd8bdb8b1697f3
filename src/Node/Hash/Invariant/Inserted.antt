-- ===== src/Node/Hash/Invariant/Inserted.antt =====
-- Insertion into the node hash (kext/sysfs_node.c) keeps it sound.
use m_sl_sys_fs.Base.{
  ℕ, ◌<◌, ◌≡◌, ◌⊎◌, refl, true, false, none, some, ◌∷◌, ◌==◌, ==_iff, Bool-cases, inl, inr, arith,
  ap, sym, ◌∙◌, subst,
}
use m_sl_sys_fs.Types.{Sfsnode}
use m_sl_sys_fs.Structure.Links.{Member}
use m_sl_sys_fs.Node.Hash.{Request, Hash, write_at, bucket_of, find_node, insert, new_sfsnode}
use m_sl_sys_fs.Node.Hash.Invariant.{Held, IsSound, write-same, write-other}
use m_sl_sys_fs.Node.Hash.Invariant.Change.{write-cases}
use m_sl_sys_fs.Node.Hash.Invariant.Moved.{find_node-none}

module _ (h : Hash) (o m : Held) (req : Request) (a i : ℕ) (s : IsSound h o m)
    (own : o i ≡ some a) where
  abbrev pub home : ℕ
  home = bucket_of req.mount_id req.id

  abbrev pub new : Sfsnode
  new = new_sfsnode a req

  apart : (b x : ℕ) → Member x (h.bucket b) → (a == x) ≡ false
  apart b x q = elim (Bool-cases (a == x)) [
    | inl w ↦
        absurd
          ((s.private_ i a own).1 b (subst (λ y. Member y (h.bucket b)) (sym ((==_iff a x).0 w)) q))
    | inr w ↦ w
  ]

  keep : (x : ℕ) → (a == x) ≡ false → (insert a req h).cell x ≡ h.cell x
  keep x w = write-other h.cell a x (some new) w

  pub at_new : (insert a req h).cell a ≡ some new
  at_new = write-same h.cell a (some new)

  -- what is in a bucket now
  inside :
      (b x : ℕ)
      → Member x ((insert a req h).bucket b)
      → ((x ≡ a) × (home ≡ b)) ⊎ Member x (h.bucket b)
  inside b x q = elim (write-cases h.bucket home b (a ∷ h.bucket home) _ refl) [
    | inl (p, r) ↦
        let q' : (x ≡ a) ⊎ Member x (h.bucket home) = subst (Member x) (sym r) q in
        elim q' [ inl e ↦ inl (e, p) | inr z ↦ inr (subst (λ c. Member x (h.bucket c)) p z) ]
    | inr (p, r) ↦ inr (subst (Member x) (sym r) q)
  ]

  outside : (b x : ℕ) → Member x (h.bucket b) → Member x ((insert a req h).bucket b)
  outside b x q = elim (Bool-cases (home == b)) [
    | inl w ↦
        let p : home ≡ b = (==_iff home b).0 w in
        let z : Member x (h.bucket home) = subst (λ c. Member x (h.bucket c)) (sym p) q in
        let e : (insert a req h).bucket b ≡ a ∷ h.bucket home =
          ap (λ c. (insert a req h).bucket c) (sym p)
          ∙ write-same h.bucket home (a ∷ h.bucket home) in
        subst (Member x) (sym e) (inr z)
    | inr w ↦ subst (Member x) (sym (write-other h.bucket home b (a ∷ h.bucket home) w)) q
  ]

  pub here : Member a ((insert a req h).bucket home)
  here = subst (Member a) (sym (write-same h.bucket home (a ∷ h.bucket home))) (inl refl)

  -- a cell now: the new node, or as before
  now :
      (x : ℕ) (n : Sfsnode)
      → (insert a req h).cell x ≡ some n
      → ((a ≡ x) × (n ≡ new)) ⊎ (((a == x) ≡ false) × (h.cell x ≡ some n))
  now x n c = elim (write-cases h.cell a x (some new) (some n) c) [
    | inl (p, r) ↦ inl (p, cc r)
    | inr r ↦ inr r
  ]

  -- an old node in a bucket reads as before
  old :
      (b x : ℕ) (n : Sfsnode)
      → Member x (h.bucket b)
      → (insert a req h).cell x ≡ some n
      → h.cell x ≡ some n
  old b x n q c = sym (keep x (apart b x q)) ∙ c

  others : (j x : ℕ) → write_at o i none j ≡ some x → (o j ≡ some x) × ((a == x) ≡ false)
  others j x e = elim (write-cases o i j none (some x) e) [
    | inl (p, r) ↦ absurd (cc r)
    | inr (p, r) ↦ elim (Bool-cases (a == x)) [
      | inl w ↦
          let ij : i ≡ j = s.owner i j x (own ∙ ap some ((==_iff a x).0 w)) r in
          absurd (ground (arith, p, ij))
      | inr w ↦ (r, w)
    ]
  ]

  module _ (vain : find_node h.cell req (h.bucket home) ≡ none) where
    -- no old node has the identity of the new one
    unlike :
        (c y : ℕ) (n : Sfsnode)
        → Member y (h.bucket c)
        → h.cell y ≡ some n
        → n.mnt_id ≡ req.mount_id
        → n.node_id ≡ req.id
        → ⊥
    unlike c y n q z em ei =
        let (n', z', e) = s.live c y q in
        let same : n' ≡ n = cc (z, z') in
        let hc : home ≡ c =
          ap (λ t. bucket_of t req.id) (sym em)
          ∙ ap (bucket_of n.mnt_id) (sym ei)
          ∙ ap (λ t. bucket_of t.mnt_id t.node_id) (sym same)
          ∙ e in
        find_node-none h.cell req (h.bucket home) y n vain
          (subst (λ d. Member y (h.bucket d)) (sym hc) q) z em ei

    is_new : (x : ℕ) (n : Sfsnode) → x ≡ a → (insert a req h).cell x ≡ some n → n ≡ new
    is_new x n e c =
        let z : (insert a req h).cell a ≡ some n = ap (λ y. (insert a req h).cell y) (sym e) ∙ c in
        cc (z, at_new)

    insert-one :
        (b c x y : ℕ) (n k : Sfsnode)
        → Member x ((insert a req h).bucket b)
        → Member y ((insert a req h).bucket c)
        → (insert a req h).cell x ≡ some n
        → (insert a req h).cell y ≡ some k
        → n.mnt_id ≡ k.mnt_id
        → n.node_id ≡ k.node_id
        → x ≡ y
    insert-one b c x y n k p q cn ck em ei = elim (inside b x p) [
      | inl (e, _) ↦ elim (inside c y q) [
        | inl (e', _) ↦ e ∙ sym e'
        | inr q' ↦
            let nn : n ≡ new = is_new x n e cn in
            absurd (
              unlike c y k q' (old c y k q' ck) (sym em ∙ ap (λ t. t.mnt_id) nn)
                (sym ei ∙ ap (λ t. t.node_id) nn))
      ]
      | inr p' ↦ elim (inside c y q) [
        | inl (e', _) ↦
            let kn : k ≡ new = is_new y k e' ck in
            absurd (
              unlike b x n p' (old b x n p' cn) (em ∙ ap (λ t. t.mnt_id) kn)
                (ei ∙ ap (λ t. t.node_id) kn))
        | inr q' ↦ s.one b c x y n k p' q' (old b x n p' cn) (old c y k q' ck) em ei
      ]
    ]

    pub insert-IsSound : IsSound (insert a req h) (write_at o i none) m
    insert-IsSound = record {
      live = λ b x q. elim (inside b x q) [
        | inl (e, hb) ↦ (new, ap (λ y. (insert a req h).cell y) e ∙ at_new, hb)
        | inr q' ↦ let (n, c, e) = s.live b x q' in (n, keep x (apart b x q') ∙ c, e)
      ];
      one = insert-one;
      made = λ j x e.
          let (b, n, q, c, t, v) = s.made j x e in
          (b, n, outside b x q, keep x (apart b x q) ∙ c, t, v);
      maker = s.maker;
      marked = λ b x n q c t. elim (inside b x q) [
        | inl (e, _) ↦
            absurd (
              let f : false ≡ true = sym (ap (λ z. z.attaching_vnode) (is_new x n e c)) ∙ t in cc f)
        | inr q' ↦ s.marked b x n q' (old b x n q' c) t
      ];
      private_ = λ j x e.
          let (r, w) = others j x e in
          let ((n, c), out) = s.private_ j x r in
          (
            (n, keep x w ∙ c),
            λ b q. elim (inside b x q) [
              | inl (e', _) ↦ absurd (let ax : a ≡ x = sym e' in ground (arith, w, ax))
              | inr q' ↦ out b q'
            ],
          );
      owner = λ j k x e f. s.owner j k x (others j x e).0 (others k x f).0;
      kept = λ x n c. elim (now x n c) [
        | inl (p, _) ↦ inl (home, subst (λ y. Member y ((insert a req h).bucket home)) p here)
        | inr (p, z) ↦ elim (s.kept x n z) [
          | inl (b, q) ↦ inl (b, outside b x q)
          | inr (j, ej) ↦ elim (Bool-cases (i == j)) [
            | inl w ↦ absurd (
                let ij : i ≡ j = (==_iff i j).0 w in
                let ax : a ≡ x = cc (own, ij, ej) in ground (arith, p, ax))
            | inr w ↦ inr (j, write-other o i j none w ∙ ej)
          ]
        ]
      ];
      fresh = λ x n c. elim (now x n c) [
        | inl (p, _) ↦
            let ((n', z), out) = s.private_ i a own in
            let l : a < h.next = s.fresh a n' z in omega arith
        | inr (p, z) ↦ s.fresh x n z
      ];
    }
