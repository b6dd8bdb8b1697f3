-- ===== src/Node/Hash/Invariant/Kept.antt =====
-- Each change of the node hash (kext/sysfs_node.c) keeps it sound.
use m_sl_sys_fs.Base.{
  ℕ, ◌≡◌, refl, true, false, none, some, ◌==◌, ==_iff, Bool-cases, inl, inr, arith, ap, sym, ◌∙◌,
  subst,
}
use m_sl_sys_fs.Types.{Sfsnode}
use m_sl_sys_fs.Structure.Links.{Member}
use m_sl_sys_fs.Node.Hash.{Hash, write_at, update}
use m_sl_sys_fs.Node.Hash.Invariant.{Held, IsSound, write-same, write-other}
use m_sl_sys_fs.Node.Hash.Invariant.Change.{
  update-at, update-IsSound, update-Was, update-other, write-cases, set_waiting, set_attaching,
  set_vnode, waiting_keeps, attaching_keeps, vnode_keeps,
}

-- A thread begins to wait for a node.
pub wait-IsSound :
    (h : Hash) (o m : Held) (a : ℕ) → IsSound h o m → IsSound (update a set_waiting h) o m
wait-IsSound h o m a s =
    update-IsSound h o m m a set_waiting waiting_keeps s
      (λ i x e.
        let (b, n, q, c, t, v) = s.made i x e in
        elim (Bool-cases (a == x)) [
          | inl p ↦
              let e' : a ≡ x = (==_iff a x).0 p in
              (
                b,
                set_waiting n,
                q,
                ap (λ y. (update a set_waiting h).cell y) (sym e')
                    ∙ update-at h a set_waiting waiting_keeps n (ap h.cell e' ∙ c),
                t,
                v,
              )
          | inr p ↦ (b, n, q, update-other h a set_waiting x n c p, t, v)
        ])
      s.maker
      (λ b x n' q c t.
        let (n, z, w) = update-Was h a set_waiting x n' c in
        elim w [
          | inl (p, e) ↦ s.marked b x n q z (sym (ap (λ y. y.attaching_vnode) e) ∙ t)
          | inr (p, e) ↦ s.marked b x n q z (sym (ap (λ y. y.attaching_vnode) e) ∙ t)
        ])

-- Thread `i` begins to create a vnode for a node that has none.
pub mark-IsSound :
    (h : Hash) (o m : Held) (a i b : ℕ) (n : Sfsnode)
    → IsSound h o m
    → m i ≡ none
    → Member a (h.bucket b)
    → h.cell a ≡ some n
    → n.attaching_vnode ≡ false
    → n.vnode ≡ none
    → IsSound (update a set_attaching h) o (write_at m i (some a))
mark-IsSound h o m a i b n s out q c t v =
    let not_made : (j x : ℕ) → m j ≡ some x → a ≡ x → ⊥ = λ j x e p.
      let (b', n', q', c', t', v') = s.made j x e in
      absurd (cc (c', ap h.cell (sym p) ∙ c, t', t)) in
    update-IsSound h o m (write_at m i (some a)) a set_attaching attaching_keeps s
      (λ j x e. elim (write-cases m i j (some a) (some x) e) [
        | inl (p, r) ↦
            let ax : a ≡ x = cc r in
            (
              b,
              set_attaching n,
              subst (λ y. Member y (h.bucket b)) ax q,
              ap (λ y. (update a set_attaching h).cell y) (sym ax)
                  ∙ update-at h a set_attaching attaching_keeps n c,
              refl,
              v,
            )
        | inr (p, r) ↦
            let (b', n', q', c', t', v') = s.made j x r in
            elim (Bool-cases (a == x)) [
              | inl w ↦ absurd (not_made j x r ((==_iff a x).0 w))
              | inr w ↦ (b', n', q', update-other h a set_attaching x n' c' w, t', v')
            ]
      ])
      (λ j k x e f. elim (write-cases m i j (some a) (some x) e) [
        | inl (p, r) ↦ elim (write-cases m i k (some a) (some x) f) [
          | inl (p', r') ↦ sym p ∙ p'
          | inr (p', r') ↦ absurd (not_made k x r' (cc r))
        ]
        | inr (p, r) ↦ elim (write-cases m i k (some a) (some x) f) [
          | inl (p', r') ↦ absurd (not_made j x r (cc r'))
          | inr (p', r') ↦ s.maker j k x r r'
        ]
      ])
      (λ b' x n' q' c' t'.
        let (n'', z, w) = update-Was h a set_attaching x n' c' in
        elim w [
          | inl (p, e) ↦ (i, write-same m i (some a) ∙ ap some p)
          | inr (p, e) ↦
              let (j, ej) = s.marked b' x n'' q' z (sym (ap (λ y. y.attaching_vnode) e) ∙ t') in
              elim (Bool-cases (i == j)) [
                | inl w' ↦ absurd (let ij : i ≡ j = (==_iff i j).0 w' in cc (out, ij, ej))
                | inr w' ↦ (j, write-other m i j (some a) w' ∙ ej)
              ]
        ])

-- Thread `i` attaches the vnode that it has created.
pub attach-IsSound :
    (h : Hash) (o m : Held) (a i v : ℕ)
    → IsSound h o m
    → m i ≡ some a
    → IsSound (update a (set_vnode v) h) o (write_at m i none)
attach-IsSound h o m a i v s own =
    let others : (j x : ℕ) → write_at m i none j ≡ some x → (m j ≡ some x) × ((a == x) ≡ false) =
      λ j x e. elim (write-cases m i j none (some x) e) [
        | inl (p, r) ↦ absurd (cc r)
        | inr (p, r) ↦ elim (Bool-cases (a == x)) [
          | inl w ↦
              let ax : a ≡ x = (==_iff a x).0 w in
              let ij : i ≡ j = s.maker i j x (own ∙ ap some ax) r in absurd (ground (arith, p, ij))
          | inr w ↦ (r, w)
        ]
      ] in
    update-IsSound h o m (write_at m i none) a (set_vnode v) (vnode_keeps v) s
      (λ j x e.
        let (r, w) = others j x e in
        let (b', n', q', c', t', v') = s.made j x r in
        (b', n', q', update-other h a (set_vnode v) x n' c' w, t', v'))
      (λ j k x e f. s.maker j k x (others j x e).0 (others k x f).0)
      (λ b' x n' q' c' t'.
        let (n'', z, w) = update-Was h a (set_vnode v) x n' c' in
        elim w [
          | inl (p, e) ↦
              absurd (let f : false ≡ true = sym (ap (λ y. y.attaching_vnode) e) ∙ t' in cc f)
          | inr (p, e) ↦
              let (j, ej) = s.marked b' x n'' q' z (sym (ap (λ y. y.attaching_vnode) e) ∙ t') in
              elim (Bool-cases (i == j)) [
                | inl w' ↦
                    let ij : i ≡ j = (==_iff i j).0 w' in
                    let ax : a ≡ x = cc (own, ij, ej) in absurd (ground (arith, p, ax))
                | inr w' ↦ (j, write-other m i j none w' ∙ ej)
              ]
        ])
