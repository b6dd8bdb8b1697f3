-- ===== src/Node/Hash/Invariant/Change.antt =====
-- A change of a node in the node hash (kext/sysfs_node.c) that leaves its identity alone.
use m_sl_sys_fs.Base.{
  ℕ, ◌≡◌, ◌⊎◌, refl, true, false, Option, none, some, ◌==◌, ==_iff, Bool-cases, Option-cases, inl,
  inr, arith, ap, sym, ◌∙◌,
}
use m_sl_sys_fs.Types.{Sfsnode}
use m_sl_sys_fs.Structure.Links.{Member}
use m_sl_sys_fs.Node.Hash.{Hash, write_at, with_node, update, bucket_of}
use m_sl_sys_fs.Node.Hash.Invariant.{Held, IsSound, write-same, write-other}

-- A change of a node that leaves its identity alone.
pub record KeepsKey (f : Sfsnode → Sfsnode) : Type 0 where
  pub mnt : (n : Sfsnode) → (f n).mnt_id ≡ n.mnt_id
  pub id : (n : Sfsnode) → (f n).node_id ≡ n.node_id

-- The same identity as before.
pub record Same (c : Option Sfsnode) (n' : Sfsnode) : Type 0 where
  pub old : Sfsnode
  pub was : c ≡ some old
  pub mnt : n'.mnt_id ≡ old.mnt_id
  pub id : n'.node_id ≡ old.node_id

module _ (h : Hash) (a : ℕ) (f : Sfsnode → Sfsnode) (k : KeepsKey f) where
  with_node-Same : (c : Option Sfsnode) (n' : Sfsnode) → with_node f c ≡ some n' → Same c n'
  with_node-Same none n' e = ground (arith, e)
  with_node-Same (some n) n' e = record {
    old = n;
    was = refl;
    mnt = let q : n' ≡ f n = cc e in rw q (k.mnt n);
    id = let q : n' ≡ f n = cc e in rw q (k.id n);
  }

  pub update-Same : (x : ℕ) (n' : Sfsnode) → (update a f h).cell x ≡ some n' → Same (h.cell x) n'
  update-Same x n' e = elim (Bool-cases (a == x)) [
    | inl q ↦
        let p : a ≡ x = (==_iff a x).0 q in
        let c : with_node f (h.cell x) ≡ some n' =
          ap (λ y. with_node f (h.cell y)) (sym p)
          ∙ sym (write-same h.cell a _)
          ∙ ap (λ y. (update a f h).cell y) p
          ∙ e in
        with_node-Same (h.cell x) n' c
    | inr q ↦ record { old = n'; was = sym (write-other h.cell a x _ q) ∙ e; mnt = refl; id = refl }
  ]

  pub update-at : (n : Sfsnode) → h.cell a ≡ some n → (update a f h).cell a ≡ some (f n)
  update-at n e = write-same h.cell a _ ∙ ap (with_node f) e

  update-live :
      (x : ℕ) (n : Sfsnode) → h.cell x ≡ some n → (n' : Sfsnode) × ((update a f h).cell x ≡ some n')
  update-live x n e = elim (Bool-cases (a == x)) [
    | inl q ↦
        let p : a ≡ x = (==_iff a x).0 q in
        (f n, ap (λ y. (update a f h).cell y) (sym p) ∙ update-at n (ap h.cell p ∙ e))
    | inr q ↦ (n, write-other h.cell a x _ q ∙ e)
  ]

pub old_is : {c : Option Sfsnode} {n m : Sfsnode} → c ≡ some n → c ≡ some m → n ≡ m
old_is e f = cc (e, f)

pub key_bucket :
    (n n' : Sfsnode) (b : ℕ)
    → n'.mnt_id ≡ n.mnt_id
    → n'.node_id ≡ n.node_id
    → bucket_of n.mnt_id n.node_id ≡ b
    → bucket_of n'.mnt_id n'.node_id ≡ b
key_bucket n n' b em ei e = rw (em, ei) e

-- A change of a node, with what the new holdings are to meet.
pub update-IsSound :
    (h : Hash) (o m m' : Held) (a : ℕ) (f : Sfsnode → Sfsnode)
    → KeepsKey f
    → IsSound h o m
    → ((i x : ℕ)
        → m' i ≡ some x
        → (b : ℕ) × (n : Sfsnode) × Member x (h.bucket b)
          × ((update a f h).cell x ≡ some n)
          × (n.attaching_vnode ≡ true)
          × (n.vnode ≡ none))
    → ((i j x : ℕ) → m' i ≡ some x → m' j ≡ some x → i ≡ j)
    → ((b x : ℕ) (n : Sfsnode)
        → Member x (h.bucket b)
        → (update a f h).cell x ≡ some n
        → n.attaching_vnode ≡ true
        → (i : ℕ) × (m' i ≡ some x))
    → IsSound (update a f h) o m'
update-IsSound h o m m' a f k s made' maker' marked' = record {
  live = λ b x q.
      let (n, c, e) = s.live b x q in
      let (n', c') = update-live h a f k x n c in
      let w = update-Same h a f k x n' c' in
      (
        n',
        c',
        key_bucket n n' b (w.mnt ∙ ap (λ z. z.mnt_id) (old_is w.was c))
            (w.id ∙ ap (λ z. z.node_id) (old_is w.was c)) e,
      );
  one = λ b c x y n p q r cn cp em ei.
      let v = update-Same h a f k x n cn in
      let w = update-Same h a f k y p cp in
      s.one b c x y v.old w.old q r v.was w.was (sym v.mnt ∙ em ∙ w.mnt) (sym v.id ∙ ei ∙ w.id);
  made = made';
  maker = maker';
  marked = marked';
  private_ = λ i x e. let ((n, c), out) = s.private_ i x e in (update-live h a f k x n c, out);
  owner = s.owner;
  kept = λ x n c. let w = update-Same h a f k x n c in s.kept x w.old w.was;
  fresh = λ x n c. let w = update-Same h a f k x n c in s.fresh x w.old w.was;
}

-- What a changed cell was, and what a cell becomes.
abbrev pub Was : Hash → ℕ → (Sfsnode → Sfsnode) → ℕ → Sfsnode → Type 0
Was h a f x n' =
    (n : Sfsnode) × (h.cell x ≡ some n) × (((a ≡ x) × (n' ≡ f n)) ⊎ (((a == x) ≡ false) × (n' ≡ n)))

pub update-Was :
    (h : Hash) (a : ℕ) (f : Sfsnode → Sfsnode) (x : ℕ) (n' : Sfsnode)
    → (update a f h).cell x ≡ some n'
    → Was h a f x n'
update-Was h a f x n' e = elim (Bool-cases (a == x)) [
  | inr q ↦ (n', sym (write-other h.cell a x _ q) ∙ e, inr (q, refl))
  | inl q ↦
      let p : a ≡ x = (==_iff a x).0 q in
      let c : with_node f (h.cell x) ≡ some n' =
        ap (λ y. with_node f (h.cell y)) (sym p)
        ∙ sym (write-same h.cell a _)
        ∙ ap (λ y. (update a f h).cell y) p
        ∙ e in
      elim (Option-cases (h.cell x)) [
        | inl z ↦ absurd (let b : none ≡ some n' = sym (ap (with_node f) z) ∙ c in cc b)
        | inr (n, z) ↦
            let b : some (f n) ≡ some n' = sym (ap (with_node f) z) ∙ c in (n, z, inl (p, cc b))
      ]
]

pub update-other :
    (h : Hash) (a : ℕ) (f : Sfsnode → Sfsnode) (x : ℕ) (n : Sfsnode)
    → h.cell x ≡ some n
    → (a == x) ≡ false
    → (update a f h).cell x ≡ some n
update-other h a f x n e q = write-other h.cell a x _ q ∙ e

-- What a changed holding says.
pub write-cases :
    {A : Type 0} (m : ℕ → A) (i j : ℕ) (v r : A)
    → write_at m i v j ≡ r
    → ((i ≡ j) × (v ≡ r)) ⊎ (((i == j) ≡ false) × (m j ≡ r))
write-cases m i j v r e = elim (Bool-cases (i == j)) [
  | inl q ↦
      let p : i ≡ j = (==_iff i j).0 q in
      inl (p, sym (write-same m i v) ∙ ap (λ y. write_at m i v y) p ∙ e)
  | inr q ↦ inr (q, sym (write-other m i j v q) ∙ e)
]

abbrev pub set_waiting : Sfsnode → Sfsnode
set_waiting n = record n { thread_waiting_attach = true }

abbrev pub set_attaching : Sfsnode → Sfsnode
set_attaching n = record n { attaching_vnode = true }

abbrev pub set_vnode : ℕ → Sfsnode → Sfsnode
set_vnode v n = record n { attaching_vnode = false; thread_waiting_attach = false; vnode = some v }

pub waiting_keeps : KeepsKey set_waiting
waiting_keeps = record { mnt = λ n. refl; id = λ n. refl }

pub attaching_keeps : KeepsKey set_attaching
attaching_keeps = record { mnt = λ n. refl; id = λ n. refl }

pub vnode_keeps : (v : ℕ) → KeepsKey (set_vnode v)
vnode_keeps v = record { mnt = λ n. refl; id = λ n. refl }
