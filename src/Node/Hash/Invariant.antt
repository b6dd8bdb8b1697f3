-- ===== src/Node/Hash/Invariant.antt =====
-- What holds of the node hash of kext/sysfs_node.c between any two steps, by itself and against the
-- nodes that the threads own or create vnodes for; and its preservation by each change of the hash.
pub mod Change
pub mod Kept
pub mod Moved
pub mod Inserted
use m_sl_sys_fs.Base.{
  ℕ, suc, ◌+◌, ◌<◌, ◌≡◌, ◌⊎◌, refl, Bool, true, false, Option, none, some, List, [], ◌∷◌, ◌==◌,
  if◌then◌else◌, ==_iff, ==_refl, Bool-cases, inl, inr, arith, ap, sym, ◌∙◌, subst,
}
use m_sl_sys_fs.Types.{SfsId, Sfsnode, id_eq, id_eq_iff}
use m_sl_sys_fs.Structure.Links.{Member}
use m_sl_sys_fs.Node.Hash.{Request, Hash, write_at, bucket_of, remove}

-- The nodes that the threads own, and those that they create vnodes for.
abbrev pub Held : Type 0
Held = ℕ → Option ℕ

pub record IsSound (h : Hash) (owns makes : Held) : Type 0 where
  -- a node in a bucket is allocated, and in the bucket of its identifier
  pub live :
      (b a : ℕ)
      → Member a (h.bucket b)
      → (n : Sfsnode) × (h.cell a ≡ some n) × (bucket_of n.mnt_id n.node_id ≡ b)
  -- there is one node for each mount and identifier
  pub one :
      (b c x y : ℕ) (n m : Sfsnode)
      → Member x (h.bucket b)
      → Member y (h.bucket c)
      → h.cell x ≡ some n
      → h.cell y ≡ some m
      → n.mnt_id ≡ m.mnt_id
      → n.node_id ≡ m.node_id
      → x ≡ y
  -- a node that a vnode is created for is in the hash, marked, and has no vnode
  pub made :
      (i a : ℕ)
      → makes i ≡ some a
      → (b : ℕ) × (n : Sfsnode) × Member a (h.bucket b)
        × (h.cell a ≡ some n)
        × (n.attaching_vnode ≡ true)
        × (n.vnode ≡ none)
  -- by one thread
  pub maker : (i j a : ℕ) → makes i ≡ some a → makes j ≡ some a → i ≡ j
  -- and every marked node is one
  pub marked :
      (b a : ℕ) (n : Sfsnode)
      → Member a (h.bucket b)
      → h.cell a ≡ some n
      → n.attaching_vnode ≡ true
      → (i : ℕ) × (makes i ≡ some a)
  -- a node that a thread owns is allocated, in no bucket, and owned by no other thread
  pub private_ :
      (i a : ℕ)
      → owns i ≡ some a
      → ((n : Sfsnode) × (h.cell a ≡ some n)) × ((b : ℕ) → Member a (h.bucket b) → ⊥)
  pub owner : (i j a : ℕ) → owns i ≡ some a → owns j ≡ some a → i ≡ j
  -- an allocated node is in a bucket or owned
  pub kept :
      (a : ℕ) (n : Sfsnode)
      → h.cell a ≡ some n
      → ((b : ℕ) × Member a (h.bucket b)) ⊎ ((i : ℕ) × (owns i ≡ some a))
  pub fresh : (a : ℕ) (n : Sfsnode) → h.cell a ≡ some n → a < h.next

-- The soundness depends on the values of the two functions only.
pub IsSound-agree :
    (h : Hash) (o m o' m' : Held)
    → ((i : ℕ) → o' i ≡ o i)
    → ((i : ℕ) → m' i ≡ m i)
    → IsSound h o m
    → IsSound h o' m'
IsSound-agree h o m o' m' eo em s = record {
  live = s.live;
  one = s.one;
  made = λ i a e. s.made i a (sym (em i) ∙ e);
  maker = λ i j a e f. s.maker i j a (sym (em i) ∙ e) (sym (em j) ∙ f);
  marked = λ b a n q c t. let (i, e) = s.marked b a n q c t in (i, em i ∙ e);
  private_ = λ i a e. s.private_ i a (sym (eo i) ∙ e);
  owner = λ i j a e f. s.owner i j a (sym (eo i) ∙ e) (sym (eo j) ∙ f);
  kept = λ a n c. elim (s.kept a n c) [ inl q ↦ inl q | inr (i, e) ↦ inr (i, eo i ∙ e) ];
  fresh = s.fresh;
}

pub write-same : {A : Type 0} (f : ℕ → A) (a : ℕ) (v : A) → write_at f a v a ≡ v
write-same f a v = rw (==_refl a) refl

pub write-other :
    {A : Type 0} (f : ℕ → A) (a b : ℕ) (v : A) → (a == b) ≡ false → write_at f a v b ≡ f b
write-other f a b v e = rw e refl

pub Member-remove : (a x : ℕ) (l : List ℕ) → Member x (remove a l) → Member x l × ((a == x) ≡ false)
Member-remove a x [] m = absurd m
Member-remove a x (y ∷ l) m = elim (Bool-cases (a == y)) [
  | inl q ↦
      let m' : Member x (remove a l) =
        subst (λ b. Member x (if b then remove a l else y ∷ remove a l)) q m in
      let r = Member-remove a x l m' in (inr r.0, r.1)
  | inr q ↦
      let m' : (x ≡ y) ⊎ Member x (remove a l) =
        subst (λ b. Member x (if b then remove a l else y ∷ remove a l)) q m in
      elim m' [
        | inl e ↦ (inl e, rw e q)
        | inr m'' ↦ let r = Member-remove a x l m'' in (inr r.0, r.1)
      ]
]

pub remove-Member : (a x : ℕ) (l : List ℕ) → Member x l → (a == x) ≡ false → Member x (remove a l)
remove-Member a x [] m e = m
remove-Member a x (y ∷ l) (inl q) e = rw (sym q, e) (inl refl)
remove-Member a x (y ∷ l) (inr m) e = elim (Bool-cases (a == y)) [
  | inl q ↦ rw q (remove-Member a x l m e)
  | inr q ↦ rw q (inr (remove-Member a x l m e))
]
