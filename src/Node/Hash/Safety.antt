-- ===== src/Node/Hash/Safety.antt =====
-- Every step of the threads that search the node hash (kext/sysfs_node.c) keeps it sound.
pub mod Reach
pub mod Found
use m_sl_sys_fs.Base.{
  ℕ, ◌≡◌, refl, Bool, true, false, Option, none, some, List, [], ◌∷◌, ◌==◌, if◌then◌else◌, ==_iff,
  ==_refl, Bool-cases, Option-cases, inl, inr, arith, ap, sym, ◌∙◌, subst,
}
use m_sl_sys_fs.Types.{Sfsnode}
use m_sl_sys_fs.Structure.Links.{Member}
use m_sl_sys_fs.Node.Hash.{
  Request, Hash, write_at, bucket_of, find_node, is_match, insert, allocate, release, free_node,
  update,
}
use m_sl_sys_fs.Node.Hash.Find.{
  Next, proceed, proceed_at, is_attaching, vnode_of, use_node, search, attach, give_up, Thread,
  idle, searching, allocating, waiting, checking, creating, returned, go_on, owned, attached_by,
}
use m_sl_sys_fs.Node.Hash.Steps.{
  System, moves, vnop_reclaim, Step, calls, leaves, searches, allocates, lacks_memory, wakes, keeps,
  loses, attaches, gives_up, reclaims,
}
use m_sl_sys_fs.Node.Hash.Invariant.{Held, IsSound, IsSound-agree, write-same, write-other}
use m_sl_sys_fs.Node.Hash.Invariant.Kept.{wait-IsSound, mark-IsSound, attach-IsSound}
use m_sl_sys_fs.Node.Hash.Invariant.Change.{write-cases}
use m_sl_sys_fs.Node.Hash.Invariant.Moved.{release-IsSound, free_node-IsSound, allocate-IsSound}
use m_sl_sys_fs.Node.Hash.Invariant.Inserted.{insert-IsSound, at_new, here}

write-noop : {A : Type 0} (f : ℕ → A) (i : ℕ) (v : A) → v ≡ f i → (j : ℕ) → write_at f i v j ≡ f j
write-noop f i v e j = elim (Bool-cases (i == j)) [
  | inl w ↦ rw w (e ∙ ap f ((==_iff i j).0 w))
  | inr w ↦ write-other f i j v w
]

write-map :
    {A B : Type 0} (g : A → B) (f : ℕ → A) (i j : ℕ) (v : A)
    → g (write_at f i v j) ≡ write_at (λ k. g (f k)) i (g v) j
write-map g f i j v = elim (Bool-cases (i == j)) [ inl w ↦ rw w refl | inr w ↦ rw w refl ]

write-twice :
    {A : Type 0} (f : ℕ → A) (i j : ℕ) (v w : A)
    → write_at f i w j ≡ write_at (write_at f i v) i w j
write-twice f i j v w = elim (Bool-cases (i == j)) [ inl e ↦ rw e refl | inr e ↦ rw e refl ]

abbrev pub owns_of : (ℕ → Thread) → Held
owns_of thread i = owned (thread i)

abbrev pub makes_of : (ℕ → Thread) → Held
makes_of thread i = attached_by (thread i)

abbrev pub IsSoundSystem : System → Type 0
IsSoundSystem s = IsSound s.hash (owns_of s.thread) (makes_of s.thread)

-- A holding that is written to what it was.
pub same_owns :
    (h : Hash) (o m : Held) (i : ℕ) (v : Option ℕ)
    → v ≡ o i
    → IsSound h o m
    → IsSound h (write_at o i v) m
same_owns h o m i v e s = IsSound-agree h o m (write_at o i v) m (write-noop o i v e) (λ j. refl) s

pub same_makes :
    (h : Hash) (o m : Held) (i : ℕ) (v : Option ℕ)
    → v ≡ m i
    → IsSound h o m
    → IsSound h o (write_at m i v)
same_makes h o m i v e s = IsSound-agree h o m o (write_at m i v) (λ j. refl) (write-noop m i v e) s

-- Thread `i` at `t`.
pub moved :
    (s : System) (i : ℕ) (t : Thread) (h : Hash)
    → IsSound h
        (write_at (owns_of s.thread) i (owned t))
        (write_at (makes_of s.thread) i (attached_by t))
    → IsSoundSystem (moves s i t h)
moved s i t h q =
    IsSound-agree h _ _ _ _ (λ j. write-map owned s.thread i j t)
      (λ j. write-map attached_by s.thread i j t) q

pub release-any :
    (h : Hash) (o m : Held) (i : ℕ) (new : Option ℕ)
    → new ≡ o i
    → IsSound h o m
    → IsSound (release new h) (write_at o i none) m
release-any h o m i none e s = same_owns h o m i none e s
release-any h o m i (some a) e s = release-IsSound h o m a i s (sym e)

pub find_node-Member :
    (cell : ℕ → Option Sfsnode) (req : Request) (l : List ℕ) (a : ℕ)
    → find_node cell req l ≡ some a
    → Member a l
unfolding find_node
find_node-Member cell req [] a e = absurd (cc e)
find_node-Member cell req (x ∷ l) a e = elim (Bool-cases (is_match req (cell x))) [
  | inl b ↦
      let f : some x ≡ some a =
        subst (λ b. (if b then some x else find_node cell req l) ≡ some a) b e in
      inl (cc f)
  | inr b ↦ inr (
      find_node-Member cell req l a
        (subst (λ b. (if b then some x else find_node cell req l) ≡ some a) b e))
]

module _ (o m : Held) (i : ℕ) (req : Request) (out : m i ≡ none) where
  -- After the thread has gone on to `next` with the hash `h`.
  abbrev pub After : Option ℕ → Next → Hash → Type 0
  After new next h =
      IsSound h (write_at o i (owned (go_on req new next)))
        (write_at m i (attached_by (go_on req new next)))

  proceed-IsSound :
      (h : Hash) (new : Option ℕ) (a b : ℕ) (n : Sfsnode) (att : Bool) (vn : Option ℕ)
      → IsSound h o m
      → new ≡ o i
      → Member a (h.bucket b)
      → h.cell a ≡ some n
      → att ≡ n.attaching_vnode
      → vn ≡ n.vnode
      → After new (proceed a att vn h).0 (proceed a att vn h).1
  unfolding proceed
  proceed-IsSound h new a b n true vn s e q c ea ev =
      same_makes _ _ m i none (sym out) (same_owns _ o m i new e (wait-IsSound h o m a s))
  proceed-IsSound h new a b n false (some v) s e q c ea ev =
      same_makes h _ m i none (sym out) (same_owns h o m i new e s)
  proceed-IsSound h new a b n false none s e q c ea ev =
      same_owns _ o _ i new e (mark-IsSound h o m a i b n s out q c (sym ea) (sym ev))

use_node-IsSound :
    (o m : Held) (i : ℕ) (req : Request) (out : m i ≡ none) (h : Hash) (new found : Option ℕ)
    → IsSound h o m
    → new ≡ o i
    → find_node h.cell req (h.bucket (bucket_of req.mount_id req.id)) ≡ found
    → After o m i req out
        (use_node req new found h).0
        (use_node req new found h).1.0
        (use_node req new found h).1.1
unfolding use_node
use_node-IsSound o m i req out h new (some a) s e f =
    let b = bucket_of req.mount_id req.id in
    let q : Member a (h.bucket b) = find_node-Member h.cell req (h.bucket b) a f in
    let (n, c, _) = s.live b a q in
    proceed-IsSound o m i req out h new a b n _ _ s e q c (ap is_attaching c) (ap vnode_of c)
use_node-IsSound o m i req out h none none s e f =
    same_makes h _ m i none (sym out) (same_owns h o m i none e s)
use_node-IsSound o m i req out h (some a) none s e f =
    let b = bucket_of req.mount_id req.id in
    let own : o i ≡ some a = sym e in
    let s' : IsSound (insert a req h) (write_at o i none) m =
      insert-IsSound h o m req a i s own f in
    let c = at_new h o m req a i s own in
    IsSound-agree _ _ _ _ _ (λ j. write-twice o i j none _) (λ j. refl)
      (proceed-IsSound (write_at o i none) m i req out (insert a req h) none a b _ _ _ s'
        (sym (write-same o i none)) (here h o m req a i s own) c (ap is_attaching c)
        (ap vnode_of c))

pub search-IsSound :
    (o m : Held) (i : ℕ) (req : Request) (out : m i ≡ none) (h : Hash) (new : Option ℕ)
    → IsSound h o m
    → new ≡ o i
    → After o m i req out (search req new h).0 (search req new h).1.0 (search req new h).1.1
unfolding search
search-IsSound o m i req out h new s e = use_node-IsSound o m i req out h new _ s e refl

pub attached-IsSound :
    (h : Hash) (o m : Held) (a i v : ℕ)
    → IsSound h o m
    → m i ≡ some a
    → IsSound (attach a v h) o (write_at m i none)
unfolding attach
attached-IsSound h o m a i v s e = attach-IsSound h o m a i v s e

pub give_up-IsSound :
    (h : Hash) (o m : Held) (a i : ℕ)
    → IsSound h o m
    → m i ≡ some a
    → IsSound (give_up a h) o (write_at m i none)
unfolding give_up
give_up-IsSound h o m a i s own =
    let (b, n, here, c, t, v) = s.made i a own in
    free_node-IsSound h o m (write_at m i none) a b s here
      (λ j x e. elim (write-cases m i j none (some x) e) [
        | inl (p, r) ↦ absurd (cc r)
        | inr (p, r) ↦ elim (Bool-cases (a == x)) [
          | inl w ↦
              let ij : i ≡ j = s.maker i j x (own ∙ ap some ((==_iff a x).0 w)) r in
              absurd (ground (arith, p, ij))
          | inr w ↦ (r, w)
        ]
      ])
      (λ j x e w. elim (Bool-cases (i == j)) [
        | inl w' ↦
            let ij : i ≡ j = (==_iff i j).0 w' in
            let ax : a ≡ x = cc (own, ij, e) in absurd (ground (arith, w, ax))
        | inr w' ↦ write-other m i j none w' ∙ e
      ])

pub vnop_reclaim-IsSound :
    (h : Hash) (o m : Held) (a b v : ℕ) (n : Sfsnode)
    → IsSound h o m
    → Member a (h.bucket b)
    → h.cell a ≡ some n
    → n.vnode ≡ some v
    → IsSound (vnop_reclaim (some a) h) o m
unfolding vnop_reclaim
vnop_reclaim-IsSound h o m a b v n s here c e =
    free_node-IsSound h o m m a b s here
      (λ j x r. elim (Bool-cases (a == x)) [
        | inl w ↦
            let ax : a ≡ x = (==_iff a x).0 w in
            let (b', n', here', c', t', v') = s.made j x r in
            absurd (cc (c', ap h.cell (sym ax) ∙ c, v', e))
        | inr w ↦ (r, w)
      ])
      (λ j x r w. r)
