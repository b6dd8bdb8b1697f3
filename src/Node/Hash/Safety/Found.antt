-- ===== src/Node/Hash/Safety/Found.antt =====
-- What a pass through the loop of `sysfsnode_find` (kext/sysfs_node.c) comes to.
use m_sl_sys_fs.Base.{
  ℕ, ◌≡◌, refl, Bool, true, false, Option, none, some, List, [], ◌∷◌, ◌==◌, if◌then◌else◌, ==_iff,
  Bool-cases, inl, inr, arith, ap, sym, ◌∙◌, subst,
}
use m_sl_sys_fs.Types.{Sfsnode, id_eq, id_eq_iff}
use m_sl_sys_fs.Structure.Links.{Member}
use m_sl_sys_fs.Node.Hash.{Request, Hash, bucket_of, find_node, is_match, insert, update}
use m_sl_sys_fs.Node.Hash.Find.{
  Next, needs_memory, waits, checks, creates, proceed, use_node, search,
}
use m_sl_sys_fs.Node.Hash.Invariant.{Held, IsSound}
use m_sl_sys_fs.Node.Hash.Invariant.Change.{
  update-at, KeepsKey, set_waiting, set_attaching, waiting_keeps, attaching_keeps,
}
use m_sl_sys_fs.Node.Hash.Invariant.Inserted.{at_new, here}
use m_sl_sys_fs.Node.Hash.Safety.{find_node-Member}

-- The node that a pass through the loop comes to.
abbrev pub node_of : Next → Option ℕ
node_of needs_memory = none
node_of (waits a) = some a
node_of (checks a v) = some a
node_of (creates a) = some a

-- A node in the hash that has the identity asked for.
abbrev pub IsFound : Request → ℕ → Hash → Type 0
IsFound req a h =
    Member a (h.bucket (bucket_of req.mount_id req.id))
    × (n : Sfsnode) × (h.cell a ≡ some n)
    × (n.mnt_id ≡ req.mount_id)
    × (n.node_id ≡ req.id)

update-IsFound :
    (h : Hash) (req : Request) (a : ℕ) (f : Sfsnode → Sfsnode)
    → KeepsKey f
    → IsFound req a h
    → IsFound req a (update a f h)
update-IsFound h req a f k (q, n, c, em, ei) =
    (q, f n, update-at h a f k n c, k.mnt n ∙ em, k.id n ∙ ei)

proceed-IsFound :
    (h : Hash) (req : Request) (a x : ℕ) (att : Bool) (vn : Option ℕ)
    → IsFound req a h
    → node_of (proceed a att vn h).0 ≡ some x
    → IsFound req x (proceed a att vn h).1
unfolding proceed
proceed-IsFound h req a x true vn d e =
    subst (λ y. IsFound req y (update a set_waiting h)) (cc e)
      (update-IsFound h req a set_waiting waiting_keeps d)
proceed-IsFound h req a x false (some v) d e = subst (λ y. IsFound req y h) (cc e) d
proceed-IsFound h req a x false none d e =
    subst (λ y. IsFound req y (update a set_attaching h)) (cc e)
      (update-IsFound h req a set_attaching attaching_keeps d)

matched :
    (req : Request) (n : Sfsnode)
    → is_match req (some n) ≡ true
    → (n.mnt_id ≡ req.mount_id) × (n.node_id ≡ req.id)
matched req n e =
    let m : (n.mnt_id == req.mount_id) ≡ true = ground (arith, e) in
    let d : id_eq n.node_id req.id ≡ true = ground (arith, e, m) in
    ((==_iff n.mnt_id req.mount_id).0 m, (id_eq_iff n.node_id req.id).0 d)

find_node-match :
    (cell : ℕ → Option Sfsnode) (req : Request) (l : List ℕ) (a : ℕ)
    → find_node cell req l ≡ some a
    → is_match req (cell a) ≡ true
unfolding find_node
find_node-match cell req [] a e = absurd (cc e)
find_node-match cell req (x ∷ l) a e = elim (Bool-cases (is_match req (cell x))) [
  | inl b ↦
      let f : some x ≡ some a =
        subst (λ b. (if b then some x else find_node cell req l) ≡ some a) b e in
      let xa : x ≡ a = cc f in ap (λ y. is_match req (cell y)) (sym xa) ∙ b
  | inr b ↦
      find_node-match cell req l a
        (subst (λ b. (if b then some x else find_node cell req l) ≡ some a) b e)
]

use_node-IsFound :
    (h : Hash) (o m : Held) (i : ℕ) (req : Request) (new found : Option ℕ) (x : ℕ)
    → IsSound h o m
    → new ≡ o i
    → find_node h.cell req (h.bucket (bucket_of req.mount_id req.id)) ≡ found
    → node_of (use_node req new found h).1.0 ≡ some x
    → IsFound req x (use_node req new found h).1.1
unfolding use_node
use_node-IsFound h o m i req new (some a) x s e f d =
    let b = bucket_of req.mount_id req.id in
    let q : Member a (h.bucket b) = find_node-Member h.cell req (h.bucket b) a f in
    let (n, c, _) = s.live b a q in
    let (em, ei) =
      matched req n (ap (is_match req) (sym c) ∙ find_node-match h.cell req (h.bucket b) a f) in
    proceed-IsFound h req a x _ _ (q, n, c, em, ei) d
use_node-IsFound h o m i req none none x s e f d = absurd (cc d)
use_node-IsFound h o m i req (some a) none x s e f d =
    proceed-IsFound (insert a req h) req a x _ _
      (here h o m req a i s (sym e), _, at_new h o m req a i s (sym e), refl, refl) d

-- The node that a pass through the loop waits for, checks or creates a vnode for is in the hash and
-- has the mount and the identifier that were asked for, whether it was found or inserted.
pub search-IsFound :
    (h : Hash) (o m : Held) (i : ℕ) (req : Request) (new : Option ℕ) (x : ℕ)
    → IsSound h o m
    → new ≡ o i
    → node_of (search req new h).1.0 ≡ some x
    → IsFound req x (search req new h).1.1
unfolding search
search-IsFound h o m i req new x s e d = use_node-IsFound h o m i req new _ x s e refl d
