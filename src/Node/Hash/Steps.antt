-- ===== src/Node/Hash/Steps.antt =====
-- The threads that run `sysfsnode_find` and `sysfs_vnop_reclaim` (kext/sysfs_node.c,
-- kext/sysfs_vnops.c), interleaved: each step is one section under the lock, or one call outside it.
use m_sl_sys_fs.Base.{ℕ, ◌≡◌, Option, none, some, []}
use m_sl_sys_fs.Types.{Sfsnode, enomem}
use m_sl_sys_fs.Structure.Links.{Member}
use m_sl_sys_fs.Node.Hash.{Request, Hash, write_at, allocate, free_node, release}
use m_sl_sys_fs.Node.Hash.Find.{
  search, attach, give_up, Thread, idle, searching, allocating, waiting, checking, creating,
  returned, go_on,
}

pub record System : Type 0 where
  pub hash : Hash
  pub thread : ℕ → Thread

-- Thread `i` stands at `t`, and the hash is `h`.
abbrev pub moves : System → ℕ → Thread → Hash → System
moves s i t h = record { hash = h; thread = write_at s.thread i t }

-- `sysfs_vnop_reclaim` on the vnode of the node at `a`
unfoldable pub vnop_reclaim : Option ℕ → Hash → Hash
vnop_reclaim none h = h
vnop_reclaim (some a) h = free_node a h

pub data Step (s : System) : System → Type 0 where
  -- a call, and the return of an earlier one
  calls :
      (i : ℕ) (req : Request) → s.thread i ≡ idle → Step s (moves s i (searching req none) s.hash)
  leaves :
      (i e : ℕ) (r : Option (ℕ × ℕ)) → s.thread i ≡ returned e r → Step s (moves s i idle s.hash)
  -- one pass through the loop
  searches :
      (i : ℕ) (req : Request) (new : Option ℕ)
      → s.thread i ≡ searching req new
      → Step s (
          moves s i
            (go_on req (search req new s.hash).0 (search req new s.hash).1.0)
            (search req new s.hash).1.1)
  -- OSMalloc
  allocates :
      (i : ℕ) (req : Request)
      → s.thread i ≡ allocating req
      → Step s (moves s i (searching req (some s.hash.next)) (allocate req s.hash))
  lacks_memory :
      (i : ℕ) (req : Request)
      → s.thread i ≡ allocating req
      → Step s (moves s i (returned enomem none) s.hash)
  -- msleep returns
  wakes :
      (i : ℕ) (req : Request) (new : Option ℕ) (a : ℕ)
      → s.thread i ≡ waiting req new a
      → Step s (moves s i (searching req new) s.hash)
  -- vnode_getwithvid: the vnode still belongs to the node, or it has been reassigned
  keeps :
      (i : ℕ) (req : Request) (new : Option ℕ) (a v : ℕ) (n : Sfsnode)
      → s.thread i ≡ checking req new a v
      → s.hash.cell a ≡ some n
      → n.vnode ≡ some v
      → Step s (moves s i (returned 0 (some (a, v))) (release new s.hash))
  loses :
      (i : ℕ) (req : Request) (new : Option ℕ) (a v : ℕ)
      → s.thread i ≡ checking req new a v
      → Step s (moves s i (searching req none) (release new s.hash))
  -- the callback has created the vnode, or failed
  attaches :
      (i : ℕ) (req : Request) (new : Option ℕ) (a v : ℕ)
      → s.thread i ≡ creating req new a
      → Step s (moves s i (returned 0 (some (a, v))) (release new (attach a v s.hash)))
  gives_up :
      (i : ℕ) (req : Request) (new : Option ℕ) (a e : ℕ)
      → s.thread i ≡ creating req new a
      → Step s (moves s i (returned e none) (release new (give_up a s.hash)))
  -- A vnode is reclaimed when no thread holds an iocount on it. While it is being created it is held,
  -- so its node is one that has been given its vnode.
  reclaims :
      (b a v : ℕ) (n : Sfsnode)
      → Member a (s.hash.bucket b)
      → s.hash.cell a ≡ some n
      → n.vnode ≡ some v
      → Step s (record s { hash = vnop_reclaim (some a) s.hash })

-- Any number of steps.
pub data Steps (s : System) : System → Type 0 where
  stays : Steps s s
  then_ : (t u : System) → Steps s t → Step t u → Steps s u

-- No node, and no thread in a call.
abbrev pub fresh_system : System
fresh_system = record {
  hash = record { bucket = λ b. []; cell = λ a. none; next = 0; live_nodes = 0 };
  thread = λ i. idle;
}
