-- ===== src/Node/Hash/Find.antt =====
-- `sysfsnode_find` of kext/sysfs_node.c, from one release of the lock to the next.
use m_sl_sys_fs.Base.{ℕ, Bool, true, false, Option, none, some}
use m_sl_sys_fs.Types.{Sfsnode}
use m_sl_sys_fs.Node.Hash.{Request, Hash, bucket_of, find_node, update, insert, free_node}

-- What a pass through the loop ends in: the lock is dropped to allocate, to wait for the thread that
-- is attaching a vnode, to check a vnode, or to create one.
pub data Next : Type 0 where
  needs_memory : Next
  waits : ℕ → Next
  checks : ℕ → ℕ → Next
  creates : ℕ → Next

-- From "Check whether another thread is already in the process" on: `vnode` and `attaching` are
-- those of the node at `a`.
unfoldable pub proceed : ℕ → Bool → Option ℕ → Hash → Next × Hash
proceed a true vnode h = (waits a, update a (λ n. record n { thread_waiting_attach = true }) h)
proceed a false (some v) h = (checks a v, h)
proceed a false none h = (creates a, update a (λ n. record n { attaching_vnode = true }) h)

abbrev pub is_attaching : Option Sfsnode → Bool
is_attaching none = false
is_attaching (some n) = n.attaching_vnode

abbrev pub vnode_of : Option Sfsnode → Option ℕ
vnode_of none = none
vnode_of (some n) = n.vnode

abbrev pub proceed_at : ℕ → Hash → Next × Hash
proceed_at a h = proceed a (is_attaching (h.cell a)) (vnode_of (h.cell a)) h

-- The node that is used: the one found, or else the one that was allocated, which is inserted.
unfoldable pub use_node : Request → Option ℕ → Option ℕ → Hash → Option ℕ × (Next × Hash)
use_node req new (some a) h = (new, proceed_at a h)
use_node req none none h = (none, (needs_memory, h))
use_node req (some a) none h = (none, proceed_at a (insert a req h))

-- The body of the loop with the lock held. `new` is the node allocated and not inserted.
unfoldable pub search : Request → Option ℕ → Hash → Option ℕ × (Next × Hash)
search req new h =
    use_node req new (find_node h.cell req (h.bucket (bucket_of req.mount_id req.id))) h

-- The section after the callback has created the vnode `v`.
unfoldable pub attach : ℕ → ℕ → Hash → Hash
attach a v h =
    update a
      (λ n. record n { attaching_vnode = false; thread_waiting_attach = false; vnode = some v }) h

-- The section after the callback has failed.
unfoldable pub give_up : ℕ → Hash → Hash
give_up a h = free_node a h

-- Where a thread stands in `sysfsnode_find`: what it asked for, the node that it allocated and has
-- not inserted, and the node it is at.
pub data Thread : Type 0 where
  idle : Thread
  searching : Request → Option ℕ → Thread
  allocating : Request → Thread
  waiting : Request → Option ℕ → ℕ → Thread
  checking : Request → Option ℕ → ℕ → ℕ → Thread
  creating : Request → Option ℕ → ℕ → Thread
  returned : ℕ → Option (ℕ × ℕ) → Thread

-- Where a thread goes after `search`.
abbrev pub go_on : Request → Option ℕ → Next → Thread
go_on req new needs_memory = allocating req
go_on req new (waits a) = waiting req new a
go_on req new (checks a v) = checking req new a v
go_on req new (creates a) = creating req new a

-- The node allocated and not inserted, and the node that a vnode is being created for.
abbrev pub owned : Thread → Option ℕ
owned (searching req new) = new
owned (waiting req new a) = new
owned (checking req new a v) = new
owned (creating req new a) = new
owned _ = none

abbrev pub attached_by : Thread → Option ℕ
attached_by (creating req new a) = some a
attached_by _ = none
