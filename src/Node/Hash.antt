-- ===== src/Node/Hash.antt =====
-- The node hash of kext/sysfs_node.c and the locked sections of `sysfsnode_find`. The lock is held
-- through each of the functions here, so that each is one step of a thread.
pub mod Find
pub mod Steps
pub mod Invariant
pub mod Safety
use m_sl_sys_fs.Base.{
  ℕ, zero, suc, ◌+◌, ◌-◌, ◌*◌, ◌%◌, ◌^◌, Bool, true, false, ◌&&◌, Option, none, some, List, [], ◌∷◌,
  ◌==◌, if◌then◌else◌, bit_xor,
}
use m_sl_sys_fs.Types.{SfsId, Sfsnode, id_eq, no_regid, no_objectid}

-- The number of buckets, `sfsnode_hash_to_bucket_mask + 1`.
abbrev pub nbuckets : ℕ
nbuckets = 64

-- What `sysfsnode_find` is asked for.
pub record Request : Type 0 where
  pub mount_id : ℕ
  pub id : SfsId
  pub snode : ℕ

-- The bucket headers, the heap of nodes and `sysfs_stat_live_nodes`.
pub record Hash : Type 0 where
  pub bucket : ℕ → List ℕ
  pub cell : ℕ → Option Sfsnode
  pub next : ℕ
  pub live_nodes : ℕ

-- `HASH_FOR_MOUNT_AND_ID`, and the mask that selects the bucket
unfoldable pub bucket_of : ℕ → SfsId → ℕ
bucket_of mount_id id =
    bit_xor (bit_xor (bit_xor (mount_id * 2 ^ 16) id.regid) id.objectid) id.base_id % nbuckets

abbrev pub is_match : Request → Option Sfsnode → Bool
is_match req none = false
is_match req (some n) = (n.mnt_id == req.mount_id) && id_eq n.node_id req.id

-- The walk along a bucket.
unfoldable pub find_node : (ℕ → Option Sfsnode) → Request → List ℕ → Option ℕ
find_node cell req [] = none
find_node cell req (a ∷ rest) = if is_match req (cell a) then some a else find_node cell req rest

abbrev pub write_at : {A : Type 0} → (ℕ → A) → ℕ → A → ℕ → A
write_at f a v b = if a == b then v else f b

-- A change of a node in place.
abbrev pub with_node : (Sfsnode → Sfsnode) → Option Sfsnode → Option Sfsnode
with_node f none = none
with_node f (some n) = some (f n)

abbrev pub update : ℕ → (Sfsnode → Sfsnode) → Hash → Hash
update a f h = record h { cell = write_at h.cell a (with_node f (h.cell a)) }

-- The memory of a node: zeroed, and with the fields that are set before it is inserted.
abbrev pub new_sfsnode : ℕ → Request → Sfsnode
new_sfsnode a req = record {
  addr = a;
  vnode = none;
  attaching_vnode = false;
  thread_waiting_attach = false;
  mnt_id = req.mount_id;
  node_id = req.id;
  structure_node = req.snode;
}

-- `OSMalloc`, when it succeeds
abbrev pub allocate : Request → Hash → Hash
allocate req h = record h {
  cell = write_at h.cell h.next (some (new_sfsnode h.next req));
  next = h.next + 1;
}

-- Initialisation and `LIST_INSERT_HEAD`
abbrev pub insert : ℕ → Request → Hash → Hash
insert a req h =
    let b = bucket_of req.mount_id req.id in
    record h {
      cell = write_at h.cell a (some (new_sfsnode a req));
      bucket = write_at h.bucket b (a ∷ h.bucket b);
      live_nodes = h.live_nodes + 1;
    }

abbrev pub remove : ℕ → List ℕ → List ℕ
remove a [] = []
remove a (b ∷ bs) = if a == b then remove a bs else b ∷ remove a bs

-- `OSFree` of a node that is not in the hash
abbrev pub release : Option ℕ → Hash → Hash
release none h = h
release (some a) h = record h { cell = write_at h.cell a none }

-- `sysfsnode_free_node`
unfoldable pub free_node : ℕ → Hash → Hash
free_node a h = record h {
  bucket = λ b. remove a (h.bucket b);
  cell = write_at h.cell a none;
  live_nodes = h.live_nodes - 1;
}
