-- ===== src/Node/Hash/Safety/Reach.antt =====
-- The node hash of kext/sysfs_node.c in every state that its threads reach.
use m_sl_sys_fs.Base.{ℕ, ◌≡◌, refl, Option, none, ap, sym}
use m_sl_sys_fs.Node.Hash.{release}
use m_sl_sys_fs.Node.Hash.Find.{Thread, owned, attached_by}
use m_sl_sys_fs.Node.Hash.Steps.{
  System, moves, Step, calls, leaves, searches, allocates, lacks_memory, wakes, keeps, loses,
  attaches, gives_up, reclaims, Steps, stays, then_, fresh_system,
}
use m_sl_sys_fs.Node.Hash.Invariant.Moved.{allocate-IsSound}
use m_sl_sys_fs.Node.Hash.Safety.{
  IsSoundSystem, owns_of, makes_of, moved, same_owns, same_makes, release-any, search-IsSound,
  attached-IsSound, give_up-IsSound, vnop_reclaim-IsSound,
}

-- A thread that stays what it was to the hash.
still :
    (s : System) (i : ℕ) (t : Thread)
    → owned t ≡ owned (s.thread i)
    → attached_by t ≡ attached_by (s.thread i)
    → IsSoundSystem s
    → IsSoundSystem (moves s i t s.hash)
still s i t eo em q = moved s i t s.hash (same_makes _ _ _ i _ em (same_owns _ _ _ i _ eo q))

-- A thread that gives up what it owns.
gives_back :
    (s : System) (i : ℕ) (t : Thread) (new : Option ℕ)
    → new ≡ owned (s.thread i)
    → owned t ≡ none
    → attached_by t ≡ attached_by (s.thread i)
    → IsSoundSystem s
    → IsSoundSystem (moves s i t (release new s.hash))
gives_back s i t new e eo em q = moved s i t _ (
    same_makes _ _ _ i _ em
      (rw eo (release-any s.hash (owns_of s.thread) (makes_of s.thread) i new e q)))

Step-IsSound : (s t : System) → Step s t → IsSoundSystem s → IsSoundSystem t
Step-IsSound s t (calls i req e) q = still s i _ (sym (ap owned e)) (sym (ap attached_by e)) q
Step-IsSound s t (leaves i n r e) q = still s i _ (sym (ap owned e)) (sym (ap attached_by e)) q
Step-IsSound s t (searches i req new e) q = moved s i _ _ (
    search-IsSound (owns_of s.thread) (makes_of s.thread) i req (ap attached_by e) s.hash new q
      (sym (ap owned e)))
Step-IsSound s t (allocates i req e) q = moved s i _ _ (
    same_makes _ _ _ i none (sym (ap attached_by e))
      (allocate-IsSound s.hash (owns_of s.thread) (makes_of s.thread) req i q (ap owned e)))
Step-IsSound s t (lacks_memory i req e) q =
    still s i _ (sym (ap owned e)) (sym (ap attached_by e)) q
Step-IsSound s t (wakes i req new a e) q = still s i _ (sym (ap owned e)) (sym (ap attached_by e)) q
Step-IsSound s t (keeps i req new a v n e c k) q =
    gives_back s i _ new (sym (ap owned e)) refl (sym (ap attached_by e)) q
Step-IsSound s t (loses i req new a v e) q =
    gives_back s i _ new (sym (ap owned e)) refl (sym (ap attached_by e)) q
Step-IsSound s t (attaches i req new a v e) q = moved s i _ _ (
    release-any _ (owns_of s.thread) _ i new (sym (ap owned e))
      (attached-IsSound s.hash (owns_of s.thread) (makes_of s.thread) a i v q (ap attached_by e)))
Step-IsSound s t (gives_up i req new a n e) q = moved s i _ _ (
    release-any _ (owns_of s.thread) _ i new (sym (ap owned e))
      (give_up-IsSound s.hash (owns_of s.thread) (makes_of s.thread) a i q (ap attached_by e)))
Step-IsSound s t (reclaims b a v n k c e) q =
    vnop_reclaim-IsSound s.hash (owns_of s.thread) (makes_of s.thread) a b v n q k c e

fresh_system-IsSound : IsSoundSystem fresh_system
fresh_system-IsSound = record {
  live = λ b a q. absurd q;
  one = λ b c x y n m q. absurd q;
  made = λ i a e. absurd (cc e);
  maker = λ i j a e. absurd (cc e);
  marked = λ b a n q. absurd q;
  private_ = λ i a e. absurd (cc e);
  owner = λ i j a e. absurd (cc e);
  kept = λ a n e. absurd (cc e);
  fresh = λ a n e. absurd (cc e);
}

-- In every state that the threads reach from an empty hash, by any interleaving of searches, failed
-- allocations, failed creations of vnodes and reclaims, the node hash is sound: each node in it is
-- allocated and in the bucket of its identifier, there is one node for each mount and identifier, a
-- vnode is created for a node by one thread at most and the node stays in the hash meanwhile, every
-- marked node has a thread that will unmark it, and an allocated node is in the hash or owned by
-- exactly one thread.
pub Steps-IsSound : (s : System) → Steps fresh_system s → IsSoundSystem s
Steps-IsSound s stays = fresh_system-IsSound
Steps-IsSound s (then_ t _ before step) = Step-IsSound t s step (Steps-IsSound t before)
