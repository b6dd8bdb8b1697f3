-- ===== src/Structure/Links/Whole.antt =====
-- The whole layout tree that the first mount builds: its shape, its size and its identifiers.
use m_sl_sys_fs.Base.{
  ℕ, ◌+◌, ◌-◌, ◌*◌, ◌^◌, ◌≤◌, ◌<◌, ◌≡◌, refl, sym, ◌∙◌, none, some, [], codes, arith, min, inl, inr,
  Bool-cases, ◌==◌, ==_iff, subst, ap, false, true,
}
use m_sl_sys_fs.Types.{is_root, SfsType, Snode, no_flags, root_base_id}
use m_sl_sys_fs.Structure.{Structure, new_node, add_node, add_directory}
use m_sl_sys_fs.Structure.Init.{init_unless, init_root, init_tree, structure_init}
use m_sl_sys_fs.Structure.Links.{Member, id_at, IsTree}
use m_sl_sys_fs.Structure.Links.Build.{IsBuilt, dots, dots-Adds}
use m_sl_sys_fs.Structure.Links.Skeleton.{init_tree-Adds}

-- No node is allocated, and the counter is a uint16_t.
pub record IsVacant (s : Structure) : Type 0 where
  pub rootless : s.root_node ≡ none
  pub vacant : (n : ℕ) → s.cell n ≡ none
  pub small : s.next_node_id < 2 ^ 16

-- The state after `add_node` of the root.
abbrev with_root : Structure → Structure
with_root s = (add_node none (codes "/") SfsType.sfs_root root_base_id no_flags 0 none none s).1

module _ (s : Structure) (v : IsVacant s) where
  root_only : (n : ℕ) (x : Snode) → (with_root s).cell n ≡ some x → n ≡ s.next
  unfolding add_node
  root_only n x e = elim (Bool-cases (s.next == n)) [
    | inl q ↦ sym ((==_iff s.next n).0 q)
    | inr q ↦ ground (arith, v.vacant n)
  ]

  root_node-is :
      (n : ℕ) (x : Snode)
      → (with_root s).cell n ≡ some x
      → (x.parent ≡ none) × (x.children ≡ []) × (x.base_node_id ≡ 1)
  unfolding add_node
  root_node-is n x e = ground (arith, v.vacant n)

  root_typed :
      (n : ℕ) (x : Snode) → (with_root s).cell n ≡ some x → is_root x.node_type ≡ (n == s.next)
  unfolding add_node
  root_typed n x e = elim (Bool-cases (s.next == n)) [
    | inl q ↦
        let z : n ≡ s.next = sym ((==_iff s.next n).0 q) in
        let same : (n == s.next) ≡ true = ground (arith, z) in ground (arith, same)
    | inr q ↦ ground (arith, v.vacant n)
  ]

  root_at :
      (n : ℕ)
      → s.next ≤ n
      → n < (with_root s).next
      → (with_root s).cell n
        ≡ some (new_node none (codes "/") SfsType.sfs_root root_base_id no_flags 0 none none false)
  unfolding add_node
  root_at n lo hi = ground arith

  with_root-IsBuilt : IsBuilt s.next s.next_node_id (with_root s)
  with_root-IsBuilt = record {
    tree = record {
      range = λ n x e. unfold add_node in omega (arith, root_only n x e);
      live = λ n lo hi. (_, root_at n lo hi);
      ids = λ n x e.
          (root_node-is n x e).2
          ∙ sym (
              ap (id_at s.next_node_id)
                (let z : n - s.next ≡ 0 = omega (arith, root_only n x e) in z));
      typed = root_typed;
      top = λ n x e p. root_only n x e;
      up = λ n x p e h. absurd (cc (h, (root_node-is n x e).0));
      down = λ n x c e m. absurd (subst (λ l. Member c l) (root_node-is n x e).1 m);
      ordered = λ n x e. rw ((root_node-is n x e).1) (tt, tt);
    };
    rooted = unfold add_node in omega arith;
    counter = unfold add_node in omega (arith, v.small);
  }

  root-IsBuilt : IsBuilt s.next s.next_node_id (dots no_flags s.next (with_root s)).1
  unfolding add_node
  root-IsBuilt =
      ((dots-Adds s.next no_flags (omega arith)).run (with_root s) with_root-IsBuilt refl).0

  root_size : (dots no_flags s.next (with_root s)).1.next ≡ s.next + 1 + 2
  unfolding add_node
  root_size = ((dots-Adds s.next no_flags (omega arith)).run (with_root s) with_root-IsBuilt refl).2

  root_result : (dots no_flags s.next (with_root s)).0 ≡ s.next
  unfolding add_node
  root_result =
      ((dots-Adds s.next no_flags (omega arith)).run (with_root s) with_root-IsBuilt refl).1

  init_root-eq : init_root s ≡ dots no_flags s.next (with_root s)
  unfolding init_root add_directory dots add_node
  init_root-eq = refl

  whole-IsBuilt :
      (ncpu : ℕ)
      → IsBuilt s.next s.next_node_id (init_tree (init_root s).0 ncpu (init_root s).1).1
        × ((init_tree (init_root s).0 ncpu (init_root s).1).1.next
            ≡ s.next + (107 + 11 * min ncpu 64))
  whole-IsBuilt ncpu =
      rw (init_root-eq, root_result)
        (let (b, _, e) =
            (init_tree-Adds (s.next + 1 + 2) ncpu s.next (omega arith) (omega arith)).run
              (dots no_flags s.next (with_root s)).1 root-IsBuilt root_size in
          (b, omega arith))

  -- The tree that `sysfs_structure_init` builds, and how many nodes it has.
  pub record IsWhole (ncpu : ℕ) : Type 0 where
    pub tree :
        IsTree s.next s.next_node_id (structure_init ncpu s).next (structure_init ncpu s).cell
    pub rooted : (structure_init ncpu s).root_node ≡ some s.next
    pub size : (structure_init ncpu s).next ≡ s.next + (107 + 11 * min ncpu 64)

  structure_init-none :
      (ncpu : ℕ)
      → structure_init ncpu s ≡ record (init_tree (init_root s).0 ncpu (init_root s).1).1 {
        root_node = some (init_root s).0;
      }
  unfolding structure_init init_unless
  structure_init-none ncpu = ap (λ r. init_unless r ncpu s) v.rootless

  -- From a state with no nodes, the first mount builds a tree: parent pointers and child queues
  -- agree, every pointer leads to a live node, parents are older than their children, the root is
  -- the one node without a parent and the one of its type, base ids are given out in order from the counter, and the size
  -- is 107 nodes and eleven for each of the first 64 CPUs.
  pub structure_init-IsWhole : (ncpu : ℕ) → IsWhole ncpu
  structure_init-IsWhole ncpu =
      let (b, e) = whole-IsBuilt ncpu in
      record {
        tree = rw (structure_init-none ncpu) b.tree;
        rooted = rw (structure_init-none ncpu, init_root-eq, root_result) refl;
        size = rw (structure_init-none ncpu) e;
      }
