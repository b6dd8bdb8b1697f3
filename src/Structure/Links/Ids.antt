-- ===== src/Structure/Links/Ids.antt =====
-- Base ids: unique while the 16-bit counter does not wrap, and in collision with the root's once it
-- has. The counter is never reset, so a node tree that is built after many unmounts meets the wrap.
use m_sl_sys_fs.Base.{
  ℕ, zero, suc, ◌+◌, ◌-◌, ◌*◌, ◌^◌, ◌≤◌, ◌<◌, ◌≡◌, ◌≢◌, sym, ◌∙◌, some, arith, min, ap,
}
use m_sl_sys_fs.Types.{Snode}
use m_sl_sys_fs.Structure.{Structure}
use m_sl_sys_fs.Structure.Init.{structure_init}
use m_sl_sys_fs.Structure.Links.{id_at}
use m_sl_sys_fs.Structure.Links.Whole.{IsVacant, structure_init-IsWhole}

id_at-injective :
    (k i j : ℕ) → 2 ≤ k → k + i ≤ 2 ^ 16 → k + j ≤ 2 ^ 16 → id_at k i ≡ id_at k j → i ≡ j
id_at-injective k zero zero h hi hj e = omega arith
id_at-injective k zero (suc j) h hi hj e = absurd (omega arith)
id_at-injective k (suc i) zero h hi hj e = absurd (omega arith)
id_at-injective k (suc i) (suc j) h hi hj e = omega arith

-- No two nodes of the layout share a base id, as long as the counter is still far enough from the
-- end of its 16 bits: it starts at 2 when the module is loaded, and one build takes 106 identifiers
-- and eleven for each of the first 64 CPUs.
pub structure_init-ids_unique :
    (ncpu : ℕ) (s : Structure)
    → IsVacant s
    → 2 ≤ s.next_node_id
    → s.next_node_id + 106 + 11 * min ncpu 64 ≤ 2 ^ 16
    → (n m : ℕ) (x y : Snode) → (structure_init ncpu s).cell n ≡ some x
    → (structure_init ncpu s).cell m ≡ some y
    → x.base_node_id ≡ y.base_node_id
    → n ≡ m
structure_init-ids_unique ncpu s v lo hi n m x y ex ey e =
    let w = structure_init-IsWhole s v ncpu in
    let rn = w.tree.range n x ex in
    let rm = w.tree.range m y ey in
    let same : n - s.next ≡ m - s.next =
      id_at-injective s.next_node_id (n - s.next) (m - s.next) lo (omega (arith, w.size))
        (omega (arith, w.size)) (sym (w.tree.ids n x ex) ∙ e ∙ w.tree.ids m y ey) in
    omega arith

-- Once the counter has come near its end, the layout that is built next has a node besides the
-- root whose base id is the root's.
pub structure_init-ids_wrap :
    (ncpu : ℕ) (s : Structure)
    → IsVacant s
    → 2 ≤ s.next_node_id
    → 2 ^ 16 + 1 < s.next_node_id + 106 + 11 * min ncpu 64
    → (n : ℕ) × (x : Snode) × ((structure_init ncpu s).cell n ≡ some x)
      × (x.base_node_id ≡ 1)
      × ((structure_init ncpu s).root_node ≢ some n)
structure_init-ids_wrap ncpu s v lo hi =
    let w = structure_init-IsWhole s v ncpu in
    let n : ℕ = s.next + suc (2 ^ 16 + 1 - s.next_node_id) in
    let (x, e) = w.tree.live n (omega arith) (omega (arith, w.size, v.small)) in
    let off : n - s.next ≡ suc (2 ^ 16 + 1 - s.next_node_id) = omega arith in
    let one : id_at s.next_node_id (suc (2 ^ 16 + 1 - s.next_node_id)) ≡ 1 =
      omega (arith, v.small) in
    (
      n,
      x,
      e,
      w.tree.ids n x e ∙ ap (id_at s.next_node_id) off ∙ one,
      λ r. absurd (let q : s.next ≡ n = cc (w.rooted) in omega arith),
    )
