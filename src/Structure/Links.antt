-- ===== src/Structure/Links.antt =====
-- The shape of the layout tree: parent pointers and child queues agree, pointers lead to live nodes,
-- base ids are handed out in order, and one node has the type of the root.
mod Grow
mod Relabel
pub mod Build
pub mod Skeleton
pub mod Whole
pub mod Ids
use m_sl_sys_fs.Base.{
  ℕ, zero, suc, ◌+◌, ◌-◌, ◌%◌, ◌^◌, ◌≤◌, ◌<◌, ◌≡◌, ◌⊎◌, Option, none, some, List, [], ◌∷◌, ◌==◌,
}
use m_sl_sys_fs.Types.{Snode, root_base_id, is_root}
use m_sl_sys_fs.Structure.{Structure}

abbrev pub Member : ℕ → List ℕ → Type 0
Member c [] = ⊥
Member c (x ∷ xs) = (c ≡ x) ⊎ Member c xs

-- A child queue in the order of its addresses, all of them below `bound`.
abbrev pub IsIncreasing : ℕ → List ℕ → Type 0
IsIncreasing low [] = Unit
IsIncreasing low (x ∷ xs) = (low < x) × IsIncreasing x xs

abbrev pub AllBelow : ℕ → List ℕ → Type 0
AllBelow bound [] = Unit
AllBelow bound (x ∷ xs) = (x < bound) × AllBelow bound xs

-- The base id of the `m`-th node that is added, where the first identifier after the root is `k`.
abbrev pub id_at : ℕ → ℕ → ℕ
id_at k zero = root_base_id
id_at k (suc m) = (k + m) % 2 ^ 16

-- The tree that stands at the addresses from `n0` on.
pub record IsTree (n0 k next : ℕ) (cell : ℕ → Option Snode) : Type 0 where
  pub range : (n : ℕ) (x : Snode) → cell n ≡ some x → (n0 ≤ n) × (n < next)
  pub live : (n : ℕ) → n0 ≤ n → n < next → (x : Snode) × (cell n ≡ some x)
  pub ids : (n : ℕ) (x : Snode) → cell n ≡ some x → x.base_node_id ≡ id_at k (n - n0)
  pub typed : (n : ℕ) (x : Snode) → cell n ≡ some x → is_root x.node_type ≡ (n == n0)
  pub top : (n : ℕ) (x : Snode) → cell n ≡ some x → x.parent ≡ none → n ≡ n0
  pub up :
      (n : ℕ) (x : Snode) (p : ℕ)
      → cell n ≡ some x
      → x.parent ≡ some p
      → (y : Snode) × (p < n) × (cell p ≡ some y) × Member n y.children
  pub down :
      (n : ℕ) (x : Snode) (c : ℕ)
      → cell n ≡ some x
      → Member c x.children
      → (y : Snode) × (n < c) × (cell c ≡ some y) × (y.parent ≡ some n)
  pub ordered :
      (n : ℕ) (x : Snode) → cell n ≡ some x → IsIncreasing n x.children × AllBelow next x.children
