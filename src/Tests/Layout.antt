-- ===== src/Tests/Layout.antt =====
-- The layout tree from a fresh kext, and from one that has built many.
use m_sl_sys_fs.Base.{ℕ, ◌≡◌, ◌≢◌, refl, some, arith}
use m_sl_sys_fs.Types.{Snode}
use m_sl_sys_fs.Structure.{Structure, empty}
use m_sl_sys_fs.Structure.Init.{structure_init}
use m_sl_sys_fs.Structure.Links.Whole.{IsVacant, IsWhole, structure_init-IsWhole}
use m_sl_sys_fs.Structure.Links.Ids.{structure_init-ids_unique, structure_init-ids_wrap}

empty-IsVacant : IsVacant empty
empty-IsVacant = record { rootless = refl; vacant = λ n. refl; small = omega arith }

structure_init-IsWhole_example : IsWhole empty empty-IsVacant 2
structure_init-IsWhole_example = structure_init-IsWhole empty empty-IsVacant 2

-- The node at address 5 of the tree for two CPUs.
fifth : (x : Snode) × ((structure_init 2 empty).cell 5 ≡ some x)
fifth =
    let w = structure_init-IsWhole empty empty-IsVacant 2 in
    w.tree.live 5 (omega arith) (omega (arith, w.size))

structure_init-ids_unique_example : ◌≡◌ {A = ℕ} 5 5
structure_init-ids_unique_example =
    structure_init-ids_unique 2 empty empty-IsVacant (omega arith) (omega arith) 5 5 fifth.0 fifth.0
      fifth.1 fifth.1 refl

-- A kext whose counter has come to 65500.
abbrev worn : Structure
worn = record empty { next_node_id = 65500 }

worn-IsVacant : IsVacant worn
worn-IsVacant = record { rootless = refl; vacant = λ n. refl; small = omega arith }

structure_init-ids_wrap_example :
    (n : ℕ) × (x : Snode) × ((structure_init 2 worn).cell n ≡ some x)
    × (x.base_node_id ≡ 1)
    × ((structure_init 2 worn).root_node ≢ some n)
structure_init-ids_wrap_example =
    structure_init-ids_wrap 2 worn worn-IsVacant (omega arith) (omega arith)
