-- ===== src/Tests/Nodes.antt =====
-- Two steps of a thread that searches the empty node hash.
use m_sl_sys_fs.Base.{ℕ, refl, Option, none, some}
use m_sl_sys_fs.Types.{root_node_id}
use m_sl_sys_fs.Node.Hash.{Request, find_node, bucket_of, allocate}
use m_sl_sys_fs.Node.Hash.Find.{search, go_on, searching, use_node, proceed}
use m_sl_sys_fs.Node.Hash.Steps.{
  System, moves, Steps, stays, then_, calls, searches, allocates, fresh_system,
}
use m_sl_sys_fs.Node.Hash.Safety.{IsSoundSystem, owns_of, makes_of}
use m_sl_sys_fs.Node.Hash.Safety.Reach.{Steps-IsSound}
use m_sl_sys_fs.Node.Hash.Safety.Found.{IsFound, search-IsFound}

abbrev request : Request
request = record { mount_id = 1; id = root_node_id; snode = 0 }

-- Thread 5 calls, finds nothing, allocates a node and inserts it.
abbrev called : System
called = moves fresh_system 5 (searching request none) fresh_system.hash

abbrev pass : System → Option ℕ → System
pass s new =
    moves s 5 (go_on request (search request new s.hash).0 (search request new s.hash).1.0)
      (search request new s.hash).1.1

abbrev missed : System
missed = pass called none

abbrev with_memory : System
with_memory =
    moves missed 5 (searching request (some missed.hash.next)) (allocate request missed.hash)

run : Steps fresh_system (pass with_memory (some 0))
unfolding search use_node find_node
run =
    then_ with_memory _
      (then_ missed _
        (then_ called _ (then_ fresh_system _ stays (calls 5 request refl))
          (searches 5 request none refl))
        (allocates 5 request refl))
      (searches 5 request (some 0) refl)

Steps-IsSound_example : IsSoundSystem (pass with_memory (some 0))
Steps-IsSound_example = Steps-IsSound (pass with_memory (some 0)) run

run_before : Steps fresh_system with_memory
unfolding search use_node find_node
run_before =
    then_ missed _
      (then_ called _ (then_ fresh_system _ stays (calls 5 request refl))
        (searches 5 request none refl))
      (allocates 5 request refl)

search-IsFound_example : IsFound request 0 (search request (some 0) with_memory.hash).1.1
unfolding search use_node find_node proceed bucket_of
search-IsFound_example =
    search-IsFound with_memory.hash (owns_of with_memory.thread) (makes_of with_memory.thread) 5
      request (some 0) 0 (Steps-IsSound with_memory run_before) refl refl
