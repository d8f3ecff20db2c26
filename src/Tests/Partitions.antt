-- ===== src/Tests/Partitions.antt =====
-- Allocations and node removals on the small partition.
use yunikorn_study.Prelude.{String, ◌≡◌, refl, some, true, false, List, [], ◌∷◌}
use yunikorn_study.Dict.{lookup, insert}
use yunikorn_study.Resource.{
  value, fit_in, add_resource, update_each, all_of, new_resource_from_proto,
}
use yunikorn_study.Allocation.{Allocation, new_allocation}
use yunikorn_study.Node
use yunikorn_study.Node.{Node, new_node}
use yunikorn_study.Application
use yunikorn_study.Application.{Application, new_application}
use yunikorn_study.Text.{split, to_lower}
use yunikorn_study.Queue.Heaps.{at_address}
use yunikorn_study.Queue.{Queue, set_allocated, climb, inc_allocated_resource}
use yunikorn_study.Partition.Monad.{Partition, ok}
use yunikorn_study.Partition.Defs.{
  get_new_allocation_uuid, record_allocation, place_allocation, add_new_allocation_internal,
  get_leaf_queue, get_queue, walk_down,
}
use yunikorn_study.Partition.Books.{AddSpec, add_new_allocation_internal-AddSpec}
use yunikorn_study.Partition.Sound.{
  IsSound, add_new_allocation_internal-IsSound, add_new_allocation_internal_fits,
}
use yunikorn_study.Partition.Release.{IsWell, HasQueue}
use yunikorn_study.Partition.Removal.{remove_node_internal}
use yunikorn_study.Partition.NodeRemoval.{IsRemoved, remove_node_internal_lem}
use yunikorn_study.Tests.Fixtures.{
  small-IsValid, leaf, charged, heap-IsHeap, one-AllValues, grown_heap, node, application,
  partition, proposal, partition-IsSound,
}

abbrev draws : List String
draws = "u1" ∷ []

abbrev allocation : Allocation
allocation = new_allocation "u1" proposal

abbrev after : Partition
after = record_allocation node application allocation (record partition { queues = grown_heap })

drawn : get_new_allocation_uuid [] draws ≡ some "u1"
unfolding get_new_allocation_uuid lookup
drawn = refl

leaf_found : get_leaf_queue partition "root.default" ≡ some 1
unfolding get_leaf_queue get_queue walk_down lookup split to_lower
leaf_found = refl

ran : add_new_allocation_internal proposal false draws partition ≡ some (ok allocation, after)
unfolding add_new_allocation_internal place_allocation get_new_allocation_uuid get_leaf_queue
    get_queue walk_down inc_allocated_resource climb fit_in all_of add_resource update_each insert
    lookup value split to_lower new_node new_resource_from_proto
ran = refl

add_new_allocation_internal-AddSpec_example :
    AddSpec partition proposal false (add_new_allocation_internal proposal false draws partition)
add_new_allocation_internal-AddSpec_example =
    add_new_allocation_internal-AddSpec partition proposal false draws "u1" heap-IsHeap.tree drawn

add_new_allocation_internal-IsSound_example : IsSound after
add_new_allocation_internal-IsSound_example =
    add_new_allocation_internal-IsSound partition proposal false draws "u1" (ok allocation) after
      partition-IsSound small-IsValid drawn ran

add_new_allocation_internal_fits_example :
    (n : Node) × (lookup "n1" after.nodes ≡ some n)
    × (lookup "u1" n.allocations ≡ some allocation)
    × (fit_in (some n.total_resource) (some n.allocated_resource) ≡ true)
unfolding new_allocation
add_new_allocation_internal_fits_example =
    add_new_allocation_internal_fits partition proposal false draws "u1" allocation after
      heap-IsHeap.tree drawn ran

abbrev grown_leaf : Queue
grown_leaf = record leaf { allocated_resource = charged }

abbrev node_after : Node
node_after = Node.add_allocation node allocation

abbrev application_after : Application
application_after = Application.add_allocation application allocation

after-IsWell : IsWell after
unfolding Application.add_allocation new_application insert record_allocation set_allocated
    new_allocation
after-IsWell = record {
  sound =
      add_new_allocation_internal-IsSound partition proposal false draws "u1" (ok allocation) after
        partition-IsSound small-IsValid drawn ran;
  placed =
      one-AllValues (HasQueue grown_heap) "app1" application_after
        (λ p e. at_address grown_heap grown_leaf 1 p refl e);
}

remove_node_internal_example :
    (pi' : Partition) × (remove_node_internal "n1" after ≡ some (ok tt, pi'))
    × IsRemoved after "n1" node_after pi'
unfolding lookup insert record_allocation new_allocation
remove_node_internal_example = remove_node_internal_lem after "n1" node_after after-IsWell refl
