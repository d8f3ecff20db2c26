-- ===== src/Tests/Queues.antt =====
-- Queues: allocations on the way up, access, and new queues.
use mathlib.Core.Path.{subst}
use yunikorn_study.Prelude.{String, ℕ, ◌≡◌, refl, inl, inr, none, some, true, false, [], ◌∷◌}
use yunikorn_study.Dict.{lookup, insert}
use yunikorn_study.Resource.{
  Resource, fit_in, all_of, add_resource, sub_resource, update_each, value, new_resource,
}
use yunikorn_study.Resource.Loops.{IsValid}
use yunikorn_study.Queue.{
  Queue, Heap, set_allocated, climb, inc_refuse, dec_refuse, inc_allocated_resource,
  dec_allocated_resource,
}
use yunikorn_study.Queue.Climb.{IsTree}
use yunikorn_study.Queue.Allocate.{
  IsAtomic, IsWithinMax, AreValid, allocated, is_on_path, inc_allocated_resource-IsAtomic,
  dec_allocated_resource-IsAtomic, inc_allocated_resource-IsWithinMax,
  dec_allocated_resource-inc_allocated_resource, inc_allocated_resource-IsTree,
}
use yunikorn_study.Queue.Manage.{
  check_submit_access, check_admin_access, allows_submit, allows_admin,
}
use yunikorn_study.Queue.Access.{Grants, check_access-Grants}
use yunikorn_study.Queue.Config.{QueueFields, QueueConfigs, no_queues, and_queue, queue_config}
use yunikorn_study.Queue.Heaps.{allocate_cases}
use yunikorn_study.Tests.Fixtures.{
  small, small-IsValid, root, leaf, no_heap, no_heap-IsHeap, root_heap, root_heap-IsHeap, heap,
  heap-IsHeap, grown_heap, heap_grown, charged, admin,
}

abbrev add_small : Resource → Resource
add_small r = add_resource (some r) (some small)

abbrev sub_small : Resource → Resource
sub_small r = sub_resource (some r) (some small)

inc_allocated_resource-IsAtomic_example :
    IsAtomic
      (inc_refuse (some small) false)
      add_small
      heap
      1
      (inc_allocated_resource heap 1 (some small) false)
inc_allocated_resource-IsAtomic_example =
    inc_allocated_resource-IsAtomic heap 1 leaf (some small) false heap-IsHeap.tree refl

grown_heap-IsTree : IsTree grown_heap
grown_heap-IsTree =
    inc_allocated_resource-IsTree heap grown_heap 1 leaf (some small) false heap-IsHeap.tree refl
      heap_grown

dec_allocated_resource-IsAtomic_example :
    IsAtomic
      (dec_refuse (some small))
      sub_small
      grown_heap
      1
      (dec_allocated_resource grown_heap 1 (some small))
unfolding set_allocated
dec_allocated_resource-IsAtomic_example =
    dec_allocated_resource-IsAtomic grown_heap 1 (record leaf { allocated_resource = charged })
      (some small) grown_heap-IsTree refl

-- What holds of the root and of the leaf holds of every queue of the heap.
each_queue :
    (P : Queue → Type 0) → P root → P leaf → (j : ℕ) (q : Queue) → heap.cell j ≡ some q → P q
each_queue P r l j q c = elim (allocate_cases root_heap leaf root_heap-IsHeap j q c) [
  | inl (same, is) ↦ subst P is l
  | inr old ↦ elim (allocate_cases no_heap root no_heap-IsHeap j q old) [
    | inl (same, is) ↦ subst P is r
    | inr e ↦ cc
  ]
]

nothing-IsValid : IsValid new_resource
nothing-IsValid = record { is_map = tt; is_words = tt }

heap-AreValid : AreValid heap
heap-AreValid j q c =
    each_queue (λ x. IsValid x.allocated_resource) nothing-IsValid nothing-IsValid j q c

heap-IsWithinMax : IsWithinMax heap
unfolding fit_in all_of
heap-IsWithinMax j q m c o =
    each_queue
      (λ x.
        (y : Resource)
        → x.max_resource ≡ some y
        → fit_in (some y) (some x.allocated_resource) ≡ true)
      (λ y e. refl) (λ y e. refl) j q c m o

inc_allocated_resource-IsWithinMax_example : IsWithinMax grown_heap
inc_allocated_resource-IsWithinMax_example =
    inc_allocated_resource-IsWithinMax heap grown_heap 1 leaf (some small) heap-IsHeap.tree refl
      heap-IsWithinMax heap_grown

abbrev released : Resource
released = sub_resource (some charged) (some small)

abbrev shrunk_heap : Heap
shrunk_heap = set_allocated (set_allocated grown_heap 0 released) 1 released

heap_shrunk : dec_allocated_resource grown_heap 1 (some small) ≡ some (shrunk_heap, none)
unfolding dec_allocated_resource climb fit_in all_of add_resource sub_resource update_each insert
    lookup value set_allocated
heap_shrunk = refl

dec_allocated_resource-inc_allocated_resource_example :
    allocated "memory" shrunk_heap 0 ≡ allocated "memory" heap 0
dec_allocated_resource-inc_allocated_resource_example =
    dec_allocated_resource-inc_allocated_resource heap grown_heap shrunk_heap 1 leaf (some small)
      false heap-IsHeap.tree heap-AreValid small-IsValid refl heap_grown heap_shrunk "memory" 0

check_access-Grants_example :
    Grants (allows_submit admin) heap (is_on_path heap 1) (check_submit_access heap 1 admin)
    × Grants (allows_admin admin) heap (is_on_path heap 1) (check_admin_access heap 1 admin)
check_access-Grants_example = check_access-Grants heap 1 leaf admin heap-IsHeap.tree refl

abbrev fields : String → QueueFields
fields name = record {
  name = name;
  parent = false;
  guaranteed = some (("memory", "10") ∷ []);
  max = some (("memory", "50") ∷ []);
  properties = none;
  admin_acl = "";
  submit_acl = "*";
}

abbrev conf : QueueConfigs
conf =
    and_queue
      (queue_config (fields "Dev") (and_queue (queue_config (fields "a") no_queues) no_queues))
      no_queues
