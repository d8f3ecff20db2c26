-- ===== src/Tests/Schedules.antt =====
-- Scheduling queues: a root, a parent below it and a leaf below that.
use mathlib.Core.Path.{subst}
use yunikorn_study.Prelude.{
  String, ℕ, ◌≡◌, refl, Option, none, some, true, [], ◌∷◌, arith, ap, ◌∙◌, ◌<◌, inl, inr,
  Bool-cases, eqb, if◌then◌else◌,
}
use yunikorn_study.Dict.{Dict, lookup}
use yunikorn_study.Text.{split, to_lower}
use yunikorn_study.Text.Names.{before_last_dot, after_last_dot}
use yunikorn_study.State.{draining}
use yunikorn_study.Queue.{Heap}
use yunikorn_study.Queue.Config.{new_queue}
use yunikorn_study.Scheduling.{
  SchedulingQueue, SchedulingHeap, fair, fifo, add_pending, sub_pending, inc_pending_resource,
  dec_pending_resource, remove_queue, remove_child_queue, find_existing, get_scheduling_queue,
  walk_children,
}
use yunikorn_study.Scheduling.Pending.{
  IsOrdered, ChangesPath, is_over, inc_pending_resource-ChangesPath,
}
use yunikorn_study.Scheduling.Removal.{find_existing_hangs, remove_queue_kept}
use yunikorn_study.Tests.Fixtures.{small}

abbrev queue : String → ℕ → Option ℕ → Dict ℕ → SchedulingQueue
queue name cached parent children = record {
  name = name;
  cached = cached;
  proposing_resource = [];
  application_sort_type = fifo;
  queue_sort_type = fair;
  children = children;
  applications = [];
  parent = parent;
  allocating_resource = none;
  pending_resource = [];
}

abbrev top : SchedulingQueue
top = queue "root" 0 none (("a", 1) ∷ [])

abbrev below : SchedulingQueue
below = queue "root.a" 1 (some 0) []

abbrev heap : SchedulingHeap
heap = record {
  next = 2;
  cell = λ j. if eqb j 0 then some top else (if eqb j 1 then some below else none);
}

heap-IsOrdered : IsOrdered heap
heap-IsOrdered p up sq c o = elim (Bool-cases (eqb p 0)) [
  | inl z ↦ cc (same_parent top sq (rw z at c), o)
  | inr z ↦ elim (Bool-cases (eqb p 1)) [
    | inr w ↦ cc (rw (z, w) at c)
    | inl w ↦
        let is : 0 ≡ up = some_eq (same_parent below sq (rw (z, w) at c) ∙ o) in
        subst (λ u. (u < p) × ((x : SchedulingQueue) × (heap.cell u ≡ some x))) is
          (ground (arith, w), (top, refl))
  ]
]
  where
    same_parent : (x y : SchedulingQueue) → some x ≡ some y → x.parent ≡ y.parent
    same_parent x y e = ap (λ q. q.parent) (some_queue x y e)
      where
        some_queue : (x y : SchedulingQueue) → some x ≡ some y → x ≡ y
        some_queue x y e = cc

    some_eq : {x y : ℕ} → some x ≡ some y → x ≡ y
    some_eq e = cc

inc_pending_resource-ChangesPath_example :
    ChangesPath (add_pending small) heap (is_over 2 heap 1) (inc_pending_resource heap 1 small)
    × ChangesPath (sub_pending small) heap (is_over 2 heap 1) (dec_pending_resource heap 1 small)
inc_pending_resource-ChangesPath_example =
    inc_pending_resource-ChangesPath heap 1 below small heap-IsOrdered refl

cut : before_last_dot "root.b.c" ≡ some "root.b"
unfolding before_last_dot
cut = refl

no_leaf : get_scheduling_queue heap 0 "root.b.c" ≡ none
unfolding get_scheduling_queue walk_children split to_lower lookup
no_leaf = refl

no_parent : get_scheduling_queue heap 0 "root.b" ≡ none
unfolding get_scheduling_queue walk_children split to_lower lookup
no_parent = refl

find_existing_hangs_example : find_existing 100 heap 0 "root.b.c" "root.b.c" "" ≡ none
find_existing_hangs_example =
    find_existing_hangs heap 0 "root.b.c" "root.b" "" 100 cut no_leaf no_parent

-- The queue in the cache is drained.
abbrev queues : Heap
queues = record {
  next = 2;
  cell = λ j. some (record (new_queue "a" (some 0) true true) { state = draining });
}

abbrev after : SchedulingHeap
after = remove_child_queue heap 0 "root.a"

cut_below : before_last_dot below.name ≡ some "root"
unfolding before_last_dot
cut_below = refl

is_child : lookup (after_last_dot below.name) top.children ≡ some 1
unfolding lookup after_last_dot
is_child = refl

removed : remove_queue queues heap 1 ≡ some (after, true)
unfolding remove_queue
removed = refl

remove_queue_kept_example :
    (above : SchedulingQueue) × (after.cell 0 ≡ some above)
    × (lookup (after_last_dot "root.a") above.children ≡ some 1)
unfolding remove_child_queue
remove_queue_kept_example =
    remove_queue_kept queues heap after 1 0 below top "root" refl refl cut_below refl is_child
      removed
