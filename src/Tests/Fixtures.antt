-- ===== src/Tests/Fixtures.antt =====
-- A small partition: a root queue, a leaf below it, one node and one application.
use yunikorn_study.Prelude.{String, ℕ, ◌≡◌, refl, none, some, true, false, [], ◌∷◌, arith}
use yunikorn_study.Dict.{lookup, insert, insert-AllValues, AllValues}
use yunikorn_study.Resource.{Resource, value, fit_in, all_of, add_resource, update_each}
use yunikorn_study.Resource.Loops.{IsValid}
use yunikorn_study.Acl.{UserGroup}
use yunikorn_study.State.{active}
use yunikorn_study.Allocation.{AllocationProposal}
use yunikorn_study.Accounts.{Balances-empty}
use yunikorn_study.Node.{Node, NewNode, new_node}
use yunikorn_study.Node.Accounting as NodeBooks
use yunikorn_study.Application.{Application, new_application}
use yunikorn_study.Queue.{Queue, Heap, set_allocated, climb, inc_allocated_resource}
use yunikorn_study.Queue.Config.{new_queue, allocate}
use yunikorn_study.Queue.Heaps.{IsHeap, IsQueue, allocate-IsHeap, at_address}
use yunikorn_study.Partition.Monad.{Partition}
use yunikorn_study.Partition.Sound.{IsSound, IsSoundNode, IsSoundApplication}
use yunikorn_study.Partition.Release.{IsWell, HasQueue}

abbrev pub small : Resource
small = ("memory", 10) ∷ ("vcore", 2) ∷ []

abbrev pub large : Resource
large = ("memory", 100) ∷ ("vcore", 8) ∷ []

pub small-IsValid : IsValid small
unfolding lookup
small-IsValid = record { is_map = (refl, (refl, tt)); is_words = (omega arith, (omega arith, tt)) }

pub large-IsValid : IsValid large
unfolding lookup
large-IsValid = record { is_map = (refl, (refl, tt)); is_words = (omega arith, (omega arith, tt)) }

abbrev pub root : Queue
root = record (new_queue "root" none false true) {
  children = ("default", 1) ∷ [];
  max_resource = some large;
  admin_acl = record { users = ("admin", true) ∷ []; groups = []; all_allowed = false };
}

abbrev pub leaf : Queue
leaf = new_queue "default" (some 0) true true

abbrev pub no_heap : Heap
no_heap = record { next = 0; cell = λ j. none }

pub no_heap-IsHeap : IsHeap no_heap
no_heap-IsHeap = record { tree = λ p up q c o. cc; bounded = λ j (q, c). cc }

abbrev pub root_heap : Heap
root_heap = allocate no_heap root

pub root_heap-IsHeap : IsHeap root_heap
root_heap-IsHeap = allocate-IsHeap no_heap root no_heap-IsHeap (λ up e. cc)

abbrev pub heap : Heap
heap = allocate root_heap leaf

pub has_root : (up : ℕ) → some 0 ≡ some up → IsQueue root_heap up
has_root up e = at_address root_heap root 0 up refl e

pub heap-IsHeap : IsHeap heap
heap-IsHeap = allocate-IsHeap root_heap leaf root_heap-IsHeap has_root

abbrev pub user : UserGroup
user = record { user = "alice"; groups = "dev" ∷ [] }

abbrev pub admin : UserGroup
admin = record { user = "admin"; groups = [] }

abbrev pub registration : NewNode
registration = record {
  node_id = "n1";
  schedulable_resource = large;
  attributes = ("si.io/hostname", "host1") ∷ ("si.io/partition", "[rm]default") ∷ [];
}

abbrev pub node : Node
node = new_node registration

abbrev pub application : Application
application = record (new_application "app1" "[rm]default" "root.default" user [] 0) {
  leaf_queue = some 1;
}

abbrev pub partition : Partition
partition = record {
  name = "[rm]default";
  root = 0;
  rm_id = "rm";
  allocations = [];
  nodes = ("n1", node) ∷ [];
  applications = ("app1", application) ∷ [];
  state = active;
  state_time = 0;
  is_preemptable = false;
  total_partition_resource = large;
  queues = heap;
}

abbrev pub proposal : AllocationProposal
proposal = record {
  node_id = "n1";
  application_id = "app1";
  queue_name = "root.default";
  allocated_resource = small;
  allocation_key = "key1";
  tags = [];
  priority = none;
  partition_name = "[rm]default";
}

pub node-IsSound : IsSoundNode [] node
unfolding lookup new_node
node-IsSound = (NodeBooks.new_node-IsSound registration large-IsValid, λ u a e. cc)

pub application-IsSound : IsSoundApplication [] application
unfolding lookup new_application
application-IsSound = (Balances-empty, λ u a e. cc)

pub one-AllValues :
    {V : Type 0} (P : V → Type 0) (k : String) (v : V) → P v → AllValues P ((k, v) ∷ [])
unfolding insert lookup
one-AllValues P k v h = insert-AllValues P k v [] (λ j w e. cc) h

pub partition-IsSound : IsSound partition
partition-IsSound = record {
  tree = heap-IsHeap.tree;
  nodes = one-AllValues (IsSoundNode []) "n1" node node-IsSound;
  applications = one-AllValues (IsSoundApplication []) "app1" application application-IsSound;
}

pub partition-IsWell : IsWell partition
unfolding new_application
partition-IsWell = record {
  sound = partition-IsSound;
  placed =
      one-AllValues (HasQueue heap) "app1" application (λ p e. at_address heap leaf 1 p refl e);
}

-- The queues once the leaf has what `small` holds.
abbrev pub charged : Resource
charged = add_resource (some []) (some small)

abbrev pub grown_heap : Heap
grown_heap = set_allocated (set_allocated heap 0 charged) 1 charged

pub heap_grown : inc_allocated_resource heap 1 (some small) false ≡ some (grown_heap, none)
unfolding inc_allocated_resource climb fit_in all_of add_resource update_each insert lookup value
heap_grown = refl
