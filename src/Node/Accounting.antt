-- ===== src/Node/Accounting.antt =====
-- The books of a node (cache/node_info.go).
use yunikorn_study.Prelude.{String, ◌≡◌, refl, Option, none, some, sym}
use yunikorn_study.Dict.{lookup}
use yunikorn_study.Quantity.{sub, sub-zero}
use yunikorn_study.Resource.{value, new_resource_from_proto}
use yunikorn_study.Resource.Loops.{IsValid, value-lt-word}
use yunikorn_study.Resource.Arith.{value-sub_resource, copy-IsValid}
use yunikorn_study.Allocation.{Allocation}
use yunikorn_study.Accounts.{Balances, Balances-empty, Balances-insert, Balances-erase}
use yunikorn_study.Node.{NewNode, Node, new_node, add_allocation, remove_allocation, remove_found}

-- The allocated resource of a node is the sum of its allocations, and the available resource what
-- is left of the total, as int64 under every key.
pub record IsSound (m : Node) : Type 0 where
  pub total_valid : IsValid m.total_resource
  pub books : Balances m.allocated_resource m.allocations
  pub left :
      (k : String)
      → value k m.available_resource ≡ sub (value k m.total_resource) (value k m.allocated_resource)

-- A node that registers is sound.
pub new_node-IsSound :
    (proto : NewNode) → IsValid proto.schedulable_resource → IsSound (new_node proto)
unfolding new_node
new_node-IsSound proto h =
    let total = new_resource_from_proto proto.schedulable_resource in
    let valid : IsValid total =
      unfold new_resource_from_proto in copy-IsValid proto.schedulable_resource h in
    record {
      total_valid = valid;
      books = Balances-empty;
      left = λ k. unfold value lookup in sym (sub-zero _ (value-lt-word k total valid.is_words));
    }

-- Adding an allocation of a valid resource under a new uuid keeps a node sound: what it has allocated
-- is the sum of its allocations, as int64.
pub add_allocation-IsSound :
    (m : Node) (info : Allocation)
    → IsSound m
    → IsValid info.allocated_resource
    → lookup info.uuid m.allocations ≡ none
    → IsSound (add_allocation m info)
unfolding add_allocation
add_allocation-IsSound m info h valid fresh =
    let books = Balances-insert info m.allocated_resource m.allocations valid fresh h.books in
    record {
      total_valid = h.total_valid;
      books = books;
      left = λ k. value-sub_resource k (some m.total_resource) _ h.total_valid books.is_resource;
    }

remove_found-IsSound :
    (m : Node) (uuid : String) (found : Option Allocation)
    → lookup uuid m.allocations ≡ found
    → IsSound m
    → IsSound (remove_found m uuid found).0
unfolding remove_found
remove_found-IsSound m uuid none e h = h
remove_found-IsSound m uuid (some info) e h =
    let books = Balances-erase uuid info m.allocated_resource m.allocations e h.books in
    record {
      total_valid = h.total_valid;
      books = books;
      left = λ k. value-sub_resource k (some m.total_resource) _ h.total_valid books.is_resource;
    }

-- Removing an allocation, by any uuid, keeps a node sound.
pub remove_allocation-IsSound :
    (m : Node) (uuid : String) → IsSound m → IsSound (remove_allocation m uuid).0
unfolding remove_allocation
remove_allocation-IsSound m uuid h = remove_found-IsSound m uuid (lookup uuid m.allocations) refl h
