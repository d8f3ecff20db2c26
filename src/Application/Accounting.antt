-- ===== src/Application/Accounting.antt =====
-- The books of an application (cache/application_info.go).
use yunikorn_study.Prelude.{String, ◌≡◌, refl, Option, none, some}
use yunikorn_study.Dict.{lookup}
use yunikorn_study.Resource.Loops.{IsValid}
use yunikorn_study.Allocation.{Allocation}
use yunikorn_study.Accounts.{Balances, Balances-empty, Balances-insert, Balances-erase}
use yunikorn_study.Application.{
  Application, add_allocation, remove_allocation, remove_found, remove_all_allocations,
}

-- The allocated resource of an application is the sum of its allocations.
abbrev pub IsBalanced : Application → Type 0
IsBalanced ai = Balances ai.allocated_resource ai.allocations

-- Adding an allocation of a valid resource under a new uuid keeps the books of an application: what it
-- has allocated is the sum of its allocations, as int64.
pub add_allocation-IsBalanced :
    (ai : Application) (info : Allocation)
    → IsBalanced ai
    → IsValid info.allocated_resource
    → lookup info.uuid ai.allocations ≡ none
    → IsBalanced (add_allocation ai info)
unfolding add_allocation
add_allocation-IsBalanced ai info h valid fresh =
    Balances-insert info ai.allocated_resource ai.allocations valid fresh h

remove_found-IsBalanced :
    (ai : Application) (uuid : String) (found : Option Allocation)
    → lookup uuid ai.allocations ≡ found
    → IsBalanced ai
    → IsBalanced (remove_found ai uuid found).0
unfolding remove_found
remove_found-IsBalanced ai uuid none e h = h
remove_found-IsBalanced ai uuid (some alloc) e h =
    Balances-erase uuid alloc ai.allocated_resource ai.allocations e h

-- Removing one allocation, by any uuid, or all of them keeps the books of an application.
pub remove_allocation-IsBalanced :
    (ai : Application) (uuid : String)
    → IsBalanced ai
    → IsBalanced (remove_allocation ai uuid).0 × IsBalanced (remove_all_allocations ai).0
unfolding remove_allocation remove_all_allocations
remove_allocation-IsBalanced ai uuid h =
    (remove_found-IsBalanced ai uuid (lookup uuid ai.allocations) refl h, Balances-empty)
