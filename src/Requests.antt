-- ===== src/Requests.antt =====
-- scheduler/requests.go and scheduler/scheduling_allocation_ask.go: the pending asks of an
-- application. An int32 is its bit pattern, a number below 2 ^ 32. The float64 arithmetic of
-- `MultiplyBy` is a parameter: `float` converts an int32, `negate` changes a sign, and `times v f`
-- is `int64(float64(v) * f)`.
pub mod Sums
pub mod Exact
pub mod Books
use yunikorn_study.Prelude.{
  String, ℕ, ◌+◌, ◌%◌, ◌^◌, Option, none, some, Bool, true, false, if◌then◌else◌, leb, List, [],
  ◌∷◌, ◌==◌,
}
use yunikorn_study.Dict.{Dict, lookup, insert, erase}
use yunikorn_study.Quantity.{Quantity}
use yunikorn_study.Resource.{
  Resource, new_resource, new_resource_from_proto, or_zero, update_each, add_resource, sub_resource,
  sub_value,
}
use yunikorn_study.PartitionName.{normalized_partition_name}
use yunikorn_study.Allocation.{Allocation}

-- The message `si.AllocationAsk`.
pub record AskProto : Type 0 where
  pub allocation_key : String
  pub application_id : String
  pub partition_name : String
  pub resource_ask : Resource
  pub max_allocations : ℕ
  pub tags : Dict String
  pub priority : Option ℕ

pub record Ask : Type 0 where
  pub ask_proto : AskProto
  pub allocated_resource : Resource
  pub pending_repeat_ask : ℕ
  pub application_id : String
  pub partition_name : String
  pub normalized_priority : ℕ
  pub queue_name : String

-- Go's sum of two int32.
abbrev pub add_int32 : ℕ → ℕ → ℕ
add_int32 x y = (x + y) % 2 ^ 32

-- `x >= 0`
abbrev pub is_natural : ℕ → Bool
is_natural x = leb (x + 1) (2 ^ 31)

unfoldable pub new_ask : AskProto → Ask
new_ask ask = record {
  ask_proto = ask;
  allocated_resource = new_resource_from_proto ask.resource_ask;
  pending_repeat_ask = ask.max_allocations;
  application_id = ask.application_id;
  partition_name = ask.partition_name;
  normalized_priority = 0;
  queue_name = "";
}

-- `ConvertFromAllocation`; the allocation is the message, whose resource is `resource_per_alloc`.
unfoldable pub convert_from_allocation : Allocation → String → Ask
convert_from_allocation a rm_id =
    let partition = normalized_partition_name a.partition_name rm_id in
    record {
      ask_proto = record {
        allocation_key = a.allocation_key;
        application_id = a.application_id;
        partition_name = partition;
        resource_ask = a.resource_per_alloc;
        max_allocations = 1;
        tags = a.tags;
        priority = a.priority;
      };
      allocated_resource = new_resource_from_proto a.resource_per_alloc;
      pending_repeat_ask = 1;
      application_id = a.application_id;
      partition_name = partition;
      normalized_priority = 0;
      queue_name = a.queue_name;
    }

-- `AddPendingAskRepeat`
unfoldable pub add_pending_ask_repeat : Ask → ℕ → Ask × Bool
add_pending_ask_repeat m delta =
    if is_natural (add_int32 m.pending_repeat_ask delta)
    then (record m { pending_repeat_ask = add_int32 m.pending_repeat_ask delta }, true)
    else (m, false)

pub record Requests : Type 0 where
  pub requests : Dict Ask
  pub total_pending_resource : Resource

unfoldable pub new_requests : Requests
new_requests = record { requests = []; total_pending_resource = new_resource }

pub data RequestError : Type 0 where
  under_zero not_located : String → RequestError

module _ {F : Type 0} (float : ℕ → F) (negate : F → F) (times : Quantity → F → Quantity) where
  -- `MultiplyBy`
  unfoldable pub multiply_by : Option Resource → F → Resource
  multiply_by base ratio = update_each (λ k old v. times v ratio) (or_zero base) new_resource

  -- What an ask waits for.
  abbrev pub pending : Ask → Resource
  pending ask = multiply_by (some ask.allocated_resource) (float ask.pending_repeat_ask)

  -- What `SubFrom` leaves of the delta.
  abbrev pub less_old : Resource → Option Ask → Resource
  less_old delta none = delta
  less_old delta (some old) = update_each sub_value (pending old) delta

  unfoldable pub add_allocation_ask : Requests → Ask → Requests × Resource
  add_allocation_ask m ask =
      let key = ask.ask_proto.allocation_key in
      let delta = less_old (pending ask) (lookup key m.requests) in
      (
        record {
          requests = insert key ask m.requests;
          total_pending_resource = add_resource (some m.total_pending_resource) (some delta);
        },
        delta,
      )

  -- `CleanupAllocationAsks`, the walk over the asks from what is taken off so far.
  cleanup_loop : Dict Ask → Resource → Resource
  cleanup_loop [] delta = delta
  cleanup_loop ((k, ask) ∷ m) delta =
      cleanup_loop m (sub_resource (some delta) (some (pending ask)))

  unfoldable pub cleanup_allocation_asks : Requests → Requests × Option Resource
  unfolding cleanup_loop
  cleanup_allocation_asks m = (
    new_requests,
    elim m.requests [ [] ↦ none | entry ∷ rest ↦ some (cleanup_loop (entry ∷ rest) new_resource) ],
  )

  abbrev pub update_found :
      String → ℕ → Requests → Option Ask → Requests × (Option Resource × Option RequestError)
  update_found key delta m none = (m, (none, some (not_located key)))
  update_found key delta m (some ask) =
      if is_natural (add_int32 ask.pending_repeat_ask delta)
      then (let change = multiply_by (some ask.allocated_resource) (float delta) in
          (
            record {
              requests = insert key (add_pending_ask_repeat ask delta).0 m.requests;
              total_pending_resource = add_resource (some m.total_pending_resource) (some change);
            },
            (some change, none),
          ))
      else (m, (none, some (under_zero key)))

  unfoldable pub update_allocation_ask_repeat :
      Requests → String → ℕ → Requests × (Option Resource × Option RequestError)
  update_allocation_ask_repeat m key delta = update_found key delta m (lookup key m.requests)

  abbrev pub remove_ask : String → Requests → Option Ask → Requests × (Option Resource × Option Ask)
  remove_ask key m none = (m, (none, none))
  remove_ask key m (some ask) =
      let change =
        multiply_by (some ask.allocated_resource) (negate (float ask.pending_repeat_ask)) in
      (
        record {
          requests = erase key m.requests;
          total_pending_resource = add_resource (some m.total_pending_resource) (some change);
        },
        (some change, some ask),
      )

  -- `RemoveAllocationAsk`; the empty key takes off all asks.
  unfoldable pub remove_allocation_ask :
      Requests → String → Requests × (Option Resource × Option Ask)
  remove_allocation_ask m key =
      if key == ""
      then (let (cleaned, change) = cleanup_allocation_asks m in (cleaned, (change, none)))
      else remove_ask key m (lookup key m.requests)
