-- ===== src/SchedulingNode.antt =====
-- scheduler/scheduling_node.go: what the scheduler has promised on a node, beside what the cache has
-- confirmed.
use yunikorn_study.Prelude.{
  String, ◌≡◌, refl, Option, some, Bool, true, false, if◌then◌else◌, arith, inl, inr, Bool-cases,
}
use yunikorn_study.Quantity.{add}
use yunikorn_study.Resource.{Resource, value, new_resource, add_resource, fit_in}
use yunikorn_study.Resource.Arith.{quantity, IsResource, value-add_resource, add_resource-IsValid}
use yunikorn_study.Resource.Loops.{IsValid}
use yunikorn_study.Resource.Order.{◌≤₆₄◌, capacity, fit_in_iff}
use yunikorn_study.Node.{Node}

pub record SchedulingNode : Type 0 where
  pub node_info : Node
  pub node_id : String
  pub allocating_resource : Resource
  pub preempting_resource : Resource
  pub cached_available_resource : Resource

unfoldable pub new_scheduling_node : Node → SchedulingNode
new_scheduling_node info = record {
  node_info = info;
  node_id = info.node_id;
  allocating_resource = new_resource;
  preempting_resource = new_resource;
  cached_available_resource = info.available_resource;
}

-- What may still be promised.
unfoldable pub room : SchedulingNode → Bool → Resource
room m preemption_phase =
    if preemption_phase
    then add_resource (some m.cached_available_resource) (some m.preempting_resource)
    else m.cached_available_resource

unfoldable pub check_and_allocate_resource :
    SchedulingNode → Option Resource → Bool → SchedulingNode × Bool
check_and_allocate_resource m delta preemption_phase =
    let new_allocating = add_resource delta (some m.allocating_resource) in
    if fit_in (some (room m preemption_phase)) (some new_allocating)
    then (record m { allocating_resource = new_allocating }, true)
    else (m, false)

-- What the answer says: true where the promise grows by `delta` under every key and fits what is
-- available, false where the node stays and the grown promise does not fit.
abbrev pub Answers : SchedulingNode → Option Resource → Bool → SchedulingNode × Bool → Type 0
Answers m delta phase (m', true) =
    (k : String)
    → (value k m'.allocating_resource ≡ add (quantity k delta) (value k m.allocating_resource))
      × (value k m'.allocating_resource ≤₆₄ capacity (value k (room m phase)))
Answers m delta phase (m', false) =
    (m' ≡ m)
    × ¬ (
        (k : String)
        → add (quantity k delta) (value k m.allocating_resource)
          ≤₆₄ capacity (value k (room m phase)))

-- `CheckAndAllocateResource`, in the preemption phase and out of it: it promises `delta` exactly where
-- the grown promise fits in the available resource under every key, and else changes nothing.
pub check_and_allocate_resource-Answers :
    (m : SchedulingNode) (delta : Option Resource) (phase : Bool)
    → IsResource delta
    → IsValid m.allocating_resource
    → Answers m delta phase (check_and_allocate_resource m delta phase)
unfolding check_and_allocate_resource
check_and_allocate_resource-Answers m delta phase h g =
    let grown = add_resource delta (some m.allocating_resource) in
    let larger = some (room m phase) in
    let valid = add_resource-IsValid delta (some m.allocating_resource) h g in
    let (fits, back) = fit_in_iff larger (some grown) valid in
    let sum = λ (k : String). value-add_resource k delta (some m.allocating_resource) h g in
    elim (Bool-cases (fit_in larger (some grown))) [
      | inl c ↦ rw c (λ k. (sum k, fits c k))
      | inr c ↦ rw c (refl, λ all. clash c (back (λ k. ground (arith, sum k, all k))))
    ]
  where
    clash : {b : Bool} → b ≡ false → b ≡ true → ⊥
    clash e f = cc
