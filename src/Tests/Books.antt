-- ===== src/Tests/Books.antt =====
-- The books of nodes, applications and requests, and promises on a node.
use yunikorn_study.Prelude.{
  ℕ, ◌≡◌, refl, ◌<◌, ◌*◌, ◌%◌, none, some, Bool, true, false, [], arith, not, ◌-◌, ◌^◌, ltb,
  if◌then◌else◌, String, Bool-cases, inl, inr, ◌==◌,
}
use mathlib.Core.Path.{subst}
use yunikorn_study.Dict.{lookup, insert}
use yunikorn_study.Quantity.{Quantity, word, sub}
use yunikorn_study.Resource.{value}
use yunikorn_study.Allocation.{Allocation, new_allocation}
use yunikorn_study.Node
use yunikorn_study.Node.{Node, new_node}
use yunikorn_study.Node.Accounting as NodeBooks
use yunikorn_study.Application
use yunikorn_study.Application.{new_application}
use yunikorn_study.Application.Accounting as ApplicationBooks
use yunikorn_study.Requests.{
  Ask, AskProto, new_ask, Requests, new_requests, add_allocation_ask, remove_allocation_ask,
  update_allocation_ask_repeat,
}
use yunikorn_study.Requests.Exact.{IsExact, IsSmall}
use yunikorn_study.Requests.Books.{
  IsInt64, IsOdd, IsSound, add_allocation_ask-IsSound, remove_allocation_ask-IsSound,
  update_allocation_ask_repeat-IsSound,
}
use yunikorn_study.SchedulingNode.{
  new_scheduling_node, Answers, check_and_allocate_resource, check_and_allocate_resource-Answers,
}
use yunikorn_study.Tests.Fixtures.{
  small, small-IsValid, node, node-IsSound, application, application-IsSound, proposal,
}

abbrev allocation : Allocation
allocation = new_allocation "u1" proposal

add_allocation-IsSound_example : NodeBooks.IsSound (Node.add_allocation node allocation)
unfolding new_allocation new_node lookup
add_allocation-IsSound_example =
    NodeBooks.add_allocation-IsSound node allocation node-IsSound.0 small-IsValid refl

held-IsSound : NodeBooks.IsSound (Node.add_allocation node allocation)
unfolding new_allocation new_node lookup
held-IsSound = NodeBooks.add_allocation-IsSound node allocation node-IsSound.0 small-IsValid refl

remove_allocation-IsSound_example :
    NodeBooks.IsSound (Node.remove_allocation (Node.add_allocation node allocation) "u1").0
remove_allocation-IsSound_example =
    NodeBooks.remove_allocation-IsSound (Node.add_allocation node allocation) "u1" held-IsSound

add_allocation-IsBalanced_example :
    ApplicationBooks.IsBalanced (Application.add_allocation application allocation)
unfolding new_allocation new_application lookup
add_allocation-IsBalanced_example =
    ApplicationBooks.add_allocation-IsBalanced application allocation application-IsSound.0
      small-IsValid refl

remove_allocation-IsBalanced_example :
    ApplicationBooks.IsBalanced (Application.remove_allocation application "u1").0
    × ApplicationBooks.IsBalanced (Application.remove_all_allocations application).0
remove_allocation-IsBalanced_example =
    ApplicationBooks.remove_allocation-IsBalanced application "u1" application-IsSound.0

-- Exact products, with a sign beside the count.
abbrev float : ℕ → Bool × ℕ
float n = if ltb n (2 ^ 31) then (false, n) else (true, 2 ^ 32 - n)

abbrev negate : Bool × ℕ → Bool × ℕ
negate (b, n) = (not b, n)

abbrev times : Quantity → Bool × ℕ → Quantity
times v (false, n) = (v * n) % word
times v (true, n) = sub 0 ((v * n) % word)

times-IsInt64 : IsInt64 times
unfolding sub
times-IsInt64 v (false, n) = omega arith
times-IsInt64 v (true, n) = omega arith

negated_twice : (x : ℕ) → x < word → x ≡ sub 0 (sub 0 x)
unfolding sub
negated_twice x l = omega arith

times-IsOdd : IsOdd negate times
times-IsOdd v (false, n) = refl
times-IsOdd v (true, n) = negated_twice ((v * n) % word) (omega arith)

abbrev ask_proto : AskProto
ask_proto = record {
  allocation_key = "key1";
  application_id = "app1";
  partition_name = "[rm]default";
  resource_ask = small;
  max_allocations = 3;
  tags = [];
  priority = none;
}

abbrev ask : Ask
ask = record (new_ask ask_proto) { allocated_resource = small; pending_repeat_ask = 3 }

no_requests-IsSound : IsSound float negate times times-IsInt64 new_requests
unfolding new_requests value lookup
no_requests-IsSound = record {
  is_map = tt;
  are_valid = λ k a e. cc;
  is_resource = record { is_map = tt; is_words = tt };
  balanced = λ k. refl;
}

abbrev asked : Requests
asked = (add_allocation_ask float negate times new_requests ask).0

add_allocation_ask-IsSound_example : IsSound float negate times times-IsInt64 asked
unfolding new_ask
add_allocation_ask-IsSound_example =
    add_allocation_ask-IsSound float negate times times-IsInt64 new_requests ask small-IsValid
      no_requests-IsSound

asked-IsSound : IsSound float negate times times-IsInt64 asked
unfolding new_ask
asked-IsSound =
    add_allocation_ask-IsSound float negate times times-IsInt64 new_requests ask small-IsValid
      no_requests-IsSound

remove_allocation_ask-IsSound_example :
    IsSound float negate times times-IsInt64
      (remove_allocation_ask float negate times asked "key1").0
remove_allocation_ask-IsSound_example =
    remove_allocation_ask-IsSound float negate times times-IsInt64 asked "key1" times-IsOdd
      asked-IsSound

times-IsExact : IsExact float times
unfolding sub
times-IsExact = (
  λ v n l fits. let less : ltb n (2 ^ 31) ≡ true = ground arith in rw less (omega arith),
  λ v n m l pos same fits.
      let over : ltb n (2 ^ 31) ≡ false = ground arith in
      let rest : 2 ^ 32 - n ≡ m = omega arith in
      let whole : (v * m) % word ≡ v * m = omega arith in rw (over, rest, whole) refl,
)

small_bound : (k : String) → value k small < 2 ^ 8
unfolding value lookup
small_bound k = elim (Bool-cases ("memory" == k)) [
  | inl m ↦ rw (m, value) (omega arith)
  | inr m ↦ elim (Bool-cases ("vcore" == k)) [
    | inl v ↦ rw (m, v, value) (omega arith)
    | inr v ↦ rw (m, v, value) (omega arith)
  ]
]

asked-IsSmall : (a : Ask) → lookup "key1" asked.requests ≡ some a → IsSmall a 2
unfolding add_allocation_ask insert lookup new_ask new_requests
asked-IsSmall a e =
    let same : ask ≡ a = cc in
    subst (λ x. IsSmall x 2) same
      record {
        count = omega arith;
        delta_int32 = omega arith;
        fits = λ k. let b = small_bound k in omega arith;
      }

update_allocation_ask_repeat-IsSound_example :
    IsSound float negate times times-IsInt64
      (update_allocation_ask_repeat float negate times asked "key1" 2).0
update_allocation_ask_repeat-IsSound_example =
    update_allocation_ask_repeat-IsSound float negate times times-IsInt64 asked "key1" 2
      times-IsExact asked-IsSmall asked-IsSound

check_and_allocate_resource-Answers_example :
    Answers
      (new_scheduling_node node)
      (some small)
      false
      (check_and_allocate_resource (new_scheduling_node node) (some small) false)
unfolding new_scheduling_node
check_and_allocate_resource-Answers_example =
    check_and_allocate_resource-Answers (new_scheduling_node node) (some small) false small-IsValid
      (record { is_map = tt; is_words = tt })
