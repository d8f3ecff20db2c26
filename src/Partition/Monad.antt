-- ===== src/Partition/Monad.antt =====
-- A call on a partition: what it returns or the error, and the partition afterwards.
use yunikorn_study.Prelude.{String, ℕ, Option, none, some, Bool, if◌then◌else◌, ◌≡◌, ap}
use yunikorn_study.Dict.{Dict}
use yunikorn_study.Resource.{Resource}
use yunikorn_study.Allocation.{Allocation}
use yunikorn_study.Node.{Node}
use yunikorn_study.Application.{Application}
use yunikorn_study.Queue.{Heap, QueueError}
use yunikorn_study.State.{ObjectState}

-- `root` is the address of the root queue in `queues`.
pub record Partition : Type 0 where
  pub name : String
  pub root : ℕ
  pub rm_id : String
  pub allocations : Dict Allocation
  pub nodes : Dict Node
  pub applications : Dict Application
  pub state : ObjectState
  pub state_time : ℕ
  pub is_preemptable : Bool
  pub total_partition_resource : Resource
  pub queues : Heap

pub data Error : Type 0 where
  stopped node_exists application_exists no_node no_application no_leaf_queue over_node : Error
  over_queue : QueueError → Error

pub data Result {ℓ} (A : Type ℓ) : Type ℓ where
  ok : A → Result A
  err : Error → Result A

-- `none` is a bad pointer, or a loop that has not ended.
abbrev pub Action : Type 0 → Type 0
Action A = Partition → Option (Result A × Partition)

abbrev pub continue :
    {A B : Type 0} → (A → Action B) → Option (Result A × Partition) → Option (Result B × Partition)
continue f none = none
continue f (some (ok a, pi)) = f a pi
continue f (some (err e, pi)) = some (err e, pi)

infixl 5 ◌>>=◌ ◌>>◌
abbrev pub ◌>>=◌ : {A B : Type 0} → Action A → (A → Action B) → Action B
◌>>=◌ m f pi = continue f (m pi)

abbrev pub ◌>>◌ : {A B : Type 0} → Action A → Action B → Action B
m >> k = m >>= λ _. k

abbrev pub pure : {A : Type 0} → A → Action A
pure a pi = some (ok a, pi)

abbrev pub get : Action Partition
get pi = some (ok pi, pi)

abbrev pub modify : (Partition → Partition) → Action (Unit {0})
modify f pi = some (ok tt, f pi)

abbrev pub guard : Bool → Error → Action (Unit {0})
guard test e pi = some (if test then ok tt else err e, pi)

abbrev pub or_fail : {A : Type 0} → Option A → Error → Action A
or_fail none e pi = some (err e, pi)
or_fail (some a) e pi = some (ok a, pi)

abbrev pub or_hang : {A : Type 0} → Option A → Action A
or_hang none pi = none
or_hang (some a) pi = some (ok a, pi)

-- What a call on a queue made of the queues, with its error.
abbrev pub charge : Option (Heap × Option QueueError) → Action (Unit {0})
charge none pi = none
charge (some (h, none)) pi = some (ok tt, record pi { queues = h })
charge (some (h, some x)) pi = some (err (over_queue x), record pi { queues = h })

pub >>-ok :
    {A B : Type 0} (m : Action A) (k : Action B) (pi pi' : Partition) {a : A}
    → m pi ≡ some (ok a, pi')
    → (m >> k) pi ≡ k pi'
>>-ok m k pi pi' e = ap (continue (λ _. k)) e
