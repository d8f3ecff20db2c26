-- ===== src/State.antt =====
-- The state machines of cache/object_state.go and cache/application_state.go.
-- The engine behind them (github.com/looplab/fsm) is a parameter, with its documented behaviour.
pub mod Object
pub mod Application
pub mod Engine
use yunikorn_study.Prelude.{
  ℕ, ◌≡◌, ◌≢◌, Bool, true, false, Option, none, some, List, [], ◌∷◌, ◌&&◌, if◌then◌else◌,
}

-- fsm.EventDesc: the event, the states it may come in, and the state it leads to.
pub record EventDesc (S E : Type 0) : Type 0 where
  pub name : E
  pub src : List S
  pub dst : S

pub data FsmError : Type 0 where
  no_transition invalid_event : FsmError

abbrev pub is_same : {A : Type 0} {a b : A} → Dec (a ≡ b) → Bool
is_same (yes p) = true
is_same (no p) = false

abbrev pub contains : {S : Type 0} → Discrete S → S → List S → Bool
contains eq s [] = false
contains eq s (t ∷ l) = if is_same (eq t s) then true else contains eq s l

-- Where a table sends an event that comes in a state.
abbrev pub find_dst :
    {S E : Type 0} → Discrete S → Discrete E → List (EventDesc S E) → S → E → Option S
find_dst eq_s eq_e [] s e = none
find_dst eq_s eq_e (r ∷ table) s e =
    if is_same (eq_e r.name e) && contains eq_s s r.src
    then some r.dst
    else find_dst eq_s eq_e table s e

-- `Event` of the library: the state afterwards and the error. An event that leads to the state it
-- came in is reported as an error too.
pub record Fsm (S E : Type 0) (eq_s : Discrete S) (eq_e : Discrete E) : Type 0 where
  pub event : List (EventDesc S E) → S → E → S × Option FsmError
  pub moves :
      (t : List (EventDesc S E)) (s : S) (e : E) (d : S)
      → find_dst eq_s eq_e t s e ≡ some d
      → d ≢ s
      → event t s e ≡ (d, none)
  pub stays :
      (t : List (EventDesc S E)) (s : S) (e : E)
      → find_dst eq_s eq_e t s e ≡ some s
      → event t s e ≡ (s, some no_transition)
  pub refuses :
      (t : List (EventDesc S E)) (s : S) (e : E)
      → find_dst eq_s eq_e t s e ≡ none
      → event t s e ≡ (s, some invalid_event)

-- `if err != nil && err.Error() == "no transition" { return nil }`
abbrev pub drop_no_transition : Option FsmError → Option FsmError
drop_no_transition none = none
drop_no_transition (some no_transition) = none
drop_no_transition (some invalid_event) = some invalid_event

pub data ObjectEvent : Type 0 where
  remove start stop : ObjectEvent

pub data ObjectState : Type 0 where
  active draining stopped : ObjectState

pub data ApplicationEvent : Type 0 where
  accept_application reject_application run_application : ApplicationEvent
  complete_application kill_application : ApplicationEvent

pub data ApplicationState : Type 0 where
  new accepted rejected running completed killed : ApplicationState

unfoldable pub ObjectEvent-discrete : Discrete ObjectEvent
ObjectEvent-discrete = hlevel

unfoldable pub ObjectState-discrete : Discrete ObjectState
ObjectState-discrete = hlevel

unfoldable pub ApplicationEvent-discrete : Discrete ApplicationEvent
ApplicationEvent-discrete = hlevel

unfoldable pub ApplicationState-discrete : Discrete ApplicationState
ApplicationState-discrete = hlevel

abbrev pub ObjectFsm : Type 0
ObjectFsm = Fsm ObjectState ObjectEvent ObjectState-discrete ObjectEvent-discrete

abbrev pub ApplicationFsm : Type 0
ApplicationFsm =
    Fsm ApplicationState ApplicationEvent ApplicationState-discrete ApplicationEvent-discrete

-- The table of `newObjectState`.
abbrev pub object_table : List (EventDesc ObjectState ObjectEvent)
object_table =
    record { name = remove; src = active ∷ draining ∷ []; dst = draining }
    ∷ record { name = start; src = active ∷ stopped ∷ []; dst = active }
    ∷ record { name = stop; src = active ∷ stopped ∷ []; dst = stopped }
    ∷ []

-- The table of `newAppState`.
abbrev pub application_table : List (EventDesc ApplicationState ApplicationEvent)
application_table =
    record { name = accept_application; src = new ∷ []; dst = accepted }
    ∷ record { name = reject_application; src = new ∷ []; dst = rejected }
    ∷ record { name = run_application; src = accepted ∷ running ∷ []; dst = running }
    ∷ record { name = complete_application; src = running ∷ []; dst = completed }
    ∷ record { name = kill_application; src = new ∷ accepted ∷ running ∷ killed ∷ []; dst = killed }
    ∷ []

-- `HandleQueueEvent` and `HandlePartitionEvent`: the state, the time of the last change, the error.
unfoldable pub handle_object_event :
    ObjectFsm → ℕ → ObjectState × ℕ → ObjectEvent → (ObjectState × ℕ) × Option FsmError
handle_object_event fsm now (s, t) e =
    let (s', err) = fsm.event object_table s e in
    ((s', elim err [ none ↦ now | some _ ↦ t ]), drop_no_transition err)

-- `HandleApplicationEvent`.
unfoldable pub handle_application_event :
    ApplicationFsm → ApplicationState → ApplicationEvent → ApplicationState × Option FsmError
handle_application_event fsm s e =
    let (s', err) = fsm.event application_table s e in (s', drop_no_transition err)

abbrev pub is_draining : ObjectState → Bool
is_draining draining = true
is_draining _ = false

abbrev pub is_running : ObjectState → Bool
is_running active = true
is_running _ = false

abbrev pub is_stopped : ObjectState → Bool
is_stopped stopped = true
is_stopped _ = false

abbrev pub is_accepted : ApplicationState → Bool
is_accepted accepted = true
is_accepted _ = false
