-- ===== src/Tests/States.antt =====
-- The state machines on an engine with the documented behaviour.
use yunikorn_study.Prelude.{◌≡◌, ◌≢◌, ◌⊎◌, none, some}
use yunikorn_study.State.{
  ObjectState, ApplicationState, invalid_event, ObjectFsm, ApplicationFsm, active, remove, running,
  complete_application, ObjectEvent-discrete, ObjectState-discrete, ApplicationEvent-discrete,
  ApplicationState-discrete, handle_object_event, handle_application_event,
}
use yunikorn_study.State.Engine.{engine}
use yunikorn_study.State.Object.{ObjectStep, handle_object_event-ObjectStep}
use yunikorn_study.State.Application.{ApplicationStep, handle_application_event-ApplicationStep}

abbrev pub object_fsm : ObjectFsm
object_fsm = engine ObjectState-discrete ObjectEvent-discrete

abbrev application_fsm : ApplicationFsm
application_fsm = engine ApplicationState-discrete ApplicationEvent-discrete

handle_object_event-ObjectStep_example :
    let (st, err) = handle_object_event object_fsm 7 (active, 3) remove in
    ((err ≡ none)
      × ObjectStep active remove st.0
      × (((st.0 ≡ active) × (st.1 ≡ 3)) ⊎ ((st.0 ≢ active) × (st.1 ≡ 7))))
    ⊎ ((err ≡ some invalid_event)
        × (st ≡ (active, 3))
        × ((d : ObjectState) → ¬ (ObjectStep active remove d)))
handle_object_event-ObjectStep_example = handle_object_event-ObjectStep object_fsm 7 3 active remove

handle_application_event-ApplicationStep_example :
    let (t, err) = handle_application_event application_fsm running complete_application in
    ((err ≡ none) × ApplicationStep running complete_application t)
    ⊎ ((err ≡ some invalid_event)
        × (t ≡ running)
        × ((d : ApplicationState) → ¬ (ApplicationStep running complete_application d)))
handle_application_event-ApplicationStep_example =
    handle_application_event-ApplicationStep application_fsm running complete_application
