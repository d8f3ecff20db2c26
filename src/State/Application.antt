-- ===== src/State/Application.antt =====
-- The life of an application (cache/application_state.go).
use yunikorn_study.Prelude.{
  ◌≡◌, refl, Option, none, some, arith, ◌⊎◌, inl, inr, Bool, true, false, sym, List, [], ◌∷◌,
}
use mathlib.Core.List.{Memᴰ}
use yunikorn_study.State.{
  FsmError, no_transition, invalid_event, ApplicationFsm, ApplicationState, ApplicationEvent, new,
  accepted, rejected, running, completed, killed, accept_application, reject_application,
  run_application, complete_application, kill_application, application_table,
  handle_application_event, ApplicationState-discrete, ApplicationEvent-discrete,
  drop_no_transition,
}

pub data ApplicationStep : ApplicationState → ApplicationEvent → ApplicationState → Type 0 where
  accept : ApplicationStep new accept_application accepted
  reject : ApplicationStep new reject_application rejected
  run : ApplicationStep accepted run_application running
  run_again : ApplicationStep running run_application running
  complete : ApplicationStep running complete_application completed
  kill_new : ApplicationStep new kill_application killed
  kill_accepted : ApplicationStep accepted kill_application killed
  kill_running : ApplicationStep running kill_application killed
  kill_again : ApplicationStep killed kill_application killed

-- What the engine answers on this table.
abbrev application_result : ApplicationState → ApplicationEvent → ApplicationState × Option FsmError
application_result new accept_application = (accepted, none)
application_result new reject_application = (rejected, none)
application_result new kill_application = (killed, none)
application_result accepted run_application = (running, none)
application_result accepted kill_application = (killed, none)
application_result running run_application = (running, some no_transition)
application_result running complete_application = (completed, none)
application_result running kill_application = (killed, none)
application_result killed kill_application = (killed, some no_transition)
application_result s _ = (s, some invalid_event)

-- A step is never refused.
step_result :
    (s : ApplicationState) (e : ApplicationEvent) (d : ApplicationState)
    → ApplicationStep s e d
    → ((application_result s e).0 ≡ d) × (drop_no_transition (application_result s e).1 ≡ none)
step_result s e d accept = (refl, refl)
step_result s e d reject = (refl, refl)
step_result s e d run = (refl, refl)
step_result s e d run_again = (refl, refl)
step_result s e d complete = (refl, refl)
step_result s e d kill_new = (refl, refl)
step_result s e d kill_accepted = (refl, refl)
step_result s e d kill_running = (refl, refl)
step_result s e d kill_again = (refl, refl)

-- The answers by the three laws of the engine.
abbrev Answers : ApplicationFsm → ApplicationState → ApplicationEvent → Type 0
Answers fsm s e = fsm.event application_table s e ≡ application_result s e

-- The application has been started.
abbrev pub is_past : ApplicationState → Bool
is_past running = true
is_past completed = true
is_past _ = false

module _ (fsm : ApplicationFsm) where
  event-application_table : (s : ApplicationState) (e : ApplicationEvent) → Answers fsm s e
  unfolding ApplicationState-discrete ApplicationEvent-discrete
  event-application_table new accept_application = fsm.moves application_table _ _ _ refl (λ e. cc)
  event-application_table new reject_application = fsm.moves application_table _ _ _ refl (λ e. cc)
  event-application_table new kill_application = fsm.moves application_table _ _ _ refl (λ e. cc)
  event-application_table accepted run_application =
      fsm.moves application_table _ _ _ refl (λ e. cc)
  event-application_table accepted kill_application =
      fsm.moves application_table _ _ _ refl (λ e. cc)
  event-application_table running run_application = fsm.stays application_table _ _ refl
  event-application_table running complete_application =
      fsm.moves application_table _ _ _ refl (λ e. cc)
  event-application_table running kill_application =
      fsm.moves application_table _ _ _ refl (λ e. cc)
  event-application_table killed kill_application = fsm.stays application_table _ _ refl
  event-application_table rejected accept_application = fsm.refuses application_table _ _ refl
  event-application_table completed accept_application = fsm.refuses application_table _ _ refl
  event-application_table s e = fsm.refuses application_table s e refl

  -- An event is accepted exactly where the diagram has a step for it, and then leads where the
  -- step leads. An event for which the diagram has no step is refused, with an error, and changes
  -- nothing.
  pub handle_application_event-ApplicationStep :
      (s : ApplicationState) (e : ApplicationEvent)
      → let (t, err) = handle_application_event fsm s e in
        ((err ≡ none) × ApplicationStep s e t)
        ⊎ ((err ≡ some invalid_event)
            × (t ≡ s)
            × ((d : ApplicationState) → ¬ (ApplicationStep s e d)))
  unfolding handle_application_event
  handle_application_event-ApplicationStep new accept_application =
      rw (event-application_table new accept_application) (inl (refl, accept))
  handle_application_event-ApplicationStep new reject_application =
      rw (event-application_table new reject_application) (inl (refl, reject))
  handle_application_event-ApplicationStep new kill_application =
      rw (event-application_table new kill_application) (inl (refl, kill_new))
  handle_application_event-ApplicationStep accepted run_application =
      rw (event-application_table accepted run_application) (inl (refl, run))
  handle_application_event-ApplicationStep accepted kill_application =
      rw (event-application_table accepted kill_application) (inl (refl, kill_accepted))
  handle_application_event-ApplicationStep running run_application =
      rw (event-application_table running run_application) (inl (refl, run_again))
  handle_application_event-ApplicationStep running complete_application =
      rw (event-application_table running complete_application) (inl (refl, complete))
  handle_application_event-ApplicationStep running kill_application =
      rw (event-application_table running kill_application) (inl (refl, kill_running))
  handle_application_event-ApplicationStep killed kill_application =
      rw (event-application_table killed kill_application) (inl (refl, kill_again))
  handle_application_event-ApplicationStep s e =
      rw (event-application_table s e) (inr (refl, refl, λ d x. cc ((step_result s e d x).1)))

  -- The state after a sequence of events, refused ones included.
  abbrev pub run_application_events : ApplicationState → List ApplicationEvent → ApplicationState
  run_application_events s [] = s
  run_application_events s (e ∷ es) = run_application_events (handle_application_event fsm s e).0 es

  terminal_step :
      (s : ApplicationState) (e : ApplicationEvent)
      → (s ≡ rejected) ⊎ ((s ≡ completed) ⊎ (s ≡ killed))
      → (handle_application_event fsm s e).0 ≡ s
  unfolding handle_application_event
  terminal_step s e h = ground (arith, event-application_table s e)

  not_past_step :
      (s : ApplicationState) (e : ApplicationEvent)
      → is_past s ≡ false
      → (e ≡ run_application) ⊎ (is_past (handle_application_event fsm s e).0 ≡ false)
  unfolding handle_application_event
  not_past_step s e h = ground (arith, event-application_table s e)

  past_needs_run :
      (s : ApplicationState) (es : List ApplicationEvent)
      → is_past s ≡ false
      → is_past (run_application_events s es) ≡ true
      → Memᴰ run_application es
  past_needs_run s [] h p = cc
  past_needs_run s (e ∷ es) h p = elim (not_past_step s e h) [
    | inl q ↦ Memᴰ.head (sym q)
    | inr q ↦ Memᴰ.tail (past_needs_run (handle_application_event fsm s e).0 es q p)
  ]

  -- A rejected, completed or killed application stays as it is, whatever events come.
  pub terminal_absorbs :
      (s : ApplicationState) (es : List ApplicationEvent)
      → (s ≡ rejected) ⊎ ((s ≡ completed) ⊎ (s ≡ killed))
      → run_application_events s es ≡ s
  terminal_absorbs s [] h = refl
  terminal_absorbs s (e ∷ es) h = rw (terminal_step s e h) (terminal_absorbs s es h)

  -- A new application is running or completed only if it was told to run.
  pub running_needs_run :
      (es : List ApplicationEvent)
      → is_past (run_application_events new es) ≡ true
      → Memᴰ run_application es
  running_needs_run es h = past_needs_run new es refl h
