-- ===== src/State/Object.antt =====
-- The life of a partition or a managed queue (cache/object_state.go).
use mathlib.Core.Path.{subst}
use yunikorn_study.Prelude.{
  ℕ, ◌≡◌, ◌≢◌, refl, sym, ap, Option, none, some, ◌⊎◌, inl, inr, List, [], ◌∷◌,
}
use yunikorn_study.State.{
  FsmError, no_transition, invalid_event, ObjectFsm, ObjectState, ObjectEvent, active, draining,
  stopped, remove, start, stop, object_table, handle_object_event, ObjectState-discrete,
  ObjectEvent-discrete, find_dst, drop_no_transition,
}

-- The transitions that the table allows, those that stay included.
pub data ObjectStep : ObjectState → ObjectEvent → ObjectState → Type 0 where
  mark : ObjectStep active remove draining
  mark_again : ObjectStep draining remove draining
  keep : ObjectStep active start active
  restart : ObjectStep stopped start active
  halt : ObjectStep active stop stopped
  halt_again : ObjectStep stopped stop stopped

-- The table as a function.
abbrev pub object_next : ObjectState → ObjectEvent → Option ObjectState
object_next active remove = some draining
object_next draining remove = some draining
object_next active start = some active
object_next stopped start = some active
object_next active stop = some stopped
object_next stopped stop = some stopped
object_next _ _ = none

find_dst-object_table :
    (s : ObjectState) (e : ObjectEvent)
    → find_dst ObjectState-discrete ObjectEvent-discrete object_table s e ≡ object_next s e
unfolding ObjectState-discrete ObjectEvent-discrete
find_dst-object_table active remove = refl
find_dst-object_table active start = refl
find_dst-object_table active stop = refl
find_dst-object_table draining remove = refl
find_dst-object_table draining start = refl
find_dst-object_table draining stop = refl
find_dst-object_table stopped remove = refl
find_dst-object_table stopped start = refl
find_dst-object_table stopped stop = refl

-- What the engine answers on this table.
abbrev object_result : ObjectState → ObjectEvent → ObjectState × Option FsmError
object_result active remove = (draining, none)
object_result draining remove = (draining, some no_transition)
object_result active start = (active, some no_transition)
object_result stopped start = (active, none)
object_result active stop = (stopped, none)
object_result stopped stop = (stopped, some no_transition)
object_result s _ = (s, some invalid_event)

-- A step is never refused.
step_result :
    (s : ObjectState) (e : ObjectEvent) (d : ObjectState)
    → ObjectStep s e d
    → ((object_result s e).0 ≡ d) × (drop_no_transition (object_result s e).1 ≡ none)
step_result s e d mark = (refl, refl)
step_result s e d mark_again = (refl, refl)
step_result s e d keep = (refl, refl)
step_result s e d restart = (refl, refl)
step_result s e d halt = (refl, refl)
step_result s e d halt_again = (refl, refl)

module _ (fsm : ObjectFsm) where
  event-object_table :
      (s : ObjectState) (e : ObjectEvent) → fsm.event object_table s e ≡ object_result s e
  event-object_table active remove =
      fsm.moves object_table active remove draining (find_dst-object_table active remove) (λ e. cc)
  event-object_table active start =
      fsm.stays object_table active start (find_dst-object_table active start)
  event-object_table active stop =
      fsm.moves object_table active stop stopped (find_dst-object_table active stop) (λ e. cc)
  event-object_table draining remove =
      fsm.stays object_table draining remove (find_dst-object_table draining remove)
  event-object_table draining start =
      fsm.refuses object_table draining start (find_dst-object_table draining start)
  event-object_table draining stop =
      fsm.refuses object_table draining stop (find_dst-object_table draining stop)
  event-object_table stopped remove =
      fsm.refuses object_table stopped remove (find_dst-object_table stopped remove)
  event-object_table stopped start =
      fsm.moves object_table stopped start active (find_dst-object_table stopped start) (λ e. cc)
  event-object_table stopped stop =
      fsm.stays object_table stopped stop (find_dst-object_table stopped stop)

  -- An event is accepted exactly where the diagram has a step for it, and then leads where the
  -- step leads: the time of the last change is the time of the event if the state is another one,
  -- and stays otherwise. An event for which the diagram has no step is refused, with an error, and
  -- changes neither the state nor the time.
  pub handle_object_event-ObjectStep :
      (now t : ℕ) (s : ObjectState) (e : ObjectEvent)
      → let (st, err) = handle_object_event fsm now (s, t) e in
        ((err ≡ none)
          × ObjectStep s e st.0
          × (((st.0 ≡ s) × (st.1 ≡ t)) ⊎ ((st.0 ≢ s) × (st.1 ≡ now))))
        ⊎ ((err ≡ some invalid_event) × (st ≡ (s, t)) × ((d : ObjectState) → ¬ (ObjectStep s e d)))
  unfolding handle_object_event
  handle_object_event-ObjectStep now t active remove =
      rw (event-object_table active remove) (inl (refl, mark, inr ((λ x. cc), refl)))
  handle_object_event-ObjectStep now t active start =
      rw (event-object_table active start) (inl (refl, keep, inl (refl, refl)))
  handle_object_event-ObjectStep now t active stop =
      rw (event-object_table active stop) (inl (refl, halt, inr ((λ x. cc), refl)))
  handle_object_event-ObjectStep now t draining remove =
      rw (event-object_table draining remove) (inl (refl, mark_again, inl (refl, refl)))
  handle_object_event-ObjectStep now t draining start =
      rw (event-object_table draining start)
        (inr (refl, refl, λ d x. cc ((step_result draining start d x).1)))
  handle_object_event-ObjectStep now t draining stop =
      rw (event-object_table draining stop)
        (inr (refl, refl, λ d x. cc ((step_result draining stop d x).1)))
  handle_object_event-ObjectStep now t stopped remove =
      rw (event-object_table stopped remove)
        (inr (refl, refl, λ d x. cc ((step_result stopped remove d x).1)))
  handle_object_event-ObjectStep now t stopped start =
      rw (event-object_table stopped start) (inl (refl, restart, inr ((λ x. cc), refl)))
  handle_object_event-ObjectStep now t stopped stop =
      rw (event-object_table stopped stop) (inl (refl, halt_again, inl (refl, refl)))

  -- The state after a sequence of events with their times.
  abbrev pub run_object : ObjectState × ℕ → List (ObjectEvent × ℕ) → ObjectState × ℕ
  run_object st [] = st
  run_object st ((e, now) ∷ es) = run_object (handle_object_event fsm now st e).0 es

  pub handle_object_event_draining :
      (now t : ℕ) (e : ObjectEvent)
      → (handle_object_event fsm now (draining, t) e).0 ≡ (draining, t)
  unfolding handle_object_event
  handle_object_event_draining now t remove = rw (event-object_table draining remove)
  handle_object_event_draining now t start = rw (event-object_table draining start)
  handle_object_event_draining now t stop = rw (event-object_table draining stop)

  active_removed :
      (now t : ℕ) → (handle_object_event fsm now (active, t) remove).0 ≡ (draining, now)
  unfolding handle_object_event
  active_removed now t = rw (event-object_table active remove) refl

  stopped_removed : (now t : ℕ) → (handle_object_event fsm now (stopped, t) remove).0 ≡ (stopped, t)
  unfolding handle_object_event
  stopped_removed now t = rw (event-object_table stopped remove) refl

  -- A second remove event at the same time changes nothing more.
  pub handle_object_event_again :
      (now : ℕ) (s : ObjectState) (t : ℕ)
      → let st = (handle_object_event fsm now (s, t) remove).0 in
        (handle_object_event fsm now st remove).0 ≡ st
  handle_object_event_again now active t =
      subst (λ st. (handle_object_event fsm now st remove).0 ≡ st) (sym (active_removed now t))
        (handle_object_event_draining now now remove)
  handle_object_event_again now draining t =
      ap (λ st. (handle_object_event fsm now st remove).0)
        (handle_object_event_draining now t remove)
  handle_object_event_again now stopped t =
      ap (λ st. (handle_object_event fsm now st remove).0) (stopped_removed now t)

  -- Once it is draining, a queue or a partition is draining for good, whatever events come, and its
  -- state time does not move.
  pub draining_absorbs :
      (t : ℕ) (es : List (ObjectEvent × ℕ)) → run_object (draining, t) es ≡ (draining, t)
  draining_absorbs t [] = refl
  draining_absorbs t ((e, now) ∷ es) =
      rw (handle_object_event_draining now t e) (draining_absorbs t es)
