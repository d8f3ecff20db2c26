-- ===== src/State/Engine.antt =====
-- An engine with the documented behaviour of github.com/looplab/fsm.
use yunikorn_study.Prelude.{◌≡◌, refl, ◌≢◌, Option, none, some, ap, ◌∙◌}
use yunikorn_study.State.{Fsm, FsmError, no_transition, invalid_event, find_dst}

module _ {S E : Type 0} (eq_s : Discrete S) (eq_e : Discrete E) where
  abbrev answer : (s : S) → Option S → S × Option FsmError
  answer s none = (s, some invalid_event)
  answer s (some d) = elim (eq_s d s) [ yes p ↦ (s, some no_transition) | no p ↦ (d, none) ]

  pub answer_moves : (s d : S) → d ≢ s → answer s (some d) ≡ (d, none)
  answer_moves s d ne =
      elim (eq_s d s)
        as (λ x.
          (elim x as (λ _. S × Option FsmError) [
            | yes p ↦ (s, some no_transition)
            | no p ↦ (d, none)
          ])
          ≡ (d, none)) [ yes p ↦ absurd (ne p) | no p ↦ refl ]

  pub answer_stays : (s : S) → answer s (some s) ≡ (s, some no_transition)
  answer_stays s =
      elim (eq_s s s)
        as (λ x.
          (elim x as (λ _. S × Option FsmError) [
            | yes p ↦ (s, some no_transition)
            | no p ↦ (s, none)
          ])
          ≡ (s, some no_transition)) [ yes p ↦ refl | no p ↦ absurd (p refl) ]

  abbrev pub engine : Fsm S E eq_s eq_e
  engine = record {
    event = λ t s e. answer s (find_dst eq_s eq_e t s e);
    moves = λ t s e d p ne. ap (answer s) p ∙ answer_moves s d ne;
    stays = λ t s e p. ap (answer s) p ∙ answer_stays s;
    refuses = λ t s e p. ap (answer s) p;
  }
