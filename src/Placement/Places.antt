-- ===== src/Placement/Places.antt =====
-- Where a placement rule of the configuration puts an application (scheduler/placement).
use yunikorn_study.Prelude.{
  String, ◌≡◌, refl, sym, ◌⊎◌, inl, inr, Option, none, some, Bool, true, false, ◌&&◌, ◌||◌, ◌==◌,
  Bool-cases, eq_iff,
}
use mathlib.Core.Path.{subst}
use yunikorn_study.Text.{to_lower}
use yunikorn_study.Text.Names.{has_prefix}
use yunikorn_study.Application.{Application}
use yunikorn_study.Partition.Monad.{Partition}
use yunikorn_study.Placement.Filter.{new_filter}
use yunikorn_study.Placement.Rules.{
  RuleFields, RuleConfig, rule_config, Kind, user, provided, test, fixed, tag, kind_of, is_config,
  Rule, rule, Answer, found, leaf_parent, nil_queue, build, new_rule, place,
}
use yunikorn_study.Placement.Answers.{IsThere, IsFailure, IsAnswer, place-IsAnswer, place-IsFailure}

-- A name below the root; the value of a fixed rule counts as one where it starts with "root".
abbrev pub IsBelowRoot : RuleFields → String → Type 0
IsBelowRoot conf name =
    (has_prefix "root." name ≡ true)
    ⊎ ((to_lower conf.name ≡ "fixed")
        × (name ≡ to_lower conf.value)
        × (has_prefix "root" name ≡ true))

module _ {Exp : Type 0} (compile : String → Option Exp) (match_string : Exp → String → Bool) where
  -- What a rule of the configuration may answer.
  abbrev pub IsPlaced : Partition → Application → RuleFields → Rule Exp → Answer → Type 0
  IsPlaced pi app conf r (found name) =
      (name ≡ "") ⊎ (IsBelowRoot conf name × IsThere pi conf.create name)
  IsPlaced pi app conf r a = IsFailure compile match_string pi app r a

  -- What `initialise` makes, but for the test rule.
  abbrev IsMade : RuleFields → Kind → Type 0
  IsMade conf (fixed queue qualified) =
      (to_lower conf.name ≡ "fixed")
      × (queue ≡ to_lower conf.value)
      × (qualified ≡ has_prefix "root" queue)
  IsMade conf test = ⊥
  IsMade conf _ = Unit

  some_kind : (conf : RuleFields) (k k' : Kind) → some k ≡ some k' → IsMade conf k → IsMade conf k'
  some_kind conf k k' e m = let same : k ≡ k' = cc in subst (IsMade conf) same m

  kind_of-IsMade :
      (conf : RuleFields) (has_parent : Bool) (k : Kind)
      → kind_of conf has_parent ≡ some k
      → (to_lower conf.name == "test") ≡ false
      → IsMade conf k
  unfolding kind_of
  kind_of-IsMade conf has_parent k e other =
      let name = to_lower conf.name in
      let value = to_lower conf.value in
      elim (Bool-cases (name == "user")) [
        | inl u ↦ some_kind conf user k (rw u at e) tt
        | inr u ↦ elim (Bool-cases (name == "fixed")) [
          | inl f ↦ elim (Bool-cases (value == "" || (has_prefix "root" value && has_parent))) [
            | inl bad ↦ cc (rw bad at (rw f at (rw u at e)))
            | inr good ↦
                some_kind conf (fixed value (has_prefix "root" value)) k
                  (rw good at (rw f at (rw u at e))) ((eq_iff name "fixed").0 f, refl, refl)
          ]
          | inr f ↦ elim (Bool-cases (name == "provided")) [
            | inl p ↦ some_kind conf provided k (rw p at (rw f at (rw u at e))) tt
            | inr p ↦ elim (Bool-cases (name == "tag")) [
              | inl t ↦ elim (Bool-cases (value == "")) [
                | inl bad ↦ cc (rw bad at (rw t at (rw p at (rw f at (rw u at e)))))
                | inr good ↦
                    some_kind conf (tag value) k
                      (rw good at (rw t at (rw p at (rw f at (rw u at e))))) tt
              ]
              | inr t ↦ cc (rw other at (rw t at (rw p at (rw f at (rw u at e)))))
            ]
          ]
        ]
      ]

  IsPlaced-answer :
      (pi : Partition) (app : Application) (conf : RuleFields) (k : Kind) (r : Rule Exp)
      (a : Answer)
      → IsMade conf k
      → IsAnswer compile match_string pi app r k conf.create a
      → IsPlaced pi app conf r a
  IsPlaced-answer pi app conf k r (found name) made (inl e) = inl e
  IsPlaced-answer pi app conf k r (found name) made (inr (inl t)) =
      absurd (subst (IsMade conf) t made)
  IsPlaced-answer pi app conf k r (found name) made (inr (inr (inl root, there))) =
      inr (inl root, there)
  IsPlaced-answer pi app conf k r (found name) made (inr (inr (inr same, there))) =
      let (is, value, root) = subst (IsMade conf) same made in
      inr (inr (is, value, sym root), there)
  IsPlaced-answer pi app conf k r (leaf_parent name) made h = h
  IsPlaced-answer pi app conf k r nil_queue made h = h

  built :
      (pi : Partition) (app : Application) (conf : RuleFields) (k : Option Kind)
      (parent : Option (Rule Exp)) (r : Rule Exp)
      → build compile match_string conf k parent ≡ some r
      → ((made : Kind) → k ≡ some made → IsMade conf made)
      → IsPlaced pi app conf r (place compile match_string pi app r)
  built pi app conf none parent r e made = cc
  built pi app conf (some k) none r e made = cc
  built pi app conf (some k) (some parent) r e made =
      let filter = new_filter compile match_string conf.filter in
      let same : rule k conf.create filter parent ≡ r = cc in
      subst (λ x. IsPlaced pi app conf x (place compile match_string pi app x)) same
        (IsPlaced-answer pi app conf k (rule k conf.create filter parent) _ (made k refl) (
          place-IsAnswer compile match_string pi app k conf.create filter parent
            (place-IsFailure compile match_string pi app parent)))

  -- A rule that is made from the configuration, other than the test rule, answers in one of four
  -- ways. It has no queue. It names a queue below the root, which is there unless the rule may
  -- create it: the name starts with "root.", or it is the value of a fixed rule and starts with
  -- "root". It gives an error, and then a rule up its chain of parents answered a queue that is a
  -- leaf. Or it meets a nil queue, and then a rule up its chain answered a name, and there is no
  -- queue of that name.
  pub place-IsPlaced :
      (pi : Partition) (app : Application) (conf : RuleFields) (parent : RuleConfig) (r : Rule Exp)
      → new_rule compile match_string (rule_config conf parent) ≡ some r
      → (to_lower conf.name == "test") ≡ false
      → IsPlaced pi app conf r (place compile match_string pi app r)
  unfolding new_rule
  place-IsPlaced pi app conf parent r e other =
      built pi app conf (kind_of conf (is_config parent)) (new_rule compile match_string parent) r e
        (λ k made. kind_of-IsMade conf (is_config parent) k made other)
