-- ===== src/Placement/Chosen.antt =====
-- What trying the rules in order comes to (`PlaceApplication` of scheduler/placement/placement.go):
-- the queue whose ACLs decide and the rule that chose it.
use Prim.Native.String.{count}
use mathlib.Core.Path.{subst}
use yunikorn_study.Prelude.{
  String, ℕ, zero, suc, ◌≡◌, refl, ◌<◌, ◌⊎◌, inl, inr, Option, none, some, Bool, true, false, List,
  [], ◌∷◌, ◌==◌, arith, Option-cases, Bool-cases, eq_iff, ap, ◌∙◌,
}
use yunikorn_study.Text.Names.{before_last_dot, count-before_last_dot}
use yunikorn_study.Acl.{UserGroup}
use yunikorn_study.Application.{Application}
use yunikorn_study.Queue.{Heap}
use yunikorn_study.Queue.Climb.{IsTree}
use yunikorn_study.Queue.Heaps.{IsHeap, IsQueue}
use yunikorn_study.Queue.Links.{IsLinked}
use yunikorn_study.Queue.Manage.{check_submit_access, allows_submit}
use yunikorn_study.Queue.Allocate.{is_on_path}
use yunikorn_study.Queue.Access.{Grants, check_access-Grants}
use yunikorn_study.Partition.Monad.{Partition}
use yunikorn_study.Partition.Defs.{get_queue}
use yunikorn_study.Partition.Create.{
  CreateError, create_queues, create_queues-IsHeap, get_queue-IsQueue, get_queue_single,
}
use yunikorn_study.Placement.Rules.{Rule, Answer, found, leaf_parent, nil_queue, place}
use yunikorn_study.Placement.Manager.{
  PlaceError, no_rule_matched, rule_failed, not_created, Placement, placed, refused, nearest,
  if_allowed, after_create, place_named, place_answer, try_rules,
}

-- The partition that placements need: a tree of queues whose children and root are queues.
pub record IsReady (pi : Partition) : Type 0 where
  pub heap : IsHeap pi.queues
  pub linked : IsLinked pi.queues
  pub root : IsQueue pi.queues pi.root

check_submit_ends :
    (h : Heap) (p : ℕ) (user : UserGroup)
    → IsTree h
    → IsQueue h p
    → ¬ (check_submit_access h p user ≡ none)
check_submit_ends h p user tree (q, c) e =
    subst (Grants (allows_submit user) h (is_on_path h p)) e
      (check_access-Grants h p q user tree c).0

nearest_ends :
    (fuel : ℕ) (pi : Partition) (current : String)
    → count current < fuel
    → get_queue pi current ≡ none
    → (p : ℕ) × (nearest fuel pi current ≡ some p)
      × ((shorter : String) × (get_queue pi shorter ≡ some p))
unfolding nearest
nearest_ends zero pi current l g = absurd (omega arith)
nearest_ends (suc fuel) pi current l g = elim (Option-cases (before_last_dot current)) [
  | inl b ↦ cc (g, get_queue_single pi current b)
  | inr (shorter, b) ↦ elim (Option-cases (get_queue pi shorter)) [
    | inr (p, s) ↦ (p, rw (b, nearest) (rw s refl), (shorter, s))
    | inl s ↦
        let less = count-before_last_dot current shorter b in
        let (p, e, from) = nearest_ends fuel pi shorter (omega arith) s in
        (p, rw (b, nearest) (rw s e), from)
  ]
]

-- The queue whose ACLs decide on a name: the one of that name, or the nearest one above it.
abbrev pub IsNearest : Partition → String → ℕ → Type 0
IsNearest pi name p =
    (get_queue pi name ≡ some p)
    ⊎ ((get_queue pi name ≡ none) × (nearest (suc (count name)) pi name ≡ some p))

-- The same with what becomes of the partition: nothing is made for a queue that is there, and
-- `CreateQueues` makes the rest for another.
abbrev pub IsSpot : Partition → String → ℕ → Partition → Type 0
IsSpot pi name p pi' =
    ((get_queue pi name ≡ some p) × (pi' ≡ pi))
    ⊎ ((get_queue pi name ≡ none)
        × (nearest (suc (count name)) pi name ≡ some p)
        × (create_queues pi name ≡ some (pi', none)))

module _ {Exp : Type 0} (compile : String → Option Exp) (match_string : Exp → String → Bool) where
  -- A rule that the loop goes on from: it has no queue, or the user may not submit to the queue whose
  -- ACLs decide.
  abbrev pub IsPassed : Partition → Application → Rule Exp → Type 0
  IsPassed pi app r =
      (place compile match_string pi app r ≡ found "")
      ⊎ ((name : String) × ((p : ℕ) × (place compile match_string pi app r ≡ found name)
            × IsNearest pi name p
            × (check_submit_access pi.queues p app.user ≡ some false)))

  -- The first rule of a list that is not passed over.
  pub data IsFirst (pi : Partition) (app : Application) (r : Rule Exp)
      : List (Rule Exp) → Type 0 where
    first_rule : {rules : List (Rule Exp)} → IsFirst pi app r (r ∷ rules)
    after_rule :
        {s : Rule Exp} {rules : List (Rule Exp)}
        → IsPassed pi app s
        → IsFirst pi app r rules
        → IsFirst pi app r (s ∷ rules)

  abbrev pub AllPassed : Partition → Application → List (Rule Exp) → Type 0
  AllPassed pi app [] = Unit
  AllPassed pi app (r ∷ rules) = IsPassed pi app r × AllPassed pi app rules

  -- The errors: every rule is passed over; or the first that is not fails at a parent that is a leaf,
  -- or its queue cannot be made.
  abbrev pub IsRefused : Partition → Application → List (Rule Exp) → PlaceError → Type 0
  IsRefused pi app rules e =
      ((e ≡ no_rule_matched) × AllPassed pi app rules)
      ⊎ ((r : Rule Exp) × (IsFirst pi app r rules
            × (((name : String) × ((place compile match_string pi app r ≡ leaf_parent name)
                    × (e ≡ rule_failed name)))
                ⊎ ((name : String) × ((pi' : Partition) × ((x : CreateError) × (place compile
                            match_string pi app r
                          ≡ found name)
                        × (get_queue pi name ≡ none)
                        × (create_queues pi name ≡ some (pi', some x))
                        × (e ≡ not_created x)))))))

  -- A name that the first rule that is not passed over answered, with access to the nearest queue.
  pub record Chosen (pi : Partition) (app : Application) (rules : List (Rule Exp)) (pi' : Partition)
      (name : String) : Type 0 where
    pub rule : Rule Exp
    pub is_first : IsFirst pi app rule rules
    pub answer : place compile match_string pi app rule ≡ found name
    pub nearest_queue : ℕ
    pub is_spot : IsSpot pi name nearest_queue pi'
    pub granted : check_submit_access pi.queues nearest_queue app.user ≡ some true

  abbrev pub IsChosen : Partition → Application → List (Rule Exp) → Option Placement → Type 0
  IsChosen pi app rules none =
      (r : Rule Exp) × (IsFirst pi app r rules × (place compile match_string pi app r ≡ nil_queue))
  IsChosen pi app rules (some (refused e)) = IsRefused pi app rules e
  IsChosen pi app rules (some (placed pi' name)) = Chosen pi app rules pi' name

  later :
      (pi : Partition) (app : Application) (r : Rule Exp) (rules : List (Rule Exp))
      (o : Option Placement)
      → IsPassed pi app r
      → IsChosen pi app rules o
      → IsChosen pi app (r ∷ rules) o
  later pi app r rules none p (s, (m, e)) = (s, (after_rule p m, e))
  later pi app r rules (some (refused e)) p (inl (same, all)) = inl (same, (p, all))
  later pi app r rules (some (refused e)) p (inr (s, (m, why))) = inr (s, (after_rule p m, why))
  later pi app r rules (some (placed pi' name)) p h = record {
    rule = h.rule;
    is_first = after_rule p h.is_first;
    answer = h.answer;
    nearest_queue = h.nearest_queue;
    is_spot = h.is_spot;
    granted = h.granted;
  }

  module _ (pi : Partition) (app : Application) (r : Rule Exp) (rules : List (Rule Exp))
      (next : Option Placement) (ready : IsReady pi) (rest : IsChosen pi app rules next) where
    allowed :
        (name : String) (p : ℕ) (go : Option Placement) (access : Option Bool)
        → check_submit_access pi.queues p app.user ≡ access
        → IsQueue pi.queues p
        → place compile match_string pi app r ≡ found name
        → IsNearest pi name p
        → (access ≡ some true → IsChosen pi app (r ∷ rules) go)
        → IsChosen pi app (r ∷ rules) (if_allowed access go next)
    allowed name p go none e q a n h =
        absurd (check_submit_ends pi.queues p app.user ready.heap.tree q e)
    allowed name p go (some true) e q a n h = h refl
    allowed name p go (some false) e q a n h =
        later pi app r rules next (inr (name, (p, a, n, e))) rest

    created :
        (name : String) (p : ℕ) (o : Option (Partition × Option CreateError))
        → create_queues pi name ≡ o
        → place compile match_string pi app r ≡ found name
        → get_queue pi name ≡ none
        → nearest (suc (count name)) pi name ≡ some p
        → check_submit_access pi.queues p app.user ≡ some true
        → IsChosen pi app (r ∷ rules) (after_create name o)
    created name p none e a m n g =
        let (pi', (x, ok, _, _, _, _, _)) =
          create_queues-IsHeap pi name ready.heap ready.linked ready.root in
        cc
    created name p (some (pi', none)) e a m n g = record {
      rule = r;
      is_first = first_rule;
      answer = a;
      nearest_queue = p;
      is_spot = inr (m, n, e);
      granted = g;
    }
    created name p (some (pi', some x)) e a m n g =
        inr (r, (first_rule, inr (name, (pi', (x, a, m, e, refl)))))

    named :
        (name : String) (o : Option ℕ)
        → get_queue pi name ≡ o
        → place compile match_string pi app r ≡ found name
        → IsChosen pi app (r ∷ rules) (place_named pi app name o next)
    named name (some p) e a =
        allowed name p (some (placed pi name)) (check_submit_access pi.queues p app.user) refl
          (get_queue-IsQueue pi name p ready.linked ready.root e) a (inl e)
          (λ g. record {
            rule = r;
            is_first = first_rule;
            answer = a;
            nearest_queue = p;
            is_spot = inl (e, refl);
            granted = g;
          })
    named name none e a =
        let (p, n, (shorter, s)) = nearest_ends (suc (count name)) pi name (omega arith) e in
        rw n (
          allowed name p (after_create name (create_queues pi name))
            (check_submit_access pi.queues p app.user) refl
            (get_queue-IsQueue pi shorter p ready.linked ready.root s) a (inr (e, n))
            (λ g. created name p (create_queues pi name) refl a e n g))

    answered :
        (a : Answer)
        → place compile match_string pi app r ≡ a
        → IsChosen pi app (r ∷ rules) (place_answer pi app a next)
    answered nil_queue e = (r, (first_rule, e))
    answered (leaf_parent name) e = inr (r, (first_rule, inl (name, (e, refl))))
    answered (found name) e = elim (Bool-cases (name == "")) [
      | inl c ↦ rw c (later pi app r rules next (inl (e ∙ ap found ((eq_iff name "").0 c))) rest)
      | inr c ↦ rw c (named name (get_queue pi name) refl e)
    ]

  pub try_rules-IsChosen :
      (pi : Partition) (app : Application) (rules : List (Rule Exp))
      → IsReady pi
      → IsChosen pi app rules (try_rules compile match_string pi app rules)
  unfolding try_rules
  try_rules-IsChosen pi app [] ready = inl (refl, tt)
  try_rules-IsChosen pi app (r ∷ rules) ready =
      answered pi app r rules (try_rules compile match_string pi app rules) ready
        (try_rules-IsChosen pi app rules ready) (place compile match_string pi app r) refl
