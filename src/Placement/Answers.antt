-- ===== src/Placement/Answers.antt =====
-- What a placement rule answers, and how its parent rules fail it (scheduler/placement).
use Prim.Native.String.{◌++◌}
use text.Mathlib.TextLemmas.{append_assoc}
use yunikorn_study.Prelude.{
  String, ℕ, ◌≡◌, refl, ◌⊎◌, inl, inr, Option, none, some, Bool, true, false, not, ◌&&◌, ◌==◌,
  Option-cases, Bool-cases,
}
use mathlib.Core.Path.{subst}
use yunikorn_study.Text.Names.{has_prefix, has_prefix-append, has_prefix_more, replace_dot}
use yunikorn_study.Queue.{Queue}
use yunikorn_study.Application.{Application, get_tag}
use yunikorn_study.Partition.Monad.{Partition}
use yunikorn_study.Partition.Defs.{get_queue}
use yunikorn_study.Placement.Filter.{Filter, allow_user}
use yunikorn_study.Placement.Rules.{
  Kind, user, provided, test, fixed, tag, Rule, no_rule, rule, Answer, found, leaf_parent,
  nil_queue, Parent, below, answered, qualify, check_parent, from_parent, parent_queue, must_exist,
  existing, under, place_kind, place,
}

-- The rules that a rule asks: its parent, the parent of that one, and so on.
pub data IsAbove {Exp : Type 0} : Rule Exp → Rule Exp → Type 0 where
  next : {k : Kind} {c : Bool} {f : Filter Exp} {p : Rule Exp} → IsAbove p (rule k c f p)
  further :
      {k : Kind} {c : Bool} {f : Filter Exp} {u p : Rule Exp}
      → IsAbove u p
      → IsAbove u (rule k c f p)

-- The queue is there if the rule must not create it.
abbrev pub IsThere : Partition → Bool → String → Type 0
IsThere pi create name = (create ≡ true) ⊎ ((p : ℕ) × (get_queue pi name ≡ some p))

-- A name below the root, which the value of a fixed rule may count as.
abbrev pub IsRooted : Kind → String → Type 0
IsRooted kind name = (has_prefix "root." name ≡ true) ⊎ (kind ≡ fixed name true)

module _ {Exp : Type 0} (compile : String → Option Exp) (match_string : Exp → String → Bool) where
  -- A queue name that a rule above answered, in full.
  pub record IsAsked (pi : Partition) (app : Application) (r : Rule Exp) (name : String)
      : Type 0 where
    pub asked : Rule Exp
    pub is_above : IsAbove asked r
    pub short : String
    pub answer : place compile match_string pi app asked ≡ found short
    pub not_empty : (short == "") ≡ false
    pub full : name ≡ qualify compile match_string short

  -- An error names a queue that a rule above answered and that is a leaf; a nil queue is one that a
  -- rule above answered and that is not there.
  abbrev pub IsFailure : Partition → Application → Rule Exp → Answer → Type 0
  IsFailure pi app r (found name) = Unit
  IsFailure pi app r (leaf_parent name) =
      IsAsked pi app r name
      × ((p : ℕ) × ((q : Queue) × (get_queue pi name ≡ some p)
            × (pi.queues.cell p ≡ some q)
            × (q.is_leaf ≡ true)))
  IsFailure pi app r nil_queue =
      (name : String) × (IsAsked pi app r name
        × ((get_queue pi name ≡ none)
            ⊎ ((p : ℕ) × (get_queue pi name ≡ some p) × (pi.queues.cell p ≡ none))))

  IsAsked-further :
      {k : Kind} {c : Bool} {f : Filter Exp} {pi : Partition} {app : Application} {p : Rule Exp}
      {name : String}
      → IsAsked pi app p name
      → IsAsked pi app (rule k c f p) name
  IsAsked-further h = record {
    asked = h.asked;
    is_above = further h.is_above;
    short = h.short;
    answer = h.answer;
    not_empty = h.not_empty;
    full = h.full;
  }

  module _ (pi : Partition) (app : Application) where
    -- What any rule may answer; the test rule answers any name.
    abbrev pub IsAnswer : Rule Exp → Kind → Bool → Answer → Type 0
    IsAnswer r kind create (found name) =
        (name ≡ "") ⊎ ((kind ≡ test) ⊎ (IsRooted kind name × IsThere pi create name))
    IsAnswer r kind create a = IsFailure pi app r a

    fails :
        (r : Rule Exp) (kind : Kind) (create : Bool) (a : Answer)
        → IsAnswer r kind create a
        → IsFailure pi app r a
    fails r kind create (found name) h = tt
    fails r kind create (leaf_parent name) h = h
    fails r kind create nil_queue h = h

    further_fails :
        (k : Kind) (c : Bool) (f : Filter Exp) (p : Rule Exp) (a : Answer)
        → IsFailure pi app p a
        → IsFailure pi app (rule k c f p) a
    further_fails k c f p (found name) h = tt
    further_fails k c f p (leaf_parent name) (asked, leaf) = (IsAsked-further asked, leaf)
    further_fails k c f p nil_queue (name, (asked, gone)) = (name, (IsAsked-further asked, gone))

    must_exist-IsAnswer :
        (r : Rule Exp) (kind : Kind) (create : Bool) (name : String) (o : Option ℕ)
        → get_queue pi name ≡ o
        → IsRooted kind name
        → IsAnswer r kind create (must_exist compile match_string create name o)
    must_exist-IsAnswer r kind true name none e h = inr (inr (h, inl refl))
    must_exist-IsAnswer r kind false name none e h = inl refl
    must_exist-IsAnswer r kind create name (some p) e h = inr (inr (h, inr (p, e)))

    existing-IsAnswer :
        (r : Rule Exp) (kind : Kind) (create : Bool) (name : String)
        → IsRooted kind name
        → IsAnswer r kind create (existing compile match_string pi create name)
    existing-IsAnswer r kind create name h =
        must_exist-IsAnswer r kind create name (get_queue pi name) refl h

    -- What is below a parent queue is below the root, and the parent rule gives no place of its own.
    abbrev IsParent : Rule Exp → Parent → Type 0
    IsParent r (below name) = (s : String) → has_prefix "root." (name ++ ("." ++ s)) ≡ true
    IsParent r (answered (found name)) = name ≡ ""
    IsParent r (answered a) = IsFailure pi app r a

    qualify-root : (name : String) → has_prefix "root." (qualify compile match_string name) ≡ true
    qualify-root name = elim (Bool-cases (has_prefix "root." name)) [
      | inl h ↦ rw h h
      | inr h ↦ rw h (has_prefix-append "root." name)
    ]

    check_parent-IsParent :
        (r : Rule Exp) (name : String) (o : Option ℕ)
        → IsAsked pi app r name
        → get_queue pi name ≡ o
        → has_prefix "root." name ≡ true
        → IsParent r (check_parent compile match_string pi name o)
    check_parent-IsParent r name none asked e h = (name, (asked, inl e))
    check_parent-IsParent r name (some p) asked e h = elim (Option-cases (pi.queues.cell p)) [
      | inl c ↦ rw (c, check_parent) (name, (asked, inr (p, e, c)))
      | inr (q, c) ↦ elim (Bool-cases q.is_leaf) [
        | inl l ↦ rw (c, check_parent) (rw l (asked, (p, (q, e, c, l))))
        | inr l ↦ rw (c, check_parent) (rw l (λ s. has_prefix_more "root." name ("." ++ s) h))
      ]
    ]

    from_parent-IsParent :
        (k : Kind) (c : Bool) (f : Filter Exp) (p : Rule Exp) (a : Answer)
        → place compile match_string pi app p ≡ a
        → IsFailure pi app p a
        → IsParent (rule k c f p) (from_parent compile match_string pi a)
    from_parent-IsParent k c f p (found name) e h = elim (Bool-cases (name == "")) [
      | inl n ↦ rw n refl
      | inr n ↦
          let asked : IsAsked pi app (rule k c f p) (qualify compile match_string name) = record {
            asked = p;
            is_above = next;
            short = name;
            answer = e;
            not_empty = n;
            full = refl;
          } in
          rw n (
            check_parent-IsParent (rule k c f p) (qualify compile match_string name)
              (get_queue pi (qualify compile match_string name)) asked refl (qualify-root name))
    ]
    from_parent-IsParent k c f p (leaf_parent name) e h = further_fails k c f p (leaf_parent name) h
    from_parent-IsParent k c f p nil_queue e h = further_fails k c f p nil_queue h

    parent_queue-IsParent :
        (k : Kind) (c : Bool) (f : Filter Exp) (p : Rule Exp) (a : Answer)
        → place compile match_string pi app p ≡ a
        → IsFailure pi app p a
        → IsParent (rule k c f p) (parent_queue compile match_string pi p a)
    parent_queue-IsParent k c f no_rule a e h = λ s.
        subst (λ x. has_prefix "root." x ≡ true) (append_assoc "root" "." s)
          (has_prefix-append "root." s)
    parent_queue-IsParent k c f (rule kind create filter parent) a e h =
        from_parent-IsParent k c f (rule kind create filter parent) a e h

    under-IsAnswer :
        (r : Rule Exp) (kind : Kind) (create : Bool) (up : Parent) (name : String)
        → IsParent r up
        → IsAnswer r kind create (under compile match_string pi create up name)
    under-IsAnswer r kind create (below parent) name h =
        existing-IsAnswer r kind create (parent ++ ("." ++ name)) (inl (h name))
    under-IsAnswer r kind create (answered (found name)) other h = inl h
    under-IsAnswer r kind create (answered (leaf_parent name)) other h = h
    under-IsAnswer r kind create (answered nil_queue) other h = h

    place_kind-IsAnswer :
        (r : Rule Exp) (kind : Kind) (create : Bool) (filter : Filter Exp) (up : Parent)
        → IsParent r up
        → IsAnswer r kind create (place_kind compile match_string pi app kind create filter up)
    place_kind-IsAnswer r user create filter up h =
        elim (Bool-cases (allow_user compile match_string filter app.user)) [
          | inl a ↦ rw a (under-IsAnswer r user create up (replace_dot app.user.user) h)
          | inr a ↦ rw a (inl refl)
        ]
    place_kind-IsAnswer r provided create filter up h =
        elim (Bool-cases
          (not (app.queue_name == "") && allow_user compile match_string filter app.user)) [
            | inl a ↦ elim (Bool-cases (has_prefix "root." app.queue_name)) [
              | inl q ↦ rw a (rw q (existing-IsAnswer r provided create app.queue_name (inl q)))
              | inr q ↦
                  rw a (rw q (under-IsAnswer r provided create up (replace_dot app.queue_name) h))
            ]
            | inr a ↦ rw a (inl refl)
          ]
    place_kind-IsAnswer r test create filter up h = elim (Bool-cases (app.queue_name == "")) [
      | inl n ↦ rw n (inr (inl refl))
      | inr n ↦ rw n (inr (inl refl))
    ]
    place_kind-IsAnswer r (fixed queue qualified) create filter up h =
        elim (Bool-cases (allow_user compile match_string filter app.user)) [
          | inl a ↦ elim (Bool-cases qualified) [
            | inl q ↦ rw a (rw q (existing-IsAnswer r (fixed queue true) create queue (inr refl)))
            | inr q ↦ rw a (rw q (under-IsAnswer r (fixed queue false) create up queue h))
          ]
          | inr a ↦ rw a (inl refl)
        ]
    place_kind-IsAnswer r (tag name) create filter up h =
        let value = get_tag app name in
        elim (Bool-cases (not (value == "") && allow_user compile match_string filter app.user)) [
          | inl a ↦ elim (Bool-cases (has_prefix "root." value)) [
            | inl q ↦ rw a (rw q (existing-IsAnswer r (tag name) create value (inl q)))
            | inr q ↦ rw a (rw q (under-IsAnswer r (tag name) create up (replace_dot value) h))
          ]
          | inr a ↦ rw a (inl refl)
        ]

    pub place-IsAnswer :
        (k : Kind) (c : Bool) (f : Filter Exp) (p : Rule Exp)
        → IsFailure pi app p (place compile match_string pi app p)
        → IsAnswer (rule k c f p) k c (place compile match_string pi app (rule k c f p))
    unfolding place
    place-IsAnswer k c f p h =
        place_kind-IsAnswer (rule k c f p) k c f
          (parent_queue compile match_string pi p (place compile match_string pi app p))
          (parent_queue-IsParent k c f p (place compile match_string pi app p) refl h)

    pub place-IsFailure : (r : Rule Exp) → IsFailure pi app r (place compile match_string pi app r)
    place-IsFailure no_rule = unfold place in tt
    place-IsFailure (rule k c f p) =
        fails (rule k c f p) k c (place compile match_string pi app (rule k c f p))
          (place-IsAnswer k c f p (place-IsFailure p))
