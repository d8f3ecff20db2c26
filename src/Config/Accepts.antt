-- ===== src/Config/Accepts.antt =====
-- What `checkQueues` of common/configs/configvalidator.go accepts.
use Prim.Native.Nat.{◌≤◌}
use mathlib.Core.Path.{subst}
use yunikorn_study.Prelude.{
  String, ℕ, suc, ◌≡◌, ◌↔◌, ◌⊎◌, refl, sym, inl, inr, Option, none, some, ◌||◌, [], ◌∷◌, ◌==◌,
  eq_iff, arith, ltb, length, if◌then◌else◌, Bool-cases, Option-cases,
}
use yunikorn_study.Dict.{Dict}
use yunikorn_study.Quantity.{Quantity}
use yunikorn_study.Text.{trim_space, fields}
use yunikorn_study.Queue.Config.{
  QueueFields, queue_config, QueueConfigs, no_queues, and_queue, parse_int,
}
use yunikorn_study.Config.Names.{AreNames, AreUnseen-nil, check_names_iff}
use yunikorn_study.Config.{
  ConfigError, acl_spaces, ◌then_check◌, check_acl, check_resource, check_limit, check_resources,
  check_queues, check_each,
}

-- Every quantity of a limit is the text of an int64.
abbrev pub AllParse : Dict String → Type 0
AllParse [] = Unit
AllParse ((key, text) ∷ m) = ((v : Quantity) × (parse_int text ≡ some v)) × AllParse m

abbrev pub LimitParses : Option (Dict String) → Type 0
LimitParses none = Unit
LimitParses (some m) = AllParse m

-- A wildcard, or at most two words.
abbrev pub HasFewWords : String → Type 0
HasFewWords text = (trim_space text ≡ "*") ⊎ (length (fields (trim_space text)) ≤ 2)

-- All that is asked of one queue but of its children.
abbrev pub IsRight : QueueFields → Type 0
IsRight conf =
    LimitParses conf.guaranteed
    × LimitParses conf.max
    × HasFewWords conf.admin_acl
    × HasFewWords conf.submit_acl

-- All that is asked of the queues of one level and below.
abbrev pub AreRight : QueueConfigs → Type 0
AreRight no_queues = Unit
AreRight (and_queue (queue_config conf below) others) =
    IsRight conf × AreNames below × AreRight below × AreRight others

AllParse-iff : (m : Dict String) → (check_resource m ≡ none) ↔ AllParse m
unfolding check_resource
AllParse-iff [] = (λ e. tt, λ h. refl)
AllParse-iff ((key, text) ∷ m) =
    let rest = AllParse-iff m in
    (
      λ e. elim (Option-cases (parse_int text)) [
        | inl n ↦ cc (rw (n, check_resource) at e)
        | inr (v, n) ↦ ((v, n), rest.0 (rw (n, check_resource) at e))
      ],
      λ ((v, n), h). rw (n, check_resource) (rest.1 h),
    )

LimitParses-iff : (o : Option (Dict String)) → (check_limit o ≡ none) ↔ LimitParses o
LimitParses-iff none = (λ e. tt, λ h. refl)
LimitParses-iff (some m) = AllParse-iff m

no_words : length (fields "") ≤ 2
unfolding fields
no_words = omega arith

HasFewWords-iff : (text : String) → (check_acl text ≡ none) ↔ HasFewWords text
unfolding check_acl
HasFewWords-iff text = words (trim_space text)
  where
    words :
        (acl : String)
        → ((if acl == "" || acl == "*"
              then none
              else (if ltb 2 (length (fields acl)) then some (acl_spaces acl) else none))
            ≡ none)
          ↔ ((acl ≡ "*") ⊎ (length (fields acl) ≤ 2))
    words acl = elim (Bool-cases (acl == "")) [
      | inl t ↦
          let few = subst (λ x. length (fields x) ≤ 2) (sym ((eq_iff acl "").0 t)) no_words in
          (λ e. inr few, λ h. rw t refl)
      | inr t ↦ elim (Bool-cases (acl == "*")) [
        | inl w ↦ (λ e. inl ((eq_iff acl "*").0 w), λ h. rw (t, w) refl)
        | inr w ↦ elim (Bool-cases (ltb 2 (length (fields acl)))) [
          | inl l ↦ (
            λ e. cc (rw (t, w, l) at e),
            λ h. elim h [ inl e ↦ cc (w, (eq_iff acl "*").1 e) | inr few ↦ absurd (ground arith) ],
          )
          | inr l ↦ (λ e. inr (ground arith), λ h. rw (t, w, l) refl)
        ]
      ]
    ]

then_check_iff : (a b : Option ConfigError) → ((a then_check b) ≡ none) ↔ ((a ≡ none) × (b ≡ none))
then_check_iff none b = (λ e. (refl, e), λ h. h.1)
then_check_iff (some x) b = (λ e. cc, λ h. cc (h.0))

check_each_iff :
    (queues : QueueConfigs) (level : ℕ) → (check_each queues level ≡ none) ↔ AreRight queues
unfolding check_each check_queues check_resources
check_each_iff no_queues level = (λ e. tt, λ h. refl)
check_each_iff (and_queue (queue_config conf below) others) level =
    let names = check_names_iff below [] level in
    let under = check_each_iff below (suc level) in
    let after = check_each_iff others level in
    let guaranteed = LimitParses-iff conf.guaranteed in
    let max = LimitParses-iff conf.max in
    let admin = HasFewWords-iff conf.admin_acl in
    let submit = HasFewWords-iff conf.submit_acl in
    (
      λ e.
          let (one, rest) = (then_check_iff _ _).0 e in
          let (limits, a) = (then_check_iff _ _).0 one in
          let (g, m) = (then_check_iff _ _).0 limits in
          let (x, b) = (then_check_iff _ _).0 a in
          let (y, c) = (then_check_iff _ _).0 b in
          let (n, d) = (then_check_iff _ _).0 c in
          (
            (guaranteed.0 g, max.0 m, admin.0 x, submit.0 y),
            (names.0 n).0,
            under.0 d,
            after.0 rest,
          ),
      λ ((g, m, x, y), n, d, rest). (then_check_iff _ _).1 (
        (then_check_iff _ _).1 (
          (then_check_iff _ _).1 (guaranteed.1 g, max.1 m),
          (then_check_iff _ _).1 (
            admin.1 x,
            (then_check_iff _ _).1
                (submit.1 y, (then_check_iff _ _).1 (names.1 (n, AreUnseen-nil below), under.1 d)),
          ),
        ),
        after.1 rest,
      ),
    )

-- `checkQueues` accepts a queue exactly if, there and in every queue below, the limits are texts of an
-- int64, each ACL is a wildcard or at most two words, and the names of the children are proper and
-- differ by more than their case.
pub check_queues_iff :
    (conf : QueueFields) (below : QueueConfigs) (level : ℕ)
    → (check_queues (queue_config conf below) level ≡ none)
      ↔ (IsRight conf × AreNames below × AreRight below)
unfolding check_each
check_queues_iff conf below level =
    let all = check_each_iff (and_queue (queue_config conf below) no_queues) level in
    let last = then_check_iff (check_queues (queue_config conf below) level) none in
    (
      λ e. let (right, names, rest, _) = all.0 (last.1 (e, refl)) in (right, names, rest),
      λ (right, names, rest). (last.0 (all.1 (right, names, rest, tt))).0,
    )
