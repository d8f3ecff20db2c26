-- ===== src/Config/Names.antt =====
-- The names of one level that `checkQueues` of common/configs/configvalidator.go accepts.
use yunikorn_study.Prelude.{
  String, ℕ, ◌≡◌, ◌↔◌, refl, ◌∙◌, ap, inl, inr, Option, none, some, Bool, true, false, ◌||◌, [],
  ◌==◌, eq_iff, arith, if◌then◌else◌, Bool-cases,
}
use yunikorn_study.Dict.{Dict, lookup, insert, lookup-insert}
use yunikorn_study.Text.{to_lower}
use yunikorn_study.Acl.{is_member}
use yunikorn_study.Queue.Config.{queue_config, QueueConfigs, no_queues, and_queue, is_queue_name}
use yunikorn_study.Config.{check_names}

abbrev pub is_named : String → QueueConfigs → Bool
is_named name no_queues = false
is_named name (and_queue (queue_config conf below) others) =
    to_lower conf.name == name || is_named name others

-- The names of one level are proper, and no two are the same but for their case.
abbrev pub AreNames : QueueConfigs → Type 0
AreNames no_queues = Unit
AreNames (and_queue (queue_config conf below) others) =
    (is_queue_name conf.name ≡ true)
    × (is_named (to_lower conf.name) others ≡ false)
    × AreNames others

-- The names are none of those seen.
abbrev pub AreUnseen : QueueConfigs → Dict Bool → Type 0
AreUnseen no_queues seen = Unit
AreUnseen (and_queue (queue_config conf below) others) seen =
    (is_member (to_lower conf.name) seen ≡ false) × AreUnseen others seen

pub AreUnseen-nil : (queues : QueueConfigs) → AreUnseen queues []
unfolding lookup
AreUnseen-nil no_queues = tt
AreUnseen-nil (and_queue (queue_config conf below) others) = (refl, AreUnseen-nil others)

test_swap : (a b : String) → (a == b) ≡ (b == a)
test_swap a b = ground (arith, eq_iff a b, eq_iff b a)

pub is_member-insert :
    (name k : String) (seen : Dict Bool)
    → is_member k (insert name true seen) ≡ (if name == k then true else is_member k seen)
is_member-insert name k seen = ap is_in (lookup-insert name k true seen) ∙ by_test (name == k)
  where
    is_in : Option Bool → Bool
    is_in o = elim o [ none ↦ false | some b ↦ b ]

    by_test :
        (b : Bool)
        → is_in (if b then some true else lookup k seen) ≡ (if b then true else is_member k seen)
    by_test true = refl
    by_test false = refl

AreUnseen-insert :
    (queues : QueueConfigs) (name : String) (seen : Dict Bool)
    → AreUnseen queues (insert name true seen)
      ↔ (AreUnseen queues seen × (is_named name queues ≡ false))
AreUnseen-insert no_queues name seen = (λ u. (tt, refl), λ u. tt)
AreUnseen-insert (and_queue (queue_config conf below) others) name seen =
    let rest = AreUnseen-insert others name seen in
    let lower = to_lower conf.name in
    (
      λ (m, u).
          let e = rw (is_member-insert name lower seen) at m in
          let (u', n) = rest.0 u in
          elim (Bool-cases (name == lower)) [
            | inl t ↦ cc (rw t at e)
            | inr t ↦ ((rw t at e, u'), rw (test_swap lower name, t) n)
          ],
      λ ((m, u), n). elim (Bool-cases (lower == name)) [
        | inl t ↦ cc (rw t at n)
        | inr t ↦ (
          is_member-insert name lower seen ∙ rw (test_swap name lower, t) m,
          rest.1 (u, rw t at n),
        )
      ],
    )

pub check_names_iff :
    (queues : QueueConfigs) (seen : Dict Bool) (level : ℕ)
    → (check_names queues seen level ≡ none) ↔ (AreNames queues × AreUnseen queues seen)
unfolding check_names
check_names_iff no_queues seen level = (λ e. (tt, tt), λ h. refl)
check_names_iff (and_queue (queue_config conf below) others) seen level =
    let rest = check_names_iff others (insert (to_lower conf.name) true seen) level in
    let unseen = AreUnseen-insert others (to_lower conf.name) seen in
    (
      λ e. elim (Bool-cases (is_queue_name conf.name)) [
        | inr n ↦ cc (rw (n, check_names) at e)
        | inl n ↦ elim (Bool-cases (is_member (to_lower conf.name) seen)) [
          | inl m ↦ cc (rw m at (rw (n, check_names) at e))
          | inr m ↦
              let (names, u) = rest.0 (rw m at (rw (n, check_names) at e)) in
              let (u', t) = unseen.0 u in ((n, t, names), (m, u'))
        ]
      ],
      λ ((n, t, names), (m, u)). rw (n, check_names) (rw m (rest.1 (names, unseen.1 (u, t)))),
    )
