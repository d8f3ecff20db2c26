-- ===== src/Config/Built.antt =====
-- The queues of a configuration that passes the checks are all made (`addQueueInfo` of
-- cache/partition_info.go after `checkQueues` of common/configs/configvalidator.go).
use mathlib.Core.Path.{subst}
use yunikorn_study.Prelude.{
  String, ℕ, suc, ◌≡◌, refl, sym, ◌∙◌, ap, inl, inr, Option, none, some, Bool, true, false, not,
  ◌&&◌, [], ◌==◌, eq_iff, Bool-cases,
}
use yunikorn_study.Dict.{Dict, lookup, insert, lookup-insert, lookup-insert_eq}
use yunikorn_study.Text.{to_lower}
use yunikorn_study.Acl.{is_member}
use yunikorn_study.State.{is_draining}
use yunikorn_study.Queue.{Queue, Heap}
use yunikorn_study.Queue.Manage.{put_child}
use yunikorn_study.Queue.Config.{
  QueueFields, queue_config, QueueConfigs, no_queues, and_queue, has_queues, is_queue_name,
  add_queue_info, go_on, go_below,
}
use yunikorn_study.Queue.Heaps.{IsHeap}
use yunikorn_study.Queue.Links.{IsLinked}
use yunikorn_study.Config.{check_resources, check_acl, check_names, check_queues, check_each}
use yunikorn_study.Config.Names.{is_member-insert}
use yunikorn_study.Config.Props.{IsPlainAcl, IsConfigured, both_checked}
use yunikorn_study.Config.Extends.{
  IsLater, ExtendsAt, ExtendsAt-trans, ExtendsAt-refl, ExtendsAt-IsExtension, HasEach,
  HasEach-IsExtension, IsConfigured-later,
}
use yunikorn_study.Config.Child.{AddsChild, new_managed_queue-AddsChild}

-- No ACL text of the queues has more than one space, as `NewACL` asks for.
unfoldable pub HavePlainAcls : QueueConfigs → Type 0
HavePlainAcls no_queues = Unit
HavePlainAcls (and_queue (queue_config conf below) queues) =
    IsPlainAcl conf.submit_acl
    × IsPlainAcl conf.admin_acl
    × HavePlainAcls below
    × HavePlainAcls queues

-- Every child is among the names that were seen.
abbrev Agrees : Dict Bool → Dict ℕ → Type 0
Agrees seen children = (k : String) → is_member k seen ≡ false → lookup k children ≡ none

Agrees-insert :
    (name : String) (child : ℕ) (seen : Dict Bool) (children : Dict ℕ)
    → Agrees seen children
    → Agrees (insert name true seen) (insert name child children)
Agrees-insert name child seen children agrees k e =
    let e' = rw (is_member-insert name k seen) at e in
    elim (Bool-cases (name == k)) [
      | inl same ↦ cc (rw same at e')
      | inr other ↦ lookup-insert name k child children ∙ rw other (agrees k (rw other at e'))
    ]

names_left :
    (conf : QueueFields) (below others : QueueConfigs) (seen : Dict Bool) (level : ℕ)
    → check_names (and_queue (queue_config conf below) others) seen level ≡ none
    → (is_member (to_lower conf.name) seen ≡ false)
      × (check_names others (insert (to_lower conf.name) true seen) level ≡ none)
unfolding check_names
names_left conf below others seen level e = elim (Bool-cases (is_queue_name conf.name)) [
  | inr n ↦ cc (rw (n, check_names) at e)
  | inl n ↦ elim (Bool-cases (is_member (to_lower conf.name) seen)) [
    | inl m ↦ cc (rw m at (rw (n, check_names) at e))
    | inr m ↦ (m, rw m at (rw (n, check_names) at e))
  ]
]

queue_checked :
    (conf : QueueFields) (below queues : QueueConfigs) (level : ℕ)
    → check_each (and_queue (queue_config conf below) queues) level ≡ none
    → (check_resources conf ≡ none)
      × (check_names below [] level ≡ none)
      × (check_each below (suc level) ≡ none)
      × (check_each queues level ≡ none)
unfolding check_each check_queues
queue_checked conf below queues level e =
    let (one, rest) = both_checked _ (check_each queues level) e in
    let (resources, a) = both_checked (check_resources conf) _ one in
    let (admin, b) = both_checked (check_acl conf.admin_acl) _ a in
    let (submit, d) = both_checked (check_acl conf.submit_acl) _ b in
    let (names, each) =
      both_checked (check_names below [] level) (check_each below (suc level)) d in
    (resources, names, each, rest)

-- The new child does not hide an old one.
put_child-IsLater :
    (q : Queue) (name : String) (child : ℕ)
    → lookup name q.children ≡ none
    → IsLater q (put_child name child q)
put_child-IsLater q name child free = record {
  same = refl;
  more = λ k v e. elim (Bool-cases (name == k)) [
    | inl same ↦ cc (ap (λ x. lookup x q.children) ((eq_iff name k).0 same), free, e)
    | inr other ↦ lookup-insert name k child q.children ∙ rw other e
  ];
}

no_child : (children : Dict ℕ) → children ≡ [] → Agrees [] children
unfolding lookup
no_child children bare k e = ap (lookup k) bare

-- What is built below a heap for the queues of one level.
abbrev pub IsBuilt : Heap → ℕ → QueueConfigs → Type 0
IsBuilt h p queues =
    (h' : Heap) × (add_queue_info h queues p ≡ some (h', true))
    × IsHeap h'
    × IsLinked h'
    × ExtendsAt p h h'
    × HasEach h' p queues

some_queue : (x y : Queue) → some x ≡ some y → x ≡ y
some_queue x y e = cc

pub not_leaf :
    (conf : QueueFields) (below : Bool) (up : Option ℕ) (s : Queue)
    → IsConfigured conf below up s
    → below ≡ true
    → s.is_leaf ≡ false
not_leaf conf below up s is e = is.leaf ∙ ap (λ b. not conf.parent && not b) e ∙ neither conf.parent
  where
    neither : (b : Bool) → not b && false ≡ false
    neither true = refl
    neither false = refl

-- What the tree of one queue adds to the queue above it.
module _ (h h₁ h₂ : Heap) (p : ℕ) (q s : Queue) (name : String) (x : ℕ)
    (adds : AddsChild p q name x s h h₁) (below : ExtendsAt x h₁ h₂) where
  above_at : h₂.cell p ≡ some (put_child name x q)
  above_at = below.others p (put_child name x q) adds.fresh adds.above

  grown_at : h.cell p ≡ some q → lookup name q.children ≡ none → ExtendsAt p h h₂
  grown_at c free = record {
    others = λ j r n d. below.others j r (adds.before j r d) (adds.others j r n d);
    here = λ r d.
        let same : q ≡ r = some_queue q r (sym c ∙ d) in
        (
          put_child name x q,
          above_at,
          subst (λ y. IsLater y (put_child name x q)) same (put_child-IsLater q name x free),
        );
  }

  has_child :
      (conf : QueueFields) (queues : QueueConfigs)
      → to_lower conf.name ≡ name
      → IsConfigured conf (has_queues queues) (some p) s
      → HasEach h₂ x queues
      → HasEach h₂ p (and_queue (queue_config conf queues) no_queues)
  unfolding HasEach
  has_child conf queues n is has =
      let (s', d, later) = below.here s adds.new in
      (
        (
          x,
          (
            put_child name x q,
            (above_at, lookup-insert_eq name (to_lower conf.name) x q.children (sym n)),
          ),
          (s', (d, IsConfigured-later conf (has_queues queues) (some p) s s' later is)),
          has,
        ),
        tt,
      )

build :
    (h : Heap) (queues : QueueConfigs) (p : ℕ) (q : Queue) (seen : Dict Bool) (level depth : ℕ)
    → IsHeap h
    → IsLinked h
    → h.cell p ≡ some q
    → (has_queues queues ≡ true → q.is_leaf ≡ false)
    → is_draining q.state ≡ false
    → Agrees seen q.children
    → check_names queues seen level ≡ none
    → check_each queues depth ≡ none
    → HavePlainAcls queues
    → IsBuilt h p queues
unfolding add_queue_info HasEach HavePlainAcls
build h no_queues p q seen level depth heap linked c leaf drain agrees names each plain =
    (h, refl, heap, linked, ExtendsAt-refl p h, tt)
build h (and_queue (queue_config conf below) queues) p q seen level depth heap linked c leaf drain
      agrees names each (submit, admin, plain, plain') =
    let name = to_lower conf.name in
    let x = h.next in
    let (unseen, names') = names_left conf below queues seen level names in
    let (resources, names_below, each_below, each') = queue_checked conf below queues depth each in
    let (h₁, (s, e₁, adds, is, bare, quiet)) =
      new_managed_queue-AddsChild h conf (has_queues below) p q heap linked c (leaf refl) drain
        resources submit admin in
    let (h₂, e₂, heap₂, linked₂, ext₂, has₂) =
      build h₁ below x s [] depth (suc depth) adds.heap adds.linked adds.new
        (not_leaf conf (has_queues below) (some p) s is) quiet (no_child s.children bare)
        names_below each_below plain in
    let c₂ = above_at h h₁ h₂ p q s name x adds ext₂ in
    let (h₃, e₃, heap₃, linked₃, ext₃, has₃) =
      build h₂ queues p (put_child name x q) (insert name true seen) level depth heap₂ linked₂ c₂
        (λ e. leaf refl) drain (Agrees-insert name x seen q.children agrees) names' each' plain' in
    let one = has_child h h₁ h₂ p q s name x adds ext₂ conf below refl is has₂ in
    let (first, _) =
      HasEach-IsExtension h₂ h₃ p (and_queue (queue_config conf below) no_queues)
        (ExtendsAt-IsExtension p h₂ h₃ ext₃) one in
    (
      h₃,
      ap (go_on (λ g. add_queue_info g queues p))
            (ap (go_below (λ g y. add_queue_info g below y)) e₁ ∙ e₂)
          ∙ e₃,
      heap₃,
      linked₃,
      ExtendsAt-trans p h h₂ h₃ (grown_at h h₁ h₂ p q s name x adds ext₂ c (agrees name unseen))
          ext₃,
      (first, has₃),
    )

-- `addQueueInfo` of queues that pass the checks and whose ACL texts have at most one space, under a
-- queue that is there, takes children and has none: it succeeds, and makes each configured queue,
-- under its name in lower case below the queue that it stands under, with what its configuration says.
pub add_queue_info-IsBuilt :
    (h : Heap) (queues : QueueConfigs) (p : ℕ) (q : Queue) (level : ℕ)
    → IsHeap h
    → IsLinked h
    → h.cell p ≡ some q
    → q.children ≡ []
    → (has_queues queues ≡ true → q.is_leaf ≡ false)
    → is_draining q.state ≡ false
    → check_names queues [] level ≡ none
    → check_each queues (suc level) ≡ none
    → HavePlainAcls queues
    → IsBuilt h p queues
add_queue_info-IsBuilt h queues p q level heap linked c bare leaf drain names each plain =
    build h queues p q [] level (suc level) heap linked c leaf drain (no_child q.children bare)
      names each plain
