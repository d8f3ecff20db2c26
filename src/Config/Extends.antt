-- ===== src/Config/Extends.antt =====
-- The tree of a configuration in a heap of queues, and heaps that only gain queues below
-- (`addQueueInfo` of cache/partition_info.go).
use mathlib.Core.Path.{subst}
use native.Mathlib.Decide.{ℕ_discrete}
use yunikorn_study.Prelude.{String, ℕ, ◌≡◌, ◌≢◌, refl, sym, ◌∙◌, ap, Option, some, Bool}
use yunikorn_study.Dict.{Dict, lookup}
use yunikorn_study.Text.{to_lower}
use yunikorn_study.Queue.{Queue, Heap}
use yunikorn_study.Queue.Config.{
  QueueFields, queue_config, QueueConfigs, no_queues, and_queue, has_queues,
}
use yunikorn_study.Config.Props.{IsConfigured}

abbrev with_children : Dict ℕ → Queue → Queue
with_children m q = record q { children = m }

-- A queue after some time: only its children are more.
pub record IsLater (q q' : Queue) : Type 0 where
  pub same : q' ≡ with_children q'.children q
  pub more : (k : String) (v : ℕ) → lookup k q.children ≡ some v → lookup k q'.children ≡ some v

abbrev pub IsExtension : Heap → Heap → Type 0
IsExtension h h' =
    (j : ℕ) (q : Queue) → h.cell j ≡ some q → (q' : Queue) × (h'.cell j ≡ some q') × IsLater q q'

-- Only the children of the queue at `p` are more.
pub record ExtendsAt (p : ℕ) (h h' : Heap) : Type 0 where
  pub others : (j : ℕ) (q : Queue) → j ≢ p → h.cell j ≡ some q → h'.cell j ≡ some q
  pub here : (q : Queue) → h.cell p ≡ some q → (q' : Queue) × (h'.cell p ≡ some q') × IsLater q q'

pub IsLater-refl : (q : Queue) → IsLater q q
IsLater-refl q = record { same = refl; more = λ k v e. e }

pub IsLater-trans : (q r s : Queue) → IsLater q r → IsLater r s → IsLater q s
IsLater-trans q r s a b = record {
  same = b.same ∙ ap (with_children s.children) a.same;
  more = λ k v e. b.more k v (a.more k v e);
}

pub ExtendsAt-IsExtension : (p : ℕ) (h h' : Heap) → ExtendsAt p h h' → IsExtension h h'
ExtendsAt-IsExtension p h h' x j q c = elim (ℕ_discrete j p) [
  | yes same ↦
      let (q', c', l) = x.here q (subst (λ i. h.cell i ≡ some q) same c) in
      (q', subst (λ i. h'.cell i ≡ some q') (sym same) c', l)
  | no other ↦ (q, x.others j q other c, IsLater-refl q)
]

pub ExtendsAt-refl : (p : ℕ) (h : Heap) → ExtendsAt p h h
ExtendsAt-refl p h = record { others = λ j q n c. c; here = λ q c. (q, c, IsLater-refl q) }

pub ExtendsAt-trans :
    (p : ℕ) (h h₁ h₂ : Heap) → ExtendsAt p h h₁ → ExtendsAt p h₁ h₂ → ExtendsAt p h h₂
ExtendsAt-trans p h h₁ h₂ a b = record {
  others = λ j q n c. b.others j q n (a.others j q n c);
  here = λ q c.
      let (q₁, c₁, l₁) = a.here q c in
      let (q₂, c₂, l₂) = b.here q₁ c₁ in (q₂, c₂, IsLater-trans q q₁ q₂ l₁ l₂);
}

-- The queue at `p` has a child for each of the configured queues, under its name in lower case and
-- with what its configuration says, and so on below.
abbrev pub IsChild : Heap → ℕ → String → ℕ → Type 0
IsChild h p name child =
    (above : Queue) × ((h.cell p ≡ some above) × (lookup name above.children ≡ some child))

unfoldable pub HasEach : Heap → ℕ → QueueConfigs → Type 0
HasEach h p no_queues = Unit
HasEach h p (and_queue (queue_config conf below) queues) =
    ((child : ℕ) × IsChild h p (to_lower conf.name) child
      × ((q : Queue) × ((h.cell child ≡ some q) × IsConfigured conf (has_queues below) (some p) q))
      × HasEach h child below)
    × HasEach h p queues

pub IsConfigured-later :
    (conf : QueueFields) (below : Bool) (up : Option ℕ) (q q' : Queue)
    → IsLater q q'
    → IsConfigured conf below up q
    → IsConfigured conf below up q'
IsConfigured-later conf below up q q' l h =
    subst (IsConfigured conf below up) (sym l.same) (record {
      name = h.name;
      parent_at = h.parent_at;
      leaf = h.leaf;
      managed = h.managed;
      max = h.max;
      guaranteed = h.guaranteed;
      submit = h.submit;
      admin = h.admin;
    })

-- The tree of a configuration stays where queues are added.
pub HasEach-IsExtension :
    (h h' : Heap) (p : ℕ) (queues : QueueConfigs)
    → IsExtension h h'
    → HasEach h p queues
    → HasEach h' p queues
unfolding HasEach
HasEach-IsExtension h h' p no_queues x has = tt
HasEach-IsExtension h h' p (and_queue (queue_config conf below) queues) x
      ((child, (above, (c, e)), (q, (d, is)), rest), others) =
    let (above', c', l) = x p above c in
    let (q', d', l') = x child q d in
    (
      (
        child,
        (above', (c', l.more (to_lower conf.name) child e)),
        (q', (d', IsConfigured-later conf (has_queues below) (some p) q q' l' is)),
        HasEach-IsExtension h h' child below x rest,
      ),
      HasEach-IsExtension h h' p queues x others,
    )
