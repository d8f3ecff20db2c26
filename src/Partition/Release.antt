-- ===== src/Partition/Release.antt =====
-- Releasing allocations: the call on the queue, and the books of the application
-- (cache/partition_info.go).
use mathlib.Core.Path.{subst}
use yunikorn_study.Prelude.{String, ℕ, ◌≡◌, refl, sym, ap, Option, none, some, arith}
use yunikorn_study.Dict.{Dict, erase, lookup-erase, AllValues}
use yunikorn_study.Resource.{Resource, sub_resource}
use yunikorn_study.Allocation.{Allocation}
use yunikorn_study.Application.{Application}
use yunikorn_study.Queue.{Queue, Heap, QueueError, dec_refuse}
use yunikorn_study.Queue.Climb.{IsTree}
use yunikorn_study.Queue.Shape.{SameShape, SameShape-cell}
use yunikorn_study.Queue.Allocate.{
  IsAtomic, is_on_path, reallocate-SameShape, dec_allocated_resource-IsAtomic,
}
use yunikorn_study.Partition.Monad.{Partition, ok}
use yunikorn_study.Partition.Removal.{settle, settled}
use yunikorn_study.Partition.Sound.{IsSound, AreKnown}

-- The leaf queue of an application, where it has one, is a queue.
abbrev pub HasQueue : Heap → Application → Type 0
HasQueue h app = (p : ℕ) → app.leaf_queue ≡ some p → (q : Queue) × (h.cell p ≡ some q)

-- A sound partition whose applications point at queues.
pub record IsWell (pi : Partition) : Type 0 where
  pub sound : IsSound pi
  pub placed : AllValues (HasQueue pi.queues) pi.applications

pub HasQueue-SameShape :
    (h' h : Heap) (app : Application) → SameShape h' h → HasQueue h app → HasQueue h' app
HasQueue-SameShape h' h app s has p e =
    let (q, c) = has p e in let (q', c', _) = SameShape-cell h' h p q s c in (q', c')

-- The queue of an application, if there is one, gives the resource back: the whole path to the root
-- has less, or some queue on it refuses and nothing changes.
abbrev pub IsGivenBack : Option ℕ → Resource → Heap → Heap → Type 0
IsGivenBack none r h h' = h' ≡ h
IsGivenBack (some p) r h h' =
    (e : Option QueueError) × IsAtomic (dec_refuse (some r)) (λ x. sub_resource (some x) (some r)) h
      p (some (h', e))

-- `DecAllocatedResource` keeps the shape of the tree, whether it fails or not.
dec_shape :
    (h : Heap) (p : ℕ) (alloc : Option Resource) (o : Option (Heap × Option QueueError))
    → IsAtomic (dec_refuse alloc) (λ r. sub_resource (some r) alloc) h p o
    → (h' : Heap) × ((x : Option QueueError) × (o ≡ some (h', x)) × SameShape h' h)
dec_shape h p alloc none spec = absurd spec
dec_shape h p alloc (some (h', some x)) spec =
    (h', (some x, refl, subst (λ y. SameShape y h) (sym spec.0) (λ j. refl)))
dec_shape h p alloc (some (h', none)) spec = (
  h',
  (
    none,
    refl,
    reallocate-SameShape h h' (is_on_path h p) (λ r. sub_resource (some r) alloc) spec.1,
  ),
)

-- The call on the queue of an application ends, and keeps the shape of the tree.
pub settle_ends :
    (pi : Partition) (queue : Option ℕ) (r : Resource)
    → IsTree pi.queues
    → ((p : ℕ) → queue ≡ some p → (q : Queue) × (pi.queues.cell p ≡ some q))
    → (h' : Heap) × (settle queue r pi ≡ some (ok tt, record pi { queues = h' }))
      × SameShape h' pi.queues
      × IsGivenBack queue r pi.queues h'
settle_ends pi none r tree has = (pi.queues, refl, (λ j. refl), refl)
settle_ends pi (some p) r tree has =
    let (q, c) = has p refl in
    let spec = dec_allocated_resource-IsAtomic pi.queues p q (some r) tree c in
    let (h', (x, e, s)) = dec_shape pi.queues p (some r) _ spec in
    (
      h',
      ap (settled pi) e,
      s,
      (
        x,
        subst (IsAtomic (dec_refuse (some r)) (λ y. sub_resource (some y) (some r)) pi.queues p) e
            spec,
      ),
    )

pub AreKnown-erase :
    (u : String) (known m : Dict Allocation) → AreKnown known m → AreKnown known (erase u m)
AreKnown-erase u known m h k a e = h k a (ground (arith, lookup-erase u k m))
