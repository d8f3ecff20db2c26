-- ===== src/Queue/Allocate.antt =====
-- IncAllocatedResource and DecAllocatedResource on a tree of queues (cache/queue_info.go).
use mathlib.Core.Option
use yunikorn_study.Prelude.{
  String, ℕ, suc, ◌≡◌, refl, sym, ap, ◌∙◌, inl, inr, Option, none, some, Bool, true, false,
  if◌then◌else◌, Option-cases, Bool-cases, arith,
}
use yunikorn_study.Resource.{Resource, value, add_resource, sub_resource, fit_in}
use yunikorn_study.Resource.Loops.{IsValid}
use yunikorn_study.Resource.Arith.{IsResource, sub_resource-add_resource}
use yunikorn_study.Queue.{
  Queue, Heap, QueueError, climb, inc_refuse, dec_refuse, inc_allocated_resource,
  dec_allocated_resource,
}
use yunikorn_study.Queue.Climb.{IsTree, is_above, reallocate, climb_success}
use yunikorn_study.Queue.Shape.{SameShape, SameShape-cell, is_above-SameShape, IsTree-SameShape}
use yunikorn_study.Queue.Walk.{climb_failure, climb_checked, climb_total}

-- A queue and all its ancestors.
abbrev pub is_on_path : Heap → ℕ → ℕ → Bool
is_on_path h p j = is_above (suc p) h p j

-- What a call promises: it ends; it fails, where some queue on the path to the root refuses, and then
-- changes nothing; or no queue on the path refuses, and exactly those get the new allocation.
abbrev pub IsAtomic :
    (ℕ → Queue → Option QueueError)
    → (Resource → Resource)
    → Heap
    → ℕ
    → Option (Heap × Option QueueError)
    → Type 0
IsAtomic refuse change h p none = ⊥
IsAtomic refuse change h p (some (h', some e)) =
    (h' ≡ h)
    × ((j : ℕ) × ((q : Queue) × (is_on_path h p j ≡ true)
          × (h.cell j ≡ some q)
          × (refuse j q ≡ some e)))
IsAtomic refuse change h p (some (h', none)) =
    ((j : ℕ) (q : Queue) → is_on_path h p j ≡ true → h.cell j ≡ some q → refuse j q ≡ none)
    × ((j : ℕ)
        → h'.cell j
          ≡ (if is_on_path h p j then Option.map (reallocate change) (h.cell j) else h.cell j))

climb-IsAtomic :
    (refuse : ℕ → Queue → Option QueueError) (change : Resource → Resource) (h : Heap) (p : ℕ)
    (r : Option (Heap × Option QueueError))
    → IsTree h
    → climb (suc p) refuse change h p ≡ r
    → ¬ (r ≡ none)
    → IsAtomic refuse change h p r
climb-IsAtomic refuse change h p none t e n = absurd (n refl)
climb-IsAtomic refuse change h p (some (h', some x)) t e n =
    climb_failure refuse change h (suc p) p h' x e
climb-IsAtomic refuse change h p (some (h', none)) t e n = (
  λ j q a c. climb_checked refuse change h (suc p) p j q h' e a c,
  λ j. climb_success (suc p) refuse change h p h' j t e,
)

climb_ends :
    (refuse : ℕ → Queue → Option QueueError) (change : Resource → Resource) (h : Heap) (p : ℕ)
    (q : Queue)
    → IsTree h
    → h.cell p ≡ some q
    → ¬ (climb (suc p) refuse change h p ≡ none)
climb_ends refuse change h p q t c e =
    let (r, found) = climb_total refuse change h (suc p) p q t (omega arith) c in cc

-- `IncAllocatedResource` on a queue of a tree is atomic: it adds the allocation to the queue and all
-- its ancestors, or finds one that would go over its maximum, and then changes nothing.
pub inc_allocated_resource-IsAtomic :
    (h : Heap) (p : ℕ) (q : Queue) (alloc : Option Resource) (node_reported : Bool)
    → IsTree h
    → h.cell p ≡ some q
    → IsAtomic
        (inc_refuse alloc node_reported)
        (λ r. add_resource (some r) alloc)
        h
        p
        (inc_allocated_resource h p alloc node_reported)
unfolding inc_allocated_resource
inc_allocated_resource-IsAtomic h p q alloc node_reported t c =
    climb-IsAtomic (inc_refuse alloc node_reported) (λ r. add_resource (some r) alloc) h p _ t refl
      (climb_ends (inc_refuse alloc node_reported) (λ r. add_resource (some r) alloc) h p q t c)

-- `DecAllocatedResource` on a queue of a tree is atomic: it takes the allocation off the queue and
-- all its ancestors, or finds one that has less than that, and then changes nothing.
pub dec_allocated_resource-IsAtomic :
    (h : Heap) (p : ℕ) (q : Queue) (alloc : Option Resource)
    → IsTree h
    → h.cell p ≡ some q
    → IsAtomic
        (dec_refuse alloc)
        (λ r. sub_resource (some r) alloc)
        h
        p
        (dec_allocated_resource h p alloc)
unfolding dec_allocated_resource
dec_allocated_resource-IsAtomic h p q alloc t c =
    climb-IsAtomic (dec_refuse alloc) (λ r. sub_resource (some r) alloc) h p _ t refl
      (climb_ends (dec_refuse alloc) (λ r. sub_resource (some r) alloc) h p q t c)

-- No queue has more allocated than its maximum.
abbrev pub IsWithinMax : Heap → Type 0
IsWithinMax h =
    (j : ℕ) (q : Queue) (m : Resource)
    → h.cell j ≡ some q
    → q.max_resource ≡ some m
    → fit_in (some m) (some q.allocated_resource) ≡ true

inc_refuse_fits :
    (alloc : Option Resource) (j : ℕ) (q : Queue) (m : Resource)
    → inc_refuse alloc false j q ≡ none
    → q.max_resource ≡ some m
    → fit_in (some m) (some (add_resource (some q.allocated_resource) alloc)) ≡ true
inc_refuse_fits alloc j q m e o = ground arith

some_queue : (x y : Queue) → some x ≡ some y → x ≡ y
some_queue x y e = cc

-- An allocation that no node reported takes no queue over its maximum.
pub inc_allocated_resource-IsWithinMax :
    (h h' : Heap) (p : ℕ) (q : Queue) (alloc : Option Resource)
    → IsTree h
    → h.cell p ≡ some q
    → IsWithinMax h
    → inc_allocated_resource h p alloc false ≡ some (h', none)
    → IsWithinMax h'
inc_allocated_resource-IsWithinMax h h' p q alloc t c within e j q' m c' o =
    let grow : Resource → Resource = λ r. add_resource (some r) alloc in
    let spec : IsAtomic (inc_refuse alloc false) grow h p (some (h', none)) =
      rw e at (inc_allocated_resource-IsAtomic h p q alloc false t c) in
    elim (Bool-cases (is_on_path h p j)) [
      | inr off ↦ within j q' m (sym (rw off at (spec.1 j)) ∙ c') o
      | inl above ↦
          let changed : h'.cell j ≡ Option.map (reallocate grow) (h.cell j) =
            rw above at (spec.1 j) in
          elim (Option-cases (h.cell j)) [
            | inl n ↦ cc (rw n at changed)
            | inr (s, c₀) ↦
                let same : reallocate grow s ≡ q' =
                  some_queue (reallocate grow s) q' (sym (rw c₀ at changed) ∙ c') in
                rw (← same) (
                  inc_refuse_fits alloc j s m (spec.0 j s above c₀)
                    (ap (λ x. x.max_resource) same ∙ o))
          ]
    ]

-- The quantity that a queue has allocated under a key, 0 where there is no queue.
abbrev pub allocated : String → Heap → ℕ → ℕ
allocated k h j = elim (h.cell j) [ none ↦ 0 | some q ↦ value k q.allocated_resource ]

-- The allocated resources of all queues are resources of int64.
abbrev pub AreValid : Heap → Type 0
AreValid h = (j : ℕ) (q : Queue) → h.cell j ≡ some q → IsValid q.allocated_resource

pub reallocate-SameShape :
    (h h₁ : Heap) (above : ℕ → Bool) (change : Resource → Resource)
    → ((j : ℕ)
        → h₁.cell j ≡ (if above j then Option.map (reallocate change) (h.cell j) else h.cell j))
    → SameShape h₁ h
reallocate-SameShape h h₁ above change e j = elim (Bool-cases (above j)) [
  | inr off ↦ ap parent_of (rw off at (e j))
  | inl on ↦ ap parent_of (rw on at (e j)) ∙ same (h.cell j)
]
  where
    parent_of : Option Queue → Option (Option ℕ)
    parent_of o = elim o [ none ↦ none | some q ↦ some q.parent ]

    same : (o : Option Queue) → parent_of (Option.map (reallocate change) o) ≡ parent_of o
    same none = refl
    same (some q) = refl

pub inc_allocated_resource-IsTree :
    (h h' : Heap) (p : ℕ) (q : Queue) (alloc : Option Resource) (node_reported : Bool)
    → IsTree h
    → h.cell p ≡ some q
    → inc_allocated_resource h p alloc node_reported ≡ some (h', none)
    → IsTree h'
inc_allocated_resource-IsTree h h' p q alloc node_reported t c e =
    let grow : Resource → Resource = λ r. add_resource (some r) alloc in
    let spec : IsAtomic (inc_refuse alloc node_reported) grow h p (some (h', none)) =
      rw e at (inc_allocated_resource-IsAtomic h p q alloc node_reported t c) in
    IsTree-SameShape h' h (reallocate-SameShape h h' (is_on_path h p) grow spec.1) t

-- Two changes of the same queue, the second of which undoes the first.
undone :
    (h h₁ h₂ : Heap) (k : String) (j : ℕ) (above : Bool) (grow shrink : Resource → Resource)
    → ((q : Queue)
        → h.cell j ≡ some q
        → value k (shrink (grow q.allocated_resource)) ≡ value k q.allocated_resource)
    → h₁.cell j ≡ (if above then Option.map (reallocate grow) (h.cell j) else h.cell j)
    → h₂.cell j ≡ (if above then Option.map (reallocate shrink) (h₁.cell j) else h₁.cell j)
    → allocated k h₂ j ≡ allocated k h j
undone h h₁ h₂ k j false grow shrink back e d = rw (d ∙ e, allocated)
undone h h₁ h₂ k j true grow shrink back e d = elim (Option-cases (h.cell j)) [
  | inl c ↦
      let c₁ : h₁.cell j ≡ none = rw c at e in
      let c₂ : h₂.cell j ≡ none = rw c₁ at d in rw (c₂, allocated) (rw (c, allocated))
  | inr (q, c) ↦
      let c₁ : h₁.cell j ≡ some (reallocate grow q) = rw c at e in
      let c₂ : h₂.cell j ≡ some (reallocate shrink (reallocate grow q)) = rw c₁ at d in
      rw (c₂, allocated) (rw (c, allocated) (back q c))
]

-- Where an allocation is taken off again from the queue that it was added to, every queue has what it
-- had before, under every key, also where a sum wrapped around.
pub dec_allocated_resource-inc_allocated_resource :
    (h h₁ h₂ : Heap) (p : ℕ) (q : Queue) (alloc : Option Resource) (node_reported : Bool)
    → IsTree h
    → AreValid h
    → IsResource alloc
    → h.cell p ≡ some q
    → inc_allocated_resource h p alloc node_reported ≡ some (h₁, none)
    → dec_allocated_resource h₁ p alloc ≡ some (h₂, none)
    → (k : String) (j : ℕ) → allocated k h₂ j ≡ allocated k h j
dec_allocated_resource-inc_allocated_resource h h₁ h₂ p q alloc node_reported t v r c e d k j =
    let grow : Resource → Resource = λ x. add_resource (some x) alloc in
    let shrink : Resource → Resource = λ x. sub_resource (some x) alloc in
    let up : IsAtomic (inc_refuse alloc node_reported) grow h p (some (h₁, none)) =
      rw e at (inc_allocated_resource-IsAtomic h p q alloc node_reported t c) in
    let shape = reallocate-SameShape h h₁ (is_on_path h p) grow up.1 in
    let (q₁, c₁, _) = SameShape-cell h₁ h p q shape c in
    let down : IsAtomic (dec_refuse alloc) shrink h₁ p (some (h₂, none)) =
      rw d at (dec_allocated_resource-IsAtomic h₁ p q₁ alloc (IsTree-SameShape h₁ h shape t) c₁) in
    undone h h₁ h₂ k j (is_on_path h p j) grow shrink
      (λ s cs. (sub_resource-add_resource k (some s.allocated_resource) alloc (v j s cs) r).0)
      (up.1 j) (rw (is_above-SameShape (suc p) h₁ h p j shape) at (down.1 j))
