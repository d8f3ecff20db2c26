-- ===== src/Queue/Links.antt =====
-- Every child of a queue is a younger queue, whatever queues are made (cache/queue_info.go).
use mathlib.Core.Option
use mathlib.Core.Path.{subst}
use yunikorn_study.Prelude.{
  String, ℕ, ◌≡◌, ◌<◌, arith, refl, sym, ap, ◌∙◌, inl, inr, Option, none, some, Bool, true, false,
  not, [], eqb, Option-cases, Bool-cases,
}
use yunikorn_study.Dict.{Dict, lookup, AllValues, insert-AllValues, IsMap, insert-IsMap}
use yunikorn_study.State.{is_draining}
use yunikorn_study.Queue.{Queue, Heap, QueueError}
use yunikorn_study.Queue.Manage.{add_child_queue, update, put_child}
use yunikorn_study.Queue.Config.{
  allocate, registered, register_under, new_queue, is_queue_name, new_unmanaged_queue, QueueFields,
  manage, properties_at, new_managed_queue,
}
use yunikorn_study.Queue.Grow.{update_queue_props-SameLinks}
use yunikorn_study.Queue.Heaps.{IsQueue, IsHeap, allocate_cases, allocate_kept, allocate_new}

abbrev pub IsChildOf : Heap → ℕ → ℕ → Type 0
IsChildOf h j v = IsQueue h v × (j < v)

-- The children of a queue: each is a queue, younger than that queue, under a name of its own.
abbrev pub AreChildren : Heap → ℕ → Dict ℕ → Type 0
AreChildren h j children = AllValues (IsChildOf h j) children × IsMap children

abbrev pub IsLinked : Heap → Type 0
IsLinked h = (j : ℕ) (q : Queue) → h.cell j ≡ some q → AreChildren h j q.children

pub no_children : (h : Heap) (j : ℕ) → AreChildren h j []
unfolding lookup
no_children h j = (λ k v e. cc, tt)

pub allocate-IsLinked :
    (h : Heap) (q : Queue) → IsHeap h → IsLinked h → q.children ≡ [] → IsLinked (allocate h q)
allocate-IsLinked h q heap linked bare j s c = elim (allocate_cases h q heap j s c) [
  | inl (same, is) ↦
      subst (AreChildren (allocate h q) j) (sym bare ∙ ap (λ x. x.children) is)
        (no_children (allocate h q) j)
  | inr old ↦
      let (all, map) = linked j s old in
      (λ k v e. let (u, l) = all k v e in (allocate_kept h q heap v u, l), map)
]

some_queue : (x y : Queue) → some x ≡ some y → x ≡ y
some_queue x y e = cc

update_kept :
    (h : Heap) (p : ℕ) (f : Queue → Queue) (j : ℕ) → IsQueue h j → IsQueue (update h p f) j
update_kept h p f j (q, c) = elim (Bool-cases (eqb j p)) [
  | inl same ↦ (f q, rw same (ap (Option.map f) c))
  | inr other ↦ (q, rw other c)
]

pub update-IsLinked :
    (h : Heap) (p : ℕ) (name : String) (child : ℕ)
    → IsQueue h child
    → p < child
    → IsLinked h
    → IsLinked (update h p (put_child name child))
update-IsLinked h p name child new younger linked j s c = elim (Bool-cases (eqb j p)) [
  | inr other ↦ let (all, map) = linked j s (rw other at c) in (λ k v e. kept j v (all k v e), map)
  | inl same ↦ elim (Option-cases (h.cell j)) [
    | inl n ↦ cc (rw n at (rw same at c))
    | inr (q, n) ↦
        let is : put_child name child q ≡ s = some_queue _ _ (rw n at (rw same at c)) in
        let at : j ≡ p = ground (arith, same) in
        let (all, map) = linked j q n in
        subst (λ x. AreChildren (update h p (put_child name child)) j x.children) is
          (
            insert-AllValues (IsChildOf (update h p (put_child name child)) j) name child q.children
                (λ k v e. kept j v (all k v e))
                (kept j child (new, subst (λ i. i < child) (sym at) younger)),
            insert-IsMap name child q.children map,
          )
  ]
]
  where
    kept : (j v : ℕ) → IsChildOf h j v → IsChildOf (update h p (put_child name child)) j v
    kept j v (u, l) = (update_kept h p (put_child name child) v u, l)

some_heap :
    {A : Type 0} (h h' : Heap) (a a' : A)
    → ◌≡◌ {A = Option (Heap × A)} (some (h, a)) (some (h', a'))
    → IsLinked h
    → IsLinked h'
some_heap h h' a a' e linked = let same : h ≡ h' = cc in subst IsLinked same linked

-- `AddChildQueue` of a queue that is there.
pub add_child_queue-IsLinked :
    (h : Heap) (p : ℕ) (name : String) (child : ℕ) (h' : Heap) (e : Option QueueError)
    → IsQueue h child
    → p < child
    → IsLinked h
    → add_child_queue h p name child ≡ some (h', e)
    → IsLinked h'
unfolding add_child_queue
add_child_queue-IsLinked h p name child h' e new younger linked r = elim (Option-cases (h.cell p)) [
  | inl c ↦ cc (rw (c, add_child_queue) at r)
  | inr (q, c) ↦ elim (Bool-cases q.is_leaf) [
    | inl l ↦ some_heap h h' _ e (rw l at (rw (c, add_child_queue) at r)) linked
    | inr l ↦ elim (Bool-cases (is_draining q.state)) [
      | inl d ↦ some_heap h h' _ e (rw d at (rw l at (rw (c, add_child_queue) at r))) linked
      | inr d ↦
          some_heap _ h' _ e (rw d at (rw l at (rw (c, add_child_queue) at r)))
            (update-IsLinked h p name child new younger linked)
    ]
  ]
]

pub register_under-IsLinked :
    (h : Heap) (q : Queue) (o : Option ℕ) (h' : Heap) (r : Option ℕ)
    → IsHeap h
    → IsLinked h
    → ((up : ℕ) → o ≡ some up → IsQueue h up)
    → q.children ≡ []
    → register_under h q o ≡ some (h', r)
    → IsLinked h'
register_under-IsLinked h q none h' r heap linked has bare e =
    some_heap (allocate h q) h' _ r e (allocate-IsLinked h q heap linked bare)
register_under-IsLinked h q (some up) h' r heap linked has bare e =
    answer (add_child_queue (allocate h q) up q.name h.next) refl e
  where
    grown :
        (h₁ : Heap) (x : Option QueueError)
        → add_child_queue (allocate h q) up q.name h.next ≡ some (h₁, x)
        → IsLinked h₁
    grown h₁ x c =
        add_child_queue-IsLinked (allocate h q) up q.name h.next h₁ x (q, allocate_new h q heap)
          (heap.bounded up (has up refl)) (allocate-IsLinked h q heap linked bare) c

    answer :
        (x : Option (Heap × Option QueueError))
        → add_child_queue (allocate h q) up q.name h.next ≡ x
        → registered h.next x ≡ some (h', r)
        → IsLinked h'
    answer none c e = cc
    answer (some (h₁, none)) c e = some_heap h₁ h' _ r e (grown h₁ none c)
    answer (some (h₁, some x)) c e = some_heap h₁ h' _ r e (grown h₁ (some x) c)

pub new_unmanaged_queue-IsLinked :
    (h : Heap) (name : String) (leaf : Bool) (parent : Option ℕ) (h' : Heap) (r : Option ℕ)
    → IsHeap h
    → IsLinked h
    → ((up : ℕ) → parent ≡ some up → IsQueue h up)
    → new_unmanaged_queue h name leaf parent ≡ some (h', r)
    → IsLinked h'
unfolding new_unmanaged_queue
new_unmanaged_queue-IsLinked h name leaf parent h' r heap linked has e =
    elim (Bool-cases (is_queue_name name)) [
      | inl c ↦
          register_under-IsLinked h (new_queue name parent leaf false) parent h' r heap linked has
            refl (rw (c, new_unmanaged_queue) at e)
      | inr c ↦ some_heap h h' _ r (rw (c, new_unmanaged_queue) at e) linked
    ]

-- `NewManagedQueue` under a parent that is there, or under none.
pub new_managed_queue-IsLinked :
    (h : Heap) (conf : QueueFields) (below : Bool) (parent : Option ℕ) (h' : Heap) (r : Option ℕ)
    → IsHeap h
    → IsLinked h
    → ((up : ℕ) → parent ≡ some up → IsQueue h up)
    → new_managed_queue h conf below parent ≡ some (h', r)
    → IsLinked h'
unfolding new_managed_queue
new_managed_queue-IsLinked h conf below parent h' r heap linked has e =
    let (up, bare) =
      update_queue_props-SameLinks (properties_at h parent) conf below
        (new_queue conf.name parent (not conf.parent) true) in
    managed _ up bare e
  where
    managed :
        (made : Queue × Bool)
        → made.0.parent ≡ parent
        → made.0.children ≡ []
        → manage h made ≡ some (h', r)
        → IsLinked h'
    managed (q, true) up bare e = some_heap h h' _ r e linked
    managed (q, false) up bare e =
        register_under-IsLinked h q q.parent h' r heap linked (λ x f. has x (sym up ∙ f)) bare e
