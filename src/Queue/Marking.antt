-- ===== src/Queue/Marking.antt =====
-- Changes of a queue that leave its parent and its children alone, and the marking for removal
-- (`MarkQueueForRemoval` of cache/queue_info.go).
use mathlib.Core.Option
use mathlib.Core.Path.{subst}
use yunikorn_study.Prelude.{
  ℕ, zero, suc, ◌≡◌, refl, sym, ◌∙◌, ap, inl, inr, Option, none, some, eqb, [], ◌∷◌, Bool-cases,
  Option-cases,
}
use yunikorn_study.Dict.{Dict}
use yunikorn_study.State.{ObjectFsm, remove}
use yunikorn_study.Queue.{Queue, Heap}
use yunikorn_study.Queue.Manage.{
  update, put_state, handle_queue_event, each_child, mark_queue_for_removal,
}
use yunikorn_study.Queue.Shape.{SameShape, parent_cell}
use yunikorn_study.Queue.Heaps.{IsQueue, IsHeap, IsHeap-SameShape}
use yunikorn_study.Queue.Links.{IsLinked, AreChildren}

-- The queues of a heap stay, in a tree of younger children.
pub record Stays (h h' : Heap) : Type 0 where
  pub heap : IsHeap h'
  pub linked : IsLinked h'
  pub kept : (j : ℕ) → IsQueue h j → IsQueue h' j

pub Stays-trans : {h h₁ h₂ : Heap} → Stays h h₁ → Stays h₁ h₂ → Stays h h₂
Stays-trans a b = record { heap = b.heap; linked = b.linked; kept = λ j u. b.kept j (a.kept j u) }

pub Stays-refl : (h : Heap) → IsHeap h → IsLinked h → Stays h h
Stays-refl h heap linked = record { heap = heap; linked = linked; kept = λ j u. u }

-- A change that leaves the parent and the children alone.
pub record IsInner (f : Queue → Queue) : Type 0 where
  pub parent : (q : Queue) → (f q).parent ≡ q.parent
  pub children : (q : Queue) → (f q).children ≡ q.children

module _ (h : Heap) (p : ℕ) (f : Queue → Queue) (inner : IsInner f) where
  abbrev parent_of : Option Queue → Option (Option ℕ)
  parent_of o = elim o [ none ↦ none | some q ↦ some q.parent ]

  same_parent : (o : Option Queue) → parent_of (Option.map f o) ≡ parent_of o
  same_parent none = refl
  same_parent (some q) = ap some (inner.parent q)

  pub update-SameShape : SameShape (update h p f) h
  update-SameShape j = elim (Bool-cases (eqb j p)) [
    | inl c ↦ rw (c, parent_cell) (same_parent (h.cell j))
    | inr c ↦ rw (c, parent_cell) refl
  ]

  update_kept : (j : ℕ) → IsQueue h j → IsQueue (update h p f) j
  update_kept j (q, c) = elim (Bool-cases (eqb j p)) [
    | inl same ↦ (f q, rw same (ap (Option.map f) c))
    | inr other ↦ (q, rw other c)
  ]

  -- Each queue has the children that it had.
  update_children :
      (j : ℕ) (s : Queue)
      → (update h p f).cell j ≡ some s
      → (q : Queue) × (h.cell j ≡ some q) × (q.children ≡ s.children)
  update_children j s c = elim (Bool-cases (eqb j p)) [
    | inr other ↦ (s, rw other at c, refl)
    | inl same ↦ elim (Option-cases (h.cell j)) [
      | inl n ↦ cc (rw n at (rw same at c))
      | inr (q, n) ↦
          let is : f q ≡ s = some_eq (f q) s (rw n at (rw same at c)) in
          (q, n, sym (inner.children q) ∙ ap (λ x. x.children) is)
    ]
  ]
    where
      some_eq : (x y : Queue) → some x ≡ some y → x ≡ y
      some_eq x y e = cc

  pub update-Stays : IsHeap h → IsLinked h → Stays h (update h p f)
  update-Stays heap linked = record {
    heap =
        IsHeap-SameShape (update h p f) h update-SameShape (λ j. sym (update-SameShape j)) refl
          heap;
    linked = λ j s c.
        let (q, d, same) = update_children j s c in
        let (all, map) = linked j q d in
        subst (AreChildren (update h p f) j) same
          (λ k v e. let (u, l) = all k v e in (update_kept v u, l), map);
    kept = update_kept;
  }

put_state-IsInner : (s : _) → IsInner (put_state s)
put_state-IsInner (s, t) = record { parent = λ q. refl; children = λ q. refl }

module _ (fsm : ObjectFsm) (now : ℕ → ℕ) where
  event-Stays :
      (h : Heap) (p : ℕ) (q : Queue)
      → IsHeap h
      → IsLinked h
      → Stays h (handle_queue_event fsm (now p) h p q remove).0
  unfolding handle_queue_event
  event-Stays h p q heap linked = update-Stays h p (put_state _) (put_state-IsInner _) heap linked

  each_child-Stays :
      (call : Heap → ℕ → Heap) (m : Dict ℕ)
      → ((h : Heap) (v : ℕ) → IsHeap h → IsLinked h → Stays h (call h v))
      → (h : Heap) → IsHeap h
      → IsLinked h
      → Stays h (each_child call m h)
  unfolding each_child
  each_child-Stays call [] step h heap linked = Stays-refl h heap linked
  each_child-Stays call ((name, child) ∷ m) step h heap linked =
      let s = step h child heap linked in
      Stays-trans s (each_child-Stays call m step (call h child) s.heap s.linked)

  -- `MarkQueueForRemoval` leaves every queue where it is.
  pub mark_queue_for_removal-Stays :
      (fuel : ℕ) (h : Heap) (p : ℕ)
      → IsHeap h
      → IsLinked h
      → Stays h (mark_queue_for_removal fuel fsm now h p)
  unfolding mark_queue_for_removal handle_queue_event
  mark_queue_for_removal-Stays zero h p heap linked = Stays-refl h heap linked
  mark_queue_for_removal-Stays (suc fuel) h p heap linked = elim (Option-cases (h.cell p)) [
    | inl c ↦ rw (c, mark_queue_for_removal) (Stays-refl h heap linked)
    | inr (q, c) ↦ elim (Bool-cases q.is_managed) [
      | inr b ↦ rw (c, mark_queue_for_removal) (rw b (Stays-refl h heap linked))
      | inl b ↦
          let s = event-Stays h p q heap linked in
          let t =
            each_child-Stays (mark_queue_for_removal fuel fsm now) q.children
              (λ g v. mark_queue_for_removal-Stays fuel g v) _ s.heap s.linked in
          rw (c, mark_queue_for_removal) (rw b (Stays-trans s t))
    ]
  ]
