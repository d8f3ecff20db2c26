-- ===== src/Queue/Heaps.antt =====
-- The heap of queues when a queue is put on it (cache/queue_info.go).
use mathlib.Core.Option
use native.Mathlib.Decide.{ℕ_discrete}
use mathlib.Core.Path.{subst}
use yunikorn_study.Prelude.{
  String, ℕ, ◌<◌, ◌≡◌, ◌⊎◌, refl, sym, ◌∙◌, ap, inl, inr, Option, none, some, Bool, true, false,
  if◌then◌else◌, eqb, arith, Bool-cases,
}
use yunikorn_study.State.{is_draining}
use yunikorn_study.Queue.{Queue, Heap, child_of_leaf, child_of_draining}
use yunikorn_study.Queue.Climb.{IsTree}
use yunikorn_study.Queue.Shape.{parent_cell, SameShape, SameShape-cell, IsTree-SameShape}
use yunikorn_study.Queue.Manage.{add_child_queue, update, put_child}
use yunikorn_study.Queue.Config.{allocate, registered, register, register_under}

abbrev pub IsQueue : Heap → ℕ → Type 0
IsQueue h j = (q : Queue) × (h.cell j ≡ some q)

-- A tree whose queues all lie below the next address.
pub record IsHeap (h : Heap) : Type 0 where
  pub tree : IsTree h
  pub bounded : (j : ℕ) → IsQueue h j → j < h.next

-- A constructor ends without a nil parent, in a heap again, where every old queue still is and the
-- queue that it returns, if any, is too.
abbrev pub Grows : Heap → Option (Heap × Option ℕ) → Type 0
Grows h o =
    (h' : Heap) × ((r : Option ℕ) × (o ≡ some (h', r))
      × IsHeap h'
      × ((j : ℕ) → IsQueue h j → IsQueue h' j)
      × ((p : ℕ) → r ≡ some p → IsQueue h' p))

abbrev pub HasParent : Heap → Option ℕ → Type 0
HasParent h o = (up : ℕ) → o ≡ some up → IsQueue h up

module _ (h : Heap) (q : Queue) (heap : IsHeap h) where
  pub allocate_old : (j : ℕ) → j < h.next → (allocate h q).cell j ≡ h.cell j
  allocate_old j l = let test : eqb j h.next ≡ false = ground arith in rw test refl

  pub allocate_new : (allocate h q).cell h.next ≡ some q
  allocate_new = let test : eqb h.next h.next ≡ true = ground arith in rw test refl

  pub allocate_kept : (j : ℕ) → IsQueue h j → IsQueue (allocate h q) j
  allocate_kept j (s, c) = (s, allocate_old j (heap.bounded j (s, c)) ∙ c)

  pub allocate_cases :
      (j : ℕ) (s : Queue)
      → (allocate h q).cell j ≡ some s
      → ((j ≡ h.next) × (q ≡ s)) ⊎ (h.cell j ≡ some s)
  allocate_cases j s c = elim (ℕ_discrete j h.next) [
    | yes same ↦
        let test : eqb j h.next ≡ true = ground arith in inl (same, some_eq q s (rw test at c))
    | no other ↦ let test : eqb j h.next ≡ false = ground arith in inr (rw test at c)
  ]
    where
      some_eq : (x y : Queue) → some x ≡ some y → x ≡ y
      some_eq x y e = cc

  pub allocate-IsHeap : HasParent h q.parent → IsHeap (allocate h q)
  allocate-IsHeap has = record {
    tree = λ p up s c o. elim (allocate_cases p s c) [
      | inl (same, is) ↦ placed p up s same is o
      | inr old ↦ let (older, u) = heap.tree p up s old o in (older, allocate_kept up u)
    ];
    bounded = λ j (s, c). elim (allocate_cases j s c) [
      | inl (same, is) ↦ omega arith
      | inr old ↦ let l = heap.bounded j (s, old) in omega arith
    ];
  }
    where
      placed :
          (p up : ℕ) (s : Queue)
          → p ≡ h.next
          → q ≡ s
          → s.parent ≡ some up
          → (up < p) × IsQueue (allocate h q) up
      placed p up s same is o =
          let u = has up (ap (λ x. x.parent) is ∙ o) in
          let l = heap.bounded up u in (omega arith, allocate_kept up u)

update-SameShape :
    (h : Heap) (p : ℕ) (name : String) (child : ℕ) → SameShape (update h p (put_child name child)) h
update-SameShape h p name child j = elim (Bool-cases (eqb j p)) [
  | inl c ↦ rw (c, parent_cell) (same (h.cell j))
  | inr c ↦ rw (c, parent_cell) refl
]
  where
    parent_of : Option Queue → Option (Option ℕ)
    parent_of o = elim o [ none ↦ none | some q ↦ some q.parent ]

    same : (o : Option Queue) → parent_of (Option.map (put_child name child) o) ≡ parent_of o
    same none = refl
    same (some q) = refl

pub IsHeap-SameShape :
    (h₁ h : Heap) → SameShape h₁ h → SameShape h h₁ → h₁.next ≡ h.next → IsHeap h → IsHeap h₁
IsHeap-SameShape h₁ h s back n heap = record {
  tree = IsTree-SameShape h₁ h s heap.tree;
  bounded = λ j (q, c).
      let (q₀, c₀, _) = SameShape-cell h h₁ j q back c in
      let l = heap.bounded j (q₀, c₀) in omega arith;
}

-- The child is put under a queue that is there.
registered-Grows :
    (h : Heap) (p up : ℕ) (name : String)
    → IsHeap h
    → IsQueue h up
    → IsQueue h p
    → Grows h (registered p (add_child_queue h up name p))
unfolding add_child_queue
registered-Grows h p up name heap (q, c) new =
    rw (c, add_child_queue) (by_leaf q.is_leaf (is_draining q.state))
  where
    kept : SameShape (update h up (put_child name p)) h
    kept = update-SameShape h up name p

    moved : (j : ℕ) → IsQueue h j → IsQueue (update h up (put_child name p)) j
    moved j (s, e) =
        let (s₁, e₁, _) = SameShape-cell (update h up (put_child name p)) h j s kept e in (s₁, e₁)

    at_child : (x : ℕ) → some p ≡ some x → IsQueue h x
    at_child x e = let same : p ≡ x = cc in subst (λ y. IsQueue h y) same new

    by_leaf :
        (leaf draining : Bool)
        → Grows h (
            registered p (
              some (
                if leaf
                then (h, some (child_of_leaf up))
                else (if draining
                    then (h, some (child_of_draining up))
                    else (update h up (put_child name p), none)))))
    by_leaf true draining = (h, (none, refl, heap, λ j u. u, λ x e. cc))
    by_leaf false true = (h, (none, refl, heap, λ j u. u, λ x e. cc))
    by_leaf false false = (
      update h up (put_child name p),
      (
        some p,
        refl,
        IsHeap-SameShape (update h up (put_child name p)) h kept (λ j. sym (kept j)) refl heap,
        moved,
        λ x e. moved x (at_child x e),
      ),
    )

-- What grows from a heap grows from one that has fewer queues.
Grows-from :
    (h h₁ : Heap) (o : Option (Heap × Option ℕ))
    → ((j : ℕ) → IsQueue h j → IsQueue h₁ j)
    → Grows h₁ o
    → Grows h o
Grows-from h h₁ o kept (h', (r, e, heap, old, new)) =
    (h', (r, e, heap, λ j u. old j (kept j u), new))

pub at_address :
    (h : Heap) (q : Queue) (p x : ℕ) → h.cell p ≡ some q → some p ≡ some x → IsQueue h x
at_address h q p x c e = let same : p ≡ x = cc in subst (λ y. IsQueue h y) same (q, c)

register_under-Grows :
    (h : Heap) (q : Queue) (o : Option ℕ)
    → q.parent ≡ o
    → IsHeap h
    → HasParent h q.parent
    → Grows h (register_under h q o)
register_under-Grows h q none c heap has = (
  allocate h q,
  (
    some h.next,
    refl,
    allocate-IsHeap h q heap has,
    allocate_kept h q heap,
    λ p e. at_address (allocate h q) q h.next p (allocate_new h q heap) e,
  ),
)
register_under-Grows h q (some up) c heap has =
    Grows-from h (allocate h q) _ (allocate_kept h q heap) (
      registered-Grows (allocate h q) h.next up q.name (allocate-IsHeap h q heap has)
        (allocate_kept h q heap up (has up c)) (q, allocate_new h q heap))

pub register-Grows :
    (h : Heap) (q : Queue) → IsHeap h → HasParent h q.parent → Grows h (register h q)
register-Grows h q = register_under-Grows h q q.parent refl

pub unchanged : (h : Heap) → IsHeap h → Grows h (some (h, none))
unchanged h heap = (h, (none, refl, heap, λ j u. u, λ p e. cc))
