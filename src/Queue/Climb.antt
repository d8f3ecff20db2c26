-- ===== src/Queue/Climb.antt =====
-- What a walk up the parents changes (cache/queue_info.go).
use mathlib.Core.Option
use native.Mathlib.Decide.{ℕ_discrete}
use yunikorn_study.Prelude.{
  ℕ, suc, zero, ◌<◌, ◌≤◌, ◌≡◌, refl, inl, inr, ◌∙◌, ap, sym, Option, none, some, Bool, true, false,
  if◌then◌else◌, eqb, arith, Option-cases, Bool-cases,
}
use yunikorn_study.Resource.{Resource}
use yunikorn_study.Queue.{Queue, Heap, QueueError, put_allocated, set_allocated, finish, climb}

-- Every parent is a queue, and older than its children.
abbrev pub IsTree : Heap → Type 0
IsTree h =
    (p up : ℕ) (q : Queue)
    → h.cell p ≡ some q
    → q.parent ≡ some up
    → (up < p) × ((u : Queue) × (h.cell up ≡ some u))

-- `j` is `p` or one of its ancestors.
unfoldable pub is_above : ℕ → Heap → ℕ → ℕ → Bool
is_above zero h p j = false
is_above (suc fuel) h p j = elim (h.cell p) [
  | none ↦ false
  | some q ↦ elim q.parent [
    | none ↦ eqb j p
    | some up ↦ if eqb j p then true else is_above fuel h up j
  ]
]

-- An ancestor is not younger.
is_above-le : (fuel : ℕ) (h : Heap) (p j : ℕ) → IsTree h → is_above fuel h p j ≡ true → j ≤ p
unfolding is_above
is_above-le zero h p j t e = cc
is_above-le (suc fuel) h p j t e = elim (Option-cases (h.cell p)) [
  | inl c ↦ ground arith
  | inr (q, c) ↦ elim (Option-cases q.parent) [
    | inl o ↦ ground arith
    | inr (up, o) ↦ ground (arith, (t p up q c o).0, is_above-le fuel h up j t)
  ]
]

-- The queue after a change of what it has allocated.
abbrev pub reallocate : (Resource → Resource) → Queue → Queue
reallocate change q = record q { allocated_resource = change q.allocated_resource }

cell-set_allocated :
    (h : Heap) (p j : ℕ) (r : Resource)
    → (set_allocated h p r).cell j
      ≡ (if eqb j p then Option.map (put_allocated r) (h.cell j) else h.cell j)
unfolding set_allocated
cell-set_allocated h p j r = refl

module _ (refuse : ℕ → Queue → Option QueueError) (change : Resource → Resource) (h : Heap) where
  pub climb_refused :
      (fuel p : ℕ) (q : Queue) (e : QueueError)
      → h.cell p ≡ some q
      → refuse p q ≡ some e
      → climb (suc fuel) refuse change h p ≡ some (h, some e)
  unfolding climb
  climb_refused fuel p q e c r = rw (c, climb) (rw r)

  pub climb_missing : (fuel p : ℕ) → h.cell p ≡ none → climb (suc fuel) refuse change h p ≡ none
  unfolding climb
  climb_missing fuel p c = rw (c, climb)

  pub climb_root :
      (fuel p : ℕ) (q : Queue)
      → h.cell p ≡ some q
      → refuse p q ≡ none
      → q.parent ≡ none
      → climb (suc fuel) refuse change h p
        ≡ some (set_allocated h p (change q.allocated_resource), none)
  unfolding climb
  climb_root fuel p q c r o = rw (c, climb) (rw r (rw o))

  pub climb_parent :
      (fuel p up : ℕ) (q : Queue)
      → h.cell p ≡ some q
      → refuse p q ≡ none
      → q.parent ≡ some up
      → climb (suc fuel) refuse change h p
        ≡ Option.map (finish p (change q.allocated_resource)) (climb fuel refuse change h up)
  unfolding climb
  climb_parent fuel p up q c r o = rw (c, climb) (rw r (rw o))

pub some_heap :
    (h₁ h₂ : Heap) {x y : Option QueueError}
    → ◌≡◌ {A = Option (Heap × Option QueueError)} (some (h₁, x)) (some (h₂, y))
    → h₁ ≡ h₂
some_heap h₁ h₂ e = ap heap_of e
  where
    heap_of : Option (Heap × Option QueueError) → Heap
    heap_of none = h₁
    heap_of (some (x, _)) = x

-- The result of a walk on the parent, and that of the walk itself.
pub finish_success :
    (p : ℕ) (r : Resource) (o : Option (Heap × Option QueueError)) (h' : Heap)
    → Option.map (finish p r) o ≡ some (h', none)
    → (h₁ : Heap) × (o ≡ some (h₁, none)) × (h' ≡ set_allocated h₁ p r)
finish_success p r none h' e = cc
finish_success p r (some (h₁, none)) h' e = (h₁, refl, sym (some_heap _ h' e))
finish_success p r (some (h₁, some err)) h' e = cc

-- At the queue itself, which is not above its parent, the walk writes what it computed.
climb_write :
    (h h₁ : Heap) (p j : ℕ) (q : Queue) (change : Resource → Resource) (above : Bool)
    → h.cell p ≡ some q
    → (j ≡ p → above ≡ false)
    → h₁.cell j ≡ (if above then Option.map (reallocate change) (h.cell j) else h.cell j)
    → (set_allocated h₁ p (change q.allocated_resource)).cell j ≡ (
        if (if eqb j p then true else above)
        then Option.map (reallocate change) (h.cell j)
        else h.cell j)
climb_write h h₁ p j q change above c apart e = rw cell-set_allocated (elim (ℕ_discrete j p) [
  | yes same ↦
      let test : eqb j p ≡ true = ground arith in
      let old : h.cell j ≡ some q = rw same c in
      let now : h₁.cell j ≡ some q = (rw (apart same) at e) ∙ old in rw test (rw (now, old))
  | no other ↦ let test : eqb j p ≡ false = ground arith in rw test e
])

pub is_above_missing :
    (fuel : ℕ) (h : Heap) (p j : ℕ) → h.cell p ≡ none → is_above (suc fuel) h p j ≡ false
unfolding is_above
is_above_missing fuel h p j c = rw (c, is_above)

pub is_above_root :
    (fuel : ℕ) (h : Heap) (p j : ℕ) (q : Queue)
    → h.cell p ≡ some q
    → q.parent ≡ none
    → is_above (suc fuel) h p j ≡ (if eqb j p then true else false)
unfolding is_above
is_above_root fuel h p j q c o = rw (c, is_above) (rw o (ground arith))

pub is_above_parent :
    (fuel : ℕ) (h : Heap) (p j up : ℕ) (q : Queue)
    → h.cell p ≡ some q
    → q.parent ≡ some up
    → is_above (suc fuel) h p j ≡ (if eqb j p then true else is_above fuel h up j)
unfolding is_above
is_above_parent fuel h p j up q c o = rw (c, is_above) (rw o)

not_above_parent :
    (fuel : ℕ) (h : Heap) (p j up : ℕ) (q : Queue)
    → IsTree h
    → h.cell p ≡ some q
    → q.parent ≡ some up
    → j ≡ p
    → is_above fuel h up j ≡ false
not_above_parent fuel h p j up q t c o same = elim (Bool-cases (is_above fuel h up j)) [
  | inl above ↦ absurd (omega (arith, (t p up q c o).0, is_above-le fuel h up j t above))
  | inr below ↦ below
]

-- A walk that succeeds changes the allocation of a queue and of all its ancestors, and nothing else.
pub climb_success :
    (fuel : ℕ) (refuse : ℕ → Queue → Option QueueError) (change : Resource → Resource) (h : Heap)
    (p : ℕ) (h' : Heap) (j : ℕ)
    → IsTree h
    → climb fuel refuse change h p ≡ some (h', none)
    → h'.cell j
      ≡ (if is_above fuel h p j then Option.map (reallocate change) (h.cell j) else h.cell j)
climb_success zero refuse change h p h' j t e = unfold climb in ground arith
climb_success (suc fuel) refuse change h p h' j t e = elim (Option-cases (h.cell p)) [
  | inl c ↦ cc (climb_missing refuse change h fuel p c)
  | inr (q, c) ↦ elim (Option-cases (refuse p q)) [
    | inr (err, r) ↦ cc (climb_refused refuse change h fuel p q err c r)
    | inl r ↦ elim (Option-cases q.parent) [
      | inl o ↦
          let eq : h' ≡ set_allocated h p (change q.allocated_resource) =
            some_heap h' _ (sym e ∙ climb_root refuse change h fuel p q c r o) in
          rw (eq, is_above_root fuel h p j q c o)
            (climb_write h h p j q change false c (λ _. refl) refl)
      | inr (up, o) ↦
          let (h₁, below, eq) =
            finish_success p (change q.allocated_resource) (climb fuel refuse change h up) h'
              (sym (climb_parent refuse change h fuel p up q c r o) ∙ e) in
          rw (eq, is_above_parent fuel h p j up q c o)
            (climb_write h h₁ p j q change (is_above fuel h up j) c
              (not_above_parent fuel h p j up q t c o)
              (climb_success fuel refuse change h up h₁ j t below))
    ]
  ]
]
