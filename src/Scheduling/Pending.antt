-- ===== src/Scheduling/Pending.antt =====
-- Pending resources of the scheduling queues (scheduler/scheduling_queue.go).
use mathlib.Core.Option
use yunikorn_study.Prelude.{
  ℕ, zero, suc, ◌<◌, ◌≤◌, ◌≡◌, refl, ◌∙◌, ap, inl, inr, Option, none, some, Bool, true, false,
  if◌then◌else◌, eqb, arith, Bool-cases, Option-cases,
}
use yunikorn_study.Resource.{Resource}
use yunikorn_study.Scheduling.{
  SchedulingQueue, SchedulingHeap, change, change_up, add_pending, sub_pending,
  inc_pending_resource, dec_pending_resource,
}

-- Every parent is a queue, and older than its children.
abbrev pub IsOrdered : SchedulingHeap → Type 0
IsOrdered h =
    (p up : ℕ) (sq : SchedulingQueue)
    → h.cell p ≡ some sq
    → sq.parent ≡ some up
    → (up < p) × ((u : SchedulingQueue) × (h.cell up ≡ some u))

-- `j` is `p` or one of its ancestors.
unfoldable pub is_over : ℕ → SchedulingHeap → ℕ → ℕ → Bool
is_over zero h p j = false
is_over (suc fuel) h p j = elim (h.cell p) [
  | none ↦ false
  | some sq ↦ elim sq.parent [
    | none ↦ eqb j p
    | some up ↦ if eqb j p then true else is_over fuel h up j
  ]
]

is_over-le :
    (fuel : ℕ) (h : SchedulingHeap) (p j : ℕ) → IsOrdered h → is_over fuel h p j ≡ true → j ≤ p
unfolding is_over
is_over-le zero h p j t e = cc
is_over-le (suc fuel) h p j t e = elim (Option-cases (h.cell p)) [
  | inl c ↦ ground arith
  | inr (sq, c) ↦ elim (Option-cases sq.parent) [
    | inl o ↦ ground arith
    | inr (up, o) ↦ ground (arith, (t p up sq c o).0, is_over-le fuel h up j t)
  ]
]

-- Exactly the queues on the way up are changed.
abbrev pub ChangesPath :
    (SchedulingQueue → SchedulingQueue)
    → SchedulingHeap
    → (ℕ → Bool)
    → Option SchedulingHeap
    → Type 0
ChangesPath f h on o =
    (h' : SchedulingHeap) × (o ≡ some h')
    × ((j : ℕ) → h'.cell j ≡ (if on j then Option.map f (h.cell j) else h.cell j))

change_up_lem :
    (f : SchedulingQueue → SchedulingQueue) (fuel : ℕ) (h : SchedulingHeap) (p : ℕ)
    (sq : SchedulingQueue)
    → IsOrdered h
    → p < fuel
    → h.cell p ≡ some sq
    → ChangesPath f h (is_over fuel h p) (change_up fuel f h p)
unfolding change_up is_over
change_up_lem f zero h p sq t l c = absurd (omega arith)
change_up_lem f (suc fuel) h p sq t l c = elim (Option-cases sq.parent) [
  | inl o ↦ (change h p f, rw (c, change_up) (rw o refl), λ j. rw (c, is_over) (rw o refl))
  | inr (up, o) ↦
      let (older, (u, cu)) = t p up sq c o in
      let (h₁, e, at) = change_up_lem f fuel h up u t (omega arith) cu in
      (
        change h₁ p f,
        rw (c, change_up) (rw o (rw e refl)),
        λ j.
            rw (c, is_over)
              (rw o (elim (Bool-cases (eqb j p)) [
                | inl same ↦ rw same (ap (Option.map f) (kept h₁ up older at j same))
                | inr other ↦ rw other (at j)
              ])),
      )
]
  where
    kept :
        (h₁ : SchedulingHeap) (up : ℕ)
        → up < p
        → ((j : ℕ)
            → h₁.cell j ≡ (if is_over fuel h up j then Option.map f (h.cell j) else h.cell j))
        → (j : ℕ) → eqb j p ≡ true
        → h₁.cell j ≡ h.cell j
    kept h₁ up older at j same = elim (Bool-cases (is_over fuel h up j)) [
      | inr out ↦ at j ∙ rw out refl
      | inl over ↦ let low = is_over-le fuel h up j t over in absurd (ground arith)
    ]

-- `IncPendingResource` and `DecPendingResource` of a queue that is there end, and add or take off the
-- resource at the queue and at each of its ancestors, and nowhere else.
pub inc_pending_resource-ChangesPath :
    (h : SchedulingHeap) (p : ℕ) (sq : SchedulingQueue) (delta : Resource)
    → IsOrdered h
    → h.cell p ≡ some sq
    → ChangesPath (add_pending delta) h (is_over (suc p) h p) (inc_pending_resource h p delta)
      × ChangesPath (sub_pending delta) h (is_over (suc p) h p) (dec_pending_resource h p delta)
unfolding inc_pending_resource dec_pending_resource
inc_pending_resource-ChangesPath h p sq delta t c = (
  change_up_lem (add_pending delta) (suc p) h p sq t (omega arith) c,
  change_up_lem (sub_pending delta) (suc p) h p sq t (omega arith) c,
)
