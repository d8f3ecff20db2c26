-- ===== src/Queue/Walk.antt =====
-- How a walk up the parents ends (cache/queue_info.go).
use mathlib.Core.Option
use native.Mathlib.Decide.{ℕ_discrete}
use yunikorn_study.Prelude.{
  ℕ, suc, zero, ◌<◌, ◌≡◌, inl, inr, sym, ◌∙◌, Option, none, some, true, arith, Option-cases,
}
use yunikorn_study.Resource.{Resource}
use yunikorn_study.Queue.{Queue, Heap, QueueError, set_allocated, finish, climb}
use yunikorn_study.Queue.Climb.{
  IsTree, is_above, climb_refused, climb_missing, climb_root, climb_parent, is_above_root,
  is_above_parent, some_heap, finish_success,
}

finish_failure :
    (p : ℕ) (r : Resource) (o : Option (Heap × Option QueueError)) (h' : Heap) (x : QueueError)
    → Option.map (finish p r) o ≡ some (h', some x)
    → o ≡ some (h', some x)
finish_failure p r none h' x e = cc
finish_failure p r (some (h₁, none)) h' x e = cc
finish_failure p r (some (h₁, some err)) h' x e = e

pub is_above_self :
    (fuel : ℕ) (h : Heap) (p : ℕ) (q : Queue) → h.cell p ≡ some q → is_above (suc fuel) h p p ≡ true
is_above_self fuel h p q c = elim (Option-cases q.parent) [
  | inl o ↦ ground (arith, is_above_root fuel h p p q c o)
  | inr (up, o) ↦ ground (arith, is_above_parent fuel h p p up q c o)
]

pub is_above_up :
    (fuel : ℕ) (h : Heap) (p j up : ℕ) (q : Queue)
    → h.cell p ≡ some q
    → q.parent ≡ some up
    → is_above fuel h up j ≡ true
    → is_above (suc fuel) h p j ≡ true
is_above_up fuel h p j up q c o a = ground (arith, is_above_parent fuel h p j up q c o)

module _ (refuse : ℕ → Queue → Option QueueError) (change : Resource → Resource) (h : Heap) where
  -- A walk that fails has changed nothing, and some queue on the way up refused.
  pub climb_failure :
      (fuel p : ℕ) (h' : Heap) (x : QueueError)
      → climb fuel refuse change h p ≡ some (h', some x)
      → (h' ≡ h)
        × ((j : ℕ) × ((q : Queue) × (is_above fuel h p j ≡ true)
              × (h.cell j ≡ some q)
              × (refuse j q ≡ some x)))
  climb_failure zero p h' x e = absurd (out_of_fuel e)
    where
      out_of_fuel : ¬ (climb zero refuse change h p ≡ some (h', some x))
      out_of_fuel e = unfold climb in cc
  climb_failure (suc fuel) p h' x e = elim (Option-cases (h.cell p)) [
    | inl c ↦ cc (climb_missing refuse change h fuel p c)
    | inr (q, c) ↦ elim (Option-cases (refuse p q)) [
      | inr (err, r) ↦
          let eq = climb_refused refuse change h fuel p q err c r in
          (sym (some_heap h h' (sym eq ∙ e)), (p, (q, is_above_self fuel h p q c, c, cc eq)))
      | inl r ↦ elim (Option-cases q.parent) [
        | inl o ↦ cc (climb_root refuse change h fuel p q c r o)
        | inr (up, o) ↦
            let (same, (j, (s, a, cs, rs))) = climb_failure fuel up h' x (
              finish_failure p (change q.allocated_resource) (climb fuel refuse change h up) h' x
                (sym (climb_parent refuse change h fuel p up q c r o) ∙ e)) in
            (same, (j, (s, is_above_up fuel h p j up q c o a, cs, rs)))
      ]
    ]
  ]

  -- A walk that succeeds has passed every check on the way up.
  pub climb_checked :
      (fuel p j : ℕ) (q : Queue) (h' : Heap)
      → climb fuel refuse change h p ≡ some (h', none)
      → is_above fuel h p j ≡ true
      → h.cell j ≡ some q
      → refuse j q ≡ none
  climb_checked zero p j q h' e a c = unfold is_above in cc
  climb_checked (suc fuel) p j q h' e a c = elim (Option-cases (h.cell p)) [
    | inl c₀ ↦ cc (climb_missing refuse change h fuel p c₀)
    | inr (q₀, c₀) ↦ elim (Option-cases (refuse p q₀)) [
      | inr (err, r) ↦ cc (climb_refused refuse change h fuel p q₀ err c₀ r)
      | inl r ↦
          let own : j ≡ p → refuse j q ≡ none = λ same. cc in
          elim (Option-cases q₀.parent) [
            | inl o ↦ own (ground (arith, is_above_root fuel h p j q₀ c₀ o))
            | inr (up, o) ↦ elim (ℕ_discrete j p) [
              | yes same ↦ own same
              | no other ↦
                  let (h₁, below, eq) =
                    finish_success p (change q₀.allocated_resource) (climb fuel refuse change h up)
                      h' (sym (climb_parent refuse change h fuel p up q₀ c₀ r o) ∙ e) in
                  climb_checked fuel up j q h₁ below
                    (ground (arith, is_above_parent fuel h p j up q₀ c₀ o)) c
            ]
          ]
    ]
  ]

  -- With fuel above the address of a queue of a tree the walk ends.
  pub climb_total :
      (fuel p : ℕ) (q : Queue)
      → IsTree h
      → p < fuel
      → h.cell p ≡ some q
      → (r : Heap × Option QueueError) × (climb fuel refuse change h p ≡ some r)
  climb_total zero p q t l c = elim l [ ]
  climb_total (suc fuel) p q t l c = elim (Option-cases (refuse p q)) [
    | inr (err, r) ↦ ((h, some err), climb_refused refuse change h fuel p q err c r)
    | inl r ↦ elim (Option-cases q.parent) [
      | inl o ↦ (
        (set_allocated h p (change q.allocated_resource), none),
        climb_root refuse change h fuel p q c r o,
      )
      | inr (up, o) ↦
          let (older, (u, cu)) = t p up q c o in
          let (r', e) = climb_total fuel up u t (omega arith) cu in
          (
            finish p (change q.allocated_resource) r',
            climb_parent refuse change h fuel p up q c r o ∙ rw e,
          )
    ]
  ]
