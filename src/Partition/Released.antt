-- ===== src/Partition/Released.antt =====
-- What giving back the allocations of a node comes to (the loop of `removeNodeInternal` in
-- cache/partition_info.go).
use yunikorn_study.Prelude.{
  String, ◌≡◌, refl, sym, ap, ◌∙◌, Option, none, some, Bool, false, List, [], ◌∷◌, ◌==◌, ◌&&◌, ◌||◌,
  if◌then◌else◌, inl, inr, Bool-cases, eq_iff, arith,
}
use yunikorn_study.Dict.{lookup, insert, erase, lookup-insert, lookup-insert_eq, lookup-erase}
use yunikorn_study.Resource.{sub_resource}
use yunikorn_study.Allocation.{Allocation}
use yunikorn_study.Application.{Application}
use yunikorn_study.Queue.{Heap}
use yunikorn_study.Partition.Monad.{Partition}
use yunikorn_study.Partition.Release.{IsGivenBack}

-- The application without an allocation that it had, and the rest of the partition as it was.
abbrev pub without : Application → String → Allocation → Application
without app uuid held = record app {
  allocated_resource = sub_resource (some app.allocated_resource) (some held.allocated_resource);
  allocations = erase uuid app.allocations;
}

-- One allocation of the node: its application is not there, the application does not have it, or the
-- application gives it up and its queue gets the resource back.
pub data IsStep (alloc : Allocation) (pi : Partition) : Partition → Type 0 where
  no_application : lookup alloc.application_id pi.applications ≡ none → IsStep alloc pi pi
  not_held :
      (app : Application)
      → lookup alloc.application_id pi.applications ≡ some app
      → lookup alloc.uuid app.allocations ≡ none
      → IsStep alloc pi pi
  given_back :
      (app : Application) (held : Allocation) (h : Heap)
      → lookup alloc.application_id pi.applications ≡ some app
      → lookup alloc.uuid app.allocations ≡ some held
      → IsGivenBack app.leaf_queue alloc.allocated_resource pi.queues h
      → IsStep alloc pi (record pi {
        applications = insert alloc.application_id (without app alloc.uuid held) pi.applications;
        queues = h;
      })

-- The allocations of the node, one after the other.
pub data IsReleased : List Allocation → Partition → Partition → Type 0 where
  all_done : {pi : Partition} → IsReleased [] pi pi
  next_one :
      {alloc : Allocation} {allocs : List Allocation} {pi pi₁ pi₂ : Partition}
      → IsStep alloc pi pi₁
      → IsReleased allocs pi₁ pi₂
      → IsReleased (alloc ∷ allocs) pi pi₂

-- Whether an allocation of an application is among those of the list.
abbrev pub is_among : String → String → List Allocation → Bool
is_among id uuid [] = false
is_among id uuid (a ∷ allocs) =
    (a.application_id == id && a.uuid == uuid) || is_among id uuid allocs

-- The applications stay, each in its queue, and have exactly the allocations that are not of the list.
abbrev pub GivesUp : List Allocation → Partition → Partition → Type 0
GivesUp allocs pi pi' =
    (id : String) (app : Application)
    → lookup id pi.applications ≡ some app
    → (app' : Application) × (lookup id pi'.applications ≡ some app')
      × (app'.leaf_queue ≡ app.leaf_queue)
      × ((u : String)
          → lookup u app'.allocations
            ≡ (if is_among id u allocs then none else lookup u app.allocations))

some_app : (a b : Application) → ◌≡◌ {A = Option Application} (some a) (some b) → a ≡ b
some_app a b e = cc

step-GivesUp :
    (alloc : Allocation) (pi pi' : Partition) → IsStep alloc pi pi' → GivesUp (alloc ∷ []) pi pi'
step-GivesUp alloc pi pi' (no_application n) id app e =
    elim (Bool-cases (alloc.application_id == id)) [
      | inl t ↦ cc (ap (λ x. lookup x pi.applications) ((eq_iff alloc.application_id id).0 t), n, e)
      | inr t ↦ (app, e, refl, λ u. rw t refl)
    ]
step-GivesUp alloc pi pi' (not_held app₀ n h) id app e =
    elim (Bool-cases (alloc.application_id == id)) [
      | inl t ↦
          let same_id : alloc.application_id ≡ id = (eq_iff alloc.application_id id).0 t in
          let same : app₀ ≡ app =
            some_app app₀ app (sym n ∙ ap (λ x. lookup x pi.applications) same_id ∙ e) in
          (
            app,
            e,
            refl,
            λ u. elim (Bool-cases (alloc.uuid == u)) [
              | inl v ↦
                  let same_uuid : alloc.uuid ≡ u = (eq_iff alloc.uuid u).0 v in
                  rw (t, v)
                    (ap (λ x. lookup u x.allocations) (sym same)
                      ∙ ap (λ x. lookup x app₀.allocations) (sym same_uuid)
                      ∙ h)
              | inr v ↦ rw (t, v) refl
            ],
          )
      | inr t ↦ (app, e, refl, λ u. rw t refl)
    ]
step-GivesUp alloc pi pi' (given_back app₀ held h n a back) id app e =
    elim (Bool-cases (alloc.application_id == id)) [
      | inl t ↦
          let same_id : alloc.application_id ≡ id = (eq_iff alloc.application_id id).0 t in
          let same : app₀ ≡ app =
            some_app app₀ app (sym n ∙ ap (λ x. lookup x pi.applications) same_id ∙ e) in
          (
            without app₀ alloc.uuid held,
            lookup-insert_eq alloc.application_id id _ pi.applications same_id,
            ap (λ x. x.leaf_queue) same,
            λ u. elim (Bool-cases (alloc.uuid == u)) [
              | inl v ↦ rw (lookup-erase alloc.uuid u app₀.allocations, t, v) refl
              | inr v ↦
                  rw (lookup-erase alloc.uuid u app₀.allocations, t, v)
                    (ap (λ x. lookup u x.allocations) same)
            ],
          )
      | inr t ↦ (
        app,
        rw (lookup-insert alloc.application_id id (without app₀ alloc.uuid held) pi.applications, t)
            e,
        refl,
        λ u. rw t refl,
      )
    ]

pub IsReleased-GivesUp :
    (allocs : List Allocation) (pi pi' : Partition)
    → IsReleased allocs pi pi'
    → GivesUp allocs pi pi'
IsReleased-GivesUp [] pi pi' all_done id app e = (app, e, refl, λ u. refl)
IsReleased-GivesUp (alloc ∷ allocs) pi pi' (next_one {pi₁ = pi₁} s r) id app e =
    let (app₁, e₁, q₁, u₁) = step-GivesUp alloc pi pi₁ s id app e in
    let (app₂, e₂, q₂, u₂) = IsReleased-GivesUp allocs pi₁ pi' r id app₁ e₁ in
    (app₂, e₂, q₂ ∙ q₁, λ u. ground (arith, u₁ u, u₂ u))
