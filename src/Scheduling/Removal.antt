-- ===== src/Scheduling/Removal.antt =====
-- The removal of a scheduling queue, and the loop that looks for one (scheduler/scheduling_queue.go and
-- scheduler/scheduling_partition.go).
use Prim.Native.String.{count}
use mathlib.Core.Path.{subst}
use yunikorn_study.Prelude.{
  String, ℕ, zero, suc, ◌≡◌, refl, ◌∙◌, ap, inl, inr, Option, none, some, Bool, true, false, not,
  ◌&&◌, ◌||◌, eqb, arith, ◌==◌, eq_iff, Bool-cases, Option-cases,
}
use yunikorn_study.Dict.{lookup, erase, lookup-erase}
use yunikorn_study.Text.Names.{before_last_dot, after_last_dot, count-after_last_dot}
use yunikorn_study.State.{is_running}
use yunikorn_study.Queue.{Heap}
use yunikorn_study.Scheduling.{
  SchedulingQueue, SchedulingHeap, remove_queue, remove_child_queue, is_empty, find_existing,
  get_scheduling_queue,
}

hangs_above :
    (h : SchedulingHeap) (root : ℕ) (name shorter missing : String) (fuel : ℕ)
    → before_last_dot name ≡ some shorter
    → get_scheduling_queue h root shorter ≡ none
    → find_existing fuel h root name shorter missing ≡ none
unfolding find_existing
hangs_above h root name shorter missing zero b s = refl
hangs_above h root name shorter missing (suc fuel) b s =
    rw (s, find_existing) (rw b (hangs_above h root name shorter shorter fuel b s))

-- The loop of `createSchedulingQueue` does not end where neither the queue nor the queue above it is
-- there: no number of rounds is enough.
pub find_existing_hangs :
    (h : SchedulingHeap) (root : ℕ) (name shorter missing : String) (fuel : ℕ)
    → before_last_dot name ≡ some shorter
    → get_scheduling_queue h root name ≡ none
    → get_scheduling_queue h root shorter ≡ none
    → find_existing fuel h root name name missing ≡ none
unfolding find_existing
find_existing_hangs h root name shorter missing zero b n s = refl
find_existing_hangs h root name shorter missing (suc fuel) b n s =
    rw (n, find_existing) (rw b (hangs_above h root name shorter name fuel b s))

some_result :
    (h h' : SchedulingHeap)
    → ◌≡◌ {A = Option (SchedulingHeap × Bool)} (some (h, true)) (some (h', true))
    → h ≡ h'
some_result h h' e = cc

-- `RemoveQueue` that succeeds leaves the queue among the children of its parent, where it stands under
-- the last part of its dotted name: what it takes off is an entry under the whole name.
pub remove_queue_kept :
    (queues : Heap) (h h' : SchedulingHeap) (p up : ℕ) (sq above : SchedulingQueue)
    (shorter : String)
    → h.cell p ≡ some sq
    → sq.parent ≡ some up
    → before_last_dot sq.name ≡ some shorter
    → h.cell up ≡ some above
    → lookup (after_last_dot sq.name) above.children ≡ some p
    → remove_queue queues h p ≡ some (h', true)
    → (above' : SchedulingQueue) × (h'.cell up ≡ some above')
      × (lookup (after_last_dot sq.name) above'.children ≡ some p)
unfolding remove_queue remove_child_queue
remove_queue_kept queues h h' p up sq above shorter c o b d l e =
    elim (Option-cases (queues.cell sq.cached)) [
      | inl n ↦ cc (rw n at (rw (c, remove_queue) at e))
      | inr (q, n) ↦ elim (Bool-cases (q.is_managed && is_running q.state)) [
        | inl m ↦ cc (rw m at (rw n at (rw (c, remove_queue) at e)))
        | inr m ↦ elim (Bool-cases (not (is_empty sq.children) || not (is_empty sq.applications))) [
          | inl k ↦ cc (rw k at (rw m at (rw n at (rw (c, remove_queue) at e))))
          | inr k ↦
              let same : remove_child_queue h up sq.name ≡ h' =
                some_result _ h'
                  (rw o at (rw k at (rw m at (rw n at (rw (c, remove_queue) at e))))) in
              subst
                (λ x.
                  (above' : SchedulingQueue) × (x.cell up ≡ some above')
                  × (lookup (after_last_dot sq.name) above'.children ≡ some p))
                same (still d l)
        ]
      ]
    ]
  where
    other : (sq.name == after_last_dot sq.name) ≡ false
    other = elim (Bool-cases (sq.name == after_last_dot sq.name)) [
      | inr t ↦ t
      | inl t ↦
          let e = ap count ((eq_iff sq.name (after_last_dot sq.name)).0 t) in
          let l = count-after_last_dot sq.name shorter b in absurd (omega arith)
    ]

    still :
        h.cell up ≡ some above
        → lookup (after_last_dot sq.name) above.children ≡ some p
        → (above' : SchedulingQueue) × ((remove_child_queue h up sq.name).cell up ≡ some above')
          × (lookup (after_last_dot sq.name) above'.children ≡ some p)
    still d l =
        let test : eqb up up ≡ true = ground arith in
        (
          record above { children = erase sq.name above.children },
          unfold remove_child_queue in rw (test, d) refl,
          lookup-erase sq.name (after_last_dot sq.name) above.children ∙ rw other l,
        )
