-- ===== src/Partition/Reloaded.antt =====
-- A reload ends and keeps every queue (cache/partition_info.go).
use Prim.Native.String.{◌++◌}
use yunikorn_study.Prelude.{
  String, ℕ, ◌≡◌, refl, ◌∙◌, ap, inl, inr, Option, none, some, Bool, true, false, [], ◌∷◌,
  if◌then◌else◌, Option-cases, Bool-cases,
}
use yunikorn_study.Dict.{Dict, insert}
use yunikorn_study.Acl.{is_member}
use yunikorn_study.State.{ObjectFsm}
use yunikorn_study.Queue.{Queue, Heap}
use yunikorn_study.Queue.Manage.{update, mark_queue_for_removal, get_queue_path}
use yunikorn_study.Queue.Config.{
  QueueFields, queue_config, QueueConfigs, no_queues, and_queue, has_queues, go_below,
  properties_at, new_managed_queue,
}
use yunikorn_study.Queue.Heaps.{IsQueue, IsHeap, at_address}
use yunikorn_study.Queue.Grow.{new_managed_queue-Grows, update_queue_props-SameLinks}
use yunikorn_study.Queue.Links.{IsLinked, new_managed_queue-IsLinked}
use yunikorn_study.Queue.Paths.{get_queue_path_ends}
use yunikorn_study.Queue.Marking.{
  Stays, Stays-trans, Stays-refl, IsInner, update-Stays, mark_queue_for_removal-Stays,
}
use yunikorn_study.Partition.Monad.{Partition}
use yunikorn_study.Partition.Defs.{get_queue}
use yunikorn_study.Partition.Create.{get_queue-IsQueue}
use yunikorn_study.Partition.Reload.{
  props_of, written, update_existing, reload_queue, reload_next, at_path, mark_unvisited,
  mark_level, finish_level, update_each, update_queues,
}

-- A call ends with queues that stay and, unless it failed, with a queue of the heap.
abbrev pub Yields : Heap → Option (Heap × Option ℕ) → Type 0
Yields h o =
    (h' : Heap) × ((r : Option ℕ) × (o ≡ some (h', r))
      × Stays h h'
      × ((c : ℕ) → r ≡ some c → IsQueue h' c))

-- A call ends with queues that stay.
abbrev pub Ends : {A : Type 0} → Heap → Option (Heap × A) → Type 0
Ends {A = A} h o = (h' : Heap) × ((a : A) × (o ≡ some (h', a)) × Stays h h')

new_managed_queue-Yields :
    (h : Heap) (fields : QueueFields) (below : Bool) (p : ℕ)
    → IsHeap h
    → IsLinked h
    → IsQueue h p
    → Yields h (new_managed_queue h fields below (some p))
new_managed_queue-Yields h fields below p heap linked (q, c) =
    let has : (up : ℕ) → some p ≡ some up → IsQueue h up = λ up e. at_address h q p up c e in
    let (h', (r, e, heap', old, new)) = new_managed_queue-Grows h fields below (some p) heap has in
    let linked' = new_managed_queue-IsLinked h fields below (some p) h' r heap linked has e in
    (h', (r, e, record { heap = heap'; linked = linked'; kept = old }, new))

props_of-IsInner :
    (h : Heap) (fields : QueueFields) (below : Bool) → IsInner (λ q. (props_of h fields below q).0)
props_of-IsInner h fields below = record {
  parent = λ q. (update_queue_props-SameLinks (properties_at h q.parent) fields below q).0;
  children = λ q. (update_queue_props-SameLinks (properties_at h q.parent) fields below q).1;
}

pub update_existing-Yields :
    (h : Heap) (c : ℕ) (fields : QueueFields) (below : Bool)
    → IsHeap h
    → IsLinked h
    → IsQueue h c
    → Yields h (update_existing h c fields below)
unfolding update_existing
update_existing-Yields h c fields below heap linked (q, e) =
    let h' = update h c (λ x. (props_of h fields below x).0) in
    let s =
      update-Stays h c (λ x. (props_of h fields below x).0) (props_of-IsInner h fields below) heap
        linked in
    let (q', e') = s.kept c (q, e) in
    rw (e, update_existing) (by_error h' s q' e' (props_of h fields below q).1)
  where
    by_error :
        (h' : Heap)
        → Stays h h'
        → (q' : Queue) → h'.cell c ≡ some q'
        → (bad : Bool) → Yields h (some (written h' c bad))
    by_error h' s q' e' true = (h', (none, refl, s, λ x f. cc))
    by_error h' s q' e' false = (h', (some c, refl, s, λ x f. at_address h' q' c x e' f))

reload_queue-Yields :
    (h : Heap) (p : ℕ) (fields : QueueFields) (below : Bool) (o : Option ℕ)
    → IsHeap h
    → IsLinked h
    → IsQueue h p
    → ((c : ℕ) → o ≡ some c → IsQueue h c)
    → Yields h (reload_queue h p fields below o)
reload_queue-Yields h p fields below none heap linked at found =
    new_managed_queue-Yields h fields below p heap linked at
reload_queue-Yields h p fields below (some c) heap linked at found =
    update_existing-Yields h c fields below heap linked (found c refl)

module _ (pi : Partition) (fsm : ObjectFsm) (now : ℕ → ℕ) where
  mark_unvisited-Stays :
      (visited : Dict Bool) (children : Dict ℕ) (h : Heap)
      → IsHeap h
      → IsLinked h
      → Stays h (mark_unvisited pi fsm now visited children h)
  unfolding mark_unvisited
  mark_unvisited-Stays visited [] h heap linked = Stays-refl h heap linked
  mark_unvisited-Stays visited ((name, child) ∷ children) h heap linked =
      let s = by_test (is_member name visited) in
      Stays-trans s (mark_unvisited-Stays visited children _ s.heap s.linked)
    where
      by_test :
          (b : Bool) → Stays h (if b then h else mark_queue_for_removal h.next fsm now h child)
      by_test true = Stays-refl h heap linked
      by_test false = mark_queue_for_removal-Stays fsm now h.next h child heap linked

  finish_level-Ends :
      (h h' : Heap) (p : ℕ) (visited : Option (Dict Bool))
      → Stays h h'
      → IsQueue h' p
      → Ends h (finish_level pi fsm now p (some (h', visited)))
  finish_level-Ends h h' p none s at = (h', (false, refl, s))
  finish_level-Ends h h' p (some visited) s (q, c) =
      let t = mark_unvisited-Stays visited q.children h' s.heap s.linked in
      (
        mark_unvisited pi fsm now visited q.children h',
        (true, rw (c, mark_level) refl, Stays-trans s t),
      )

  abbrev below_level : QueueConfigs → Heap → ℕ → Option (Heap × Bool)
  below_level below h' c =
      at_path (get_queue_path h' c)
        (λ up. finish_level pi fsm now c (update_each pi fsm now h' (up ++ ".") c below []))

  -- A level ends, if its loop does.
  below_level-Ends :
      (h : Heap) (below : QueueConfigs) (c : ℕ)
      → IsHeap h
      → IsQueue h c
      → ((path : String) → Ends h (update_each pi fsm now h path c below []))
      → Ends h (below_level below h c)
  below_level-Ends h below c heap at loop =
      let (path, e) = get_queue_path_ends h c heap.tree at in
      let (h₁, (visited, e₁, s₁)) = loop (path ++ ".") in
      let (h₂, (done, e₂, s₂)) = finish_level-Ends h h₁ c visited s₁ (s₁.kept c at) in
      (
        h₂,
        (
          done,
          ap
                (λ x. at_path x (λ up.
                  finish_level pi fsm now c (update_each pi fsm now h (up ++ ".") c below [])))
                e
              ∙ ap (finish_level pi fsm now c) e₁
              ∙ e₂,
          s₂,
        ),
      )

  update_each-Ends :
      (h : Heap) (path : String) (p : ℕ) (queues : QueueConfigs) (visited : Dict Bool)
      → IsHeap h
      → IsLinked h
      → IsQueue h p
      → IsQueue h pi.root
      → Ends h (update_each pi fsm now h path p queues visited)
  unfolding update_each
  update_each-Ends h path p no_queues visited heap linked at root =
      (h, (some visited, refl, Stays-refl h heap linked))
  update_each-Ends h path p (and_queue (queue_config fields below) others) visited heap linked at
        root =
      let (h₁, (r, e₁, s₁, there)) =
        reload_queue-Yields h p fields (has_queues below)
          (get_queue (record pi { queues = h }) (path ++ fields.name)) heap linked at
          (λ c f.
            get_queue-IsQueue (record pi { queues = h }) (path ++ fields.name) c linked root f) in
      let next : Heap → Option (Heap × Option (Dict Bool)) =
        λ g. update_each pi fsm now g path p others (insert fields.name true visited) in
      let made : Option (Heap × Option ℕ) → Option (Heap × Option (Dict Bool)) =
        λ x. reload_next next (go_below (below_level below) x) in
      elim (Option-cases r) [
        | inl f ↦ (h₁, (none, ap made (e₁ ∙ ap (λ x. some (h₁, x)) f), s₁))
        | inr (c, f) ↦
            let (h₂, (done, e₂, s₂)) = below_level-Ends h₁ below c s₁.heap (there c f) (λ up.
              update_each-Ends h₁ up c below [] s₁.heap s₁.linked (there c f)
                (s₁.kept pi.root root)) in
            let s = Stays-trans s₁ s₂ in
            let so_far : made (
                  reload_queue h p fields (has_queues below)
                    (get_queue (record pi { queues = h }) (path ++ fields.name)))
                ≡ reload_next next (some (h₂, done)) =
              ap made (e₁ ∙ ap (λ x. some (h₁, x)) f) ∙ ap (reload_next next) e₂ in
            elim (Bool-cases done) [
              | inr d ↦ (h₂, (none, so_far ∙ ap (λ b. reload_next next (some (h₂, b))) d, s))
              | inl d ↦
                  let (h₃, (seen, e₃, s₃)) =
                    update_each-Ends h₂ path p others (insert fields.name true visited) s.heap
                      s.linked (s.kept p at) (s.kept pi.root root) in
                  (
                    h₃,
                    (
                      seen,
                      so_far ∙ ap (λ b. reload_next next (some (h₂, b))) d ∙ e₃,
                      Stays-trans s s₃,
                    ),
                  )
            ]
      ]

  -- `updateQueues` of a queue that is there ends, without a nil queue on the way, whatever the
  -- configuration holds. It keeps every queue, a tree of queues whose children are younger, and may be
  -- stopped by an error half way.
  pub update_queues-Ends :
      (h : Heap) (queues : QueueConfigs) (p : ℕ)
      → IsHeap h
      → IsLinked h
      → IsQueue h p
      → IsQueue h pi.root
      → Ends h (update_queues pi fsm now h queues p)
  unfolding update_queues
  update_queues-Ends h queues p heap linked at root =
      below_level-Ends h queues p heap at
        (λ path. update_each-Ends h path p queues [] heap linked at root)
