-- ===== src/Queue/Paths.antt =====
-- The path of a queue is found, in a tree (`GetQueuePath` of cache/queue_info.go).
use Prim.Native.String.{◌++◌}
use yunikorn_study.Prelude.{
  String, ℕ, zero, suc, ◌<◌, ◌≡◌, refl, inl, inr, some, arith, Option-cases,
}
use yunikorn_study.Queue.{Queue, Heap}
use yunikorn_study.Queue.Manage.{queue_path, get_queue_path}
use yunikorn_study.Queue.Climb.{IsTree}
use yunikorn_study.Queue.Heaps.{IsQueue}

queue_path_ends :
    (h : Heap) (fuel p : ℕ) (q : Queue)
    → IsTree h
    → p < fuel
    → h.cell p ≡ some q
    → (path : String) × (queue_path fuel h p ≡ some path)
unfolding queue_path
queue_path_ends h zero p q tree l c = absurd (omega arith)
queue_path_ends h (suc fuel) p q tree l c = elim (Option-cases q.parent) [
  | inl o ↦ (q.name, rw (c, queue_path) (rw o refl))
  | inr (up, o) ↦
      let (older, (u, cu)) = tree p up q c o in
      let (path, e) = queue_path_ends h fuel up u tree (omega arith) cu in
      (path ++ ("." ++ q.name), rw (c, queue_path) (rw o (rw e refl)))
]

pub get_queue_path_ends :
    (h : Heap) (p : ℕ) → IsTree h → IsQueue h p → (path : String) × (get_queue_path h p ≡ some path)
unfolding get_queue_path
get_queue_path_ends h p tree (q, c) = queue_path_ends h (suc p) p q tree (omega arith) c
