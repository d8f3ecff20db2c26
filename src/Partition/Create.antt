-- ===== src/Partition/Create.antt =====
-- `CreateQueues`: the queues that a placement rule asks for (cache/partition_info.go).
use Prim.Native.String.{count}
use mathlib.Core.Option
use yunikorn_study.Prelude.{
  String, ℕ, zero, suc, ◌≡◌, refl, ◌<◌, inl, inr, Option, none, some, Bool, true, false, List, [],
  ◌∷◌, if◌then◌else◌, arith, Option-cases, Bool-cases,
}
use yunikorn_study.Dict.{lookup}
use yunikorn_study.Text.{split, to_lower}
use yunikorn_study.Text.Names.{
  has_prefix, before_last_dot, after_last_dot, count-before_last_dot, split-to_lower_single,
}
use yunikorn_study.Queue.{Heap}
use yunikorn_study.Queue.Config.{new_unmanaged_queue}
use yunikorn_study.Queue.Heaps.{IsQueue, IsHeap, at_address}
use yunikorn_study.Queue.Grow.{new_unmanaged_queue-Grows}
use yunikorn_study.Queue.Links.{IsLinked, new_unmanaged_queue-IsLinked}
use yunikorn_study.Partition.Monad.{Partition}
use yunikorn_study.Partition.Defs.{walk_down, walk_parts, get_queue}

-- The first loop: the names to create, in the order in which they are made, and the queue that is
-- there. `none` is out of fuel, or a name without a dot whose queue is nil.
unfoldable pub missing : ℕ → Partition → String → List String → Option (List String × ℕ)
missing zero pi current to_create = none
missing (suc fuel) pi current to_create = elim (get_queue pi current) [
  | some p ↦ some (to_create, p)
  | none ↦ elim (before_last_dot current) [
    | none ↦ none
    | some shorter ↦ missing fuel pi shorter (after_last_dot current ∷ to_create)
  ]
]

abbrev pub is_last : List String → Bool
is_last [] = true
is_last (name ∷ names) = false

-- The second loop. A queue that fails is only logged: the next one has a nil parent.
unfoldable pub create_loop : Heap → Option ℕ → List String → Option Heap
create_loop h parent [] = some h
create_loop h parent (name ∷ names) = elim (new_unmanaged_queue h name (is_last names) parent) [
  | none ↦ none
  | some (h', p) ↦ create_loop h' p names
]

pub data CreateError : Type 0 where
  not_qualified : String → CreateError
  below_leaf : ℕ → CreateError

abbrev pub put_queues : Partition → Heap → Partition × Option CreateError
put_queues pi h = (record pi { queues = h }, none)

abbrev pub create_below :
    Partition → Option (List String × ℕ) → Option (Partition × Option CreateError)
create_below pi none = none
create_below pi (some (names, p)) = elim (pi.queues.cell p) [
  | none ↦ none
  | some q ↦
      if q.is_leaf
      then some (pi, some (below_leaf p))
      else Option.map (put_queues pi) (create_loop pi.queues (some p) names)
]

-- A name is cut shorter in each round, so its length plus one is enough fuel.
unfoldable pub create_queues : Partition → String → Option (Partition × Option CreateError)
create_queues pi queue_name =
    if has_prefix "root." queue_name
    then create_below pi (missing (suc (count queue_name)) pi queue_name [])
    else some (pi, some (not_qualified queue_name))

pub walk_down-IsQueue :
    (h : Heap) (p : ℕ) (parts : List String) (r : ℕ)
    → IsLinked h
    → IsQueue h p
    → walk_down h p parts ≡ some r
    → IsQueue h r
unfolding walk_down
walk_down-IsQueue h p [] r linked (q, c) e = at_address h q p r c e
walk_down-IsQueue h p (part ∷ parts) r linked (q, c) e =
    elim (Option-cases (lookup part q.children)) [
      | inl n ↦ cc (rw n at (rw (c, walk_down) at e))
      | inr (child, n) ↦
          walk_down-IsQueue h child parts r linked ((linked p q c).0 part child n).0
            (rw n at (rw (c, walk_down) at e))
    ]

pub get_queue-IsQueue :
    (pi : Partition) (name : String) (p : ℕ)
    → IsLinked pi.queues
    → IsQueue pi.queues pi.root
    → get_queue pi name ≡ some p
    → IsQueue pi.queues p
unfolding get_queue
get_queue-IsQueue pi name p linked root e = parts (split b'.' (to_lower name)) e
  where
    parts : (l : List String) → walk_parts pi.queues pi.root l ≡ some p → IsQueue pi.queues p
    parts [] e = at_address pi.queues root.0 pi.root p root.1 e
    parts (first ∷ l) e = walk_down-IsQueue pi.queues pi.root l p linked root e

pub get_queue_single :
    (pi : Partition) (name : String)
    → before_last_dot name ≡ none
    → get_queue pi name ≡ some pi.root
unfolding get_queue walk_down
get_queue_single pi name e = rw (split-to_lower_single name e) refl

missing_ends :
    (fuel : ℕ) (pi : Partition) (current : String) (to_create : List String)
    → count current < fuel
    → (names : List String) × ((p : ℕ) × (missing fuel pi current to_create ≡ some (names, p))
        × ((shorter : String) × (get_queue pi shorter ≡ some p)))
unfolding missing
missing_ends zero pi current to_create l = absurd (omega arith)
missing_ends (suc fuel) pi current to_create l = elim (Option-cases (get_queue pi current)) [
  | inr (p, g) ↦ (to_create, (p, rw (g, missing) refl, (current, g)))
  | inl g ↦ elim (Option-cases (before_last_dot current)) [
    | inl b ↦ cc (g, get_queue_single pi current b)
    | inr (shorter, b) ↦
        let less = count-before_last_dot current shorter b in
        let (names, (p, e, found)) =
          missing_ends fuel pi shorter (after_last_dot current ∷ to_create) (omega arith) in
        (names, (p, rw (g, missing) (rw b e), found))
  ]
]

-- The second loop ends, in a heap that has all the old queues.
create_loop_ends :
    (h : Heap) (parent : Option ℕ) (names : List String)
    → IsHeap h
    → IsLinked h
    → ((up : ℕ) → parent ≡ some up → IsQueue h up)
    → (h' : Heap) × (create_loop h parent names ≡ some h')
      × IsHeap h'
      × IsLinked h'
      × ((j : ℕ) → IsQueue h j → IsQueue h' j)
unfolding create_loop
create_loop_ends h parent [] heap linked has = (h, refl, heap, linked, λ j u. u)
create_loop_ends h parent (name ∷ names) heap linked has =
    let (h₁, (r, e, heap₁, old, new)) =
      new_unmanaged_queue-Grows h name (is_last names) parent heap has in
    let linked₁ =
      new_unmanaged_queue-IsLinked h name (is_last names) parent h₁ r heap linked has e in
    let (h', e', heap', linked', old') = create_loop_ends h₁ r names heap₁ linked₁ new in
    (h', rw (e, create_loop) e', heap', linked', λ j u. old' j (old j u))

-- `CreateQueues` ends for every name, without a nil queue on the way: it returns an error and leaves
-- the partition as it is, or leaves a tree with all the old queues.
pub create_queues-IsHeap :
    (pi : Partition) (name : String)
    → IsHeap pi.queues
    → IsLinked pi.queues
    → IsQueue pi.queues pi.root
    → (pi' : Partition) × ((e : Option CreateError) × (create_queues pi name ≡ some (pi', e))
        × IsHeap pi'.queues
        × IsLinked pi'.queues
        × (pi'.root ≡ pi.root)
        × ((j : ℕ) → IsQueue pi.queues j → IsQueue pi'.queues j)
        × ((x : CreateError) → e ≡ some x → pi' ≡ pi))
unfolding create_queues
create_queues-IsHeap pi name heap linked root = elim (Bool-cases (has_prefix "root." name)) [
  | inr c ↦ (pi, (some (not_qualified name), rw c refl, heap, linked, refl, λ j u. u, λ x e. refl))
  | inl c ↦
      let (names, (p, m, (shorter, found))) =
        missing_ends (suc (count name)) pi name [] (omega arith) in
      let (q, cell) = get_queue-IsQueue pi shorter p linked root found in
      elim (Bool-cases q.is_leaf) [
        | inl leaf ↦ (
          pi,
          (
            some (below_leaf p),
            rw c (rw m (rw (cell, create_below) (rw leaf refl))),
            heap,
            linked,
            refl,
            λ j u. u,
            λ x e. refl,
          ),
        )
        | inr inner ↦
            let (h', e', heap', linked', old) =
              create_loop_ends pi.queues (some p) names heap linked
                (λ up e. at_address pi.queues q p up cell e) in
            (
              record pi { queues = h' },
              (
                none,
                rw c (rw m (rw (cell, create_below) (rw inner (rw e' refl)))),
                heap',
                linked',
                refl,
                old,
                λ x e. cc,
              ),
            )
      ]
]
