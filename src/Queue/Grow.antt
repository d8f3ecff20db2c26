-- ===== src/Queue/Grow.antt =====
-- The constructors of queues keep the heap a tree (cache/queue_info.go, `addQueueInfo` of
-- cache/partition_info.go).
use yunikorn_study.Prelude.{
  String, ℕ, ◌≡◌, refl, sym, ◌∙◌, ap, inl, inr, Option, none, some, Bool, true, false,
  if◌then◌else◌, arith, Option-cases, Bool-cases, [], ◌∷◌, eq_iff,
}
use yunikorn_study.Dict.{Dict, lookup, insert, lookup-insert, IsMap}
use yunikorn_study.Resource.{Resource}
use yunikorn_study.Acl.{Acl, new_acl}
use yunikorn_study.Queue.{Queue, Heap}
use yunikorn_study.Queue.Config.{
  QueueFields, QueueConfig, queue_config, QueueConfigs, no_queues, and_queue, set_limit,
  merge_properties, or_empty, copy_properties, new_queue, is_queue_name, new_unmanaged_queue,
  properties_at, manage, new_managed_queue, update_queue_props, has_queues, add_queue_info, add_one,
  go_below, go_on, set_properties, set_guaranteed, set_maximum, set_admin, set_submit,
  new_resource_from_conf,
}
use yunikorn_study.Queue.Heaps.{IsQueue, IsHeap, Grows, register-Grows, unchanged, at_address}

-- `NewUnmanagedQueue` under a parent that is there, or under none, ends and leaves a tree with every
-- old queue in it, on each of its branches: a bad name, a parent that takes no child, and a new queue.
pub new_unmanaged_queue-Grows :
    (h : Heap) (name : String) (leaf : Bool) (parent : Option ℕ)
    → IsHeap h
    → ((up : ℕ) → parent ≡ some up → IsQueue h up)
    → Grows h (new_unmanaged_queue h name leaf parent)
unfolding new_unmanaged_queue
new_unmanaged_queue-Grows h name leaf parent heap has = elim (Bool-cases (is_queue_name name)) [
  | inl c ↦ rw c (register-Grows h (new_queue name parent leaf false) heap has)
  | inr c ↦ rw c (unchanged h heap)
]

-- The parent and the children are the same.
abbrev pub SameLinks : Queue → Queue → Type 0
SameLinks q r = (q.parent ≡ r.parent) × (q.children ≡ r.children)

-- `updateQueueProps` leaves the parent and the children alone.
pub update_queue_props-SameLinks :
    (parent : Option (Dict String)) (conf : QueueFields) (below : Bool) (q : Queue)
    → SameLinks (update_queue_props parent conf below q).0 q
unfolding update_queue_props
update_queue_props-SameLinks parent conf below q = submit (new_acl conf.submit_acl)
  where
    last : (p : Option (Dict String)) (s : Queue) → SameLinks (set_properties p conf s) s
    last none s = (refl, refl)
    last (some m) s = (refl, refl)

    guaranteed : (s : Queue) (r : Option Resource) → SameLinks (set_guaranteed parent conf s r).0 s
    guaranteed s none = (refl, refl)
    guaranteed s (some r) =
        last parent (record s { guaranteed_resource = set_limit s.guaranteed_resource r })

    maximum : (s : Queue) (r : Option Resource) → SameLinks (set_maximum parent conf s r).0 s
    maximum s none = (refl, refl)
    maximum s (some r) =
        guaranteed (record s { max_resource = set_limit s.max_resource r })
          (new_resource_from_conf (or_empty conf.guaranteed))

    admin : (s : Queue) (r : Acl × Bool) → SameLinks (set_admin parent conf below s r).0 s
    admin s (acl, true) = (refl, refl)
    admin s (acl, false) =
        maximum
          (record s {
            admin_acl = acl;
            is_managed = true;
            is_leaf = if below then false else s.is_leaf;
          })
          (new_resource_from_conf (or_empty conf.max))

    submit : (r : Acl × Bool) → SameLinks (set_submit parent conf below q r).0 q
    submit (acl, true) = (refl, refl)
    submit (acl, false) = admin (record q { submit_acl = acl }) (new_acl conf.admin_acl)

-- `NewManagedQueue` under a parent that is there, or under none, ends and leaves a tree with every old
-- queue in it, whether the configuration of the queue is right or some part of it is refused.
pub new_managed_queue-Grows :
    (h : Heap) (conf : QueueFields) (below : Bool) (parent : Option ℕ)
    → IsHeap h
    → ((up : ℕ) → parent ≡ some up → IsQueue h up)
    → Grows h (new_managed_queue h conf below parent)
unfolding new_managed_queue
new_managed_queue-Grows h conf below parent heap has =
    managed _ (update_queue_props-SameLinks (properties_at h parent) conf below _).0
  where
    managed : (r : Queue × Bool) → r.0.parent ≡ parent → Grows h (manage h r)
    managed (q, true) e = unchanged h heap
    managed (q, false) e = register-Grows h q heap (λ up c. has up (sym e ∙ c))

at_parent : (h : Heap) (p x : ℕ) → IsQueue h p → some p ≡ some x → IsQueue h x
at_parent h p x (q, c) e = at_address h q p x c e

lookup-copy_properties :
    (k : String) (m out : Dict String)
    → IsMap m
    → lookup k (copy_properties m out)
      ≡ (elim (lookup k m) [ none ↦ lookup k out | some v ↦ some v ])
unfolding copy_properties lookup
lookup-copy_properties k [] out h = refl
lookup-copy_properties k ((j, v) ∷ m) out h =
    ground
      (arith, lookup-copy_properties k m (insert j v out) h.1, lookup-insert j k v out, eq_iff j k)

mutual
  unfolding add_queue_info add_one

  grown_below :
      (h : Heap) (conf : QueueConfigs) (parent : ℕ)
      → IsHeap h
      → IsQueue h parent
      → (h' : Heap) × ((done : Bool) × (add_queue_info h conf parent ≡ some (h', done))
          × IsHeap h'
          × ((j : ℕ) → IsQueue h j → IsQueue h' j))
  grown_below h no_queues parent heap u = (h, (true, refl, heap, λ j v. v))
  grown_below h (and_queue c cs) parent heap u =
      let (h₁, (done, e, heap₁, old)) = grown_one h c parent heap u in
      elim (Bool-cases done) [
        | inl d ↦
            let (h', (all, e', heap', old')) = grown_below h₁ cs parent heap₁ (old parent u) in
            (
              h',
              (
                all,
                ap (go_on (λ x. add_queue_info x cs parent)) (e ∙ ap (λ x. some (h₁, x)) d) ∙ e',
                heap',
                λ j v. old' j (old j v),
              ),
            )
        | inr d ↦ (
          h₁,
          (
            false,
            ap (go_on (λ x. add_queue_info x cs parent)) (e ∙ ap (λ x. some (h₁, x)) d),
            heap₁,
            old,
          ),
        )
      ]

  grown_one :
      (h : Heap) (conf : QueueConfig) (parent : ℕ)
      → IsHeap h
      → IsQueue h parent
      → (h' : Heap) × ((done : Bool) × (add_one h conf parent ≡ some (h', done))
          × IsHeap h'
          × ((j : ℕ) → IsQueue h j → IsQueue h' j))
  grown_one h (queue_config fields below) parent heap u =
      let (h₁, (r, e, heap₁, old, new)) =
        new_managed_queue-Grows h fields (has_queues below) (some parent) heap
          (λ up c. at_parent h parent up u c) in
      elim (Option-cases r) [
        | inl c ↦ (
          h₁,
          (
            false,
            ap (go_below (λ x p. add_queue_info x below p)) (e ∙ ap (λ x. some (h₁, x)) c),
            heap₁,
            old,
          ),
        )
        | inr (p, c) ↦
            let (h', (done, e', heap', old')) = grown_below h₁ below p heap₁ (new p c) in
            (
              h',
              (
                done,
                ap (go_below (λ x p. add_queue_info x below p)) (e ∙ ap (λ x. some (h₁, x)) c) ∙ e',
                heap',
                λ j v. old' j (old j v),
              ),
            )
      ]

-- Under a key, the merged properties have the child's value, or the parent's where the child has none.
pub lookup-merge_properties :
    (parent child : Option (Dict String)) (k : String)
    → IsMap (or_empty child)
    → IsMap (or_empty parent)
    → lookup k (merge_properties parent child)
      ≡ (elim (lookup k (or_empty child)) [ none ↦ lookup k (or_empty parent) | some v ↦ some v ])
unfolding merge_properties lookup
lookup-merge_properties parent child k c p = ground (
  arith,
  lookup-copy_properties k (or_empty child) (copy_properties (or_empty parent) []) c,
  lookup-copy_properties k (or_empty parent) [] p,
)
