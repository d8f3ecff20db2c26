-- ===== src/Queue/Marked.antt =====
-- Which queues a marking for removal reaches (`MarkQueueForRemoval` of cache/queue_info.go).
use mathlib.Core.Option
use mathlib.Core.Path.{subst}
use yunikorn_study.Prelude.{
  String, ℕ, zero, suc, ◌+◌, ◌≤◌, ◌≡◌, refl, sym, ◌∙◌, ap, ◌⊎◌, inl, inr, Option, none, some, true,
  eqb, [], ◌∷◌, arith, Bool-cases, Option-cases, eq_iff, ◌==◌, if◌then◌else◌,
}
use yunikorn_study.Dict.{Dict, lookup, IsMap}
use yunikorn_study.State.{ObjectFsm, remove, handle_object_event}
use yunikorn_study.State.Object.{handle_object_event_again}
use yunikorn_study.Queue.{Queue, Heap}
use yunikorn_study.Queue.Manage.{
  update, put_state, handle_queue_event, each_child, mark_queue_for_removal,
}
use yunikorn_study.Queue.Heaps.{IsHeap}
use yunikorn_study.Queue.Links.{IsLinked}

-- The queue itself and the queues that managed queues lead to from it, if they are managed.
pub data IsMarked (h : Heap) : ℕ → ℕ → Type 0 where
  here : {p : ℕ} (q : Queue) → h.cell p ≡ some q → q.is_managed ≡ true → IsMarked h p p
  lower :
      {p j : ℕ} (v : ℕ) (k : String) (q : Queue)
      → h.cell p ≡ some q
      → q.is_managed ≡ true
      → lookup k q.children ≡ some v
      → IsMarked h v j
      → IsMarked h p j

-- The same, from the children of a queue.
abbrev IsBelow : Heap → Dict ℕ → ℕ → Type 0
IsBelow h m j = (k : String) × ((v : ℕ) × (lookup k m ≡ some v) × IsMarked h v j)

module _ (fsm : ObjectFsm) (now : ℕ → ℕ) where
  -- A queue after the remove event: its state and state time, and nothing else.
  abbrev pub marked : ℕ → Queue → Queue
  marked j q = put_state (handle_object_event fsm (now j) (q.state, q.state_time) remove).0 q

  -- Exactly the queues of a set get the event.
  pub record Marks (h h' : Heap) (S : ℕ → Type 0) : Type 0 where
    pub only :
        (j : ℕ) → (h'.cell j ≡ h.cell j) ⊎ (S j × (h'.cell j ≡ Option.map (marked j) (h.cell j)))
    pub all : (j : ℕ) → S j → h'.cell j ≡ Option.map (marked j) (h.cell j)

  marked_again :
      (j : ℕ) (o : Option Queue)
      → Option.map (marked j) (Option.map (marked j) o) ≡ Option.map (marked j) o
  marked_again j none = refl
  marked_again j (some q) =
      ap (λ st. some (put_state st q)) (handle_object_event_again fsm (now j) q.state q.state_time)

  -- A heap in which some queues got the event already.
  abbrev Looks : Heap → Heap → Type 0
  Looks h g = (j : ℕ) → (g.cell j ≡ h.cell j) ⊎ (g.cell j ≡ Option.map (marked j) (h.cell j))

  Looks-Marks : (h g g' : Heap) (S : ℕ → Type 0) → Looks h g → Marks g g' S → Looks h g'
  Looks-Marks h g g' S looks m j = elim (m.only j) [
    | inl same ↦ elim (looks j) [ inl old ↦ inl (same ∙ old) | inr new ↦ inr (same ∙ new) ]
    | inr (s, event) ↦ elim (looks j) [
      | inl old ↦ inr (event ∙ ap (Option.map (marked j)) old)
      | inr new ↦ inr (event ∙ ap (Option.map (marked j)) new ∙ marked_again j (h.cell j))
    ]
  ]

  -- What a marked heap says of a queue that the first heap has.
  Looks-cell :
      (h g : Heap) (p : ℕ) (q : Queue)
      → Looks h g
      → h.cell p ≡ some q
      → (q' : Queue) × (g.cell p ≡ some q')
        × (q'.is_managed ≡ q.is_managed)
        × (q'.children ≡ q.children)
  Looks-cell h g p q looks c = elim (looks p) [
    | inl old ↦ (q, old ∙ c, refl, refl)
    | inr new ↦ (marked p q, new ∙ ap (Option.map (marked p)) c, refl, refl)
  ]

  Looks-none : (h g : Heap) (p : ℕ) → Looks h g → h.cell p ≡ none → g.cell p ≡ none
  Looks-none h g p looks c = elim (looks p) [
    | inl old ↦ old ∙ c
    | inr new ↦ new ∙ ap (Option.map (marked p)) c
  ]

  Marks-none : (h : Heap) (S : ℕ → Type 0) → ((j : ℕ) → ¬ (S j)) → Marks h h S
  Marks-none h S empty = record { only = λ j. inl refl; all = λ j s. absurd (empty j s) }

  Marks-trans :
      (g g₁ g₂ : Heap) (S T U : ℕ → Type 0)
      → Marks g g₁ S
      → Marks g₁ g₂ T
      → ((j : ℕ) → S j → U j)
      → ((j : ℕ) → T j → U j)
      → ((j : ℕ) → U j → S j ⊎ T j)
      → Marks g g₂ U
  Marks-trans g g₁ g₂ S T U a b left right split = record {
    only = λ j. elim (b.only j) [
      | inl same ↦ elim (a.only j) [
        | inl old ↦ inl (same ∙ old)
        | inr (s, event) ↦ inr (left j s, same ∙ event)
      ]
      | inr (t, event) ↦ inr (right j t, second j event)
    ];
    all = λ j u. elim (split j u) [
      | inl s ↦ elim (b.only j) [ inl same ↦ same ∙ a.all j s | inr (t, event) ↦ second j event ]
      | inr t ↦ second j (b.all j t)
    ];
  }
    where
      second :
          (j : ℕ)
          → g₂.cell j ≡ Option.map (marked j) (g₁.cell j)
          → g₂.cell j ≡ Option.map (marked j) (g.cell j)
      second j event = elim (a.only j) [
        | inl old ↦ event ∙ ap (Option.map (marked j)) old
        | inr (s, new) ↦ event ∙ ap (Option.map (marked j)) new ∙ marked_again j (g.cell j)
      ]

  -- The event on one queue.
  event-Marks :
      (g : Heap) (p : ℕ) (q : Queue)
      → g.cell p ≡ some q
      → Marks g (handle_queue_event fsm (now p) g p q remove).0 (λ j. p ≡ j)
  unfolding handle_queue_event
  event-Marks g p q c = record {
    only = λ j. elim (Bool-cases (eqb j p)) [
      | inl same ↦ let is : p ≡ j = ground arith in inr (is, at_queue j is)
      | inr other ↦ inl (rw other refl)
    ];
    all = at_queue;
  }
    where
      at_queue :
          (j : ℕ)
          → p ≡ j
          → (update g p
                (put_state (handle_object_event fsm (now p) (q.state, q.state_time) remove).0)).cell
              j
            ≡ Option.map (marked j) (g.cell j)
      at_queue j is =
          let same : eqb j p ≡ true = ground arith in
          let c' : g.cell j ≡ some q = subst (λ x. g.cell x ≡ some q) is c in
          rw same (
            rw c' (
              ap
                (λ x.
                  some (
                    put_state (handle_object_event fsm (now x) (q.state, q.state_time) remove).0 q))
                is))

  each_child-Marks :
      (h : Heap) (call : Heap → ℕ → Heap) (m : Dict ℕ)
      → ((g : Heap) (k : String) (v : ℕ)
          → lookup k m ≡ some v
          → Looks h g
          → Marks g (call g v) (IsMarked h v))
      → (g : Heap) → Looks h g
      → IsMap m
      → Marks g (each_child call m g) (IsBelow h m)
  unfolding each_child lookup
  each_child-Marks h call [] step g looks map = Marks-none g (IsBelow h []) (λ j (k, (v, e, s)). cc)
  each_child-Marks h call ((name, child) ∷ m) step g looks (free, map) =
      let own : name == name ≡ true = (eq_iff name name).1 refl in
      let first = step g name child (rw own refl) looks in
      let rest =
        each_child-Marks h call m (λ g k v e. step g k v (in_tail k v e)) (call g child)
          (Looks-Marks h g (call g child) (IsMarked h child) looks first) map in
      Marks-trans g (call g child) _ (IsMarked h child) (IsBelow h m)
        (IsBelow h ((name, child) ∷ m)) first rest (λ j s. (name, (child, rw own refl, s)))
        (λ j (k, (v, e, s)). (k, (v, in_tail k v e, s)))
        (λ j (k, (v, e, s)). elim (Bool-cases (name == k)) [
          | inl t ↦
              let is : child ≡ v = some_eq child v (rw t at e) in
              inl (subst (λ x. IsMarked h x j) (sym is) s)
          | inr t ↦ inr (k, (v, rw t at e, s))
        ])
    where
      some_eq : (x y : ℕ) → some x ≡ some y → x ≡ y
      some_eq x y e = cc

      in_tail :
          (k : String) (v : ℕ)
          → lookup k m ≡ some v
          → (if name == k then some child else lookup k m) ≡ some v
      in_tail k v e = elim (Bool-cases (name == k)) [
        | inl t ↦ cc (ap (λ x. lookup x m) ((eq_iff name k).0 t), free, e)
        | inr t ↦ rw t e
      ]

  -- The mark of a queue that is not there or not managed reaches nothing.
  none-IsMarked :
      (h : Heap) (p j : ℕ)
      → ((q : Queue) → h.cell p ≡ some q → ¬ (q.is_managed ≡ true))
      → ¬ (IsMarked h p j)
  none-IsMarked h p j bare (here q c b) = bare q c b
  none-IsMarked h p j bare (lower v k q c b e s) = bare q c b

  some_queue : (q q' : Queue) → ◌≡◌ {A = Option Queue} (some q) (some q') → q ≡ q'
  some_queue q q' e = cc

  -- The mark of a managed queue reaches the queue and what its children reach.
  managed-IsMarked :
      (h : Heap) (p j : ℕ) (q : Queue)
      → h.cell p ≡ some q
      → IsMarked h p j
      → (p ≡ j) ⊎ IsBelow h q.children j
  managed-IsMarked h p j q c (here q' c' b) = inl refl
  managed-IsMarked h p j q c (lower v k q' c' b e s) =
      inr (k, (v, ap (λ x. lookup k x.children) (some_queue q q' (sym c ∙ c')) ∙ e, s))

  marks_from :
      (fuel : ℕ) (h g : Heap) (p : ℕ)
      → IsHeap h
      → IsLinked h
      → Looks h g
      → h.next ≤ p + fuel
      → Marks g (mark_queue_for_removal fuel fsm now g p) (IsMarked h p)
  unfolding mark_queue_for_removal
  marks_from zero h g p heap linked looks l =
      Marks-none g (IsMarked h p)
        (λ j. none-IsMarked h p j (λ q c b. let y = heap.bounded p (q, c) in absurd (omega arith)))
  marks_from (suc fuel) h g p heap linked looks l = elim (Option-cases (h.cell p)) [
    | inl c ↦
        rw (Looks-none h g p looks c, mark_queue_for_removal)
          (Marks-none g (IsMarked h p) (λ j. none-IsMarked h p j (λ q c' b. cc)))
    | inr (q, c) ↦
        let (q', c', b', m') = Looks-cell h g p q looks c in
        elim (Bool-cases q.is_managed) [
          | inr b ↦
              rw (c', mark_queue_for_removal)
                (rw (b', b)
                  (Marks-none g (IsMarked h p) (λ j.
                    none-IsMarked h p j
                      (λ x d e. cc (ap (λ y. y.is_managed) (some_queue x q (sym d ∙ c)), e, b)))))
          | inl b ↦
              let (all, map) = linked p q c in
              let one = event-Marks g p q' c' in
              let g₁ = (handle_queue_event fsm (now p) g p q' remove).0 in
              let rest =
                each_child-Marks h (mark_queue_for_removal fuel fsm now) q.children
                  (λ k s v e seen.
                    let older = (all s v e).1 in
                    marks_from fuel h k v heap linked seen (omega arith))
                  g₁ (Looks-Marks h g g₁ (λ j. p ≡ j) looks one) map in
              rw (c', mark_queue_for_removal)
                (rw (b', b, m')
                  (Marks-trans g g₁ _ (λ j. p ≡ j) (IsBelow h q.children) (IsMarked h p) one rest
                    (λ j is. subst (IsMarked h p) is (here q c b))
                    (λ j (k, (v, e, s)). lower v k q c b e s)
                    (λ j s. managed-IsMarked h p j q c s)))
        ]
  ]

  -- `MarkQueueForRemoval` gives the remove event to exactly the queues that it reaches: to the queue
  -- itself, if it is managed, and on to what each of its children reaches. Each of them has the
  -- state and the state time that the event leads to, however often it is reached, and nothing else of
  -- a queue changes. The number of addresses from the queue on is enough fuel.
  pub mark_queue_for_removal-Marks :
      (fuel : ℕ) (h : Heap) (p : ℕ)
      → IsHeap h
      → IsLinked h
      → h.next ≤ p + fuel
      → Marks h (mark_queue_for_removal fuel fsm now h p) (IsMarked h p)
  mark_queue_for_removal-Marks fuel h p heap linked l =
      marks_from fuel h h p heap linked (λ j. inl refl) l
