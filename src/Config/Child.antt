-- ===== src/Config/Child.antt =====
-- One queue of the configuration, put under a queue that is there (`NewManagedQueue` of
-- cache/queue_info.go).
use mathlib.Core.Option
use mathlib.Core.Path.{subst}
use yunikorn_study.Prelude.{
  String, ℕ, ◌≡◌, ◌≢◌, refl, sym, ◌∙◌, ap, Option, none, some, Bool, true, false, eqb, [], arith,
}
use yunikorn_study.Text.{to_lower}
use yunikorn_study.State.{is_draining}
use yunikorn_study.Queue.{Queue, Heap}
use yunikorn_study.Queue.Manage.{add_child_queue, update, put_child}
use yunikorn_study.Queue.Config.{
  QueueFields, allocate, register_under, registered, properties_at, manage, new_managed_queue,
}
use yunikorn_study.Queue.Heaps.{IsHeap, allocate_new, allocate_old, at_address}
use yunikorn_study.Queue.Grow.{new_managed_queue-Grows}
use yunikorn_study.Queue.Links.{IsLinked, allocate-IsLinked, update-IsLinked}
use yunikorn_study.Config.{check_resources}
use yunikorn_study.Config.Props.{IsPlainAcl, IsConfigured, update_queue_props-IsMade}

-- The queue at `x`, named `name`, is new under `p`.
pub record AddsChild (p : ℕ) (q : Queue) (name : String) (x : ℕ) (s : Queue) (h h' : Heap)
    : Type 0 where
  pub heap : IsHeap h'
  pub linked : IsLinked h'
  pub above : h'.cell p ≡ some (put_child name x q)
  pub new : h'.cell x ≡ some s
  pub fresh : p ≢ x
  pub before : (j : ℕ) (r : Queue) → h.cell j ≡ some r → j ≢ x
  pub others : (j : ℕ) (r : Queue) → j ≢ p → h.cell j ≡ some r → h'.cell j ≡ some r

added_under :
    (h : Heap) (p : ℕ) (q : Queue) (name : String) (child : ℕ)
    → h.cell p ≡ some q
    → q.is_leaf ≡ false
    → is_draining q.state ≡ false
    → registered child (add_child_queue h p name child)
      ≡ some (update h p (put_child name child), some child)
unfolding add_child_queue
added_under h p q name child c leaf drain = rw (c, add_child_queue) (rw leaf (rw drain refl))

some_heap :
    {x : ℕ} {r : Option ℕ} (h₁ h₂ : Heap)
    → ◌≡◌ {A = Option (Heap × Option ℕ)} (some (h₁, r)) (some (h₂, some x))
    → h₁ ≡ h₂
some_heap h₁ h₂ e = cc

module _ (h : Heap) (p : ℕ) (q s : Queue) (heap : IsHeap h) (c : h.cell p ≡ some q) where
  abbrev grown : String → Heap
  grown name = update (allocate h s) p (put_child name h.next)

  old_at : (allocate h s).cell p ≡ some q
  old_at = allocate_old h s heap p (heap.bounded p (q, c)) ∙ c

  grown_here : (name : String) → (grown name).cell p ≡ some (put_child name h.next q)
  grown_here name =
      let test : eqb p p ≡ true = ground arith in
      rw test (ap (Option.map (put_child name h.next)) old_at)

  grown_other : (name : String) (j : ℕ) → j ≢ p → (grown name).cell j ≡ (allocate h s).cell j
  grown_other name j n = let test : eqb j p ≡ false = ground arith in rw test refl

  below_next : (j : ℕ) (r : Queue) → h.cell j ≡ some r → j ≢ h.next
  below_next j r d = let l = heap.bounded j (r, d) in omega arith

  grown-AddsChild :
      (name : String)
      → IsLinked h
      → s.children ≡ []
      → IsHeap (grown name)
      → AddsChild p q name h.next s h (grown name)
  grown-AddsChild name linked bare tree =
      let fresh : p ≢ h.next = below_next p q c in
      let back : h.next ≢ p = λ e. fresh (sym e) in
      record {
        heap = tree;
        linked =
            update-IsLinked (allocate h s) p name h.next (s, allocate_new h s heap)
              (heap.bounded p (q, c)) (allocate-IsLinked h s heap linked bare);
        above = grown_here name;
        new = grown_other name h.next back ∙ allocate_new h s heap;
        fresh = fresh;
        before = below_next;
        others =
            λ j r n d. grown_other name j n ∙ allocate_old h s heap j (heap.bounded j (r, d)) ∙ d;
      }

-- `NewManagedQueue` under a queue that takes children, of a configuration that passes the checks.
pub new_managed_queue-AddsChild :
    (h : Heap) (conf : QueueFields) (below : Bool) (p : ℕ) (q : Queue)
    → IsHeap h
    → IsLinked h
    → h.cell p ≡ some q
    → q.is_leaf ≡ false
    → is_draining q.state ≡ false
    → check_resources conf ≡ none
    → IsPlainAcl conf.submit_acl
    → IsPlainAcl conf.admin_acl
    → (h' : Heap) × ((s : Queue) × (new_managed_queue h conf below (some p)
          ≡ some (h', some h.next))
        × AddsChild p q (to_lower conf.name) h.next s h h'
        × IsConfigured conf below (some p) s
        × (s.children ≡ [])
        × (is_draining s.state ≡ false))
unfolding new_managed_queue
new_managed_queue-AddsChild h conf below p q heap linked c leaf drain checked submit admin =
    let (s, e, is, bare, state) =
      update_queue_props-IsMade (properties_at h (some p)) conf below (some p) checked submit
        admin in
    let name = to_lower conf.name in
    let under : Option ℕ → Option (Heap × Option ℕ) = λ o. register_under h s o in
    let named : String → Option (Heap × Option ℕ) =
      λ n. registered h.next (add_child_queue (allocate h s) p n h.next) in
    let same : new_managed_queue h conf below (some p)
        ≡ some (grown h p q s heap c name, some h.next) =
      ap (manage h) e
      ∙ ap under is.parent_at
      ∙ ap named is.name
      ∙ added_under (allocate h s) p q name h.next (old_at h p q s heap c) leaf drain in
    let (h₁, (r, e₁, tree, _, _)) =
      new_managed_queue-Grows h conf below (some p) heap (λ up e. at_address h q p up c e) in
    let tree' = subst IsHeap (some_heap h₁ _ (sym e₁ ∙ same)) tree in
    (
      grown h p q s heap c name,
      (
        s,
        same,
        grown-AddsChild h p q s heap c name linked bare tree',
        is,
        bare,
        ap is_draining state,
      ),
    )
