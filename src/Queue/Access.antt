-- ===== src/Queue/Access.antt =====
-- Access to a queue is access to one of the queues above it (cache/queue_info.go).
use native.Mathlib.Decide.{ℕ_discrete}
use yunikorn_study.Prelude.{
  ℕ, suc, zero, ◌<◌, ◌≡◌, inl, inr, Option, none, some, Bool, true, false, arith, Option-cases,
  Bool-cases,
}
use yunikorn_study.Acl.{UserGroup}
use yunikorn_study.Queue.{Queue, Heap}
use yunikorn_study.Queue.Climb.{IsTree, is_above, is_above_root, is_above_parent}
use yunikorn_study.Queue.Walk.{is_above_self, is_above_up}
use yunikorn_study.Queue.Allocate.{is_on_path}
use yunikorn_study.Queue.Manage.{
  check_up, allows_submit, allows_admin, check_submit_access, check_admin_access,
}

-- What a walk for access answers: it ends, it grants where a queue on the way up does, and it
-- refuses where none does.
abbrev pub Grants : (Queue → Bool) → Heap → (ℕ → Bool) → Option Bool → Type 0
Grants allows h above none = ⊥
Grants allows h above (some true) =
    (j : ℕ) × ((q : Queue) × (above j ≡ true) × (h.cell j ≡ some q) × (allows q ≡ true))
Grants allows h above (some false) =
    (j : ℕ) (q : Queue) → above j ≡ true → h.cell j ≡ some q → allows q ≡ false

module _ (allows : Queue → Bool) (h : Heap) (tree : IsTree h) where
  check_up-Grants :
      (fuel p : ℕ) (q : Queue)
      → p < fuel
      → h.cell p ≡ some q
      → Grants allows h (is_above fuel h p) (check_up fuel allows h p)
  unfolding check_up
  check_up-Grants zero p q l c = elim l [ ]
  check_up-Grants (suc fuel) p q l c = elim (Bool-cases (allows q)) [
    | inl a ↦ rw (c, check_up) (rw a (p, (q, is_above_self fuel h p q c, c, a)))
    | inr a ↦ elim (Option-cases q.parent) [
      | inl o ↦
          rw (c, check_up)
            (rw a (
              rw o (λ j s on cs.
                refused p q c a j s cs (ground (arith, is_above_root fuel h p j q c o)))))
      | inr (up, o) ↦
          let (older, (u, cu)) = tree p up q c o in
          rw (c, check_up)
            (rw a (
              rw o (
                inherited fuel p up q c a o (check_up fuel allows h up)
                  (check_up-Grants fuel up u (omega arith) cu))))
    ]
  ]
    where
      refused :
          (p : ℕ) (q : Queue)
          → h.cell p ≡ some q
          → allows q ≡ false
          → (j : ℕ) (s : Queue) → h.cell j ≡ some s
          → j ≡ p
          → allows s ≡ false
      refused p q c a j s cs same = cc

      inherited :
          (fuel p up : ℕ) (q : Queue)
          → h.cell p ≡ some q
          → allows q ≡ false
          → q.parent ≡ some up
          → (r : Option Bool) → Grants allows h (is_above fuel h up) r
          → Grants allows h (is_above (suc fuel) h p) r
      inherited fuel p up q c a o none g = g
      inherited fuel p up q c a o (some true) (j, (s, on, cs, granted)) =
          (j, (s, is_above_up fuel h p j up q c o on, cs, granted))
      inherited fuel p up q c a o (some false) g = λ j s on cs. elim (ℕ_discrete j p) [
        | yes same ↦ refused p q c a j s cs same
        | no other ↦ g j s (ground (arith, is_above_parent fuel h p j up q c o)) cs
      ]

-- `CheckSubmitAccess` grants exactly where the queue or one of its ancestors has a submit or an admin
-- ACL that lets the user in, and `CheckAdminAccess` where one has such an admin ACL.
pub check_access-Grants :
    (h : Heap) (p : ℕ) (q : Queue) (user : UserGroup)
    → IsTree h
    → h.cell p ≡ some q
    → Grants (allows_submit user) h (is_on_path h p) (check_submit_access h p user)
      × Grants (allows_admin user) h (is_on_path h p) (check_admin_access h p user)
unfolding check_submit_access check_admin_access
check_access-Grants h p q user tree c = (
  check_up-Grants (allows_submit user) h tree (suc p) p q (omega arith) c,
  check_up-Grants (allows_admin user) h tree (suc p) p q (omega arith) c,
)
