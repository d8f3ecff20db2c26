-- ===== src/Queue/Shape.antt =====
-- What a walk leaves alone: the shape of the tree (cache/queue_info.go).
use yunikorn_study.Prelude.{
  ℕ, suc, zero, ◌≡◌, refl, sym, ◌∙◌, inl, inr, Option, none, some, Option-cases, ap,
}
use yunikorn_study.Queue.{Queue, Heap}
use yunikorn_study.Queue.Climb.{IsTree, is_above, is_above_missing, is_above_root, is_above_parent}

-- The parent of the queue at an address, if there is one.
abbrev pub parent_cell : Heap → ℕ → Option (Option ℕ)
parent_cell h j = elim (h.cell j) [ none ↦ none | some q ↦ some q.parent ]

abbrev pub SameShape : Heap → Heap → Type 0
SameShape h₁ h = (j : ℕ) → parent_cell h₁ j ≡ parent_cell h j

parent_cell-some :
    (h : Heap) (j : ℕ) (o : Option ℕ)
    → parent_cell h j ≡ some o
    → (q : Queue) × (h.cell j ≡ some q) × (q.parent ≡ o)
parent_cell-some h j o e = elim (Option-cases (h.cell j)) [
  | inl c ↦ cc (rw (c, parent_cell) at e)
  | inr (q, c) ↦ (q, c, inner q.parent (rw (c, parent_cell) at e))
]
  where
    inner : (x : Option ℕ) → some x ≡ some o → x ≡ o
    inner x e = cc

parent_cell-none : (h : Heap) (j : ℕ) → parent_cell h j ≡ none → h.cell j ≡ none
parent_cell-none h j e = elim (Option-cases (h.cell j)) [
  | inl c ↦ c
  | inr (q, c) ↦ cc (rw (c, parent_cell) at e)
]

parent_cell_lem :
    (h : Heap) (j : ℕ) (q : Queue) (o : Option ℕ)
    → h.cell j ≡ some q
    → q.parent ≡ o
    → parent_cell h j ≡ some o
parent_cell_lem h j q o c p = rw (c, parent_cell) (ap some p)

pub is_above-SameShape :
    (fuel : ℕ) (h₁ h : Heap) (p j : ℕ) → SameShape h₁ h → is_above fuel h₁ p j ≡ is_above fuel h p j
is_above-SameShape zero h₁ h p j s = unfold is_above in refl
is_above-SameShape (suc fuel) h₁ h p j s = elim (Option-cases (h.cell p)) [
  | inl c ↦ missing c
  | inr (q, c) ↦
      let (q₁, c₁, same) =
        parent_cell-some h₁ p q.parent (s p ∙ parent_cell_lem h p q q.parent c refl) in
      elim (Option-cases q.parent) [
        | inl o ↦ is_above_root fuel h₁ p j q₁ c₁ (same ∙ o) ∙ sym (is_above_root fuel h p j q c o)
        | inr (up, o) ↦ rw (
          is_above_parent fuel h₁ p j up q₁ c₁ (same ∙ o),
          is_above_parent fuel h p j up q c o,
          is_above-SameShape fuel h₁ h up j s,
        )
      ]
]
  where
    missing : h.cell p ≡ none → is_above (suc fuel) h₁ p j ≡ is_above (suc fuel) h p j
    missing c =
        is_above_missing fuel h₁ p j (parent_cell-none h₁ p (s p ∙ rw (c, parent_cell)))
        ∙ sym (is_above_missing fuel h p j c)

pub SameShape-cell :
    (h₁ h : Heap) (p : ℕ) (q : Queue)
    → SameShape h₁ h
    → h.cell p ≡ some q
    → (q₁ : Queue) × (h₁.cell p ≡ some q₁) × (q₁.parent ≡ q.parent)
SameShape-cell h₁ h p q s c =
    parent_cell-some h₁ p q.parent (s p ∙ parent_cell_lem h p q q.parent c refl)

pub IsTree-SameShape : (h₁ h : Heap) → SameShape h₁ h → IsTree h → IsTree h₁
IsTree-SameShape h₁ h s t p up q c o =
    let (q₀, c₀, same) =
      parent_cell-some h p (some up) (sym (s p) ∙ parent_cell_lem h₁ p q (some up) c o) in
    let (older, (u, cu)) = t p up q₀ c₀ same in
    let (u₁, cu₁, _) =
      parent_cell-some h₁ up u.parent (s up ∙ parent_cell_lem h up u u.parent cu refl) in
    (older, (u₁, cu₁))
