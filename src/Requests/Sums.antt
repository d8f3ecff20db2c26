-- ===== src/Requests/Sums.antt =====
-- Sums over the asks of a map (scheduler/requests.go).
use yunikorn_study.Prelude.{String, ℕ, ◌+◌, ◌≡◌, refl, none, some, [], ◌∷◌, eq_iff, arith}
use yunikorn_study.Dict.{Dict, lookup, insert, erase, IsMap}
use yunikorn_study.Requests.{Ask}

module _ (weight : Ask → ℕ) where
  abbrev pub sum_by : Dict Ask → ℕ
  sum_by [] = 0
  sum_by ((u, a) ∷ m) = weight a + sum_by m

  pub sum_by-insert :
      (u : String) (a : Ask) (m : Dict Ask)
      → lookup u m ≡ none
      → sum_by (insert u a m) ≡ sum_by m + weight a
  unfolding insert lookup
  sum_by-insert u a [] h = omega arith
  sum_by-insert u a ((w, b) ∷ m) h = ground (arith, sum_by-insert u a m)

  pub sum_by-replace :
      (u : String) (a old : Ask) (m : Dict Ask)
      → lookup u m ≡ some old
      → sum_by (insert u a m) + weight old ≡ sum_by m + weight a
  unfolding insert lookup
  sum_by-replace u a old [] h = ground arith
  sum_by-replace u a old ((w, b) ∷ m) h = ground (arith, sum_by-replace u a old m)

  sum_by-erase_missing :
      (u : String) (m : Dict Ask) → lookup u m ≡ none → sum_by (erase u m) ≡ sum_by m
  unfolding erase lookup
  sum_by-erase_missing u [] h = refl
  sum_by-erase_missing u ((w, b) ∷ m) h = ground (arith, sum_by-erase_missing u m)

  pub sum_by-erase :
      (u : String) (a : Ask) (m : Dict Ask)
      → IsMap m
      → lookup u m ≡ some a
      → sum_by (erase u m) + weight a ≡ sum_by m
  unfolding erase lookup
  sum_by-erase u a [] h e = ground arith
  sum_by-erase u a ((w, b) ∷ m) h e =
      ground (arith, eq_iff w u, sum_by-erase u a m h.1, sum_by-erase_missing u m)
