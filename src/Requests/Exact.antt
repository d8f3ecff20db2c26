-- ===== src/Requests/Exact.antt =====
-- Float products that are exact, and the repeat count of an ask (`UpdateAllocationAskRepeat` of
-- scheduler/requests.go).
use yunikorn_study.Prelude.{
  String, ℕ, ◌+◌, ◌*◌, ◌-◌, ◌^◌, ◌≡◌, ◌<◌, ◌≤◌, ltb, true, false, sym, if◌then◌else◌, arith, inl,
  inr, Bool-cases,
}
use yunikorn_study.Quantity.{Quantity, add, sub}
use yunikorn_study.Resource.{value}
use yunikorn_study.Requests.{Ask, add_int32, is_natural}

-- The number of units that a change of the repeat count, an int32, stands for.
abbrev pub magnitude : ℕ → ℕ
magnitude n = if ltb n (2 ^ 31) then n else 2 ^ 32 - n

-- A product is exact where it is less than 2 ^ 53, as that of `float64` is, for a factor that an int32
-- of either sign gives.
abbrev pub IsExact : {F : Type 0} → (ℕ → F) → (Quantity → F → Quantity) → Type 0
IsExact float times =
    ((v : Quantity) (n : ℕ) → n < 2 ^ 31 → v * n < 2 ^ 53 → times v (float n) ≡ v * n)
    × ((v : Quantity) (n m : ℕ)
        → m ≤ 2 ^ 31
        → 0 < m
        → n + m ≡ 2 ^ 32
        → v * m < 2 ^ 53
        → times v (float n) ≡ sub 0 (v * m))

-- The counts are an int32, the old one not negative, and the products with them are small.
pub record IsSmall (a : Ask) (delta : ℕ) : Type 0 where
  pub count : a.pending_repeat_ask < 2 ^ 31
  pub delta_int32 : delta < 2 ^ 32
  pub fits :
      (k : String)
      → value k a.allocated_resource * (a.pending_repeat_ask + magnitude delta) < 2 ^ 53

module _ {F : Type 0} (float : ℕ → F) (times : Quantity → F → Quantity) where
  -- The products of the ask's quantities and the changed repeat count are the sums of the products.
  abbrev pub IsExactAt : Ask → ℕ → Type 0
  IsExactAt a delta =
      (k : String)
      → times (value k a.allocated_resource) (float (add_int32 a.pending_repeat_ask delta))
        ≡ add (times (value k a.allocated_resource) (float a.pending_repeat_ask))
            (times (value k a.allocated_resource) (float delta))

  natural_lt : (n : ℕ) → is_natural n ≡ true → n < 2 ^ 31
  natural_lt n h = ground arith

  small_lt : (n : ℕ) → ltb n (2 ^ 31) ≡ true → n < 2 ^ 31
  small_lt n h = ground arith

  small_le : (n : ℕ) → ltb n (2 ^ 31) ≡ false → 2 ^ 31 ≤ n
  small_le n h = ground arith

  -- More repeats.
  exact_more :
      (v p d n : ℕ)
      → IsExact float times
      → n ≡ p + d
      → n < 2 ^ 31
      → v * (p + d) < 2 ^ 53
      → times v (float n) ≡ add (times v (float p)) (times v (float d))
  unfolding add
  exact_more v p d n exact e l fits =
      let whole = exact.0 v n l (rw e fits) in
      let old = exact.0 v p (omega arith) (omega arith) in
      let new = exact.0 v d (omega arith) (omega arith) in rw (whole, old, new) (rw e (omega arith))

  -- Fewer repeats, by `m`.
  exact_fewer :
      (v p d n m : ℕ)
      → IsExact float times
      → p ≡ n + m
      → d + m ≡ 2 ^ 32
      → 0 < m
      → p < 2 ^ 31
      → v * (p + m) < 2 ^ 53
      → times v (float n) ≡ add (times v (float p)) (times v (float d))
  unfolding add sub
  exact_fewer v p d n m exact e same pos l fits =
      let fits' : v * (n + m + m) < 2 ^ 53 = rw (sym e) fits in
      let whole = exact.0 v n (omega arith) (omega arith) in
      let old = exact.0 v p l (rw e (omega arith)) in
      let new = exact.1 v d m (omega arith) pos same (omega arith) in
      rw (whole, old, new) (rw e (omega arith))

  pub exact_at :
      (a : Ask) (delta : ℕ)
      → IsExact float times
      → IsSmall a delta
      → is_natural (add_int32 a.pending_repeat_ask delta) ≡ true
      → IsExactAt a delta
  exact_at a delta exact small natural k =
      let v = value k a.allocated_resource in
      let p = a.pending_repeat_ask in
      let n = add_int32 p delta in
      let l = natural_lt n natural in
      let count = small.count in
      let word32 = small.delta_int32 in
      elim (Bool-cases (ltb delta (2 ^ 31))) [
        | inl less ↦
            let d = small_lt delta less in
            exact_more v p delta n exact (omega arith) l (rw less at small.fits k)
        | inr over ↦
            let d = small_le delta over in
            exact_fewer v p delta n (2 ^ 32 - delta) exact (omega arith) (omega arith) (omega arith)
              count (rw over at small.fits k)
      ]
