-- ===== src/Requests/Books.antt =====
-- The total pending resource is the sum of what the asks wait for (scheduler/requests.go).
use yunikorn_study.Prelude.{
  String, ℕ, ◌+◌, ◌%◌, ◌≡◌, refl, ◌<◌, Option, none, some, true, if◌then◌else◌, ◌==◌, arith, inl,
  inr, Option-cases, Bool-cases,
}
use yunikorn_study.Dict.{
  lookup, IsMap, insert-IsMap, erase-IsMap, AllValues, insert-AllValues, erase-AllValues,
}
use yunikorn_study.Quantity.{Quantity, word, add, sub}
use yunikorn_study.Resource.{Resource, value, new_resource, update_each, sub_value}
use yunikorn_study.Resource.Loops.{
  IsValid, has, value-lt-word, value-none, value-update_each, update_each-IsMap,
  update_each-IsWords,
}
use yunikorn_study.Resource.Arith.{
  value-add_resource, add_resource-IsValid, value-update_each-sub, update_each_sub-IsValid,
}
use yunikorn_study.Requests.{
  Ask, Requests, multiply_by, pending, add_allocation_ask, remove_allocation_ask, remove_ask,
  cleanup_allocation_asks, update_allocation_ask_repeat, update_found, new_requests, add_int32,
  is_natural, add_pending_ask_repeat,
}
use yunikorn_study.Requests.Sums.{sum_by, sum_by-insert, sum_by-replace, sum_by-erase}
use yunikorn_study.Requests.Exact.{IsExact, IsSmall, IsExactAt, exact_at}

abbrev pub IsValidAsk : Ask → Type 0
IsValidAsk a = IsValid a.allocated_resource

-- What one `float64` product gives is an int64.
abbrev pub IsInt64 : {F : Type 0} → (Quantity → F → Quantity) → Type 0
IsInt64 {F} times = (v : Quantity) (f : F) → times v f < word

-- The sign of a factor is the sign of the product.
abbrev pub IsOdd : {F : Type 0} → (F → F) → (Quantity → F → Quantity) → Type 0
IsOdd {F} negate times = (v : Quantity) (f : F) → times v (negate f) ≡ sub 0 (times v f)

lookup_empty : (k : String) → lookup k new_resource ≡ none
unfolding lookup
lookup_empty k = refl

add_nothing : add 0 0 ≡ 0
unfolding add
add_nothing = refl

sub_nothing : sub 0 0 ≡ 0
unfolding sub
sub_nothing = refl

module _ {F : Type 0} (float : ℕ → F) (negate : F → F) (times : Quantity → F → Quantity)
    (int64 : IsInt64 times) where
  pub record IsSound (m : Requests) : Type 0 where
    pub is_map : IsMap m.requests
    pub are_valid : AllValues IsValidAsk m.requests
    pub is_resource : IsValid m.total_pending_resource
    pub balanced :
        (k : String)
        → value k m.total_pending_resource
          ≡ sum_by (λ a. value k (pending float negate times a)) m.requests % word

  multiply_by-IsValid :
      (r : Resource) (f : F) → IsValid r → IsValid (multiply_by float negate times (some r) f)
  unfolding multiply_by
  multiply_by-IsValid r f h = record {
    is_map = update_each-IsMap (λ k old v. times v f) r new_resource tt;
    is_words =
        update_each-IsWords (λ k old v. times v f) (λ k old v p q. int64 v f) r new_resource
          h.is_words tt;
  }

  pub value-multiply_by :
      (k : String) (r : Resource) (f : F)
      → IsValid r
      → value k (multiply_by float negate times (some r) f)
        ≡ (if has k r then times (value k r) f else 0)
  unfolding multiply_by
  value-multiply_by k r f h = ground (
    arith,
    value-update_each (λ k old v. times v f) k r new_resource h.is_map,
    value-none k new_resource (lookup_empty k),
  )

  pending-IsValid : (a : Ask) → IsValidAsk a → IsValid (pending float negate times a)
  pending-IsValid a h = multiply_by-IsValid a.allocated_resource (float a.pending_repeat_ask) h

  grown : {t d x : ℕ} (s p n : ℕ) → t ≡ add x d → x ≡ s % word → d ≡ p → n ≡ s + p → t ≡ n % word
  unfolding add
  grown s p n a b c d = omega arith

  changed :
      {t d x : ℕ} (s p o n : ℕ)
      → t ≡ add x d
      → x ≡ s % word
      → d ≡ sub p o
      → n + o ≡ s + p
      → o < word
      → t ≡ n % word
  unfolding add sub
  changed s p o n a b c d e = omega arith

  -- `AddAllocationAsk` keeps the total pending resource equal, as int64, to the sum over the asks of
  -- resource times repeat, whether the key is new or an older ask is replaced.
  pub add_allocation_ask-IsSound :
      (m : Requests) (ask : Ask)
      → IsValidAsk ask
      → IsSound m
      → IsSound (add_allocation_ask float negate times m ask).0
  unfolding add_allocation_ask
  add_allocation_ask-IsSound m ask h s =
      elim (Option-cases (lookup ask.ask_proto.allocation_key m.requests)) [
        | inl c ↦ rw c record {
          is_map = insert-IsMap ask.ask_proto.allocation_key ask m.requests s.is_map;
          are_valid =
              insert-AllValues IsValidAsk ask.ask_proto.allocation_key ask m.requests s.are_valid h;
          is_resource =
              add_resource-IsValid (some m.total_pending_resource)
                (some (pending float negate times ask)) s.is_resource (pending-IsValid ask h);
          balanced = λ k.
              grown _ _ _
                (value-add_resource k (some m.total_pending_resource)
                  (some (pending float negate times ask)) s.is_resource (pending-IsValid ask h))
                (s.balanced k) refl
                (sum_by-insert (λ a. value k (pending float negate times a))
                  ask.ask_proto.allocation_key ask m.requests c);
        }
        | inr (old, c) ↦
            let old_valid = pending-IsValid old (s.are_valid ask.ask_proto.allocation_key old c) in
            let delta =
              update_each sub_value (pending float negate times old)
                (pending float negate times ask) in
            let delta_valid : IsValid delta =
              update_each_sub-IsValid (pending float negate times old)
                (pending float negate times ask) old_valid (pending-IsValid ask h) in
            rw c record {
              is_map = insert-IsMap ask.ask_proto.allocation_key ask m.requests s.is_map;
              are_valid =
                  insert-AllValues IsValidAsk ask.ask_proto.allocation_key ask m.requests
                    s.are_valid h;
              is_resource =
                  add_resource-IsValid (some m.total_pending_resource) (some delta) s.is_resource
                    delta_valid;
              balanced = λ k.
                  changed _ (value k (pending float negate times ask))
                    (value k (pending float negate times old)) _
                    (value-add_resource k (some m.total_pending_resource) (some delta) s.is_resource
                      delta_valid)
                    (s.balanced k)
                    (value-update_each-sub k (pending float negate times old)
                      (pending float negate times ask) old_valid (pending-IsValid ask h))
                    (sum_by-replace (λ a. value k (pending float negate times a))
                      ask.ask_proto.allocation_key ask old m.requests c)
                    (value-lt-word k (pending float negate times old) old_valid.is_words);
            }
      ]

  negated :
      (k : String) (a : Ask)
      → IsOdd negate times
      → IsValidAsk a
      → value k (
          multiply_by float negate times
            (some a.allocated_resource)
            (negate (float a.pending_repeat_ask)))
        ≡ sub 0 (value k (pending float negate times a))
  negated k a odd h = ground (
    arith,
    value-multiply_by k a.allocated_resource (negate (float a.pending_repeat_ask)) h,
    value-multiply_by k a.allocated_resource (float a.pending_repeat_ask) h,
    odd (value k a.allocated_resource) (float a.pending_repeat_ask),
    sub_nothing,
  )

  new_requests-IsSound : IsSound new_requests
  unfolding new_requests value lookup
  new_requests-IsSound = record {
    is_map = tt;
    are_valid = λ k a e. ground arith;
    is_resource = record { is_map = tt; is_words = tt };
    balanced = λ k. refl;
  }

  remove_ask-IsSound :
      (key : String) (m : Requests) (found : Option Ask)
      → lookup key m.requests ≡ found
      → IsOdd negate times
      → IsSound m
      → IsSound (remove_ask float negate times key m found).0
  remove_ask-IsSound key m none c odd s = s
  remove_ask-IsSound key m (some a) c odd s =
      let valid = s.are_valid key a c in
      let change =
        multiply_by float negate times (some a.allocated_resource)
          (negate (float a.pending_repeat_ask)) in
      let change_valid : IsValid change =
        multiply_by-IsValid a.allocated_resource (negate (float a.pending_repeat_ask)) valid in
      record {
        is_map = erase-IsMap key m.requests s.is_map;
        are_valid = erase-AllValues IsValidAsk key m.requests s.are_valid;
        is_resource =
            add_resource-IsValid (some m.total_pending_resource) (some change) s.is_resource
              change_valid;
        balanced = λ k.
            changed _ 0 (value k (pending float negate times a)) _
              (value-add_resource k (some m.total_pending_resource) (some change) s.is_resource
                change_valid)
              (s.balanced k) (negated k a odd valid)
              (ground (
                arith,
                sum_by-erase (λ b. value k (pending float negate times b)) key a m.requests s.is_map
                    c,
              ))
              (value-lt-word k (pending float negate times a) (pending-IsValid a valid).is_words);
      }

  -- `RemoveAllocationAsk` keeps the total pending resource equal to the sum over the asks, for a key
  -- that is there, a key that is not there and the empty key, where a product changes its sign with a
  -- factor.
  pub remove_allocation_ask-IsSound :
      (m : Requests) (key : String)
      → IsOdd negate times
      → IsSound m
      → IsSound (remove_allocation_ask float negate times m key).0
  unfolding remove_allocation_ask cleanup_allocation_asks
  remove_allocation_ask-IsSound m key odd s = elim (Bool-cases (key == "")) [
    | inl c ↦ rw c new_requests-IsSound
    | inr c ↦ rw c (remove_ask-IsSound key m (lookup key m.requests) refl odd s)
  ]

  repeated :
      (k : String) (a : Ask) (delta : ℕ)
      → IsValidAsk a
      → IsExactAt float times a delta
      → is_natural (add_int32 a.pending_repeat_ask delta) ≡ true
      → value k (pending float negate times (add_pending_ask_repeat a delta).0)
        ≡ add
            (value k (pending float negate times a))
            (value k (multiply_by float negate times (some a.allocated_resource) (float delta)))
  unfolding add_pending_ask_repeat
  repeated k a delta h exact natural = rw natural (
      ground (
        arith,
        value-multiply_by k a.allocated_resource (float (add_int32 a.pending_repeat_ask delta)) h,
        value-multiply_by k a.allocated_resource (float a.pending_repeat_ask) h,
        value-multiply_by k a.allocated_resource (float delta) h,
        exact k,
        add_nothing,
      ))

  repeat-IsValidAsk :
      (a : Ask) (delta : ℕ)
      → is_natural (add_int32 a.pending_repeat_ask delta) ≡ true
      → IsValidAsk a
      → IsValidAsk (add_pending_ask_repeat a delta).0
  unfolding add_pending_ask_repeat
  repeat-IsValidAsk a delta natural h = rw natural h

  shifted :
      {t x : ℕ} (d s w w' n : ℕ)
      → t ≡ add x d
      → x ≡ s % word
      → w' ≡ add w d
      → n + w ≡ s + w'
      → t ≡ n % word
  unfolding add
  shifted d s w w' n a b c e = omega arith

  update_found-IsSound :
      (key : String) (delta : ℕ) (m : Requests) (found : Option Ask)
      → lookup key m.requests ≡ found
      → IsExact float times
      → ((a : Ask) → found ≡ some a → IsSmall a delta)
      → IsSound m
      → IsSound (update_found float negate times key delta m found).0
  update_found-IsSound key delta m none c exact small s = s
  update_found-IsSound key delta m (some a) c exact small s =
      elim (Bool-cases (is_natural (add_int32 a.pending_repeat_ask delta))) [
        | inl natural ↦
            let valid = s.are_valid key a c in
            let change = multiply_by float negate times (some a.allocated_resource) (float delta) in
            let change_valid : IsValid change =
              multiply_by-IsValid a.allocated_resource (float delta) valid in
            let more : Ask = (add_pending_ask_repeat a delta).0 in
            let more_valid : IsValidAsk more = repeat-IsValidAsk a delta natural valid in
            rw natural record {
              is_map = insert-IsMap key more m.requests s.is_map;
              are_valid = insert-AllValues IsValidAsk key more m.requests s.are_valid more_valid;
              is_resource =
                  add_resource-IsValid (some m.total_pending_resource) (some change) s.is_resource
                    change_valid;
              balanced = λ k.
                  shifted (value k change) _ (value k (pending float negate times a))
                    (value k (pending float negate times more)) _
                    (value-add_resource k (some m.total_pending_resource) (some change)
                      s.is_resource change_valid)
                    (s.balanced k)
                    (repeated k a delta valid
                      (exact_at float times a delta exact (small a refl) natural) natural)
                    (sum_by-replace (λ b. value k (pending float negate times b)) key more a
                      m.requests c);
            }
        | inr negative ↦ rw negative s
      ]

  -- `UpdateAllocationAskRepeat`, refusals included, keeps the total pending resource equal to the sum
  -- over the asks, where a float product below 2 ^ 53 is exact and, for the ask that is changed, the
  -- change and the old repeat count, which is not negative, are an int32, and each quantity times the
  -- sum of the old count and the size of the change is below 2 ^ 53.
  pub update_allocation_ask_repeat-IsSound :
      (m : Requests) (key : String) (delta : ℕ)
      → IsExact float times
      → ((a : Ask) → lookup key m.requests ≡ some a → IsSmall a delta)
      → IsSound m
      → IsSound (update_allocation_ask_repeat float negate times m key delta).0
  unfolding update_allocation_ask_repeat
  update_allocation_ask_repeat-IsSound m key delta exact small s =
      update_found-IsSound key delta m (lookup key m.requests) refl exact small s
