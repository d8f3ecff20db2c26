-- ===== src/Config/Validated.antt =====
-- The loop of `Validate` (common/configs/configvalidator.go): what holds of a configuration that it
-- accepts.
use mathlib.Core.List.{Memᴰ}
use mathlib.Core.List.Memᴰ
use mathlib.Core.Path.{subst}
use yunikorn_study.Prelude.{
  String, ◌≡◌, refl, sym, ◌∙◌, ap, inl, inr, Option, none, Bool, false, ◌&&◌, ◌||◌, List, [], ◌∷◌,
  if◌then◌else◌, Bool-cases, Option-cases,
}
use yunikorn_study.Config.{
  PartitionConfig, Checked, valid, invalid, check_queues_structure, check_placement_rules,
  is_default, name_default, and_partition, check_rest, validate_loop, validate, two_defaults,
}
use yunikorn_study.Config.Root.{
  HasRoot, valid_eq, check_queues_structure-HasRoot, check_queues_structure_kept, name_default_kept,
}

-- What a valid configuration says of its first partition and of the others.
record Loop {Exp : Type 0} (compile : String → Option Exp) (seen : Bool)
    (partition : PartitionConfig) (partitions all : List PartitionConfig) : Type 0 where
  first : PartitionConfig
  rest : List PartitionConfig
  is : first ∷ rest ≡ all
  once : is_default partition && seen ≡ false
  root : HasRoot first
  name : first.name ≡ (name_default partition).name
  rules : check_placement_rules compile first.placement_rules ≡ none
  others : validate_loop compile (seen || is_default partition) partitions ≡ valid rest

first_or_rest :
    {first p : PartitionConfig} {rest : List PartitionConfig}
    → HasRoot first
    → (Memᴰ p rest → HasRoot p)
    → Memᴰ p (first ∷ rest)
    → HasRoot p
first_or_rest h go m = elim m [ Memᴰ.head e ↦ subst HasRoot (sym e) h | Memᴰ.tail n ↦ go n ]

module _ {Exp : Type 0} (compile : String → Option Exp) where
  validate_loop-Loop :
      (seen : Bool) (partition : PartitionConfig) (partitions all : List PartitionConfig)
      → validate_loop compile seen (partition ∷ partitions) ≡ valid all
      → Loop compile seen partition partitions all
  unfolding validate_loop
  validate_loop-Loop seen partition partitions all e =
      elim (Bool-cases (is_default partition && seen)) [
        | inl d ↦ cc (rw d at e)
        | inr d ↦
            structure (check_queues_structure (name_default partition))
              (validate_loop compile (seen || is_default partition) partitions) refl refl d
              (rw d at e)
      ]
    where
      written :
          (checked : PartitionConfig) (rest : Checked (List PartitionConfig))
          → check_queues_structure (name_default partition) ≡ valid checked
          → validate_loop compile (seen || is_default partition) partitions ≡ rest
          → is_default partition && seen ≡ false
          → check_placement_rules compile checked.placement_rules ≡ none
          → and_partition checked rest ≡ valid all
          → Loop compile seen partition partitions all
      written checked (invalid x) c r d n e = cc
      written checked (valid rest) c r d n e =
          let (root, name) = check_queues_structure-HasRoot (name_default partition) checked c in
          record {
            first = checked;
            rest = rest;
            is = valid_eq (checked ∷ rest) all e;
            once = d;
            root = root;
            name = name;
            rules = n;
            others = r;
          }

      structure :
          (s : Checked PartitionConfig) (rest : Checked (List PartitionConfig))
          → check_queues_structure (name_default partition) ≡ s
          → validate_loop compile (seen || is_default partition) partitions ≡ rest
          → is_default partition && seen ≡ false
          → check_rest compile s rest ≡ valid all
          → Loop compile seen partition partitions all
      structure (invalid x) rest c r d e = cc
      structure (valid checked) rest c r d e =
          elim (Option-cases (check_placement_rules compile checked.placement_rules)) [
            | inl n ↦ written checked rest c r d n (rw (n, check_rest) at e)
            | inr (x, n) ↦ cc (rw (n, check_rest) at e)
          ]

  loop_step :
      (seen : Bool) (partition checked : PartitionConfig) (partitions rest : List PartitionConfig)
      → is_default partition && seen ≡ false
      → check_queues_structure (name_default partition) ≡ valid checked
      → check_placement_rules compile checked.placement_rules ≡ none
      → validate_loop compile (seen || is_default partition) partitions ≡ valid rest
      → validate_loop compile seen (partition ∷ partitions) ≡ valid (checked ∷ rest)
  unfolding validate_loop
  loop_step seen partition checked partitions rest once c rules r =
      let later = validate_loop compile (seen || is_default partition) partitions in
      let go : Bool
          → Checked PartitionConfig
          → Checked (List PartitionConfig)
          → Checked (List PartitionConfig) =
        λ b x y. if b then invalid two_defaults else check_rest compile x y in
      let ruled : check_rest compile (valid checked) (valid rest) ≡ valid (checked ∷ rest) =
        rw (rules, check_rest) refl in
      ap (λ b. go b (check_queues_structure (name_default partition)) later) once
      ∙ ap (λ x. go false x later) c
      ∙ ap (λ y. go false (valid checked) y) r
      ∙ ruled

  loop_again :
      (partitions all : List PartitionConfig) (seen : Bool)
      → validate_loop compile seen partitions ≡ valid all
      → validate_loop compile seen all ≡ valid all
  unfolding validate_loop
  loop_again [] all seen e =
      subst (λ l. validate_loop compile seen l ≡ valid l) (valid_eq [] all e) refl
  loop_again (partition ∷ partitions) all seen e =
      let l = validate_loop-Loop seen partition partitions all e in
      let (same, kept) = name_default_kept partition l.first l.name in
      let again = loop_again partitions l.rest (seen || is_default partition) l.others in
      let later = ap (λ b. validate_loop compile (seen || b) l.rest) same ∙ again in
      subst (λ x. validate_loop compile seen x ≡ valid x) l.is
        (loop_step seen l.first l.first l.rest l.rest (ap (λ b. b && seen) same ∙ l.once)
          (ap check_queues_structure kept ∙ check_queues_structure_kept l.first l.root) l.rules
          later)

  -- `Validate` of a configuration that it has accepted and changed accepts it again and changes nothing.
  pub validate-validate :
      (partitions checked : List PartitionConfig)
      → validate compile partitions ≡ valid checked
      → validate compile checked ≡ valid checked
  unfolding validate
  validate-validate partitions checked e = loop_again partitions checked false e

  loop-HasRoot :
      (partitions all : List PartitionConfig) (seen : Bool) (p : PartitionConfig)
      → validate_loop compile seen partitions ≡ valid all
      → Memᴰ p all
      → HasRoot p
  unfolding validate_loop
  loop-HasRoot [] all seen p e m =
      absurd (Memᴰ.not-nil (subst (Memᴰ p) (sym (valid_eq [] all e)) m))
  loop-HasRoot (partition ∷ partitions) all seen p e m =
      let l = validate_loop-Loop seen partition partitions all e in
      first_or_rest l.root
        (λ n. loop-HasRoot partitions l.rest (seen || is_default partition) p l.others n)
        (subst (Memᴰ p) (sym l.is) m)

  -- Every partition that `Validate` accepts has one root queue, which is a parent and passes the checks.
  pub validate-HasRoot :
      (partitions checked : List PartitionConfig) (p : PartitionConfig)
      → validate compile partitions ≡ valid checked
      → Memᴰ p checked
      → HasRoot p
  unfolding validate
  validate-HasRoot partitions checked p e m = loop-HasRoot partitions checked false p e m
