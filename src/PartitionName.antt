-- ===== src/PartitionName.antt =====
-- The names of partitions in common/utils.go: `[rm]name` across the cluster, `name` within one RM.
use Prim.Native.Char.{code}
use Prim.Native.String.{◌++◌}
use text.Mathlib.TextLemmas.{cons-append, nil-append}
use yunikorn_study.Prelude.{
  String, ◌≡◌, refl, Bool, true, false, Option, none, some, arith, eqb, ◌==◌, if◌then◌else◌,
}

-- Whether a name holds a `]`.
abbrev pub has_bracket : String → Bool
has_bracket String.[] = false
has_bracket (String.◌∷◌ c s) = if eqb (code c) b']' then true else has_bracket s

-- What follows the first `]`, and what stands before it.
abbrev after_bracket : String → Option String
after_bracket String.[] = none
after_bracket (String.◌∷◌ c s) = if eqb (code c) b']' then some s else after_bracket s

abbrev before_bracket : String → String
before_bracket String.[] = String.[]
before_bracket (String.◌∷◌ c s) =
    if eqb (code c) b']' then String.[] else String.◌∷◌ c (before_bracket s)

unfoldable pub normalized_partition_name : String → String → String
normalized_partition_name name rm_id =
    String.◌∷◌ "[" (rm_id ++ String.◌∷◌ "]" (if name == "" then "default" else name))

-- The index of `]` has to be above 0: a name that begins with it is left alone.
unfoldable pub partition_name_without_cluster_id : String → String
partition_name_without_cluster_id String.[] = String.[]
partition_name_without_cluster_id (String.◌∷◌ c s) =
    if eqb (code c) b']'
    then String.◌∷◌ c s
    else elim (after_bracket s) [ none ↦ String.◌∷◌ c s | some rest ↦ rest ]

-- `partitionName[1:idx]`, and no name where there is no such index.
unfoldable pub rm_id_from_partition_name : String → String
rm_id_from_partition_name String.[] = String.[]
rm_id_from_partition_name (String.◌∷◌ c s) =
    if eqb (code c) b']' then String.[] else if has_bracket s then before_bracket s else String.[]

bracket_lem :
    (rm n : String)
    → has_bracket rm ≡ false
    → (after_bracket (rm ++ String.◌∷◌ "]" n) ≡ some n)
      × (before_bracket (rm ++ String.◌∷◌ "]" n) ≡ rm)
      × (has_bracket (rm ++ String.◌∷◌ "]" n) ≡ true)
bracket_lem String.[] n h = rw nil-append (refl, refl, refl)
bracket_lem (String.◌∷◌ c s) n h = rw cons-append (ground (arith, bracket_lem s n))

-- Both halves of a normalized name are found again, if the RM's id holds no `]`; an empty partition
-- name stands for `default`.
pub normalized_partition_name_roundtrip :
    (name rm_id : String)
    → has_bracket rm_id ≡ false
    → let full = normalized_partition_name name rm_id in
      (partition_name_without_cluster_id full ≡ (if name == "" then "default" else name))
      × (rm_id_from_partition_name full ≡ rm_id)
unfolding normalized_partition_name partition_name_without_cluster_id rm_id_from_partition_name
normalized_partition_name_roundtrip name rm_id h =
    let split = bracket_lem rm_id (if name == "" then "default" else name) h in
    (rw split.0, rw (split.2, split.1))
