-- ===== src/Tests/Resources.antt =====
-- Resources, access lists and partition names.
use yunikorn_study.Prelude.{
  String, ◌≡◌, refl, ◌≢◌, ◌↔◌, none, some, true, List, [], ◌∷◌, ◌&&◌, ◌||◌,
}
use yunikorn_study.Dict.{lookup}
use yunikorn_study.Resource.{
  value, add_resource, sub_resource, fit_in, equals, strictly_greater_than_or_equals, sub_from,
  zero_resource,
}
use yunikorn_study.Resource.Arith.{quantity, sub_resource-add_resource}
use yunikorn_study.Resource.Order.{
  ◌≤₆₄◌, capacity, fit_in_iff, equals_iff, strictly_greater_than_or_equals_iff,
}
use yunikorn_study.Resource.Update.{sub_from_nil_breaks_zero}
use yunikorn_study.Acl.{empty_acl, is_user_name, is_group_name, set_users, set_groups, check_access}
use yunikorn_study.Acl.Access.{is_listed, any_listed, check_access-set_users-set_groups}
use yunikorn_study.PartitionName.{
  normalized_partition_name, partition_name_without_cluster_id, rm_id_from_partition_name,
  normalized_partition_name_roundtrip,
}
use yunikorn_study.Tests.Fixtures.{small, small-IsValid, large, large-IsValid, user}

fit_in_iff_example :
    (fit_in (some large) (some small) ≡ true)
    ↔ ((k : String) → quantity k (some small) ≤₆₄ capacity (quantity k (some large)))
fit_in_iff_example = fit_in_iff (some large) (some small) small-IsValid

equals_iff_example :
    (equals (some small) (some large) ≡ true) ↔ ((k : String) → value k small ≡ value k large)
equals_iff_example = equals_iff small large small-IsValid large-IsValid

strictly_greater_than_or_equals_iff_example :
    (strictly_greater_than_or_equals (some large) (some small) ≡ true)
    ↔ ((k : String) → quantity k (some small) ≤₆₄ quantity k (some large))
strictly_greater_than_or_equals_iff_example =
    strictly_greater_than_or_equals_iff (some large) (some small) large-IsValid small-IsValid

sub_resource-add_resource_example :
    (value "memory" (sub_resource (some (add_resource (some large) (some small))) (some small))
      ≡ quantity "memory" (some large))
    × (value "memory" (add_resource (some (sub_resource (some large) (some small))) (some small))
        ≡ quantity "memory" (some large))
sub_resource-add_resource_example =
    sub_resource-add_resource "memory" (some large) (some small) large-IsValid small-IsValid

sub_from_nil_breaks_zero_example : value "memory" (sub_from none (some small) zero_resource).1 ≢ 0
unfolding value lookup
sub_from_nil_breaks_zero_example = sub_from_nil_breaks_zero "memory" small small-IsValid (λ e. cc)

abbrev dev_groups : List String
dev_groups = "dev" ∷ "ops" ∷ []

check_access-set_users-set_groups_example :
    check_access (set_groups (set_users empty_acl ("bob" ∷ [])) dev_groups) user ≡ (
      (is_listed "alice" ("bob" ∷ []) && is_user_name "alice")
      || any_listed is_group_name ("dev" ∷ []) dev_groups)
check_access-set_users-set_groups_example =
    check_access-set_users-set_groups ("bob" ∷ []) dev_groups user refl refl

normalized_partition_name_roundtrip_example :
    (partition_name_without_cluster_id (normalized_partition_name "" "rm-1") ≡ "default")
    × (rm_id_from_partition_name (normalized_partition_name "" "rm-1") ≡ "rm-1")
normalized_partition_name_roundtrip_example = normalized_partition_name_roundtrip "" "rm-1" refl
