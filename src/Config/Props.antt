-- ===== src/Config/Props.antt =====
-- What `updateQueueProps` makes of a queue whose configuration passes the checks
-- (cache/queue_info.go and common/configs/configvalidator.go).
use Prim.Native.Nat.{◌≤◌}
use yunikorn_study.Prelude.{
  String, ℕ, ◌≡◌, refl, inl, inr, Option, none, some, Bool, true, false, not, ◌&&◌, [], ◌∷◌, arith,
  ltb, length, ◌==◌, Option-cases, Bool-cases, if◌then◌else◌,
}
use yunikorn_study.Dict.{Dict, insert}
use yunikorn_study.Text.{split, to_lower}
use yunikorn_study.Resource.{Resource, new_resource}
use yunikorn_study.Acl.{new_acl}
use yunikorn_study.State.{active}
use yunikorn_study.Queue.{Queue}
use yunikorn_study.Queue.Config.{
  QueueFields, or_empty, parse_int, conf_loop, new_resource_from_conf, set_limit, set_properties,
  merge_properties, update_queue_props, new_queue,
}
use yunikorn_study.Config.{check_resource, check_limit, check_resources, ◌then_check◌, ConfigError}

-- `NewACL` does not refuse the text: it has at most one space.
abbrev pub IsPlainAcl : String → Type 0
IsPlainAcl text = length (split b' ' text) ≤ 2

-- The queue has what its configuration says, under the parent, if any.
pub record IsConfigured (conf : QueueFields) (below : Bool) (parent : Option ℕ) (q : Queue)
    : Type 0 where
  pub name : q.name ≡ to_lower conf.name
  pub parent_at : q.parent ≡ parent
  pub leaf : q.is_leaf ≡ not conf.parent && not below
  pub managed : q.is_managed ≡ true
  pub max :
      (r : Resource) × (new_resource_from_conf (or_empty conf.max) ≡ some r)
      × (q.max_resource ≡ set_limit none r)
  pub guaranteed :
      (r : Resource) × (new_resource_from_conf (or_empty conf.guaranteed) ≡ some r)
      × (q.guaranteed_resource ≡ set_limit none r)
  pub submit : q.submit_acl ≡ (new_acl conf.submit_acl).0
  pub admin : q.admin_acl ≡ (new_acl conf.admin_acl).0

conf_loop_ends :
    (conf : Dict String) (res : Resource)
    → check_resource conf ≡ none
    → (r : Resource) × (conf_loop conf res ≡ some r)
unfolding check_resource conf_loop
conf_loop_ends [] res e = (res, refl)
conf_loop_ends ((key, text) ∷ conf) res e = elim (Option-cases (parse_int text)) [
  | inl n ↦ cc (rw (n, check_resource) at e)
  | inr (v, n) ↦
      let (r, c) = conf_loop_ends conf (insert key v res) (rw (n, check_resource) at e) in
      (r, rw (n, conf_loop) c)
]

limit_ends :
    (conf : Option (Dict String))
    → check_limit conf ≡ none
    → (r : Resource) × (new_resource_from_conf (or_empty conf) ≡ some r)
unfolding new_resource_from_conf conf_loop
limit_ends none e = (new_resource, refl)
limit_ends (some conf) e = conf_loop_ends conf new_resource e

pub both_checked : (a b : Option ConfigError) → (a then_check b) ≡ none → (a ≡ none) × (b ≡ none)
both_checked (some x) b e = cc
both_checked none b e = (refl, e)

new_acl_plain : (text : String) → IsPlainAcl text → new_acl text ≡ ((new_acl text).0, false)
unfolding new_acl
new_acl_plain text plain = elim (Bool-cases (text == "")) [
  | inl e ↦ rw e refl
  | inr e ↦ let few : ltb 2 (length (split b' ' text)) ≡ false = ground arith in rw e (rw few refl)
]

-- The new queue with all that the configuration sets but the properties.
abbrev configured : QueueFields → Bool → Option ℕ → Resource → Resource → Queue
configured conf below up max guaranteed = record (new_queue conf.name up (not conf.parent) true) {
  submit_acl = (new_acl conf.submit_acl).0;
  admin_acl = (new_acl conf.admin_acl).0;
  is_managed = true;
  is_leaf = if below then false else not conf.parent;
  max_resource = set_limit none max;
  guaranteed_resource = set_limit none guaranteed;
}

leaf_test : (a below : Bool) → (if below then false else not a) ≡ not a && not below
leaf_test true true = refl
leaf_test true false = refl
leaf_test false true = refl
leaf_test false false = refl

-- The queue succeeds, and has what the configuration says.
abbrev pub IsMade : QueueFields → Bool → Option ℕ → Queue × Bool → Type 0
IsMade conf below up made =
    (q : Queue) × (made ≡ (q, false))
    × IsConfigured conf below up q
    × (q.children ≡ [])
    × (q.state ≡ active)

with_properties :
    (parent : Option (Dict String)) (conf : QueueFields) (below : Bool) (up : Option ℕ) (q : Queue)
    → IsConfigured conf below up q
    → q.children ≡ []
    → q.state ≡ active
    → IsMade conf below up (set_properties parent conf q, false)
with_properties none conf below up q h c s = (
  record q { properties = conf.properties },
  refl,
  record {
    name = h.name;
    parent_at = h.parent_at;
    leaf = h.leaf;
    managed = h.managed;
    max = h.max;
    guaranteed = h.guaranteed;
    submit = h.submit;
    admin = h.admin;
  },
  c,
  s,
)
with_properties (some parent) conf below up q h c s = (
  record q { properties = some (merge_properties (some parent) conf.properties) },
  refl,
  record {
    name = h.name;
    parent_at = h.parent_at;
    leaf = h.leaf;
    managed = h.managed;
    max = h.max;
    guaranteed = h.guaranteed;
    submit = h.submit;
    admin = h.admin;
  },
  c,
  s,
)

-- `updateQueueProps` of a new queue succeeds, and gives it what the configuration says.
pub update_queue_props-IsMade :
    (parent : Option (Dict String)) (conf : QueueFields) (below : Bool) (up : Option ℕ)
    → check_resources conf ≡ none
    → IsPlainAcl conf.submit_acl
    → IsPlainAcl conf.admin_acl
    → IsMade conf below up
        (update_queue_props parent conf below (new_queue conf.name up (not conf.parent) true))
unfolding update_queue_props check_resources
update_queue_props-IsMade parent conf below up checked submit admin =
    let (g, m) = both_checked (check_limit conf.guaranteed) (check_limit conf.max) checked in
    let (r, e) = limit_ends conf.max m in
    let (s, d) = limit_ends conf.guaranteed g in
    rw (new_acl_plain conf.submit_acl submit) (
      rw (new_acl_plain conf.admin_acl admin) (
        rw e (
          rw d (
            with_properties parent conf below up (configured conf below up r s)
              (record {
                name = refl;
                parent_at = refl;
                leaf = leaf_test conf.parent below;
                managed = refl;
                max = (r, e, refl);
                guaranteed = (s, d, refl);
                submit = refl;
                admin = refl;
              })
              refl refl))))
