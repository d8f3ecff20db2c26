-- ===== src/Queue/Config.antt =====
-- Queues made from the configuration and by placement rules (cache/queue_info.go, `addQueueInfo` of
-- cache/partition_info.go, `NewResourceFromConf` of common/resources/resources.go and the queue part of
-- common/configs/config.go).
use Prim.Native.Char.{Char, code}
use Prim.Native.Nat.{◌-◌}
use yunikorn_study.Prelude.{
  String, ℕ, suc, zero, ◌+◌, ◌*◌, Option, none, some, Bool, true, false, not, ◌&&◌, ◌||◌,
  if◌then◌else◌, eqb, leb, ltb, [], ◌∷◌, ◌==◌,
}
use yunikorn_study.Dict.{Dict, insert}
use yunikorn_study.Quantity.{Quantity, half_word, sub}
use yunikorn_study.Text.{to_lower}
use yunikorn_study.Resource.{Resource, new_resource}
use yunikorn_study.Acl.{Acl, empty_acl, new_acl}
use yunikorn_study.State.{active}
use yunikorn_study.Queue.{Queue, Heap, QueueError}
use yunikorn_study.Queue.Manage.{add_child_queue}

-- The fields of `QueueConfig` but its queues.
pub record QueueFields : Type 0 where
  pub name : String
  pub parent : Bool
  pub guaranteed : Option (Dict String)
  pub max : Option (Dict String)
  pub properties : Option (Dict String)
  pub admin_acl : String
  pub submit_acl : String

mutual
  pub data QueueConfig : Type 0 where
    queue_config : QueueFields → QueueConfigs → QueueConfig

  pub data QueueConfigs : Type 0 where
    no_queues : QueueConfigs
    and_queue : QueueConfig → QueueConfigs → QueueConfigs

-- The digits of `strconv.ParseInt` in base 10, from what is read so far.
parse_digits : ℕ → String → Option ℕ
parse_digits n String.[] = some n
parse_digits n (String.◌∷◌ c s) =
    let rest = parse_digits (n * 10 + (code c - b'0')) s in
    if leb b'0' (code c) && leb (code c) b'9' then rest else none

parse_natural : String → Option ℕ
unfolding parse_digits
parse_natural s = if s == "" then none else parse_digits 0 s

-- `strconv.ParseInt(s, 10, 64)`; `none` is its error.
unfoldable pub parse_int : String → Option Quantity
unfolding parse_natural
parse_int String.[] = none
parse_int (String.◌∷◌ c s) =
    if eqb (code c) b'-'
    then elim (parse_natural s) [
      | none ↦ none
      | some n ↦ if leb n half_word then some (sub 0 n) else none
    ]
    else elim (parse_natural (if eqb (code c) b'+' then s else String.◌∷◌ c s)) [
      | none ↦ none
      | some n ↦ if ltb n half_word then some n else none
    ]

unfoldable pub conf_loop : Dict String → Resource → Option Resource
conf_loop [] res = some res
conf_loop ((key, text) ∷ conf) res = elim (parse_int text) [
  | none ↦ none
  | some v ↦ conf_loop conf (insert key v res)
]

-- `NewResourceFromConf`
unfoldable pub new_resource_from_conf : Dict String → Option Resource
unfolding conf_loop
new_resource_from_conf conf = conf_loop conf new_resource

unfoldable pub copy_properties : Dict String → Dict String → Dict String
copy_properties [] merged = merged
copy_properties ((key, text) ∷ m) merged = copy_properties m (insert key text merged)

abbrev pub or_empty : Option (Dict String) → Dict String
or_empty none = []
or_empty (some m) = m

unfoldable pub merge_properties : Option (Dict String) → Option (Dict String) → Dict String
merge_properties parent child =
    copy_properties (or_empty child) (copy_properties (or_empty parent) [])

-- `if len(r.Resources) != 0 { old = r }`
abbrev pub set_limit : Option Resource → Resource → Option Resource
set_limit old [] = old
set_limit old (entry ∷ r) = some (entry ∷ r)

abbrev pub set_properties : Option (Dict String) → QueueFields → Queue → Queue
set_properties none conf q = record q { properties = conf.properties }
set_properties (some parent) conf q = record q {
  properties = some (merge_properties (some parent) conf.properties);
}

-- The part of `updateQueueProps` after the maximum: the queue, and whether there is an error.
abbrev pub set_guaranteed :
    Option (Dict String) → QueueFields → Queue → Option Resource → Queue × Bool
set_guaranteed parent conf q none = (q, true)
set_guaranteed parent conf q (some r) = (
  set_properties parent conf (record q { guaranteed_resource = set_limit q.guaranteed_resource r }),
  false,
)

abbrev pub set_maximum : Option (Dict String) → QueueFields → Queue → Option Resource → Queue × Bool
set_maximum parent conf q none = (q, true)
set_maximum parent conf q (some r) =
    set_guaranteed parent conf (record q { max_resource = set_limit q.max_resource r })
      (new_resource_from_conf (or_empty conf.guaranteed))

abbrev pub set_admin : Option (Dict String) → QueueFields → Bool → Queue → Acl × Bool → Queue × Bool
set_admin parent conf below q (acl, true) = (record q { admin_acl = acl }, true)
set_admin parent conf below q (acl, false) =
    set_maximum parent conf
      (record q {
        admin_acl = acl;
        is_managed = true;
        is_leaf = if below then false else q.is_leaf;
      })
      (new_resource_from_conf (or_empty conf.max))

abbrev pub set_submit :
    Option (Dict String) → QueueFields → Bool → Queue → Acl × Bool → Queue × Bool
set_submit parent conf below q (acl, true) = (record q { submit_acl = acl }, true)
set_submit parent conf below q (acl, false) =
    set_admin parent conf below (record q { submit_acl = acl }) (new_acl conf.admin_acl)

-- `updateQueueProps` of a queue whose parent has the first argument's properties: `none` where there
-- is no parent or its properties are nil. `below` says that the configuration has queues below.
unfoldable pub update_queue_props : Option (Dict String) → QueueFields → Bool → Queue → Queue × Bool
update_queue_props parent conf below q = set_submit parent conf below q (new_acl conf.submit_acl)

abbrev pub new_queue : String → Option ℕ → Bool → Bool → Queue
new_queue name parent leaf managed = record {
  name = to_lower name;
  max_resource = none;
  guaranteed_resource = none;
  parent = parent;
  properties = none;
  admin_acl = empty_acl;
  submit_acl = empty_acl;
  allocated_resource = new_resource;
  is_leaf = leaf;
  is_managed = managed;
  state = active;
  state_time = 0;
  children = [];
}

-- `&QueueInfo{...}`: the queue gets the next address.
abbrev pub allocate : Heap → Queue → Heap
allocate h q = record { next = suc h.next; cell = λ j. if eqb j h.next then some q else h.cell j }

-- What a constructor returns: the address of the queue, or `none` for an error. The outer `none` is
-- a parent that is not there.
abbrev pub registered : ℕ → Option (Heap × Option QueueError) → Option (Heap × Option ℕ)
registered p none = none
registered p (some (h', none)) = some (h', some p)
registered p (some (h', some e)) = some (h', none)

abbrev pub register_under : Heap → Queue → Option ℕ → Option (Heap × Option ℕ)
register_under h q none = some (allocate h q, some h.next)
register_under h q (some up) = registered h.next (add_child_queue (allocate h q) up q.name h.next)

abbrev pub register : Heap → Queue → Option (Heap × Option ℕ)
register h q = register_under h q q.parent

queue_char : Char → Bool
queue_char c =
    ((leb b'a' (code c) && leb (code c) b'z') || (leb b'A' (code c) && leb (code c) b'Z'))
    || ((leb b'0' (code c) && leb (code c) b'9') || (eqb (code c) b'_' || eqb (code c) b'-'))

queue_rest : ℕ → String → Bool
queue_rest fuel String.[] = true
queue_rest zero (String.◌∷◌ c s) = false
queue_rest (suc fuel) (String.◌∷◌ c s) =
    let rest = queue_rest fuel s in if queue_char c then rest else false

-- ^[a-zA-Z0-9_-]{1,64}$
unfoldable pub is_queue_name : String → Bool
unfolding queue_char queue_rest
is_queue_name s = not (s == "") && queue_rest 64 s

unfoldable pub new_unmanaged_queue : Heap → String → Bool → Option ℕ → Option (Heap × Option ℕ)
new_unmanaged_queue h name leaf parent =
    if is_queue_name name then register h (new_queue name parent leaf false) else some (h, none)

abbrev pub properties_at : Heap → Option ℕ → Option (Dict String)
properties_at h none = none
properties_at h (some p) = elim (h.cell p) [ none ↦ none | some q ↦ q.properties ]

abbrev pub manage : Heap → Queue × Bool → Option (Heap × Option ℕ)
manage h (q, true) = some (h, none)
manage h (q, false) = register h q

unfoldable pub new_managed_queue : Heap → QueueFields → Bool → Option ℕ → Option (Heap × Option ℕ)
new_managed_queue h conf below parent = manage h (
    update_queue_props (properties_at h parent) conf below
      (new_queue conf.name parent (not conf.parent) true))

abbrev pub has_queues : QueueConfigs → Bool
has_queues no_queues = false
has_queues (and_queue c cs) = true

-- What comes after one queue is made.
abbrev pub go_below :
    (Heap → ℕ → Option (Heap × Bool)) → Option (Heap × Option ℕ) → Option (Heap × Bool)
go_below add none = none
go_below add (some (h, none)) = some (h, false)
go_below add (some (h, some p)) = add h p

-- What comes after one queue and the queues below it are made.
abbrev pub go_on : (Heap → Option (Heap × Bool)) → Option (Heap × Bool) → Option (Heap × Bool)
go_on next none = none
go_on next (some (h, false)) = some (h, false)
go_on next (some (h, true)) = next h

-- `addQueueInfo`: the heap, and whether it succeeds.
unfoldable mutual
  pub add_queue_info : Heap → QueueConfigs → ℕ → Option (Heap × Bool)
  add_queue_info h no_queues parent = some (h, true)
  add_queue_info h (and_queue c cs) parent =
      go_on (λ h'. add_queue_info h' cs parent) (add_one h c parent)

  pub add_one : Heap → QueueConfig → ℕ → Option (Heap × Bool)
  add_one h (queue_config fields below) parent =
      go_below (λ h' p. add_queue_info h' below p)
        (new_managed_queue h fields (has_queues below) (some parent))
