-- ===== src/Application.antt =====
-- cache/application_info.go. A method that writes returns the new application; `leaf_queue` is the
-- address of a queue.
pub mod Accounting
use yunikorn_study.Prelude.{String, ℕ, Option, none, some, List, [], ◌∷◌, if◌then◌else◌}
use yunikorn_study.Dict.{Dict, lookup, insert, erase}
use yunikorn_study.Text.{equal_fold}
use yunikorn_study.Resource.{Resource, new_resource, add_resource, sub_resource}
use yunikorn_study.Allocation.{Allocation}
use yunikorn_study.Acl.{UserGroup}
use yunikorn_study.Node.{values_of}
use yunikorn_study.State.{
  ApplicationState, ApplicationFsm, ApplicationEvent, FsmError, new, handle_application_event,
}

pub record Application : Type 0 where
  pub application_id : String
  pub partition : String
  pub queue_name : String
  pub submission_time : ℕ
  pub user : UserGroup
  pub tags : Dict String
  pub leaf_queue : Option ℕ
  pub allocated_resource : Resource
  pub allocations : Dict Allocation
  pub state : ApplicationState

-- The last argument is the time of the submission.
unfoldable pub new_application :
    String → String → String → UserGroup → Dict String → ℕ → Application
new_application app_id partition queue_name ugi tags now = record {
  application_id = app_id;
  partition = partition;
  queue_name = queue_name;
  submission_time = now;
  user = ugi;
  tags = tags;
  leaf_queue = none;
  allocated_resource = new_resource;
  allocations = [];
  state = new;
}

unfoldable pub all_allocations : Application → List Allocation
all_allocations ai = values_of ai.allocations

unfoldable pub handle_event :
    ApplicationFsm → Application → ApplicationEvent → Application × Option FsmError
handle_event fsm ai event =
    let (state', err) = handle_application_event fsm ai.state event in
    (record ai { state = state' }, err)

-- The leaf queue and its path.
unfoldable pub set_queue : Application → ℕ → String → Application
set_queue ai leaf path = record ai { leaf_queue = some leaf; queue_name = path }

unfoldable pub add_allocation : Application → Allocation → Application
add_allocation ai info = record ai {
  allocations = insert info.uuid info ai.allocations;
  allocated_resource = add_resource (some ai.allocated_resource) (some info.allocated_resource);
}

remove_found : Application → String → Option Allocation → Application × Option Allocation
remove_found ai uuid none = (ai, none)
remove_found ai uuid (some alloc) = (
  record ai {
    allocated_resource = sub_resource (some ai.allocated_resource) (some alloc.allocated_resource);
    allocations = erase uuid ai.allocations;
  },
  some alloc,
)

unfoldable pub remove_allocation : Application → String → Application × Option Allocation
unfolding remove_found
remove_allocation ai uuid = remove_found ai uuid (lookup uuid ai.allocations)

unfoldable pub remove_all_allocations : Application → Application × List Allocation
remove_all_allocations ai =
    (record ai { allocated_resource = new_resource; allocations = [] }, values_of ai.allocations)

-- The first tag, in the order of the walk, whose key is the same but for case.
find_tag : String → Dict String → String
find_tag tag [] = String.[]
find_tag tag ((key, val) ∷ tags) = if equal_fold key tag then val else find_tag tag tags

unfoldable pub get_tag : Application → String → String
unfolding find_tag
get_tag ai tag = find_tag tag ai.tags
