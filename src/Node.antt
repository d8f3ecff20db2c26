-- ===== src/Node.antt =====
-- cache/node_info.go. A method that writes returns the new node.
pub mod Accounting
use yunikorn_study.Prelude.{String, Option, none, some, List, [], ◌∷◌}
use yunikorn_study.Dict.{Dict, lookup, insert, erase}
use yunikorn_study.Resource.{
  Resource, new_resource, new_resource_from_proto, add_resource, sub_resource,
}
use yunikorn_study.Allocation.{Allocation}

-- The part of si.NewNodeInfo that is read.
pub record NewNode : Type 0 where
  pub node_id : String
  pub schedulable_resource : Resource
  pub attributes : Dict String

pub record Node : Type 0 where
  pub node_id : String
  pub total_resource : Resource
  pub allocated_resource : Resource
  pub available_resource : Resource
  pub hostname : String
  pub rackname : String
  pub partition : String
  pub attributes : Dict String
  pub allocations : Dict Allocation

-- `m.attributes[key]`, the empty string for a missing key.
unfoldable pub get_attribute : Dict String → String → String
get_attribute attributes key = elim (lookup key attributes) [ none ↦ String.[] | some v ↦ v ]

unfoldable pub refresh_local_vars_by_attributes : Node → Node
refresh_local_vars_by_attributes m = record m {
  hostname = get_attribute m.attributes "si.io/hostname";
  rackname = get_attribute m.attributes "si.io/rackname";
  partition = get_attribute m.attributes "si.io/node-partition";
}

-- It never returns an error.
unfoldable pub initialize_attribute : Node → Dict String → Node
initialize_attribute m new_attributes =
    refresh_local_vars_by_attributes (record m { attributes = new_attributes })

-- The available resource is at first the total resource itself; neither is written in place.
unfoldable pub new_node : NewNode → Node
unfolding initialize_attribute refresh_local_vars_by_attributes
new_node proto =
    let total = new_resource_from_proto proto.schedulable_resource in
    initialize_attribute
      (record {
        node_id = proto.node_id;
        total_resource = total;
        allocated_resource = new_resource;
        available_resource = total;
        hostname = String.[];
        rackname = String.[];
        partition = String.[];
        attributes = [];
        allocations = [];
      })
      proto.attributes

unfoldable pub get_allocation : Node → String → Option Allocation
get_allocation m uuid = lookup uuid m.allocations

unfoldable pub add_allocation : Node → Allocation → Node
add_allocation m info =
    let allocated = add_resource (some m.allocated_resource) (some info.allocated_resource) in
    record m {
      allocations = insert info.uuid info m.allocations;
      allocated_resource = allocated;
      available_resource = sub_resource (some m.total_resource) (some allocated);
    }

remove_found : Node → String → Option Allocation → Node × Option Allocation
remove_found m uuid none = (m, none)
remove_found m uuid (some info) =
    let allocated = sub_resource (some m.allocated_resource) (some info.allocated_resource) in
    (
      record m {
        allocations = erase uuid m.allocations;
        allocated_resource = allocated;
        available_resource = sub_resource (some m.total_resource) (some allocated);
      },
      some info,
    )

unfoldable pub remove_allocation : Node → String → Node × Option Allocation
unfolding remove_found
remove_allocation m uuid = remove_found m uuid (lookup uuid m.allocations)

-- `for _, v := range m { arr = append(arr, v) }`
abbrev pub values_of : {V : Type 0} → Dict V → List V
values_of [] = []
values_of ((k, v) ∷ m) = v ∷ values_of m

unfoldable pub all_allocations : Node → List Allocation
all_allocations m = values_of m.allocations
