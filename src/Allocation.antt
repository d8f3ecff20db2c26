-- ===== src/Allocation.antt =====
-- cache/allocation_info.go.
use yunikorn_study.Prelude.{String, ℕ, Option}
use yunikorn_study.PartitionName.{partition_name_without_cluster_id}
use yunikorn_study.Dict.{Dict}
use yunikorn_study.Resource.{Resource, to_proto}

-- commonevents.AllocationProposal.
pub record AllocationProposal : Type 0 where
  pub node_id : String
  pub application_id : String
  pub queue_name : String
  pub allocated_resource : Resource
  pub allocation_key : String
  pub tags : Dict String
  pub priority : Option ℕ
  pub partition_name : String

-- si.Allocation and AllocationInfo, whose own application id and resource repeat the message's.
pub record Allocation : Type 0 where
  pub allocation_key : String
  pub tags : Dict String
  pub uuid : String
  pub resource_per_alloc : Resource
  pub priority : Option ℕ
  pub queue_name : String
  pub node_id : String
  pub partition_name : String
  pub application_id : String
  pub allocated_resource : Resource

unfoldable pub new_allocation : String → AllocationProposal → Allocation
new_allocation uuid alloc = record {
  allocation_key = alloc.allocation_key;
  tags = alloc.tags;
  uuid = uuid;
  resource_per_alloc = to_proto alloc.allocated_resource;
  priority = alloc.priority;
  queue_name = alloc.queue_name;
  node_id = alloc.node_id;
  partition_name = partition_name_without_cluster_id alloc.partition_name;
  application_id = alloc.application_id;
  allocated_resource = alloc.allocated_resource;
}
