-- ===== src/Objects.antt =====
-- The objects that the conductor hands out (sahara/conductor/objects.py), with the fields that the
-- modelled code reads, and the values of their status fields (sahara/utils/cluster.py,
-- sahara/utils/edp.py).
use sahara.Base.{ℕ, Bool, true, false, not, String, Option, none, some, List, str_eq, Error}
use sahara.Base.Dict.{Dict}

-- CLUSTER_STATUS_*
pub data ClusterStatus : Type 0 where
  validating infra_updating spawning waiting preparing configuring starting active : ClusterStatus
  decommissioning error deleting awaiting_termination : ClusterStatus
  deleting_instances adding_instances : ClusterStatus
  scaling scaling_spawning scaling_waiting scaling_preparing : ClusterStatus
  rollback rollback_spawning rollback_waiting rollback_preparing : ClusterStatus

abbrev pub is_deleting : ClusterStatus → Bool
is_deleting ClusterStatus.deleting = true
is_deleting _ = false

abbrev pub is_active : ClusterStatus → Bool
is_active ClusterStatus.active = true
is_active _ = false

pub record Instance : Type 0 where
  pub id : String
  pub instance_id : String
  pub instance_name : String
  pub internal_ip : String
  pub management_ip : String

pub record NodeGroup : Type 0 where
  pub id : String
  pub name : String
  pub flavor_id : String
  pub node_processes : List String
  pub volumes_per_node : ℕ
  pub volumes_size : ℕ
  pub floating_ip_pool : Option String
  pub auto_security_group : Bool
  pub open_ports : List ℕ
  pub is_proxy_gateway : Bool
  pub image_username : Option String
  pub count : ℕ
  pub instances : List Instance

-- The verification attached to a cluster, by its status.
pub data HealthStatus : Type 0 where
  green yellow red checking : HealthStatus

-- An event of a provisioning step.
pub record Event : Type 0 where
  pub successful : Bool
  pub instance_name : Option String
  pub event_info : Option Error

-- A provisioning step. `successful` is none as long as it runs.
pub record Step : Type 0 where
  pub id : ℕ
  pub step_name : String
  pub step_type : String
  pub total : ℕ
  pub successful : Option Bool
  pub events : List Event

pub record Cluster : Type 0 where
  pub id : String
  pub name : String
  pub tenant_id : String
  pub plugin_name : String
  pub hadoop_version : String
  pub status : ClusterStatus
  pub status_description : String
  pub is_public : Bool
  pub is_protected : Bool
  pub trust_id : Option String
  -- none is no sahara_info; the value inside is its 'infrastructure_engine'
  pub sahara_info : Option (Option String)
  pub verification : Option HealthStatus
  pub node_groups : List NodeGroup
  pub provision_progress : List Step

-- The truth value of a text field that may be None: the empty text counts as false.
abbrev pub truthy : Option String → Bool
truthy none = false
truthy (some s) = not (str_eq s "")

-- JOB_STATUS_*, and any other text that an engine reports.
pub data JobStatus : Type 0 where
  donewitherror failed killed pending readytorun running succeeded tobekilled tobesuspended :
      JobStatus
  prep prepsuspended suspended suspend_failed : JobStatus
  other : String → JobStatus

-- `in JOB_STATUSES_TERMINATED`
abbrev pub is_terminated : JobStatus → Bool
is_terminated donewitherror = true
is_terminated failed = true
is_terminated killed = true
is_terminated succeeded = true
is_terminated suspend_failed = true
is_terminated _ = false

-- `in JOB_STATUSES_SUSPENDIBLE`
abbrev pub is_suspendible : JobStatus → Bool
is_suspendible prep = true
is_suspendible running = true
is_suspendible _ = false

-- The job configs, by their entries that the manager reads.
pub record JobConfigs : Type 0 where
  pub is_scheduled : Bool
  pub proxy_configs : Option String

-- A job execution; `status` is its info['status'].
pub record JobExecution : Type 0 where
  pub id : String
  pub job_id : String
  pub cluster_id : String
  pub status : JobStatus
  pub engine_job_id : Option String
  pub start_time : Option ℕ
  pub end_time : Option ℕ
  pub extra : Dict String
  pub job_configs : JobConfigs
