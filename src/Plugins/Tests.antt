-- ===== src/Plugins/Tests.antt =====
-- A cluster of the Vanilla, the Spark and the Storm plugin each, and the theorems with them.
use sahara.Base.{ℕ, ◌≤◌, ◌≡◌, refl, true, String, List, [], ◌∷◌, ok, err, Error, arith, ◌++◌, All}
use sahara.Base.Dict.{Dict, contains}
use sahara.Objects.{NodeGroup}
use sahara.Status.Tests.{workers}
use sahara.Plugins.{
  get_instances_count, get_instances, get_instance, get_by_id, datanodes_to_delete,
  validate_existing_ng_scaling, check_additional, check_existing,
}
use sahara.Plugins.Counts.{rescale}
use sahara.Plugins.Vanilla.{
  validate_cluster_creating, validate_additional_ng_scaling, validate_vanilla_scaling,
}
use sahara.Plugins.Spark.{
  validate_spark, validate_spark_scaling, validate_spark_scaling-validate_spark,
}
use sahara.Plugins.Storm.{
  validate_storm, validate_storm_scaling, validate_storm_scaling-validate_storm,
}
use sahara.Ops.Surplus.{IsFull}
use sahara.Plugins.Moves.{HasOwnIds}
use sahara.Plugins.Scaled.{Ready}
use sahara.Plugins.Survival.{validate_vanilla_scaling-validate_cluster_creating}

-- Node groups with a master that runs some processes, three workers that run others, and a new
-- group of workers.
abbrev groups : List String → List String → List NodeGroup
groups masters slaves =
    record workers { id = "master"; node_processes = masters }
    ∷ record workers {
      id = "workers";
      node_processes = slaves;
      count = 3;
      instances = workers.instances ++ workers.instances ++ workers.instances;
    }
    ∷ record workers { id = "new"; node_processes = slaves; count = 0; instances = [] }
    ∷ []

abbrev vanilla_groups : List NodeGroup
vanilla_groups =
    groups ("namenode" ∷ "resourcemanager" ∷ "oozie" ∷ "historyserver" ∷ [])
      ("datanode" ∷ "nodemanager" ∷ [])

abbrev spark_groups : List NodeGroup
spark_groups = groups ("namenode" ∷ "master" ∷ []) ("datanode" ∷ "slave" ∷ [])

abbrev storm_groups : List NodeGroup
storm_groups = groups ("nimbus" ∷ []) ("supervisor" ∷ [])

-- One worker fewer, and two new ones.
abbrev fewer : Dict ℕ
fewer = ("workers", 2) ∷ []

abbrev more : Dict ℕ
more = ("new", 2) ∷ []

filled : IsFull vanilla_groups
filled = (refl, (refl, (refl, tt)))

added : All (λ ng. contains ng.id more ≡ true → ng.count ≡ 0) vanilla_groups
added = ((λ e. absurd (cc e)), ((λ e. absurd (cc e)), ((λ e. refl), tt)))

own_ids : HasOwnIds vanilla_groups
unfolding get_by_id
own_ids = (refl, (refl, (refl, tt)))

own_spark_ids : HasOwnIds spark_groups
unfolding get_by_id
own_spark_ids = (refl, (refl, (refl, tt)))

own_storm_ids : HasOwnIds storm_groups
unfolding get_by_id
own_storm_ids = (refl, (refl, (refl, tt)))

ready : Ready 2 vanilla_groups fewer more
ready = record {
  full = filled;
  ids = own_ids;
  fresh = added;
  used = ((λ e. absurd (cc e)), ((λ e. omega arith), ((λ e. absurd (cc e)), tt)));
  replicated = omega arith;
}

vanilla_valid : validate_cluster_creating 2 vanilla_groups ≡ ok tt
unfolding validate_cluster_creating get_instances_count
vanilla_valid = refl

vanilla_scales : validate_vanilla_scaling 2 vanilla_groups fewer more ≡ ok tt
unfolding validate_vanilla_scaling validate_additional_ng_scaling validate_existing_ng_scaling
    datanodes_to_delete get_instances get_instance get_by_id
vanilla_scales = refl

managers_left :
    1
    ≤ get_instances_count "nodemanager" (rescale (("new", 2) ∷ ("workers", 2) ∷ []) vanilla_groups)
unfolding get_instances_count
managers_left = omega arith

-- Two of three datanodes may not go where two replicas are asked for.
too_few :
    validate_vanilla_scaling 2 vanilla_groups (("workers", 1) ∷ []) []
    ≡ err Error.cluster_cannot_be_scaled
unfolding validate_vanilla_scaling validate_additional_ng_scaling validate_existing_ng_scaling
    datanodes_to_delete get_instances get_instance get_by_id
too_few = refl

master_stays :
    validate_vanilla_scaling 2 vanilla_groups (("master", 2) ∷ []) []
    ≡ err Error.node_group_cannot_be_scaled
unfolding validate_vanilla_scaling validate_additional_ng_scaling validate_existing_ng_scaling
    datanodes_to_delete get_instances get_instance get_by_id
master_stays = refl

validate_vanilla_scaling-validate_cluster_creating_example :
    validate_cluster_creating 2 (rescale (("new", 2) ∷ ("workers", 2) ∷ []) vanilla_groups) ≡ ok tt
validate_vanilla_scaling-validate_cluster_creating_example =
    validate_vanilla_scaling-validate_cluster_creating 2 vanilla_groups fewer more ready
      vanilla_valid vanilla_scales (λ e. managers_left)

spark_valid : validate_spark 2 spark_groups ≡ ok tt
unfolding validate_spark get_instances_count
spark_valid = refl

spark_scales : validate_spark_scaling 2 spark_groups fewer more ≡ ok tt
unfolding validate_spark_scaling check_additional validate_existing_ng_scaling datanodes_to_delete
    get_instances get_by_id
spark_scales = refl

slaves_left :
    1 ≤ get_instances_count "slave" (rescale (("new", 2) ∷ ("workers", 2) ∷ []) spark_groups)
unfolding get_instances_count
slaves_left = omega arith

validate_spark_scaling-validate_spark_example :
    validate_spark 2 (rescale (("new", 2) ∷ ("workers", 2) ∷ []) spark_groups) ≡ ok tt
validate_spark_scaling-validate_spark_example =
    validate_spark_scaling-validate_spark 2 spark_groups fewer more (refl, (refl, (refl, tt)))
      own_spark_ids ((λ e. absurd (cc e)), ((λ e. absurd (cc e)), ((λ e. refl), tt))) (omega arith)
      spark_valid spark_scales slaves_left

storm_valid : validate_storm storm_groups ≡ ok tt
unfolding validate_storm get_instances_count
storm_valid = refl

storm_scales : validate_storm_scaling storm_groups (("workers", 0) ∷ []) [] ≡ ok tt
unfolding validate_storm_scaling check_existing check_additional
storm_scales = refl

-- All supervisors may go, and what is left is no valid cluster.
without_supervisors :
    validate_storm (rescale (("workers", 0) ∷ []) storm_groups) ≡ err Error.invalid_component_count
unfolding validate_storm get_instances_count
without_supervisors = refl

validate_storm_scaling-validate_storm_example :
    (1 ≤ get_instances_count "supervisor" (rescale (("workers", 0) ∷ []) storm_groups)
      → validate_storm (rescale (("workers", 0) ∷ []) storm_groups) ≡ ok tt)
    × (validate_storm (rescale (("workers", 0) ∷ []) storm_groups) ≡ ok tt
        → 1 ≤ get_instances_count "supervisor" (rescale (("workers", 0) ∷ []) storm_groups))
validate_storm_scaling-validate_storm_example =
    validate_storm_scaling-validate_storm storm_groups (("workers", 0) ∷ []) [] own_storm_ids
      storm_valid storm_scales
