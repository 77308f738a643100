-- ===== src/Lib.antt =====
-- A verification library of Sahara, the OpenStack service that provisions data processing
-- clusters: the operations on clusters with their error handling, the checks before them, and the
-- data processing jobs on them, from sahara/.
--
-- Base holds the shared names: Boolean tests and native numbers, integers (Int), dicts (Dict),
-- lists, results of calls that raise (an exception is its class), and the case lemmas. Objects
-- holds the records of clusters, node groups, instances and provisioning steps
-- (sahara/conductor/objects.py) and the cluster states (sahara/utils/cluster.py). Conductor is the
-- state that the operations share: the rows of clusters by id, the provisioning steps and the
-- notifications sent, in a monad of state and exceptions, where what was written before a raise
-- stays written (sahara/db/sqlalchemy/api.py).
--
-- The parts and how they interact:
--
--   * Retry: execute_with_retries (sahara/utils/openstack/base.py), which wraps the calls of
--     OpenStack clients, and poll (sahara/utils/poll_utils.py). What the wrapped call does on its
--     n-th run is a parameter. A poll has fuel for one round more than its limit in seconds,
--     enough where each round takes a second.
--   * Quotas: sahara/service/quotas.py, the requirements of a cluster and of a scaling against
--     what Nova, Neutron and Cinder leave. The answers of these services are parameters.
--   * Status: sahara/utils/cluster.py, with change_cluster_status at its centre, which every
--     operation calls.
--   * Health: sahara/service/health/verification_base.py, and the refresh at the end of an
--     operation (sahara/service/ops.py). The results of the checks are a parameter.
--   * Ops: sahara/service/ops.py with sahara/service/trusts.py: the error handler around the
--     operations, provisioning, scaling and termination. The infrastructure engine
--     (sahara/service/engine.py), the plugins and the OpenStack services are parameters: any
--     operations on the same world.
--   * Validation: sahara/service/validations (base.py, clusters.py, clusters_scaling.py, acl.py):
--     the checks of a request before the operations start. The plugins, the services and the
--     stored objects are one record of answers. The digits of a count are counted in as many
--     rounds as the count, enough since each round takes a tenth of it.
--   * Jobs: sahara/service/edp/job_manager.py with the deletion in sahara/service/ops.py: the life
--     of a job execution on the shared rows. The engines are parameters, and so is what happens
--     while a cancellation sleeps; the number of rounds that fit into its timeout is a number.
--   * Api: sahara/service/api.py: the creation, scaling and termination of a cluster, on top of
--     Status and Quotas, up to the operation of Ops that they start. The plugin is a parameter,
--     and so are the operations, so that a theorem on Ops can be put in.
--   * Plugins: sahara/plugins/utils.py and the checks of
--     sahara/plugins/vanilla/hadoop2/validation.py, sahara/plugins/spark/plugin.py and
--     sahara/plugins/storm/plugin.py, on the creation and on the scaling of a cluster. The number
--     of replicas, a configuration of the cluster, is an argument.
--   * Progress: sahara/utils/cluster_progress_ops.py with the calls on steps and events of
--     sahara/db/sqlalchemy/api.py: the table of the steps, the step of the thread, and the wrapper
--     that logs a function. History says what a step is worth as a function of the calls on it.
--   * HashRing: sahara/service/coordinator.py: the hash ring and the share of the periodic work of
--     a process. The hash is any function into the numbers; keys may collide.
--   * JobChecks: sahara/service/validations/edp/job.py and job_interface.py, with the job types of
--     sahara/utils/edp.py: the checks of a job, of its interface and of the arguments of an
--     execution.
--   * References: sahara/service/edp/job_utils.py: the references to data sources in the
--     configuration of a job, and the record of the URLs that they come to.
--   * Resources: sahara/conductor/resource.py: rows as resources with children and back
--     references, and the dicts that the REST API makes of them. A back reference stands for the
--     parent and is never followed.
--   * Periodic: sahara/service/periodic.py: the tasks that terminate incomplete and unneeded
--     clusters, on the shares of HashRing and with the termination of Api.
--
-- Texts of messages and log calls are left out; a description is a function of the exceptions it
-- reports. The identity of objects is kept where it matters: a cluster that is passed on is looked
-- up again by its id, or is None.
--
-- Not modelled: the REST layer, the database schema, the engines themselves, the plugins'
-- configuration tables, and remote commands, which only call other programs or hold data.
pub mod Base
pub mod Retry
pub mod Objects
pub mod Quotas
pub mod Conductor
pub mod Status
pub mod Health
pub mod Ops
pub mod Api
pub mod HashRing
pub mod JobChecks
pub mod Jobs
pub mod Periodic
pub mod Plugins
pub mod Progress
pub mod References
pub mod Resources
pub mod Validation
