-- ===== src/Status/Reason/Names.antt =====
-- `JobReason::variant_name`.
use slurm_async_runner.Prelude.{Bool, true, false, not, ◌≡◌, refl}
use slurm_async_runner.Prelude.Text.{Text, codes, text_eq}
use slurm_async_runner.Status.Reason.{
  JobReason, none, other, as_str, is_known, priority, dependency, dependency_never_satisfied,
  resources, reservation, resv_deleted, begin_time, licenses, node_not_avail, job_held_user,
  job_held_admin, bad_constraints, cleaning, prolog, job_array_task_limit, burst_buffer_resources,
  burst_buffer_stage_in, node_reboot, max_requeue_exceeded, planned_reservation, fed_job_lock,
  out_of_memory, preemption, waiting_for_scheduling, admin_hold, partition_down, partition_inactive,
  partition_node_limit, partition_time_limit, partition_config, front_end_down, front_end_user_down,
  down_nodes, system_failure, job_launch_failure, non_zero_exit_code, raised_signal, time_limit,
  inactive_limit, deadline, invalid_account, invalid_qos, account_not_allowed, qos_not_allowed,
  qos_usage_threshold, qos_job_limit, qos_resource_limit, qos_time_limit, qos_grp_cpu_limit,
  qos_grp_cpu_minutes_limit, qos_grp_cpu_run_minutes_limit, qos_grp_jobs_limit,
  qos_grp_memory_limit, qos_grp_node_limit, qos_grp_submit_jobs_limit, qos_grp_wall_limit,
  qos_max_cpu_minutes_per_job_limit, qos_max_cpu_per_job_limit, qos_max_cpu_per_node_limit,
  qos_max_cpu_per_user_limit, qos_max_jobs_per_account_limit, qos_max_jobs_per_user_limit,
  qos_max_node_per_job_limit, qos_max_node_per_user_limit, qos_max_submit_job_per_account_limit,
  qos_max_submit_job_per_user_limit, qos_max_wall_duration_per_job_limit, qos_min_cpu_not_satisfied,
  association_job_limit, association_resource_limit, association_time_limit, assoc_grp_cpu_limit,
  assoc_grp_cpu_minutes_limit, assoc_grp_cpu_run_minutes_limit, assoc_grp_jobs_limit,
  assoc_grp_memory_limit, assoc_grp_node_limit, assoc_grp_submit_jobs_limit, assoc_grp_wall_limit,
  assoc_max_jobs_limit, assoc_max_cpu_per_job_limit, assoc_max_cpu_minutes_per_job_limit,
  assoc_max_node_per_job_limit, assoc_max_wall_duration_per_job_limit, assoc_max_submit_job_limit,
  block_max_error, block_free_action,
}

-- The name of the variant.
unfoldable pub variant_name : JobReason → Text
variant_name none = codes "None"
variant_name priority = codes "Priority"
variant_name dependency = codes "Dependency"
variant_name dependency_never_satisfied = codes "DependencyNeverSatisfied"
variant_name resources = codes "Resources"
variant_name reservation = codes "Reservation"
variant_name resv_deleted = codes "ResvDeleted"
variant_name begin_time = codes "BeginTime"
variant_name licenses = codes "Licenses"
variant_name node_not_avail = codes "NodeNotAvail"
variant_name job_held_user = codes "JobHeldUser"
variant_name job_held_admin = codes "JobHeldAdmin"
variant_name bad_constraints = codes "BadConstraints"
variant_name cleaning = codes "Cleaning"
variant_name prolog = codes "Prolog"
variant_name job_array_task_limit = codes "JobArrayTaskLimit"
variant_name burst_buffer_resources = codes "BurstBufferResources"
variant_name burst_buffer_stage_in = codes "BurstBufferStageIn"
variant_name node_reboot = codes "NodeReboot"
variant_name max_requeue_exceeded = codes "MaxRequeueExceeded"
variant_name planned_reservation = codes "PlannedReservation"
variant_name fed_job_lock = codes "FedJobLock"
variant_name out_of_memory = codes "OutOfMemory"
variant_name preemption = codes "Preemption"
variant_name waiting_for_scheduling = codes "WaitingForScheduling"
variant_name admin_hold = codes "AdminHold"
variant_name partition_down = codes "PartitionDown"
variant_name partition_inactive = codes "PartitionInactive"
variant_name partition_node_limit = codes "PartitionNodeLimit"
variant_name partition_time_limit = codes "PartitionTimeLimit"
variant_name partition_config = codes "PartitionConfig"
variant_name front_end_down = codes "FrontEndDown"
variant_name front_end_user_down = codes "FrontEndUserDown"
variant_name down_nodes = codes "DownNodes"
variant_name system_failure = codes "SystemFailure"
variant_name job_launch_failure = codes "JobLaunchFailure"
variant_name non_zero_exit_code = codes "NonZeroExitCode"
variant_name raised_signal = codes "RaisedSignal"
variant_name time_limit = codes "TimeLimit"
variant_name inactive_limit = codes "InactiveLimit"
variant_name deadline = codes "Deadline"
variant_name invalid_account = codes "InvalidAccount"
variant_name invalid_qos = codes "InvalidQOS"
variant_name account_not_allowed = codes "AccountNotAllowed"
variant_name qos_not_allowed = codes "QOSNotAllowed"
variant_name qos_usage_threshold = codes "QOSUsageThreshold"
variant_name qos_job_limit = codes "QOSJobLimit"
variant_name qos_resource_limit = codes "QOSResourceLimit"
variant_name qos_time_limit = codes "QOSTimeLimit"
variant_name qos_grp_cpu_limit = codes "QOSGrpCpuLimit"
variant_name qos_grp_cpu_minutes_limit = codes "QOSGrpCpuMinutesLimit"
variant_name qos_grp_cpu_run_minutes_limit = codes "QOSGrpCpuRunMinutesLimit"
variant_name qos_grp_jobs_limit = codes "QOSGrpJobsLimit"
variant_name qos_grp_memory_limit = codes "QOSGrpMemoryLimit"
variant_name qos_grp_node_limit = codes "QOSGrpNodeLimit"
variant_name qos_grp_submit_jobs_limit = codes "QOSGrpSubmitJobsLimit"
variant_name qos_grp_wall_limit = codes "QOSGrpWallLimit"
variant_name qos_max_cpu_minutes_per_job_limit = codes "QOSMaxCpuMinutesPerJobLimit"
variant_name qos_max_cpu_per_job_limit = codes "QOSMaxCpuPerJobLimit"
variant_name qos_max_cpu_per_node_limit = codes "QOSMaxCpuPerNodeLimit"
variant_name qos_max_cpu_per_user_limit = codes "QOSMaxCpuPerUserLimit"
variant_name qos_max_jobs_per_account_limit = codes "QOSMaxJobsPerAccountLimit"
variant_name qos_max_jobs_per_user_limit = codes "QOSMaxJobsPerUserLimit"
variant_name qos_max_node_per_job_limit = codes "QOSMaxNodePerJobLimit"
variant_name qos_max_node_per_user_limit = codes "QOSMaxNodePerUserLimit"
variant_name qos_max_submit_job_per_account_limit = codes "QOSMaxSubmitJobPerAccountLimit"
variant_name qos_max_submit_job_per_user_limit = codes "QOSMaxSubmitJobPerUserLimit"
variant_name qos_max_wall_duration_per_job_limit = codes "QOSMaxWallDurationPerJobLimit"
variant_name qos_min_cpu_not_satisfied = codes "QOSMinCpuNotSatisfied"
variant_name association_job_limit = codes "AssociationJobLimit"
variant_name association_resource_limit = codes "AssociationResourceLimit"
variant_name association_time_limit = codes "AssociationTimeLimit"
variant_name assoc_grp_cpu_limit = codes "AssocGrpCpuLimit"
variant_name assoc_grp_cpu_minutes_limit = codes "AssocGrpCpuMinutesLimit"
variant_name assoc_grp_cpu_run_minutes_limit = codes "AssocGrpCpuRunMinutesLimit"
variant_name assoc_grp_jobs_limit = codes "AssocGrpJobsLimit"
variant_name assoc_grp_memory_limit = codes "AssocGrpMemoryLimit"
variant_name assoc_grp_node_limit = codes "AssocGrpNodeLimit"
variant_name assoc_grp_submit_jobs_limit = codes "AssocGrpSubmitJobsLimit"
variant_name assoc_grp_wall_limit = codes "AssocGrpWallLimit"
variant_name assoc_max_jobs_limit = codes "AssocMaxJobsLimit"
variant_name assoc_max_cpu_per_job_limit = codes "AssocMaxCpuPerJobLimit"
variant_name assoc_max_cpu_minutes_per_job_limit = codes "AssocMaxCpuMinutesPerJobLimit"
variant_name assoc_max_node_per_job_limit = codes "AssocMaxNodePerJobLimit"
variant_name assoc_max_wall_duration_per_job_limit = codes "AssocMaxWallDurationPerJobLimit"
variant_name assoc_max_submit_job_limit = codes "AssocMaxSubmitJobLimit"
variant_name block_max_error = codes "BlockMaxError"
variant_name block_free_action = codes "BlockFreeAction"
variant_name (other s) = codes "Other"

abbrev is_node_not_avail : JobReason → Bool
is_node_not_avail node_not_avail = true
is_node_not_avail _ = false

-- For a known reason the variant's name is its text, except for `NodeNotAvail`, whose text is
-- `ReqNodeNotAvail`.
pub variant_name-as_str :
    (r : JobReason)
    → is_known r ≡ true
    → text_eq (variant_name r) (as_str r) ≡ not (is_node_not_avail r)
unfolding variant_name as_str text_eq
variant_name-as_str none h = refl
variant_name-as_str (other s) h = absurd (cc)
variant_name-as_str _ h = refl
