-- ===== src/Status/Reason.antt =====
-- `JobReason`: the scheduler's reason codes. The macro's table, its parser and its two printers.
pub mod Names
pub mod Laws
use slurm_async_runner.Prelude.{List, [], ◌∷◌, Bool, true, false, ◌||◌, if◌then◌else◌, is_empty}
use slurm_async_runner.Prelude.Text.{Text, codes, text_eq}
use slurm_async_runner.Prelude.Words.{trim}

pub data JobReason : Type 0 where
  none : JobReason
  priority dependency dependency_never_satisfied resources reservation resv_deleted : JobReason
  begin_time licenses node_not_avail job_held_user job_held_admin bad_constraints : JobReason
  cleaning prolog job_array_task_limit burst_buffer_resources burst_buffer_stage_in : JobReason
  node_reboot max_requeue_exceeded planned_reservation fed_job_lock out_of_memory : JobReason
  preemption waiting_for_scheduling admin_hold partition_down partition_inactive : JobReason
  partition_node_limit partition_time_limit partition_config front_end_down : JobReason
  front_end_user_down down_nodes system_failure job_launch_failure non_zero_exit_code : JobReason
  raised_signal time_limit inactive_limit deadline invalid_account invalid_qos : JobReason
  account_not_allowed qos_not_allowed qos_usage_threshold qos_job_limit : JobReason
  qos_resource_limit qos_time_limit qos_grp_cpu_limit qos_grp_cpu_minutes_limit : JobReason
  qos_grp_cpu_run_minutes_limit qos_grp_jobs_limit qos_grp_memory_limit : JobReason
  qos_grp_node_limit qos_grp_submit_jobs_limit qos_grp_wall_limit : JobReason
  qos_max_cpu_minutes_per_job_limit qos_max_cpu_per_job_limit : JobReason
  qos_max_cpu_per_node_limit qos_max_cpu_per_user_limit qos_max_jobs_per_account_limit : JobReason
  qos_max_jobs_per_user_limit qos_max_node_per_job_limit qos_max_node_per_user_limit : JobReason
  qos_max_submit_job_per_account_limit qos_max_submit_job_per_user_limit : JobReason
  qos_max_wall_duration_per_job_limit qos_min_cpu_not_satisfied association_job_limit : JobReason
  association_resource_limit association_time_limit assoc_grp_cpu_limit : JobReason
  assoc_grp_cpu_minutes_limit assoc_grp_cpu_run_minutes_limit assoc_grp_jobs_limit : JobReason
  assoc_grp_memory_limit assoc_grp_node_limit assoc_grp_submit_jobs_limit : JobReason
  assoc_grp_wall_limit assoc_max_jobs_limit assoc_max_cpu_per_job_limit : JobReason
  assoc_max_cpu_minutes_per_job_limit assoc_max_node_per_job_limit : JobReason
  assoc_max_wall_duration_per_job_limit assoc_max_submit_job_limit block_max_error : JobReason
  block_free_action : JobReason
  other : Text → JobReason

-- The rows of the table, in its order.
abbrev pub table : List (Text × JobReason)
table =
    (codes "Priority", priority)
    ∷ (codes "Dependency", dependency)
    ∷ (codes "DependencyNeverSatisfied", dependency_never_satisfied)
    ∷ (codes "Resources", resources)
    ∷ (codes "Reservation", reservation)
    ∷ (codes "ResvDeleted", resv_deleted)
    ∷ (codes "BeginTime", begin_time)
    ∷ (codes "Licenses", licenses)
    ∷ (codes "ReqNodeNotAvail", node_not_avail)
    ∷ (codes "JobHeldUser", job_held_user)
    ∷ (codes "JobHeldAdmin", job_held_admin)
    ∷ (codes "BadConstraints", bad_constraints)
    ∷ (codes "Cleaning", cleaning)
    ∷ (codes "Prolog", prolog)
    ∷ (codes "JobArrayTaskLimit", job_array_task_limit)
    ∷ (codes "BurstBufferResources", burst_buffer_resources)
    ∷ (codes "BurstBufferStageIn", burst_buffer_stage_in)
    ∷ (codes "NodeReboot", node_reboot)
    ∷ (codes "MaxRequeueExceeded", max_requeue_exceeded)
    ∷ (codes "PlannedReservation", planned_reservation)
    ∷ (codes "FedJobLock", fed_job_lock)
    ∷ (codes "OutOfMemory", out_of_memory)
    ∷ (codes "Preemption", preemption)
    ∷ (codes "WaitingForScheduling", waiting_for_scheduling)
    ∷ (codes "AdminHold", admin_hold)
    ∷ (codes "PartitionDown", partition_down)
    ∷ (codes "PartitionInactive", partition_inactive)
    ∷ (codes "PartitionNodeLimit", partition_node_limit)
    ∷ (codes "PartitionTimeLimit", partition_time_limit)
    ∷ (codes "PartitionConfig", partition_config)
    ∷ (codes "FrontEndDown", front_end_down)
    ∷ (codes "FrontEndUserDown", front_end_user_down)
    ∷ (codes "DownNodes", down_nodes)
    ∷ (codes "SystemFailure", system_failure)
    ∷ (codes "JobLaunchFailure", job_launch_failure)
    ∷ (codes "NonZeroExitCode", non_zero_exit_code)
    ∷ (codes "RaisedSignal", raised_signal)
    ∷ (codes "TimeLimit", time_limit)
    ∷ (codes "InactiveLimit", inactive_limit)
    ∷ (codes "Deadline", deadline)
    ∷ (codes "InvalidAccount", invalid_account)
    ∷ (codes "InvalidQOS", invalid_qos)
    ∷ (codes "AccountNotAllowed", account_not_allowed)
    ∷ (codes "QOSNotAllowed", qos_not_allowed)
    ∷ (codes "QOSUsageThreshold", qos_usage_threshold)
    ∷ (codes "QOSJobLimit", qos_job_limit)
    ∷ (codes "QOSResourceLimit", qos_resource_limit)
    ∷ (codes "QOSTimeLimit", qos_time_limit)
    ∷ (codes "QOSGrpCpuLimit", qos_grp_cpu_limit)
    ∷ (codes "QOSGrpCpuMinutesLimit", qos_grp_cpu_minutes_limit)
    ∷ (codes "QOSGrpCpuRunMinutesLimit", qos_grp_cpu_run_minutes_limit)
    ∷ (codes "QOSGrpJobsLimit", qos_grp_jobs_limit)
    ∷ (codes "QOSGrpMemoryLimit", qos_grp_memory_limit)
    ∷ (codes "QOSGrpNodeLimit", qos_grp_node_limit)
    ∷ (codes "QOSGrpSubmitJobsLimit", qos_grp_submit_jobs_limit)
    ∷ (codes "QOSGrpWallLimit", qos_grp_wall_limit)
    ∷ (codes "QOSMaxCpuMinutesPerJobLimit", qos_max_cpu_minutes_per_job_limit)
    ∷ (codes "QOSMaxCpuPerJobLimit", qos_max_cpu_per_job_limit)
    ∷ (codes "QOSMaxCpuPerNodeLimit", qos_max_cpu_per_node_limit)
    ∷ (codes "QOSMaxCpuPerUserLimit", qos_max_cpu_per_user_limit)
    ∷ (codes "QOSMaxJobsPerAccountLimit", qos_max_jobs_per_account_limit)
    ∷ (codes "QOSMaxJobsPerUserLimit", qos_max_jobs_per_user_limit)
    ∷ (codes "QOSMaxNodePerJobLimit", qos_max_node_per_job_limit)
    ∷ (codes "QOSMaxNodePerUserLimit", qos_max_node_per_user_limit)
    ∷ (codes "QOSMaxSubmitJobPerAccountLimit", qos_max_submit_job_per_account_limit)
    ∷ (codes "QOSMaxSubmitJobPerUserLimit", qos_max_submit_job_per_user_limit)
    ∷ (codes "QOSMaxWallDurationPerJobLimit", qos_max_wall_duration_per_job_limit)
    ∷ (codes "QOSMinCpuNotSatisfied", qos_min_cpu_not_satisfied)
    ∷ (codes "AssociationJobLimit", association_job_limit)
    ∷ (codes "AssociationResourceLimit", association_resource_limit)
    ∷ (codes "AssociationTimeLimit", association_time_limit)
    ∷ (codes "AssocGrpCpuLimit", assoc_grp_cpu_limit)
    ∷ (codes "AssocGrpCpuMinutesLimit", assoc_grp_cpu_minutes_limit)
    ∷ (codes "AssocGrpCpuRunMinutesLimit", assoc_grp_cpu_run_minutes_limit)
    ∷ (codes "AssocGrpJobsLimit", assoc_grp_jobs_limit)
    ∷ (codes "AssocGrpMemoryLimit", assoc_grp_memory_limit)
    ∷ (codes "AssocGrpNodeLimit", assoc_grp_node_limit)
    ∷ (codes "AssocGrpSubmitJobsLimit", assoc_grp_submit_jobs_limit)
    ∷ (codes "AssocGrpWallLimit", assoc_grp_wall_limit)
    ∷ (codes "AssocMaxJobsLimit", assoc_max_jobs_limit)
    ∷ (codes "AssocMaxCpuPerJobLimit", assoc_max_cpu_per_job_limit)
    ∷ (codes "AssocMaxCpuMinutesPerJobLimit", assoc_max_cpu_minutes_per_job_limit)
    ∷ (codes "AssocMaxNodePerJobLimit", assoc_max_node_per_job_limit)
    ∷ (codes "AssocMaxWallDurationPerJobLimit", assoc_max_wall_duration_per_job_limit)
    ∷ (codes "AssocMaxSubmitJobLimit", assoc_max_submit_job_limit)
    ∷ (codes "BlockMaxError", block_max_error)
    ∷ (codes "BlockFreeAction", block_free_action)
    ∷ []

-- The arms of the `match`: the first row with the text, or `Other`.
find_row : Text → List (Text × JobReason) → JobReason
unfolding text_eq
find_row s [] = other s
find_row s ((t, r) ∷ rows) = if text_eq s t then r else find_row s rows

unfoldable pub parse : Text → JobReason
unfolding find_row
parse raw =
    let trimmed = trim raw in
    if is_empty trimmed || text_eq trimmed (codes "None") then none else find_row trimmed table

-- Canonical reason text; `Other` gives its own text back.
unfoldable pub as_str : JobReason → Text
as_str none = codes "None"
as_str priority = codes "Priority"
as_str dependency = codes "Dependency"
as_str dependency_never_satisfied = codes "DependencyNeverSatisfied"
as_str resources = codes "Resources"
as_str reservation = codes "Reservation"
as_str resv_deleted = codes "ResvDeleted"
as_str begin_time = codes "BeginTime"
as_str licenses = codes "Licenses"
as_str node_not_avail = codes "ReqNodeNotAvail"
as_str job_held_user = codes "JobHeldUser"
as_str job_held_admin = codes "JobHeldAdmin"
as_str bad_constraints = codes "BadConstraints"
as_str cleaning = codes "Cleaning"
as_str prolog = codes "Prolog"
as_str job_array_task_limit = codes "JobArrayTaskLimit"
as_str burst_buffer_resources = codes "BurstBufferResources"
as_str burst_buffer_stage_in = codes "BurstBufferStageIn"
as_str node_reboot = codes "NodeReboot"
as_str max_requeue_exceeded = codes "MaxRequeueExceeded"
as_str planned_reservation = codes "PlannedReservation"
as_str fed_job_lock = codes "FedJobLock"
as_str out_of_memory = codes "OutOfMemory"
as_str preemption = codes "Preemption"
as_str waiting_for_scheduling = codes "WaitingForScheduling"
as_str admin_hold = codes "AdminHold"
as_str partition_down = codes "PartitionDown"
as_str partition_inactive = codes "PartitionInactive"
as_str partition_node_limit = codes "PartitionNodeLimit"
as_str partition_time_limit = codes "PartitionTimeLimit"
as_str partition_config = codes "PartitionConfig"
as_str front_end_down = codes "FrontEndDown"
as_str front_end_user_down = codes "FrontEndUserDown"
as_str down_nodes = codes "DownNodes"
as_str system_failure = codes "SystemFailure"
as_str job_launch_failure = codes "JobLaunchFailure"
as_str non_zero_exit_code = codes "NonZeroExitCode"
as_str raised_signal = codes "RaisedSignal"
as_str time_limit = codes "TimeLimit"
as_str inactive_limit = codes "InactiveLimit"
as_str deadline = codes "Deadline"
as_str invalid_account = codes "InvalidAccount"
as_str invalid_qos = codes "InvalidQOS"
as_str account_not_allowed = codes "AccountNotAllowed"
as_str qos_not_allowed = codes "QOSNotAllowed"
as_str qos_usage_threshold = codes "QOSUsageThreshold"
as_str qos_job_limit = codes "QOSJobLimit"
as_str qos_resource_limit = codes "QOSResourceLimit"
as_str qos_time_limit = codes "QOSTimeLimit"
as_str qos_grp_cpu_limit = codes "QOSGrpCpuLimit"
as_str qos_grp_cpu_minutes_limit = codes "QOSGrpCpuMinutesLimit"
as_str qos_grp_cpu_run_minutes_limit = codes "QOSGrpCpuRunMinutesLimit"
as_str qos_grp_jobs_limit = codes "QOSGrpJobsLimit"
as_str qos_grp_memory_limit = codes "QOSGrpMemoryLimit"
as_str qos_grp_node_limit = codes "QOSGrpNodeLimit"
as_str qos_grp_submit_jobs_limit = codes "QOSGrpSubmitJobsLimit"
as_str qos_grp_wall_limit = codes "QOSGrpWallLimit"
as_str qos_max_cpu_minutes_per_job_limit = codes "QOSMaxCpuMinutesPerJobLimit"
as_str qos_max_cpu_per_job_limit = codes "QOSMaxCpuPerJobLimit"
as_str qos_max_cpu_per_node_limit = codes "QOSMaxCpuPerNodeLimit"
as_str qos_max_cpu_per_user_limit = codes "QOSMaxCpuPerUserLimit"
as_str qos_max_jobs_per_account_limit = codes "QOSMaxJobsPerAccountLimit"
as_str qos_max_jobs_per_user_limit = codes "QOSMaxJobsPerUserLimit"
as_str qos_max_node_per_job_limit = codes "QOSMaxNodePerJobLimit"
as_str qos_max_node_per_user_limit = codes "QOSMaxNodePerUserLimit"
as_str qos_max_submit_job_per_account_limit = codes "QOSMaxSubmitJobPerAccountLimit"
as_str qos_max_submit_job_per_user_limit = codes "QOSMaxSubmitJobPerUserLimit"
as_str qos_max_wall_duration_per_job_limit = codes "QOSMaxWallDurationPerJobLimit"
as_str qos_min_cpu_not_satisfied = codes "QOSMinCpuNotSatisfied"
as_str association_job_limit = codes "AssociationJobLimit"
as_str association_resource_limit = codes "AssociationResourceLimit"
as_str association_time_limit = codes "AssociationTimeLimit"
as_str assoc_grp_cpu_limit = codes "AssocGrpCpuLimit"
as_str assoc_grp_cpu_minutes_limit = codes "AssocGrpCpuMinutesLimit"
as_str assoc_grp_cpu_run_minutes_limit = codes "AssocGrpCpuRunMinutesLimit"
as_str assoc_grp_jobs_limit = codes "AssocGrpJobsLimit"
as_str assoc_grp_memory_limit = codes "AssocGrpMemoryLimit"
as_str assoc_grp_node_limit = codes "AssocGrpNodeLimit"
as_str assoc_grp_submit_jobs_limit = codes "AssocGrpSubmitJobsLimit"
as_str assoc_grp_wall_limit = codes "AssocGrpWallLimit"
as_str assoc_max_jobs_limit = codes "AssocMaxJobsLimit"
as_str assoc_max_cpu_per_job_limit = codes "AssocMaxCpuPerJobLimit"
as_str assoc_max_cpu_minutes_per_job_limit = codes "AssocMaxCpuMinutesPerJobLimit"
as_str assoc_max_node_per_job_limit = codes "AssocMaxNodePerJobLimit"
as_str assoc_max_wall_duration_per_job_limit = codes "AssocMaxWallDurationPerJobLimit"
as_str assoc_max_submit_job_limit = codes "AssocMaxSubmitJobLimit"
as_str block_max_error = codes "BlockMaxError"
as_str block_free_action = codes "BlockFreeAction"
as_str (other s) = s

-- Whether the reason is one of the table, or no reason.
abbrev pub is_known : JobReason → Bool
is_known (other s) = false
is_known _ = true
