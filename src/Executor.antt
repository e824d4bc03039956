-- ===== src/Executor.antt =====
-- The job runner of state/executor.ts. A job is its outcome: the error that `run` throws, or none. The
-- user's cancel request can come while any job runs, so each job says whether it came by then.
pub mod Results
pub mod Counts
mod Tests
use basemaster.Base.{
  ℕ, zero, suc, ◌+◌, ◌-◌, ◌&&◌, not, String, Bool, true, false, Option, none, some, List, [], ◌∷◌,
  ◌++◌, map, length, filter, leb, ◌==◌, if◌then◌else◌,
}

pub data JobStatus : Type 0 where
  pending running done failed skipped : JobStatus

pub record ExecutorJob : Type 0 where
  pub id : String
  pub label : String
  -- the message that its `run` throws, if it throws
  pub throws : Option String
  -- `requestCancel` is called while it runs
  pub cancelled : Bool

pub record JobState : Type 0 where
  pub id : String
  pub label : String
  pub status : JobStatus
  pub error : Option String

pub record JobResult : Type 0 where
  pub id : String
  pub label : String
  pub error : Option String

pub record ExecutorResult : Type 0 where
  pub succeeded : ℕ
  pub failed : ℕ
  pub results : List JobResult

pub record ExecutorState : Type 0 where
  pub is_open : Bool
  pub title : String
  pub jobs : List JobState
  pub is_running : Bool
  pub cancel_requested : Bool

abbrev pub initial_job : ExecutorJob → JobState
initial_job j = record { id = j.id; label = j.label; status = pending; error = none }

-- `patch(i, next)`: the job at place `i`, and no other, changes.
abbrev pub patch_at : ℕ → (JobState → JobState) → List JobState → List JobState
patch_at i f [] = []
patch_at zero f (j ∷ jobs) = f j ∷ jobs
patch_at (suc i) f (j ∷ jobs) = j ∷ patch_at i f jobs

abbrev is_pending : JobStatus → Bool
is_pending pending = true
is_pending _ = false

abbrev skip : JobState → JobState
skip j = if is_pending j.status then record j { status = skipped } else j

-- `idx >= i && j.status === "pending" ? { ...j, status: "skipped" } : j`
abbrev pub skip_from : ℕ → List JobState → List JobState
skip_from i [] = []
skip_from zero (j ∷ jobs) = skip j ∷ skip_from zero jobs
skip_from (suc i) (j ∷ jobs) = j ∷ skip_from i jobs

abbrev pub skipped_result : ExecutorJob → JobResult
skipped_result j = record { id = j.id; label = j.label; error = none }

abbrev pub job_result : ExecutorJob → JobResult
job_result j = record { id = j.id; label = j.label; error = j.throws }

-- `patch(i, { status: "ok" })` or `patch(i, { status: "error", error: msg })`
abbrev pub settle : Option String → JobState → JobState
settle none j = record j { status = done }
settle (some msg) j = record j { status = failed; error = some msg }

abbrev pub start : JobState → JobState
start j = record j { status = running }

-- One job: it is marked as running, runs, and is marked with its outcome.
abbrev pub run_job : ℕ → ExecutorJob → ExecutorState → ExecutorState
run_job i job s =
    let begun = record s { jobs = patch_at i start s.jobs } in
    let ran = record begun {
      cancel_requested = if job.cancelled then true else begun.cancel_requested;
    } in
    record ran { jobs = patch_at i (settle job.throws) ran.jobs }

-- The loop from place `i`, where `jobs` are left and `results` are there.
unfoldable pub run_from :
    ℕ → List ExecutorJob → List JobResult → ExecutorState → ExecutorState × List JobResult
run_from i [] results s = (s, results)
run_from i (job ∷ jobs) results s =
    let rest = run_from (suc i) jobs (results ++ job_result job ∷ []) (run_job i job s) in
    if s.cancel_requested
    then (record s { jobs = skip_from i s.jobs }, results ++ map skipped_result (job ∷ jobs))
    else rest

abbrev pub has_error : JobResult → Bool
has_error r = elim r.error [ none ↦ false | some _ ↦ true ]

abbrev pub summary : List JobResult → ExecutorResult
summary results =
    let bad = length (filter has_error results) in
    record { succeeded = length results - bad; failed = bad; results = results }

abbrev pub opened : String → List ExecutorJob → ExecutorState
opened title jobs = record {
  is_open = true;
  title = title;
  jobs = map initial_job jobs;
  is_running = true;
  cancel_requested = false;
}

unfoldable pub run : String → List ExecutorJob → ExecutorState × ExecutorResult
run title jobs =
    let (s, results) = run_from 0 jobs [] (opened title jobs) in
    (record s { is_running = false }, summary results)

unfoldable pub request_cancel : ExecutorState → ExecutorState
request_cancel s = if s.is_running then record s { cancel_requested = true } else s

unfoldable pub close : ExecutorState → ExecutorState
close s = if s.is_running then s else record s { is_open = false; jobs = []; title = "" }
