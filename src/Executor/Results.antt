-- ===== src/Executor/Results.antt =====
-- What the runner returns, and what its list of jobs shows.
use basemaster.Base.{
  ℕ, zero, suc, ◌≡◌, refl, ap, sym, ◌∙◌, length-append, String, true, false, Option, none, some,
  List, [], ◌∷◌, ◌++◌, map, arith, length, if◌then◌else◌, Bool-cases, Option-cases, inl, inr,
}
use mathlib.Core.List.{append_assoc, append-nil}
use basemaster.Executor.{
  done, failed, skipped, JobStatus, ExecutorJob, JobState, JobResult, ExecutorState, initial_job,
  patch_at, skip_from, settle, start, run_job, run_from, opened, run,
}

-- The jobs that run: all up to the first one during which the user cancels.
abbrev pub ran : List ExecutorJob → List ExecutorJob
ran [] = []
ran (job ∷ jobs) = if job.cancelled then job ∷ [] else job ∷ ran jobs

-- The jobs that do not run any more.
abbrev pub left_out : List ExecutorJob → List ExecutorJob
left_out [] = []
left_out (job ∷ jobs) = if job.cancelled then jobs else left_out jobs

-- A job that throws has failed, and one that does not is done.
abbrev pub outcome : Option String → JobStatus
outcome none = done
outcome (some msg) = failed

-- What the list shows of a job that has run: its outcome and the error that it threw.
abbrev pub settled_job : ExecutorJob → JobState
settled_job j = record { id = j.id; label = j.label; status = outcome j.throws; error = j.throws }

abbrev pub skipped_job : ExecutorJob → JobState
skipped_job j = record { id = j.id; label = j.label; status = skipped; error = none }

-- What is returned of a job, with the error that it threw if it ran.
abbrev pub result_of : Option String → ExecutorJob → JobResult
result_of error j = record { id = j.id; label = j.label; error = error }

settle_lem : (j : ExecutorJob) → settle j.throws (start (initial_job j)) ≡ settled_job j
settle_lem j = elim (Option-cases j.throws) [ inl e ↦ rw e refl | inr (msg, e) ↦ rw e refl ]

patch_at-length :
    (f : JobState → JobState) (xs : List JobState) (y : JobState) (ys : List JobState)
    → patch_at (length xs) f (xs ++ y ∷ ys) ≡ xs ++ f y ∷ ys
patch_at-length f [] y ys = refl
patch_at-length f (x ∷ xs) y ys = ap (◌∷◌ x) (patch_at-length f xs y ys)

skip_from_pending :
    (jobs : List ExecutorJob) → skip_from zero (map initial_job jobs) ≡ map skipped_job jobs
skip_from_pending [] = refl
skip_from_pending (j ∷ jobs) = ap (◌∷◌ (skipped_job j)) (skip_from_pending jobs)

skip_from-length :
    (xs : List JobState) (jobs : List ExecutorJob)
    → skip_from (length xs) (xs ++ map initial_job jobs) ≡ xs ++ map skipped_job jobs
skip_from-length [] jobs = skip_from_pending jobs
skip_from-length (x ∷ xs) jobs = ap (◌∷◌ x) (skip_from-length xs jobs)

run_from_cancelled :
    (i : ℕ) (jobs : List ExecutorJob) (past : List JobState) (results : List JobResult)
    (s : ExecutorState)
    → s.jobs ≡ past ++ map initial_job jobs
    → i ≡ length past
    → s.cancel_requested ≡ true
    → ((run_from i jobs results s).0.jobs ≡ past ++ map skipped_job jobs)
      × ((run_from i jobs results s).1 ≡ results ++ map (result_of none) jobs)
unfolding run_from
run_from_cancelled i [] past results s e n c = (e, sym (append-nil results))
run_from_cancelled i (job ∷ jobs) past results s e n c =
    rw c (rw (e, n) (skip_from-length past (job ∷ jobs)), refl)

jobs-run_job :
    (i : ℕ) (job : ExecutorJob) (jobs : List ExecutorJob) (past : List JobState) (s : ExecutorState)
    → s.jobs ≡ past ++ map initial_job (job ∷ jobs)
    → i ≡ length past
    → (run_job i job s).jobs ≡ (past ++ settled_job job ∷ []) ++ map initial_job jobs
jobs-run_job i job jobs past s e n =
    rw (e, n, patch_at-length start past (initial_job job) (map initial_job jobs))
      (patch_at-length (settle job.throws) past (start (initial_job job)) (map initial_job jobs)
        ∙ ap (λ j. past ++ (j ∷ map initial_job jobs)) (settle_lem job)
        ∙ simp append_assoc)

-- What the list shows, and what is returned, when the jobs are through.
abbrev pub shown : List ExecutorJob → List JobState
shown jobs = map settled_job (ran jobs) ++ map skipped_job (left_out jobs)

abbrev pub returned : List ExecutorJob → List JobResult
returned jobs = map (λ j. result_of j.throws j) (ran jobs) ++ map (result_of none) (left_out jobs)

module _ (job : ExecutorJob) (jobs : List ExecutorJob) where
  shown_cancelled :
      job.cancelled ≡ true
      → (shown (job ∷ jobs) ≡ settled_job job ∷ map skipped_job jobs)
        × (returned (job ∷ jobs) ≡ result_of job.throws job ∷ map (result_of none) jobs)
  shown_cancelled e = (simp e, simp e)

  shown_going :
      job.cancelled ≡ false
      → (shown (job ∷ jobs) ≡ settled_job job ∷ shown jobs)
        × (returned (job ∷ jobs) ≡ result_of job.throws job ∷ returned jobs)
  shown_going e = (simp e, simp e)

  run_from_step :
      (i : ℕ) (results : List JobResult) (s : ExecutorState)
      → s.cancel_requested ≡ false
      → run_from i (job ∷ jobs) results s
        ≡ run_from (suc i) jobs (results ++ result_of job.throws job ∷ []) (run_job i job s)
  unfolding run_from
  run_from_step i results s c = simp c

  cancel_of_run_job :
      (i : ℕ) (s : ExecutorState)
      → s.cancel_requested ≡ false
      → (run_job i job s).cancel_requested ≡ job.cancelled
  cancel_of_run_job i s c = ground arith

run_from_lem :
    (i : ℕ) (jobs : List ExecutorJob) (past : List JobState) (results : List JobResult)
    (s : ExecutorState)
    → s.jobs ≡ past ++ map initial_job jobs
    → i ≡ length past
    → s.cancel_requested ≡ false
    → ((run_from i jobs results s).0.jobs ≡ past ++ shown jobs)
      × ((run_from i jobs results s).1 ≡ results ++ returned jobs)
run_from_lem i [] past results s e n c = unfold run_from in (e, sym (append-nil results))
run_from_lem i (job ∷ jobs) past results s e n c =
    let past' = past ++ settled_job job ∷ [] in
    let results' = results ++ result_of job.throws job ∷ [] in
    let s' = run_job i job s in
    let e' = jobs-run_job i job jobs past s e n in
    let n' : suc i ≡ length past' = omega (arith, length-append {0} past (settled_job job ∷ [])) in
    let c' = cancel_of_run_job job jobs i s c in
    rw (run_from_step job jobs i results s c) (elim (Bool-cases job.cancelled) [
      | inl cut ↦
          let (a, b) = run_from_cancelled (suc i) jobs past' results' s' e' n' (c' ∙ cut) in
          let (p, q) = shown_cancelled job jobs cut in
          (
            a ∙ append_assoc past _ _ ∙ ap (◌++◌ past) (sym p),
            b ∙ append_assoc results _ _ ∙ ap (◌++◌ results) (sym q),
          )
      | inr going ↦
          let (a, b) = run_from_lem (suc i) jobs past' results' s' e' n' (c' ∙ going) in
          let (p, q) = shown_going job jobs going in
          (
            a ∙ append_assoc past _ _ ∙ ap (◌++◌ past) (sym p),
            b ∙ append_assoc results _ _ ∙ ap (◌++◌ results) (sym q),
          )
    ])

-- The runner runs the jobs in their order up to the first one during which the user cancels. When it
-- ends it no longer runs, its list shows each job that ran as done, or as failed with the error
-- that it threw, and each later one as skipped; and it returns one result for each job, in their order,
-- with the error of each that threw.
pub run_lem :
    (title : String) (jobs : List ExecutorJob)
    → ((run title jobs).0.is_running ≡ false)
      × ((run title jobs).0.jobs ≡ map settled_job (ran jobs) ++ map skipped_job (left_out jobs))
      × ((run title jobs).1.results
          ≡ map (λ j. result_of j.throws j) (ran jobs) ++ map (result_of none) (left_out jobs))
unfolding run
run_lem title jobs =
    let (a, b) = run_from_lem 0 jobs [] [] (opened title jobs) refl refl refl in (refl, a, b)
