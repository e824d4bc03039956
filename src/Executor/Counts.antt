-- ===== src/Executor/Counts.antt =====
-- What the runner counts.
use basemaster.Base.{
  suc, ◌+◌, ◌-◌, ◌≡◌, refl, ap, ◌∙◌, length-append, String, List, [], ◌∷◌, ◌++◌, map, arith, length,
  filter, filter-append, not,
}
use basemaster.Executor.{ExecutorJob, JobResult, skipped_result, job_result, has_error, run}
use basemaster.Executor.Results.{ran, left_out, run_lem}

summary_failed :
    (title : String) (jobs : List ExecutorJob)
    → (run title jobs).1.failed ≡ length (filter has_error (run title jobs).1.results)
unfolding run
summary_failed title jobs = refl

summary_succeeded :
    (title : String) (jobs : List ExecutorJob)
    → (run title jobs).1.succeeded
      ≡ length (run title jobs).1.results - length (filter has_error (run title jobs).1.results)
unfolding run
summary_succeeded title jobs = refl

bad_count : (jobs : List ExecutorJob) → length (filter has_error (map skipped_result jobs)) ≡ 0
bad_count [] = refl
bad_count (j ∷ jobs) = bad_count jobs

length-map {ℓ κ} :
    {A : Type ℓ} {B : Type κ} (f : A → B) (xs : List A) → length (map f xs) ≡ length xs
length-map f [] = refl
length-map f (x ∷ xs) = ap suc (length-map f xs)

bad-append :
    (a b : List JobResult)
    → length (filter has_error (a ++ b)) ≡ length (filter has_error a) + length (filter has_error b)
bad-append a b = rw filter-append (length-append (filter has_error a) (filter has_error b))

good-bad :
    (a : List JobResult)
    → length (filter (λ r. not (has_error r)) a) + length (filter has_error a) ≡ length a
good-bad [] = omega arith
good-bad (r ∷ a) = ground (arith, good-bad a)

-- The count of failures is that of the jobs that ran and threw. The count of successes takes in every
-- job that was skipped, besides those that ran and did not throw: in the results a skipped job and a
-- successful one read alike.
pub run_counts :
    (title : String) (jobs : List ExecutorJob)
    → ((run title jobs).1.failed ≡ length (filter has_error (map job_result (ran jobs))))
      × ((run title jobs).1.succeeded
          ≡ length (filter (λ r. not (has_error r)) (map job_result (ran jobs)))
            + length (left_out jobs))
run_counts title jobs =
    let a = map job_result (ran jobs) in
    let b = map skipped_result (left_out jobs) in
    let bad : length (filter has_error (run title jobs).1.results) ≡ length (filter has_error a) =
      ap (λ r. length (filter has_error r)) (run_lem title jobs).2
      ∙ omega (arith, bad-append a b, bad_count (left_out jobs)) in
    (
      summary_failed title jobs ∙ bad,
      summary_succeeded title jobs
          ∙ omega (
            arith,
            bad,
            ap (length {0}) ((run_lem title jobs).2),
            length-append {0} a b,
            length-map {0, 0} skipped_result (left_out jobs),
            good-bad a,
          ),
    )
