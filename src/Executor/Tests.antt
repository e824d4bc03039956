-- ===== src/Executor/Tests.antt =====
-- The theorems at three jobs, of which the first fails and the user cancels during the second.
use basemaster.Base.{◌≡◌, true, false, none, some, List, [], ◌∷◌, ◌++◌, map}
use basemaster.Executor.{ExecutorJob, run}
use basemaster.Executor.Results.{ran, left_out, settled_job, skipped_job, result_of, run_lem}

abbrev three : List ExecutorJob
three =
    record { id = "1"; label = "a"; throws = some "no"; cancelled = false }
    ∷ record { id = "2"; label = "b"; throws = none; cancelled = true }
    ∷ record { id = "3"; label = "c"; throws = none; cancelled = false }
    ∷ []

run_lem_example :
    ((run "dump" three).0.is_running ≡ false)
    × ((run "dump" three).0.jobs ≡ map settled_job (ran three) ++ map skipped_job (left_out three))
    × ((run "dump" three).1.results
        ≡ map (λ j. result_of j.throws j) (ran three) ++ map (result_of none) (left_out three))
run_lem_example = run_lem "dump" three
