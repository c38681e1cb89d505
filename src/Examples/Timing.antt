-- ===== src/Examples/Timing.antt =====
-- Two cells that are formatted between frames.
use rowake.Prelude.{ℕ, Text, lit, ◌≡◌, Bool, false, none, some, List, [], ◌∷◌, ◌++◌, arith}
use rowake.Values.{string}
use rowake.Schedule.{Job, Scheduler, pending, cell, apply_jobs, schedule, frame, idle, run_ticks}
use rowake.Schedule.Progress.{schedule_prefix, schedule_finishes}
use rowake.Examples.{host}

abbrev job : Text → Job
job id = record {
  id = id;
  value = string (lit "x");
  data_type = lit "text";
  raw = lit "x";
  mode = cell;
}

abbrev two_jobs : List Job
two_jobs = job (lit "value-format-1") ∷ job (lit "value-format-2") ∷ []

abbrev scheduler : Scheduler
scheduler = record {
  page =
      record { id = some (lit "value-format-1"); content = pending (lit "…") }
      ∷ record { id = some (lit "value-format-2"); content = pending (lit "…") }
      ∷ [];
  pending_formats = [];
  serial = 2;
  generation = 0;
  frame = none;
  idle = none;
}

-- An idle period with time for one job.
abbrev no_time : ℕ → Bool
no_time i = false

prefix_example :
    (done : List Job) × (left : List Job) × (done ++ left ≡ two_jobs)
    × ((run_ticks host
          (lit "en")
          (frame ∷ idle no_time ∷ [])
          (schedule host two_jobs scheduler)).page
        ≡ apply_jobs host (lit "en") done scheduler.page)
prefix_example = schedule_prefix host (lit "en") (frame ∷ idle no_time ∷ []) two_jobs scheduler

finish_example :
    ((run_ticks host
        (lit "en")
        (frame ∷ idle no_time ∷ idle no_time ∷ [])
        (schedule host two_jobs scheduler)).page
      ≡ apply_jobs host (lit "en") two_jobs scheduler.page)
    × ((run_ticks host
          (lit "en")
          (frame ∷ idle no_time ∷ idle no_time ∷ [])
          (schedule host two_jobs scheduler)).frame
        ≡ none)
    × ((run_ticks host
          (lit "en")
          (frame ∷ idle no_time ∷ idle no_time ∷ [])
          (schedule host two_jobs scheduler)).idle
        ≡ none)
finish_example =
    schedule_finishes host (lit "en") (no_time ∷ no_time ∷ []) two_jobs scheduler (omega arith)
