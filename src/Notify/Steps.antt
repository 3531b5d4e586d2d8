-- ===== src/Notify/Steps.antt =====
-- Overlapping runs of the notifications, from src/mediaman/services/downloads/notifications.py: the
-- processing of a row is one step, the steps of several runs and the restarts of the process come in
-- any order.

use mediaman.Prelude.{Bool, List, [], if◌then◌else◌, suc, zero, ℕ, ◌+◌, ◌∷◌}
use mediaman.Notify.Once.{times}
use mediaman.Core.Time.{Text}
use mediaman.Notify.Tick.{Surroundings, Queue, process_one, ids_of, begin_run}
use mediaman.Notify.Claims.{Notice, reconcile_stranded}

-- A run that is under way: its surroundings and the rows that it has yet to process.
abbrev pub Pending : Type 0
Pending = Surroundings × List Notice

pub record Service : Type 0 where
  pub queue : Queue
  pub runs : List Pending

-- A run begins, the run of that number processes its next row, or the process restarts, which loses
-- its runs and the memory of retries and reconciles the claims.
pub data Step : Type 0 where
  begins : Surroundings → Step
  proceeds : ℕ → Step
  restarts : Text → Step

abbrev pub join_run : Surroundings → List Pending → Queue × List Notice × Bool → Service
join_run s runs (q, todo, goes_on) = record {
  queue = q;
  runs = if goes_on then (s, todo) ∷ runs else runs;
}

abbrev pub after_row :
    Surroundings → List Notice → List Pending → Queue × Bool → Queue × List Pending
after_row s todo runs (q, returned) = (q, if returned then (s, todo) ∷ runs else runs)

abbrev pub behind : Pending → Queue × List Pending → Queue × List Pending
behind run (q, runs) = (q, run ∷ runs)

-- One turn of the loop of a run, which ends with its last row or an exception.
unfoldable pub proceed : ℕ → Queue → List Pending → Queue × List Pending
proceed i q [] = (q, [])
proceed zero q ((s, []) ∷ runs) = (q, runs)
proceed zero q ((s, r ∷ todo) ∷ runs) = after_row s todo runs (process_one s r q)
proceed (suc i) q (run ∷ runs) = behind run (proceed i q runs)

abbrev pub as_service : Queue × List Pending → Service
as_service (q, runs) = record { queue = q; runs = runs }

unfoldable pub after_step : Step → Service → Service
after_step (begins s) v = join_run s v.runs (begin_run s v.queue)
after_step (proceeds i) v = as_service (proceed i v.queue v.runs)
after_step (restarts cutoff) v = record {
  queue = record v.queue { rows = (reconcile_stranded cutoff v.queue.rows).0; retries = [] };
  runs = [];
}

unfoldable pub after_steps : List Step → Service → Service
after_steps [] v = v
after_steps (x ∷ steps) v = after_steps steps (after_step x v)

-- In how many runs under way, and how often, a row of `n` is.
unfoldable pub in_hand : ℕ → List Pending → ℕ
in_hand n [] = 0
in_hand n ((s, todo) ∷ runs) = times n (ids_of todo) + in_hand n runs
