-- ===== src/Traffic/Shaper/Pool/Blocked.antt =====
-- `applyToLinks`: when the caller waits for ever, all links have been processed.
use tcsss.Prelude.{ℕ, ◌≡◌, Bool, Option, List, M}
use mathlib.Core.List.{Perm}
use tcsss.Errors.{GoError, GoErrors}
use tcsss.Traffic.Env.{Env, Link, Shaper}
use tcsss.Traffic.Shaper.Pool.{WorkerStats, Pool}
use tcsss.Traffic.Shaper.Pool.Visits.{as_list, Visit, links_of, errors, counted, sum_by}

abbrev pub processed_of : WorkerStats → ℕ
processed_of st = st.processed

abbrev pub failed_of : WorkerStats → ℕ
failed_of st = st.failed

module _ (process : Env → Link → M Shaper (Bool × Option GoError)) (links : List Link)
    (s : Shaper) where
  -- Each link has been processed once, by one worker. The errors that the caller has received are those
  -- of the results, and the two sums of the statistics are theirs.
  pub record AllServed (p : Pool) (acc : GoErrors) : Type 0 where
    pub visits : List Visit
    pub is_perm : Perm (links_of visits) links
    pub at_errors : as_list acc ≡ errors process visits
    pub at_processed : sum_by processed_of p.stats_ch.queue ≡ counted process processed_of visits
    pub at_failed : sum_by failed_of p.stats_ch.queue ≡ counted process failed_of visits
