-- ===== src/Traffic/Shaper/Pool.antt =====
-- shaper_apply.go, `applyToLinks`, `linkWorker`, `summarizeLinkResults`: the workers and the three
-- channels, as a step relation. A worker receives a link, comes to the end of processing it and sends its error, or, at the end, sends
-- its statistics: each is one step, and the steps of all goroutines interleave freely. The calls that
-- workers make while they process links interleave too: see `Processes`.
pub mod Invariant
pub mod Measure
pub mod Hang
pub mod Visits
pub mod Served
pub mod Drained
pub mod Blocked
use tcsss.Prelude.{
  ℕ, zero, suc, ◌+◌, ◌≡◌, ◌<◌, ◌≤◌, Bool, true, false, Option, none, some, List, [], ◌∷◌, ◌++◌, M,
  length, replicate, return, if◌then◌else◌,
}
use tcsss.Text.Ops.{Text, bytes}
use tcsss.Errors.{GoError, GoErrors, nil, add, error_or_nil, wrap_recoverable, no_context}
use tcsss.Text.Number.{print_nat}
use tcsss.Traffic.Env.{Env, Link, Shaper}
use tcsss.Traffic.Shaper.Process.{worker_count}

pub record WorkerStats : Type 0 where
  pub processed : ℕ
  pub failed : ℕ

-- A worker at the receive of its loop over `workCh`, with a link it has received, or behind the loop.
pub data Worker : Type 0 where
  ranging : WorkerStats → Worker
  holding : Link → WorkerStats → Worker
  finished : Worker

-- Where the calling goroutine stands: it sends the links, waits for the workers, receives errors,
-- receives statistics, or has returned.
pub data Caller : Type 0 where
  sending : List Link → Caller
  waiting : Caller
  receiving_errors : GoErrors → Caller
  receiving_stats : GoErrors → WorkerStats → Caller
  returned : Option GoError → Caller

-- A buffered channel: what it holds, its capacity, and whether it is closed.
pub record Chan (A : Type 0) : Type 0 where
  pub queue : List A
  pub capacity : ℕ
  pub closed : Bool

pub record Pool : Type 0 where
  pub caller : Caller
  pub workers : List Worker
  pub work_ch : Chan Link
  pub err_ch : Chan GoError
  pub stats_ch : Chan WorkerStats
  pub shaper : Shaper

abbrev make_chan : {A : Type 0} → ℕ → Chan A
make_chan n = record { queue = []; capacity = n; closed = false }

abbrev pub no_stats : WorkerStats
no_stats = record { processed = 0; failed = 0 }

-- `applyToLinks` behind its test for no links.
unfoldable pub start : List Link → Shaper → Pool
unfolding worker_count
start links s = record {
  caller = sending links;
  workers = replicate (worker_count (length links)) (ranging no_stats);
  work_ch = make_chan (length links);
  err_ch = make_chan (length links);
  stats_ch = make_chan (worker_count (length links));
  shaper = s;
}

abbrev pub push : {A : Type 0} → A → Chan A → Chan A
push a c = record c { queue = c.queue ++ (a ∷ []) }

abbrev pub close : {A : Type 0} → Chan A → Chan A
close c = record c { closed = true }

-- What a worker does with the result of `processLink`.
abbrev pub count : Bool × Option GoError → WorkerStats → WorkerStats
count (false, e) st = st
count (true, none) st = record st { processed = st.processed + 1 }
count (true, some e) st = record { processed = st.processed + 1; failed = st.failed + 1 }

abbrev pub report : Bool × Option GoError → Chan GoError → Chan GoError
report (true, some e) c = push e c
report _ c = c

abbrev pub sum_stats : WorkerStats → WorkerStats → WorkerStats
sum_stats total st = record {
  processed = total.processed + st.processed;
  failed = total.failed + st.failed;
}

-- The end of `summarizeLinkResults`.
unfoldable pub summary : GoErrors → WorkerStats → Option GoError
unfolding error_or_nil wrap_recoverable
summary errs total = wrap_recoverable (error_or_nil errs) (bytes "apply_links") (
    record no_context {
      extra =
          (bytes "failed", print_nat total.failed)
          ∷ (bytes "processed", print_nat total.processed)
          ∷ [];
    }
    ∷ [])

pub data AllFinished : List Worker → Type 0 where
  none_left : AllFinished []
  one_more : {ws : List Worker} → AllFinished ws → AllFinished (finished ∷ ws)

module _ (process : Env → Link → M Shaper (Bool × Option GoError)) where
  -- A worker receives a link.
  pub record Takes (p q : Pool) : Type 0 where
    pub before : List Worker
    pub st : WorkerStats
    pub behind : List Worker
    pub link : Link
    pub rest : List Link
    pub is_worker : p.workers ≡ before ++ (ranging st ∷ behind)
    pub is_head : p.work_ch.queue ≡ link ∷ rest
    pub result : q ≡ record p {
      workers = before ++ (holding link st ∷ behind);
      work_ch = record (p.work_ch) { queue = rest };
    }

  -- A worker processes its link; an error is sent when the channel has room for it. The other workers
  -- make their calls and change the shaper meanwhile: what this worker's calls are answered and
  -- what it finds of the shaper is `seen` and `shaper_seen`, and how the shaper is then is `left`; they can be
  -- anything.
  pub record Processes (p q : Pool) : Type 0 where
    pub before : List Worker
    pub st : WorkerStats
    pub behind : List Worker
    pub link : Link
    pub seen : Env
    pub shaper_seen : Shaper
    pub left : Shaper
    pub is_worker : p.workers ≡ before ++ (holding link st ∷ behind)
    pub room : length (report (process seen link shaper_seen).0 p.err_ch).queue ≤ p.err_ch.capacity
    pub result : q ≡ record p {
      workers = before ++ (ranging (count (process seen link shaper_seen).0 st) ∷ behind);
      err_ch = report (process seen link shaper_seen).0 p.err_ch;
      shaper = left;
    }

  -- A worker leaves its loop, as the work channel is closed and empty, and sends its statistics.
  pub record Finishes (p q : Pool) : Type 0 where
    pub before : List Worker
    pub st : WorkerStats
    pub behind : List Worker
    pub is_worker : p.workers ≡ before ++ (ranging st ∷ behind)
    pub is_empty : p.work_ch.queue ≡ []
    pub is_closed : p.work_ch.closed ≡ true
    pub room : length p.stats_ch.queue < p.stats_ch.capacity
    pub result :
        q ≡ record p { workers = before ++ (finished ∷ behind); stats_ch = push st p.stats_ch }

  pub data Step (p q : Pool) : Type 0 where
    send :
        (link : Link) (rest : List Link)
        → p.caller ≡ sending (link ∷ rest)
        → length p.work_ch.queue < p.work_ch.capacity
        → q ≡ record p { caller = sending rest; work_ch = push link p.work_ch }
        → Step p q
    close_work :
        p.caller ≡ sending []
        → q ≡ record p { caller = waiting; work_ch = close p.work_ch }
        → Step p q
    take_link : Takes p q → Step p q
    process_link : Processes p q → Step p q
    finish : Finishes p q → Step p q
    wait :
        p.caller ≡ waiting
        → AllFinished p.workers
        → q ≡ record p { caller = receiving_errors nil }
        → Step p q
    receive_error :
        (acc : GoErrors) (e : GoError) (rest : List GoError)
        → p.caller ≡ receiving_errors acc
        → p.err_ch.queue ≡ e ∷ rest
        → q ≡ record p {
          caller = receiving_errors (add (some e) acc);
          err_ch = record (p.err_ch) { queue = rest };
        }
        → Step p q
    end_errors :
        (acc : GoErrors)
        → p.caller ≡ receiving_errors acc
        → p.err_ch.queue ≡ []
        → p.err_ch.closed ≡ true
        → q ≡ record p { caller = receiving_stats acc no_stats }
        → Step p q
    receive_stats :
        (acc : GoErrors) (total st : WorkerStats) (rest : List WorkerStats)
        → p.caller ≡ receiving_stats acc total
        → p.stats_ch.queue ≡ st ∷ rest
        → q ≡ record p {
          caller = receiving_stats acc (sum_stats total st);
          stats_ch = record (p.stats_ch) { queue = rest };
        }
        → Step p q
    -- The deferred calls that close the two channels run when the function returns.
    end_stats :
        (acc : GoErrors) (total : WorkerStats)
        → p.caller ≡ receiving_stats acc total
        → p.stats_ch.queue ≡ []
        → p.stats_ch.closed ≡ true
        → q ≡ record p {
          caller = returned (summary acc total);
          err_ch = close p.err_ch;
          stats_ch = close p.stats_ch;
        }
        → Step p q

  pub data Reach (p : Pool) : ℕ → Pool → Type 0 where
    here : Reach p zero p
    next : {n : ℕ} {q r : Pool} → Reach p n q → Step q r → Reach p (suc n) r
