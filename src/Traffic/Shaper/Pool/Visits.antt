-- ===== src/Traffic/Shaper/Pool/Visits.antt =====
-- `applyToLinks`: what the workers have done. Each link is visited by one worker, and the errors and
-- the statistics are those of the visits.
use tcsss.Prelude.{
  ℕ, zero, suc, ◌+◌, ◌≡◌, refl, sym, ap, Bool, true, false, Option, none, some, List, [], ◌∷◌, ◌++◌,
  M, replicate, arith,
}
use mathlib.Core.List.{Perm, append_assoc, append-nil}
use tcsss.Errors.{GoError, GoErrors, nil, cons, add}
use tcsss.Traffic.Env.{Env, Link, Shaper}
use tcsss.Traffic.Shaper.Pool.{
  report, Chan, WorkerStats, Worker, ranging, holding, finished, Caller, sending, receiving_errors,
  Pool, count, no_stats,
}
use tcsss.Traffic.Shaper.Pool.Invariant.{weigh}

abbrev pub unsent_links : Caller → List Link
unsent_links (sending links) = links
unsent_links _ = []

abbrev pub held : List Worker → List Link
held [] = []
held (holding link st ∷ ws) = link ∷ held ws
held (ranging st ∷ ws) = held ws
held (finished ∷ ws) = held ws

abbrev pub as_list : GoErrors → List GoError
as_list nil = []
as_list (cons e es) = e ∷ as_list es

abbrev pub received : Caller → List GoError
received (receiving_errors acc) = as_list acc
received _ = []

-- The error that a worker sends for a link.
abbrev pub sent : Bool × Option GoError → List GoError
sent (true, some e) = e ∷ []
sent _ = []

-- What a worker has counted so far.
abbrev pub tally_of : (WorkerStats → ℕ) → Worker → ℕ
tally_of f (ranging st) = f st
tally_of f (holding link st) = f st
tally_of f finished = 0

abbrev pub sum_by : (WorkerStats → ℕ) → List WorkerStats → ℕ
sum_by f [] = 0
sum_by f (st ∷ rest) = f st + sum_by f rest

-- Such as the two fields of the statistics.
abbrev pub IsCount : (WorkerStats → ℕ) → Type 0
IsCount f =
    (r : Bool × Option GoError) (st : WorkerStats) → f (count r st) ≡ f st + f (count r no_stats)

-- The links that are not processed yet.
abbrev pub pending : Pool → List Link
pending p = held p.workers ++ (p.work_ch.queue ++ unsent_links p.caller)

pub held-append :
    (before behind : List Worker) → held (before ++ behind) ≡ held before ++ held behind
held-append [] behind = refl
held-append (ranging st ∷ before) behind = held-append before behind
held-append (holding link st ∷ before) behind = ap (◌∷◌ link) (held-append before behind)
held-append (finished ∷ before) behind = held-append before behind

pub held-replicate : (n : ℕ) → held (replicate n (ranging no_stats)) ≡ []
held-replicate zero = refl
held-replicate (suc n) = held-replicate n

pub tally-replicate :
    (f : WorkerStats → ℕ) (n : ℕ)
    → f no_stats ≡ 0
    → 0 + weigh (tally_of f) (replicate n (ranging no_stats)) ≡ 0
tally-replicate f zero h = refl
tally-replicate f (suc n) h = omega (arith, tally-replicate f n h)

pub queue-report :
    (r : Bool × Option GoError) (c : Chan GoError) → (report r c).queue ≡ c.queue ++ sent r
queue-report (false, e) c = sym (append-nil c.queue)
queue-report (true, none) c = sym (append-nil c.queue)
queue-report (true, some e) c = refl

pub as_list-add : (e : GoError) (es : GoErrors) → as_list (add (some e) es) ≡ as_list es ++ (e ∷ [])
unfolding add
as_list-add e nil = refl
as_list-add e (cons x xs) = ap (◌∷◌ x) (as_list-add e xs)

pub sum_by-push :
    (f : WorkerStats → ℕ) (sts : List WorkerStats) (st : WorkerStats)
    → sum_by f (sts ++ (st ∷ [])) ≡ sum_by f sts + f st
sum_by-push f [] st = omega arith
sum_by-push f (x ∷ sts) st = omega (arith, sum_by-push f sts st)

-- A link that has been processed, with what its worker has seen of the environment and the shaper.
pub record Visit : Type 0 where
  pub link : Link
  pub seen : Env
  pub shaper_seen : Shaper

abbrev pub links_of : List Visit → List Link
links_of [] = []
links_of (v ∷ vs) = v.link ∷ links_of vs

pub links_of-snoc :
    (vs : List Visit) (v : Visit) → links_of (vs ++ (v ∷ [])) ≡ links_of vs ++ (v.link ∷ [])
links_of-snoc [] v = refl
links_of-snoc (x ∷ vs) v = ap (◌∷◌ (x.link)) (links_of-snoc vs v)

module _ (process : Env → Link → M Shaper (Bool × Option GoError)) where
  -- What `processLink` has returned for a link.
  abbrev pub answer : Visit → Bool × Option GoError
  answer v = (process v.seen v.link v.shaper_seen).0

  -- The errors of some answers, and a sum over the answers.
  unfoldable pub errors : List Visit → List GoError
  errors [] = []
  errors (v ∷ vs) = sent (answer v) ++ errors vs

  unfoldable pub counted : (WorkerStats → ℕ) → List Visit → ℕ
  counted f [] = 0
  counted f (v ∷ vs) = f (count (answer v) no_stats) + counted f vs

  pub errors-snoc :
      (vs : List Visit) (v : Visit) → errors (vs ++ (v ∷ [])) ≡ errors vs ++ sent (answer v)
  unfolding errors
  errors-snoc [] v = append-nil _
  errors-snoc (x ∷ vs) v = simp (errors-snoc vs v, append_assoc)

  pub counted-snoc :
      (f : WorkerStats → ℕ) (vs : List Visit) (v : Visit)
      → counted f (vs ++ (v ∷ [])) ≡ counted f vs + f (count (answer v) no_stats)
  unfolding counted
  counted-snoc f [] v = omega arith
  counted-snoc f (x ∷ vs) v = omega (arith, counted-snoc f vs v)

  -- The visits made so far are one to each link that is not pending, and what has been sent is theirs.
  pub record Served (links : List Link) (p : Pool) : Type 0 where
    pub visits : List Visit
    pub is_perm : Perm (links_of visits ++ pending p) links
    pub at_errors : received p.caller ++ p.err_ch.queue ≡ errors visits
    pub at_stats :
        (f : WorkerStats → ℕ)
        → IsCount f
        → sum_by f p.stats_ch.queue + weigh (tally_of f) p.workers ≡ counted f visits
