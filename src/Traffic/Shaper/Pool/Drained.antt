-- ===== src/Traffic/Shaper/Pool/Drained.antt =====
-- `applyToLinks`: a worker leaves its loop only after the last link was taken, and the caller receives
-- errors only when all workers have left.
use tcsss.Prelude.{
  ℕ, ◌+◌, ◌≡◌, ◌<◌, refl, ap, Bool, false, Option, List, [], ◌∷◌, ◌++◌, M, length, arith, ◌⊎◌, inl,
  inr,
}
use tcsss.Errors.{GoError, GoErrors}
use tcsss.Traffic.Env.{Env, Link, Shaper}
use tcsss.Traffic.Shaper.Process.{worker_count}
use tcsss.Traffic.Shaper.Pool.{
  WorkerStats, Worker, ranging, holding, finished, sending, receiving_errors, Pool, start, count,
  AllFinished, none_left, one_more, Takes, Processes, Finishes, Step, send, close_work, take_link,
  process_link, finish, wait, receive_error, end_errors, receive_stats, end_stats, Reach, here,
  next,
}
use tcsss.Traffic.Shaper.Pool.Invariant.{
  Inv, weigh, weigh-middle, weigh-replicate, is_live, start-Inv,
}
use tcsss.Traffic.Shaper.Pool.Hang.{Reach-Inv}
use tcsss.Traffic.Shaper.Pool.Visits.{held, tally_of}

abbrev pub is_finished : Worker → ℕ
is_finished finished = 1
is_finished _ = 0

-- A worker has left its loop only after the last link was taken.
pub record Drained (size : ℕ) (p : Pool) : Type 0 where
  pub crew : weigh is_live p.workers + weigh is_finished p.workers ≡ size
  pub drained : (weigh is_finished p.workers ≡ 0) ⊎ (p.work_ch.queue ≡ [])
  open_while_sending : (links : List Link) → p.caller ≡ sending links → p.work_ch.closed ≡ false
  opened : p.work_ch.closed ≡ false → weigh is_finished p.workers ≡ 0
  pub all_done : (acc : GoErrors) → p.caller ≡ receiving_errors acc → weigh is_live p.workers ≡ 0

pub AllFinished-live : {ws : List Worker} → AllFinished ws → weigh is_live ws ≡ 0
AllFinished-live none_left = refl
AllFinished-live (one_more a) = omega (arith, AllFinished-live a)

pub live-held : (ws : List Worker) → weigh is_live ws ≡ 0 → held ws ≡ []
live-held [] h = refl
live-held (ranging st ∷ ws) h = absurd (omega arith)
live-held (holding link st ∷ ws) h = absurd (omega arith)
live-held (finished ∷ ws) h = live-held ws (omega arith)

pub live-tally :
    (f : WorkerStats → ℕ) (ws : List Worker) → weigh is_live ws ≡ 0 → weigh (tally_of f) ws ≡ 0
live-tally f [] h = refl
live-tally f (ranging st ∷ ws) h = absurd (omega arith)
live-tally f (holding link st ∷ ws) h = absurd (omega arith)
live-tally f (finished ∷ ws) h = omega (arith, live-tally f ws (omega arith))

-- A worker that changes its state, but not its weight.
weigh-change :
    (weight : Worker → ℕ) (before : List Worker) (w v : Worker) (behind workers : List Worker)
    → weight w ≡ weight v
    → workers ≡ before ++ (w ∷ behind)
    → weigh weight (before ++ (v ∷ behind)) ≡ weigh weight workers
weigh-change weight before w v behind workers h e = omega (
  arith,
  ap (weigh weight) e,
  weigh-middle weight before w behind,
  weigh-middle weight before v behind,
)

module _ (process : Env → Link → M Shaper (Bool × Option GoError)) {size : ℕ} where
  take-Drained : {p q : Pool} → Takes process p q → Drained size p → Drained size q
  take-Drained {p} t v =
      let live =
        weigh-change is_live t.before (ranging t.st) (holding t.link t.st) t.behind p.workers refl
          t.is_worker in
      let done =
        weigh-change is_finished t.before (ranging t.st) (holding t.link t.st) t.behind p.workers
          refl t.is_worker in
      rw t.result (record {
        crew = omega (arith, v.crew, live, done);
        drained = elim v.drained [ inl n ↦ inl (omega (arith, n, done)) | inr e ↦ cc (t.is_head) ];
        open_while_sending = v.open_while_sending;
        opened = λ o. omega (arith, v.opened o, done);
        all_done = λ acc c. omega (arith, v.all_done acc c, live);
      })

  process-Drained : {p q : Pool} → Processes process p q → Drained size p → Drained size q
  process-Drained {p} t v =
      let st = count (process t.seen t.link t.shaper_seen).0 t.st in
      let live =
        weigh-change is_live t.before (holding t.link t.st) (ranging st) t.behind p.workers refl
          t.is_worker in
      let done =
        weigh-change is_finished t.before (holding t.link t.st) (ranging st) t.behind p.workers refl
          t.is_worker in
      rw t.result (record {
        crew = omega (arith, v.crew, live, done);
        drained = elim v.drained [ inl n ↦ inl (omega (arith, n, done)) | inr e ↦ inr e ];
        open_while_sending = v.open_while_sending;
        opened = λ o. omega (arith, v.opened o, done);
        all_done = λ acc c. omega (arith, v.all_done acc c, live);
      })

  finish-Drained : {p q : Pool} → Finishes process p q → Drained size p → Drained size q
  finish-Drained {p} f v =
      let live = weigh-middle is_live f.before (ranging f.st) f.behind in
      let done = weigh-middle is_finished f.before (ranging f.st) f.behind in
      let live' = weigh-middle is_live f.before finished f.behind in
      let done' = weigh-middle is_finished f.before finished f.behind in
      rw f.result (record {
        crew = omega (
          arith,
          v.crew,
          live,
          done,
          live',
          done',
          ap (weigh is_live) f.is_worker,
          ap (weigh is_finished) f.is_worker,
        );
        drained = inr f.is_empty;
        open_while_sending = v.open_while_sending;
        opened = λ o. cc (f.is_closed);
        all_done = λ acc c. omega (arith, v.all_done acc c, live, ap (weigh is_live) f.is_worker);
      })

  Step-Drained : {p q : Pool} → Step process p q → Inv p → Drained size p → Drained size q
  Step-Drained (send link rest c room e) i v =
      let none_finished = v.opened (v.open_while_sending (link ∷ rest) c) in
      rw e (record {
        crew = v.crew;
        drained = inl none_finished;
        open_while_sending = λ l x. v.open_while_sending (link ∷ rest) c;
        opened = λ o. none_finished;
        all_done = λ acc x. cc;
      })
  Step-Drained (close_work c e) i v = rw e (record {
    crew = v.crew;
    drained = v.drained;
    open_while_sending = λ l x. cc;
    opened = λ o. cc;
    all_done = λ acc x. cc;
  })
  Step-Drained (take_link t) i v = take-Drained t v
  Step-Drained (process_link t) i v = process-Drained t v
  Step-Drained (finish f) i v = finish-Drained f v
  Step-Drained (wait c a e) i v = rw e (record {
    crew = v.crew;
    drained = v.drained;
    open_while_sending = λ l x. cc;
    opened = v.opened;
    all_done = λ acc x. AllFinished-live a;
  })
  Step-Drained (receive_error acc x rest c h e) i v = rw e (record {
    crew = v.crew;
    drained = v.drained;
    open_while_sending = λ l y. cc;
    opened = v.opened;
    all_done = λ es y. v.all_done acc c;
  })
  Step-Drained (end_errors acc c h cl e) i v = cc (i.err_open)
  Step-Drained (receive_stats acc total st rest c h e) i v = absurd (rw c at i.phase)
  Step-Drained (end_stats acc total c h cl e) i v = absurd (rw c at i.phase)

start-Drained :
    (links : List Link) (s : Shaper) → Drained (worker_count (length links)) (start links s)
unfolding start
start-Drained links s =
    let live = weigh-replicate is_live (worker_count (length links)) in
    let done = weigh-replicate is_finished (worker_count (length links)) in
    record {
      crew = omega (arith, live, done);
      drained = inl (omega (arith, done));
      open_while_sending = λ l x. refl;
      opened = λ o. omega (arith, done);
      all_done = λ acc x. cc;
    }

pub worker_count_pos : (n : ℕ) → 0 < n → 0 < worker_count n
unfolding worker_count
worker_count_pos n h = ground arith

pub Reach-Drained :
    (process : Env → Link → M Shaper (Bool × Option GoError)) (links : List Link) (s : Shaper)
    {n : ℕ} {p : Pool}
    → Reach process (start links s) n p
    → Drained (worker_count (length links)) p
Reach-Drained process links s here = start-Drained links s
Reach-Drained process links s (next r st) =
    Step-Drained process st (Reach-Inv process (start-Inv links s) r)
      (Reach-Drained process links s r)
