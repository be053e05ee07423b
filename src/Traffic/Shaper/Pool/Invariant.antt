-- ===== src/Traffic/Shaper/Pool/Invariant.antt =====
-- `applyToLinks`: no channel is ever full, and the error channel stays open.
use tcsss.Prelude.{
  ℕ, zero, suc, ◌+◌, ◌*◌, ◌≡◌, ◌≤◌, refl, ap, Bool, true, false, Option, none, some, List, [], ◌∷◌,
  ◌++◌, M, length, replicate, arith, length-append, ◌∙◌,
}
use tcsss.Errors.{GoError}
use tcsss.Traffic.Env.{Env, Link, Shaper}
use tcsss.Traffic.Shaper.Process.{worker_count}
use tcsss.Traffic.Shaper.Pool.{
  Worker, ranging, holding, finished, Caller, sending, waiting, receiving_errors, receiving_stats,
  returned, Chan, Pool, start, report, Takes, Processes, Finishes, Step, send, close_work,
  take_link, process_link, finish, wait, receive_error, end_errors, receive_stats, end_stats,
  no_stats, count,
}

abbrev pub unsent : Caller → ℕ
unsent (sending links) = length links
unsent _ = 0

-- The sum of a weight over the workers; the weights below count some of them.
abbrev pub weigh : (Worker → ℕ) → List Worker → ℕ
weigh weight [] = 0
weigh weight (w ∷ ws) = weight w + weigh weight ws

-- The workers that hold a link.
abbrev pub is_holding : Worker → ℕ
is_holding (holding link st) = 1
is_holding _ = 0

-- The workers that have not finished.
abbrev pub is_live : Worker → ℕ
is_live finished = 0
is_live _ = 1

-- The call has not come past the loop over the error channel.
abbrev pub Phase : Caller → Bool → Type 0
Phase (sending links) work_closed = Unit
Phase waiting work_closed = work_closed ≡ true
Phase (receiving_errors acc) work_closed = Unit
Phase (receiving_stats acc total) work_closed = ⊥
Phase (returned e) work_closed = ⊥

pub record Inv (p : Pool) : Type 0 where
  pub err_open : p.err_ch.closed ≡ false
  pub phase : Phase p.caller p.work_ch.closed
  pub room_for_errors :
      length p.err_ch.queue + length p.work_ch.queue + unsent p.caller + weigh is_holding p.workers
      ≤ p.err_ch.capacity
  pub room_for_work : length p.work_ch.queue + unsent p.caller ≤ p.work_ch.capacity
  pub room_for_stats : length p.stats_ch.queue + weigh is_live p.workers ≤ p.stats_ch.capacity

pub length-push : {A : Type 0} (xs : List A) (x : A) → length (xs ++ (x ∷ [])) ≡ length xs + 1
length-push xs x = length-append xs (x ∷ [])

pub length-report :
    (r : Bool × Option GoError) (c : Chan GoError) → length (report r c).queue ≤ length c.queue + 1
length-report (false, e) c = omega arith
length-report (true, none) c = omega arith
length-report (true, some e) c = omega (arith, length-push c.queue e)

report-same :
    (r : Bool × Option GoError) (c : Chan GoError)
    → ((report r c).closed ≡ c.closed) × ((report r c).capacity ≡ c.capacity)
report-same (false, e) c = (refl, refl)
report-same (true, none) c = (refl, refl)
report-same (true, some e) c = (refl, refl)

-- A worker in the middle of the list.
pub weigh-middle :
    (weight : Worker → ℕ) (before : List Worker) (w : Worker) (behind : List Worker)
    → weigh weight (before ++ (w ∷ behind)) ≡ weight w + weigh weight (before ++ behind)
weigh-middle weight [] w behind = refl
weigh-middle weight (v ∷ before) w behind = omega (arith, weigh-middle weight before w behind)

module _ (process : Env → Link → M Shaper (Bool × Option GoError)) where
  take-Inv : {p q : Pool} → Takes process p q → Inv p → Inv q
  take-Inv {p} t v = rw t.result (record {
    err_open = v.err_open;
    phase = v.phase;
    room_for_errors = omega (
      arith,
      v.room_for_errors,
      ap length t.is_head,
      ap (weigh is_holding) t.is_worker,
      weigh-middle is_holding t.before (ranging t.st) t.behind,
      weigh-middle is_holding t.before (holding t.link t.st) t.behind,
    );
    room_for_work = omega (arith, v.room_for_work, ap length t.is_head);
    room_for_stats = omega (
      arith,
      v.room_for_stats,
      ap (weigh is_live) t.is_worker,
      weigh-middle is_live t.before (ranging t.st) t.behind,
      weigh-middle is_live t.before (holding t.link t.st) t.behind,
    );
  })

  process-Inv : {p q : Pool} → Processes process p q → Inv p → Inv q
  process-Inv {p} t v =
      let r = (process t.seen t.link t.shaper_seen).0 in
      rw t.result (record {
        err_open = (report-same r p.err_ch).0 ∙ v.err_open;
        phase = v.phase;
        room_for_errors = omega (
          arith,
          length-report r p.err_ch,
          (report-same r p.err_ch).1,
          v.room_for_errors,
          ap (weigh is_holding) t.is_worker,
          weigh-middle is_holding t.before (holding t.link t.st) t.behind,
          weigh-middle is_holding t.before (ranging (count r t.st)) t.behind,
        );
        room_for_work = v.room_for_work;
        room_for_stats = omega (
          arith,
          v.room_for_stats,
          ap (weigh is_live) t.is_worker,
          weigh-middle is_live t.before (holding t.link t.st) t.behind,
          weigh-middle is_live t.before (ranging (count r t.st)) t.behind,
        );
      })

  finish-Inv : {p q : Pool} → Finishes process p q → Inv p → Inv q
  finish-Inv {p} f v = rw f.result (record {
    err_open = v.err_open;
    phase = v.phase;
    room_for_errors = omega (
      arith,
      v.room_for_errors,
      ap (weigh is_holding) f.is_worker,
      weigh-middle is_holding f.before (ranging f.st) f.behind,
      weigh-middle is_holding f.before finished f.behind,
    );
    room_for_work = v.room_for_work;
    room_for_stats = omega (
      arith,
      v.room_for_stats,
      ap (weigh is_live) f.is_worker,
      weigh-middle is_live f.before (ranging f.st) f.behind,
      weigh-middle is_live f.before finished f.behind,
      length-push p.stats_ch.queue f.st,
    );
  })

  pub Step-Inv : {p q : Pool} → Step process p q → Inv p → Inv q
  Step-Inv {p} (send link rest c room e) v = rw e (record {
    err_open = v.err_open;
    phase = tt;
    room_for_errors =
        omega (arith, v.room_for_errors, ap unsent c, length-push p.work_ch.queue link);
    room_for_work = omega (arith, v.room_for_work, ap unsent c, length-push p.work_ch.queue link);
    room_for_stats = v.room_for_stats;
  })
  Step-Inv {p} (close_work c e) v = rw e (record {
    err_open = v.err_open;
    phase = refl;
    room_for_errors = omega (arith, v.room_for_errors);
    room_for_work = omega (arith, v.room_for_work);
    room_for_stats = v.room_for_stats;
  })
  Step-Inv (take_link t) v = take-Inv t v
  Step-Inv (process_link t) v = process-Inv t v
  Step-Inv (finish f) v = finish-Inv f v
  Step-Inv {p} (wait c a e) v = rw e (record {
    err_open = v.err_open;
    phase = tt;
    room_for_errors = omega (arith, v.room_for_errors);
    room_for_work = omega (arith, v.room_for_work);
    room_for_stats = v.room_for_stats;
  })
  Step-Inv {p} (receive_error acc x rest c h e) v = rw e (record {
    err_open = v.err_open;
    phase = tt;
    room_for_errors = omega (arith, v.room_for_errors, ap length h);
    room_for_work = omega (arith, v.room_for_work);
    room_for_stats = v.room_for_stats;
  })
  Step-Inv (end_errors acc c h cl e) v = cc (v.err_open)
  Step-Inv (receive_stats acc total st rest c h e) v = absurd (rw c at v.phase)
  Step-Inv (end_stats acc total c h cl e) v = absurd (rw c at v.phase)

pub weigh-replicate :
    (weight : Worker → ℕ) (n : ℕ)
    → weigh weight (replicate n (ranging no_stats)) ≡ n * weight (ranging no_stats)
weigh-replicate weight zero = omega arith
weigh-replicate weight (suc n) = grind (arith, weigh-replicate weight n)

pub start-Inv : (links : List Link) (s : Shaper) → Inv (start links s)
unfolding start
start-Inv links s = record {
  err_open = refl;
  phase = tt;
  room_for_errors = omega (arith, weigh-replicate is_holding (worker_count (length links)));
  room_for_work = omega arith;
  room_for_stats = omega (arith, weigh-replicate is_live (worker_count (length links)));
}
