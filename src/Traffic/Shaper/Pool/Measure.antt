-- ===== src/Traffic/Shaper/Pool/Measure.antt =====
-- `applyToLinks`: a number that falls with each step.
use tcsss.Prelude.{ℕ, ◌+◌, ◌*◌, ◌<◌, ◌≤◌, ap, Bool, Option, M, length, arith}
use tcsss.Errors.{GoError}
use tcsss.Traffic.Env.{Env, Link, Shaper}
use tcsss.Traffic.Shaper.Process.{worker_count}
use tcsss.Traffic.Shaper.Pool.{
  Worker, ranging, holding, finished, Caller, sending, waiting, receiving_errors, Pool, count,
  Takes, Processes, Finishes, Step, send, close_work, take_link, process_link, finish, wait,
  receive_error, end_errors, receive_stats, end_stats,
}
use tcsss.Traffic.Shaper.Pool.Invariant.{weigh, weigh-middle, Inv, length-push, length-report}

pub worker_count_le : (n : ℕ) → worker_count n ≤ 4
unfolding worker_count
worker_count_le n = ground arith

-- How many steps are left at most.
abbrev pub phase_steps : Caller → ℕ
phase_steps (sending links) = 4 * length links + 3
phase_steps waiting = 2
phase_steps (receiving_errors acc) = 1
phase_steps _ = 0

abbrev pub worker_steps : Worker → ℕ
worker_steps (ranging st) = 1
worker_steps (holding link st) = 3
worker_steps finished = 0

unfoldable pub measure : Pool → ℕ
measure p =
    phase_steps p.caller
    + 3 * length p.work_ch.queue
    + length p.err_ch.queue
    + weigh worker_steps p.workers

module _ (process : Env → Link → M Shaper (Bool × Option GoError)) where
  take_measure : {p q : Pool} → Takes process p q → measure q < measure p
  unfolding measure
  take_measure t = rw t.result (
      omega (
        arith,
        ap length t.is_head,
        ap (weigh worker_steps) t.is_worker,
        weigh-middle worker_steps t.before (ranging t.st) t.behind,
        weigh-middle worker_steps t.before (holding t.link t.st) t.behind,
      ))

  process_measure : {p q : Pool} → Processes process p q → measure q < measure p
  unfolding measure
  process_measure {p} t =
      let r = (process t.seen t.link t.shaper_seen).0 in
      rw t.result (
        omega (
          arith,
          length-report r p.err_ch,
          ap (weigh worker_steps) t.is_worker,
          weigh-middle worker_steps t.before (holding t.link t.st) t.behind,
          weigh-middle worker_steps t.before (ranging (count r t.st)) t.behind,
        ))

  finish_measure : {p q : Pool} → Finishes process p q → measure q < measure p
  unfolding measure
  finish_measure f = rw f.result (
      omega (
        arith,
        ap (weigh worker_steps) f.is_worker,
        weigh-middle worker_steps f.before (ranging f.st) f.behind,
        weigh-middle worker_steps f.before finished f.behind,
      ))

  pub Step_measure : {p q : Pool} → Step process p q → Inv p → measure q < measure p
  unfolding measure
  Step_measure {p} (send link rest c room e) v =
      rw e (omega (arith, ap phase_steps c, length-push p.work_ch.queue link))
  Step_measure (close_work c e) v = rw e (omega (arith, ap phase_steps c))
  Step_measure (take_link t) v = take_measure t
  Step_measure (process_link t) v = process_measure t
  Step_measure (finish f) v = finish_measure f
  Step_measure (wait c a e) v = rw e (omega (arith, ap phase_steps c))
  Step_measure (receive_error acc x rest c h e) v =
      rw e (omega (arith, ap phase_steps c, ap length h))
  Step_measure (end_errors acc c h cl e) v = cc (v.err_open)
  Step_measure (receive_stats acc total st rest c h e) v = absurd (rw c at v.phase)
  Step_measure (end_stats acc total c h cl e) v = absurd (rw c at v.phase)
