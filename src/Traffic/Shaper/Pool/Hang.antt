-- ===== src/Traffic/Shaper/Pool/Hang.antt =====
-- `applyToLinks` never returns once there is a link: the error channel is closed by a deferred call
-- only, and the loop that must end before the return waits for it to be closed.
use tcsss.Prelude.{
  ℕ, ◌+◌, ◌*◌, ◌≡◌, ◌≤◌, refl, ap, Bool, true, false, Option, List, [], ◌∷◌, ◌++◌, M, length, arith,
  ◌⊎◌, inl, inr,
}
use tcsss.Errors.{GoError, GoErrors}
use tcsss.Traffic.Env.{Env, Link, Shaper}
use tcsss.Traffic.Shaper.Process.{worker_count}
use tcsss.Traffic.Shaper.Pool.{
  Worker, ranging, holding, finished, Caller, sending, waiting, receiving_errors, receiving_stats,
  returned, Pool, start, AllFinished, none_left, one_more, Step, send, close_work, take_link,
  process_link, finish, wait, receive_error, Reach, here, next,
}
use tcsss.Traffic.Shaper.Pool.Invariant.{
  unsent, weigh, weigh-middle, is_holding, is_live, Inv, length-report, weigh-replicate, Step-Inv,
  start-Inv,
}
use tcsss.Traffic.Shaper.Pool.Measure.{worker_count_le, worker_steps, measure, Step_measure}

abbrev pub has_returned : Caller → Bool
has_returned (returned e) = true
has_returned _ = false

-- All workers are done, or one of them is not.
AllFinished-or :
    (ws : List Worker)
    → AllFinished ws
      ⊎ ((before : List Worker) × (w : Worker) × (behind : List Worker) × (ws
            ≡ before ++ (w ∷ behind))
          × (is_live w ≡ 1))
AllFinished-or [] = inl none_left
AllFinished-or (ranging st ∷ ws) = inr ([], ranging st, ws, refl, refl)
AllFinished-or (holding link st ∷ ws) = inr ([], holding link st, ws, refl, refl)
AllFinished-or (finished ∷ ws) = elim (AllFinished-or ws) [
  | inl a ↦ inl (one_more a)
  | inr (before, w, behind, e, live) ↦ inr (finished ∷ before, w, behind, ap (◌∷◌ finished) e, live)
]

-- The caller waits at the empty error channel, which is open.
pub record IsBlocked (p : Pool) : Type 0 where
  pub acc : GoErrors
  pub at_errors : p.caller ≡ receiving_errors acc
  pub no_error : p.err_ch.queue ≡ []
  pub is_open : p.err_ch.closed ≡ false

module _ (process : Env → Link → M Shaper (Bool × Option GoError)) where
  -- A worker that has not finished makes a step, once all links are sent.
  worker_step :
      (env : Env) (p : Pool)
      → Inv p
      → (work : List Link) → p.work_ch.queue ≡ work
      → p.work_ch.closed ≡ true
      → (before : List Worker) (w : Worker) (behind : List Worker)
      → p.workers ≡ before ++ (w ∷ behind)
      → is_live w ≡ 1
      → (q : Pool) × Step process p q
  worker_step env p v work h cl before (holding link st) behind w live = (
    _,
    process_link (record {
      before = before;
      st = st;
      behind = behind;
      link = link;
      seen = env;
      shaper_seen = p.shaper;
      left = (process env link p.shaper).1;
      is_worker = w;
      room = omega (
        arith,
        length-report (process env link p.shaper).0 p.err_ch,
        v.room_for_errors,
        ap (weigh is_holding) w,
        weigh-middle is_holding before (holding link st) behind,
      );
      result = refl;
    }),
  )
  worker_step env p v [] h cl before (ranging st) behind w live = (
    _,
    finish (record {
      before = before;
      st = st;
      behind = behind;
      is_worker = w;
      is_empty = h;
      is_closed = cl;
      room = omega (
        arith,
        v.room_for_stats,
        ap (weigh is_live) w,
        weigh-middle is_live before (ranging st) behind,
      );
      result = refl;
    }),
  )
  worker_step env p v (link ∷ rest) h cl before (ranging st) behind w live = (
    _,
    take_link (record {
      before = before;
      st = st;
      behind = behind;
      link = link;
      rest = rest;
      is_worker = w;
      is_head = h;
      result = refl;
    }),
  )
  worker_step env p v work h cl before finished behind w live = absurd (omega arith)

  abbrev pub Next : Pool → Type 0
  Next p = (q : Pool) × Step process p q

  -- A pool that keeps the invariant makes a step, or is blocked.
  progress_at : (env : Env) (p : Pool) → Inv p → (c : Caller) → p.caller ≡ c → Next p ⊎ IsBlocked p
  progress_at env p v (sending []) c = inl (_, close_work c refl)
  progress_at env p v (sending (link ∷ rest)) c =
      inl (_, send link rest c (omega (arith, v.room_for_work, ap unsent c)) refl)
  progress_at env p v waiting c = elim (AllFinished-or p.workers) [
    | inl a ↦ inl (_, wait c a refl)
    | inr (before, w, behind, e, live) ↦
        inl (worker_step env p v p.work_ch.queue refl (rw c at v.phase) before w behind e live)
  ]
  progress_at env p v (receiving_errors acc) c = receive p.err_ch.queue refl
    where
      receive : (errs : List GoError) → p.err_ch.queue ≡ errs → Next p ⊎ IsBlocked p
      receive [] h = inr (record { acc = acc; at_errors = c; no_error = h; is_open = v.err_open })
      receive (e ∷ rest) h = inl (_, receive_error acc e rest c h refl)
  progress_at env p v (receiving_stats acc total) c = absurd (rw c at v.phase)
  progress_at env p v (returned e) c = absurd (rw c at v.phase)

  pub Reach-Inv : {p q : Pool} {n : ℕ} → Inv p → Reach process p n q → Inv q
  Reach-Inv v here = v
  Reach-Inv v (next r st) = Step-Inv process st (Reach-Inv v r)

  Reach_measure : {p q : Pool} {n : ℕ} → Inv p → Reach process p n q → n + measure q ≤ measure p
  Reach_measure v here = omega arith
  Reach_measure v (next r st) =
      omega (arith, Reach_measure v r, Step_measure process st (Reach-Inv v r))

  Inv-not_returned :
      (p : Pool) → Inv p → (c : Caller) → p.caller ≡ c → has_returned p.caller ≡ false
  Inv-not_returned p v (returned e) h = absurd (rw h at v.phase)
  Inv-not_returned p v (sending links) h = rw h
  Inv-not_returned p v waiting h = rw h
  Inv-not_returned p v (receiving_errors acc) h = rw h
  Inv-not_returned p v (receiving_stats acc total) h = rw h

  measure-start : (links : List Link) (s : Shaper) → measure (start links s) ≤ 4 * length links + 7
  unfolding measure start
  measure-start links s = omega (
    arith,
    weigh-replicate worker_steps (worker_count (length links)),
    worker_count_le (length links),
  )

  -- However its goroutines interleave, and whatever `processLink` returns, `applyToLinks` makes at most
  -- `4 * n + 7` steps for its `n` links, never returns, and in each state that it reaches it has a
  -- next step or waits for ever at the error channel, which is empty and not closed.
  pub apply_to_links_hangs :
      (env : Env) (links : List Link) (s : Shaper) {n : ℕ} {p : Pool}
      → Reach process (start links s) n p
      → (n ≤ 4 * length links + 7) × (has_returned p.caller ≡ false) × (Next p ⊎ IsBlocked p)
  apply_to_links_hangs env links s {p = p} r =
      let v = Reach-Inv (start-Inv links s) r in
      (
        omega (arith, Reach_measure (start-Inv links s) r, measure-start links s),
        Inv-not_returned p v p.caller refl,
        progress_at env p v p.caller refl,
      )
