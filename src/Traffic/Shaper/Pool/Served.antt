-- ===== src/Traffic/Shaper/Pool/Served.antt =====
-- `applyToLinks`: every step keeps the links visited and pending, and what has been sent.
use tcsss.Prelude.{
  ℕ, ◌≡◌, refl, sym, ap, Bool, false, Option, none, List, [], ◌∷◌, ◌++◌, M, length, arith,
}
use mathlib.Core.List.Perm
use mathlib.Core.List.{Perm, append_assoc, perm_middle}
use tcsss.Errors.{GoError}
use tcsss.Traffic.Env.{Env, Link, Shaper}
use tcsss.Traffic.Shaper.Process.{worker_count}
use tcsss.Traffic.Shaper.Pool.{
  ranging, holding, finished, Pool, start, count, no_stats, Takes, Processes, Finishes, Step, send,
  close_work, take_link, process_link, finish, wait, receive_error, end_errors, receive_stats,
  end_stats, Reach, here, next,
}
use tcsss.Traffic.Shaper.Pool.Invariant.{Inv, weigh, weigh-middle, start-Inv}
use tcsss.Traffic.Shaper.Pool.Hang.{Reach-Inv}
use tcsss.Traffic.Shaper.Pool.Visits.{
  held-append, held-replicate, tally-replicate, queue-report, as_list-add, sum_by-push,
  unsent_links, held, as_list, received, sent, Visit, links_of, links_of-snoc, errors, counted,
  errors-snoc, counted-snoc, tally_of, pending, Served,
}

-- A worker that comes to hold a link.
perm_take :
    (hb hh : List Link) (link : Link) (rest : List Link)
    → Perm ((hb ++ (link ∷ hh)) ++ rest) ((hb ++ hh) ++ (link ∷ rest))
perm_take hb hh link rest =
    Perm.trans {l₂ = link ∷ (hb ++ (hh ++ rest))}
      (rw (append_assoc hb (link ∷ hh) rest) (perm_middle hb (hh ++ rest)))
      (rw (← append_assoc hb hh rest) (Perm.symm (perm_middle (hb ++ hh) rest)))

-- A link that goes from the pending ones to the processed ones.
perm_process :
    (order hb hh : List Link) (link : Link) (rest : List Link)
    → Perm ((order ++ (link ∷ [])) ++ ((hb ++ hh) ++ rest)) (order ++ ((hb ++ (link ∷ hh)) ++ rest))
perm_process order hb hh link rest =
    rw
      (
        append_assoc order (link ∷ []) ((hb ++ hh) ++ rest),
        append_assoc hb hh rest,
        append_assoc hb (link ∷ hh) rest,
      )
      (Perm.append_left order (Perm.symm (perm_middle hb (hh ++ rest))))

module _ (process : Env → Link → M Shaper (Bool × Option GoError)) (links : List Link)
    (s : Shaper) where
  take-Served : {p q : Pool} → Takes process p q → Served process links p → Served process links q
  take-Served {p} t v =
      let later : Perm
          (held (t.before ++ (holding t.link t.st ∷ t.behind)) ++ (t.rest ++ unsent_links p.caller))
          (pending p) =
        rw
          (
            t.is_worker,
            t.is_head,
            held-append t.before (holding t.link t.st ∷ t.behind),
            held-append t.before (ranging t.st ∷ t.behind),
          )
          (perm_take (held t.before) (held t.behind) t.link (t.rest ++ unsent_links p.caller)) in
      rw t.result (record {
        visits = v.visits;
        is_perm = Perm.trans (Perm.append_left (links_of v.visits) later) v.is_perm;
        at_errors = v.at_errors;
        at_stats = λ f c. omega (
          arith,
          v.at_stats f c,
          ap (weigh (tally_of f)) t.is_worker,
          weigh-middle (tally_of f) t.before (ranging t.st) t.behind,
          weigh-middle (tally_of f) t.before (holding t.link t.st) t.behind,
        );
      })

  process-Served :
      {p q : Pool} → Processes process p q → Served process links p → Served process links q
  process-Served {p} t v =
      let r = (process t.seen t.link t.shaper_seen).0 in
      let after : List Link =
        held (t.before ++ (ranging (count r t.st) ∷ t.behind))
        ++ (p.work_ch.queue ++ unsent_links p.caller) in
      let visit : Visit = record { link = t.link; seen = t.seen; shaper_seen = t.shaper_seen } in
      let later : Perm (links_of (v.visits ++ (visit ∷ [])) ++ after)
          (links_of v.visits ++ pending p) =
        rw
          (
            links_of-snoc v.visits visit,
            t.is_worker,
            held-append t.before (holding t.link t.st ∷ t.behind),
            held-append t.before (ranging (count r t.st) ∷ t.behind),
          )
          (perm_process (links_of v.visits) (held t.before) (held t.behind) t.link
            (p.work_ch.queue ++ unsent_links p.caller)) in
      rw t.result (record {
        visits = v.visits ++ (visit ∷ []);
        is_perm = Perm.trans later v.is_perm;
        at_errors =
            rw (errors-snoc process v.visits visit, ← v.at_errors, queue-report r p.err_ch)
              (sym (append_assoc (received p.caller) p.err_ch.queue (sent r)));
        at_stats = λ f c. rw (counted-snoc process f v.visits visit) (
            omega (
              arith,
              v.at_stats f c,
              c r t.st,
              ap (weigh (tally_of f)) t.is_worker,
              weigh-middle (tally_of f) t.before (holding t.link t.st) t.behind,
              weigh-middle (tally_of f) t.before (ranging (count r t.st)) t.behind,
            ));
      })

  finish-Served :
      {p q : Pool} → Finishes process p q → Served process links p → Served process links q
  finish-Served {p} t v =
      let same : held (t.before ++ (finished ∷ t.behind)) ≡ held p.workers = rw (
        t.is_worker,
        held-append t.before (finished ∷ t.behind),
        held-append t.before (ranging t.st ∷ t.behind),
      ) in
      rw t.result (record {
        visits = v.visits;
        is_perm = rw same v.is_perm;
        at_errors = v.at_errors;
        at_stats = λ f c. omega (
          arith,
          v.at_stats f c,
          sum_by-push f p.stats_ch.queue t.st,
          ap (weigh (tally_of f)) t.is_worker,
          weigh-middle (tally_of f) t.before (ranging t.st) t.behind,
          weigh-middle (tally_of f) t.before finished t.behind,
        );
      })

  pub Step-Served :
      {p q : Pool} → Step process p q → Inv p → Served process links p → Served process links q
  Step-Served {p} (send link rest c room e) i v = rw e (record {
    visits = v.visits;
    is_perm = rw (append_assoc p.work_ch.queue (link ∷ []) rest) (rw c at v.is_perm);
    at_errors = rw c at v.at_errors;
    at_stats = v.at_stats;
  })
  Step-Served {p} (close_work c e) i v = rw e (record {
    visits = v.visits;
    is_perm = rw c at v.is_perm;
    at_errors = rw c at v.at_errors;
    at_stats = v.at_stats;
  })
  Step-Served (take_link t) i v = take-Served t v
  Step-Served (process_link t) i v = process-Served t v
  Step-Served (finish f) i v = finish-Served f v
  Step-Served {p} (wait c a e) i v = rw e (record {
    visits = v.visits;
    is_perm = rw c at v.is_perm;
    at_errors = rw c at v.at_errors;
    at_stats = v.at_stats;
  })
  Step-Served {p} (receive_error acc x rest c h e) i v = rw e (record {
    visits = v.visits;
    is_perm = rw c at v.is_perm;
    at_errors =
        rw (as_list-add x acc, append_assoc (as_list acc) (x ∷ []) rest) (rw (c, h) at v.at_errors);
    at_stats = v.at_stats;
  })
  Step-Served (end_errors acc c h cl e) i v = cc (i.err_open)
  Step-Served (receive_stats acc total st rest c h e) i v = absurd (rw c at i.phase)
  Step-Served (end_stats acc total c h cl e) i v = absurd (rw c at i.phase)

  start-Served : Served process links (start links s)
  unfolding start errors counted
  start-Served = record {
    visits = [];
    is_perm = rw (held-replicate (worker_count (length links))) (Perm.refl links);
    at_errors = refl;
    at_stats = λ f c.
        tally-replicate f (worker_count (length links)) (omega (arith, c (false, none) no_stats));
  }

  pub Reach-Served : {n : ℕ} {p : Pool} → Reach process (start links s) n p → Served process links p
  Reach-Served here = start-Served
  Reach-Served (next r st) =
      Step-Served st (Reach-Inv process (start-Inv links s) r) (Reach-Served r)
