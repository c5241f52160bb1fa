-- ===== src/Crawl/Pool/Blocks.antt =====
-- A shutdown that never ends.
use nodewatch_api.Base.{
  ℕ, zero, suc, ◌+◌, ◌≤◌, ◌<◌, ◌≡◌, ◌≢◌, refl, sym, ◌∙◌, ap, subst, true, false, arith,
}
use nodewatch_api.Crawl.Pool.{
  Place, looping, closed, choosing, sending, Pool, new_pool, Step, cancel, list_jobs, see_end,
  pass_over, leave, go_on, no_more, send_job, take_job, finish_job, return_worker, close_output,
  Steps, here, then_step,
}
use nodewatch_api.Crawl.Pool.Shutdown.{IsStuck}

module _ (concurrency : ℕ) where
  -- Nothing goes on from a stuck state.
  stuck_stays :
      {s t : Pool} → s.cancelled ≡ true → IsStuck concurrency s → Steps concurrency s t → s ≡ t
  stuck_stays c h (here s) = refl
  stuck_stays c h (then_step s t u r e) =
      let same = stuck_stays c h r in
      absurd
        (no_step (subst (λ x. x.cancelled ≡ true) same c) (subst (IsStuck concurrency) same h) e)
    where
      no_step : {x y : Pool} → x.cancelled ≡ true → IsStuck concurrency x → Step concurrency x y → ⊥
      no_step c h (cancel s e) = ground arith
      no_step c h (list_jobs s n e p l) = ground arith
      no_step c h (see_end s e p) = let q = h.at_send in cc
      no_step c h (pass_over s n p) = let q = h.at_send in cc
      no_step c h (leave s n p e) = let q = h.at_send in cc
      no_step c h (go_on s n p e) = let q = h.at_send in cc
      no_step c h (no_more s p) = let q = h.at_send in cc
      no_step c h (send_job s n p e) = omega (arith, h.full)
      no_step c h (take_job s i q e k) = omega (arith, h.none_idle)
      no_step c h (finish_job s b e) = omega (arith, h.none_busy)
      no_step c h (return_worker s i e k) = omega (arith, h.none_idle)
      no_step c h (close_output s p e k) = let q = h.at_send in cc

  Steps-trans :
      {s t u : Pool} → Steps concurrency s t → Steps concurrency t u → Steps concurrency s u
  Steps-trans r (here t) = r
  Steps-trans r (then_step t v u q e) = then_step _ v u (Steps-trans r q) e

  -- The state while the context lasts.
  abbrev at_place : Place → ℕ → ℕ → ℕ → Pool
  at_place p q i b = record { cancelled = false; place = p; queued = q; idle = i; busy = b }

  -- A request that is sent and stays in the channel, and one that is taken by a worker.
  leave_queued :
      (n q i b : ℕ)
      → q < concurrency
      → Steps concurrency (at_place (choosing (suc n)) q i b) (at_place (choosing n) (q + 1) i b)
  leave_queued n q i b h =
      then_step _ (at_place (sending n) q i b) _ (then_step _ _ _ (here _) (go_on _ n refl refl))
        (send_job _ n refl h)

  hand_over :
      (n i b : ℕ)
      → 1 ≤ concurrency
      → Steps concurrency
          (at_place (choosing (suc n)) 0 (suc i) b)
          (at_place (choosing n) 0 i (b + 1))
  hand_over n i b h =
      then_step _ _ _ (leave_queued n 0 (suc i) b (omega arith)) (take_job _ i 0 refl refl)

  -- All workers get a job, the channel is filled, and the next list is asked for.
  fill_workers :
      (i b : ℕ)
      → 1 ≤ concurrency
      → Steps concurrency (at_place (choosing i) 0 i b) (at_place (choosing 0) 0 0 (b + i))
  fill_workers zero b h =
      let same : b ≡ b + 0 = omega arith in
      subst (λ x. Steps concurrency (at_place (choosing 0) 0 0 b) (at_place (choosing 0) 0 0 x))
        same (here _)
  fill_workers (suc i) b h =
      let same : b + 1 + i ≡ b + suc i = omega arith in
      subst
        (λ x.
          Steps concurrency (at_place (choosing (suc i)) 0 (suc i) b) (at_place (choosing 0) 0 0 x))
        same (Steps-trans (hand_over i i b h) (fill_workers i (b + 1) h))

  fill_queue :
      (n q b : ℕ)
      → q + n ≤ concurrency
      → Steps concurrency (at_place (choosing n) q 0 b) (at_place (choosing 0) (q + n) 0 b)
  fill_queue zero q b h =
      let same : q ≡ q + 0 = omega arith in
      subst (λ x. Steps concurrency (at_place (choosing 0) q 0 b) (at_place (choosing 0) x 0 b))
        same (here _)
  fill_queue (suc n) q b h =
      let same : q + 1 + n ≡ q + suc n = omega arith in
      subst
        (λ x. Steps concurrency (at_place (choosing (suc n)) q 0 b) (at_place (choosing 0) x 0 b))
        same
        (Steps-trans (leave_queued n q 0 b (omega arith)) (fill_queue n (q + 1) b (omega arith)))

  list_again :
      (n q i b : ℕ)
      → n ≤ concurrency
      → Steps concurrency (at_place (choosing 0) q i b) (at_place (choosing n) q i b)
  list_again n q i b h =
      then_step _ (at_place looping q i b) _ (then_step _ _ _ (here _) (no_more _ refl))
        (list_jobs _ n refl refl h)

  -- The state once the context is done, with a request in hand.
  abbrev in_hand : ℕ → ℕ → ℕ → Pool
  in_hand q i b = record { cancelled = true; place = sending 0; queued = q; idle = i; busy = b }

  finish_all : (q i b : ℕ) → Steps concurrency (in_hand q i b) (in_hand q (i + b) 0)
  finish_all q i zero =
      let same : i ≡ i + 0 = omega arith in
      subst (λ x. Steps concurrency (in_hand q i 0) (in_hand q x 0)) same (here _)
  finish_all q i (suc b) =
      let same : i + 1 + b ≡ i + suc b = omega arith in
      subst (λ x. Steps concurrency (in_hand q i (suc b)) (in_hand q x 0)) same
        (Steps-trans (then_step _ _ _ (here _) (finish_job _ b refl)) (finish_all q (i + 1) b))

  return_all : (q i : ℕ) → Steps concurrency (in_hand q i 0) (in_hand q 0 0)
  return_all q zero = here _
  return_all q (suc i) =
      Steps-trans (then_step _ _ _ (here _) (return_worker _ i refl refl)) (return_all q i)

  all_at_work :
      1 ≤ concurrency
      → Steps concurrency (new_pool concurrency) (at_place (choosing 0) 0 0 (0 + concurrency))
  unfolding new_pool
  all_at_work h =
      Steps-trans (then_step _ _ _ (here _) (list_jobs _ concurrency refl refl (omega arith)))
        (fill_workers concurrency 0 h)

  queue_full :
      (b : ℕ)
      → 1 ≤ concurrency
      → Steps concurrency (at_place (choosing 0) 0 0 b) (in_hand (0 + concurrency) 0 b)
  queue_full b h =
      then_step _ _ _
        (then_step _ _ _
          (Steps-trans
            (Steps-trans (list_again concurrency 0 0 b (omega arith))
              (fill_queue concurrency 0 b (omega arith)))
            (list_again 1 (0 + concurrency) 0 b h))
          (go_on _ 0 refl refl))
        (cancel _ refl)

  -- With at least one worker, the crawler can get into a state after the end of the context in which it
  -- stays for ever, and the channel of the file output is not closed: all workers are at work, the
  -- channel of jobs is full, and updatePeer is about to send one more request; then the context ends,
  -- and each worker sees this before it takes another job.
  pub shutdown_may_block :
      1 ≤ concurrency
      → (s : Pool) × Steps concurrency (new_pool concurrency) s
        × (s.cancelled ≡ true)
        × IsStuck concurrency s
        × ((t : Pool) → Steps concurrency s t → (t ≡ s) × (t.place ≢ closed))
  shutdown_may_block h =
      let c = concurrency in
      let s : Pool = in_hand (0 + c) 0 0 in
      let stuck : IsStuck c s = record {
        requests = 0;
        at_send = refl;
        full = omega arith;
        none_idle = refl;
        none_busy = refl;
      } in
      (
        s,
        Steps-trans (all_at_work h) (
            Steps-trans (queue_full (0 + c) h)
              (Steps-trans (finish_all (0 + c) 0 (0 + c)) (return_all (0 + c) (0 + (0 + c))))),
        refl,
        stuck,
        λ t r.
            let same = stuck_stays refl stuck r in
            (sym same, λ e. let p = ap (λ x. x.place) same ∙ e in cc),
      )
