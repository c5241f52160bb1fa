-- ===== src/Program/Reach.antt =====
-- What holds in every state that the program reaches, and what main leaves behind when it returns.
use nodewatch_api.Base.{
  ℕ, suc, ◌-◌, ◌<◌, ◌≡◌, ◌≢◌, ◌⊎◌, refl, ◌∙◌, ap, Bool, false, Option, List, map, arith,
}
use nodewatch_api.Base.Text.{Text}
use nodewatch_api.Crawl.Pool
use nodewatch_api.Crawl.Pool.{Pool, waiting, closed, new_pool}
use nodewatch_api.Crawl.Pool.Staff.{is_closed}
use nodewatch_api.Output
use nodewatch_api.Output.{Output, running, stopped, new_output}
use nodewatch_api.Output.Drained.{items, stopped_complete}
use nodewatch_api.Program.{
  Task, unborn, alive, dead, returned, Program, new_program, Step, signal, cancel_context, join,
  misuse, add_http, http_done, add_update, add_output, pool_step, send_item, close_channel,
  update_done, add_monitor, output_step, output_done, monitor_done, Steps, here, then_step,
}
use nodewatch_api.Program.Sound.{
  IsCounted, Step-IsCounted, AreJoined, Step-IsJoined, owing_open, staffed,
}

Task-dead : (k : Task) → k ≢ unborn → k ≢ alive → k ≡ dead
Task-dead unborn u a = absurd (u refl)
Task-dead alive u a = absurd (a refl)
Task-dead dead u a = refl

suc_pred : (n : ℕ) → 0 < n → n ≡ suc (n - 1)
suc_pred n h = omega arith

module _ {Item : Type 0} (marshal : Option Item → Text) (concurrency : ℕ) where
  -- Where the goroutines are when they are done, and that the crawler's comes before the file output's.
  pub record ArePlaced (s : Program Item) : Type 0 where
    pub update_closed : s.update ≡ dead → s.pool.place ≡ closed
    pub output_stopped : s.output ≡ dead → s.out.mode ≡ stopped
    pub update_first : s.update ≡ unborn → s.output ≡ unborn
    pub output_first : s.output ≡ unborn → s.monitor ≡ unborn
    pub monitor_first : s.monitor ≡ unborn → s.out.mode ≡ running

  Step-ArePlaced : {s t : Program Item} → Step marshal concurrency s t → ArePlaced s → ArePlaced t
  Step-ArePlaced (signal s m) h = ground arith
  Step-ArePlaced (cancel_context s m) h = ground arith
  Step-ArePlaced (join s m z) h = ground arith
  Step-ArePlaced (misuse s m z a) h = ground arith
  Step-ArePlaced (add_http s e) h = ground arith
  Step-ArePlaced (http_done s e) h = ground arith
  Step-ArePlaced (add_update s e) h = ground arith
  Step-ArePlaced (add_output s e u) h = ground arith
  Step-ArePlaced (pool_step s p n u e c k l m) h = ground arith
  Step-ArePlaced (send_item s x n o l) h = ground arith
  Step-ArePlaced (close_channel s p u w e c) h = ground arith
  Step-ArePlaced (update_done s u e) h = ground arith
  Step-ArePlaced (add_monitor s o e) h = ground arith
  Step-ArePlaced (output_step s o b m e k) h = ground arith
  Step-ArePlaced (output_done s o e) h = ground arith
  Step-ArePlaced (monitor_done s m e) h = ground arith

  pub record IsSound (has_kafka : Bool) (s : Program Item) : Type 0 where
    pub counting : IsCounted marshal concurrency s
    pub joined : AreJoined marshal concurrency has_kafka s
    pub placed : ArePlaced s

  new_program-IsSound : (has_kafka : Bool) → IsSound has_kafka (new_program concurrency has_kafka)
  unfolding new_program new_pool new_output
  new_program-IsSound has_kafka = record {
    counting = ground arith;
    joined = record {
      pool_run = Pool.here _;
      out_run = Output.here _;
      same_end = refl;
      same_close = refl;
      bounded = omega arith;
    };
    placed = ground arith;
  }

  pub Step-IsSound :
      {has_kafka : Bool} {s t : Program Item}
      → s.main ≢ returned
      → Step marshal concurrency s t
      → IsSound has_kafka s
      → IsSound has_kafka t
  Step-IsSound r e h = record {
    counting = Step-IsCounted marshal concurrency e r h.counting;
    joined = Step-IsJoined marshal concurrency e h.counting.heard h.joined;
    placed = Step-ArePlaced e h.placed;
  }

  pub Steps-IsSound :
      {has_kafka : Bool} {s t : Program Item}
      → Steps marshal concurrency s t
      → IsSound has_kafka s
      → IsSound has_kafka t
  Steps-IsSound (here s) h = h
  Steps-IsSound (then_step s t u r l k e) h = Step-IsSound l e (Steps-IsSound r h)

  pub reached :
      (has_kafka : Bool) (t : Program Item)
      → Steps marshal concurrency (new_program concurrency has_kafka) t
      → IsSound has_kafka t
  reached has_kafka t r = Steps-IsSound r (new_program-IsSound has_kafka)

  -- Nothing that the crawler hands over is lost: when main has returned, whatever the order of the steps
  -- was, no goroutine that was added to the wait group is still at work; if updatePeer was added, its
  -- workers are all gone; and if the file output was added, each item that a worker ever sent was handed
  -- to the file's writer as one line, in the order in which they were sent, with no other lines but
  -- those of nil.
  pub returned_complete :
      (has_kafka : Bool) (t : Program Item)
      → Steps marshal concurrency (new_program concurrency has_kafka) t
      → t.main ≡ returned
      → ((t.http ≢ alive) × (t.update ≢ alive) × (t.output ≢ alive) × (t.monitor ≢ alive))
        × (t.update ≢ unborn → (t.pool.idle ≡ 0) × (t.pool.busy ≡ 0))
        × (t.output ≢ unborn
            → (received : List (Option Item)) × (t.out.lines ≡ map marshal received)
              × (items received ≡ t.out.sent))
  returned_complete has_kafka t r m =
      let h = reached has_kafka t r in
      let z = h.counting.ended m in
      let c = h.counting.counted in
      let p = h.placed in
      let http_over : t.http ≢ alive = ground arith in
      let update_over : t.update ≢ alive = ground arith in
      let output_over : t.output ≢ alive = ground arith in
      (
        (http_over, update_over, output_over, ground arith),
        (λ u.
            (staffed marshal concurrency h.joined).left
              (p.update_closed (Task-dead t.update u update_over))),
        λ u.
            stopped_complete marshal has_kafka t.out h.joined.out_run
              (p.output_stopped (Task-dead t.output u output_over)),
      )

  -- The channel is never closed twice and nothing is sent on it once it is closed, and the counter of the
  -- wait group never becomes negative, at any time of a run: a worker that is to send an item finds the
  -- channel open, and so does updatePeer where it waits for the workers to close it; and whenever some
  -- goroutine has still to call Done, the counter is not 0. An Add while main waits at 0 is not excluded.
  pub channel_and_counter_lem :
      (has_kafka : Bool) (t : Program Item)
      → Steps marshal concurrency (new_program concurrency has_kafka) t
      → (0 < t.owing → t.out.closed ≡ false)
        × (t.pool.place ≡ waiting → t.out.closed ≡ false)
        × (((t.http ≡ alive) ⊎ (t.update ≡ alive)) ⊎ ((t.output ≡ alive) ⊎ (t.monitor ≡ alive))
            → 0 < t.counter)
  channel_and_counter_lem has_kafka t r =
      let h = reached has_kafka t r in
      let c = h.counting.counted in
      (
        (λ o. owing_open marshal concurrency h.joined (suc_pred t.owing o)),
        (λ w. h.joined.same_close ∙ ap is_closed w),
        λ a. ground arith,
      )
