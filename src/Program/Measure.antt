-- ===== src/Program/Measure.antt =====
-- How much the program has left to do once its context is done.
use nodewatch_api.Base.{
  ℕ, ◌+◌, ◌-◌, ◌*◌, ◌<◌, ◌≡◌, refl, true, Option, [], ◌∷◌, length, length-append, arith, ◌∙◌, ap,
}
use nodewatch_api.Base.Text.{Text}
use nodewatch_api.Crawl.Pool
use nodewatch_api.Crawl.Pool.{Pool, waiting, closed}
use nodewatch_api.Crawl.Pool.Shutdown.{work_left, HasRoom, Step_nearer, Step-HasRoom}
use nodewatch_api.Output
use nodewatch_api.Output.{Output, Mode, running, draining, stopped}
use nodewatch_api.Program.{
  Task, unborn, alive, dead, Main, listening, told, joining, returned, crashed, Program, is_own,
  Step, signal, cancel_context, join, misuse, add_http, http_done, add_update, add_output,
  pool_step, send_item, close_channel, update_done, add_monitor, output_step, output_done,
  monitor_done,
}

abbrev pub task_left : Task → ℕ
task_left unborn = 2
task_left alive = 1
task_left dead = 0

abbrev pub mode_left : Mode → ℕ
mode_left running = 2
mode_left draining = 1
mode_left stopped = 0

abbrev pub main_left : Main → ℕ
main_left listening = 3
main_left told = 2
main_left joining = 1
main_left returned = 0
main_left crashed = 0

module _ {Item : Type 0} where
  abbrev pub out_left : Output Item → ℕ
  out_left o = length o.queue + mode_left o.mode

  abbrev pub tasks_left : Program Item → ℕ
  tasks_left s =
      task_left s.http + (task_left s.update + (task_left s.output + task_left s.monitor))

  abbrev pub steps_left : Program Item → ℕ
  steps_left s = main_left s.main + tasks_left s + (work_left s.pool + 2 * s.owing) + out_left s.out

  -- Whether the file output takes nil from the closed channel.
  abbrev pub takes_nil :
      {marshal : Option Item → Text} {o p : Output Item} → Output.Step marshal o p → ℕ
  takes_nil (Output.send o x h) = 0
  takes_nil (Output.close o h) = 0
  takes_nil (Output.cancel o) = 0
  takes_nil (Output.take_item o x xs m q) = 0
  takes_nil (Output.take_nil o m q c) = 1
  takes_nil (Output.see_end o m c) = 0
  takes_nil (Output.drain o x xs m q) = 0
  takes_nil (Output.end o m q c) = 0

-- A step of the workers brings the end nearer, also when a job is taken that may give an item.
work_nearer :
    (concurrency : ℕ) {p q : Pool}
    → Pool.Step concurrency p q
    → p.cancelled ≡ true
    → work_left q + 2 * (q.busy - p.busy) < work_left p
work_nearer k (Pool.cancel s h) c = absurd (ground arith)
work_nearer k (Pool.list_jobs s n h p l) c = absurd (ground arith)
work_nearer k (Pool.see_end s h p) c = rw p (omega arith)
work_nearer k (Pool.pass_over s n p) c = rw p (omega arith)
work_nearer k (Pool.leave s n p h) c = rw p (omega arith)
work_nearer k (Pool.go_on s n p h) c = absurd (ground arith)
work_nearer k (Pool.no_more s p) c = rw p (omega arith)
work_nearer k (Pool.send_job s n p h) c = rw p (omega arith)
work_nearer k (Pool.take_job s i q h l) c = omega arith
work_nearer k (Pool.finish_job s b h) c = omega arith
work_nearer k (Pool.return_worker s i h l) c = omega arith
work_nearer k (Pool.close_output s p h l) c = rw p (omega arith)

module _ {Item : Type 0} (marshal : Option Item → Text) (concurrency : ℕ) where
  -- So does a step of the file output, unless it takes nil.
  out_nearer :
      {o p : Output Item} (e : Output.Step marshal o p)
      → is_own e ≡ true
      → out_left p < out_left o + takes_nil e
  unfolding Output.write_item Output.drain_item Output.flush_all
  out_nearer (Output.send o x h) k = absurd (ground arith)
  out_nearer (Output.close o h) k = absurd (ground arith)
  out_nearer (Output.cancel o) k = absurd (ground arith)
  out_nearer (Output.take_item o x xs m q) k = let n = ap length q in omega arith
  out_nearer (Output.take_nil o m q c) k = omega arith
  out_nearer (Output.see_end o m c) k = rw m (omega arith)
  out_nearer (Output.drain o x xs m q) k = let n = ap length q in omega arith
  out_nearer (Output.end o m q c) k = rw m (omega arith)

  abbrev pub nils_of : {s t : Program Item} → Step marshal concurrency s t → ℕ
  nils_of (signal s m) = 0
  nils_of (cancel_context s m) = 0
  nils_of (join s m z) = 0
  nils_of (misuse s m z a) = 0
  nils_of (add_http s e) = 0
  nils_of (http_done s e) = 0
  nils_of (add_update s e) = 0
  nils_of (add_output s e u) = 0
  nils_of (pool_step s p n u e c k l m) = 0
  nils_of (send_item s x n o l) = 0
  nils_of (close_channel s p u w e c) = 0
  nils_of (update_done s u e) = 0
  nils_of (add_monitor s o e) = 0
  nils_of (output_step s o b m e k) = takes_nil e
  nils_of (output_done s o e) = 0
  nils_of (monitor_done s m e) = 0

  -- Once the context is done it stays so, no request waits at a full channel of jobs, and each step
  -- leaves less to do, unless it takes nil.
  pub Step_nearer_end :
      {s t : Program Item} (e : Step marshal concurrency s t)
      → s.pool.cancelled ≡ true
      → HasRoom concurrency s.pool
      → (t.pool.cancelled ≡ true)
        × HasRoom concurrency t.pool
        × (steps_left t < steps_left s + nils_of e)
  Step_nearer_end (signal s m) c h = (c, h, rw m (omega arith))
  Step_nearer_end (cancel_context s m) c h = (refl, h, rw m (omega arith))
  Step_nearer_end (join s m z) c h = (c, h, rw m (omega arith))
  Step_nearer_end (misuse s m z a) c h = (c, h, rw m (omega arith))
  Step_nearer_end (add_http s e) c h = (c, h, rw e (omega arith))
  Step_nearer_end (http_done s e) c h = (c, h, rw e (omega arith))
  Step_nearer_end (add_update s e) c h = (c, h, rw e (omega arith))
  Step_nearer_end (add_output s e u) c h = (c, h, rw u (omega arith))
  Step_nearer_end (pool_step s p n u e d k l m) c h =
      let near = work_nearer concurrency e c in (d ∙ c, Step-HasRoom concurrency e c h, omega arith)
  Step_nearer_end (send_item s x n o l) c h =
      let longer = length-append s.out.queue (x ∷ []) in (c, h, omega arith)
  Step_nearer_end (close_channel s p u w e d) c h =
      let (c', near) = Step_nearer concurrency e c in
      (c', Step-HasRoom concurrency e c h, omega arith)
  Step_nearer_end (update_done s u e) c h = (c, h, rw u (omega arith))
  Step_nearer_end (add_monitor s o e) c h = (c, h, rw e (omega arith))
  Step_nearer_end (output_step s o b m e k) c h = let near = out_nearer e k in (c, h, omega arith)
  Step_nearer_end (output_done s o e) c h = (c, h, rw o (omega arith))
  Step_nearer_end (monitor_done s m e) c h = (c, h, rw m (omega arith))
