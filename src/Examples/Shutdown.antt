-- ===== src/Examples/Shutdown.antt =====
-- A run of the whole program with one worker, from its start to the return of main.
use nodewatch_api.Base.{
  ℕ, ◌+◌, ◌<◌, ◌≤◌, ◌≡◌, ◌≢◌, ◌⊎◌, refl, Bool, true, false, Option, some, none, List, [], ◌∷◌, map,
  arith,
}
use nodewatch_api.Base.Text.{Text, codes}
use nodewatch_api.Crawl.Pool
use nodewatch_api.Crawl.Pool.{Pool, Place, looping, waiting, closed, choosing, sending, new_pool}
use nodewatch_api.Output
use nodewatch_api.Output.{Output, running, draining, stopped}
use nodewatch_api.Output.Drained.{items}
use nodewatch_api.Program.{
  unborn, alive, dead, listening, joining, returned, crashed, Program, new_program, Step, signal,
  cancel_context, join, add_http, http_done, add_output, pool_step, close_channel, update_done,
  add_monitor, output_step, output_done, monitor_done, Steps, here, then_step,
}
use nodewatch_api.Program.Reach.{returned_complete, channel_and_counter_lem}
use nodewatch_api.Program.Measure.{steps_left}
use nodewatch_api.Program.Ends.{Advances, HasEnded, count_steps, count_nils, program_ends}
use nodewatch_api.Program.Loses.{sends, may_lose_item, may_crash}

abbrev line_of : Option ℕ → Text
line_of none = codes "null"
line_of (some n) = n ∷ []

abbrev Runs : Program ℕ → Program ℕ → Type 0
Runs s t = Steps line_of 1 s t

abbrev start : Program ℕ
start = new_program 1 false

abbrev pool_at : Bool → Place → ℕ → ℕ → Pool
pool_at c p i b = record { cancelled = c; place = p; queued = 0; idle = i; busy = b }

-- What the file output has made of the item 7.
abbrev out_at : Bool → Output.Mode → Bool → Output ℕ
out_at c m d = record {
  sent = 7 ∷ [];
  queue = [];
  closed = d;
  cancelled = c;
  mode = m;
  lines = (7 ∷ []) ∷ [];
  batch = [];
  messages = [];
  has_kafka = false;
}

abbrev at_work : Program ℕ
at_work = record {
  main = listening;
  counter = 4;
  http = alive;
  update = alive;
  output = alive;
  monitor = alive;
  pool = pool_at false looping 1 0;
  owing = 0;
  out = out_at false running false;
}

abbrev ending : Program ℕ
ending = record at_work {
  main = joining;
  pool = pool_at true looping 1 0;
  out = out_at true running false;
}

abbrev all_over : Program ℕ
all_over = record {
  main = returned;
  counter = 0;
  http = dead;
  update = dead;
  output = dead;
  monitor = dead;
  pool = pool_at true closed 0 0;
  owing = 0;
  out = out_at true stopped true;
}

onwards :
    {s t u : Program ℕ}
    → Runs s t
    → t.main ≢ returned
    → t.main ≢ crashed
    → Step line_of 1 t u
    → Runs s u
onwards {s} {t} {u} r m k e = then_step s t u r m k e

to_ending : Runs start ending
unfolding Output.write_item
to_ending =
    let s0 = sends line_of 1 false 7 0 refl in
    let s1 = onwards s0 (λ e. cc) (λ e. cc) (add_output _ (λ e. cc) refl) in
    let s2 = onwards s1 (λ e. cc) (λ e. cc) (add_monitor _ refl refl) in
    let s3 = onwards s2 (λ e. cc) (λ e. cc) (add_http _ refl) in
    let s4 =
      onwards s3 (λ e. cc) (λ e. cc)
        (output_step _ _ refl (λ e. cc) (Output.take_item _ 7 [] refl refl) refl) in
    let s5 =
      onwards s4 (λ e. cc) (λ e. cc)
        (pool_step _ _ 0 refl (Pool.finish_job _ 0 refl) refl (λ e. cc) (omega arith)
          (omega arith)) in
    onwards (onwards s5 (λ e. cc) (λ e. cc) (signal _ refl)) (λ e. cc) (λ e. cc)
      (cancel_context _ refl)

to_end : Runs ending all_over
unfolding Output.flush_all
to_end =
    let s0 =
      onwards (here ending) (λ e. cc) (λ e. cc)
        (pool_step _ _ 0 refl (Pool.see_end _ refl refl) refl (λ e. cc) (omega arith)
          (omega arith)) in
    let s1 =
      onwards s0 (λ e. cc) (λ e. cc)
        (pool_step _ _ 0 refl (Pool.return_worker _ 0 refl refl) refl (λ e. cc) (omega arith)
          (omega arith)) in
    let s2 =
      onwards s1 (λ e. cc) (λ e. cc)
        (close_channel _ _ refl refl (Pool.close_output _ refl refl refl) refl) in
    let s3 = onwards s2 (λ e. cc) (λ e. cc) (update_done _ refl refl) in
    let s4 =
      onwards s3 (λ e. cc) (λ e. cc)
        (output_step _ _ refl (λ e. cc) (Output.see_end _ refl refl) refl) in
    let s5 =
      onwards s4 (λ e. cc) (λ e. cc)
        (output_step _ _ refl (λ e. cc) (Output.end _ refl refl refl) refl) in
    let s6 = onwards s5 (λ e. cc) (λ e. cc) (output_done _ refl refl) in
    let s7 = onwards s6 (λ e. cc) (λ e. cc) (monitor_done _ refl refl) in
    onwards (onwards s7 (λ e. cc) (λ e. cc) (http_done _ refl)) (λ e. cc) (λ e. cc)
      (join _ refl refl)

after : {s t u : Program ℕ} → Runs s t → Runs t u → Runs s u
after r (here s) = r
after r (then_step s t u q m k e) = then_step _ t u (after r q) m k e

returned_complete_example :
    ((all_over.http ≢ alive)
      × (all_over.update ≢ alive)
      × (all_over.output ≢ alive)
      × (all_over.monitor ≢ alive))
    × (all_over.update ≢ unborn → (all_over.pool.idle ≡ 0) × (all_over.pool.busy ≡ 0))
    × (all_over.output ≢ unborn
        → (received : List (Option ℕ)) × (all_over.out.lines ≡ map line_of received)
          × (items received ≡ all_over.out.sent))
returned_complete_example = returned_complete line_of 1 false all_over (after to_ending to_end) refl

channel_and_counter_lem_example :
    (0 < ending.owing → ending.out.closed ≡ false)
    × (ending.pool.place ≡ waiting → ending.out.closed ≡ false)
    × (((ending.http ≡ alive) ⊎ (ending.update ≡ alive))
          ⊎ ((ending.output ≡ alive) ⊎ (ending.monitor ≡ alive))
        → 0 < ending.counter)
channel_and_counter_lem_example = channel_and_counter_lem line_of 1 false ending to_ending

program_ends_example :
    (count_steps line_of 1 to_end ≤ steps_left ending + count_nils line_of 1 to_end)
    × (HasEnded all_over.main ⊎ Advances line_of 1 all_over)
program_ends_example =
    program_ends line_of 1 false 7 ending all_over to_ending refl (λ n e. cc) to_end

may_lose_item_example :
    (t : Program ℕ) × Steps line_of 4 (new_program 4 false) t
    × (t.main ≡ returned)
    × (t.output ≡ unborn)
    × (t.out.sent ≡ 7 ∷ [])
    × (t.out.lines ≡ [])
may_lose_item_example = may_lose_item line_of 4 false 7 (omega arith)

-- The run in which updatePeer joins the wait group too late, with four workers.
crash_reached :
    (t : Program ℕ) × Steps line_of 4 (new_program 4 false) t
    × (t.main ≡ crashed)
    × (t.http ≡ dead)
    × (t.update ≡ unborn)
crash_reached = may_crash line_of 4 false
