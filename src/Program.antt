-- ===== src/Program.antt =====
-- cmd/main.go, Start of crawler/service.go, Initialize of crawler/crawl/service.go and Start of
-- transport/http/http.go: the goroutines of the program, with the context that ends them and the wait
-- group that main waits for. The crawler's goroutines are those of Crawl.Pool, the file output's that
-- of Output; the channel between them has room for as many items as there may be jobs.
pub mod Sound
pub mod Reach
pub mod Measure
pub mod Ends
pub mod Loses
use nodewatch_api.Base.{
  ℕ, zero, suc, ◌+◌, ◌-◌, ◌≤◌, ◌<◌, ◌≡◌, ◌≢◌, ◌⊎◌, Bool, true, false, Option, List, [], ◌∷◌, ◌++◌,
  length,
}
use nodewatch_api.Base.Text.{Text}
use nodewatch_api.Crawl.Pool
use nodewatch_api.Crawl.Pool.{Pool, waiting, closed, new_pool}
use nodewatch_api.Output
use nodewatch_api.Output.{Output, stopped, new_output}

-- A goroutine that the wait group counts: not added yet, at work, or done.
pub data Task : Type 0 where
  unborn alive dead : Task

-- Where main is once it has started the two others: it waits for a signal, cancels the context, waits
-- for the group, and returns, with which the program is over; or the wait group has made it panic.
pub data Main : Type 0 where
  listening told joining returned crashed : Main

-- The state. `owing` workers are at work and may still send an item to the file output.
pub record Program (Item : Type 0) : Type 0 where
  pub main : Main
  pub counter : ℕ
  pub http : Task
  pub update : Task
  pub output : Task
  pub monitor : Task
  pub pool : Pool
  pub owing : ℕ
  pub out : Output Item

-- The state behind the two go statements of main.
unfoldable pub new_program : {Item : Type 0} → ℕ → Bool → Program Item
unfolding new_pool new_output
new_program concurrency has_kafka = record {
  main = listening;
  counter = 0;
  http = unborn;
  update = unborn;
  output = unborn;
  monitor = unborn;
  pool = new_pool concurrency;
  owing = 0;
  out = new_output has_kafka;
}

-- The steps that the goroutine of the file output makes itself.
abbrev pub is_own :
    {Item : Type 0} {marshal : Option Item → Text} {o p : Output Item}
    → Output.Step marshal o p
    → Bool
is_own (Output.send o x h) = false
is_own (Output.close o h) = false
is_own (Output.cancel o) = false
is_own (Output.take_item o x xs m q) = true
is_own (Output.take_nil o m q c) = true
is_own (Output.see_end o m c) = true
is_own (Output.drain o x xs m q) = true
is_own (Output.end o m q c) = true

module _ {Item : Type 0} (marshal : Option Item → Text) (concurrency : ℕ) where
  pub data Step : Program Item → Program Item → Type 0 where
    -- main.
    signal : (s : Program Item) → s.main ≡ listening → Step s (record s { main = told })
    cancel_context :
        (s : Program Item)
        → s.main ≡ told
        → Step s (record s {
          main = joining;
          pool = record s.pool { cancelled = true };
          out = record s.out { cancelled = true };
        })
    join :
        (s : Program Item)
        → s.main ≡ joining
        → s.counter ≡ 0
        → Step s (record s { main = returned })
    -- Some goroutine calls Add while main is in Wait and the counter is 0. Go tells this misuse of a group
    -- by a panic where main is still behind the Wait that the counter ended; where it has noticed, or was
    -- not waiting yet, the Add counts as in the steps below. The panic ends the process.
    misuse :
        (s : Program Item)
        → s.main ≡ joining
        → s.counter ≡ 0
        → (s.http ≡ unborn) ⊎ (s.update ≡ unborn) ⊎ ((s.update ≢ unborn) × (s.output ≡ unborn))
        → Step s (record s { main = crashed })
    -- The server of metrics, which ends with the context or with an error.
    add_http :
        (s : Program Item)
        → s.http ≡ unborn
        → Step s (record s { http = alive; counter = s.counter + 1 })
    http_done :
        (s : Program Item)
        → s.http ≡ alive
        → Step s (record s { http = dead; counter = s.counter - 1 })
    -- Initialize adds updatePeer, and then the file output.
    add_update :
        (s : Program Item)
        → s.update ≡ unborn
        → Step s (record s { update = alive; counter = s.counter + 1 })
    add_output :
        (s : Program Item)
        → s.update ≢ unborn
        → s.output ≡ unborn
        → Step s (record s { output = alive; counter = s.counter + 1 })
    -- updatePeer and its workers. One that takes a job may come to owe an item.
    pool_step :
        (s : Program Item) (p : Pool) (n : ℕ)
        → s.update ≡ alive
        → Pool.Step concurrency s.pool p
        → p.cancelled ≡ s.pool.cancelled
        → p.place ≢ closed
        → n ≤ p.busy
        → n ≤ s.owing + (p.busy - s.pool.busy)
        → Step s (record s { pool = p; owing = n })
    send_item :
        (s : Program Item) (x : Item) (n : ℕ)
        → s.owing ≡ suc n
        → length s.out.queue < concurrency
        → Step s (record s {
          owing = n;
          out = record s.out { sent = s.out.sent ++ x ∷ []; queue = s.out.queue ++ x ∷ [] };
        })
    close_channel :
        (s : Program Item) (p : Pool)
        → s.update ≡ alive
        → s.pool.place ≡ waiting
        → Pool.Step concurrency s.pool p
        → p.place ≡ closed
        → Step s (record s { pool = p; out = record s.out { closed = true } })
    update_done :
        (s : Program Item)
        → s.update ≡ alive
        → s.pool.place ≡ closed
        → Step s (record s { update = dead; counter = s.counter - 1 })
    -- The file output: it adds its monitor, and goes on by itself.
    add_monitor :
        (s : Program Item)
        → s.output ≡ alive
        → s.monitor ≡ unborn
        → Step s (record s { monitor = alive; counter = s.counter + 1 })
    output_step :
        (s : Program Item) (o : Output Item)
        → s.output ≡ alive
        → s.monitor ≢ unborn
        → (e : Output.Step marshal s.out o) → is_own e ≡ true
        → Step s (record s { out = o })
    output_done :
        (s : Program Item)
        → s.output ≡ alive
        → s.out.mode ≡ stopped
        → Step s (record s { output = dead; counter = s.counter - 1 })
    monitor_done :
        (s : Program Item)
        → s.monitor ≡ alive
        → s.out.cancelled ≡ true
        → Step s (record s { monitor = dead; counter = s.counter - 1 })

  -- A run of the program, which is over once main has returned or has crashed.
  pub data Steps : Program Item → Program Item → Type 0 where
    here : (s : Program Item) → Steps s s
    then_step :
        (s t u : Program Item)
        → Steps s t
        → t.main ≢ returned
        → t.main ≢ crashed
        → Step t u
        → Steps s u
