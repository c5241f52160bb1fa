-- ===== src/Crawl/Pool.antt =====
-- updatePeer, selectPendingAndExecute, runBGWorkersPool and bgWorker of crawler/crawl/crawl.go as
-- goroutines that meet at the channel of jobs: who waits for whom until the file output's channel is
-- closed. What is done to the peers is in Crawl.
pub mod Shutdown
pub mod Blocks
pub mod Staff
use nodewatch_api.Base.{ℕ, zero, suc, ◌+◌, ◌≤◌, ◌<◌, ◌≡◌, Bool, true, false}

-- Where updatePeer is: at its select, in the loop over the requests with some of them left, at the
-- channel of jobs with a request in hand, waiting for the workers, or done, the channel closed.
pub data Place : Type 0 where
  looping waiting closed : Place
  choosing : ℕ → Place
  sending : ℕ → Place

-- The state: whether the context is done, where updatePeer is, how many jobs the channel holds, and how
-- many workers are at their select or at work.
pub record Pool : Type 0 where
  pub cancelled : Bool
  pub place : Place
  pub queued : ℕ
  pub idle : ℕ
  pub busy : ℕ

-- After runBGWorkersPool.
unfoldable pub new_pool : ℕ → Pool
new_pool concurrency = record {
  cancelled = false;
  place = looping;
  queued = 0;
  idle = concurrency;
  busy = 0;
}

-- The channel of jobs has room for `concurrency` of them, and ListForJob gives at most as many requests.
module _ (concurrency : ℕ) where
  pub data Step : Pool → Pool → Type 0 where
    cancel : (s : Pool) → s.cancelled ≡ false → Step s (record s { cancelled = true })
    -- updatePeer goes on, or sees the end of the context.
    list_jobs :
        (s : Pool) (n : ℕ)
        → s.cancelled ≡ false
        → s.place ≡ looping
        → n ≤ concurrency
        → Step s (record s { place = choosing n })
    see_end :
        (s : Pool) → s.cancelled ≡ true → s.place ≡ looping → Step s (record s { place = waiting })
    -- A request that cannot be updated is passed over; with the end of the context the loop is left;
    -- else the request is to be sent.
    pass_over :
        (s : Pool) (n : ℕ) → s.place ≡ choosing (suc n) → Step s (record s { place = choosing n })
    leave :
        (s : Pool) (n : ℕ)
        → s.place ≡ choosing (suc n)
        → s.cancelled ≡ true
        → Step s (record s { place = looping })
    go_on :
        (s : Pool) (n : ℕ)
        → s.place ≡ choosing (suc n)
        → s.cancelled ≡ false
        → Step s (record s { place = sending n })
    no_more : (s : Pool) → s.place ≡ choosing 0 → Step s (record s { place = looping })
    send_job :
        (s : Pool) (n : ℕ)
        → s.place ≡ sending n
        → s.queued < concurrency
        → Step s (record s { place = choosing n; queued = s.queued + 1 })
    -- A worker takes a job, is done with it, or sees the end of the context and returns. If both the
    -- end and a job are there, either may be chosen.
    take_job :
        (s : Pool) (i q : ℕ)
        → s.idle ≡ suc i
        → s.queued ≡ suc q
        → Step s (record s { idle = i; queued = q; busy = s.busy + 1 })
    finish_job :
        (s : Pool) (b : ℕ) → s.busy ≡ suc b → Step s (record s { busy = b; idle = s.idle + 1 })
    return_worker :
        (s : Pool) (i : ℕ) → s.cancelled ≡ true → s.idle ≡ suc i → Step s (record s { idle = i })
    -- All workers have returned: the channel of the file output is closed.
    close_output :
        (s : Pool)
        → s.place ≡ waiting
        → s.idle ≡ 0
        → s.busy ≡ 0
        → Step s (record s { place = closed })

  pub data Steps : Pool → Pool → Type 0 where
    here : (s : Pool) → Steps s s
    then_step : (s t u : Pool) → Steps s t → Step t u → Steps s u
