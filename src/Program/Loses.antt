-- ===== src/Program/Loses.antt =====
-- What may go wrong because goroutines are added to the wait group while main may wait for it.
use nodewatch_api.Base.{
  ℕ, zero, suc, ◌+◌, ◌-◌, ◌≤◌, ◌≡◌, ◌≢◌, refl, inl, inr, Bool, true, false, Option, List, [], ◌∷◌,
  arith,
}
use nodewatch_api.Base.Text.{Text}
use nodewatch_api.Crawl.Pool
use nodewatch_api.Crawl.Pool.{Pool, Place, looping, waiting, closed, choosing, sending, new_pool}
use nodewatch_api.Output.{Output, running, new_output}
use nodewatch_api.Program.{
  Task, unborn, alive, dead, Main, listening, joining, returned, crashed, Program, new_program,
  Step, signal, cancel_context, join, misuse, add_http, http_done, add_update, pool_step, send_item,
  close_channel, update_done, Steps, here, then_step,
}

module _ {Item : Type 0} (marshal : Option Item → Text) (concurrency : ℕ) (has_kafka : Bool) where
  -- The states of the run: only updatePeer is added.
  abbrev pub state : Main → Task → ℕ → Pool → ℕ → Output Item → Program Item
  state m u n p owing o = record {
    main = m;
    counter = n;
    http = unborn;
    update = u;
    output = unborn;
    monitor = unborn;
    pool = p;
    owing = owing;
    out = o;
  }

  abbrev pub Runs : Program Item → Program Item → Type 0
  Runs s t = Steps marshal concurrency s t

  pub step :
      {s t u : Program Item}
      → Runs s t
      → t.main ≢ returned
      → t.main ≢ crashed
      → Step marshal concurrency t u
      → Runs s u
  step {s} {t} {u} r m k e = then_step s t u r m k e

  abbrev pub pool_at : Bool → Place → ℕ → ℕ → ℕ → Pool
  pool_at c p q i b = record { cancelled = c; place = p; queued = q; idle = i; busy = b }

  -- Once the context is done, the workers return.
  return_all :
      (i n : ℕ) (o : Output Item) (s : Program Item)
      → Runs s (state joining alive n (pool_at true waiting 0 i 0) 0 o)
      → Runs s (state joining alive n (pool_at true waiting 0 0 0) 0 o)
  return_all zero n o s r = r
  return_all (suc i) n o s r = return_all i n o s (
      step r (λ e. cc) (λ e. cc)
        (pool_step _ _ 0 refl (Pool.return_worker _ i refl refl) refl (λ e. cc) (omega arith)
          (omega arith)))

  abbrev pub out_with : Bool → Bool → List Item → Output Item
  out_with c d items_ = record {
    sent = items_;
    queue = items_;
    closed = d;
    cancelled = c;
    mode = running;
    lines = [];
    batch = [];
    messages = [];
    has_kafka = has_kafka;
  }

  -- A worker gets a job and sends an item.
  pub sends :
      (x : Item) (i : ℕ)
      → concurrency ≡ suc i
      → Runs
          (new_program concurrency has_kafka)
          (state listening alive 1 (pool_at false looping 0 i 1) 0 (out_with false false (x ∷ [])))
  unfolding new_program new_pool new_output
  sends x i e =
      let s0 = new_program concurrency has_kafka in
      let o = out_with false false [] in
      let s1 : Runs s0 (state listening alive 1 (pool_at false looping 0 concurrency 0) 0 o) =
        step (here s0) (λ e. cc) (λ e. cc) (add_update s0 refl) in
      let s2 : Runs s0 (state listening alive 1 (pool_at false (choosing 1) 0 concurrency 0) 0 o) =
        step s1 (λ e. cc) (λ e. cc)
          (pool_step _ _ 0 refl (Pool.list_jobs _ 1 refl refl (omega arith)) refl (λ e. cc)
            (omega arith) (omega arith)) in
      let s3 : Runs s0 (state listening alive 1 (pool_at false (sending 0) 0 concurrency 0) 0 o) =
        step s2 (λ e. cc) (λ e. cc)
          (pool_step _ _ 0 refl (Pool.go_on _ 0 refl refl) refl (λ e. cc) (omega arith)
            (omega arith)) in
      let s4 : Runs s0 (state listening alive 1 (pool_at false (choosing 0) 1 concurrency 0) 0 o) =
        step s3 (λ e. cc) (λ e. cc)
          (pool_step _ _ 0 refl (Pool.send_job _ 0 refl (omega arith)) refl (λ e. cc) (omega arith)
            (omega arith)) in
      let s5 : Runs s0 (state listening alive 1 (pool_at false (choosing 0) 0 i 1) 1 o) =
        step s4 (λ e. cc) (λ e. cc)
          (pool_step _ _ 1 refl (Pool.take_job _ i 0 e refl) refl (λ e. cc) (omega arith)
            (omega arith)) in
      let s6 : Runs s0 (state listening alive 1 (pool_at false looping 0 i 1) 1 o) =
        step s5 (λ e. cc) (λ e. cc)
          (pool_step _ _ 1 refl (Pool.no_more _ refl) refl (λ e. cc) (omega arith) (omega arith)) in
      step s6 (λ e. cc) (λ e. cc) (send_item _ x 0 refl (omega arith))

  -- The context ends, all workers return, and main too.
  ends :
      (x : Item) (i : ℕ) (s : Program Item)
      → Runs s
          (state listening alive 1 (pool_at false looping 0 i 1) 0 (out_with false false (x ∷ [])))
      → Runs s (state returned dead 0 (pool_at true closed 0 0 0) 0 (out_with true true (x ∷ [])))
  ends x i s r =
      let o = out_with false false (x ∷ []) in
      let o' = out_with true false (x ∷ []) in
      let s1 : Runs s (state listening alive 1 (pool_at false looping 0 (i + 1) 0) 0 o) =
        step r (λ e. cc) (λ e. cc)
          (pool_step _ _ 0 refl (Pool.finish_job _ 0 refl) refl (λ e. cc) (omega arith)
            (omega arith)) in
      let s2 : Runs s (state joining alive 1 (pool_at true looping 0 (i + 1) 0) 0 o') =
        step (step s1 (λ e. cc) (λ e. cc) (signal _ refl)) (λ e. cc) (λ e. cc)
          (cancel_context _ refl) in
      let s3 : Runs s (state joining alive 1 (pool_at true waiting 0 (i + 1) 0) 0 o') =
        step s2 (λ e. cc) (λ e. cc)
          (pool_step _ _ 0 refl (Pool.see_end _ refl refl) refl (λ e. cc) (omega arith)
            (omega arith)) in
      let s4 : Runs s (state joining alive 1 (pool_at true waiting 0 i 0) 0 o') =
        step s3 (λ e. cc) (λ e. cc)
          (pool_step _ _ 0 refl (Pool.return_worker _ i refl (omega arith)) refl (λ e. cc)
            (omega arith) (omega arith)) in
      let s5 : Runs s
          (state joining alive 1 (pool_at true closed 0 0 0) 0 (out_with true true (x ∷ []))) =
        step (return_all i 1 o' s s4) (λ e. cc) (λ e. cc)
          (close_channel _ _ refl refl (Pool.close_output _ refl refl refl) refl) in
      step (step s5 (λ e. cc) (λ e. cc) (update_done _ refl refl)) (λ e. cc) (λ e. cc)
        (join _ refl refl)

  -- With at least one worker, an item that a worker has sent may be lost: updatePeer runs from the wait
  -- group's first Add, and main may return before the file output is added to the group.
  pub may_lose_item :
      (x : Item)
      → 1 ≤ concurrency
      → (t : Program Item) × Steps marshal concurrency (new_program concurrency has_kafka) t
        × (t.main ≡ returned)
        × (t.output ≡ unborn)
        × (t.out.sent ≡ x ∷ [])
        × (t.out.lines ≡ [])
  may_lose_item x h =
      let i = concurrency - 1 in (_, ends x i _ (sends x i (omega arith)), refl, refl, refl, refl)

  -- The misuse of the wait group can happen: the context ends while only the server of metrics is in the
  -- group, main waits, the server is done, and updatePeer is added before main has returned from Wait.
  pub may_crash :
      (t : Program Item) × Steps marshal concurrency (new_program concurrency has_kafka) t
      × (t.main ≡ crashed)
      × (t.http ≡ dead)
      × (t.update ≡ unborn)
  unfolding new_program new_pool new_output
  may_crash =
      let s0 = new_program concurrency has_kafka in
      let s2 =
        step (step (here s0) (λ e. cc) (λ e. cc) (add_http s0 refl)) (λ e. cc) (λ e. cc)
          (signal _ refl) in
      let s3 = step s2 (λ e. cc) (λ e. cc) (cancel_context _ refl) in
      let s4 = step s3 (λ e. cc) (λ e. cc) (http_done _ refl) in
      (_, step s4 (λ e. cc) (λ e. cc) (misuse _ refl refl (inr (inl refl))), refl, refl, refl)
