-- ===== src/Program/Sound.antt =====
-- What holds at any time of a run of the program: the counter of the wait group is that of the tasks at
-- work, and the channel between the crawler and the file output is used as Go allows.
use nodewatch_api.Base.{
  ℕ, suc, ◌+◌, ◌≤◌, ◌≡◌, ◌≢◌, refl, sym, ◌∙◌, ap, Bool, true, false, Option, arith,
}
use nodewatch_api.Base.Text.{Text}
use nodewatch_api.Crawl.Pool
use nodewatch_api.Crawl.Pool.{Pool, new_pool}
use nodewatch_api.Crawl.Pool.Staff.{
  is_closed, open_place, IsStaffed, new_pool-IsStaffed, run-IsStaffed, closing, closed_stays,
}
use nodewatch_api.Output
use nodewatch_api.Output.{Output, Mode, running, draining, stopped, new_output}
use nodewatch_api.Program.{
  Task, unborn, alive, dead, Main, listening, told, joining, returned, crashed, Program, is_own,
  Step, signal, cancel_context, join, misuse, add_http, http_done, add_update, add_output,
  pool_step, send_item, close_channel, update_done, add_monitor, output_step, output_done,
  monitor_done,
}

abbrev pub live : Task → ℕ
live unborn = 0
live alive = 1
live dead = 0

abbrev pub is_over : Main → Bool
is_over listening = false
is_over told = false
is_over joining = true
is_over returned = true
is_over crashed = true

module _ {Item : Type 0} (marshal : Option Item → Text) (concurrency : ℕ) where
  -- What the file output's own steps leave alone.
  own_step :
      {o p : Output Item} (e : Output.Step marshal o p)
      → is_own e ≡ true
      → (p.closed ≡ o.closed) × (p.cancelled ≡ o.cancelled) × (p.sent ≡ o.sent)
  unfolding Output.write_item Output.drain_item Output.flush_all
  own_step (Output.send o x h) k = cc
  own_step (Output.close o h) k = cc
  own_step (Output.cancel o) k = cc
  own_step (Output.take_item o x xs m q) k = (refl, refl, refl)
  own_step (Output.take_nil o m q c) k = (refl, refl, refl)
  own_step (Output.see_end o m c) k = (refl, refl, refl)
  own_step (Output.drain o x xs m q) k = (refl, refl, refl)
  own_step (Output.end o m q c) k = (refl, refl, refl)

  -- The counter is that of the tasks at work; main waits for it only once the context is done, and has
  -- returned only if it was 0.
  pub record IsCounted (s : Program Item) : Type 0 where
    pub counted : s.counter ≡ live s.http + (live s.update + (live s.output + live s.monitor))
    pub ended : s.main ≡ returned → s.counter ≡ 0
    pub heard : s.pool.cancelled ≡ is_over s.main
    pub heard_too : s.out.cancelled ≡ is_over s.main

  pub Step-IsCounted :
      {s t : Program Item}
      → Step marshal concurrency s t
      → s.main ≢ returned
      → IsCounted s
      → IsCounted t
  Step-IsCounted (signal s m) r h = ground arith
  Step-IsCounted (cancel_context s m) r h = ground arith
  Step-IsCounted (join s m z) r h = ground arith
  Step-IsCounted (misuse s m z a) r h = ground arith
  Step-IsCounted (add_http s e) r h = ground arith
  Step-IsCounted (http_done s e) r h = ground arith
  Step-IsCounted (add_update s e) r h = ground arith
  Step-IsCounted (add_output s e u) r h = ground arith
  Step-IsCounted (pool_step s p n u e c k l m) r h = ground arith
  Step-IsCounted (send_item s x n o l) r h = ground arith
  Step-IsCounted (close_channel s p u w e c) r h = ground (arith, closing concurrency e w c)
  Step-IsCounted (update_done s u e) r h = ground arith
  Step-IsCounted (add_monitor s o e) r h = ground arith
  Step-IsCounted (output_step s o b m e k) r h = ground (arith, own_step e k)
  Step-IsCounted (output_done s o e) r h = ground arith
  Step-IsCounted (monitor_done s m e) r h = ground arith

  -- The crawler and the file output have made runs of their own, joined at the channel and the context.
  pub record IsJoined (has_kafka : Bool) (p : Pool) (n : ℕ) (o : Output Item) : Type 0 where
    pub pool_run : Pool.Steps concurrency (new_pool concurrency) p
    pub out_run : Output.Steps marshal (new_output has_kafka) o
    pub same_end : p.cancelled ≡ o.cancelled
    pub same_close : o.closed ≡ is_closed p.place
    pub bounded : n ≤ p.busy

  abbrev pub AreJoined : Bool → Program Item → Type 0
  AreJoined has_kafka s = IsJoined has_kafka s.pool s.owing s.out

  pub staffed :
      {has_kafka : Bool} {p : Pool} {n : ℕ} {o : Output Item}
      → IsJoined has_kafka p n o
      → IsStaffed concurrency p
  staffed h = run-IsStaffed concurrency h.pool_run (new_pool-IsStaffed concurrency)

  -- While a worker owes an item, the channel is open.
  pub owing_open :
      {has_kafka : Bool} {p : Pool} {n m : ℕ} {o : Output Item}
      → IsJoined has_kafka p n o
      → n ≡ suc m
      → o.closed ≡ false
  owing_open {p} h e =
      h.same_close
      ∙ open_place p.place
          (λ f. let (_, none_) = (staffed h).left f in absurd (omega (arith, h.bounded)))

  pub Step-IsJoined :
      {has_kafka : Bool} {s t : Program Item}
      → Step marshal concurrency s t
      → s.pool.cancelled ≡ is_over s.main
      → AreJoined has_kafka s
      → AreJoined has_kafka t
  Step-IsJoined (signal s m) r h = h
  Step-IsJoined (cancel_context s m) r h = record {
    pool_run = Pool.then_step _ _ _ h.pool_run (Pool.cancel s.pool (r ∙ ap is_over m));
    out_run = Output.then_step _ _ _ h.out_run (Output.cancel s.out);
    same_end = refl;
    same_close = h.same_close;
    bounded = h.bounded;
  }
  Step-IsJoined (join s m z) r h = h
  Step-IsJoined (misuse s m z a) r h = h
  Step-IsJoined (add_http s e) r h = h
  Step-IsJoined (http_done s e) r h = h
  Step-IsJoined (add_update s e) r h = h
  Step-IsJoined (add_output s e u) r h = h
  Step-IsJoined (pool_step s p n u e c k l m) r h = record {
    pool_run = Pool.then_step _ _ _ h.pool_run e;
    out_run = h.out_run;
    same_end = c ∙ h.same_end;
    same_close =
        h.same_close
        ∙ open_place s.pool.place (λ f. k (closed_stays concurrency e f))
        ∙ sym (open_place p.place k);
    bounded = l;
  }
  Step-IsJoined (send_item s x n o l) r h = record {
    pool_run = h.pool_run;
    out_run = Output.then_step _ _ _ h.out_run (Output.send s.out x (owing_open h o));
    same_end = h.same_end;
    same_close = h.same_close;
    bounded = omega (arith, h.bounded);
  }
  Step-IsJoined (close_channel s p u w e c) r h =
      let (same, busy, _) = closing concurrency e w c in
      record {
        pool_run = Pool.then_step _ _ _ h.pool_run e;
        out_run =
            Output.then_step _ _ _ h.out_run (Output.close s.out (h.same_close ∙ ap is_closed w));
        same_end = same ∙ h.same_end;
        same_close = sym (ap is_closed c);
        bounded = omega (arith, h.bounded);
      }
  Step-IsJoined (update_done s u e) r h = h
  Step-IsJoined (add_monitor s o e) r h = h
  Step-IsJoined (output_step s o b m e k) r h =
      let (shut, end_, _) = own_step e k in
      record {
        pool_run = h.pool_run;
        out_run = Output.then_step _ _ _ h.out_run e;
        same_end = h.same_end ∙ sym end_;
        same_close = shut ∙ h.same_close;
        bounded = h.bounded;
      }
  Step-IsJoined (output_done s o e) r h = h
  Step-IsJoined (monitor_done s m e) r h = h
