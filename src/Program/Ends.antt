-- ===== src/Program/Ends.antt =====
-- The program comes to its end after a signal.
use nodewatch_api.Base.{
  ℕ, suc, ◌+◌, ◌≤◌, ◌≡◌, ◌≢◌, ◌⊎◌, inl, inr, refl, sym, ◌∙◌, ap, Bool, true, Option, List, [], ◌∷◌,
  length, arith, Bool-cases, ℕ-cases,
}
use nodewatch_api.Base.Text.{Text}
use native.Mathlib.Decide.{dec_lt}
use nodewatch_api.Crawl.Pool
use nodewatch_api.Crawl.Pool.{Pool, Place, looping, waiting, closed, choosing, sending}
use nodewatch_api.Crawl.Pool.Shutdown.{HasRoom, can_go_on, Step_nearer}
use nodewatch_api.Crawl.Pool.Staff.{is_closed, closed_place, closes_from}
use nodewatch_api.Output
use nodewatch_api.Output.{Output, Mode, running, draining, stopped}
use nodewatch_api.Output.Drained.{stopped_closed}
use nodewatch_api.Program.{
  Task, unborn, alive, dead, Main, listening, told, joining, returned, crashed, Program,
  new_program, Step, join, add_http, http_done, add_update, add_output, pool_step, send_item,
  close_channel, update_done, add_monitor, output_step, output_done, monitor_done, Steps, here,
  then_step,
}
use nodewatch_api.Program.Sound.{is_over, owing_open, staffed}
use nodewatch_api.Program.Reach.{IsSound, Steps-IsSound, reached}
use nodewatch_api.Program.Measure.{steps_left, nils_of, Step_nearer_end}

Task-cases : (k : Task) → (k ≡ unborn) ⊎ ((k ≡ alive) ⊎ (k ≡ dead))
Task-cases unborn = inl refl
Task-cases alive = inr (inl refl)
Task-cases dead = inr (inr refl)

Mode-cases : (m : Mode) → (m ≡ running) ⊎ ((m ≡ draining) ⊎ (m ≡ stopped))
Mode-cases running = inl refl
Mode-cases draining = inr (inl refl)
Mode-cases stopped = inr (inr refl)

-- The program is over: main has returned, or the misuse of the wait group has made it panic.
abbrev pub HasEnded : Main → Type 0
HasEnded m = (m ≡ returned) ⊎ (m ≡ crashed)

Main-cases : (m : Main) → is_over m ≡ true → (m ≡ joining) ⊎ HasEnded m
Main-cases listening h = cc
Main-cases told h = cc
Main-cases joining h = inl refl
Main-cases returned h = inr (inl refl)
Main-cases crashed h = inr (inr refl)

list_cases : {A : Type 0} (xs : List A) → (xs ≡ []) ⊎ ((y : A) × (ys : List A) × (xs ≡ y ∷ ys))
list_cases [] = inl refl
list_cases (y ∷ ys) = inr (y, ys, refl)

module _ {Item : Type 0} (marshal : Option Item → Text) (concurrency : ℕ) where
  -- A step that some goroutine can take, and that does not take nil.
  abbrev pub Advances : Program Item → Type 0
  Advances s =
      (t : Program Item) × (e : Step marshal concurrency s t) × (nils_of marshal concurrency e ≡ 0)

  module _ (has_kafka : Bool) (s : Program Item) (h : IsSound marshal concurrency has_kafka s)
      (over : s.pool.cancelled ≡ true) where
    out_over : s.out.cancelled ≡ true
    out_over = sym h.joined.same_end ∙ over

    -- The file output goes on, where it is not stopped and does not wait for an open channel.
    output_moves :
        s.output ≡ alive
        → s.monitor ≢ unborn
        → s.out.mode ≢ stopped
        → (s.out.queue ≢ []) ⊎ (s.out.closed ≡ true)
        → Advances s
    output_moves a m r q = elim (Mode-cases s.out.mode) [
      | inl run ↦ (_, output_step s _ a m (Output.see_end s.out run out_over) refl, refl)
      | inr (inr stop) ↦ absurd (r stop)
      | inr (inl drains) ↦ elim (list_cases s.out.queue) [
        | inr (y, ys, more) ↦
            (_, output_step s _ a m (Output.drain s.out y ys drains more) refl, refl)
        | inl none_ ↦ elim q [
          | inl some_ ↦ absurd (some_ none_)
          | inr shut ↦ (_, output_step s _ a m (Output.end s.out drains none_ shut) refl, refl)
        ]
      ]
    ]

    -- The workers go on, or close the channel.
    pool_moves :
        (p : Pool)
        → s.update ≡ alive
        → s.pool.place ≢ closed
        → Pool.Step concurrency s.pool p
        → Advances s
    pool_moves p a n e = elim (Bool-cases (is_closed p.place)) [
      | inr open_ ↦ (
        _,
        pool_step s p 0 a e ((Step_nearer concurrency e over).0 ∙ sym over)
            (λ c. ground (arith, ap is_closed c)) (omega arith) (omega arith),
        refl,
      )
      | inl shut ↦
          let c = closed_place p.place shut in
          (_, close_channel s p a (closes_from concurrency e c n) e c, refl)
    ]

    -- The crawler and the file output, once all goroutines have been added and no worker owes an item.
    none_owed :
        HasRoom concurrency s.pool
        → s.owing ≡ 0
        → s.update ≢ unborn
        → s.output ≢ unborn
        → s.monitor ≡ dead
        → Advances s ⊎ ((s.update ≡ dead) × (s.output ≡ dead))
    none_owed room o u v m = elim (Task-cases s.update) [
      | inl e ↦ absurd (u e)
      | inr (inl a) ↦ inl (elim (can_go_on concurrency s.pool over) [
        | inl c ↦ (_, update_done s a c, refl)
        | inr (inl stuck) ↦
            let space = room stuck.requests stuck.at_send in absurd (omega (arith, stuck.full))
        | inr (inr (p, e)) ↦ elim (Bool-cases (is_closed s.pool.place)) [
          | inl shut ↦ (_, update_done s a (closed_place s.pool.place shut), refl)
          | inr open_ ↦ pool_moves p a (λ c. ground (arith, ap is_closed c)) e
        ]
      ])
      | inr (inr d) ↦
          let shut = h.joined.same_close ∙ ap is_closed (h.placed.update_closed d) in
          elim (Task-cases s.output) [
            | inl e ↦ absurd (v e)
            | inr (inr gone) ↦ inr (d, gone)
            | inr (inl a) ↦ inl (elim (Mode-cases s.out.mode) [
              | inr (inr stop) ↦ (_, output_done s a stop, refl)
              | inl run ↦ output_moves a (λ e. ground arith) (λ e. ground arith) (inr shut)
              | inr (inl drains) ↦ output_moves a (λ e. ground arith) (λ e. ground arith) (inr shut)
            ])
          ]
    ]

    -- A worker that owes an item can send it, or the file output makes room for it.
    owed : (x : Item) (n : ℕ) → s.owing ≡ suc n → s.output ≢ unborn → s.monitor ≡ dead → Advances s
    owed x n o v m = elim (dec_lt (length s.out.queue) concurrency) [
      | yes room ↦ (_, send_item s x n o room, refl)
      | no full ↦
          let open_ = owing_open marshal concurrency h.joined o in
          let few = (staffed marshal concurrency h.joined).few in
          let filled : s.out.queue ≢ [] =
            λ e. let l = ap length e in omega (arith, few, h.joined.bounded) in
          let runs : s.out.mode ≢ stopped = λ e.
            let (_, shut) = stopped_closed marshal has_kafka s.out h.joined.out_run e in
            ground arith in
          elim (Task-cases s.output) [
            | inl e ↦ absurd (v e)
            | inr (inr gone) ↦ absurd (runs (h.placed.output_stopped gone))
            | inr (inl a) ↦ output_moves a (λ e. ground arith) runs (inl filled)
          ]
    ]

    -- Until main returns, some goroutine can go on.
    goes_on : (x : Item) → HasRoom concurrency s.pool → HasEnded s.main ⊎ Advances s
    goes_on x room = elim (Main-cases s.main (sym h.counting.heard ∙ over)) [
      | inr r ↦ inl r
      | inl j ↦ inr (elim (Task-cases s.http) [
        | inl e ↦ (_, add_http s e, refl)
        | inr (inl e) ↦ (_, http_done s e, refl)
        | inr (inr no_http) ↦ elim (Task-cases s.update) [
          | inl e ↦ (_, add_update s e, refl)
          | inr u ↦ elim (Task-cases s.output) [
            | inl e ↦ (_, add_output s (λ f. ground arith) e, refl)
            | inr v ↦ elim (Task-cases s.monitor) [
              | inr (inl e) ↦ (_, monitor_done s e out_over, refl)
              | inl e ↦ elim v [
                | inl a ↦ (_, add_monitor s a e, refl)
                | inr d ↦
                    absurd (ground (arith, h.placed.output_stopped d, h.placed.monitor_first e))
              ]
              | inr (inr m) ↦ elim (ℕ-cases s.owing) [
                | inr (n, o) ↦ owed x n o (λ f. ground arith) m
                | inl o ↦ elim (none_owed room o (λ f. ground arith) (λ f. ground arith) m) [
                  | inl moves ↦ moves
                  | inr (d, g) ↦ (_, join s j (ground (arith, h.counting.counted)), refl)
                ]
              ]
            ]
          ]
        ]
      ])
    ]

  -- The number of steps of a run, and of those in which the file output takes nil.
  abbrev pub count_steps : {s t : Program Item} → Steps marshal concurrency s t → ℕ
  count_steps (here s) = 0
  count_steps (then_step s t u r l k e) = suc (count_steps r)

  abbrev pub count_nils : {s t : Program Item} → Steps marshal concurrency s t → ℕ
  count_nils (here s) = 0
  count_nils (then_step s t u r l k e) = nils_of marshal concurrency e + count_nils r

  run_nearer :
      {s t : Program Item} (r : Steps marshal concurrency s t)
      → s.pool.cancelled ≡ true
      → HasRoom concurrency s.pool
      → (t.pool.cancelled ≡ true)
        × HasRoom concurrency t.pool
        × (count_steps r + steps_left t ≤ steps_left s + count_nils r)
  run_nearer (here s) c h = (c, h, omega arith)
  run_nearer (then_step s t u r l k e) c h =
      let (c', h', near) = run_nearer r c h in
      let (c2, h2, nearer) = Step_nearer_end marshal concurrency e c' h' in (c2, h2, omega arith)

  -- When the context ends, at any time of a run, while updatePeer is not at a full channel of jobs, the
  -- whole program comes to its end: every run from there has at most as many steps as there were left,
  -- not counting those in which the file output takes nil from its closed channel; and in each of its
  -- states main has returned, the misuse of the wait group has made Go panic, or some goroutine can
  -- take a step, and none of nil.
  pub program_ends :
      (has_kafka : Bool) (x : Item) (s t : Program Item)
      → Steps marshal concurrency (new_program concurrency has_kafka) s
      → s.pool.cancelled ≡ true
      → HasRoom concurrency s.pool
      → (r : Steps marshal concurrency s t)
      → (count_steps r ≤ steps_left s + count_nils r) × (HasEnded t.main ⊎ Advances t)
  program_ends has_kafka x s t before c h r =
      let (c', h', near) = run_nearer r c h in
      let sound =
        Steps-IsSound marshal concurrency r (reached marshal concurrency has_kafka s before) in
      (omega arith, goes_on has_kafka t sound c' x h')
