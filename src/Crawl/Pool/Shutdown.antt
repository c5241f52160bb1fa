-- ===== src/Crawl/Pool/Shutdown.antt =====
-- How the crawler's goroutines come to an end once the context is done.
use nodewatch_api.Base.{
  ℕ, zero, suc, ◌+◌, ◌*◌, ◌≤◌, ◌<◌, ◌≡◌, ◌⊎◌, inl, inr, refl, true, arith, ℕ-cases,
}
use native.Mathlib.Decide.{dec_lt}
use nodewatch_api.Crawl.Pool.{
  Place, looping, waiting, closed, choosing, sending, Pool, Step, cancel, list_jobs, see_end,
  pass_over, leave, go_on, no_more, send_job, take_job, finish_job, return_worker, close_output,
  Steps, here, then_step,
}

-- How far updatePeer is from its end once the context is done, counted in steps that it may need.
abbrev pub distance : Place → ℕ
distance closed = 0
distance waiting = 1
distance looping = 2
distance (choosing n) = 3 + 5 * n
distance (sending n) = 8 + 5 * n

abbrev pub work_left : Pool → ℕ
work_left s = distance s.place + 4 * s.queued + 2 * s.busy + s.idle

-- The state in which nothing can go on: a request is to be sent, the channel is full, and no worker is
-- left to take a job from it.
pub record IsStuck (concurrency : ℕ) (s : Pool) : Type 0 where
  pub requests : ℕ
  pub at_send : s.place ≡ sending requests
  pub full : concurrency ≤ s.queued
  pub none_idle : s.idle ≡ 0
  pub none_busy : s.busy ≡ 0

module _ (concurrency : ℕ) where
  -- Once the context is done it stays so, and every step brings the end nearer.
  pub Step_nearer :
      {s t : Pool}
      → Step concurrency s t
      → s.cancelled ≡ true
      → (t.cancelled ≡ true) × (work_left t < work_left s)
  Step_nearer (cancel s h) c = absurd (ground arith)
  Step_nearer (list_jobs s n h p l) c = absurd (ground arith)
  Step_nearer (see_end s h p) c = rw p (c, omega arith)
  Step_nearer (pass_over s n p) c = rw p (c, omega arith)
  Step_nearer (leave s n p h) c = rw p (c, omega arith)
  Step_nearer (go_on s n p h) c = absurd (ground arith)
  Step_nearer (no_more s p) c = rw p (c, omega arith)
  Step_nearer (send_job s n p h) c = rw p (c, omega arith)
  Step_nearer (take_job s i q h k) c = (c, omega arith)
  Step_nearer (finish_job s b h) c = (c, omega arith)
  Step_nearer (return_worker s i h k) c = (c, omega arith)
  Step_nearer (close_output s p h k) c = rw p (c, omega arith)

  place_cases :
      (p : Place)
      → (p ≡ looping)
        ⊎ ((p ≡ waiting)
            ⊎ ((p ≡ closed) ⊎ (((n : ℕ) × (p ≡ choosing n)) ⊎ ((n : ℕ) × (p ≡ sending n)))))
  place_cases looping = inl refl
  place_cases waiting = inr (inl refl)
  place_cases closed = inr (inr (inl refl))
  place_cases (choosing n) = inr (inr (inr (inl (n, refl))))
  place_cases (sending n) = inr (inr (inr (inr (n, refl))))

  -- Once the context is done, some goroutine can go on unless all is over or stuck.
  pub can_go_on :
      (s : Pool)
      → s.cancelled ≡ true
      → (s.place ≡ closed) ⊎ (IsStuck concurrency s ⊎ ((t : Pool) × Step concurrency s t))
  can_go_on s c = elim (ℕ-cases s.idle) [
    | inr (i, idle) ↦ inr (inr (record s { idle = i }, return_worker s i c idle))
    | inl no_idle ↦ elim (ℕ-cases s.busy) [
      | inr (b, busy) ↦ inr (inr (record s { busy = b; idle = s.idle + 1 }, finish_job s b busy))
      | inl no_busy ↦ elim (place_cases s.place) [
        | inl p ↦ inr (inr (record s { place = waiting }, see_end s c p))
        | inr (inl p) ↦ inr (inr (record s { place = closed }, close_output s p no_idle no_busy))
        | inr (inr (inl p)) ↦ inl p
        | inr (inr (inr (inl (zero, p)))) ↦ inr (inr (record s { place = looping }, no_more s p))
        | inr (inr (inr (inl (suc n, p)))) ↦ inr (inr (record s { place = looping }, leave s n p c))
        | inr (inr (inr (inr (n, p)))) ↦ elim (dec_lt s.queued concurrency) [
          | yes room ↦
              inr
                (inr (record s { place = choosing n; queued = s.queued + 1 }, send_job s n p room))
          | no full ↦ inr (
              inl (record {
                requests = n;
                at_send = p;
                full = omega arith;
                none_idle = no_idle;
                none_busy = no_busy;
              }))
        ]
      ]
    ]
  ]

  -- updatePeer is not at a channel that is full.
  abbrev pub HasRoom : Pool → Type 0
  HasRoom s = (n : ℕ) → s.place ≡ sending n → s.queued < concurrency

  pub Step-HasRoom :
      {s t : Pool} → Step concurrency s t → s.cancelled ≡ true → HasRoom s → HasRoom t
  Step-HasRoom (cancel s h) c r = λ n e. r n e
  Step-HasRoom (list_jobs s n h p l) c r = λ m e. cc
  Step-HasRoom (see_end s h p) c r = λ m e. cc
  Step-HasRoom (pass_over s n p) c r = λ m e. cc
  Step-HasRoom (leave s n p h) c r = λ m e. cc
  Step-HasRoom (go_on s n p h) c r = absurd (ground arith)
  Step-HasRoom (no_more s p) c r = λ m e. cc
  Step-HasRoom (send_job s n p h) c r = λ m e. cc
  Step-HasRoom (take_job s i q h k) c r = λ n e. let room = r n e in omega arith
  Step-HasRoom (finish_job s b h) c r = λ n e. r n e
  Step-HasRoom (return_worker s i h k) c r = λ n e. r n e
  Step-HasRoom (close_output s p h k) c r = λ m e. cc

  -- The number of steps of a run.
  abbrev pub count_steps : {s t : Pool} → Steps concurrency s t → ℕ
  count_steps (here s) = 0
  count_steps (then_step s t u r e) = suc (count_steps r)

  run_nearer :
      {s t : Pool} (r : Steps concurrency s t)
      → s.cancelled ≡ true
      → HasRoom s
      → (t.cancelled ≡ true) × HasRoom t × (count_steps r + work_left t ≤ work_left s)
  run_nearer (here s) c h = (c, h, omega arith)
  run_nearer (then_step s t u r e) c h =
      let (c', h', near) = run_nearer r c h in
      let (c2, nearer) = Step_nearer e c' in (c2, Step-HasRoom e c' h', omega arith)

  -- When the context ends while updatePeer is not at a full channel of jobs, all comes to its end: every
  -- run from there has at most as many steps as there is work left, whatever the goroutines do and in
  -- whatever order, and each of its states is one in which the output's channel is closed or one from
  -- which some goroutine can go on.
  pub shutdown_completes :
      (s t : Pool) (r : Steps concurrency s t)
      → s.cancelled ≡ true
      → HasRoom s
      → (count_steps r ≤ work_left s) × ((t.place ≡ closed) ⊎ ((u : Pool) × Step concurrency t u))
  shutdown_completes s t r c h =
      let (c', h', near) = run_nearer r c h in
      (
        omega arith,
        elim (can_go_on t c') [
          | inl over ↦ inl over
          | inr (inr next) ↦ inr next
          | inr (inl stuck) ↦
              let room = h' stuck.requests stuck.at_send in absurd (omega (arith, stuck.full))
        ],
      )
