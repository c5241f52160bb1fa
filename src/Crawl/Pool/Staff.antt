-- ===== src/Crawl/Pool/Staff.antt =====
-- The workers of the crawler while it runs and when it closes the file output's channel.
use nodewatch_api.Base.{ℕ, ◌+◌, ◌≤◌, ◌≡◌, ◌≢◌, refl, Bool, true, false, arith}
use nodewatch_api.Crawl.Pool.{
  Place, looping, waiting, closed, choosing, sending, Pool, new_pool, Step, cancel, list_jobs,
  see_end, pass_over, leave, go_on, no_more, send_job, take_job, finish_job, return_worker,
  close_output, Steps, here, then_step,
}

abbrev pub is_closed : Place → Bool
is_closed looping = false
is_closed waiting = false
is_closed closed = true
is_closed (choosing n) = false
is_closed (sending n) = false

pub open_place : (p : Place) → p ≢ closed → is_closed p ≡ false
open_place looping h = refl
open_place waiting h = refl
open_place closed h = absurd (h refl)
open_place (choosing n) h = refl
open_place (sending n) h = refl

pub closed_place : (p : Place) → is_closed p ≡ true → p ≡ closed
closed_place looping h = cc
closed_place waiting h = cc
closed_place closed h = refl
closed_place (choosing n) h = cc
closed_place (sending n) h = cc

-- The workers are not more than were started, and none is left when the channel is closed.
pub record IsStaffed (concurrency : ℕ) (p : Pool) : Type 0 where
  pub few : p.idle + p.busy ≤ concurrency
  pub left : p.place ≡ closed → (p.idle ≡ 0) × (p.busy ≡ 0)

module _ (concurrency : ℕ) where
  Step-IsStaffed :
      {p q : Pool} → Step concurrency p q → IsStaffed concurrency p → IsStaffed concurrency q
  Step-IsStaffed (cancel s h) w = record { few = w.few; left = w.left }
  Step-IsStaffed (list_jobs s n h p l) w = record { few = w.few; left = λ e. cc }
  Step-IsStaffed (see_end s h p) w = record { few = w.few; left = λ e. cc }
  Step-IsStaffed (pass_over s n p) w = record { few = w.few; left = λ e. cc }
  Step-IsStaffed (leave s n p h) w = record { few = w.few; left = λ e. cc }
  Step-IsStaffed (go_on s n p h) w = record { few = w.few; left = λ e. cc }
  Step-IsStaffed (no_more s p) w = record { few = w.few; left = λ e. cc }
  Step-IsStaffed (send_job s n p h) w = record { few = w.few; left = λ e. cc }
  Step-IsStaffed (take_job s i q h k) w = record {
    few = omega (arith, w.few);
    left = λ e. let (none_, _) = w.left e in absurd (omega arith);
  }
  Step-IsStaffed (finish_job s b h) w = record {
    few = omega (arith, w.few);
    left = λ e. let (_, none_) = w.left e in absurd (omega arith);
  }
  Step-IsStaffed (return_worker s i h k) w = record {
    few = omega (arith, w.few);
    left = λ e. let (none_, _) = w.left e in absurd (omega arith);
  }
  Step-IsStaffed (close_output s p h k) w = record { few = w.few; left = λ e. (h, k) }

  pub new_pool-IsStaffed : IsStaffed concurrency (new_pool concurrency)
  unfolding new_pool
  new_pool-IsStaffed = record { few = omega arith; left = λ e. cc }

  -- The step that closes the channel.
  pub closing :
      {p q : Pool}
      → Step concurrency p q
      → p.place ≡ waiting
      → q.place ≡ closed
      → (q.cancelled ≡ p.cancelled) × (q.busy ≡ p.busy) × (p.busy ≡ 0)
  closing (cancel s h) w c = absurd (ground arith)
  closing (list_jobs s n h p l) w c = absurd (ground arith)
  closing (see_end s h p) w c = absurd (ground arith)
  closing (pass_over s n p) w c = absurd (ground arith)
  closing (leave s n p h) w c = absurd (ground arith)
  closing (go_on s n p h) w c = absurd (ground arith)
  closing (no_more s p) w c = absurd (ground arith)
  closing (send_job s n p h) w c = absurd (ground arith)
  closing (take_job s i q h k) w c = absurd (ground arith)
  closing (finish_job s b h) w c = absurd (ground arith)
  closing (return_worker s i h k) w c = absurd (ground arith)
  closing (close_output s p h k) w c = (refl, refl, k)

  pub closes_from :
      {p q : Pool} → Step concurrency p q → q.place ≡ closed → p.place ≢ closed → p.place ≡ waiting
  closes_from (cancel s h) c n = absurd (n c)
  closes_from (list_jobs s n h p l) c m = cc
  closes_from (see_end s h p) c n = cc
  closes_from (pass_over s n p) c m = cc
  closes_from (leave s n p h) c m = cc
  closes_from (go_on s n p h) c m = cc
  closes_from (no_more s p) c n = cc
  closes_from (send_job s n p h) c m = cc
  closes_from (take_job s i q h k) c n = absurd (n c)
  closes_from (finish_job s b h) c n = absurd (n c)
  closes_from (return_worker s i h k) c n = absurd (n c)
  closes_from (close_output s p h k) c n = p

  pub closed_stays : {p q : Pool} → Step concurrency p q → p.place ≡ closed → q.place ≡ closed
  closed_stays (cancel s h) c = c
  closed_stays (list_jobs s n h p l) c = absurd (ground arith)
  closed_stays (see_end s h p) c = absurd (ground arith)
  closed_stays (pass_over s n p) c = absurd (ground arith)
  closed_stays (leave s n p h) c = absurd (ground arith)
  closed_stays (go_on s n p h) c = absurd (ground arith)
  closed_stays (no_more s p) c = absurd (ground arith)
  closed_stays (send_job s n p h) c = absurd (ground arith)
  closed_stays (take_job s i q h k) c = c
  closed_stays (finish_job s b h) c = c
  closed_stays (return_worker s i h k) c = c
  closed_stays (close_output s p h k) c = refl

  pub run-IsStaffed :
      {p q : Pool} → Steps concurrency p q → IsStaffed concurrency p → IsStaffed concurrency q
  run-IsStaffed (here s) w = w
  run-IsStaffed (then_step s t u r e) w = Step-IsStaffed e (run-IsStaffed r w)
