-- ===== src/Interrupts/Timer.antt =====
-- What the timer counts.
use sbu_operating_system.Prelude.{ℕ, zero, suc, ◌+◌, ◌*◌, ◌/◌, ◌^◌, ◌<◌, ◌≡◌, refl, subst, arith}
use sbu_operating_system.Interrupts.{Clock, tick, ticks, stopped}

-- A clock that has counted `n` interrupts since it stood at 0.
pub record Shows (n : ℕ) (c : Clock) : Type 0 where
  pub count : c.count ≡ n
  pub seconds : c.count_sec ≡ n / 3800
  pub time : c.count_hr * 3600 + c.count_min * 60 + c.count_second ≡ n / 3800
  pub minutes : c.count_min < 60
  pub small : c.count_second < 60

tick-Shows : (n : ℕ) (c : Clock) → Shows n c → n + 1 < 2 ^ 64 → Shows (n + 1) (tick c)
unfolding tick
tick-Shows n c h small = record {
  count = ground arith;
  seconds = ground arith;
  time = ground arith;
  minutes = ground arith;
  small = ground arith;
}

ticks-from : (m n : ℕ) (c : Clock) → Shows n c → n + m < 2 ^ 64 → Shows (n + m) (ticks m c)
unfolding ticks
ticks-from zero n c h small = subst (λ k. Shows k c) (omega arith) h
ticks-from (suc m) n c h small =
    subst (λ k. Shows k (ticks m (tick c))) (omega arith)
      (ticks-from m (n + 1) (tick c) (tick-Shows n c h (omega arith)) (omega arith))

-- After fewer than 2^64 interrupts from the start, the timer has counted them all and one second
-- for every 3800 of them, and its hours, minutes and seconds make up that number of seconds, with
-- minutes and seconds below 60.
pub ticks-Shows : (n : ℕ) → n < 2 ^ 64 → Shows n (ticks n stopped)
ticks-Shows n small =
    subst (λ k. Shows k (ticks n stopped)) (omega arith)
      (ticks-from n 0 stopped
        (record {
          count = refl;
          seconds = refl;
          time = refl;
          minutes = omega arith;
          small = omega arith;
        })
        (omega arith))
