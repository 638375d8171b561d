-- ===== src/Regulator.antt =====
-- The rate limiter of a worker (regulator.go).
pub mod Waiting
use incite.Base.{
  ℕ, ◌+◌, ◌-◌, ◌*◌, ◌/◌, Bool, true, false, not, ◌&&◌, Option, none, some, ltb, leb, ◌==◌,
  if◌then◌else◌,
}
use incite.Base.Int.{ℤ, pos, pos_part, ◌-ℤ◌, leb_ℤ}
use incite.Clock.{Time, Duration, second, max_duration, int64, time_sub}
use incite.Errors.{Error, closing}
use incite.Adapter.{one, Adapter, disabled, standard, increase, decrease, whole}

-- A time.Timer: it runs until a time, has fired and holds a value in its channel, or has fired
-- and the value was received, or was stopped.
pub data Timer : Type 0 where
  running : Time → Timer
  fired received halted : Timer

pub record Regulator : Type 0 where
  pub min_delay : Duration
  pub last_req : Time
  pub timer : Timer
  pub ding : Bool
  pub rps : Adapter

-- time.Second / time.Duration(r.rps.value()). A quotient by zero would panic.
unfoldable pub set_min_delay : Regulator → Regulator
unfolding whole
set_min_delay r = record r { min_delay = pos (second / whole r.rps) }

abbrev pub rps_min : ℕ
rps_min = one

abbrev pub rps_down_step : ℕ
rps_down_step = one

abbrev pub rps_up_per_s : ℕ
rps_up_per_s = one / 2

unfoldable pub make_regulator : Time → ℤ → ℕ → Bool → Regulator
unfolding set_min_delay
make_regulator now rps default_rps adapt =
    let rate = (if leb_ℤ rps (pos 0) then default_rps else pos_part rps) * one in
    set_min_delay (record {
      min_delay = pos 0;
      last_req = 0;
      timer = running (now + max_duration);
      ding = false;
      rps =
          if adapt
          then standard (record {
            val = rate;
            max = rate;
            up_per_s = rps_up_per_s;
            min = rps_min;
            down_step = rps_down_step;
            last = now;
          })
          else disabled rate;
    })

-- timer.Stop, which says whether the timer was still to fire.
unfoldable pub stop : Timer → Timer × Bool
stop (running due) = (halted, true)
stop fired = (fired, false)
stop received = (received, false)
stop halted = (halted, false)

-- A receive from the timer's channel when the timer no longer runs. none when it blocks forever.
unfoldable pub receive : Timer → Option Timer
receive fired = some received
receive (running due) = none
receive received = none
receive halted = none

-- setTimer. The first branch tests that the timer's channel was not read, and stops the timer.
abbrev reset : Time → Duration → Regulator → Regulator × Bool
reset now d r =
    if leb_ℤ d (pos 0)
    then (record r { timer = running (now + max_duration) }, false)
    else (record r { timer = running (now + pos_part d) }, true)

unfoldable pub set_timer : Time → Duration → Regulator → Option (Regulator × Bool)
unfolding stop receive
set_timer now d r =
    let (timer, stopped) = stop r.timer in
    if r.ding
    then some (reset now d (record r { ding = false }))
    else if stopped
    then some (reset now d (record r { timer = timer; ding = false }))
    else elim (receive timer) [
      | none ↦ none
      | some timer' ↦ some (reset now d (record r { timer = timer' }))
    ]

unfoldable pub set_timer_rps : Time → Regulator → Option (Regulator × Bool)
unfolding set_timer
set_timer_rps now r =
    let delay_so_far = time_sub now r.last_req in
    let delay_rem = int64 (r.min_delay -ℤ delay_so_far) in
    if leb_ℤ delay_rem (pos 0) then some (r, false) else set_timer now delay_rem r

-- What ends the select of wait: the manager closes, the chunk's context ends, or the timer fires.
pub data Wakeup : Type 0 where
  manager_closes context_ends timer_fires : Wakeup

-- What wait returns: nil, errClosing, or the error of the context.
pub data WaitResult : Type 0 where
  go_on is_closing context_error : WaitResult

unfoldable pub wake : Wakeup → Regulator → Regulator × WaitResult
wake manager_closes r = (r, is_closing)
wake context_ends r = (r, context_error)
wake timer_fires r = (record r { timer = received; ding = true }, go_on)

unfoldable pub wait : Time → Wakeup → Regulator → Option (Regulator × WaitResult)
unfolding set_timer_rps wake
wait now wakeup r = elim (set_timer_rps now r) [
  | none ↦ none
  | some (r', armed) ↦ some (if armed then wake wakeup r' else (r', go_on))
]

-- The wait in the stopper's release, for the timer alone.
unfoldable pub wait_timer : Time → Regulator → Option Regulator
unfolding set_timer_rps
wait_timer now r = elim (set_timer_rps now r) [
  | none ↦ none
  | some (r', armed) ↦ some (if armed then record r' { timer = received; ding = true } else r')
]

unfoldable pub throttled : Time → Regulator → Regulator × Bool
unfolding set_min_delay
throttled now r =
    let (rps, changed) = decrease now r.rps in
    let r' = record r { rps = rps } in if changed then (set_min_delay r', true) else (r', false)

unfoldable pub not_throttled : Time → Regulator → Regulator × Bool
unfolding set_min_delay
not_throttled now r =
    let (rps, changed) = increase now r.rps in
    let r' = record r { rps = rps } in if changed then (set_min_delay r', true) else (r', false)
