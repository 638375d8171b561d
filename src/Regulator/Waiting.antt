-- ===== src/Regulator/Waiting.antt =====
-- A regulator never blocks on its timer, and keeps the minimum delay (regulator.go).
use incite.Base.{
  Option-cases, ℕ, ◌+◌, ◌≤◌, ◌<◌, ◌≡◌, ◌≢◌, ap, sym, ◌∙◌, subst, if◌then◌else◌, inl, inr, Bool,
  true, false, none, some, arith, ◌*◌, ◌/◌,
}
use incite.Base.Int.{ℤ, pos, ◌-ℤ◌, pos_part, leb_ℤ}
use incite.Clock.{Time, Duration, second, max_duration, int64, time_sub}
use incite.Adapter.{one, Adapter, whole, increase, decrease, increase_standard, decrease_standard}
use incite.Adapter.Bounds.{Within, Within-value}
use incite.Regulator.{
  Timer, running, fired, received, halted, Regulator, make_regulator, set_timer, set_timer_rps,
  Wakeup, WaitResult, wake, wait, wait_timer, throttled, not_throttled, rps_min,
}

-- Between two calls the channel was read exactly if `ding` says so, and the timer is not halted.
abbrev pub TimerOk : Timer → Bool → Type 0
TimerOk (running due) ding = ding ≡ false
TimerOk fired ding = ding ≡ false
TimerOk received ding = ding ≡ true
TimerOk halted ding = ⊥

-- The rate is at least one request per second, and the minimum delay goes with it.
pub record IsSteady (hi : ℕ) (r : Regulator) : Type 0 where
  pub timer_ok : TimerOk r.timer r.ding
  pub rate : Within rps_min hi r.rps
  pub delay : r.min_delay ≡ pos (second / whole r.rps)

-- What can befall a regulator: the calls of its methods, a request, and the end of its timer.
pub data Step : Regulator → Regulator → Type 0 where
  waits :
      {r r' : Regulator} (now : Time) (w : Wakeup) (result : WaitResult)
      → wait now w r ≡ some (r', result)
      → Step r r'
  releases : {r r' : Regulator} (now : Time) → wait_timer now r ≡ some r' → Step r r'
  slows : {r r' : Regulator} (now : Time) → r' ≡ (throttled now r).0 → Step r r'
  speeds : {r r' : Regulator} (now : Time) → r' ≡ (not_throttled now r).0 → Step r r'
  requests : {r r' : Regulator} (now : Time) → r' ≡ record r { last_req = now } → Step r r'
  expires :
      {r r' : Regulator} (due : Time)
      → r.timer ≡ running due
      → r' ≡ record r { timer = fired }
      → Step r r'

set_timer-ok :
    (now : Time) (d : Duration) (r : Regulator) → TimerOk r.timer r.ding → set_timer now d r ≢ none
unfolding set_timer
set_timer-ok now d r h = ground arith

set_timer-kept :
    (now : Time) (d : Duration) (r r' : Regulator) (armed : Bool)
    → TimerOk r.timer r.ding
    → set_timer now d r ≡ some (r', armed)
    → TimerOk r'.timer r'.ding
      × (r'.rps ≡ r.rps)
      × (r'.min_delay ≡ r.min_delay)
      × (r'.last_req ≡ r.last_req)
unfolding set_timer
set_timer-kept now d r r' armed h e = ground arith

set_timer_rps-kept :
    (now : Time) (r r' : Regulator) (armed : Bool)
    → TimerOk r.timer r.ding
    → set_timer_rps now r ≡ some (r', armed)
    → TimerOk r'.timer r'.ding
      × (r'.rps ≡ r.rps)
      × (r'.min_delay ≡ r.min_delay)
      × (r'.last_req ≡ r.last_req)
unfolding set_timer_rps
set_timer_rps-kept now r r' armed h e =
    ground (arith, set_timer-kept now (int64 (r.min_delay -ℤ time_sub now r.last_req)) r r' armed h)

-- No wait of a steady regulator, nor the wait of the stopper's release, blocks on the receive that
-- drains the timer's channel.
pub wait-ne-none :
    (hi : ℕ) (r : Regulator) (now : Time) (w : Wakeup)
    → IsSteady hi r
    → (wait now w r ≢ none) × (wait_timer now r ≢ none)
unfolding wait wait_timer set_timer_rps
wait-ne-none hi r now w h =
    let p = set_timer-ok now (int64 (r.min_delay -ℤ time_sub now r.last_req)) r h.timer_ok in
    (λ e. ground (arith, p), λ e. ground (arith, p))

-- set_timer_rps r' to the result of wait.
wake-kept :
    (w : Wakeup) (r : Regulator)
    → TimerOk r.timer r.ding
    → TimerOk (wake w r).0.timer (wake w r).0.ding
      × ((wake w r).0.rps ≡ r.rps)
      × ((wake w r).0.min_delay ≡ r.min_delay)
unfolding wake
wake-kept w r h = ground arith

-- A regulator with the rate and the delay of a steady one is steady.
kept :
    (hi : ℕ) (r s : Regulator)
    → IsSteady hi r
    → TimerOk s.timer s.ding
    → s.rps ≡ r.rps
    → s.min_delay ≡ r.min_delay
    → IsSteady hi s
kept hi r s h t p d = record {
  timer_ok = t;
  rate = subst (Within rps_min hi) (sym p) h.rate;
  delay = d ∙ h.delay ∙ ap (λ (a : Adapter). pos (second / whole a)) (sym p);
}

wait-IsSteady :
    (hi : ℕ) (r r' : Regulator) (now : Time) (w : Wakeup) (result : WaitResult)
    → IsSteady hi r
    → wait now w r ≡ some (r', result)
    → IsSteady hi r'
unfolding wait
wait-IsSteady hi r r' now w result h e = elim (Option-cases (set_timer_rps now r)) [
  | inl p ↦ absurd (ground arith)
  | inr ((s, armed), p) ↦
      let k = set_timer_rps-kept now r s armed h.timer_ok p in
      let u = wake-kept w s k.0 in
      let back : r' ≡ (if armed then (wake w s).0 else s) = ground arith in
      subst (IsSteady hi) (sym back) (chosen s armed k u)
]
  where
    chosen :
        (s : Regulator) (armed : Bool)
        → TimerOk s.timer s.ding
          × (s.rps ≡ r.rps)
          × (s.min_delay ≡ r.min_delay)
          × (s.last_req ≡ r.last_req)
        → TimerOk (wake w s).0.timer (wake w s).0.ding
          × ((wake w s).0.rps ≡ s.rps)
          × ((wake w s).0.min_delay ≡ s.min_delay)
        → IsSteady hi (if armed then (wake w s).0 else s)
    chosen s true k u = kept hi r _ h u.0 (u.1 ∙ k.1) (u.2 ∙ k.2)
    chosen s false k u = kept hi r _ h k.0 k.1 k.2

wait_timer-IsSteady :
    (hi : ℕ) (r r' : Regulator) (now : Time)
    → IsSteady hi r
    → wait_timer now r ≡ some r'
    → IsSteady hi r'
unfolding wait_timer
wait_timer-IsSteady hi r r' now h e = elim (Option-cases (set_timer_rps now r)) [
  | inl p ↦ absurd (ground arith)
  | inr ((s, armed), p) ↦
      let k = set_timer_rps-kept now r s armed h.timer_ok p in
      let t : TimerOk r'.timer r'.ding = ground (arith, k) in
      kept hi r r' h t (ground (arith, k)) (ground (arith, k))
]

throttled-IsSteady :
    (hi : ℕ) (r : Regulator) (now : Time) → IsSteady hi r → IsSteady hi (throttled now r).0
unfolding throttled decrease decrease_standard
throttled-IsSteady hi r now h = ground arith

not_throttled-IsSteady :
    (hi : ℕ) (r : Regulator) (now : Time) → IsSteady hi r → IsSteady hi (not_throttled now r).0
unfolding not_throttled increase increase_standard
not_throttled-IsSteady hi r now h = ground arith

-- In a steady regulator whose minimum delay is a duration and whose last request is not in the
-- future, the timer is armed for the end of the minimum delay after the last request, or that end
-- has already come.
pub set_timer_rps-spaced :
    (hi : ℕ) (r r' : Regulator) (now delay : ℕ) (armed : Bool)
    → IsSteady hi r
    → r.min_delay ≡ pos delay
    → delay ≤ max_duration
    → r.last_req ≤ now
    → set_timer_rps now r ≡ some (r', armed)
    → (armed ≡ true → r'.timer ≡ running (r.last_req + delay))
      × (armed ≡ false → r.last_req + delay ≤ now)
unfolding set_timer_rps set_timer time_sub int64 ◌-ℤ◌
set_timer_rps-spaced hi r r' now delay armed h e d p q = ground arith

expire-IsSteady :
    (hi : ℕ) (r : Regulator) (due : Time)
    → r.timer ≡ running due
    → IsSteady hi r
    → IsSteady hi (record r { timer = fired })
expire-IsSteady hi r due e h = record {
  timer_ok = subst (λ t. TimerOk t r.ding) e h.timer_ok;
  rate = h.rate;
  delay = h.delay;
}

-- Whatever befalls a regulator, it stays steady: the flag says whether the timer's channel was
-- read, the rate stays between one request per second and the configured one, and the minimum
-- delay is the one that goes with the rate.
pub Step-IsSteady : (hi : ℕ) {r r' : Regulator} → Step r r' → IsSteady hi r → IsSteady hi r'
Step-IsSteady hi {r} {r'} (waits now w result e) h = wait-IsSteady hi r r' now w result h e
Step-IsSteady hi {r} {r'} (releases now e) h = wait_timer-IsSteady hi r r' now h e
Step-IsSteady hi {r} (slows now e) h = subst (IsSteady hi) (sym e) (throttled-IsSteady hi r now h)
Step-IsSteady hi {r} (speeds now e) h =
    subst (IsSteady hi) (sym e) (not_throttled-IsSteady hi r now h)
Step-IsSteady hi {r} (requests now e) h =
    subst (IsSteady hi) (sym e) (record { timer_ok = h.timer_ok; rate = h.rate; delay = h.delay })
Step-IsSteady hi {r} (expires due t e) h =
    subst (IsSteady hi) (sym e) (expire-IsSteady hi r due t h)

-- A new regulator is steady: its timer runs with an unread channel, its rate is the configured
-- one, or the default if that is not positive, and its minimum delay goes with the rate.
pub make_regulator-IsSteady :
    (now : Time) (rps : ℤ) (default_rps : ℕ) (adapt : Bool)
    → 0 < default_rps
    → let r = make_regulator now rps default_rps adapt in
      IsSteady ((if leb_ℤ rps (pos 0) then default_rps else pos_part rps) * one) r
unfolding make_regulator
make_regulator-IsSteady now rps default_rps adapt h = ground arith

-- In a steady regulator the rate that the minimum delay is divided by is not zero.
pub whole-pos : (hi : ℕ) (r : Regulator) → IsSteady hi r → 0 < whole r.rps
unfolding whole
whole-pos hi r h = omega (arith, Within-value rps_min hi r.rps h.rate)
