-- ===== src/Setup/Fresh.antt =====
-- The workers of a new manager (cloudwatchlogs_actions.go, starter.go, poller.go, stopper.go).
use incite.Base.{
  false, ℕ, zero, suc, ◌*◌, ◌<◌, ◌≡◌, refl, sym, subst, ◌∙◌, Bool, not, true, [], arith,
  if◌then◌else◌,
}
use incite.Base.Int.{ℤ, pos, negsuc, pos_part, leb_ℤ}
use incite.Clock.{Time}
use incite.Adapter.{one, whole, Adapter, disabled, standard}
use incite.Regulator.{make_regulator}
use incite.Regulator.Waiting.{IsSteady, make_regulator-IsSteady}
use incite.Worker.{Worker}
use incite.Setup.{Action, new_worker, GoInt, Config, rps_defaults}

-- The value of a setting that has a default.
abbrev pub or_default : GoInt → ℕ → ℕ
or_default (pos zero) default = default
or_default (pos (suc n)) default = suc n
or_default (negsuc n) default = default

-- Whether an adapter changes its value.
abbrev pub adapts : Adapter → Bool
adapts (disabled v) = false
adapts (standard a) = true

-- A worker has an empty ring, and a steady regulator that starts with the given rate, which is its
-- highest, too, and adapts it or not.
pub record IsFresh (rate : ℕ) (adapting : Bool) (w : Worker) : Type 0 where
  pub chunks : w.chunks ≡ []
  pub num_chunks : w.num_chunks ≡ 0
  pub steady : IsSteady (rate * one) w.regulator
  pub rate_set : whole w.regulator.rps ≡ rate
  pub adapting_set : adapts w.regulator.rps ≡ adapting

or_default-rate :
    (rps : ℤ) (d : ℕ) → (if leb_ℤ rps (pos 0) then d else pos_part rps) ≡ or_default rps d
or_default-rate (pos zero) d = refl
or_default-rate (pos (suc n)) d = ground arith
or_default-rate (negsuc n) d = ground arith

pub or_default-pos : (p : ℤ) (d : ℕ) → 0 < d → 0 < or_default p d
or_default-pos (pos zero) d h = h
or_default-pos (pos (suc n)) d h = omega arith
or_default-pos (negsuc n) d h = h

whole-make_regulator :
    (now : Time) (rps : ℤ) (default : ℕ) (adapt : Bool)
    → whole (make_regulator now rps default adapt).rps
      ≡ (if leb_ℤ rps (pos 0) then default else pos_part rps)
unfolding make_regulator whole
whole-make_regulator now rps default adapt = ground arith

adapts-make_regulator :
    (now : Time) (rps : ℤ) (default : ℕ) (adapt : Bool)
    → adapts (make_regulator now rps default adapt).rps ≡ adapt
unfolding make_regulator
adapts-make_regulator now rps default adapt = ground arith

pub fresh :
    (now : Time) (cfg : Config) (action : Action) (tries rate : ℕ)
    → rate ≡ or_default (cfg.rps action) (rps_defaults action)
    → 0 < rps_defaults action
    → IsFresh rate (not cfg.disable_adaptation) (new_worker now cfg action tries)
fresh now cfg action tries rate e h =
    let rps = cfg.rps action in
    let d = rps_defaults action in
    let same : (if leb_ℤ rps (pos 0) then d else pos_part rps) ≡ rate =
      or_default-rate rps d ∙ sym e in
    let r = make_regulator now rps d (not cfg.disable_adaptation) in
    record {
      chunks = refl;
      num_chunks = refl;
      steady = subst (λ (n : ℕ). IsSteady (n * one) r) same (make_regulator-IsSteady now rps d _ h);
      rate_set = whole-make_regulator now rps d _ ∙ same;
      adapting_set = adapts-make_regulator now rps d _;
    }
