-- ===== src/Setup/Ready.antt =====
-- A new manager is in the state that its steps keep (mgr.go: NewQueryManager).
use mathlib.Core.Path.{ap₂}
use incite.Base.{
  ◌≢◌, ◌∷◌, Bool-cases, ltb, ltb→lt, ltb-false, ap, inl, inr, ℕ, zero, suc, ◌*◌, ◌≤◌, ◌<◌, ◌≡◌, ◌⊎◌,
  refl, sym, subst, ◌∙◌, not, true, Option, none, some, [], arith, Text, if◌then◌else◌,
}
use incite.Base.Int.{ℤ, pos, negsuc, pos_part, leb_ℤ, ◌*ℤ◌}
use incite.Clock.{Time, int64}
use incite.Adapter.{whole}
use incite.Manager.{Streams}
use incite.Manager.Sound.{IsSound}
use incite.Setup.{
  or_address, start_query, stop_query, get_query_results, max_temp_starting_errs,
  max_temp_polling_errs, Config, Launched, rps_defaults, filled_in, new_mgr, new_starter,
  new_poller, new_stopper, new_query_manager, default_parallel, max_room, make_chan, with_channels,
}
use incite.Setup.Fresh.{or_default, or_default-pos, IsFresh, fresh}

-- What a manager starts with for a configuration: the state that its steps keep, no chunk with a
-- worker, fresh workers at their configured rates, the configured name or else its address, and
-- channels of which those to the workers hold
-- as many chunks as the parallelism is, and the one back three times as many.
pub record IsReady (address : Text) (cfg : Config) (s : Launched) : Type 0 where
  pub name_given : cfg.name ≢ [] → s.config.name ≡ cfg.name
  pub name_missing : cfg.name ≡ [] → s.config.name ≡ address
  pub capacity : s.worker_capacity ≡ or_default cfg.parallel 18
  pub parallel : s.config.parallel ≡ pos s.worker_capacity
  pub positive : 0 < s.worker_capacity
  pub whole_parallel : whole s.mgr.parallel ≡ s.worker_capacity
  pub sound : IsSound s.worker_capacity s.mgr
  pub ready : s.mgr.ready ≡ []
  pub start : s.mgr.start ≡ []
  pub poll : s.mgr.poll ≡ []
  pub stop : s.mgr.stop ≡ []
  pub starter : IsFresh (or_default (cfg.rps start_query) 3) (not cfg.disable_adaptation) s.starter
  pub poller :
      IsFresh (or_default (cfg.rps get_query_results) 3) (not cfg.disable_adaptation) s.poller
  pub stopper : IsFresh (or_default (cfg.rps stop_query) 3) (not cfg.disable_adaptation) s.stopper
  pub update : s.update_capacity ≡ 3 * s.worker_capacity

filled_in-or_default :
    (address : Text) (cfg : Config)
    → (filled_in address cfg).parallel ≡ pos (or_default cfg.parallel 18)
unfolding filled_in
filled_in-or_default address cfg = default_lem cfg.parallel
  where
    default_lem :
        (p : ℤ) → (if leb_ℤ p (pos 0) then pos default_parallel else p) ≡ pos (or_default p 18)
    default_lem (pos zero) = refl
    default_lem (pos (suc n)) = ground arith
    default_lem (negsuc n) = ground arith

new_mgr-IsSound :
    (now : Time) (streams : Streams) (parallel : ℕ)
    → 0 < parallel
    → IsSound parallel (new_mgr now streams parallel)
unfolding new_mgr
new_mgr-IsSound now streams parallel h = record {
  ready = refl;
  starting = refl;
  polling = refl;
  stopping = refl;
  bounded = omega arith;
  parallel = (refl, refl, omega (arith, h), omega arith);
}

or_address_lem :
    (address name : Text)
    → (name ≢ [] → or_address address name ≡ name) × (name ≡ [] → or_address address name ≡ address)
or_address_lem address [] = (λ n. absurd (n refl), λ e. refl)
or_address_lem address (c ∷ cs) = (λ n. refl, λ e. cc)

whole-parallel :
    (now : Time) (streams : Streams) (n : ℕ) → whole (new_mgr now streams n).parallel ≡ n
unfolding new_mgr whole
whole-parallel now streams n = ground arith

-- The sizes of the channels for a parallelism.
make_chan-fits : (n : ℕ) → 3 * n ≤ max_room → make_chan (pos n) ≡ some n
unfolding make_chan
make_chan-fits n h = ground arith

make_chan-update : (n : ℕ) → 3 * n ≤ max_room → make_chan (int64 (pos 3 *ℤ pos n)) ≡ some (3 * n)
unfolding make_chan int64 ◌*ℤ◌
make_chan-update n h = ground arith

make_chan-panics :
    (n : ℕ)
    → max_room < 3 * n
    → (make_chan (pos n) ≡ none) ⊎ (make_chan (int64 (pos 3 *ℤ pos n)) ≡ none)
unfolding make_chan int64 ◌*ℤ◌
make_chan-panics n h = ground arith

with_channels-none :
    (now : Time) (streams : Streams) (cfg : Config) (parallel update : Option ℕ)
    → (parallel ≡ none) ⊎ (update ≡ none)
    → with_channels now streams cfg parallel update ≡ none
with_channels-none now streams cfg none update h = refl
with_channels-none now streams cfg (some n) none h = refl
with_channels-none now streams cfg (some n) (some m) (inl e) = cc
with_channels-none now streams cfg (some n) (some m) (inr e) = cc

with_channels-IsReady :
    (address : Text) (now : Time) (streams : Streams) (cfg : Config)
    → let n = or_default cfg.parallel 18 in
      let cfg' = filled_in address cfg in
      (l : Launched) × (with_channels now streams cfg' (some n) (some (3 * n)) ≡ some l)
      × IsReady address cfg l
unfolding filled_in new_mgr new_starter new_poller new_stopper rps_defaults
with_channels-IsReady address now streams cfg =
    let n = or_default cfg.parallel 18 in
    let cfg' = filled_in address cfg in
    let same : cfg'.parallel ≡ pos n = filled_in-or_default address cfg in
    let positive : 0 < n = or_default-pos cfg.parallel 18 (omega arith) in
    (
      _,
      refl,
      record {
        name_given = (or_address_lem address cfg.name).0;
        name_missing = (or_address_lem address cfg.name).1;
        capacity = refl;
        parallel = same;
        positive = positive;
        sound =
            subst (λ (p : ℤ). IsSound n (new_mgr now streams (pos_part p))) (sym same)
              (new_mgr-IsSound now streams n positive);
        whole_parallel =
            subst (λ (p : ℤ). whole (new_mgr now streams (pos_part p)).parallel ≡ n) (sym same)
              (whole-parallel now streams n);
        ready = refl;
        start = refl;
        poll = refl;
        stop = refl;
        starter = fresh now cfg' start_query max_temp_starting_errs _ refl (omega arith);
        poller = fresh now cfg' get_query_results max_temp_polling_errs _ refl (omega arith);
        stopper = fresh now cfg' stop_query 3 _ refl (omega arith);
        update = refl;
      },
    )

pub new_query_manager-with_channels :
    (address : Text) (now : Time) (streams : Streams) (cfg : Config)
    → cfg.has_actions ≡ true
    → let n = or_default cfg.parallel 18 in
      new_query_manager address now streams cfg
      ≡ with_channels now streams
          (filled_in address cfg)
          (make_chan (pos n))
          (make_chan (int64 (pos 3 *ℤ pos n)))
new_query_manager-with_channels address now streams cfg h =
    let cfg' = filled_in address cfg in
    let opened : new_query_manager address now streams cfg
        ≡ with_channels now streams cfg' (make_chan cfg'.parallel)
            (make_chan (int64 (pos 3 *ℤ cfg'.parallel))) =
      unfold new_query_manager in rw h refl in
    opened
    ∙ ap (λ (p : ℤ). with_channels now streams cfg' (make_chan p) (make_chan (int64 (pos 3 *ℤ p))))
        (filled_in-or_default address cfg)

-- A new manager with actions is ready if three times its parallelism is a size that make takes for
-- a channel, and making it panics if not. Ready, its parallelism is the configured one, or 18 if that
-- is not positive, and bounds its channels, its state is sound, its workers are empty and have
-- steady regulators that start with the configured rates, or with 3 if these are not positive, and
-- that adapt them unless adaptation is disabled, and its name is the configured one or its address.
pub new_query_manager-IsReady :
    (address : Text) (now : Time) (streams : Streams) (cfg : Config)
    → cfg.has_actions ≡ true
    → let n = or_default cfg.parallel 18 in
      ((3 * n ≤ max_room)
        × ((l : Launched) × (new_query_manager address now streams cfg ≡ some l)
            × IsReady address cfg l))
      ⊎ ((max_room < 3 * n) × (new_query_manager address now streams cfg ≡ none))
new_query_manager-IsReady address now streams cfg h =
    let n = or_default cfg.parallel 18 in
    let cfg' = filled_in address cfg in
    let opened = new_query_manager-with_channels address now streams cfg h in
    elim (Bool-cases (ltb max_room (3 * n))) [
      | inl more ↦
          let over = ltb→lt _ _ more in
          inr (over, opened ∙ with_channels-none now streams cfg' _ _ (make_chan-panics n over))
      | inr less ↦
          let fits : 3 * n ≤ max_room = ltb-false _ _ less in
          let (l, e, ready) = with_channels-IsReady address now streams cfg in
          let sizes =
            ap₂ (with_channels now streams cfg') (make_chan-fits n fits)
              (make_chan-update n fits) in
          inl (fits, (l, opened ∙ sizes ∙ e, ready))
    ]

-- What is made is ready.
pub launched-IsReady :
    (address : Text) (now : Time) (streams : Streams) (cfg : Config) (l : Launched)
    → cfg.has_actions ≡ true
    → new_query_manager address now streams cfg ≡ some l
    → IsReady address cfg l
launched-IsReady address now streams cfg l h launched =
    elim (new_query_manager-IsReady address now streams cfg h) [
      | inl (fits, (l', e, ready)) ↦ subst (IsReady address cfg) (cc (e, launched)) ready
      | inr (over, e) ↦ absurd (cc (e, launched))
    ]
