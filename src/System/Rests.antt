-- ===== src/System/Rests.antt =====
-- The rounds of the workers keep the manager sound and in agreement with them (worker.go).
use incite.Base.{ℕ, ◌≡◌, ◌≢◌, refl, true, Option, none, some, List, [], ◌∷◌, arith}
use incite.Errors.{Error}
use incite.Chunk.{Chunk, ChunkState}
use incite.Worker.States.{Test, AllIn, AllIn-append, OutIn}
use incite.Manager.{Mgr, Streams}
use incite.Manager.Sound.{IsSound}
use incite.System.{
  System, Next, mgr_panicked, starter_panicked, poller_panicked, stopper_panicked, next, send_out,
  starter_worked, poller_worked, stopper_worked,
}
use incite.Working.{Worked, idle, failed, worked}
use incite.System.Served.{worked-IsServed, other_worked-IsServed}
use incite.System.Kinds.{
  is_starting, is_polling, is_stopping, from_starter, from_poller, from_stopper,
}
use incite.System.Rounds.{WorkedIn}
use incite.System.Coherence.{is_expected, IsCoherent}

-- What holds after an event: the manager is sound and agrees with its workers, or the log entry of
-- the stopper has panicked.
abbrev pub HoldsAt : ℕ → System → Type 0
HoldsAt limit s = IsSound limit s.mgr × IsCoherent s

abbrev pub Holds : ℕ → Next → Type 0
Holds limit mgr_panicked = ⊥
Holds limit starter_panicked = ⊥
Holds limit poller_panicked = ⊥
Holds limit stopper_panicked = Unit {0}
Holds limit (next s) = HoldsAt limit s

module _ (limit : ℕ) where
  pub streams-IsSound :
      (streams : Streams) (m : Mgr)
      → IsSound limit m
      → IsSound limit (record m { streams = streams })
  streams-IsSound streams m h = ground arith

  pub streams-IsCoherent :
      (streams : Streams) (num_streams : ℕ) (s : System)
      → IsCoherent s
      → IsCoherent
          (record s { mgr = record (s.mgr) { streams = streams }; num_streams = num_streams })
  streams-IsCoherent streams num_streams s h = record {
    starter = h.starter;
    poller = h.poller;
    stopper = h.stopper;
    expected = h.expected;
    clear = h.clear;
  }

  sent_out :
      (mine : Test) (out : Option Chunk) (update : List Chunk)
      → ((x : ChunkState) (e : Option Error) → mine x e ≡ true → is_expected x e ≡ true)
      → OutIn mine out
      → AllIn is_expected update
      → AllIn is_expected (send_out out update)
  sent_out mine none update all h k = k
  sent_out mine (some c) update all h k =
      AllIn-append is_expected update (c ∷ []) k (all c.state c.err h, tt)

  pub starter_worked-Holds :
      (s : System) (r : Worked)
      → HoldsAt limit s
      → WorkedIn is_starting from_starter s.starter s.start r
      → r ≢ Worked.failed
      → Holds limit (starter_worked s r)
  starter_worked-Holds s idle h k n = h
  starter_worked-Holds s failed h k n = absurd (n refl)
  starter_worked-Holds s (worked w i out streams) (sound, h) k n = (
    streams-IsSound streams s.mgr sound,
    record {
      starter =
          worked-IsServed is_starting from_starter s.starter s.mgr.start s.start i w out s.update
            h.starter k.balanced k.counted k.ring k.queue k.sent;
      poller =
          other_worked-IsServed is_polling from_poller s.poller from_starter s.mgr.poll s.poll out
            s.update (λ x e q. ground (arith, q)) h.poller k.sent;
      stopper =
          other_worked-IsServed is_stopping from_stopper s.stopper from_starter s.mgr.stop s.stop
            out s.update (λ x e q. ground (arith, q)) h.stopper k.sent;
      expected = sent_out from_starter out s.update (λ x e q. ground (arith, q)) k.sent h.expected;
      clear = h.clear;
    },
  )

  pub poller_worked-Holds :
      (s : System) (r : Worked)
      → HoldsAt limit s
      → WorkedIn is_polling from_poller s.poller s.poll r
      → r ≢ Worked.failed
      → Holds limit (poller_worked s r)
  poller_worked-Holds s idle h k n = h
  poller_worked-Holds s failed h k n = absurd (n refl)
  poller_worked-Holds s (worked w i out streams) (sound, h) k n = (
    streams-IsSound streams s.mgr sound,
    record {
      starter =
          other_worked-IsServed is_starting from_starter s.starter from_poller s.mgr.start s.start
            out s.update (λ x e q. ground (arith, q)) h.starter k.sent;
      poller =
          worked-IsServed is_polling from_poller s.poller s.mgr.poll s.poll i w out s.update
            h.poller k.balanced k.counted k.ring k.queue k.sent;
      stopper =
          other_worked-IsServed is_stopping from_stopper s.stopper from_poller s.mgr.stop s.stop out
            s.update (λ x e q. ground (arith, q)) h.stopper k.sent;
      expected = sent_out from_poller out s.update (λ x e q. ground (arith, q)) k.sent h.expected;
      clear = h.clear;
    },
  )

  pub stopper_worked-Holds :
      (s : System) (r : Worked)
      → HoldsAt limit s
      → WorkedIn is_stopping from_stopper s.stopper s.stop r
      → Holds limit (stopper_worked s r)
  stopper_worked-Holds s idle h k = h
  stopper_worked-Holds s failed h k = tt
  stopper_worked-Holds s (worked w i out streams) (sound, h) k = (
    streams-IsSound streams s.mgr sound,
    record {
      starter =
          other_worked-IsServed is_starting from_starter s.starter from_stopper s.mgr.start s.start
            out s.update (λ x e q. ground (arith, q)) h.starter k.sent;
      poller =
          other_worked-IsServed is_polling from_poller s.poller from_stopper s.mgr.poll s.poll out
            s.update (λ x e q. ground (arith, q)) h.poller k.sent;
      stopper =
          worked-IsServed is_stopping from_stopper s.stopper s.mgr.stop s.stop i w out s.update
            h.stopper k.balanced k.counted k.ring k.queue k.sent;
      expected = sent_out from_stopper out s.update (λ x e q. ground (arith, q)) k.sent h.expected;
      clear = h.clear;
    },
  )
