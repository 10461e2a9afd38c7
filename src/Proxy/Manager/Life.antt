-- ===== src/Proxy/Manager/Life.antt =====
-- The life of the manager in proxy/manager.cpp: `init`, `Stop` and `reset`, and the threads of its
-- io_service. The configuration is what CConfigurator read.
use mathlib.Core.Path.{subst}
use proxy_channels.Base.{
  ℕ, suc, ◌≡◌, refl, sym, List, [], ◌∷◌, ◌++◌, map, Bytes, Bool, true, false, Option, none, some,
}
use proxy_channels.Proxy.Manager.{
  ActorConf, Actors, run_actors, ChannelConf, Channel, set_channels, input_messages,
}
use proxy_channels.Proxy.Manager.Registry.{
  AreConnected, set_channels-AreConnected, destinations, replaced, copies,
  input_messages-destinations,
}

pub record Configuration : Type 0 where
  pub actor_confs : List ActorConf
  pub channel_confs : List ChannelConf

-- The parts of CManager that its own methods change.
pub record Manager : Type 0 where
  pub actors : Actors
  pub channels : List Channel
  pub stop_flag : Bool
  -- the long units of the pool that were queued
  pub io_units : ℕ

pub record Process : Type 0 where
  pub manager : Option Manager
  pub logger_started : Bool
  -- the actors that `Stop` was called of, in no order
  pub stopped_actors : List Bytes

abbrev pub started : Configuration → Manager
started conf =
    let actors = run_actors conf.actor_confs [] in
    record {
      actors = actors;
      channels = set_channels actors conf.channel_confs [];
      stop_flag = false;
      io_units = 2;
    }

-- `init` up to its wait.
unfoldable pub init : Configuration → Process → Process
init conf p = elim p.manager [
  | none ↦ record p { manager = some (started conf); logger_started = true }
  | some m ↦ p
]

unfoldable pub set_stop : Manager → Manager
set_stop m = record m { stop_flag = true }

-- CManager::Stop, called of the manager.
unfoldable pub stop : Process → Process
unfolding set_stop
stop p = elim p.manager [ none ↦ p | some m ↦ record p { manager = some (set_stop m) } ]

unfoldable pub is_stopped : Manager → Bool
is_stopped m = m.stop_flag

-- `reset`, with the wait for the io_service behind it.
unfoldable pub reset : Process → Process
reset p = elim p.manager [
  | none ↦ p
  | some m ↦ record {
    manager = none;
    logger_started = false;
    stopped_actors = p.stopped_actors ++ map (λ a. a.0) m.actors;
  }
]

pub data Call : Type 0 where
  initialise : Configuration → Call
  stops : Call
  resets : Call

unfoldable pub step : Call → Process → Process
unfolding init stop reset
step (initialise conf) p = init conf p
step stops p = stop p
step resets p = reset p

unfoldable pub run : List Call → Process → Process
run [] p = p
run (c ∷ cs) p = run cs (step c p)

-- Every channel of the manager, if there is one, connects registered actors.
abbrev pub IsSound : Option Manager → Type 0
IsSound none = Unit
IsSound (some m) = AreConnected m.actors m.channels

step-IsSound : (c : Call) (p : Process) → IsSound p.manager → IsSound (step c p).manager
unfolding step init stop reset set_stop
step-IsSound c p s = go c p.manager s
  where
    go :
        (c : Call) (o : Option Manager)
        → IsSound o
        → IsSound (step c (record p { manager = o })).manager
    go (initialise conf) none s =
        set_channels-AreConnected (run_actors conf.actor_confs []) conf.channel_confs [] tt
    go (initialise conf) (some m) s = s
    go stops none s = s
    go stops (some m) s = s
    go resets none s = s
    go resets (some m) s = tt

run-IsSound : (cs : List Call) (p : Process) → IsSound p.manager → IsSound (run cs p).manager
unfolding run
run-IsSound [] p s = s
run-IsSound (c ∷ cs) p s = run-IsSound cs (step c p) (step-IsSound c p s)

pub run-input_messages :
    (set_up : Bytes → Bool) (cs : List Call) (p : Process) (m : Manager) (source msg : Bytes)
    → p.manager ≡ none
    → (run cs p).manager ≡ some m
    → input_messages set_up m.actors source msg m.channels
      ≡ copies set_up m.actors 0 msg (destinations source m.channels)
unfolding replaced
run-input_messages set_up cs p m source msg h k =
    input_messages-destinations set_up m.actors source msg 0 m.channels
      (subst IsSound k (run-IsSound cs p (subst IsSound (sym h) tt)))

-- The threads of the io_service: AsioServiceWork in two units of the pool.
pub record IoService : Type 0 where
  pub io_flag : Bool
  pub io_stopped : Bool
  pub waiting : ℕ
  pub working : ℕ

pub data IoStep (s : IoService) : IoService → Type 0 where
  begins :
      {n : ℕ}
      → s.waiting ≡ suc n
      → IoStep s (record s { waiting = n; working = suc s.working; io_flag = true })
  -- m_ioService.stop() of `reset`
  is_told : IoStep s (record s { io_stopped = true })
  ends :
      {n : ℕ}
      → s.io_stopped ≡ true
      → s.working ≡ suc n
      → IoStep s (record s { working = n; io_flag = false })

-- The wait of `reset` is over.
abbrev pub MayReset : IoService → Type 0
MayReset s = (s.io_stopped ≡ true) × (s.io_flag ≡ false)

-- While two threads or more run the io_service, the end of one lets `reset` go on: the others still
-- run.
pub IoStep-MayReset :
    (s : IoService) (n : ℕ)
    → s.io_stopped ≡ true
    → s.working ≡ suc (suc n)
    → (t : IoService) × (IoStep s t × MayReset t × (t.working ≡ suc n))
IoStep-MayReset s n told two = (_, (ends told two, (told, refl), refl))
