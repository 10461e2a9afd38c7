-- ===== src/Proxy/Manager/Registry.antt =====
-- The actors and the channels that the manager registers.
use proxy_channels.Proxy.Terminal.{replace_crlf}
use proxy_channels.Base.{
  ℕ, zero, suc, Bool, ◌≡◌, refl, sym, ap, ◌∙◌, true, false, List, [], ◌∷◌, ◌++◌, Bytes, bytes_eq,
  if◌then◌else◌, Option, none, some, Bool-cases, Option-cases, inl, inr, arith,
}
use proxy_channels.Proxy.Manager.{
  ActorKind, make_actor, ActorConf, Actors, find_actor, register, run_actor, run_actors,
  ChannelConf, Channel, make_channel, set_channel, set_channels, changes, input_messages,
}

find_actor-append :
    (id : Bytes) (a : ActorKind) (xs ys : Actors)
    → find_actor id xs ≡ some a
    → find_actor id (xs ++ ys) ≡ some a
unfolding find_actor
find_actor-append id a [] ys h = absurd (ground arith)
find_actor-append id a (x ∷ xs) ys h = elim (Bool-cases (bytes_eq x.0 id)) [
  | inl e ↦ rw e (rw e at h)
  | inr e ↦ rw e (find_actor-append id a xs ys (rw e at h))
]

register-find_actor :
    (id : Bytes) (a : ActorKind) (new : Bytes) (kind : ActorKind) (actors : Actors)
    → find_actor id actors ≡ some a
    → find_actor id (register new kind actors) ≡ some a
unfolding register
register-find_actor id a new kind actors h = elim (Option-cases (find_actor new actors)) [
  | inl e ↦ rw (e, register) (find_actor-append id a actors ((new, kind) ∷ []) h)
  | inr e ↦ rw (e.1, register) h
]

run_actor-find_actor :
    (id : Bytes) (a : ActorKind) (c : ActorConf) (actors : Actors)
    → find_actor id actors ≡ some a
    → find_actor id (run_actor c actors) ≡ some a
unfolding run_actor
run_actor-find_actor id a c actors h = elim (Bool-cases c.is_actor) [
  | inl e ↦ elim (Option-cases (if c.throws then none else make_actor c.name c.protocol)) [
    | inl none_made ↦ rw (e, none_made) h
    | inr made ↦ rw (e, made.1) (register-find_actor id a c.id made.0 actors h)
  ]
  | inr e ↦ rw e h
]

-- An actor that is registered is found by its id after any further actors are run.
pub run_actors-find_actor :
    (id : Bytes) (a : ActorKind) (cs : List ActorConf) (actors : Actors)
    → find_actor id actors ≡ some a
    → find_actor id (run_actors cs actors) ≡ some a
unfolding run_actors
run_actors-find_actor id a [] actors h = h
run_actors-find_actor id a (c ∷ cs) actors h =
    run_actors-find_actor id a cs (run_actor c actors) (run_actor-find_actor id a c actors h)

-- Both ends of a channel are registered actors.
abbrev pub IsConnected : Actors → Channel → Type 0
IsConnected actors c =
    ((a : ActorKind) × (find_actor c.source_id actors ≡ some a))
    × ((a : ActorKind) × (find_actor c.destination_id actors ≡ some a))

abbrev pub AreConnected : Actors → List Channel → Type 0
AreConnected actors [] = Unit
AreConnected actors (c ∷ cs) = IsConnected actors c × AreConnected actors cs

AreConnected-add :
    (actors : Actors) (c : Channel) (cs : List Channel)
    → IsConnected actors c
    → AreConnected actors cs
    → AreConnected actors (cs ++ c ∷ [])
AreConnected-add actors c [] h k = (h, tt)
AreConnected-add actors c (d ∷ cs) h k = (k.0, AreConnected-add actors c cs h k.1)

some_inj : (a b : Channel) → some a ≡ some b → a ≡ b
some_inj a b h = ap (λ o. elim o as (λ _. Channel) [ some x ↦ x | none ↦ a ]) h

none-some : (c : Channel) → none ≡ some c → ⊥
none-some c h = ground arith

make_channel-IsConnected :
    (actors : Actors) (c : ChannelConf) (ch : Channel)
    → make_channel actors c ≡ some ch
    → IsConnected actors ch
unfolding make_channel
make_channel-IsConnected actors c ch h = go c.channel_id c.source c.destination h
  where
    made : Option Bytes → Option Bytes → Option Bytes → Option Channel
    made i s d = make_channel actors (record c { channel_id = i; source = s; destination = d })

    go : (i s d : Option Bytes) → made i s d ≡ some ch → IsConnected actors ch
    go none s d k = absurd (none-some ch k)
    go (some i) none d k = absurd (none-some ch k)
    go (some i) (some src) none k = absurd (none-some ch k)
    go (some i) (some src) (some dst) k = elim (Option-cases (find_actor src actors)) [
      | inl e ↦ absurd (none-some ch (rw (e, make_channel) at k))
      | inr a ↦ elim (Option-cases (find_actor dst actors)) [
        | inl e ↦ absurd (none-some ch (rw (a.1, e, make_channel) at k))
        | inr b ↦ rw (← some_inj _ ch (rw (a.1, b.1, make_channel) at k)) ((a.0, a.1), (b.0, b.1))
      ]
    ]

set_channel-AreConnected :
    (actors : Actors) (c : ChannelConf) (cs : List Channel)
    → AreConnected actors cs
    → AreConnected actors (set_channel actors c cs)
unfolding set_channel
set_channel-AreConnected actors c cs k = elim (Option-cases (make_channel actors c)) [
  | inl e ↦ ground (arith, e, k)
  | inr ch ↦ ground (
    arith,
    ch.1,
    k,
    AreConnected-add actors ch.0 cs (make_channel-IsConnected actors c ch.0 ch.1) k,
  )
]

-- If both ends of every channel are registered actors, then so they are after any further channels
-- are set.
pub set_channels-AreConnected :
    (actors : Actors) (confs : List ChannelConf) (cs : List Channel)
    → AreConnected actors cs
    → AreConnected actors (set_channels actors confs cs)
unfolding set_channels
set_channels-AreConnected actors [] cs k = k
set_channels-AreConnected actors (c ∷ confs) cs k =
    set_channels-AreConnected actors confs (set_channel actors c cs)
      (set_channel-AreConnected actors c cs k)

-- The destinations of the channels that come from a source, in their order.
unfoldable pub destinations : Bytes → List Channel → List Bytes
destinations source [] = []
destinations source (c ∷ cs) =
    let rest = destinations source cs in
    if bytes_eq c.source_id source then c.destination_id ∷ rest else rest

-- The message after its line ends were replaced `n` times.
unfoldable pub replaced : ℕ → Bytes → Bytes
replaced zero msg = msg
replaced (suc n) msg = replace_crlf (replaced n msg)

module _ (set_up : Bytes → Bool) (actors : Actors) where
  -- One more terminal, if the destination is one that is set up.
  unfoldable pub count_terminal : Bytes → ℕ → ℕ
  unfolding changes
  count_terminal id n = elim (find_actor id actors) [
    | none ↦ n
    | some kind ↦ if changes set_up id kind then suc n else n
  ]

  -- What each destination gets, behind `n` terminals.
  unfoldable pub copies : ℕ → Bytes → List Bytes → List (Bytes × Bytes)
  unfolding replaced count_terminal
  copies n msg [] = []
  copies n msg (d ∷ ds) = (d, replaced n msg) ∷ copies (count_terminal d n) msg ds

  count_terminal-kind :
      (id : Bytes) (n : ℕ) (a : ActorKind) (b : Bool)
      → find_actor id actors ≡ some a
      → changes set_up id a ≡ b
      → count_terminal id n ≡ (if b then suc n else n)
  unfolding count_terminal
  count_terminal-kind id n a b h k = rw (count_terminal, h, k) refl

  -- If both ends of every channel are registered, what an actor reads reaches the destination of each
  -- channel from it, once for each channel, in their order, with its line ends replaced once for each
  -- terminal that got it before.
  pub input_messages-destinations :
      (source msg : Bytes) (n : ℕ) (cs : List Channel)
      → AreConnected actors cs
      → input_messages set_up actors source (replaced n msg) cs
        ≡ copies n msg (destinations source cs)
  unfolding input_messages destinations copies replaced
  input_messages-destinations source msg n [] k = refl
  input_messages-destinations source msg n (c ∷ cs) k =
      let same = input_messages-destinations source msg n cs k.1 in
      let once_more = input_messages-destinations source msg (suc n) cs k.1 in
      let ds = destinations source cs in
      let id = c.destination_id in
      elim (Bool-cases (bytes_eq c.source_id source)) [
        | inl e ↦ elim (Bool-cases (changes set_up id k.0.1.0)) [
          | inl t ↦
              let count = count_terminal-kind id n k.0.1.0 true k.0.1.1 t in
              rw (e, k.0.1.1, t)
                (ap (λ l. (id, replaced n msg) ∷ l)
                  (once_more ∙ ap (λ m. copies m msg ds) (sym count)))
          | inr f ↦
              let count = count_terminal-kind id n k.0.1.0 false k.0.1.1 f in
              rw (e, k.0.1.1, f)
                (ap (λ l. (id, replaced n msg) ∷ l) (same ∙ ap (λ m. copies m msg ds) (sym count)))
        ]
        | inr e ↦ rw e same
      ]
