-- ===== src/Proxy/Manager.antt =====
-- proxy/manager.cpp, proxy/channel.cpp, proxy/actor.cpp and proxy/manager_adaptor.cpp: the actors,
-- the channels between them, and the commands.
pub mod Registry
pub mod Life
use proxy_channels.Base.{
  ℕ, ◌+◌, List, [], ◌∷◌, ◌++◌, Bytes, codes, bytes_eq, Bool, true, false, ◌||◌, if◌then◌else◌,
  Option, none, some, take, drop,
}
use proxy_channels.Proxy.Actor.{
  ActorType, NetProtocol, no_name, tcp_server, uart_client, logger_adaptor, console_server,
  manager_adaptor, no_proto, oscar, stream, telnet, etflog,
}
use proxy_channels.Proxy.StreamLogger.{find_newline}
use proxy_channels.Proxy.Terminal.{replace_crlf}

-- The classes of actors.
pub data ActorKind : Type 0 where
  tcp_server_oscar tcp_server_stream tcp_server_telnet tcp_server_etf_log : ActorKind
  console_actor terminal manager_adaptor_actor : ActorKind
  oscar_logger_adaptor stream_logger_adaptor etf_logger_adaptor : ActorKind

-- CActor::MakeActor; `none` is a null pointer, also after an exception that was logged.
unfoldable pub make_actor : ActorType → NetProtocol → Option ActorKind
make_actor tcp_server oscar = some tcp_server_oscar
make_actor tcp_server stream = some tcp_server_stream
make_actor tcp_server telnet = some tcp_server_telnet
make_actor tcp_server etflog = some tcp_server_etf_log
make_actor tcp_server no_proto = none
make_actor console_server proto = some console_actor
make_actor uart_client proto = some terminal
make_actor manager_adaptor proto = some manager_adaptor_actor
make_actor logger_adaptor oscar = some oscar_logger_adaptor
make_actor logger_adaptor stream = some stream_logger_adaptor
make_actor logger_adaptor etflog = some etf_logger_adaptor
make_actor logger_adaptor proto = none
make_actor no_name proto = none

-- A node of proxy.actors: whether its tag is "actor", and the type, the protocol and the id; the
-- constructor of an actor may throw.
pub record ActorConf : Type 0 where
  pub is_actor : Bool
  pub name : ActorType
  pub protocol : NetProtocol
  pub id : Bytes
  pub throws : Bool

-- m_actors: an entry is an actor that was started.
abbrev pub Actors : Type 0
Actors = List (Bytes × ActorKind)

unfoldable pub find_actor : Bytes → Actors → Option ActorKind
find_actor id [] = none
find_actor id (a ∷ actors) =
    let rest = find_actor id actors in if bytes_eq a.0 id then some a.1 else rest

-- An actor with an id that is taken is skipped.
unfoldable pub register : Bytes → ActorKind → Actors → Actors
register id kind actors = elim (find_actor id actors) [
  | none ↦ actors ++ (id, kind) ∷ []
  | some other ↦ actors
]

unfoldable pub run_actor : ActorConf → Actors → Actors
run_actor c actors =
    let made : Option ActorKind = if c.throws then none else make_actor c.name c.protocol in
    if c.is_actor
    then elim made [ none ↦ actors | some kind ↦ register c.id kind actors ]
    else actors

unfoldable pub run_actors : List ActorConf → Actors → Actors
run_actors [] actors = actors
run_actors (c ∷ cs) actors = run_actors cs (run_actor c actors)

-- A node of proxy.channels; a missing value throws.
pub record ChannelConf : Type 0 where
  pub is_channel : Bool
  pub channel_id : Option Bytes
  pub source : Option Bytes
  pub destination : Option Bytes

pub record Channel : Type 0 where
  pub channel_name : Bytes
  pub source_id : Bytes
  pub destination_id : Bytes

-- The constructor; an actor that is not registered throws.
unfoldable pub make_channel : Actors → ChannelConf → Option Channel
make_channel actors c = elim c.channel_id [
  | none ↦ none
  | some id ↦ elim c.source [
    | none ↦ none
    | some src ↦ elim c.destination [
      | none ↦ none
      | some dst ↦ elim (find_actor src actors) [
        | none ↦ none
        | some a ↦ elim (find_actor dst actors) [
          | none ↦ none
          | some b ↦ some (record { channel_name = id; source_id = src; destination_id = dst })
        ]
      ]
    ]
  ]
]

unfoldable pub has_channel : Bytes → List Channel → Bool
has_channel id [] = false
has_channel id (c ∷ cs) = bytes_eq c.channel_name id || has_channel id cs

unfoldable pub set_channel : Actors → ChannelConf → List Channel → List Channel
set_channel actors c channels =
    if c.is_channel
    then elim (make_channel actors c) [
      | none ↦ channels
      | some ch ↦ if has_channel ch.channel_name channels then channels else channels ++ ch ∷ []
    ]
    else channels

unfoldable pub set_channels : Actors → List ChannelConf → List Channel → List Channel
set_channels actors [] channels = channels
set_channels actors (c ∷ cs) channels = set_channels actors cs (set_channel actors c channels)

-- Whether an actor changes the message that it is given: DoWrite of a terminal, which its setup
-- connects, replaces in place what the other receivers of the message share.
unfoldable pub changes : (Bytes → Bool) → Bytes → ActorKind → Bool
changes set_up id terminal = set_up id
changes set_up id _ = false

-- m_sigInputMessage of a source: InputMessages of each channel from it, to the actors that exist, with
-- the message as it is when each gets it. `set_up` tells which terminals are set up.
unfoldable pub input_messages :
    (Bytes → Bool) → Actors → Bytes → Bytes → List Channel → List (Bytes × Bytes)
unfolding changes replace_crlf
input_messages set_up actors source msg [] = []
input_messages set_up actors source msg (c ∷ cs) =
    let skipped = input_messages set_up actors source msg cs in
    let changed = input_messages set_up actors source (replace_crlf msg) cs in
    if bytes_eq c.source_id source
    then elim (find_actor c.destination_id actors) [
      | none ↦ skipped
      | some kind ↦
          (c.destination_id, msg)
          ∷ (if changes set_up c.destination_id kind then changed else skipped)
    ]
    else skipped

-- CManagerAdaptor::DoCommand: the buffer after it, and whether the manager is stopped. `trim` and
-- `to_upper` are those of Boost.
unfoldable pub do_command : (Bytes → Bytes) → (Bytes → Bytes) → Bytes → Bytes → Bytes × Bool
do_command trim to_upper msg in_buffer =
    let joined = in_buffer ++ msg in
    elim (find_newline joined) [
      | none ↦ (joined, false)
      | some pos ↦
          let cmd = to_upper (trim (take (pos + 1) joined)) in
          (drop (pos + 1) joined, bytes_eq cmd (codes "QUIT") || bytes_eq cmd (codes "EXIT"))
    ]
