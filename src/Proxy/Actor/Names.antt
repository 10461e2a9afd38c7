-- ===== src/Proxy/Actor/Names.antt =====
-- The names of the enums: ConvertString2Id and ConvertId2String of proxy/actor.h, and what
-- CActor::MakeActor reads of a configuration. An enum that Boost.Describe does not find by its name
-- is left as it was, which is uninitialised: the argument `unset`.
use proxy_channels.Base.{◌≡◌, refl, List, [], ◌∷◌, Bytes, codes, bytes_eq, if◌then◌else◌, some}
use proxy_channels.Base.Settings.{PropertyTree, get_string}
use proxy_channels.Proxy.Actor.{
  ActorType, no_name, tcp_server, uart_client, logger_adaptor, console_server, manager_adaptor,
  NetProtocol, no_proto, oscar, stream, telnet, etflog,
}

unfoldable pub actor_type_name : ActorType → Bytes
actor_type_name no_name = codes "NO_NAME"
actor_type_name tcp_server = codes "TCP_SERVER"
actor_type_name uart_client = codes "UART_CLIENT"
actor_type_name logger_adaptor = codes "LOGGER_ADAPTOR"
actor_type_name console_server = codes "CONSOLE_SERVER"
actor_type_name manager_adaptor = codes "MANAGER_ADAPTOR"

unfoldable pub protocol_name : NetProtocol → Bytes
protocol_name no_proto = codes "NO_PROTO"
protocol_name oscar = codes "OSCAR"
protocol_name stream = codes "STREAM"
protocol_name telnet = codes "TELNET"
protocol_name etflog = codes "ETFLOG"

abbrev pub actor_types : List ActorType
actor_types =
    no_name ∷ tcp_server ∷ uart_client ∷ logger_adaptor ∷ console_server ∷ manager_adaptor ∷ []

abbrev pub protocols : List NetProtocol
protocols = no_proto ∷ oscar ∷ stream ∷ telnet ∷ etflog ∷ []

module _ {ℓ} {A : Type ℓ} (name_of : A → Bytes) where
  unfoldable pub enum_from_string : List A → A → Bytes → A
  enum_from_string [] unset s = unset
  enum_from_string (a ∷ as_) unset s =
      let rest = enum_from_string as_ unset s in if bytes_eq (name_of a) s then a else rest

-- `to_upper` and `trim` are Boost's.
module _ (to_upper trim : Bytes → Bytes) where
  unfoldable pub convert_actor_type : ActorType → Bytes → ActorType
  unfolding enum_from_string actor_type_name
  convert_actor_type unset s =
      enum_from_string actor_type_name actor_types unset (trim (to_upper s))

  unfoldable pub convert_protocol : NetProtocol → Bytes → NetProtocol
  unfolding enum_from_string protocol_name
  convert_protocol unset s = enum_from_string protocol_name protocols unset (trim (to_upper s))

  -- The type, the protocol and the id of an actor.
  unfoldable pub actor_keys :
      ActorType → NetProtocol → PropertyTree → ActorType × NetProtocol × Bytes
  unfolding convert_actor_type convert_protocol
  actor_keys unset_type unset_protocol pt = (
    convert_actor_type unset_type (get_string pt (codes "name") (codes "NO_NAME")),
    convert_protocol unset_protocol (get_string pt (codes "protocol") (codes "NO_PROTO")),
    get_string pt (codes "id") [],
  )

  convert_protocol-name :
      (unset p : NetProtocol)
      → trim (to_upper (protocol_name p)) ≡ protocol_name p
      → convert_protocol unset (protocol_name p) ≡ p
  unfolding convert_protocol enum_from_string protocol_name bytes_eq
  convert_protocol-name unset no_proto h = rw h refl
  convert_protocol-name unset oscar h = rw h refl
  convert_protocol-name unset stream h = rw h refl
  convert_protocol-name unset telnet h = rw h refl
  convert_protocol-name unset etflog h = rw h refl

  convert_actor_type-name :
      (unset t : ActorType)
      → trim (to_upper (actor_type_name t)) ≡ actor_type_name t
      → convert_actor_type unset (actor_type_name t) ≡ t
  unfolding convert_actor_type enum_from_string actor_type_name bytes_eq
  convert_actor_type-name unset no_name h = rw h refl
  convert_actor_type-name unset tcp_server h = rw h refl
  convert_actor_type-name unset uart_client h = rw h refl
  convert_actor_type-name unset logger_adaptor h = rw h refl
  convert_actor_type-name unset console_server h = rw h refl
  convert_actor_type-name unset manager_adaptor h = rw h refl

  -- If the names of the enumerators are trimmed and in capitals already, a configuration that holds
  -- the name of a type, the name of a protocol and an id is read back as these.
  pub actor_keys-name :
      (unset t : ActorType) (unset_protocol p : NetProtocol) (id : Bytes) (pt : PropertyTree)
      → trim (to_upper (actor_type_name t)) ≡ actor_type_name t
      → trim (to_upper (protocol_name p)) ≡ protocol_name p
      → pt (codes "name") ≡ some (actor_type_name t)
      → pt (codes "protocol") ≡ some (protocol_name p)
      → pt (codes "id") ≡ some id
      → actor_keys unset unset_protocol pt ≡ (t, p, id)
  unfolding actor_keys
  actor_keys-name unset t unset_protocol p id pt ht hp name protocol has_id =
      rw
        (
          name,
          protocol,
          has_id,
          convert_actor_type-name unset t ht,
          convert_protocol-name unset_protocol p hp,
        )
        refl
