-- ===== src/Oscar/Proto.antt =====
-- oscar/proto.h: the numbers of the protocol and the shapes of its packets.
use proxy_channels.Base.{
  ℕ, ◌+◌, List, [], ◌∷◌, Result, err, tlv_protocol, ◌>>=◌, ◌==◌, if◌then◌else◌,
}
use proxy_channels.Oscar.Endian.{Endian}
use proxy_channels.Oscar.Memory.{Storage}
use proxy_channels.Oscar.Tlv.{Kind, string, integral, DataType, get_type, get_value}

pub data FlapChannel : Type 0 where
  control message : FlapChannel

abbrev pub flap_channel_begin : ℕ
flap_channel_begin = 0

abbrev pub flap_channel_id : FlapChannel → ℕ
flap_channel_id FlapChannel.control = flap_channel_begin
flap_channel_id FlapChannel.message = flap_channel_begin + 1

abbrev pub flap_channel_end : ℕ
flap_channel_end = flap_channel_begin + 2

pub data SnacService : Type 0 where
  start stop message : SnacService

-- Each enum begins where the one before it ends.
abbrev pub snac_service_id : SnacService → ℕ
snac_service_id SnacService.start = flap_channel_end
snac_service_id SnacService.stop = flap_channel_end + 1
snac_service_id SnacService.message = flap_channel_end + 2

abbrev pub snac_service_end : ℕ
snac_service_end = flap_channel_end + 3

pub data SnacSubtype : Type 0 where
  log_file_name log_stop log_message : SnacSubtype

abbrev pub snac_subtype_id : SnacSubtype → ℕ
snac_subtype_id log_file_name = snac_service_end
snac_subtype_id log_stop = snac_service_end + 1
snac_subtype_id log_message = snac_service_end + 2

abbrev pub snac_subtype_end : ℕ
snac_subtype_end = snac_service_end + 3

pub data TlvType : Type 0 where
  log_module log_timestamp_sec log_timestamp_microsec log_severity : TlvType
  log_text log_name_prefix log_name_suffix log_channel : TlvType

abbrev pub tlv_type_id : TlvType → ℕ
tlv_type_id log_module = snac_subtype_end
tlv_type_id log_timestamp_sec = snac_subtype_end + 1
tlv_type_id log_timestamp_microsec = snac_subtype_end + 2
tlv_type_id log_severity = snac_subtype_end + 3
tlv_type_id log_text = snac_subtype_end + 4
tlv_type_id log_name_prefix = snac_subtype_end + 5
tlv_type_id log_name_suffix = snac_subtype_end + 6
tlv_type_id log_channel = snac_subtype_end + 7

pub record TlvTraits : Type 0 where
  pub tlv_type : TlvType
  pub kind : Kind

abbrev pub tlv_module_tag : TlvTraits
tlv_module_tag = record { tlv_type = log_module; kind = string }

-- time_t has eight bytes
abbrev pub tlv_timestamp_sec : TlvTraits
tlv_timestamp_sec = record { tlv_type = log_timestamp_sec; kind = integral 8 }

abbrev pub tlv_timestamp_microsec : TlvTraits
tlv_timestamp_microsec = record { tlv_type = log_timestamp_microsec; kind = integral 8 }

abbrev pub tlv_severity : TlvTraits
tlv_severity = record { tlv_type = log_severity; kind = integral 1 }

abbrev pub tlv_log_text : TlvTraits
tlv_log_text = record { tlv_type = log_text; kind = string }

abbrev pub tlv_log_name_prefix : TlvTraits
tlv_log_name_prefix = record { tlv_type = log_name_prefix; kind = string }

abbrev pub tlv_log_name_suffix : TlvTraits
tlv_log_name_suffix = record { tlv_type = log_name_suffix; kind = string }

abbrev pub tlv_log_channel : TlvTraits
tlv_log_channel = record { tlv_type = log_channel; kind = integral 1 }

pub record SnacTraits : Type 0 where
  pub service : SnacService
  pub subtype : SnacSubtype
  pub tlvs : List TlvTraits

-- std::tuple<typename _Tlv::DataType...>
abbrev pub TlvData : List TlvTraits → Type 0
TlvData [] = Unit {0}
TlvData (t ∷ ts) = DataType t.kind × TlvData ts

abbrev pub snac_new_file : SnacTraits
snac_new_file = record {
  service = SnacService.start;
  subtype = log_file_name;
  tlvs =
      tlv_log_name_prefix ∷ tlv_log_name_suffix ∷ tlv_log_channel ∷ tlv_timestamp_sec
      ∷ tlv_timestamp_microsec ∷ [];
}

abbrev pub snac_stop : SnacTraits
snac_stop = record {
  service = SnacService.stop;
  subtype = log_stop;
  tlvs = tlv_log_channel ∷ tlv_timestamp_sec ∷ tlv_timestamp_microsec ∷ [];
}

abbrev pub snac_message : SnacTraits
snac_message = record {
  service = SnacService.message;
  subtype = log_message;
  tlvs =
      tlv_module_tag ∷ tlv_severity ∷ tlv_log_text ∷ tlv_log_channel ∷ tlv_timestamp_sec
      ∷ tlv_timestamp_microsec ∷ [];
}

module _ (e : Endian) where
  unfoldable pub tlv_parse : (t : TlvTraits) → ℕ → Storage → Result (DataType t.kind)
  tlv_parse t at stg = do
    type ← get_type e at stg
    if type == tlv_type_id t.tlv_type then get_value e t.kind at stg else err tlv_protocol
