-- ===== src/Proxy/LogChannel/Making.antt =====
-- How an adaptor gets its log channels: the constructors of CLogAdaptor and CLogChannel, and
-- CFilter::MakeFilter (proxy/log_adaptor.cpp, proxy/log_channel.cpp).
use proxy_channels.Base.{
  ◌≡◌, refl, List, [], ◌∷◌, ◌++◌, Bytes, codes, bytes_eq, Bool, true, false, if◌then◌else◌, Option,
  none, some,
}
use proxy_channels.Base.Int.{ℤ, eqb_ℤ}
use proxy_channels.Utils.LogBuilder.{log_unknown_channel}
use proxy_channels.Proxy.Actor.Names.{enum_from_string}
use proxy_channels.Proxy.LogChannel.{LogChannel}
use proxy_channels.Proxy.LogChannel.Delivery.{AreKnown}

-- ERegexFilter
pub data FilterType : Type 0 where
  unknown_filter regex_erase : FilterType

unfoldable pub filter_type_name : FilterType → Bytes
filter_type_name unknown_filter = codes "UNKNOWN_FILTER"
filter_type_name regex_erase = codes "RAGEX_ERASE"

-- A child of "filters".
pub record FilterNode : Type 0 where
  pub tag : Bytes
  pub name : Option Bytes
  pub expression : Option Bytes

-- A child of "sinks": `get<int8_t>("id")` throws for `none`.
pub record ChannelNode : Type 0 where
  pub tag : Bytes
  pub id : Option ℤ
  pub filters : Option (List FilterNode)

-- `to_upper` and `trim` are Boost's, `is_regex` is whether the constructor of boost::regex takes the
-- text, and `unset` the type of a name that Boost.Describe does not know.
module _ (to_upper trim : Bytes → Bytes) (is_regex : Bytes → Bool) (unset : FilterType) where
  -- The expression of the filter; `none` is a null pointer.
  unfoldable pub make_filter : Bytes → FilterNode → Option Bytes
  unfolding enum_from_string filter_type_name
  make_filter name node =
      elim (enum_from_string filter_type_name (unknown_filter ∷ regex_erase ∷ []) unset
        (trim (to_upper name))) [
          | unknown_filter ↦ none
          | regex_erase ↦ elim node.expression [
            | none ↦ none
            | some e ↦ if is_regex e then some e else none
          ]
        ]

  unfoldable pub name_of : FilterNode → Bytes
  name_of node = elim node.name [ none ↦ [] | some name ↦ trim (to_upper name) ]

  unfoldable pub filters_of : FilterNode → List Bytes
  unfolding make_filter name_of
  filters_of node =
      let made : List Bytes = elim (make_filter (name_of node) node) [
        | none ↦ []
        | some f ↦ f ∷ []
      ] in
      if bytes_eq node.tag (codes "filter")
      then if bytes_eq (name_of node) [] then [] else made
      else []

  unfoldable pub make_filters : List FilterNode → List Bytes
  unfolding filters_of
  make_filters [] = []
  make_filters (node ∷ nodes) = filters_of node ++ make_filters nodes

  unfoldable pub make_log_channel : ChannelNode → Option LogChannel
  unfolding make_filters
  make_log_channel node = elim node.id [
    | none ↦ none
    | some id ↦ some (record {
      channel = id;
      filters = elim node.filters [ none ↦ [] | some nodes ↦ make_filters nodes ];
    })
  ]

  -- The channels of an adaptor; `none` is an exception.
  unfoldable pub make_channels : List ChannelNode → Option (List LogChannel)
  unfolding make_log_channel
  make_channels [] = some []
  make_channels (node ∷ nodes) =
      let rest = make_channels nodes in
      if bytes_eq node.tag (codes "sink")
      then elim (make_log_channel node) [
        | none ↦ none
        | some c ↦ elim rest [ none ↦ none | some cs ↦ some (c ∷ cs) ]
      ]
      else rest

  -- No node has the id of the unknown channel.
  abbrev pub HaveKnownIds : List ChannelNode → Type 0
  HaveKnownIds [] = Unit
  HaveKnownIds (node ∷ nodes) =
      ((id : ℤ) → node.id ≡ some id → eqb_ℤ id log_unknown_channel ≡ false) × HaveKnownIds nodes

  IsKnown : Option LogChannel → Type 0
  IsKnown none = Unit
  IsKnown (some c) = eqb_ℤ c.channel log_unknown_channel ≡ false

  make_log_channel-IsKnown :
      (node : ChannelNode)
      → ((id : ℤ) → node.id ≡ some id → eqb_ℤ id log_unknown_channel ≡ false)
      → IsKnown (make_log_channel node)
  unfolding make_log_channel IsKnown
  make_log_channel-IsKnown node k = go node.id k
    where
      go :
          (o : Option ℤ)
          → ((id : ℤ) → o ≡ some id → eqb_ℤ id log_unknown_channel ≡ false)
          → IsKnown (make_log_channel (record node { id = o }))
      go none k = tt
      go (some id) k = k id refl

  -- The channels of a configuration without the id of the unknown channel have known numbers.
  module _ (erase_all_regex : Bytes → Bytes → Option Bytes) where
    abbrev pub AreKnownIfMade : Option (List LogChannel) → Type 0
    AreKnownIfMade none = Unit
    AreKnownIfMade (some cs) = AreKnown erase_all_regex cs

    pub make_channels-AreKnown :
        (nodes : List ChannelNode) → HaveKnownIds nodes → AreKnownIfMade (make_channels nodes)
    unfolding make_channels IsKnown
    make_channels-AreKnown [] k = tt
    make_channels-AreKnown (node ∷ nodes) k =
        go (bytes_eq node.tag (codes "sink")) (make_log_channel node) (make_channels nodes)
          (make_log_channel-IsKnown node k.0) (make_channels-AreKnown nodes k.1)
      where
        go :
            (b : Bool) (made : Option LogChannel) (rest : Option (List LogChannel))
            → IsKnown made
            → AreKnownIfMade rest
            → AreKnownIfMade (
                if b
                then elim made [
                  | none ↦ none
                  | some c ↦ elim rest [ none ↦ none | some cs ↦ some (c ∷ cs) ]
                ]
                else rest)
        go false made rest c cs = cs
        go true none rest c cs = tt
        go true (some m) none c cs = tt
        go true (some m) (some ms) c cs = (c, cs)
