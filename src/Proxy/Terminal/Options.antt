-- ===== src/Proxy/Terminal/Options.antt =====
-- The name and the options of a serial port, as proxy/terminal.cpp reads them from its configuration.
-- `to_upper` is Boost's, `parse` converts to the number type.
use proxy_channels.Base.{
  ℕ, ◌≡◌, ◌≢◌, refl, ap, inl, inr, List, [], ◌∷◌, ◌++◌, Bytes, codes, bytes_eq, Bool, true, false,
  ◌==◌, ◌&&◌, if◌then◌else◌, Option, none, some, Bool-cases, bytes_eq-eq,
}
use proxy_channels.Base.Settings.{PropertyTree, or_default, get_string, get_number}
use proxy_channels.Base.Decimal.{to_string}

-- boost::algorithm::starts_with
unfoldable pub starts_with : Bytes → Bytes → Bool
starts_with s [] = true
starts_with [] (c ∷ t) = false
starts_with (a ∷ s) (c ∷ t) = a == c && starts_with s t

pub data FlowControl : Type 0 where
  no_flow software hardware : FlowControl

pub data Parity : Type 0 where
  no_parity odd even : Parity

pub data StopBits : Type 0 where
  one one_point_five two : StopBits

-- The port name; `none` is the exception for a port number that is missing or does not convert.
unfoldable pub make_port_name : (Bytes → Option ℕ) → PropertyTree → Option Bytes
make_port_name parse pt = elim (pt (codes "port")) [
  | none ↦ none
  | some v ↦ elim (parse v) [
    | none ↦ none
    | some n ↦ some (get_string pt (codes "port_name.linux") (codes "/dev/tty") ++ to_string n)
  ]
]

-- What a configured text, in capitals, stands for, and the text that shows it.
unfoldable pub flow_control_of : Bytes → FlowControl × Bytes
unfolding starts_with
flow_control_of fc =
    if starts_with fc (codes "SOFT")
    then (software, codes "XON/XOFF")
    else if starts_with fc (codes "HARD")
    then (hardware, codes "HARD")
    else (no_flow, codes "NONE")

unfoldable pub parity_of : Bytes → Parity × Bytes
parity_of text =
    if bytes_eq text (codes "ODD")
    then (odd, codes "ODD")
    else if bytes_eq text (codes "EVEN")
    then (even, codes "EVEN")
    else (no_parity, codes "NONE")

unfoldable pub stop_bits_of : Bytes → StopBits × Bytes
stop_bits_of text =
    if bytes_eq text (codes "1.5")
    then (one_point_five, codes "1.5")
    else if bytes_eq text (codes "2")
    then (two, codes "2")
    else (one, codes "1")

module _ (to_upper : Bytes → Bytes) (pt : PropertyTree) where
  unfoldable pub flow_control_type : FlowControl × Bytes
  unfolding flow_control_of
  flow_control_type =
      flow_control_of (to_upper (get_string pt (codes "option.flow_control") (codes "NONE")))

  unfoldable pub parity_type : Parity × Bytes
  unfolding parity_of
  parity_type = parity_of (to_upper (get_string pt (codes "option.parity") (codes "NONE")))

  -- It reads the path of the parity.
  unfoldable pub stop_bits : StopBits × Bytes
  unfolding stop_bits_of
  stop_bits = stop_bits_of (to_upper (get_string pt (codes "option.parity") (codes "1")))

pub data PortOption : Type 0 where
  baud_rate : ℕ → PortOption
  flow_control : FlowControl → PortOption
  parity : Parity → PortOption
  stop_bits_option : StopBits → PortOption
  character_size : ℕ → PortOption

-- The options that `Setup` sets, in its order.
unfoldable pub port_options :
    (to_upper : Bytes → Bytes) → (Bytes → Option ℕ) → PropertyTree → List PortOption
unfolding flow_control_type parity_type stop_bits
port_options to_upper parse pt =
    baud_rate (get_number parse pt (codes "option.baud_rate") 115200)
    ∷ flow_control (flow_control_type to_upper pt).0
    ∷ parity (parity_type to_upper pt).0
    ∷ stop_bits_option (stop_bits to_upper pt).0
    ∷ character_size (get_number parse pt (codes "option.character_size") 8)
    ∷ []

-- The settings that `options` stand for, as the log shows them at setup.
unfoldable pub setup_lines : (Bytes → Bytes) → (Bytes → Option ℕ) → PropertyTree → Bytes → Bytes
unfolding flow_control_type parity_type stop_bits
setup_lines to_upper parse pt name =
    codes "UART_CLIENT connected on "
    ++ name
    ++ 10 ∷ []
    ++ codes "                      baud rate         : "
    ++ to_string (get_number parse pt (codes "option.baud_rate") 115200)
    ++ 10 ∷ []
    ++ codes "                      flow control      : "
    ++ (flow_control_type to_upper pt).1
    ++ 10 ∷ []
    ++ codes "                      parity            : "
    ++ (parity_type to_upper pt).1
    ++ 10 ∷ []
    ++ codes "                      stop bits         : "
    ++ (stop_bits to_upper pt).1
    ++ 10 ∷ []
    ++ codes "                      character size    : "
    ++ to_string (get_number parse pt (codes "option.character_size") 8)
    ++ 10 ∷ []

parity_of_other :
    (v : Bytes)
    → bytes_eq v (codes "ODD") ≡ false
    → bytes_eq v (codes "EVEN") ≡ false
    → (parity_of v).0 ≡ no_parity
unfolding parity_of
parity_of_other v not_odd not_even = rw (not_odd, not_even) refl

one_stop_bit : (v : Bytes) → (parity_of v).0 ≢ no_parity → (stop_bits_of v).0 ≡ one
unfolding stop_bits_of bytes_eq
one_stop_bit v h = elim (Bool-cases (bytes_eq v (codes "ODD"))) [
  | inl is_odd ↦ ap (λ w. (stop_bits_of w).0) (bytes_eq-eq v (codes "ODD") is_odd)
  | inr not_odd ↦ elim (Bool-cases (bytes_eq v (codes "EVEN"))) [
    | inl is_even ↦ ap (λ w. (stop_bits_of w).0) (bytes_eq-eq v (codes "EVEN") is_even)
    | inr not_even ↦ absurd (h (parity_of_other v not_odd not_even))
  ]
]

-- If "1" is its own upper case, a port with a parity has one stop bit, whatever its configuration
-- says of stop bits.
pub stop_bits-parity :
    (to_upper : Bytes → Bytes) (pt : PropertyTree)
    → to_upper (codes "1") ≡ codes "1"
    → (parity_type to_upper pt).0 ≢ no_parity
    → (stop_bits to_upper pt).0 ≡ one
unfolding parity_type stop_bits bytes_eq
stop_bits-parity to_upper pt one_upper = go (pt (codes "option.parity"))
  where
    go :
        (o : Option Bytes)
        → (parity_of (to_upper (or_default o (codes "NONE")))).0 ≢ no_parity
        → (stop_bits_of (to_upper (or_default o (codes "1")))).0 ≡ one
    go (some v) h = one_stop_bit (to_upper v) h
    go none h = ap (λ w. (stop_bits_of w).0) one_upper
