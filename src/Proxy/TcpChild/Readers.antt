-- ===== src/Proxy/TcpChild/Readers.antt =====
-- proxy/tcpserver_child.cpp: the read handlers of the four protocols. `size_t` is 64 bits wide.
pub mod Stream
pub mod Telnet
pub mod Oscar
pub mod EtfLog
use proxy_channels.Base.{
  ℕ, ◌+◌, ◌-◌, ◌%◌, ◌^◌, List, [], ◌∷◌, Bytes, Bool, true, false, ltb, ◌==◌, if◌then◌else◌, length,
  take, drop, replicate, Option, none, some, get_elem?, Result, ok, err, ◌>>=◌, out_of_bounds,
}
use proxy_channels.Oscar.Endian.{Endian, object_value}
use proxy_channels.Oscar.Memory.{read}
use proxy_channels.Oscar.Tlv.{get_value_item}
use proxy_channels.Oscar.Snac.{resize, flap_header_size, flap_mark}
use proxy_channels.Oscar.Flap.Parser.{flap_data_size_offset}
use proxy_channels.Proxy.TcpChild.{
  Child, ReadHandler, read_handler, read_data_handler, Action, read_some, read_exact, input_message,
  destroy_me,
}

-- sizeof(SEtfLogHeader), and the offset of its msgSize
abbrev pub etf_log_header_size : ℕ
etf_log_header_size = 12

abbrev pub msg_size_offset : ℕ
msg_size_offset = 8

-- 'L'
abbrev pub etf_log_mark : ℕ
etf_log_mark = 76

pub record Reader : Type 0 where
  pub child : Child
  pub in_buff_size : ℕ
  pub in_buffer : Bytes
  pub body_read_bytes : ℕ
  pub header_read_bytes : ℕ
  pub body_size : ℕ

abbrev pub Handled : Type 0
Handled = Result (Reader × List Action)

unfoldable pub disconnect : Reader → Reader × List Action
disconnect s = let call = destroy_me s.child in (record s { child = call.0 }, call.1)

-- `a - b` on size_t
unfoldable pub size_sub : ℕ → ℕ → ℕ
size_sub a b = (a + 2 ^ 64 - b) % 2 ^ 64

unfoldable pub size_add : ℕ → ℕ → ℕ
size_add a b = (a + b) % 2 ^ 64
