-- ===== src/Proxy/Console.antt =====
-- proxy/console.cpp on a system with POSIX stream descriptors: the lines of the standard input. As
-- Boost.Asio documents it, async_read_until ends with the number of bytes up to the first newline, or
-- with not_found when the buffer is full without one.
pub mod Lines
use proxy_channels.Base.{
  ℕ, zero, suc, ◌+◌, ◌-◌, ◌≤◌, ◌<◌, ◌≡◌, refl, sym, ap, ◌∙◌, List, [], ◌∷◌, ◌++◌, Bytes, Bool, true,
  false, if◌then◌else◌, Option, none, some, length, take, drop, replicate, append-nil, append_assoc,
  Option-cases, inl, inr, arith, ltb, leb,
}
use proxy_channels.Proxy.StreamLogger.{find_newline, is_empty}
use proxy_channels.Proxy.StreamLogger.Text.{lines, rest_of, lines-none, lines-some, lines-append}

-- MAX_BODY_LENGTH
abbrev pub max_body_length : ℕ
max_body_length = 512

pub record Console : Type 0 where
  pub in_buffer : Bytes
  pub is_open : Bool

pub data ErrorCode : Type 0 where
  success not_found failed : ErrorCode

pub data Action : Type 0 where
  read_until_newline : Action
  input_message : Bytes → Action

abbrev pub Call : Type 0
Call = Console × List Action

unfoldable pub start : Console → Call
start s = (s, read_until_newline ∷ [])

unfoldable pub stop : Console → Call
stop s = (record s { is_open = false }, [])

-- sgetn into a string of zeros
unfoldable pub get_bytes : ℕ → Bytes → Bytes
get_bytes n buffer = let got = take n buffer in got ++ replicate (n - length got) 0

unfoldable pub read_bytes : ℕ → Console → Call
unfolding start get_bytes is_empty
read_bytes n s =
    let in_str = get_bytes n s.in_buffer in
    let call = start (record s { in_buffer = drop n s.in_buffer }) in
    (call.0, call.1 ++ (if is_empty in_str then [] else input_message in_str ∷ []))

unfoldable pub read_handler : ErrorCode → ℕ → Console → Call
unfolding read_bytes stop
read_handler success n s = read_bytes n s
read_handler not_found n s = read_bytes n s
read_handler failed n s = stop s

-- The messages of a call.
unfoldable pub messages : List Action → List Bytes
messages [] = []
messages (input_message m ∷ acts) = m ∷ messages acts
messages (read_until_newline ∷ acts) = messages acts

-- The reads that end with what the buffer holds.
unfoldable pub serve : ℕ → Console → List Bytes × Console
unfolding read_handler messages
serve zero s = ([], s)
serve (suc fuel) s = elim (find_newline s.in_buffer) [
  | none ↦ ([], s)
  | some n ↦
      let call = read_handler success (suc n) s in
      let rest = serve fuel call.0 in (messages call.1 ++ rest.0, rest.1)
]

-- What a read of the descriptor brings, and the fuel for all that ends with it. The buffer takes at
-- most max_body_length bytes, and a read asks for no more than it has room for; the rest of the input
-- waits, and when there is no room none comes.
unfoldable pub arrive : Bytes → Console → List Bytes × Console
unfolding serve
arrive bs s =
    let joined = s.in_buffer ++ bs in
    if leb (length joined) max_body_length
    then serve (suc (length joined)) (record s { in_buffer = joined })
    else ([], s)

unfoldable pub run : List Bytes → Console → List Bytes × Console
unfolding arrive
run [] s = ([], s)
run (bs ∷ bss) s =
    let first = arrive bs s in let rest = run bss first.1 in (first.0 ++ rest.0, rest.1)

-- The reads bring no more than the buffer has room for.
abbrev pub AreReads : List Bytes → Console → Type 0
AreReads [] s = Unit
AreReads (bs ∷ bss) s =
    (length (s.in_buffer ++ bs) ≤ max_body_length) × AreReads bss (arrive bs s).1

-- All that arrives.
unfoldable pub joined : List Bytes → Bytes
joined [] = []
joined (bs ∷ bss) = bs ++ joined bss
