-- ===== src/Proxy/Terminal.antt =====
-- proxy/terminal.cpp: the serial port. Boost.Asio completes the operations that a call starts.
pub mod Writing
pub mod Options
use proxy_channels.Base.{
  ℕ, List, [], ◌∷◌, ◌++◌, Bytes, Bool, true, false, ltb, ◌==◌, not, ◌&&◌, ◌||◌, if◌then◌else◌, drop,
  take, length, replicate,
}
use proxy_channels.Oscar.Snac.{resize}

pub record Terminal : Type 0 where
  pub in_buff_size : ℕ
  pub read_buffer : Bytes
  pub write_buffer : Bytes
  pub write_in_progress : Bool
  pub is_opened : Bool
  -- DoWrite is connected to m_sigOutputMessage
  pub output_connected : Bool
  pub input_connected : Bool

-- An outcome of an operation: no error, operation_aborted, or another error.
pub data ErrorCode : Type 0 where
  success aborted failed : ErrorCode

pub data Action : Type 0 where
  async_write_some : Bytes → Action
  async_read_some : Action
  input_message : Bytes → Action
  -- the pool gets Setup as a work unit
  queue_setup : Action
  close_port : Action

abbrev pub Call : Type 0
Call = Terminal × List Action

unfoldable pub is_empty : Bytes → Bool
is_empty [] = true
is_empty (c ∷ s) = false

-- The manager exists, and whether it is stopped.
unfoldable pub setup_async : Bool → Terminal → Call
setup_async stopped s = (
  record s { is_opened = false; write_in_progress = false },
  if stopped then [] else queue_setup ∷ [],
)

unfoldable pub write_start : Terminal → List Action
write_start s = if s.is_opened then async_write_some (take 1 s.write_buffer) ∷ [] else []

-- What follows the options of an open port.
unfoldable pub setup_start : Terminal → Call
unfolding is_empty write_start
setup_start s = if is_empty s.write_buffer then (s, async_read_some ∷ []) else (
  record s { write_in_progress = true },
  write_start (record s { write_in_progress = true }) ++ async_read_some ∷ [],
)

-- `open_error` is the result of open; an exception at an option leaves through the outer handler.
unfoldable pub setup : Bool → Bool → Bool → Terminal → Call
unfolding setup_async setup_start
setup stopped open_error options_set s =
    if stopped
    then (s, [])
    else if open_error
    then setup_async stopped s
    else if options_set
    then setup_start (record s { output_connected = true; is_opened = true })
    else (s, [])

unfoldable pub do_close : ErrorCode → Terminal → Call
do_close aborted s = (s, [])
do_close _ s = (s, close_port ∷ [])

unfoldable pub stop : Terminal → Call
unfolding do_close
stop s = do_close success (record s { output_connected = false; input_connected = false })

unfoldable pub read_complete : Bool → ErrorCode → ℕ → Terminal → Call
unfolding setup_async do_close
read_complete stopped success bytes_transferred s =
    if ltb 1 bytes_transferred
    then (
      record s { read_buffer = replicate s.in_buff_size 0 },
      input_message (resize bytes_transferred s.read_buffer) ∷ async_read_some ∷ [],
    )
    else (s, async_read_some ∷ [])
read_complete stopped aborted bytes_transferred s = setup_async stopped s
read_complete stopped failed bytes_transferred s = do_close failed s

-- replace_all(msg, "\r\n", "\n")
unfoldable pub replace_crlf : Bytes → Bytes
replace_crlf [] = []
replace_crlf (c ∷ []) = c ∷ []
replace_crlf (c ∷ d ∷ s) =
    let rest = replace_crlf (d ∷ s) in if c == 13 && d == 10 then rest else c ∷ rest

unfoldable pub do_write : Bytes → Terminal → Call
unfolding write_start replace_crlf
do_write msg s =
    let t = record s { write_buffer = s.write_buffer ++ replace_crlf msg } in
    if not t.write_in_progress
    then (
      record t { write_in_progress = true },
      write_start (record t { write_in_progress = true }),
    )
    else (t, [])

unfoldable pub write_complete : ErrorCode → Terminal → Call
unfolding is_empty write_start do_close
write_complete success s =
    let t = record s { write_buffer = drop 1 s.write_buffer } in
    if s.is_opened
    then if is_empty t.write_buffer then (record t { write_in_progress = false }, []) else (
      record t { write_in_progress = true },
      write_start (record t { write_in_progress = true }),
    )
    else (s, [])
write_complete aborted s = if s.is_opened then do_close aborted s else (s, [])
write_complete failed s = if s.is_opened then do_close failed s else (s, [])

pub data Event : Type 0 where
  -- whether the manager is stopped, whether open failed, whether the options were set
  set_up : Bool → Bool → Bool → Event
  read_done : Bool → ErrorCode → ℕ → Event
  written : ErrorCode → Event
  message : Bytes → Event
  stopped : Event

unfoldable pub step : Event → Terminal → Call
step (set_up over open_error options_set) s = setup over open_error options_set s
step (read_done over ec n) s = read_complete over ec n s
step (written ec) s = write_complete ec s
step (message msg) s = do_write msg s
step stopped s = stop s
