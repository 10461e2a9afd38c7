-- ===== src/LogClient/Session.antt =====
-- The life of the client: its constructor, which connects, and `Stop`. How the attempt of a number goes
-- is an argument.
use proxy_channels.Base.{
  ℕ, zero, suc, ◌+◌, ◌-◌, ◌%◌, ◌^◌, ◌<◌, ◌≤◌, ◌≡◌, refl, sym, ap, ◌∙◌, List, [], ◌∷◌, ◌++◌, Bytes,
  codes, Bool, true, false, not, ◌&&◌, ltb, leb, if◌then◌else◌, Option, none, some, Result, ok, err,
  out_of_fuel, cannot_connect, ◌>>=◌, Bool-cases, inl, inr, arith,
}
use proxy_channels.Base.Int.{ℤ, eqb_ℤ}
use proxy_channels.Base.Settings.{PropertyTree, get_string, get_number}
use proxy_channels.Oscar.Endian.{Endian}
use proxy_channels.Utils.Timestamp.{Timespec}
use proxy_channels.Utils.LockQueue
use proxy_channels.Utils.LogBuilder.{
  Severity, string_to_severity, logging_to_server, no_logging, log_internal_channel,
}
use proxy_channels.LogClient.{Client, Action, throw, open_new_log_file, begin_stop}

pub record Settings : Type 0 where
  pub host : Bytes
  pub port : ℕ
  pub threshold_severity : Severity
  pub tag_size : ℕ
  pub max_message_size : ℕ
  pub retry_count : ℕ

-- `to_upper` is Boost's; `parse16` and `parse64` convert to uint16_t and size_t.
unfoldable pub settings :
    (to_upper : Bytes → Bytes) (parse16 parse64 : Bytes → Option ℕ) → PropertyTree → Settings
settings to_upper parse16 parse64 pt = record {
  host = get_string pt (codes "host") (codes "localhost");
  port = get_number parse16 pt (codes "port") 2003;
  threshold_severity =
      string_to_severity to_upper (get_string pt (codes "severity") (codes "DEBUG"));
  tag_size = get_number parse64 pt (codes "module_tag_size") 3;
  max_message_size = get_number parse64 pt (codes "max_message_size") 4096;
  retry_count = get_number parse64 pt (codes "retry") 5;
}

pub record Session : Type 0 where
  pub client : Client
  pub socket_open : Bool
  -- the thread that runs the io service
  pub running : Bool

abbrev pub fresh : Client
fresh = record {
  queue = [];
  write_in_progress = false;
  stop_in_progress = false;
  logging_mode = no_logging;
  current_message = [];
  transferred = 0;
  next_request = 0;
}

-- How an attempt goes: it connects; boost::asio::connect fails, and leaves the socket open when it was
-- a connection to an endpoint that failed; or the resolver throws.
pub data Attempt : Type 0 where
  connects : Attempt
  fails : (socket_open : Bool) → Attempt
  resolve_throws : Attempt

unfoldable pub is_failure : Attempt → Bool
is_failure connects = false
is_failure (fails socket_open) = true
is_failure resolve_throws = false

-- The do-while of the constructor: how the last attempt went, and the number of the next one.
unfoldable pub connect_loop : ℕ → (ℕ → Attempt) → ℕ → ℕ → Result (Attempt × ℕ)
unfolding is_failure
connect_loop zero connect retry_number retry_count = err out_of_fuel
connect_loop (suc fuel) connect retry_number retry_count =
    let next = (retry_number + 1) % 2 ^ 64 in
    let rest = connect_loop fuel connect next retry_count in
    if is_failure (connect retry_number) && leb next retry_count
    then rest
    else ok (connect retry_number, next)

-- `Stop` behind its wait.
unfoldable pub close_session : Session → Session
close_session s = record s { socket_open = false; running = false }

-- `WaitQueueEmpty` returns when the queue is empty.
unfoldable pub finish_stop : Session → Option Session
unfolding close_session LockQueue.empty
finish_stop s = if LockQueue.empty s.client.queue then some (close_session s) else none

-- What the constructor ends with: a client, an exception, or the end of the process.
pub data Made : Type 0 where
  constructed : Session → List Action → Made
  threw : List Action → Made
  terminated : List Action → Made

module _ (e : Endian) (debug : Bool) (now : Timespec) (channel : ℤ) where
  unfoldable pub connected : Session × List Action
  unfolding open_new_log_file
  connected =
      let s = record fresh { logging_mode = logging_to_server } in
      let call : Client × List Action =
        if not (eqb_ℤ channel log_internal_channel)
        then open_new_log_file e debug (codes "LogTest") (codes "rpc") now channel s
        else (s, []) in
      (record { client = call.0; socket_open = true; running = true }, call.1)

  -- The queue of the fresh client is empty, so that `Stop` does not wait. Its shutdown of a socket
  -- that is open and not connected throws, while the thread of the client is not joined, and that
  -- ends the process.
  unfoldable pub not_connected : Bool → Made
  unfolding begin_stop
  not_connected socket_open =
      let call = begin_stop e debug now channel fresh in
      if socket_open then terminated call.1 else threw (call.1 ++ throw cannot_connect ∷ [])

  -- What follows the last attempt. An exception of the resolver leaves the thread joinable, too.
  unfoldable pub after_attempt : Attempt → Made
  unfolding connected not_connected
  after_attempt connects = constructed connected.0 connected.1
  after_attempt (fails socket_open) = not_connected socket_open
  after_attempt resolve_throws = terminated []

  unfoldable pub construct : ℕ → (ℕ → Attempt) → Settings → Result Made
  unfolding connect_loop after_attempt
  construct fuel connect cfg = do
    (last, retry_number) ← connect_loop fuel connect 1 cfg.retry_count
    ok (after_attempt last)

-- How the attempts from `first` on went: the loop left before number `next`.
pub record Attempted (connect : ℕ → Attempt) (first retry_count : ℕ) (last : Attempt) (next : ℕ)
    : Type 0 where
  pub some_made : first < next
  pub outcome : (k : ℕ) → k + 1 ≡ next → connect k ≡ last
  pub earlier : (k : ℕ) → first ≤ k → k + 1 < next → is_failure (connect k) ≡ true
  pub within : retry_count + 1 < next → next ≡ first + 1
  pub all_made : is_failure last ≡ true → retry_count < next

module _ (connect : ℕ → Attempt) (retry_count : ℕ) (small : retry_count + 1 < 2 ^ 64) where
  Loop-Attempted : ℕ → ℕ → Type 0
  Loop-Attempted fuel first =
      (a : Attempt) × (n : ℕ) × ((connect_loop fuel connect first retry_count ≡ ok (a, n))
        × Attempted connect first retry_count a n)

  connect_loop-Attempted :
      (fuel first : ℕ)
      → retry_count < fuel + first
      → 0 < fuel
      → first + 1 < 2 ^ 64
      → Loop-Attempted fuel first
  unfolding connect_loop Loop-Attempted
  connect_loop-Attempted zero first enough some_fuel low = absurd (omega arith)
  connect_loop-Attempted (suc fuel) first enough some_fuel low =
      go (is_failure (connect first)) (leb (first + 1) retry_count) refl refl
        (λ l. connect_loop-Attempted fuel (first + 1) (omega arith) (omega arith) (omega arith))
    where
      next : (first + 1) % 2 ^ 64 ≡ first + 1
      next = omega arith

      once :
          (b : Bool)
          → is_failure (connect first) ≡ b
          → (b ≡ true → retry_count < first + 1)
          → Attempted connect first retry_count (connect first) (first + 1)
      once b h done = record {
        some_made = omega arith;
        outcome = λ k last. ap connect (omega arith);
        earlier = λ k from before. absurd (omega arith);
        within = λ l. refl;
        all_made = λ f. done (sym h ∙ f);
      }

      go :
          (b more : Bool)
          → is_failure (connect first) ≡ b
          → leb (first + 1) retry_count ≡ more
          → (first + 1 ≤ retry_count → Loop-Attempted fuel (first + 1))
          → Loop-Attempted (suc fuel) first
      go false more h l again =
          (connect first, first + 1, (rw (next, h) refl, once false h (λ q. absurd (ground arith))))
      go true false h l again =
          (connect first, first + 1, (rw (next, h, l) refl, once true h (λ q. ground arith)))
      go true true h l again = longer (again (ground arith))
        where
          same : (k : ℕ) → first ≤ k → ltb first k ≡ false → k ≡ first
          same k from here = ground arith

          longer : Loop-Attempted fuel (first + 1) → Loop-Attempted (suc fuel) first
          longer (b, n, (r, a)) = (
            b,
            n,
            (
              rw (next, h, l) r,
              record {
                some_made = omega (arith, a.some_made);
                outcome = a.outcome;
                earlier = λ k from before. elim (Bool-cases (ltb first k)) [
                  | inl above ↦ a.earlier k (ground arith) before
                  | inr here ↦ ap (λ i. is_failure (connect i)) (same k from here) ∙ h
                ];
                within = λ q. absurd (ground (arith, a.within q));
                all_made = a.all_made;
              },
            ),
          )

  -- The attempts from 1 to `n`: those before it failed, and it did not or was the last one allowed.
  pub record EndsAt (n : ℕ) : Type 0 where
    pub some_made : 0 < n
    pub within : n < retry_count + 2
    pub earlier : (k : ℕ) → 0 < k → k < n → is_failure (connect k) ≡ true
    pub all_made : is_failure (connect n) ≡ true → retry_count ≤ n

  pub construct-EndsAt :
      (e : Endian) (debug : Bool) (now : Timespec) (channel : ℤ) (cfg : Settings) (fuel : ℕ)
      → cfg.retry_count ≡ retry_count
      → retry_count ≤ fuel
      → 0 < fuel
      → (n : ℕ) × (EndsAt n
          × (construct e debug now channel fuel connect cfg
              ≡ ok (after_attempt e debug now channel (connect n))))
  unfolding construct Loop-Attempted
  construct-EndsAt e debug now channel cfg fuel same enough some_fuel =
      go (connect_loop-Attempted fuel 1 (omega arith) some_fuel (omega arith))
    where
      goal : Type 0
      goal =
          (n : ℕ) × (EndsAt n
            × (construct e debug now channel fuel connect cfg
                ≡ ok (after_attempt e debug now channel (connect n))))

      before : (n : ℕ) → 1 < n → (retry_count + 1 < n → n ≡ 2) → n - 1 < retry_count + 2
      before n l h = ground (arith, h)

      go : Loop-Attempted fuel 1 → goal
      go (last, n, (r, a)) =
          let own = a.outcome (n - 1) (omega (arith, a.some_made)) in
          (
            n - 1,
            (
              record {
                some_made = omega (arith, a.some_made);
                within = before n a.some_made a.within;
                earlier = λ k from to. a.earlier k from (omega (arith, a.some_made));
                all_made = λ f. omega (arith, a.all_made (sym (ap is_failure own) ∙ f));
              },
              rw (same, r, own) refl,
            ),
          )
