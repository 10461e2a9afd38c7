-- ===== src/LogClient/Stopping.antt =====
-- What `Stop` of the client leaves on the way: its wait ends with the queue, not with the write.
use proxy_channels.Base.{◌≡◌, refl, ap, ◌∙◌, [], ◌∷◌, ◌++◌, Bool, false, some}
use proxy_channels.Base.Int.{ℤ}
use proxy_channels.Oscar.Endian.{Endian}
use proxy_channels.Utils.Timestamp.{Timespec}
use proxy_channels.Utils.LockQueue
use proxy_channels.Utils.LogBuilder.{LogPackage, logging_to_server, stop_command}
use proxy_channels.LogClient.{Client, control_package, push, begin_stop, close_log_file}
use proxy_channels.LogClient.Wire.{
  ArePackable, packets, unsent, push-taken, next-packed, packed_state,
}
use proxy_channels.LogClient.Session.{Session, finish_stop, close_session}

module _ (e : Endian) (debug : Bool) where
  pub push-packed :
      (p : LogPackage) (s : Client)
      → s.queue ≡ []
      → s.write_in_progress ≡ false
      → s.logging_mode ≡ logging_to_server
      → s.stop_in_progress ≡ false
      → (k : ArePackable e debug (p ∷ []))
      → (push e debug p s).0
        ≡ packed_state e debug (record s { queue = s.queue ++ p ∷ [] }) [] p (k.0 s.next_request).0
  push-packed p s empty idle server running k =
      let packed = k.0 s.next_request in
      ap (λ c. c.0) (push-taken e debug p s server running)
      ∙ next-packed e debug (record s { queue = s.queue ++ p ∷ [] }) p [] packed.0
          (ap (λ q. q ++ p ∷ []) empty) idle packed.1

  unsent-packed_state :
      (p : LogPackage) (s : Client) (k : ArePackable e debug (p ∷ []))
      → unsent e debug (packed_state e debug s [] p (k.0 s.next_request).0) []
        ≡ packets e debug s.next_request (p ∷ [])
  unfolding packed_state packets
  unsent-packed_state p s k = rw (k.0 s.next_request).1 refl

  -- When an idle client in server mode, with an empty queue, is stopped, and the stop record can be
  -- packed, then the socket is closed while the whole packet of that record is still to be written.
  pub finish_stop-unsent :
      (now : Timespec) (channel : ℤ) (s : Session)
      → s.client.queue ≡ []
      → s.client.write_in_progress ≡ false
      → s.client.logging_mode ≡ logging_to_server
      → s.client.stop_in_progress ≡ false
      → ArePackable e debug (control_package stop_command now channel [] [] ∷ [])
      → let stopped = record s { client = (begin_stop e debug now channel s.client).0 } in
        (finish_stop stopped ≡ some (close_session stopped))
        × (unsent e debug (close_session stopped).client []
            ≡ packets e debug s.client.next_request
                (control_package stop_command now channel [] [] ∷ []))
  unfolding finish_stop LockQueue.empty close_session begin_stop close_log_file packed_state
  finish_stop-unsent now channel s empty idle server running k =
      let p = control_package stop_command now channel [] [] in
      let pushed = push-packed p s.client empty idle server running k in
      (
        rw (ap (λ c. c.queue) pushed) refl,
        ap (λ c. unsent e debug c []) pushed
            ∙ unsent-packed_state p (record s.client { queue = s.client.queue ++ p ∷ [] }) k,
      )
