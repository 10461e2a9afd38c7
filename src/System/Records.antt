-- ===== src/System/Records.antt =====
-- From the calls of a program that logs to the records of the logger: behind the adaptor, each of its
-- log channels (proxy/log_channel.cpp) gives the logger (proxy/logger.cpp) a record.
use mathlib.Core.List.{Perm, perm_middle}
use mathlib.Core.List.Perm
use mathlib.Core.Path.{subst}
use proxy_channels.Base.{
  ℕ, ◌*◌, ◌<◌, ◌≡◌, refl, sym, ap, ◌∙◌, List, [], ◌∷◌, ◌++◌, Bytes, Bool, false, length, map,
  Option, none, some, Result, ok, ◌>>=◌,
}
use proxy_channels.Oscar.Endian.{Endian}
use proxy_channels.Utils.LogBuilder.{LogPackage}
use proxy_channels.LogClient.{Client, Event, run}
use proxy_channels.LogClient.Wire.Outstanding.{accepted_all, idle_wired, wire, ArePossible}
use proxy_channels.Proxy.OscarAdaptor.EndToEnd.{received}
use proxy_channels.Proxy.TcpChild.Readers.{Reader}
use proxy_channels.Proxy.TcpChild.Reassembly.{IsIdle}
use proxy_channels.Proxy.LogChannel.{LogChannel, to_log}
use proxy_channels.Proxy.LogChannel.Delivery.{push_all, insert_all, AreKnown, to_log-push_all}
use proxy_channels.Proxy.Logger.{insert}
use proxy_channels.Proxy.Logger.Delivery.{IsSorted, insert-IsSorted}
use proxy_channels.Proxy.Logger.Running.Conservation.{insert-perm}
use proxy_channels.System.LogPath.{take_in, AreSendable, take_in-wire}

module _ (erase_all_regex : Bytes → Bytes → Option Bytes) (channels : List LogChannel)
    (warning : LogPackage) where
  -- The records of the logger after the adaptor has handed on what it got.
  unfoldable pub record_all : List (Option LogPackage) → List LogPackage → List LogPackage
  record_all [] records = records
  record_all (none ∷ ps) records = record_all ps records
  record_all (some p ∷ ps) records =
      record_all ps (push_all erase_all_regex warning (to_log erase_all_regex channels p) records)

  -- A record for each package and each channel.
  abbrev pub records_of : List LogPackage → List LogPackage
  records_of [] = []
  records_of (p ∷ ps) = let rest = records_of ps in to_log erase_all_regex channels p ++ rest

  insert_all-perm :
      (ps records : List LogPackage) → Perm (insert_all erase_all_regex ps records) (ps ++ records)
  unfolding insert_all
  insert_all-perm [] records = Perm.rfl
  insert_all-perm (p ∷ ps) records =
      Perm.trans (insert_all-perm ps (insert p records))
        (Perm.trans (Perm.append_left ps (insert-perm p records)) (perm_middle ps records))

  perm_front : (xs ys zs : List LogPackage) → Perm (xs ++ (ys ++ zs)) ((ys ++ xs) ++ zs)
  perm_front xs [] zs = Perm.rfl
  perm_front xs (y ∷ ys) zs =
      Perm.trans (perm_middle xs (ys ++ zs)) (Perm.cons y (perm_front xs ys zs))

  insert_all-IsSorted :
      (ps records : List LogPackage)
      → IsSorted records
      → IsSorted (insert_all erase_all_regex ps records)
  unfolding insert_all
  insert_all-IsSorted [] records s = s
  insert_all-IsSorted (p ∷ ps) records s =
      insert_all-IsSorted ps (insert p records) (insert-IsSorted p records s)

  -- What holds of the records after some packages.
  abbrev pub AreRecorded : List LogPackage → List LogPackage → List LogPackage → Type 0
  AreRecorded ps records after = Perm after (records_of ps ++ records) × IsSorted after

  record_all-AreRecorded :
      (ps records : List LogPackage)
      → AreKnown erase_all_regex channels
      → IsSorted records
      → AreRecorded ps records (record_all (map (λ p. some p) ps) records)
  unfolding record_all
  record_all-AreRecorded [] records k s = (Perm.rfl, s)
  record_all-AreRecorded (p ∷ ps) records k s =
      let news = to_log erase_all_regex channels p in
      let after = insert_all erase_all_regex news records in
      let rest = record_all-AreRecorded ps after k (insert_all-IsSorted news records s) in
      let same = to_log-push_all erase_all_regex warning p channels records k in
      subst (λ r. AreRecorded (p ∷ ps) records (record_all (map (λ q. some q) ps) r)) (sym same)
        (
          Perm.trans rest.0 (
              Perm.trans (Perm.append_left (records_of ps) (insert_all-perm news records))
                (perm_front (records_of ps) news records)),
          rest.1,
        )

  -- What the server does with the bytes of a client.
  unfoldable pub log_in :
      Endian → ℕ → ℕ → ℕ → Bytes → Reader → List LogPackage → Result (List LogPackage)
  log_in e reads fuel unset input r records = do
    packages ← take_in e reads fuel unset input r
    ok (record_all packages records)

  pub log_in-wire :
      (e : Endian) (debug : Bool) (vs : List Event) (s : Client) (r : Reader) (reads fuel unset : ℕ)
      (records : List LogPackage)
      → s.queue ≡ []
      → s.write_in_progress ≡ false
      → ArePossible e debug vs s
      → AreSendable (accepted_all e debug vs s)
      → (run e debug vs s).queue ≡ []
      → (run e debug vs s).write_in_progress ≡ false
      → IsIdle e r
      → 2 * length (accepted_all e debug vs s) < reads
      → 6 < fuel
      → AreKnown erase_all_regex channels
      → IsSorted records
      → (after : List LogPackage) × ((log_in e reads fuel unset
              (wire e debug vs (idle_wired s))
              r
              records
            ≡ ok after)
          × AreRecorded
              (map (λ p. received p.command unset p) (accepted_all e debug vs s))
              records
              after)
  unfolding log_in
  log_in-wire e debug vs s r reads fuel unset records h1 h2 h3 h4 h5 h6 h7 h8 h9 known sorted =
      let got = map (λ p. received p.command unset p) (accepted_all e debug vs s) in
      (
        record_all (map (λ p. some p) got) records,
        (
          ap (λ t. t >>= λ ps. ok (record_all ps records))
              (take_in-wire e debug vs s r reads fuel unset h1 h2 h3 h4 h5 h6 h7 h8 h9
                ∙ ap ok (twice unset (accepted_all e debug vs s))),
          record_all-AreRecorded got records known sorted,
        ),
      )
    where
      twice :
          (unset : ℕ) (ps : List LogPackage)
          → map (λ p. some (received p.command unset p)) ps
            ≡ map (λ q. some q) (map (λ p. received p.command unset p) ps)
      twice unset [] = refl
      twice unset (p ∷ ps) = ap (λ l. some (received p.command unset p) ∷ l) (twice unset ps)
