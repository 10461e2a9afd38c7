-- ===== src/Proxy/TcpServer/Clients.antt =====
-- The connections of a server are told apart by their ids.
use proxy_channels.Base.{
  ℕ, ◌+◌, ◌%◌, ◌^◌, ◌<◌, ◌≡◌, refl, ap, List, [], ◌∷◌, ◌++◌, Bytes, true, false, ◌==◌,
  if◌then◌else◌, Bool-cases, inl, inr, arith, ◌⊎◌,
}
use proxy_channels.Proxy.TcpChild.{Child, send_message}
use proxy_channels.Proxy.TcpServer.{
  Server, generate_id, new_client, accept_handler, erase_first, erase_client, stop, start, output,
  Event, accepted, erased, message, stopped, started, step,
}

-- The ids of the connections.
abbrev pub ids : List Child → List ℕ
ids [] = []
ids (c ∷ cs) = c.id ∷ ids cs

-- Ids rise along the list and stay below the counter.
abbrev pub AreBelow : ℕ → List ℕ → Type 0
AreBelow bound [] = Unit
AreBelow bound (n ∷ ns) = (n < bound) × AreBelow bound ns

abbrev pub AreAbove : ℕ → List ℕ → Type 0
AreAbove bound [] = Unit
AreAbove bound (n ∷ ns) = (bound < n) × AreAbove bound ns

abbrev pub IsRising : List ℕ → Type 0
IsRising [] = Unit
IsRising (n ∷ ns) = AreAbove n ns × IsRising ns

abbrev pub HasIds : Server → Type 0
HasIds s = AreBelow s.counter (ids s.clients) × IsRising (ids s.clients)

unfoldable pub erase : ℕ → List ℕ → List ℕ
erase id [] = []
erase id (n ∷ ns) = let rest = erase id ns in if n == id then ns else n ∷ rest

AreBelow-weaken : (m n : ℕ) (ns : List ℕ) → m < n → AreBelow m ns → AreBelow n ns
AreBelow-weaken m n [] h r = tt
AreBelow-weaken m n (k ∷ ns) h r = (omega (arith, r.0), AreBelow-weaken m n ns h r.1)

AreBelow-add : (n k : ℕ) (ns : List ℕ) → k < n → AreBelow n ns → AreBelow n (ns ++ k ∷ [])
AreBelow-add n k [] h r = (h, tt)
AreBelow-add n k (d ∷ ns) h r = (r.0, AreBelow-add n k ns h r.1)

AreAbove-add : (n k : ℕ) (ns : List ℕ) → n < k → AreAbove n ns → AreAbove n (ns ++ k ∷ [])
AreAbove-add n k [] h a = (h, tt)
AreAbove-add n k (d ∷ ns) h a = (a.0, AreAbove-add n k ns h a.1)

IsRising-add : (k : ℕ) (ns : List ℕ) → AreBelow k ns → IsRising ns → IsRising (ns ++ k ∷ [])
IsRising-add k [] r h = (tt, tt)
IsRising-add k (d ∷ ns) r h = (AreAbove-add d k ns r.0 h.0, IsRising-add k ns r.1 h.1)

AreBelow-erase : (n id : ℕ) (ns : List ℕ) → AreBelow n ns → AreBelow n (erase id ns)
unfolding erase
AreBelow-erase n id [] r = tt
AreBelow-erase n id (k ∷ ns) r = elim (Bool-cases (k == id)) [
  | inl e ↦ rw e r.1
  | inr e ↦ rw e (r.0, AreBelow-erase n id ns r.1)
]

AreAbove-erase : (n id : ℕ) (ns : List ℕ) → AreAbove n ns → AreAbove n (erase id ns)
unfolding erase
AreAbove-erase n id [] a = tt
AreAbove-erase n id (k ∷ ns) a = elim (Bool-cases (k == id)) [
  | inl e ↦ rw e a.1
  | inr e ↦ rw e (a.0, AreAbove-erase n id ns a.1)
]

IsRising-erase : (id : ℕ) (ns : List ℕ) → IsRising ns → IsRising (erase id ns)
unfolding erase
IsRising-erase id [] h = tt
IsRising-erase id (k ∷ ns) h = elim (Bool-cases (k == id)) [
  | inl e ↦ rw e h.1
  | inr e ↦ rw e (AreAbove-erase k id ns h.0, IsRising-erase id ns h.1)
]

ids-erase_first : (id : ℕ) (cs : List Child) → ids (erase_first id cs) ≡ erase id (ids cs)
unfolding erase_first erase
ids-erase_first id [] = refl
ids-erase_first id (c ∷ cs) = elim (Bool-cases (c.id == id)) [
  | inl e ↦ rw e refl
  | inr e ↦ rw e (ap (λ l. c.id ∷ l) (ids-erase_first id cs))
]

ids-add : (c : Child) (cs : List Child) → ids (cs ++ c ∷ []) ≡ ids cs ++ c.id ∷ []
ids-add c [] = refl
ids-add c (d ∷ cs) = ap (λ l. d.id ∷ l) (ids-add c cs)

send_message-id : (msg : Bytes) (c : Child) → (send_message msg c).0.id ≡ c.id
unfolding send_message
send_message-id msg c = ground arith

ids-output : (msg : Bytes) (cs : List Child) → ids (output msg cs).0 ≡ ids cs
unfolding output
ids-output msg [] = refl
ids-output msg (c ∷ cs) = ground (arith, send_message-id msg c, ids-output msg cs)

-- If the ids of the connections rise and are below the counter, then so they are after every event,
-- while the counter does not wrap.
pub step-HasIds : (v : Event) (s : Server) → s.counter + 1 < 2 ^ 64 → HasIds s → HasIds (step v s)
unfolding step accept_handler generate_id new_client erase_client stop start
step-HasIds (accepted true) s room h = h
step-HasIds (accepted false) s room h =
    rw (next, ids-add (new_client s.counter) s.clients)
      (
        AreBelow-add (s.counter + 1) s.counter (ids s.clients) (omega arith)
            (AreBelow-weaken s.counter (s.counter + 1) (ids s.clients) (omega arith) h.0),
        IsRising-add s.counter (ids s.clients) h.0 h.1,
      )
  where
    next : (s.counter + 1) % 2 ^ 64 ≡ s.counter + 1
    next = omega arith
step-HasIds (erased id) s room h =
    rw (ids-erase_first id s.clients)
      (AreBelow-erase s.counter id (ids s.clients) h.0, IsRising-erase id (ids s.clients) h.1)
step-HasIds (message msg) s room h = rw (ids-output msg s.clients) h
step-HasIds stopped s room h = (tt, tt)
step-HasIds started s room h = h

abbrev pub IsAmong : ℕ → List ℕ → Type 0
IsAmong id [] = ⊥
IsAmong id (n ∷ ns) = (n ≡ id) ⊎ IsAmong id ns

AreAbove-among : (n id : ℕ) (ns : List ℕ) → AreAbove n ns → IsAmong id ns → n < id
AreAbove-among n id [] a m = absurd m
AreAbove-among n id (k ∷ ns) a (inl e) = omega (arith, a.0, e)
AreAbove-among n id (k ∷ ns) a (inr m) = AreAbove-among n id ns a.1 m

erase-none : (id : ℕ) (ns : List ℕ) → IsRising ns → IsAmong id (erase id ns) → ⊥
unfolding erase
erase-none id [] h m = m
erase-none id (k ∷ ns) h m = elim (Bool-cases (k == id)) [
  | inl e ↦ absurd (apart (AreAbove-among k id ns h.0 (rw e at m)) (same e))
  | inr e ↦ elim (rw e at m) [ inl n ↦ differ e n | inr m' ↦ erase-none id ns h.1 m' ]
]
  where
    same : (k == id) ≡ true → k ≡ id
    same e = ground arith

    apart : k < id → k ≡ id → ⊥
    apart h e = omega arith

    differ : (k == id) ≡ false → k ≡ id → ⊥
    differ e n = ground arith

-- If the ids rise and are below the counter, no connection has the id of one that was erased.
pub erase_client-gone :
    (id : ℕ) (s : Server) → HasIds s → IsAmong id (ids (erase_client id s).clients) → ⊥
unfolding erase_client
erase_client-gone id s h m =
    erase-none id (ids s.clients) h.1 (rw (ids-erase_first id s.clients) at m)
