-- ===== src/Proxy/Signals.antt =====
-- proxy/signals.cpp: names and numbers of signals, and the handler. The numbers are the platform's.
pub mod Handlers
use proxy_channels.Base.{
  ℕ, ◌+◌, ◌-◌, ◌%◌, ◌≡◌, refl, ap, ◌∙◌, List, [], ◌∷◌, map, Bytes, codes, bytes_eq, bytes_eq-eq,
  bytes_eq_refl, Bool, false, ◌==◌, ◌||◌, if◌then◌else◌, Option, none, some, Bool-cases, inl, inr,
  arith, ◌⊎◌,
}

-- The entries of both tables, on Linux, in their order.
unfoldable pub names : List Bytes
names = map codes (
    "SIGINT" ∷ "SIGILL" ∷ "SIGABRT" ∷ "SIGFPE" ∷ "SIGSEGV" ∷ "SIGHUP" ∷ "SIGQUIT" ∷ "SIGBUS"
    ∷ "SIGKILL" ∷ "SIGUSR1" ∷ "SIGUSR2" ∷ "SIGPIPE" ∷ "SIGALRM" ∷ "SIGSTKFLT" ∷ "SIGCHLD"
    ∷ "SIGCONT" ∷ "SIGSTOP" ∷ "SIGTSTP" ∷ "SIGTTIN" ∷ "SIGTTOU" ∷ "SIGURG" ∷ "SIGXCPU" ∷ "SIGXFSZ"
    ∷ "SIGVTALRM" ∷ "SIGPROF" ∷ "SIGWINCH" ∷ "SIGPWR" ∷ "SIGSYS" ∷ "SIGTERM" ∷ [])

-- `number` gives the value of a macro, `nsig` is NSIG.
module _ (number : Bytes → ℕ) (nsig : ℕ) where
  unfoldable pub find_name : ℕ → List Bytes → Option Bytes
  find_name sig [] = none
  find_name sig (n ∷ ns) = let rest = find_name sig ns in if number n == sig then some n else rest

  unfoldable pub find_number : Bytes → List Bytes → Option ℕ
  find_number name [] = none
  find_number name (n ∷ ns) =
      let rest = find_number name ns in if bytes_eq n name then some (number n) else rest

  unfoldable pub signal_to_string : ℕ → Bytes
  signal_to_string sig = elim (find_name sig names) [ some n ↦ n | none ↦ codes "UNKNOWN" ]

  unfoldable pub string_to_signal : Bytes → ℕ
  string_to_signal name = elim (find_number name names) [ some n ↦ n | none ↦ nsig ]

  -- Whether the stack is printed, and the status that exit(128 - sig) leaves.
  unfoldable pub handler : ℕ → Bool × ℕ
  handler sig = (
    number (codes "SIGSEGV") == sig
        || number (codes "SIGILL") == sig
        || number (codes "SIGFPE") == sig
        || number (codes "SIGABRT") == sig,
    (128 + 256 - sig % 256) % 256,
  )

  abbrev pub IsListed : Bytes → List Bytes → Type 0
  IsListed name [] = ⊥
  IsListed name (n ∷ ns) = (n ≡ name) ⊎ IsListed name ns

  -- Listed names have numbers of their own.
  abbrev pub IsInjective : Type 0
  IsInjective = (a b : Bytes) → IsListed a names → IsListed b names → number a ≡ number b → a ≡ b

  find_number-listed :
      (name : Bytes) (ns : List Bytes) → IsListed name ns → find_number name ns ≡ some (number name)
  unfolding find_number
  find_number-listed name [] m = absurd m
  find_number-listed name (n ∷ ns) m = elim (Bool-cases (bytes_eq n name)) [
    | inl e ↦ rw e (ap (λ a. some (number a)) (bytes_eq-eq n name e))
    | inr e ↦ rw e (find_number-listed name ns (later e m))
  ]
    where
      later : bytes_eq n name ≡ false → (n ≡ name) ⊎ IsListed name ns → IsListed name ns
      later e (inl h) = absurd (ground (arith, bytes_eq_refl name, rw h at e))
      later e (inr h) = h

  find_name-listed :
      (name : Bytes) (ns : List Bytes)
      → ((a : Bytes) → IsListed a ns → number a ≡ number name → a ≡ name)
      → IsListed name ns
      → find_name (number name) ns ≡ some name
  unfolding find_name
  find_name-listed name [] own m = absurd m
  find_name-listed name (n ∷ ns) own m = elim (Bool-cases (number n == number name)) [
    | inl e ↦ rw e (ap some (own n (inl refl) (ground arith)))
    | inr e ↦ rw e (find_name-listed name ns (λ a h. own a (inr h)) (later e m))
  ]
    where
      later : (number n == number name) ≡ false → (n ≡ name) ⊎ IsListed name ns → IsListed name ns
      later e (inl h) = absurd (ground (arith, ap number h))
      later e (inr h) = h

  -- If listed names have numbers of their own, a listed name gives its number, and that gives the name.
  pub signal_to_string-string_to_signal :
      (name : Bytes)
      → IsListed name names
      → IsInjective
      → (string_to_signal name ≡ number name) × (signal_to_string (string_to_signal name) ≡ name)
  unfolding signal_to_string string_to_signal
  signal_to_string-string_to_signal name m own = (to, ap signal_to_string to ∙ back)
    where
      to : string_to_signal name ≡ number name
      to =
          ap (λ o. elim o as (λ _. ℕ) [ some n ↦ n | none ↦ nsig ])
            (find_number-listed name names m)

      back : signal_to_string (number name) ≡ name
      back =
          ap (λ o. elim o as (λ _. Bytes) [ some n ↦ n | none ↦ codes "UNKNOWN" ])
            (find_name-listed name names (λ a h k. own a name h m k) m)
