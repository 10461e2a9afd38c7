-- ===== src/Proxy/Signals/Handlers.antt =====
-- CSignalHandler of proxy/signals.h and proxy/signals.cpp: which signals it handles. `fails` is whether
-- the system call of a signal gives SIG_ERR.
use proxy_channels.Base.{
  ℕ, ◌≡◌, refl, ◌∙◌, List, [], ◌∷◌, Bool, true, false, ◌==◌, if◌then◌else◌, Option, none, some,
  arith,
}

-- What happens on a signal: SIG_DFL, CSignalHandler::Handler, or what was there before.
pub data Disposition : Type 0 where
  sig_dfl handler other : Disposition

abbrev pub Dispositions : Type 0
Dispositions = ℕ → Disposition

unfoldable pub dispose : ℕ → Disposition → Dispositions → Dispositions
dispose sig d table n = if n == sig then d else table n

-- The constructor; the signal of the exception, if any.
unfoldable pub set_handler : (ℕ → Bool) → List ℕ → Dispositions → Dispositions × Option ℕ
unfolding dispose
set_handler fails [] table = (table, none)
set_handler fails (sig ∷ sigs) table =
    let rest = set_handler fails sigs (dispose sig handler table) in
    if fails sig then (table, some sig) else rest

-- The destructor
unfoldable pub unset_handler : (ℕ → Bool) → List ℕ → Dispositions → Dispositions
unfolding dispose
unset_handler fails [] table = table
unset_handler fails (sig ∷ sigs) table =
    let rest = unset_handler fails sigs (dispose sig sig_dfl table) in
    let skipped = unset_handler fails sigs table in if fails sig then skipped else rest

abbrev pub Succeeds : (ℕ → Bool) → List ℕ → Type 0
Succeeds fails [] = Unit
Succeeds fails (sig ∷ sigs) = (fails sig ≡ false) × Succeeds fails sigs

unfoldable pub listed : ℕ → List ℕ → Bool
listed n [] = false
listed n (sig ∷ sigs) = let rest = listed n sigs in if n == sig then true else rest

set-listed :
    (fails : ℕ → Bool) (sigs : List ℕ) (table : Dispositions) (n : ℕ)
    → Succeeds fails sigs
    → (set_handler fails sigs table).0 n ≡ (if listed n sigs then handler else table n)
unfolding set_handler dispose listed
set-listed fails [] table n h = refl
set-listed fails (sig ∷ sigs) table n h =
    rw h.0 (set-listed fails sigs (dispose sig handler table) n h.1 ∙ same)
  where
    same :
        (if listed n sigs then handler else (if n == sig then handler else table n))
        ≡ (if (if n == sig then true else listed n sigs) then handler else table n)
    same = ground arith

unset-listed :
    (fails : ℕ → Bool) (sigs : List ℕ) (table : Dispositions) (n : ℕ)
    → Succeeds fails sigs
    → unset_handler fails sigs table n ≡ (if listed n sigs then sig_dfl else table n)
unfolding unset_handler dispose listed
unset-listed fails [] table n h = refl
unset-listed fails (sig ∷ sigs) table n h =
    rw h.0 (unset-listed fails sigs (dispose sig sig_dfl table) n h.1 ∙ same)
  where
    same :
        (if listed n sigs then sig_dfl else (if n == sig then sig_dfl else table n))
        ≡ (if (if n == sig then true else listed n sigs) then sig_dfl else table n)
    same = ground arith

-- If the system calls for the signals of a handler succeed, then while it lives exactly these are
-- handled, and after it they have the default action, not what was there before; the others keep
-- theirs.
pub unset_handler-set_handler :
    (fails : ℕ → Bool) (sigs : List ℕ) (table : Dispositions) (n : ℕ)
    → Succeeds fails sigs
    → let alive = (set_handler fails sigs table).0 in
      (alive n ≡ (if listed n sigs then handler else table n))
      × (unset_handler fails sigs alive n ≡ (if listed n sigs then sig_dfl else table n))
unset_handler-set_handler fails sigs table n h = (
  set-listed fails sigs table n h,
  unset-listed fails sigs (set_handler fails sigs table).0 n h
      ∙ both (listed n sigs) (set-listed fails sigs table n h),
)
  where
    both :
        (b : Bool)
        → (set_handler fails sigs table).0 n ≡ (if b then handler else table n)
        → (if b then sig_dfl else (set_handler fails sigs table).0 n)
          ≡ (if b then sig_dfl else table n)
    both true e = refl
    both false e = e
