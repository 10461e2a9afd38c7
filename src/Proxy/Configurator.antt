-- ===== src/Proxy/Configurator.antt =====
-- proxy/configurator.cpp: the configuration in memory. What boost::property_tree holds is a function
-- from paths to data.
use proxy_channels.Base.{
  ◌≡◌, ◌≢◌, refl, Bytes, bytes_eq, bytes_eq_refl, bytes_eq-eq, Bool-cases, inl, inr, if◌then◌else◌,
  Option, none, some,
}
use proxy_channels.Base.Settings.{PropertyTree}

-- The one instance; `init` reads the file only if there is none.
unfoldable pub init : PropertyTree → Option PropertyTree → Option PropertyTree
init read none = some read
init read (some pt) = some pt

-- ptree::put
unfoldable pub put : Bytes → Bytes → PropertyTree → PropertyTree
put path value pt p = if bytes_eq p path then some value else pt p

-- `trim_quotes` is Boost's trim of spaces and quotes; `none` is the exception for a path without data.
unfoldable pub set : (Bytes → Bytes) → Bytes → Bytes → PropertyTree → Option PropertyTree
unfolding put
set trim_quotes path value pt = elim (pt path) [
  | none ↦ none
  | some old ↦ some (put path (trim_quotes value) pt)
]

-- A path with data holds the trimmed value after it is set, and every other path what it held.
pub set-put :
    (trim_quotes : Bytes → Bytes) (path value old : Bytes) (pt : PropertyTree)
    → pt path ≡ some old
    → (after : PropertyTree) × ((set trim_quotes path value pt ≡ some after)
        × (after path ≡ some (trim_quotes value))
        × ((p : Bytes) → p ≢ path → after p ≡ pt p))
unfolding set put
set-put trim_quotes path value old pt h =
    (put path (trim_quotes value) pt, (rw (set, h) refl, rw (bytes_eq_refl path) refl, others))
  where
    others : (p : Bytes) → p ≢ path → put path (trim_quotes value) pt p ≡ pt p
    others p differs = elim (Bool-cases (bytes_eq p path)) [
      | inl same ↦ absurd (differs (bytes_eq-eq p path same))
      | inr other ↦ rw other refl
    ]
