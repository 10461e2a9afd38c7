-- ===== src/Base/Settings.antt =====
-- What the source reads of a boost::property_tree: the data at a path, and a conversion of it to a
-- number, both arguments of the model.
use proxy_channels.Base.Tests.{Bytes}
use Prim.Native.Nat.{ℕ}
use mathlib.Core.Option.{Option, none, some}

abbrev pub PropertyTree : Type 0
PropertyTree = Bytes → Option Bytes

abbrev pub or_default : Option Bytes → Bytes → Bytes
or_default (some v) default = v
or_default none default = default

abbrev pub get_string : PropertyTree → Bytes → Bytes → Bytes
get_string pt path default = or_default (pt path) default

-- A value that does not convert counts as missing.
abbrev pub get_number : (Bytes → Option ℕ) → PropertyTree → Bytes → ℕ → ℕ
get_number parse pt path default = elim (pt path) [
  | some v ↦ elim (parse v) [ some n ↦ n | none ↦ default ]
  | none ↦ default
]
