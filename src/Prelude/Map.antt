-- ===== src/Prelude/Map.antt =====
-- Maps that the program reads and writes by key and does not iterate: functions into `Option`.
-- One for numbers (ids of an arena, `usize` keys), one for texts.
use Prim.Native.Nat.{ℕ}
use Prim.Native.String.{String}
use mathlib.Core.Option.{Option, some}
use text.Mathlib.Text.{◌==◌ as str_eq}
use ola_lang.Prelude.Tests.{◌==◌, if◌then◌else◌}

abbrev pub Map {ℓ} : Type ℓ → Type ℓ
Map V = ℕ → Option V

abbrev pub StrMap {ℓ} : Type ℓ → Type ℓ
StrMap V = String → Option V

module _ {ℓ} {V : Type ℓ} where
  abbrev pub insert : Map V → ℕ → V → Map V
  insert m k v j = if j == k then some v else m j

  abbrev pub str_insert : StrMap V → String → V → StrMap V
  str_insert m k v j = if str_eq j k then some v else m j
