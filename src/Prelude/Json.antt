-- ===== src/Prelude/Json.antt =====
-- Values of decoded JSON and of its objects, and Go's type assertions on them.
use mathlib.Core.Bool.{Bool}
use mathlib.Core.Option.{some}
use mathlib.Core.List.{[]}
use center_agent.Prelude.Equality.{nat_eq, list_eq}
use center_agent.Prelude.Ints.{ℤ}
use center_agent.Prelude.Maps.{Map, load}
use center_agent.Prelude.Text.{Text}

-- An array or an object inside an object is kept as its text.
pub data Json : Type 0 where
  null : Json
  boolean : Bool → Json
  number : ℤ → Json
  text nested : Text → Json

-- `s, _ := m[key].(string)`
unfoldable pub string_at : Text → Map Text Json → Text
string_at key m = elim (load key m) [ some (text s) ↦ s | _ ↦ [] ]
