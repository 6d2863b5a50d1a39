-- ===== src/Values/Overlay/Placeholder.antt =====
-- A substitution keeps the shape of a document.
use stardelt_operator.Common.{Option, none, some, string_eq}
use stardelt_operator.Values.{Value}
use stardelt_operator.Values.Lookup.{}

abbrev pub map_option : (Value → Value) → Option Value → Option Value
map_option f none = none
map_option f (some v) = some (f v)
