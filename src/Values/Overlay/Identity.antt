-- ===== src/Values/Overlay/Identity.antt =====
-- What the identity overlay fixes, no resource changes.
use stardelt_operator.Common.{String, Option, none, some, string_eq}
use stardelt_operator.Values.{Value}
use stardelt_operator.Values.Overlay.{substitute_base_domain}

-- A value with the base domain put in, where there is one.
abbrev pub resolved : Option String → Value → Value
resolved none v = v
resolved (some domain) v = substitute_base_domain v domain
