-- ===== src/Values/Overlay/Tests.antt =====
-- Overlays of concrete documents.
use stardelt_operator.Common.{String, ◌≡◌, refl, Option, some, string_eq, starts}
use stardelt_operator.Values.{Value, text, object, nil, field, Curated}
use stardelt_operator.Values.Overlay.{replace_from, replace}

abbrev setting : String → Value
setting v = object (field "auth" (text v) nil)

abbrev plain : Curated (Unit {0})
plain = record {
  golden_values = λ name. setting "none";
  profile_values = λ name profile. object nil;
}

abbrev identity_values : String → Value
identity_values name = setting "https://id.__BASE_DOMAIN__"

abbrev asked : Option Value
asked = some (setting "anonymous")

the_domain_is_put_in :
    replace "__BASE_DOMAIN__" "data.example.com" "https://id.__BASE_DOMAIN__/x"
    ≡ "https://id.data.example.com/x"
unfolding replace replace_from starts
the_domain_is_put_in = refl
