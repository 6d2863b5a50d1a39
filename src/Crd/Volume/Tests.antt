-- ===== src/Crd/Volume/Tests.antt =====
-- Volumes that the checks accept and refuse.
use stardelt_operator.Crd.Names.{name_ok}
use stardelt_operator.Common.{
  String, ◌≡◌, refl, ◌↔◌, none, some, [], ◌∷◌, string_eq, contains, set_insert, collect, bytes, ok,
}
use stardelt_operator.Crd.Volume.Valid.{IsValid, volume_validate_iff}
use stardelt_operator.Crd.Names.Resource.{IsResourceName, name_ok_iff}
use stardelt_operator.Crd.Volume.Prefix.{derived_prefix-apart}
use stardelt_operator.Crd.Volume.{
  files, read, verb_beq, verb_eq, managed_storage, VolumeSpec, unsafe_prefix, repeats_verb,
  check_verbs, is_libraries, may_write_only_managed, bad_storage, repeats_group, validate,
  derived_prefix, libraries, write, manage,
}

abbrev wheels : VolumeSpec
wheels = record {
  catalog = "finance";
  purpose = libraries;
  storage = record { managed = some managed_storage; external = none };
  grants =
      record { group = "data-eng"; verbs = write ∷ manage ∷ [] }
      ∷ record { group = "analysts"; verbs = read ∷ [] }
      ∷ [];
}

wheels_are_accepted : validate wheels "wheels" ≡ ok tt
unfolding validate verb_eq verb_beq check_verbs repeats_verb repeats_group bad_storage unsafe_prefix
    is_libraries may_write_only_managed name_ok bytes collect set_insert contains
wheels_are_accepted = refl

volume_validate_iff_example : (validate wheels "wheels" ≡ ok tt) ↔ IsValid wheels "wheels"
volume_validate_iff_example = volume_validate_iff wheels "wheels"

finance-IsResourceName : IsResourceName "finance"
unfolding name_ok bytes
finance-IsResourceName = (name_ok_iff "finance").0 refl

-- The same volume, with its purpose changed.
abbrev plain : VolumeSpec
plain = record {
  catalog = "finance";
  purpose = files;
  storage = record { managed = some managed_storage; external = none };
  grants = [];
}

plain_is_accepted : validate plain "wheels" ≡ ok tt
unfolding validate verb_eq verb_beq check_verbs repeats_verb repeats_group bad_storage unsafe_prefix
    is_libraries may_write_only_managed name_ok bytes collect set_insert contains
plain_is_accepted = refl

derived_prefix-apart_example :
    (wheels.catalog ≡ plain.catalog) × (◌≡◌ {A = String} "wheels" "wheels")
unfolding derived_prefix
derived_prefix-apart_example =
    derived_prefix-apart wheels plain "wheels" "wheels" "" wheels_are_accepted plain_is_accepted
      finance-IsResourceName finance-IsResourceName (λ e. cc) (λ e. cc) refl
