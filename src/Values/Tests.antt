-- ===== src/Values/Tests.antt =====
-- Merges of concrete documents.
use stardelt_operator.Common.{
  String, ◌≡◌, refl, subst, inl, inr, none, some, List, [], ◌∷◌, string_eq, some-injective, get,
  insert,
}
use stardelt_operator.Values.{
  Value, number, text, object, nil, field, to_map, of_map, find, put, deep_merge, merge_fields,
  Curated, effective_values,
}
use stardelt_operator.Values.Lookup.{IsTree, AreTrees}
use stardelt_operator.Values.Precedence.{LeavesOut, effective_values-precedence}
use stardelt_operator.Values.Merge.{entry, at, IsSilent}

abbrev one : String → Value → Value
one k v = object (field k v nil)

abbrev curated : Curated (Unit {0})
curated = record {
  golden_values =
      λ name. one "worker" (object (field "heap" (text "8G") (field "replicas" (number "2") nil)));
  profile_values = λ name profile. one "worker" (one "heap" (text "1G"));
}

abbrev inline : Value
inline = one "worker" (one "replicas" (number "5"))

abbrev effective : Value
effective = effective_values curated "trino" tt (some (object nil)) (some inline)

the_layers_are_merged :
    effective ≡ one "worker" (object (field "heap" (text "1G") (field "replicas" (number "5") nil)))
unfolding effective_values deep_merge merge_fields find put to_map of_map get insert
the_layers_are_merged = refl

inline-IsTree : IsTree inline
unfolding IsTree AreTrees find to_map get
inline-IsTree = (refl, (refl, tt, tt), tt)

profile-IsTree : IsTree (curated.profile_values "trino" tt)
unfolding IsTree AreTrees find to_map get
profile-IsTree = (refl, (refl, tt, tt), tt)

abbrev replicas : List String
replicas = "worker" ∷ "replicas" ∷ []

profile-LeavesOut : LeavesOut replicas (some (curated.profile_values "trino" tt))
unfolding entry find to_map get
profile-LeavesOut = (
  profile-IsTree,
  (refl, λ u e. subst (IsSilent ("replicas" ∷ [])) (some-injective e) (refl, λ w gone. cc)),
)

-- The external document speaks at the path, and the others do not.
effective_values-precedence_example :
    at replicas (effective_values curated "trino" tt (some inline) none) ≡ some (number "5")
unfolding at entry find to_map get
effective_values-precedence_example =
    effective_values-precedence curated "trino" tt replicas (some inline) none (inr tt)
      (inl (inline-IsTree, (number "5", refl, refl))) (inr profile-LeavesOut)
