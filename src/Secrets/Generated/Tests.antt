-- ===== src/Secrets/Generated/Tests.antt =====
-- A generation over a small store.
use stardelt_operator.Crd.Status.{ComponentStatus}
use stardelt_operator.Crd.Status.{}
use stardelt_operator.Encoding.{generate_secret}
use stardelt_operator.Secrets.Generated.Complete.{IsProvided, ensure_generated_secrets-IsProvided}
use stardelt_operator.Secrets.Generated.{
  IdentitySecret, key_names, missing_keys, insert_fixed, find_fixed, insert_each, identity_secret,
  value_of, patch_identity_secret, provide, provide_all, ensure_generated_secrets,
}
use stardelt_operator.Secrets.{
  World, done, not_json, Outside, written, get_opt, write, draw, status,
}
use stardelt_operator.Controller.Cluster.{}
use stardelt_operator.Controller.Apply.{}
use stardelt_operator.Common.{
  String, ◌≡◌, refl, Bool, true, false, [], ◌∷◌, ◌++◌, string_eq, All, contains, get, insert, bytes,
  ok,
}

abbrev outside : Outside
outside = record {
  fate = λ n. done;
  random = λ n size. ok (1 ∷ 2 ∷ []);
  show_error = λ e. "failed";
  show_number = λ n. "some";
  init_reply = λ n. not_json "no store";
  is_utf8 = λ t. true;
  show_identities = λ a b. a ++ b;
}

abbrev admin : String → IdentitySecret
admin name = record {
  name = name;
  fixed = ("username", "admin") ∷ [];
  generated = "password" ∷ [];
  fernet = [];
}

-- One Secret is absent, and one lacks its user name.
abbrev start : World
start = record { secrets = ("b", ("password", 7 ∷ []) ∷ []) ∷ []; calls = 0 }

abbrev after : ComponentStatus × World
after = ensure_generated_secrets outside false "secrets" (admin "a" ∷ admin "b" ∷ []) start

it_is_ready : after.0.ready ≡ true
unfolding ensure_generated_secrets provide_all provide identity_secret insert_each insert_fixed
    find_fixed value_of patch_identity_secret key_names missing_keys get_opt write draw status
    generate_secret get insert bytes contains written
it_is_ready = refl

ensure_generated_secrets-IsProvided_example :
    (◌≡◌ {A = Bool} false false) × All (IsProvided after.1) (admin "a" ∷ admin "b" ∷ [])
ensure_generated_secrets-IsProvided_example =
    ensure_generated_secrets-IsProvided outside false "secrets" (admin "a" ∷ admin "b" ∷ []) start
      it_is_ready
