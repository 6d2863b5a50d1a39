-- ===== src/Secrets/Vault/Kept.antt =====
-- What the steps of the sandbox secret store may change.
use stardelt_operator.Encoding.{Text, generate_hex}
use stardelt_operator.Planner.{SecretsMode, runs_store}
use stardelt_operator.Secrets.Store.{
  IsLawful, chain_rule, write_absent, reported_rule, found_rule, quiet_then, gated_rule,
}
use stardelt_operator.Secrets.Vault.{
  seal_secret, init_secret_name, init_secret, non_empty, no_root_token, no_recovery_key,
  initialised, first_key, read_reply, seal, ensure_openbao_seal_key, save_init, with_root,
  from_answer, from_reply, initialise, initialise_once, ensure_openbao_init,
}
use stardelt_operator.Secrets.{
  World, InitAnswer, InitReply, not_built, request_failed, not_json, answered, Outside, Run, ◌>>=◌,
  ◌>>◌, return, write, draw, post_init,
}
use stardelt_operator.Common.{
  String, ◌≡◌, refl, ap, ◌∙◌, Bool, true, false, Option, none, some, [], ◌∷◌, string_eq, Map, get,
}

non_empty_quiet :
    (message : String) (t : Option Text) (w : World) → (non_empty message t w).1.secrets ≡ w.secrets
unfolding non_empty
non_empty_quiet message none w = refl
non_empty_quiet message (some []) w = refl
non_empty_quiet message (some (b ∷ bs)) w = refl

read_reply_quiet : (reply : InitReply) (w : World) → (read_reply reply w).1.secrets ≡ w.secrets
unfolding read_reply
read_reply_quiet (not_built e) w = refl
read_reply_quiet (request_failed e) w = refl
read_reply_quiet (not_json e) w = refl
read_reply_quiet (answered a) w = refl

-- What a run does where the Secret is still absent.
abbrev KeepsAbsent : (World → World → Type 0) → Run (Bool × String) → Type 0
KeepsAbsent R m = (w : World) → get init_secret_name w.secrets ≡ none → R w (m w).1

module _ {o : Outside} {R : World → World → Type 0} where
  -- A quiet part, and what follows it where the Secret is still absent.
  absent_then :
      {A B : Type 0} {dry_run : Bool} (r : IsLawful o dry_run R) (name : String) (m : Run A)
      (f : A → Run B) (w : World)
      → (m w).1.secrets ≡ w.secrets
      → get name w.secrets ≡ none
      → ((a : A) (w' : World) → get name w'.secrets ≡ none → R w' (f a w').1)
      → R w ((m >>= f) w).1
  absent_then r name m f w quiet absent go =
      quiet_then r m f w quiet (λ a. go a (m w).1 (ap (λ x. get name x) quiet ∙ absent))

  -- The creation of a Secret that is absent, and the status.
  created_rule :
      {dry_run : Bool} (r : IsLawful o dry_run R) (name : String) (new : Map Text)
      (last : Bool × String) (w : World)
      → get name w.secrets ≡ none
      → R w ((write o dry_run name new >> return last) w).1
  created_rule {dry_run} r name new last w absent =
      chain_rule r w (write o dry_run name new w) _ (write_absent r name new w absent)
        (λ u e. r.same _ _ refl)

  seal_rule :
      {dry_run : Bool} (r : IsLawful o dry_run R) (found : Option (Map Text)) (w : World)
      → get seal_secret w.secrets ≡ found
      → R w (seal o dry_run found w).1
  unfolding seal draw
  seal_rule r (some e) w there = r.same w w refl
  seal_rule r none w absent =
      absent_then r seal_secret (draw o (λ random. generate_hex random 32)) _ w refl absent
        (λ key w' still. created_rule r seal_secret _ _ w' still)

  pub ensure_openbao_seal_key_rule :
      {dry_run : Bool} (r : IsLawful o dry_run R) (mode : SecretsMode) (w : World)
      → R w (ensure_openbao_seal_key o mode dry_run w).1
  unfolding ensure_openbao_seal_key
  ensure_openbao_seal_key_rule {dry_run} r mode w = gated_rule r (runs_store mode) _ w (
      reported_rule r seal_secret w _ (
        found_rule r seal_secret (seal o dry_run) w (λ found w' there. seal_rule r found w' there)))

  with_root_rule :
      (r : IsLawful o false R) (answer : InitAnswer) (root : Text)
      → KeepsAbsent R (with_root o answer root)
  unfolding with_root save_init
  with_root_rule r answer root w absent =
      let key = first_key answer.recovery_key_b64 answer.recovery_key in
      absent_then r init_secret_name (non_empty no_recovery_key key) (save_init o root) w
        (non_empty_quiet no_recovery_key key w) absent
        (λ recovery w' still.
          created_rule r init_secret_name (init_secret recovery root) initialised w' still)

  from_answer_rule :
      (r : IsLawful o false R) (answer : InitAnswer) → KeepsAbsent R (from_answer o answer)
  unfolding from_answer
  from_answer_rule r answer w absent =
      absent_then r init_secret_name (non_empty no_root_token answer.root_token)
        (with_root o answer) w (non_empty_quiet no_root_token answer.root_token w) absent
        (with_root_rule r answer)

  from_reply_rule :
      (r : IsLawful o false R) (reply : InitReply) → KeepsAbsent R (from_reply o reply)
  unfolding from_reply
  from_reply_rule r reply w absent =
      absent_then r init_secret_name (read_reply reply) (from_answer o) w (read_reply_quiet reply w)
        absent (from_answer_rule r)

  initialise_rule : (r : IsLawful o false R) → KeepsAbsent R (initialise o)
  unfolding initialise post_init
  initialise_rule r w absent =
      absent_then r init_secret_name (post_init o) (from_reply o) w refl absent (from_reply_rule r)

  once_rule :
      (dry_run : Bool) (r : IsLawful o dry_run R) (found : Option (Map Text)) (w : World)
      → get init_secret_name w.secrets ≡ found
      → R w (initialise_once o dry_run found w).1
  unfolding initialise_once
  once_rule dry_run r (some e) w there = r.same w w refl
  once_rule true r none w absent = r.same w w refl
  once_rule false r none w absent = initialise_rule r w absent

  pub ensure_openbao_init_rule :
      {dry_run : Bool} (r : IsLawful o dry_run R) (mode : SecretsMode) (w : World)
      → R w (ensure_openbao_init o mode dry_run w).1
  unfolding ensure_openbao_init
  ensure_openbao_init_rule {dry_run} r mode w = gated_rule r (runs_store mode) _ w (
      reported_rule r init_secret_name w _ (
        found_rule r init_secret_name (initialise_once o dry_run) w
          (λ found w' there. once_rule dry_run r found w' there)))
