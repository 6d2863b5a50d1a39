-- ===== src/Secrets/Platform/Kept.antt =====
-- No step rewrites a credential, and a dry run writes nothing.
use stardelt_operator.Secrets.Store.{
  value_at, IsLawful, Grows-IsLawful, IsQuiet, IsQuiet-IsLawful, gated_rule,
}
use stardelt_operator.Secrets.Generated.Kept.{ensure_generated_secrets_rule}
use stardelt_operator.Secrets.ObjectStore.{ensure_s3_secrets}
use stardelt_operator.Secrets.ObjectStore.Kept.{ensure_s3_secrets_rule}
use stardelt_operator.Secrets.Vault.Kept.{ensure_openbao_seal_key_rule, ensure_openbao_init_rule}
use stardelt_operator.Secrets.Platform.{
  identity_secrets, airflow_secrets, superset_secrets, session, events, Setting, runs_keycloak,
  ensure_identity_secrets, ensure_nova_session, ensure_nova_events, ensure_airflow_secrets,
  ensure_superset_secrets, ensure_s3, Step, airflow, run_step, run_steps, superset, seal_key,
  store_init, nova_session, nova_events, object_store, identity,
}
use stardelt_operator.Secrets.{World, Outside}
use stardelt_operator.Encoding.{Text}
use stardelt_operator.Common.{String, ◌≡◌, sym, subst, true, some, List, [], ◌∷◌, string_eq}

module _ {o : Outside} {R : World → World → Type 0} (s : Setting) (r : IsLawful o s.dry_run R) where
  run_step_rule : (step : Step) (w : World) → R w (run_step o s step w).1
  unfolding run_step ensure_airflow_secrets ensure_superset_secrets ensure_identity_secrets
      ensure_nova_session ensure_nova_events ensure_s3
  run_step_rule airflow w =
      gated_rule r s.pillars.pipelines _ w (ensure_generated_secrets_rule r _ airflow_secrets w)
  run_step_rule superset w =
      gated_rule r s.pillars.dashboards _ w (ensure_generated_secrets_rule r _ superset_secrets w)
  run_step_rule seal_key w = ensure_openbao_seal_key_rule r s.secrets w
  run_step_rule store_init w = ensure_openbao_init_rule r s.secrets w
  run_step_rule identity w =
      gated_rule r (runs_keycloak s.identity) _ w
        (ensure_generated_secrets_rule r _ identity_secrets w)
  run_step_rule nova_session w =
      gated_rule r s.pillars.lakehouse _ w (ensure_generated_secrets_rule r _ (session ∷ []) w)
  run_step_rule nova_events w =
      gated_rule r s.pillars.lakehouse _ w (ensure_generated_secrets_rule r _ (events ∷ []) w)
  run_step_rule object_store w =
      gated_rule r true (ensure_s3_secrets o s.dry_run s.namespace s.bucket s.storage w) w
        (ensure_s3_secrets_rule s.dry_run r s.namespace s.bucket s.storage w)

-- Over any steps, each with the specs of its time, and whatever calls fail or lose their answer, a
-- value that a Secret holds under a key is never rewritten or removed.
pub credentials_are_kept :
    (o : Outside) (steps : List (Setting × Step)) (w : World) (name key : String) (v : Text)
    → value_at w name key ≡ some v
    → value_at (run_steps o steps w) name key ≡ some v
credentials_are_kept o [] w name key v h = h
credentials_are_kept o ((s, step) ∷ rest) w name key v h =
    credentials_are_kept o rest (run_step o s step w).1 name key v
      (run_step_rule s (Grows-IsLawful o s.dry_run) step w name key v h)

-- A step of a dry run leaves every Secret as it is.
pub dry_step_writes_nothing :
    (o : Outside) (s : Setting) (step : Step) (w : World)
    → s.dry_run ≡ true
    → (run_step o s step w).1.secrets ≡ w.secrets
dry_step_writes_nothing o s step w dry =
    run_step_rule s (subst (λ b. IsLawful o b IsQuiet) (sym dry) (IsQuiet-IsLawful o)) step w
