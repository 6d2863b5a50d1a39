-- ===== src/Provision/Platform/Missing.antt =====
-- The Secrets that Keycloak waits for.
use stardelt_operator.Secrets.{status}
use stardelt_operator.Controller.Cluster.{KubeError}
use stardelt_operator.Encoding.{Text}
use stardelt_operator.Provision.{Call, read_secret, History, Server, and_then, return, or_status}
use stardelt_operator.Provision.Rules.{Yields, and_then-Yields, Sometime}
use stardelt_operator.Provision.Platform.{is_there, unless_there, or_early, missing_secrets}
use stardelt_operator.Common.{
  String, ◌≡◌, refl, inl, inr, false, not, Option, none, some, List, [], ◌∷◌, is_empty, Map, Result,
  ok, err, All, All-map,
}

module _ (k : Server) where
  -- A Secret was there when it was read.
  abbrev pub Exists : String → Call → History → Type 0
  Exists name c b =
      (c ≡ read_secret name) × ((secret : Map Text) × (k.on_secret b name ≡ ok (some secret)))

  abbrev pub AllExist : List String → History → Type 0
  AllExist names b = All (λ name. Sometime k (Exists name) b) names

  abbrev pub Lists : (History → Type 0) → List String → List String → History → Type 0
  Lists S names missing b = S b × (missing ≡ [] → AllExist names b)

  -- One Secret, and then the rest, of which the claim is known for every frame.
  one_missing :
      (S : History → Type 0) (grow : (c : Call) (b : History) → S b → S (c ∷ b))
      (step name : String) (names : List String) (h : History)
      → S h
      → ((T : History → Type 0)
          → ((c : Call) (b : History) → T b → T (c ∷ b))
          → T (read_secret name ∷ h)
          → Yields (Lists T names) (missing_secrets k step names (read_secret name ∷ h)))
      → Yields (Lists S (name ∷ names)) (missing_secrets k step (name ∷ names) h)
  unfolding missing_secrets status
  one_missing S grow step name names h x again = answered (k.on_secret h name) refl
    where
      after : History
      after = read_secret name ∷ h

      answered :
          (r : Result KubeError (Option (Map Text)))
          → k.on_secret h name ≡ r
          → Yields (Lists S (name ∷ names)) (
              and_then
                (or_status k step r, after)
                (λ found b.
                  and_then
                    (missing_secrets k step names b)
                    (λ missing. return (unless_there name (is_there k found) missing))))
      answered (err e) same = refl
      answered (ok none) same =
          and_then-Yields (Lists S names) (Lists S (name ∷ names)) _ _
            (again S grow (grow (read_secret name) h x)) (λ missing b (y, known). (y, λ e. cc))
      answered (ok (some secret)) same =
          and_then-Yields (Lists (λ b. S b × Sometime k (Exists name) b) names)
            (Lists S (name ∷ names)) _ _
            (again (λ b. S b × Sometime k (Exists name) b) (λ c b (y, z). (grow c b y, inr z))
              (grow (read_secret name) h x, inl (refl, (secret, same))))
            (λ missing b ((y, there), known). (y, λ e. (there, known e)))

  -- No Secret is missing only if each was there.
  pub missing-Yields :
      (S : History → Type 0) (grow : (c : Call) (b : History) → S b → S (c ∷ b)) (step : String)
      (names : List String) (h : History)
      → S h
      → Yields (Lists S names) (missing_secrets k step names h)
  unfolding missing_secrets
  missing-Yields S grow step [] h x = (x, λ e. tt)
  missing-Yields S grow step (name ∷ names) h x =
      one_missing S grow step name names h x
        (λ T growT y. missing-Yields T growT step names (read_secret name ∷ h) y)

  pub AllExist-grow :
      (names : List String) (c : Call) (b : History) → AllExist names b → AllExist names (c ∷ b)
  AllExist-grow names c b known = All-map (λ name x. inr x) names known

  pub none_missing : (missing : List String) → not (is_empty missing) ≡ false → missing ≡ []
  none_missing [] e = refl
  none_missing (x ∷ xs) e = cc

  pub early-Yields :
      {A : Type 0} (S : History → Type 0) (name : String) (r : Result String A) (h : History)
      → S h
      → Yields (λ a b. (r ≡ ok a) × S b) (or_early name r h)
  unfolding status
  early-Yields S name (ok a) h x = (refl, x)
  early-Yields S name (err message) h x = refl
