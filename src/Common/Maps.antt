-- ===== src/Common/Maps.antt =====
-- `BTreeMap<String, V>` as its entries in key order.
use Prim.Native.String.{String, compare}
use Prim.Native.Nat.{}
use mathlib.Core.Path.{◌≡◌, refl, sym, ap}
use mathlib.Core.Bool.{true, false}
use mathlib.Core.Logic.{◌↔◌, ◌⊎◌, inl, inr}
use mathlib.Core.Option.{Option, none, some}
use mathlib.Core.List.{List, [], ◌∷◌, map}
use native.Mathlib.Omega.{arith}
use text.Mathlib.Text.{is_lt}
use text.Mathlib.TextEquality.{eq_iff}
use stardelt_operator.Common.Tests.{if◌then◌else◌, ◌==◌, string_eq, Bool-cases, false_iff, is_some}
use stardelt_operator.Common.Lists.{In, Distinct}

abbrev pub Map {ℓ} : Type ℓ → Type ℓ
Map V = List (String × V)

module _ {ℓ} {V : Type ℓ} where
  unfoldable pub get : String → Map V → Option V
  get k [] = none
  get k ((j, v) ∷ m) = if j == k then some v else get k m

  abbrev pub keys : Map V → List String
  keys m = map (λ e. e.0) m

  -- The value of a key that is there.
  replace : String → V → Map V → Map V
  replace k v [] = []
  replace k v ((j, w) ∷ m) = if j == k then (j, v) ∷ m else (j, w) ∷ replace k v m

  -- A new entry, before the first greater key.
  place : String → V → Map V → Map V
  place k v [] = (k, v) ∷ []
  place k v ((j, w) ∷ m) = if is_lt (compare k j) then (k, v) ∷ (j, w) ∷ m else (j, w) ∷ place k v m

  unfoldable pub insert : String → V → Map V → Map V
  unfolding replace place get
  insert k v m = if is_some (get k m) then replace k v m else place k v m

  get-replace :
      (k j : String) (v : V) (m : Map V)
      → is_some (get k m) ≡ true
      → get j (replace k v m) ≡ (if k == j then some v else get j m)
  unfolding get replace
  get-replace k j v [] h = cc
  get-replace k j v ((i, w) ∷ m) h =
      ground (arith, eq_iff k j, eq_iff i k, eq_iff i j, get-replace k j v m)

  get-place :
      (k j : String) (v : V) (m : Map V)
      → is_some (get k m) ≡ false
      → get j (place k v m) ≡ (if k == j then some v else get j m)
  unfolding get place
  get-place k j v [] h = refl
  get-place k j v ((i, w) ∷ m) h =
      ground (arith, eq_iff k j, eq_iff i k, eq_iff i j, get-place k j v m)

  pub get-insert :
      (k j : String) (v : V) (m : Map V)
      → get j (insert k v m) ≡ (if k == j then some v else get j m)
  unfolding insert
  get-insert k j v m = ground (arith, get-replace k j v m, get-place k j v m)

  pub In-keys_iff : (k : String) (m : Map V) → (is_some (get k m) ≡ true) ↔ In k (keys m)
  unfolding get
  In-keys_iff k [] = (λ h. cc, λ i. absurd i)
  In-keys_iff k ((j, v) ∷ m) =
      let (there, back) = In-keys_iff k m in
      (λ h. ground (arith, eq_iff j k), λ h. ground (arith, eq_iff j k))

  keys-replace : (k : String) (v : V) (m : Map V) → keys (replace k v m) ≡ keys m
  unfolding replace
  keys-replace k v [] = refl
  keys-replace k v ((j, w) ∷ m) = elim (Bool-cases (j == k)) [
    | inl same ↦ rw same
    | inr other ↦ rw other (ap (λ l. j ∷ l) (keys-replace k v m))
  ]

  In-place :
      (k j : String) (v : V) (m : Map V) → In j (keys (place k v m)) → (j ≡ k) ⊎ In j (keys m)
  unfolding place
  In-place k j v [] i = i
  In-place k j v ((i, w) ∷ m) h = elim (Bool-cases (is_lt (compare k i))) [
    | inl less ↦ rw less at h
    | inr more ↦ elim (let h' : (j ≡ i) ⊎ In j (keys (place k v m)) = rw more at h in h') [
      | inl e ↦ inr (inl e)
      | inr l ↦ elim (In-place k j v m l) [ inl e ↦ inl e | inr q ↦ inr (inr q) ]
    ]
  ]

  Distinct-place :
      (k : String) (v : V) (m : Map V)
      → ¬ (In k (keys m))
      → Distinct (keys m)
      → Distinct (keys (place k v m))
  unfolding place
  Distinct-place k v [] n d = (λ i. i, tt)
  Distinct-place k v ((i, w) ∷ m) n (ni, d) = elim (Bool-cases (is_lt (compare k i))) [
    | inl less ↦ rw less (n, (ni, d))
    | inr more ↦ rw more (
      λ h. elim (In-place k i v m h) [ inl e ↦ n (inl (sym e)) | inr q ↦ ni q ],
      Distinct-place k v m (λ q. n (inr q)) d,
    )
  ]

  pub Distinct-insert :
      (k : String) (v : V) (m : Map V) → Distinct (keys m) → Distinct (keys (insert k v m))
  unfolding insert
  Distinct-insert k v m d = elim (Bool-cases (is_some (get k m))) [
    | inl old ↦ rw old (rw (keys-replace k v m) d)
    | inr new ↦ rw new (Distinct-place k v m ((false_iff _ (In-keys_iff k m)).0 new) d)
  ]
