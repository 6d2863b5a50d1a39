-- ===== src/Values/Precedence.antt =====
-- The precedence of the layers of a component's values.
use stardelt_operator.Common.{
  String, ◌≡◌, refl, ap, ◌∙◌, ◌⊎◌, inl, inr, false, Option, none, some, List, string_eq,
}
use stardelt_operator.Values.{Value, deep_merge, Curated, layer, effective_values}
use stardelt_operator.Values.Lookup.{IsTree}
use stardelt_operator.Values.Merge.{at, is_object, IsSilent, at-deep_merge, at-deep_merge_silent}

-- A layer that is absent, or says nothing at a path.
abbrev pub LeavesOut : List String → Option Value → Type 0
LeavesOut p none = Unit
LeavesOut p (some over) = IsTree over × IsSilent p over

layer-LeavesOut :
    (p : List String) (base : Value) (o : Option Value)
    → LeavesOut p o
    → at p (layer base o) ≡ at p base
layer-LeavesOut p base none l = refl
layer-LeavesOut p base (some over) (t, s) = at-deep_merge_silent p base over t s

module _ {Profile : Type 0} (c : Curated Profile) (component : String) (profile : Profile)
    (p : List String) where
  -- Where the resource's inline document has a value that is no object, the component gets it,
  -- whatever the other layers are.
  pub effective_values-inline :
      (external : Option Value) (inline v : Value)
      → IsTree inline
      → at p inline ≡ some v
      → is_object v ≡ false
      → at p (effective_values c component profile external (some inline)) ≡ some v
  unfolding effective_values
  effective_values-inline external inline v t e flat =
      at-deep_merge p
        (layer (deep_merge (c.golden_values component) (c.profile_values component profile))
          external)
        inline v t e flat

  -- Where the external document has a value that is no object and the inline document is absent or
  -- says nothing, the component gets the external value.
  pub effective_values-external :
      (external v : Value) (inline : Option Value)
      → IsTree external
      → LeavesOut p inline
      → at p external ≡ some v
      → is_object v ≡ false
      → at p (effective_values c component profile (some external) inline) ≡ some v
  unfolding effective_values
  effective_values-external external v inline t l e flat =
      let curated = deep_merge (c.golden_values component) (c.profile_values component profile) in
      layer-LeavesOut p (deep_merge curated external) inline l
      ∙ at-deep_merge p curated external v t e flat

  -- Where both documents are absent or say nothing, and the profile has a value that is no object, the
  -- component gets the profile's value.
  pub effective_values-profile :
      (external inline : Option Value) (v : Value)
      → LeavesOut p external
      → LeavesOut p inline
      → IsTree (c.profile_values component profile)
      → at p (c.profile_values component profile) ≡ some v
      → is_object v ≡ false
      → at p (effective_values c component profile external inline) ≡ some v
  unfolding effective_values
  effective_values-profile external inline v le li t e flat =
      let golden = c.golden_values component in
      let curated = deep_merge golden (c.profile_values component profile) in
      layer-LeavesOut p (layer curated external) inline li
      ∙ layer-LeavesOut p curated external le
      ∙ at-deep_merge p golden (c.profile_values component profile) v t e flat

  -- Where every layer over the golden values is absent or says nothing, the component keeps the golden
  -- value, also when that is an object or missing.
  pub effective_values-golden :
      (external inline : Option Value)
      → LeavesOut p external
      → LeavesOut p inline
      → LeavesOut p (some (c.profile_values component profile))
      → at p (effective_values c component profile external inline)
        ≡ at p (c.golden_values component)
  unfolding effective_values
  effective_values-golden external inline le li lp =
      let golden = c.golden_values component in
      let curated = deep_merge golden (c.profile_values component profile) in
      layer-LeavesOut p (layer curated external) inline li
      ∙ layer-LeavesOut p curated external le
      ∙ layer-LeavesOut p golden (some (c.profile_values component profile)) lp

-- A layer that has a value at the path which is no object.
abbrev pub Says : List String → Option Value → Type 0
Says p none = ⊥
Says p (some over) = IsTree over × ((v : Value) × (at p over ≡ some v) × (is_object v ≡ false))

abbrev pub Speaks : List String → Option Value → Type 0
Speaks p o = Says p o ⊎ LeavesOut p o

-- The layer's value, or what the layers below it give.
abbrev pub or_below :
    (p : List String) (o : Option Value) → Speaks p o → Option Value → Option Value
or_below p none (inl s) below = absurd s
or_below p (some over) (inl (t, (v, e, flat))) below = some v
or_below p o (inr l) below = below

at-layer :
    (p : List String) (base : Value) (o : Option Value) (s : Speaks p o)
    → at p (layer base o) ≡ or_below p o s (at p base)
at-layer p base none (inl s) = absurd s
at-layer p base (some over) (inl (t, (v, e, flat))) = at-deep_merge p base over v t e flat
at-layer p base o (inr l) = layer-LeavesOut p base o l

-- At a path where each layer has a value that is no object, or is absent, or says nothing, the component
-- gets the value of the first layer that has one, in the order inline document, external document,
-- profile; and the golden value, also an object or a missing one, where none has.
pub effective_values-precedence :
    {Profile : Type 0} (c : Curated Profile) (component : String) (profile : Profile)
    (p : List String) (external inline : Option Value) (i : Speaks p inline) (e : Speaks p external)
    (f : Speaks p (some (c.profile_values component profile)))
    → at p (effective_values c component profile external inline)
      ≡ or_below p inline i (
          or_below p external e (
            or_below p
              (some (c.profile_values component profile))
              f
              (at p (c.golden_values component))))
unfolding effective_values
effective_values-precedence c component profile p external inline i e f =
    let golden = c.golden_values component in
    let curated = deep_merge golden (c.profile_values component profile) in
    at-layer p (layer curated external) inline i
    ∙ ap (or_below p inline i) (
        at-layer p curated external e
        ∙ ap (or_below p external e)
            (at-layer p golden (some (c.profile_values component profile)) f))
