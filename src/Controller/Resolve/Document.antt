-- ===== src/Controller/Resolve/Document.antt =====
-- Which document an external source gives.
use stardelt_operator.Common.{
  ℕ, String, ◌≡◌, refl, sym, ap, ◌∙◌, ◌↔◌, Bool, true, false, false≢true, Option, none, some, List,
  nat_eq, string_eq, Map, get, Result, ◌>>=◌, ok, err,
}
use stardelt_operator.Values.{Value, null, boolean, number, text, array, object}
use stardelt_operator.Values.Merge.{is_object}
use stardelt_operator.Controller.Cluster.{}
use stardelt_operator.Controller.Resolve.{
  ValuesKeyRef, ValuesSource, Objects, mapping_only, map_err, ok_or, chosen, or_scope, reference_of,
  not_found_or, parse_values_document, read_referenced_key, resolve_values_from,
}

bind_iff :
    {E A B : Type 0} (m : Result E A) (f : A → Result E B) (b : B)
    → ((m >>= f) ≡ ok b) ↔ ((a : A) × (m ≡ ok a) × (f a ≡ ok b))
bind_iff (ok a) f b = (λ h. (a, refl, h), λ (x, e, h). cc)
bind_iff (err e) f b = (λ h. cc, λ (x, h, _). cc)

map_err_iff :
    {E F A : Type 0} (f : E → F) (m : Result E A) (a : A) → (map_err f m ≡ ok a) ↔ (m ≡ ok a)
map_err_iff f (ok x) a = (λ h. cc, λ h. cc)
map_err_iff f (err e) a = (λ h. cc, λ h. cc)

ok_or_iff : {A : Type 0} (x : Option A) (e : String) (a : A) → (ok_or x e ≡ ok a) ↔ (x ≡ some a)
ok_or_iff none e a = (λ h. cc, λ h. cc)
ok_or_iff (some x) e a = (λ h. cc, λ h. cc)

ok-injective : {E : Type 0} (w v : Value) → ◌≡◌ {A = Result E Value} (ok w) (ok v) → w ≡ v
ok-injective w v e = cc

clash :
    (w v : Value)
    → ◌≡◌ {A = Result String Value} (ok w) (ok v)
    → is_object v ≡ true
    → is_object w ≡ false
    → ⊥
clash w v e o f = false≢true (sym f ∙ ap is_object (ok-injective w v e) ∙ o)

mapping_only_iff :
    (r : Result String Value) (v : Value)
    → (mapping_only r ≡ ok v) ↔ ((r ≡ ok v) × (is_object v ≡ true))
unfolding mapping_only
mapping_only_iff (err e) v = (λ h. cc, λ h. cc)
mapping_only_iff (ok null) v = (λ h. cc, λ (h, o). absurd (clash null v h o refl))
mapping_only_iff (ok (boolean b)) v = (λ h. cc, λ (h, o). absurd (clash (boolean b) v h o refl))
mapping_only_iff (ok (number n)) v = (λ h. cc, λ (h, o). absurd (clash (number n) v h o refl))
mapping_only_iff (ok (text t)) v = (λ h. cc, λ (h, o). absurd (clash (text t) v h o refl))
mapping_only_iff (ok (array items)) v = (λ h. cc, λ (h, o). absurd (clash (array items) v h o refl))
mapping_only_iff (ok (object fs)) v = (
  λ h. let e = ok-injective (object fs) v h in (ap (λ x. ok x) e, ap is_object (sym e)),
  λ (h, _). ap (λ x. ok x) (ok-injective (object fs) v h),
)

-- The reference that a source sets, when it sets one only; `true` for a Secret.
abbrev pub Selects : ValuesSource → Bool → ValuesKeyRef → Type 0
Selects source true r = (source.secret_ref ≡ some r) × (source.config_map_ref ≡ none)
Selects source false r = (source.config_map_ref ≡ some r) × (source.secret_ref ≡ none)

flag_of : Result String (Bool × ValuesKeyRef) → Bool
flag_of (ok c) = c.0
flag_of (err e) = false

ref_of : ValuesKeyRef → Result String (Bool × ValuesKeyRef) → ValuesKeyRef
ref_of d (ok c) = c.1
ref_of d (err e) = d

chosen_iff :
    (source : ValuesSource) (b : Bool) (r : ValuesKeyRef)
    → (chosen source.config_map_ref source.secret_ref ≡ ok (b, r)) ↔ Selects source b r
chosen_iff source b r = go source.config_map_ref source.secret_ref b
  where
    go :
        (m q : Option ValuesKeyRef) (b : Bool)
        → (chosen m q ≡ ok (b, r)) ↔ Selects (record { config_map_ref = m; secret_ref = q }) b r
    go none none true = unfold chosen in (λ h. cc, λ h. cc h.0)
    go none none false = unfold chosen in (λ h. cc, λ h. cc h.0)
    go (some x) (some y) true = unfold chosen in (λ h. cc, λ h. cc h.1)
    go (some x) (some y) false = unfold chosen in (λ h. cc, λ h. cc h.1)
    go (some x) none true =
        unfold chosen in (λ h. absurd (false≢true (unfold flag_of in ap flag_of h)), λ h. cc)
    go none (some y) false =
        unfold chosen in (λ h. absurd (false≢true (sym (unfold flag_of in ap flag_of h))), λ h. cc)
    go (some x) none false =
        unfold chosen in (λ h. (ap some (unfold ref_of in ap (ref_of r) h), refl), λ h. cc)
    go none (some y) true =
        unfold chosen in (λ h. (ap some (unfold ref_of in ap (ref_of r) h), refl), λ h. cc)

module _ (o : Objects) where
  -- The document that a key of a ConfigMap or a Secret holds; a Secret's value is UTF-8.
  abbrev pub Holds : Bool → String → String → String → String → Type 0
  Holds true ns name key document =
      (data_ : Map (List ℕ)) × (bytes_ : List ℕ) × (o.get_secret ns name ≡ ok data_)
      × (get key data_ ≡ some bytes_)
      × (o.from_utf8 bytes_ ≡ some document)
  Holds false ns name key document =
      (data_ : Map String) × (o.get_config_map ns name ≡ ok data_) × (get key data_ ≡ some document)

  read_referenced_key_iff :
      (b : Bool) (ns name key document : String)
      → (read_referenced_key o b ns name key ≡ ok document) ↔ Holds b ns name key document
  unfolding read_referenced_key
  read_referenced_key_iff true ns name key document =
      let outer =
        bind_iff (map_err (not_found_or o (reference_of true ns name)) (o.get_secret ns name)) _
          document in
      (
        λ h.
            let (data_, got, rest) = outer.0 h in
            let (bytes_, here, decoded) = (bind_iff _ _ document).0 rest in
            (
              data_,
              bytes_,
              (map_err_iff _ _ data_).0 got,
              (ok_or_iff _ _ bytes_).0 here,
              (ok_or_iff _ _ document).0 decoded,
            ),
        λ (data_, bytes_, got, here, decoded). outer.1 (
          data_,
          (map_err_iff _ _ data_).1 got,
          (bind_iff _ _ document).1
              (bytes_, (ok_or_iff _ _ bytes_).1 here, (ok_or_iff _ _ document).1 decoded),
        ),
      )
  read_referenced_key_iff false ns name key document =
      let outer =
        bind_iff (map_err (not_found_or o (reference_of false ns name)) (o.get_config_map ns name))
          _ document in
      (
        λ h.
            let (data_, got, here) = outer.0 h in
            (data_, (map_err_iff _ _ data_).0 got, (ok_or_iff _ _ document).0 here),
        λ (data_, got, here).
            outer.1 (data_, (map_err_iff _ _ data_).1 got, (ok_or_iff _ _ document).1 here),
      )

  -- An external source gives a document exactly when it sets one of its two references, a namespace is
  -- known, the referenced key holds a text there, and that text is a YAML mapping; it gives that mapping.
  pub resolve_values_from_iff :
      (scope : Option String) (source : ValuesSource) (v : Value)
      → (resolve_values_from o scope source ≡ ok v) ↔ (
          (b : Bool) × (r : ValuesKeyRef) × (ns : String) × (document : String) × Selects source b r
          × (or_scope r.namespace scope ≡ some ns)
          × Holds b ns r.name r.key document
          × (o.parse_yaml document ≡ ok v)
          × (is_object v ≡ true))
  unfolding resolve_values_from parse_values_document
  resolve_values_from_iff scope source v =
      let outer = bind_iff (chosen source.config_map_ref source.secret_ref) _ v in
      (
        λ h.
            let (c, picked, rest) = outer.0 h in
            let (ns, placed, more) = (bind_iff _ _ v).0 rest in
            let (document, read, parsed) = (bind_iff _ _ v).0 more in
            let (yaml, mapping) =
              (mapping_only_iff (o.parse_yaml document) v).0 ((map_err_iff _ _ v).0 parsed) in
            (
              c.0,
              c.1,
              ns,
              document,
              (chosen_iff source c.0 c.1).0 picked,
              (ok_or_iff _ _ ns).0 placed,
              (read_referenced_key_iff c.0 ns c.1.name c.1.key document).0 read,
              yaml,
              mapping,
            ),
        λ (b, r, ns, document, picked, placed, read, yaml, mapping). outer.1 (
          (b, r),
          (chosen_iff source b r).1 picked,
          (bind_iff _ _ v).1 (
            ns,
            (ok_or_iff _ _ ns).1 placed,
            (bind_iff _ _ v).1 (
              document,
              (read_referenced_key_iff b ns r.name r.key document).1 read,
              (map_err_iff _ _ v).1
                  ((mapping_only_iff (o.parse_yaml document) v).1 (yaml, mapping)),
            ),
          ),
        ),
      )
