-- ===== src/Crd/Volume/Valid.antt =====
-- What an accepted volume is, and that `validate` accepts nothing else.
use stardelt_operator.Common.{
  String, ◌≡◌, refl, sym, ◌∙◌, ◌≢◌, ◌↔◌, ◌⊎◌, inl, inr, true, false, not, ◌&&◌, false≢true, none,
  some, List, [], ◌∷◌, map, arith, nat_eq, string_eq, Bool-cases, Option-cases, pair_eq, false_iff,
  bool_eq, all, All, length-map, In, Distinct, all_iff, contains, contains_iff, repeats_iff, codes,
  bytes, IsInfix, contains_bytes_iff, reject_then_iff, then_iff, last_iff, not-false_iff, ok,
}
use stardelt_operator.Crd.Names.{name_ok}
use stardelt_operator.Crd.Names.Resource.{IsResourceName, name_ok_iff}
use stardelt_operator.Crd.Volume.{
  VolumePurpose, files, verb_eq, VolumeGrant, ExternalStorage, VolumeStorage, VolumeSpec,
  unsafe_path, unsafe_prefix, repeats_verb, check_verbs, is_libraries, may_write_only_managed,
  bad_storage, repeats_group, validate, libraries, write, manage,
}

abbrev pub IsSafePath : String → Type 0
IsSafePath path = ¬ (IsInfix (bytes path) (codes "..")) × ¬ (IsInfix (bytes path) (codes "//"))

abbrev OneStorage : VolumeStorage → Type 0
OneStorage s =
    ((s.managed ≡ none) × (s.external ≢ none)) ⊎ ((s.managed ≢ none) × (s.external ≡ none))

abbrev pub HasSafePrefix : VolumeStorage → Type 0
HasSafePrefix s =
    (e : ExternalStorage) (path : String)
    → s.external ≡ some e
    → e.prefix ≡ some path
    → IsSafePath path

-- On a `libraries` volume who may write also manages.
abbrev pub IsGoverned : VolumePurpose → List VolumeGrant → Type 0
IsGoverned p gs = p ≡ libraries → All (λ g. In write g.verbs → In manage g.verbs) gs

abbrev pub IsValid : VolumeSpec → String → Type 0
IsValid v name =
    IsResourceName name
    × (OneStorage v.storage
        × (HasSafePrefix v.storage
            × (Distinct (map (λ g. g.group) v.grants)
                × (All (λ g. Distinct g.verbs) v.grants × IsGoverned v.purpose v.grants))))

pub unsafe_path_iff : (path : String) → (unsafe_path path ≡ false) ↔ IsSafePath path
unsafe_path_iff path =
    let dots = false_iff _ (contains_bytes_iff (bytes path) (codes "..")) in
    let slashes = false_iff _ (contains_bytes_iff (bytes path) (codes "//")) in
    (
      λ h. (dots.0 (ground arith), slashes.0 (ground arith)),
      λ h. let d = dots.1 h.0 in let s = slashes.1 h.1 in ground arith,
    )

bad_storage_iff : (s : VolumeStorage) → (bad_storage s ≡ false) ↔ OneStorage s
unfolding bad_storage
bad_storage_iff s = (λ h. ground arith, λ h. ground arith)

check_verbs_iff :
    (gs : List VolumeGrant) → (check_verbs gs ≡ ok tt) ↔ All (λ g. Distinct g.verbs) gs
unfolding check_verbs repeats_verb
check_verbs_iff [] = (λ h. tt, λ h. refl)
check_verbs_iff (g ∷ gs) = reject_then_iff _ _ _ (repeats_iff g.verbs _ refl) (check_verbs_iff gs)

unsafe_prefix-some :
    (s : VolumeStorage) (e : ExternalStorage) (path : String)
    → s.external ≡ some e
    → e.prefix ≡ some path
    → unsafe_prefix s ≡ unsafe_path path
unfolding unsafe_prefix
unsafe_prefix-some s e path p q = ground arith

unsafe_prefix_iff : (s : VolumeStorage) → (unsafe_prefix s ≡ false) ↔ HasSafePrefix s
unsafe_prefix_iff s = (
  λ h e path p q. (unsafe_path_iff path).0 (sym (unsafe_prefix-some s e path p q) ∙ h),
  λ h. elim (Option-cases s.external) [
    | inl no_store ↦ unfold unsafe_prefix in rw (no_store, unsafe_prefix)
    | inr (e, store) ↦ elim (Option-cases e.prefix) [
      | inl no_prefix ↦ unfold unsafe_prefix in ground arith
      | inr (path, prefix) ↦
          unsafe_prefix-some s e path store prefix
          ∙ (unsafe_path_iff path).1 (h e path store prefix)
    ]
  ],
)

governed_iff :
    (g : VolumeGrant) → (may_write_only_managed g ≡ true) ↔ (In write g.verbs → In manage g.verbs)
unfolding may_write_only_managed
governed_iff g =
    let (writes, writes') = contains_iff g.verbs write in
    let (manages, manages') = contains_iff g.verbs manage in
    elim (Bool-cases (contains g.verbs write)) [
      | inl w ↦ rw w (λ h i. manages h, λ f. manages' (f (writes w)))
      | inr n ↦ rw n (λ h i. absurd (false≢true (sym n ∙ writes' i)), λ f. refl)
    ]

libraries_iff :
    (p : VolumePurpose) (gs : List VolumeGrant)
    → ((is_libraries p && not (all may_write_only_managed gs)) ≡ false) ↔ IsGoverned p gs
unfolding is_libraries
libraries_iff files gs = (λ h e. cc, λ f. refl)
libraries_iff libraries gs =
    let (there, back) = not-false_iff _ (all_iff may_write_only_managed gs governed_iff) in
    (λ h e. there h, λ f. back (f refl))

-- `validate` accepts exactly the volumes with a resource name, one of managed and external
-- storage, an external prefix without `..` and `//`, distinct groups with distinct verbs, and, for
-- the libraries purpose, no group that may write and not manage.
pub volume_validate_iff :
    (v : VolumeSpec) (name : String) → (validate v name ≡ ok tt) ↔ IsValid v name
unfolding validate repeats_group
volume_validate_iff v name =
    reject_then_iff _ _ _ (not-false_iff (name_ok name) (name_ok_iff name)) (
      reject_then_iff _ _ _ (bad_storage_iff v.storage) (
        reject_then_iff _ _ _ (unsafe_prefix_iff v.storage) (
          reject_then_iff _ _ _
            (repeats_iff (map (λ g. g.group) v.grants) _ (sym (length-map (λ g. g.group) v.grants)))
            (then_iff _ _ (check_verbs_iff v.grants)
              (last_iff _ _ (libraries_iff v.purpose v.grants))))))
