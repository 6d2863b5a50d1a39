-- ===== src/Crd/Volume.antt =====
-- `VolumeSpec` of crd.rs: a governed folder of files, its grants and its storage.
pub mod Valid
pub mod Prefix
mod Tests
use stardelt_operator.Common.{
  String, ◌≡◌, ◌↔◌, Bool, true, false, not, ◌&&◌, ◌||◌, Option, none, some, List, [], ◌∷◌, map,
  arith, PartialEq, ◌==◌, nat_eq, string_eq, pair_eq, is_some, bool_eq, length, all, contains,
  collect, codes, bytes, contains_bytes, format, ◌>>=◌, ◌>>◌, reject, Validated, ok,
}
use stardelt_operator.Crd.Names.{name_ok}

pub data VolumePurpose : Type 0 where
  files libraries : VolumePurpose

pub data VolumeVerb : Type 0 where
  read write manage : VolumeVerb

verb_beq : VolumeVerb → VolumeVerb → Bool
verb_beq read read = true
verb_beq write write = true
verb_beq manage manage = true
verb_beq _ _ = false

verb_beq_iff : (v w : VolumeVerb) → (verb_beq v w ≡ true) ↔ (v ≡ w)
unfolding verb_beq
verb_beq_iff v w = ground arith

instance pub verb_eq : PartialEq VolumeVerb
verb_eq = record { eq = verb_beq; decides = verb_beq_iff }

pub record VolumeGrant : Type 0 where
  pub group : String
  pub verbs : List VolumeVerb

-- `managed: {}`
pub data ManagedStorage : Type 0 where
  managed_storage : ManagedStorage

pub record ExternalStorage : Type 0 where
  pub connection : String
  pub prefix : Option String

pub record VolumeStorage : Type 0 where
  pub managed : Option ManagedStorage
  pub external : Option ExternalStorage

pub record VolumeSpec : Type 0 where
  pub catalog : String
  pub purpose : VolumePurpose
  pub storage : VolumeStorage
  pub grants : List VolumeGrant

-- `path.contains("..") || path.contains("//")`
abbrev pub unsafe_path : String → Bool
unsafe_path path =
    contains_bytes (bytes path) (codes "..") || contains_bytes (bytes path) (codes "//")

unsafe_prefix : VolumeStorage → Bool
unsafe_prefix s = elim s.external [
  | none ↦ false
  | some e ↦ elim e.prefix [ none ↦ false | some prefix ↦ unsafe_path prefix ]
]

-- A grant that lists a verb twice.
repeats_verb : VolumeGrant → Bool
repeats_verb g = not (length (collect [] g.verbs) == length g.verbs)

check_verbs : List VolumeGrant → Validated
check_verbs [] = ok tt
check_verbs (g ∷ gs) = reject (repeats_verb g) "a verb may appear once per grant" >> check_verbs gs

is_libraries : VolumePurpose → Bool
is_libraries libraries = true
is_libraries files = false

may_write_only_managed : VolumeGrant → Bool
may_write_only_managed g = not (contains g.verbs write) || contains g.verbs manage

bad_storage : VolumeStorage → Bool
bad_storage s = is_some s.managed == is_some s.external

repeats_group : List VolumeGrant → Bool
repeats_group gs = not (length (collect [] (map (λ g. g.group) gs)) == length gs)

pub validate : VolumeSpec → String → Validated
validate v name = do
  reject (not (name_ok name)) (
      format (
        "volume name `" ∷ name
        ∷ "` must be 1 to 40 lower-case letters, digits and dashes, starting with a letter" ∷ []))
  reject (bad_storage v.storage)
      "storage must be either managed or external, not both and not neither"
  reject (unsafe_prefix v.storage) "an external prefix must not contain .. or //"
  reject (repeats_group v.grants) "each group may appear once in grants"
  check_verbs v.grants
  reject (is_libraries v.purpose && not (all may_write_only_managed v.grants))
      "on a libraries volume only a group that also manages it may write"

-- The prefix of the volume's files.
pub derived_prefix : VolumeSpec → String → String
derived_prefix v name = elim v.storage.managed [
  | some _ ↦ format ("volumes/" ∷ v.catalog ∷ "/" ∷ name ∷ "/" ∷ [])
  | none ↦ elim v.storage.external [
    | none ↦ ""
    | some e ↦ elim e.prefix [ none ↦ "" | some prefix ↦ prefix ]
  ]
]
