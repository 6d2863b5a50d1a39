-- ===== src/Crd/Pipeline/Notebook.antt =====
-- The checks of a notebook task in crd.rs. `serde_json` is not modelled: reading `params` as an
-- object of texts is the parameter `parse_object`.
pub mod Valid
use stardelt_operator.Common.{
  ℕ, String, Bool, true, false, not, ◌&&◌, ◌||◌, Option, none, some, List, [], ◌∷◌, ltb, leb,
  if◌then◌else◌, ◌==◌, nat_eq, string_eq, length, any, contains, Map, get, keys, codes, bytes,
  is_ascii_alphanumeric, strip_suffix, format, ◌>>=◌, ◌>>◌, reject, Validated, ok, err,
}
use stardelt_operator.Crd.Names.{word_ok}
use stardelt_operator.Crd.Pipeline.Task.{PipelineTask}

abbrev pub notebook_config_keys : List String
notebook_config_keys = "notebook" ∷ "objectVersion" ∷ "params" ∷ []

abbrev pub max_notebook_params : ℕ
max_notebook_params = 32

abbrev pub notebook_byte : ℕ → Bool
notebook_byte b = is_ascii_alphanumeric b || b == b'.' || b == b'_' || b == b' ' || b == b'-'

stem_ok : Option (List ℕ) → Bool
stem_ok none = false
stem_ok (some stem) = word_ok 128 is_ascii_alphanumeric notebook_byte stem

unfoldable pub notebook_file_ok : String → Bool
unfolding stem_ok
notebook_file_ok name = stem_ok (strip_suffix (bytes name) (codes ".ipynb"))

-- `char::is_whitespace`: the code points of the property White_Space.
unfoldable pub is_whitespace : ℕ → Bool
is_whitespace c =
    (leb 9 c && leb c 13)
    || c == 0x20
    || c == 0x85
    || c == 0xA0
    || c == 0x1680
    || (leb 0x2000 c && leb c 0x200A)
    || c == 0x2028
    || c == 0x2029
    || c == 0x202F
    || c == 0x205F
    || c == 0x3000

unfoldable pub object_version_ok : String → Bool
unfolding is_whitespace
object_version_ok version =
    let count = length (codes version) in
    leb 1 count && leb count 128 && not (any is_whitespace (codes version))

-- `o.is_some_and(p)`
abbrev pub is_some_and : Option String → (String → Bool) → Bool
is_some_and none p = false
is_some_and (some s) p = p s

-- `iter().find(p)`
abbrev pub find : (String → Bool) → List String → Option String
find p [] = none
find p (k ∷ ks) = let rest = find p ks in if p k then some k else rest

module _ (parse_object : String → Option (Map String)) where
  check_foreign : Option String → Validated
  check_foreign none = ok tt
  check_foreign (some key) = err (
      format (
        "notebook tasks accept only notebook, objectVersion and params (found `" ∷ key ∷ "`)" ∷ []))

  too_many : Option (Map String) → Bool
  too_many none = true
  too_many (some parsed) = ltb max_notebook_params (length parsed)

  check_params : Option String → Validated
  check_params none = ok tt
  check_params (some params) =
      reject (too_many (parse_object params))
        "notebook params must be a JSON object string of string values, at most 32 keys"

  pub validate_notebook_task : PipelineTask → Validated
  validate_notebook_task task = do
    reject
        (not (is_some_and (get "notebook" task.config) notebook_file_ok)
          || not (is_some_and (get "objectVersion" task.config) object_version_ok))
        "a notebook task needs config.notebook (a .ipynb file name) and config.objectVersion (the published version)"
    check_foreign (find (λ key. not (contains notebook_config_keys key)) (keys task.config))
    check_params (get "params" task.config)
