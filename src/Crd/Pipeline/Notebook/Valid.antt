-- ===== src/Crd/Pipeline/Notebook/Valid.antt =====
-- What an accepted notebook task is.
use stardelt_operator.Common.{
  ℕ, ◌≤◌, String, ◌≡◌, refl, sym, ap, subst, ◌∙◌, ◌↔◌, ◌⊎◌, inl, Bool, true, false, not, ◌&&◌, ◌||◌,
  Option, none, some, List, [], ◌∷◌, ◌++◌, arith, leb, string_eq, some-injective, length, any, All,
  In, All-map, any-false_iff, contains, contains_iff, Map, get, keys, codes, bytes,
  is_ascii_alphanumeric, join, strip_suffix, strip_suffix_sound, strip_suffix-append,
  reject_then_iff, then_iff, last_iff, not-false_iff, ok,
}
use stardelt_operator.Crd.Names.{}
use stardelt_operator.Crd.Names.Shape.{IsLetterDigit, IsWord, word_ok_iff}
use stardelt_operator.Crd.Pipeline.Task.{PipelineTask}
use stardelt_operator.Crd.Pipeline.Notebook.{
  notebook_config_keys, notebook_byte, stem_ok, notebook_file_ok, is_whitespace, object_version_ok,
  is_some_and, find, check_foreign, too_many, check_params, validate_notebook_task,
}

abbrev pub IsNotebookByte : ℕ → Type 0
IsNotebookByte b = IsLetterDigit b ⊎ (b ≡ b'.') ⊎ (b ≡ b'_') ⊎ (b ≡ b' ') ⊎ (b ≡ b'-')

-- A file name with the ending `.ipynb`.
abbrev pub IsNotebookFile : String → Type 0
IsNotebookFile s =
    (stem : List ℕ) × (bytes s ≡ stem ++ codes ".ipynb")
    × IsWord 128 IsLetterDigit IsNotebookByte stem

-- 1 to 128 characters, none of them white space.
abbrev pub IsVersion : String → Type 0
IsVersion s =
    (1 ≤ length (codes s)) × (length (codes s) ≤ 128) × All (λ c. is_whitespace c ≡ false) (codes s)

stem_ok_iff :
    (stem : List ℕ) → (stem_ok (some stem) ≡ true) ↔ IsWord 128 IsLetterDigit IsNotebookByte stem
unfolding stem_ok
stem_ok_iff stem =
    word_ok_iff 128 is_ascii_alphanumeric notebook_byte (λ b. ground arith) (λ b. ground arith)
      (λ b h. inl h) stem

ending : List ℕ
ending = codes ".ipynb"

-- By the stem that `strip_suffix` finds.
stem_of : (s : String) → notebook_file_ok s ≡ stem_ok (strip_suffix (bytes s) ending)
unfolding notebook_file_ok ending
stem_of s = refl

file_of_stem :
    (hay : List ℕ) (o : Option (List ℕ))
    → strip_suffix hay ending ≡ o
    → stem_ok o ≡ true
    → (stem : List ℕ) × (hay ≡ stem ++ ending) × IsWord 128 IsLetterDigit IsNotebookByte stem
file_of_stem hay none e h = let h' : false ≡ true = unfold stem_ok in h in cc
file_of_stem hay (some stem) e h =
    (stem, strip_suffix_sound hay ending stem e, (stem_ok_iff stem).0 h)

notebook_file_ok_iff : (s : String) → (notebook_file_ok s ≡ true) ↔ IsNotebookFile s
unfolding ending
notebook_file_ok_iff s = (
  λ h. file_of_stem (bytes s) (strip_suffix (bytes s) ending) refl (sym (stem_of s) ∙ h),
  λ (stem, e, w).
      stem_of s
      ∙ (ap (λ hay. stem_ok (strip_suffix hay ending)) e
          ∙ (ap stem_ok (strip_suffix-append stem ending) ∙ (stem_ok_iff stem).1 w)),
)

and3_not_iff :
    (a b c : Bool) → ((a && b && not c) ≡ true) ↔ ((a ≡ true) × ((b ≡ true) × (c ≡ false)))
and3_not_iff a b c = ground arith

object_version_ok_iff : (s : String) → (object_version_ok s ≡ true) ↔ IsVersion s
unfolding object_version_ok
object_version_ok_iff s =
    let cs = codes s in
    let (split, join) =
      and3_not_iff (leb 1 (length cs)) (leb (length cs) 128) (any is_whitespace cs) in
    let (none_white, none_white') = any-false_iff is_whitespace cs in
    (
      λ h. let (low, (high, clear)) = split h in (ground arith, ground arith, none_white clear),
      λ h. join (ground arith, (ground arith, none_white' h.2)),
    )

-- A configured text that satisfies `P`.
abbrev pub Has : (String → Type 0) → Option String → Type 0
Has P o = (s : String) × (o ≡ some s) × P s

is_some_and_iff :
    (P : String → Type 0) (p : String → Bool)
    → ((s : String) → (p s ≡ true) ↔ P s)
    → (o : Option String) → (is_some_and o p ≡ true) ↔ Has P o
is_some_and_iff P p f none = (λ h. cc, λ (s, e, q). cc)
is_some_and_iff P p f (some s) =
    (λ h. (s, refl, (f s).0 h), λ (s', e, q). (f s).1 (subst P (sym (some-injective e)) q))

find-none_iff :
    (p : String → Bool) (ks : List String) → (find p ks ≡ none) ↔ All (λ k. p k ≡ false) ks
find-none_iff p [] = (λ h. tt, λ h. refl)
find-none_iff p (k ∷ ks) =
    let (there, back) = find-none_iff p ks in
    (λ h. (ground arith, there (ground arith)), λ h. let e = back h.1 in ground arith)

module _ (parse_object : String → Option (Map String)) where
  -- The parameters, where there are any, are an object with at most 32 keys.
  abbrev pub HasReadableParams : Option String → Type 0
  HasReadableParams o =
      (params : String)
      → o ≡ some params
      → (parsed : Map String) × (parse_object params ≡ some parsed) × (length parsed ≤ 32)

  abbrev pub IsNotebookTask : PipelineTask → Type 0
  IsNotebookTask t =
      (Has IsNotebookFile (get "notebook" t.config) × Has IsVersion (get "objectVersion" t.config))
      × (All (λ key. In key notebook_config_keys) (keys t.config)
          × HasReadableParams (get "params" t.config))

  check_foreign_iff : (o : Option String) → (check_foreign parse_object o ≡ ok tt) ↔ (o ≡ none)
  unfolding check_foreign
  check_foreign_iff none = (λ h. refl, λ h. refl)
  check_foreign_iff (some key) = (λ h. cc, λ h. cc)

  too_many_iff :
      (o : Option (Map String))
      → (too_many parse_object o ≡ false)
        ↔ ((parsed : Map String) × (o ≡ some parsed) × (length parsed ≤ 32))
  unfolding too_many
  too_many_iff none = (λ h. cc, λ (m, e, l). cc)
  too_many_iff (some parsed) = (
    λ h. (parsed, refl, ground arith),
    λ (m, e, l). let same = ap (λ (x : Map String). length x) (some-injective e) in ground arith,
  )

  check_params_iff :
      (o : Option String) → (check_params parse_object o ≡ ok tt) ↔ HasReadableParams o
  unfolding check_params
  check_params_iff none = (λ h p e. cc, λ f. refl)
  check_params_iff (some params) =
      let (there, back) = last_iff _ _ (too_many_iff (parse_object params)) in
      (
        λ h p e.
            subst
              (λ x. (parsed : Map String) × (parse_object x ≡ some parsed) × (length parsed ≤ 32))
              (some-injective e) (there h),
        λ f. back (f params refl),
      )

  foreign_iff :
      (ks : List String)
      → (check_foreign parse_object (find (λ key. not (contains notebook_config_keys key)) ks)
          ≡ ok tt)
        ↔ All (λ key. In key notebook_config_keys) ks
  foreign_iff ks =
      let (c, c') = check_foreign_iff (find (λ key. not (contains notebook_config_keys key)) ks) in
      let (f, f') = find-none_iff (λ key. not (contains notebook_config_keys key)) ks in
      let known = λ (key : String).
        not-false_iff (contains notebook_config_keys key) (contains_iff notebook_config_keys key) in
      (
        λ h. All-map (λ key e. (known key).0 e) ks (f (c h)),
        λ h. c' (f' (All-map (λ key i. (known key).1 i) ks h)),
      )

  or-not-false_iff :
      {P Q : Type 0} (a b : Bool)
      → (a ≡ true) ↔ P
      → (b ≡ true) ↔ Q
      → ((not a || not b) ≡ false) ↔ (P × Q)
  or-not-false_iff a b p q = (
    λ h. (p.0 (ground arith), q.0 (ground arith)),
    λ h. let x = p.1 h.0 in let y = q.1 h.1 in ground arith,
  )

  -- `validate_notebook_task` accepts exactly the notebook tasks.
  pub validate_notebook_task_iff :
      (t : PipelineTask) → (validate_notebook_task parse_object t ≡ ok tt) ↔ IsNotebookTask t
  unfolding validate_notebook_task
  validate_notebook_task_iff t =
      reject_then_iff _ _ _
        (or-not-false_iff (is_some_and (get "notebook" t.config) notebook_file_ok)
          (is_some_and (get "objectVersion" t.config) object_version_ok)
          (is_some_and_iff IsNotebookFile notebook_file_ok notebook_file_ok_iff
            (get "notebook" t.config))
          (is_some_and_iff IsVersion object_version_ok object_version_ok_iff
            (get "objectVersion" t.config)))
        (then_iff _ _ (foreign_iff (keys t.config)) (check_params_iff (get "params" t.config)))
