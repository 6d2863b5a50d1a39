-- ===== src/Secrets/Store.antt =====
-- What a call may change in the store: a value that is there stays.
use stardelt_operator.Crd.Status.{ComponentStatus}
use stardelt_operator.Crd.Status.{}
use stardelt_operator.Encoding.{Text}
use stardelt_operator.Secrets.{
  World, Fate, done, fails, is_lost, Outside, Run, and_then, ◌>>=◌, tick, merge, or_empty, written,
  read_answer, get_opt, write_answer, write, reported, gated,
}
use stardelt_operator.Controller.Apply.{}
use stardelt_operator.Controller.Cluster.{}
use stardelt_operator.Common.{
  String, ◌≡◌, refl, sym, ap, ◌∙◌, ◌≢◌, inl, inr, Bool, true, false, eq_iff, Option, none, some, [],
  ◌∷◌, if◌then◌else◌, ◌==◌, string_eq, Bool-cases, Map, get, insert, get-insert, Result, ok, err,
}

abbrev pub value_in : Option (Map Text) → String → Option Text
value_in none key = none
value_in (some m) key = get key m

abbrev pub value_at : World → String → String → Option Text
value_at w name key = value_in (get name w.secrets) key

-- Every value of `w` is in `w'`.
abbrev pub Grows : World → World → Type 0
Grows w w' =
    (name key : String) (v : Text) → value_at w name key ≡ some v → value_at w' name key ≡ some v

pub Grows-same : (w w' : World) → w'.secrets ≡ w.secrets → Grows w w'
Grows-same w w' e name key v h = ap (λ (m : Map (Map Text)). value_in (get name m) key) e ∙ h

abbrev pub or_else : Option Text → Option Text → Option Text
or_else none y = y
or_else (some x) y = some x

get-merge :
    (base new : Map Text) (key : String)
    → get key (merge base new) ≡ or_else (get key new) (get key base)
unfolding merge get
get-merge base [] key = refl
get-merge base ((k, v) ∷ new) key = elim (Bool-cases (k == key)) [
  | inl same ↦ get-insert k key v (merge base new) ∙ rw same refl
  | inr other ↦ get-insert k key v (merge base new) ∙ rw other (get-merge base new key)
]

in_empty : (o : Option (Map Text)) (key : String) → get key (or_empty o) ≡ value_in o key
unfolding or_empty get
in_empty none key = refl
in_empty (some m) key = refl

pub value_at-written :
    (name : String) (new : Map Text) (w : World) (j key : String)
    → value_at (written false name new w) j key
      ≡ (if name == j then or_else (get key new) (value_at w j key) else value_at w j key)
unfolding written
value_at-written name new w j key =
    let all_keys = merge (or_empty (get name w.secrets)) new in
    let law = get-insert name j all_keys w.secrets in
    elim (Bool-cases (name == j)) [
      | inl same ↦
          let here : get j (insert name all_keys w.secrets) ≡ some all_keys = rw same at law in
          rw (same, here)
            (get-merge (or_empty (get name w.secrets)) new key
              ∙ ap (or_else (get key new)) (
                  in_empty (get name w.secrets) key
                  ∙ ap (λ n. value_in (get n w.secrets) key) ((eq_iff name j).0 same)))
      | inr other ↦
          let there : get j (insert name all_keys w.secrets) ≡ get j w.secrets = rw other at law in
          rw (other, there) refl
    ]

-- The write of keys that have no value yet.
pub written-Grows :
    (dry_run : Bool) (name : String) (new : Map Text) (w : World)
    → ((key : String) (v : Text) → value_at w name key ≡ some v → get key new ≡ none)
    → Grows w (written dry_run name new w)
written-Grows true name new w fresh j key v h =
    Grows-same w (written true name new w) (unfold written in refl) j key v h
written-Grows false name new w fresh j key v h =
    value_at-written name new w j key ∙ elim (Bool-cases (name == j)) [
      | inl same ↦
          let here = ap (λ n. value_at w n key) ((eq_iff name j).0 same) ∙ h in
          rw (same, fresh key v here) h
      | inr other ↦ rw other h
    ]

module _ (o : Outside) where
  write_answer-Grows :
      (fate : Fate) (dry_run : Bool) (name : String) (new : Map Text) (w : World)
      → ((key : String) (v : Text) → value_at w name key ≡ some v → get key new ≡ none)
      → Grows w (write_answer o fate dry_run name new w).1
  write_answer-Grows done dry_run name new w fresh = written-Grows dry_run name new w fresh
  write_answer-Grows (fails e) dry_run name new w fresh = Grows-same w (tick w) refl
  write_answer-Grows (is_lost e) dry_run name new w fresh = written-Grows dry_run name new w fresh

  pub write-Grows :
      (dry_run : Bool) (name : String) (new : Map Text) (w : World)
      → ((key : String) (v : Text) → value_at w name key ≡ some v → get key new ≡ none)
      → Grows w (write o dry_run name new w).1
  unfolding write
  write-Grows dry_run name new w fresh =
      write_answer-Grows (o.fate w.calls) dry_run name new w fresh

  -- A write that was done, and no dry run, leaves the new keys with a value.
  pub write-Sets :
      (name : String) (new : Map Text) (w : World)
      → (write o false name new w).0 ≡ ok tt
      → (key : String)
      → value_at (write o false name new w).1 name key ≡ or_else (get key new) (value_at w name key)
  unfolding write
  write-Sets name new w h key = answered_sets (o.fate w.calls) h
    where
      answered_sets :
          (fate : Fate)
          → (write_answer o fate false name new w).0 ≡ ok tt
          → value_at (write_answer o fate false name new w).1 name key
            ≡ or_else (get key new) (value_at w name key)
      answered_sets done h =
          value_at-written name new w name key ∙ rw ((eq_iff name name).1 refl) refl
      answered_sets (fails e) h = cc
      answered_sets (is_lost e) h = cc

  pub get_opt_quiet : (name : String) (w : World) → (get_opt o name w).1.secrets ≡ w.secrets
  unfolding get_opt
  get_opt_quiet name w = refl

  -- What `get_opt` finds is what the store holds.
  pub get_opt_lem :
      (name : String) (w : World) (found : Option (Map Text))
      → (get_opt o name w).0 ≡ ok found
      → get name w.secrets ≡ found
  unfolding get_opt
  get_opt_lem name w found h = read (o.fate w.calls) h
    where
      read :
          (fate : Fate)
          → read_answer o fate (get name w.secrets) ≡ ok found
          → get name w.secrets ≡ found
      read done h = cc
      read (fails e) h = cc
      read (is_lost e) h = cc

-- What a bind establishes, from its parts.
pub bind_rule :
    {A B : Type 0} (Q : Result String B × World → Type 0) (p : Result String A × World)
    (f : A → Run B)
    → ((a : A) → p.0 ≡ ok a → Q (f a p.1))
    → ((e : String) → p.0 ≡ err e → Q (err e, p.1))
    → Q (and_then p f)
bind_rule Q (ok a, w) f good bad = good a refl
bind_rule Q (err e, w) f good bad = bad e refl

-- A relation between the worlds before and after a run: it holds of calls that leave the Secrets as
-- they are, of writes of keys that have no value yet, and of chains.
pub record IsLawful (o : Outside) (dry_run : Bool) (R : World → World → Type 0) : Type 0 where
  pub same : (w w' : World) → w'.secrets ≡ w.secrets → R w w'
  pub chain : (a b c : World) → R a b → R b c → R a c
  pub writes :
      (name : String) (new : Map Text) (w : World)
      → ((key : String) (v : Text) → value_at w name key ≡ some v → get key new ≡ none)
      → R w (write o dry_run name new w).1

pub Grows-IsLawful : (o : Outside) (dry_run : Bool) → IsLawful o dry_run Grows
Grows-IsLawful o dry_run = record {
  same = Grows-same;
  chain = λ a b c f g name key v h. g name key v (f name key v h);
  writes = λ name new w fresh. write-Grows o dry_run name new w fresh;
}

-- The Secrets are as they were.
abbrev pub IsQuiet : World → World → Type 0
IsQuiet w w' = w'.secrets ≡ w.secrets

dry_write :
    (o : Outside) (name : String) (new : Map Text) (w : World)
    → IsQuiet w (write o true name new w).1
unfolding write written
dry_write o name new w = answered (o.fate w.calls)
  where
    answered : (fate : Fate) → IsQuiet w (write_answer o fate true name new w).1
    answered done = refl
    answered (fails e) = refl
    answered (is_lost e) = refl

pub IsQuiet-IsLawful : (o : Outside) → IsLawful o true IsQuiet
IsQuiet-IsLawful o = record {
  same = λ w w' e. e;
  chain = λ a b c f g. g ∙ f;
  writes = λ name new w fresh. dry_write o name new w;
}

module _ {o : Outside} {dry_run : Bool} {R : World → World → Type 0}
    (r : IsLawful o dry_run R) where
  pub chain_rule :
      {A B : Type 0} (w : World) (p : Result String A × World) (f : A → Run B)
      → R w p.1
      → ((a : A) → p.0 ≡ ok a → R p.1 (f a p.1).1)
      → R w (and_then p f).1
  chain_rule w (ok a, w') f first then_ = r.chain w w' (f a w').1 first (then_ a refl)
  chain_rule w (err e, w') f first then_ = first

  -- A Secret that is created where there is none.
  pub write_absent :
      (name : String) (new : Map Text) (w : World)
      → get name w.secrets ≡ none
      → R w (write o dry_run name new w).1
  write_absent name new w absent =
      r.writes name new w
        (λ key v h. absurd (none-ne-some (sym (ap (λ m. value_in m key) absent) ∙ h)))
    where
      none-ne-some : {v : Text} → ◌≢◌ {A = Option Text} none (some v)
      none-ne-some h = cc

  pub reported_rule :
      (name : String) (w : World) (p : Result String (Bool × String) × World)
      → R w p.1
      → R w (reported name p).1
  reported_rule name w (err message, w') h = h
  reported_rule name w (ok (ready, message), w') h = h

  -- A step that reads a Secret and goes on from what it found.
  pub found_rule :
      {A : Type 0} (name : String) (f : Option (Map Text) → Run A) (w : World)
      → ((found : Option (Map Text)) (w' : World)
          → get name w'.secrets ≡ found
          → R w' (f found w').1)
      → R w ((get_opt o name >>= f) w).1
  found_rule name f w go =
      let answer = get_opt o name w in
      let quiet = get_opt_quiet o name w in
      chain_rule w answer f (r.same w answer.1 quiet)
        (λ found e. go found answer.1 (ap (λ m. get name m) quiet ∙ get_opt_lem o name w found e))

  -- A part that leaves the Secrets as they are, and what follows it.
  pub quiet_then :
      {A B : Type 0} (m : Run A) (f : A → Run B) (w : World)
      → (m w).1.secrets ≡ w.secrets
      → ((a : A) → R (m w).1 (f a (m w).1).1)
      → R w ((m >>= f) w).1
  quiet_then m f w quiet go = chain_rule w (m w) f (r.same w (m w).1 quiet) (λ a e. go a)

  pub gated_rule :
      (on : Bool) (p : ComponentStatus × World) (w : World) → R w p.1 → R w (gated on p w).1
  gated_rule true (s, after) w h = h
  gated_rule false (s, after) w h = r.same w w refl
