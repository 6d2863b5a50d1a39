-- ===== src/Crd/Pipeline/Kahn/Relax.antt =====
-- One round of the loop: what taking `name` does to the counts and to the queue.
use stardelt_operator.Common.{
  ℕ, zero, suc, ◌+◌, ◌≤◌, String, ◌≡◌, refl, sym, subst, ◌∙◌, ◌≢◌, ◌↔◌, inl, inr, eq_iff, some,
  List, [], ◌∷◌, ◌++◌, arith, string_eq, Bool-cases, length, All, In, Distinct, contains, Map, get,
  insert, get-insert, hits, hits-le,
}
use stardelt_operator.Crd.Pipeline.Task.{PipelineTask, names}
use stardelt_operator.Crd.Pipeline.Kahn.{State, decrement, touch, relax}

-- After the tasks `taken`, a task waits for the dependencies that are not taken, and it has been
-- queued exactly when there are none.
pub record Settled (taken : List String) (w : Map ℕ) (queued : List String) (t : PipelineTask)
    : Type 0 where
  pub left : ℕ
  pub counted : get t.name w ≡ some left
  pub sum : left + hits t.depends_on taken ≡ length t.depends_on
  pub queued_full : In t.name queued → hits t.depends_on taken ≡ length t.depends_on
  pub full_queued : hits t.depends_on taken ≡ length t.depends_on → In t.name queued

pub Settled-transfer :
    {taken : List String} {w w' : Map ℕ} {q q' : List String} {t : PipelineTask}
    → get t.name w' ≡ get t.name w
    → In t.name q' ↔ In t.name q
    → Settled taken w q t
    → Settled taken w' q' t
Settled-transfer same member s = record {
  left = s.left;
  counted = same ∙ s.counted;
  sum = s.sum;
  queued_full = λ i. s.queued_full (member.0 i);
  full_queued = λ e. member.1 (s.full_queued e);
}

-- What a step leaves alone.
pub record Frame (rest : List String) (k : String) (s s' : State) : Type 0 where
  pub same : get k s'.0 ≡ get k s.0
  pub member : In k (s'.1 ++ rest) ↔ In k (s.1 ++ rest)

module _ (name : String) (taken rest : List String) where
  pub record Touched (t : PipelineTask) (s s' : State) : Type 0 where
    pub settled : Settled (name ∷ taken) s'.0 (s'.1 ++ rest) t
    pub distinct : Distinct (s'.1 ++ rest)
    pub frame : (k : String) → k ≢ t.name → Frame rest k s s'

  Frame-refl : (k : String) (s : State) → Frame rest k s s
  Frame-refl k s = record { same = refl; member = (λ i. i, λ i. i) }

  -- The new count, and the other keys.
  get_other : (k j : String) (m : ℕ) (w : Map ℕ) → k ≢ j → get k (insert j m w) ≡ get k w
  get_other k j m w ne = rw (get-insert j k m w) (ground (arith, eq_iff j k))

  get_self : (j : String) (m : ℕ) (w : Map ℕ) → get j (insert j m w) ≡ some m
  get_self j m w = rw (get-insert j j m w) (ground (arith, eq_iff j j))

  touch_dep :
      (t : PipelineTask) (w : Map ℕ) (r : List String) (n : ℕ)
      → hits t.depends_on (name ∷ taken) ≡ suc (hits t.depends_on taken)
      → hits t.depends_on (name ∷ taken) ≤ length t.depends_on
      → get t.name w ≡ some n
      → n + hits t.depends_on taken ≡ length t.depends_on
      → (In t.name (r ++ rest) → hits t.depends_on taken ≡ length t.depends_on)
      → Distinct (r ++ rest)
      → (s' : State) × (decrement t.name (get t.name w) (w, r) ≡ some s') × Touched t (w, r) s'
  unfolding decrement
  touch_dep t w r zero more bound at_n sum there d = absurd (omega arith)
  touch_dep t w r (suc zero) more bound at_n sum there d = (
    (insert t.name 0 w, t.name ∷ r),
    rw at_n,
    record {
      settled = record {
        left = 0;
        counted = get_self t.name 0 w;
        sum = omega arith;
        queued_full = λ i. omega arith;
        full_queued = λ e. inl refl;
      };
      distinct = (λ i. let full = there i in absurd (omega arith), d);
      frame = λ k ne. record {
        same = get_other k t.name 0 w ne;
        member = (λ i. elim i [ inl e ↦ absurd (ne e) | inr j ↦ j ], λ i. inr i);
      };
    },
  )
  touch_dep t w r (suc (suc m)) more bound at_n sum there d = (
    (insert t.name (suc m) w, r),
    rw at_n (ground arith),
    record {
      settled = record {
        left = suc m;
        counted = get_self t.name (suc m) w;
        sum = omega arith;
        queued_full = λ i. let full = there i in absurd (omega arith);
        full_queued = λ e. absurd (omega arith);
      };
      distinct = d;
      frame = λ k ne. record { same = get_other k t.name (suc m) w ne; member = (λ i. i, λ i. i) };
    },
  )

  touch_lem :
      (t : PipelineTask) (w : Map ℕ) (r : List String)
      → Distinct (name ∷ taken)
      → Settled taken w (r ++ rest) t
      → Distinct (r ++ rest)
      → (s' : State) × (touch name t (w, r) ≡ some s') × Touched t (w, r) s'
  unfolding touch hits
  touch_lem t w r once s d = elim (Bool-cases (contains t.depends_on name)) [
    | inl dep ↦
        rw (dep, touch)
          (touch_dep t w r s.left (rw dep) (hits-le t.depends_on (name ∷ taken) once) s.counted
            s.sum s.queued_full d)
    | inr other ↦
        let same : hits t.depends_on (name ∷ taken) ≡ hits t.depends_on taken = rw other in
        (
          (w, r),
          rw (other, touch),
          record {
            settled = record {
              left = s.left;
              counted = s.counted;
              sum = omega (arith, s.sum);
              queued_full = λ i. same ∙ s.queued_full i;
              full_queued = λ e. s.full_queued (sym same ∙ e);
            };
            distinct = d;
            frame = λ k ne. Frame-refl k (w, r);
          },
        )
  ]

  -- A whole round, over tasks with distinct names.
  pub record Round (ts : List PipelineTask) (s s' : State) : Type 0 where
    pub settled : All (Settled (name ∷ taken) s'.0 (s'.1 ++ rest)) ts
    pub distinct : Distinct (s'.1 ++ rest)
    pub frame : (k : String) → ¬ (In k (names ts)) → Frame rest k s s'

  Frame-trans :
      {k : String} {s t u : State} → Frame rest k s t → Frame rest k t u → Frame rest k s u
  Frame-trans f g = record {
    same = g.same ∙ f.same;
    member = (λ i. f.member.0 (g.member.0 i), λ i. g.member.1 (f.member.1 i));
  }

  -- Tasks with other names stay settled.
  All-transfer :
      (X : List String) (s s' : State) (ts : List PipelineTask)
      → ((k : String) → In k (names ts) → Frame rest k s s')
      → All (Settled X s.0 (s.1 ++ rest)) ts
      → All (Settled X s'.0 (s'.1 ++ rest)) ts
  All-transfer X s s' [] f h = tt
  All-transfer X s s' (t ∷ ts) f (h, hs) =
      let fr = f t.name (inl refl) in
      (Settled-transfer fr.same fr.member h, All-transfer X s s' ts (λ k i. f k (inr i)) hs)

  pub relax_lem :
      (ts : List PipelineTask) (s : State)
      → Distinct (names ts)
      → Distinct (name ∷ taken)
      → All (Settled taken s.0 (s.1 ++ rest)) ts
      → Distinct (s.1 ++ rest)
      → (s' : State) × (relax name ts s ≡ some s') × Round ts s s'
  unfolding relax
  relax_lem [] s dn once h d =
      (s, refl, record { settled = tt; distinct = d; frame = λ k ne. Frame-refl k s })
  relax_lem (t ∷ ts) s (nt, dn) once (h, hs) d =
      let (s1, touched, one) = touch_lem t s.0 s.1 once h d in
      let later =
        All-transfer taken s s1 ts (λ k i. one.frame k (λ e. nt (subst (λ x. In x (names ts)) e i)))
          hs in
      let (s2, relaxed, more) = relax_lem ts s1 dn once later one.distinct in
      let fr = more.frame t.name nt in
      (
        s2,
        rw (touched, relax) relaxed,
        record {
          settled = (Settled-transfer fr.same fr.member one.settled, more.settled);
          distinct = more.distinct;
          frame =
              λ k ne. Frame-trans (one.frame k (λ e. ne (inl e))) (more.frame k (λ i. ne (inr i)));
        },
      )
