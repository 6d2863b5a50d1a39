-- ===== src/Crd/Pipeline/Kahn/Start.antt =====
-- What the loop starts from: the counts of all dependencies, and the tasks that have none.
use mathlib.Core.List.{append-nil}
use stardelt_operator.Common.{
  ℕ, String, ◌≡◌, refl, sym, ap, subst, ◌∙◌, ◌≢◌, ◌⊎◌, inl, inr, eq_iff, some, List, [], ◌∷◌, arith,
  nat_beq, nat_beq_iff, if◌then◌else◌, ◌==◌, string_eq, Bool-cases, some-injective, is_some, length,
  All, In, Distinct, All-In, In-All, contains, contains_iff, not-contains_iff, Map, get, keys,
  insert, get-insert, In-keys_iff, Distinct-insert, hits,
}
use stardelt_operator.Crd.Pipeline.Task.{PipelineTask, names}
use stardelt_operator.Crd.Pipeline.Kahn.{collect_waiting, free}
use stardelt_operator.Crd.Pipeline.Kahn.Relax.{Settled}
use stardelt_operator.Crd.Pipeline.Kahn.Order.{Inv}

get-insert_other : (k j : String) (n : ℕ) (w : Map ℕ) → k ≢ j → get k (insert j n w) ≡ get k w
get-insert_other k j n w ne = rw (get-insert j k n w) (ground (arith, eq_iff j k))

collect_other :
    (k : String) (w : Map ℕ) (ts : List PipelineTask)
    → ¬ (In k (names ts))
    → get k (collect_waiting w ts) ≡ get k w
unfolding collect_waiting
collect_other k w [] n = refl
collect_other k w (t ∷ ts) n =
    collect_other k (insert t.name (length t.depends_on) w) ts (λ i. n (inr i))
    ∙ get-insert_other k t.name (length t.depends_on) w (λ e. n (inl e))

collect_self :
    (w : Map ℕ) (ts : List PipelineTask)
    → Distinct (names ts)
    → All (λ t. get t.name (collect_waiting w ts) ≡ some (length t.depends_on)) ts
unfolding collect_waiting
collect_self w [] d = tt
collect_self w (t ∷ ts) (n, d) =
    let w' = insert t.name (length t.depends_on) w in
    (
      collect_other t.name w' ts n
          ∙ (get-insert t.name t.name (length t.depends_on) w
              ∙ (ground (arith, eq_iff t.name t.name))),
      collect_self w' ts d,
    )

collect_keys :
    (w : Map ℕ) (ts : List PipelineTask)
    → Distinct (keys w)
    → Distinct (keys (collect_waiting w ts))
unfolding collect_waiting
collect_keys w [] d = d
collect_keys w (t ∷ ts) d =
    collect_keys (insert t.name (length t.depends_on) w) ts
      (Distinct-insert t.name (length t.depends_on) w d)

free_sound :
    (k : String) (ready : List String) (w : Map ℕ)
    → Distinct (keys w)
    → In k (free ready w)
    → In k ready ⊎ (get k w ≡ some 0)
unfolding free get
free_sound k ready [] d i = inl i
free_sound k ready ((j, n) ∷ w) (nj, d) i = elim (Bool-cases (j == k)) [
  | inl same ↦
      let e = (eq_iff j k).0 same in
      elim (free_sound k (if nat_beq n 0 then j ∷ ready else ready) w d i) [
        | inl q ↦ ground (arith, nat_beq_iff n 0)
        | inr q ↦
            absurd (nj (subst (λ x. In x (keys w)) (sym e) ((In-keys_iff k w).0 (ap is_some q))))
      ]
  | inr other ↦ elim (free_sound k (if nat_beq n 0 then j ∷ ready else ready) w d i) [
    | inl q ↦ ground (arith, eq_iff j k)
    | inr q ↦ inr (rw other q)
  ]
]

free_keeps : (k : String) (ready : List String) (w : Map ℕ) → In k ready → In k (free ready w)
unfolding free
free_keeps k ready [] i = i
free_keeps k ready ((j, n) ∷ w) i =
    free_keeps k (if nat_beq n 0 then j ∷ ready else ready) w (ground arith)

free_complete :
    (k : String) (ready : List String) (w : Map ℕ) → get k w ≡ some 0 → In k (free ready w)
unfolding free get
free_complete k ready [] e = cc
free_complete k ready ((j, n) ∷ w) e = elim (Bool-cases (j == k)) [
  | inl same ↦
      free_keeps k (if nat_beq n 0 then j ∷ ready else ready) w (ground (arith, eq_iff j k))
  | inr other ↦ free_complete k (if nat_beq n 0 then j ∷ ready else ready) w (rw other at e)
]

free-Distinct :
    (ready : List String) (w : Map ℕ)
    → Distinct (keys w)
    → Distinct ready
    → ((k : String) → In k ready → ¬ (In k (keys w)))
    → Distinct (free ready w)
unfolding free
free-Distinct ready [] d r f = r
free-Distinct ready ((j, n) ∷ w) (nj, d) r f = elim (Bool-cases (nat_beq n 0)) [
  | inl zero_now ↦ rw zero_now (
      free-Distinct (j ∷ ready) w d (λ i. f j i (inl refl), r)
        (λ k i q. elim i [ inl e ↦ nj (subst (λ x. In x (keys w)) e q) | inr i' ↦ f k i' (inr q) ]))
  | inr more ↦ rw more (free-Distinct ready w d r (λ k i q. f k i (inr q)))
]

none_some : (k : String) (n : ℕ) → get {V = ℕ} k [] ≡ some n → ⊥
unfolding get
none_some k n e = cc

pub start_Inv :
    (tasks : List PipelineTask)
    → Distinct (names tasks)
    → Inv tasks [] (collect_waiting [] tasks, free [] (collect_waiting [] tasks))
unfolding hits
start_Inv tasks once =
    let w = collect_waiting [] tasks in
    let ready = free [] w in
    let dk : Distinct (keys w) = collect_keys [] tasks tt in
    let counts = collect_self [] tasks once in
    let queue = append-nil ready in
    record {
      settled =
          subst (λ q. All (Settled [] w q) tasks) (sym queue)
            (In-All tasks λ t i.
              let count =
                All-In (λ (t : PipelineTask). get t.name w ≡ some (length t.depends_on)) t tasks
                  counts i in
              record {
                left = length t.depends_on;
                counted = count;
                sum = omega arith;
                queued_full = λ j. elim (free_sound t.name [] w dk j) [
                  | inl q ↦ absurd q
                  | inr e ↦ some-injective (sym e ∙ count)
                ];
                full_queued = λ e. free_complete t.name [] w (count ∙ ap some (sym e));
              });
      distinct = subst Distinct (sym queue) (free-Distinct [] w dk tt (λ k i q. i));
      known = λ k i. elim (Bool-cases (contains (names tasks) k)) [
        | inl old ↦ (contains_iff (names tasks) k).0 old
        | inr new ↦ elim (free_sound k [] w dk (subst (In k) queue i)) [
          | inl q ↦ absurd q
          | inr e ↦
              let other = collect_other k [] tasks ((not-contains_iff (names tasks) k).0 new) in
              absurd (none_some k 0 (sym other ∙ e))
        ]
      ];
      runs = tt;
    }
