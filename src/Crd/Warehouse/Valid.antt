-- ===== src/Crd/Warehouse/Valid.antt =====
-- What an accepted warehouse is, and that `validate` accepts nothing else.
use stardelt_operator.Common.{
  ℕ, ◌≤◌, String, ◌≡◌, refl, sym, subst, ◌↔◌, false, Option, none, some, map, arith, string_eq,
  some-injective, Distinct, insert_each_iff, reject_then_iff, then_iff, last_iff, not-false_iff, ok,
  ℤ, pos, negsuc,
}
use stardelt_operator.Crd.Names.{name_ok}
use stardelt_operator.Crd.Names.Resource.{IsResourceName, name_ok_iff}
use stardelt_operator.Crd.Warehouse.{
  WarehouseConcurrency, SqlWarehouseSpec, out_of_range, check_concurrency, twice, validate,
}

-- A cap that is set is a natural number in the range.
abbrev pub IsWithin : ℕ → ℕ → Option ℤ → Type 0
IsWithin lo hi o = (n : ℤ) → o ≡ some n → (k : ℕ) × (n ≡ pos k) × (lo ≤ k) × (k ≤ hi)

abbrev pub IsCapped : Option WarehouseConcurrency → Type 0
IsCapped o =
    (c : WarehouseConcurrency) → o ≡ some c → IsWithin 1 100 c.running × IsWithin 0 10000 c.queued

abbrev pub IsValid : SqlWarehouseSpec → String → Type 0
IsValid w name =
    IsResourceName name × (Distinct (map (λ g. g.group) w.grants) × IsCapped w.concurrency)

out_of_range_iff :
    (lo hi : ℕ) (o : Option ℤ) → (out_of_range (pos lo) (pos hi) o ≡ false) ↔ IsWithin lo hi o
unfolding out_of_range
out_of_range_iff lo hi none = (λ h n e. cc, λ f. refl)
out_of_range_iff lo hi (some (pos k)) = (
  λ h n e. (k, sym (some-injective e), ground arith, ground arith),
  λ f. let (j, e, l, u) = f (pos k) refl in ground arith,
)
out_of_range_iff lo hi (some (negsuc k)) =
    (λ h n e. cc, λ f. let (j, e, _, _) = f (negsuc k) refl in cc)

check_concurrency_iff :
    (o : Option WarehouseConcurrency) → (check_concurrency o ≡ ok tt) ↔ IsCapped o
unfolding check_concurrency
check_concurrency_iff none = (λ h c e. cc, λ f. refl)
check_concurrency_iff (some c) =
    let (there, back) =
      reject_then_iff _ _ _ (out_of_range_iff 1 100 c.running)
        (last_iff _ _ (out_of_range_iff 0 10000 c.queued)) in
    (
      λ h d e.
          subst (λ x. IsWithin 1 100 x.running × IsWithin 0 10000 x.queued) (some-injective e)
            (there h),
      λ f. back (f c refl),
    )

-- `validate` accepts exactly the warehouses with a resource name, distinct groups, 1 to 100
-- running queries and 0 to 10000 queued ones where the limits are set.
pub warehouse_validate_iff :
    (w : SqlWarehouseSpec) (name : String) → (validate w name ≡ ok tt) ↔ IsValid w name
unfolding validate
warehouse_validate_iff w name =
    reject_then_iff _ _ _ (not-false_iff (name_ok name) (name_ok_iff name)) (
      then_iff _ _ (insert_each_iff (λ g. g.group) twice w.grants)
        (check_concurrency_iff w.concurrency))
