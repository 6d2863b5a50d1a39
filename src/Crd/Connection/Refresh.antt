-- ===== src/Crd/Connection/Refresh.antt =====
-- The refresh intervals that a connection may have.
use stardelt_operator.Common.{
  ℕ, ◌^◌, ◌≤◌, String, ◌≡◌, refl, ◌≢◌, ◌↔◌, ◌⊎◌, inl, inr, true, ◌&&◌, Option, none, some, List, [],
  ◌∷◌, arith, ltb, leb, if◌then◌else◌, codes,
}
use stardelt_operator.Crd.Connection.{
  leading_digits, decimal, parse_u32, saturating_mul60, last, minutes_of, minutes, refresh_ok,
}

-- A number of minutes from 1 to 1440 and a final `m`, or of hours from 1 to 24 and a final `h`; the
-- number is what the digits at the start spell.
abbrev pub IsInterval : List ℕ → Type 0
IsInterval cs =
    (leading_digits cs ≢ [])
    × (((last cs ≡ some b'm')
          × (1 ≤ decimal 0 (leading_digits cs))
          × (decimal 0 (leading_digits cs) ≤ 1440))
        ⊎ ((last cs ≡ some b'h')
            × (1 ≤ decimal 0 (leading_digits cs))
            × (decimal 0 (leading_digits cs) ≤ 24)))

value_iff :
    (v : ℕ) (l : Option ℕ)
    → ((leb 1 (minutes_of (if ltb v (2 ^ 32) then some v else none) l)
          && leb (minutes_of (if ltb v (2 ^ 32) then some v else none) l) 1440)
        ≡ true)
      ↔ (((l ≡ some b'm') × (1 ≤ v) × (v ≤ 1440)) ⊎ ((l ≡ some b'h') × (1 ≤ v) × (v ≤ 24)))
unfolding saturating_mul60 minutes_of
value_iff v none = (λ h. absurd (ground arith), λ h. elim h [ inl x ↦ cc x.0 | inr x ↦ cc x.0 ])
value_iff v (some unit) = (λ h. ground arith, λ h. ground arith)

digits_iff :
    (ds : List ℕ) (l : Option ℕ)
    → ((leb 1 (minutes_of (parse_u32 ds) l) && leb (minutes_of (parse_u32 ds) l) 1440) ≡ true) ↔ (
        (ds ≢ [])
        × (((l ≡ some b'm') × (1 ≤ decimal 0 ds) × (decimal 0 ds ≤ 1440))
            ⊎ ((l ≡ some b'h') × (1 ≤ decimal 0 ds) × (decimal 0 ds ≤ 24))))
unfolding parse_u32 minutes_of
digits_iff [] l = (λ h. cc, λ h. absurd (h.0 refl))
digits_iff (c ∷ cs) l =
    let (there, back) = value_iff (decimal 0 (c ∷ cs)) l in (λ h. (λ e. cc, there h), λ h. back h.1)

pub refresh_ok_iff : (s : String) → (refresh_ok s ≡ true) ↔ IsInterval (codes s)
unfolding refresh_ok minutes
refresh_ok_iff s = digits_iff (leading_digits (codes s)) (last (codes s))
