-- ===== src/Encoding/Credentials.antt =====
-- The credentials generated from random bytes: their length, and that no random byte is lost.
use stardelt_operator.Common.{ℕ, ◌*◌, String, ◌≡◌, List, nat_eq, length, All, Result, ok, err}
use stardelt_operator.Encoding.Hex.{IsByte, IsHexOf}
use stardelt_operator.Encoding.Base64.{decoded}
use stardelt_operator.Encoding.{Text, Random}

-- `getrandom::fill` fills the whole buffer, or fails.
abbrev pub Fills : Random → Type 0
Fills random = (n : ℕ) (bs : List ℕ) → random n ≡ ok bs → (length bs ≡ n) × All IsByte bs

-- The credential `t` is in hexadecimal, of `n` random bytes.
abbrev pub IsHexKey : Random → ℕ → Text → Type 0
IsHexKey random n t = (bs : List ℕ) × (random n ≡ ok bs) × (length t ≡ 2 * n) × IsHexOf bs t

-- The credential `t` is a Fernet key of 32 random bytes.
abbrev pub IsFernetKey : Random → Text → Type 0
IsFernetKey random t = (bs : List ℕ) × (random 32 ≡ ok bs) × (length t ≡ 44) × (decoded t ≡ bs)

-- A generator gives a credential or passes on the failure of the random source.
abbrev pub Gives : {A : Type 0} → Random → ℕ → (A → Type 0) → Result String A → Type 0
Gives random n P (ok a) = P a
Gives random n P (err e) = (e' : String) × (random n ≡ err e')
