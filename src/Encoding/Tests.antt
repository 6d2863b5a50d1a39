-- ===== src/Encoding/Tests.antt =====
-- The encoders on short inputs.
use stardelt_operator.Common.{
  ℕ, zero, suc, ◌*◌, ◌%◌, ◌≡◌, refl, List, [], ◌∷◌, arith, nat_eq, length, All, codes, bytes, ok,
}
use stardelt_operator.Encoding.Base64.{decoded, chunks_of, decoded-base64_url}
use stardelt_operator.Encoding.Url.{unescaped, IsUrlSafe, unescaped-url_encode_component}
use stardelt_operator.Encoding.{
  letter, position_of, push_chunk, base64_url, escaped, url_encode_component, Random,
}

two_bytes : base64_url (0xfb ∷ 0xff ∷ []) ≡ codes "-_8="
unfolding base64_url push_chunk position_of letter
two_bytes = refl

one_byte : base64_url (0x4d ∷ []) ≡ codes "TQ=="
unfolding base64_url push_chunk position_of letter
one_byte = refl

three_bytes : base64_url (0x4d ∷ 0x61 ∷ 0x6e ∷ []) ≡ codes "TWFu"
unfolding base64_url push_chunk position_of letter
three_bytes = refl

a_path : url_encode_component "a/b c" ≡ codes "a%2Fb%20c"
unfolding url_encode_component escaped bytes
a_path = refl

abbrev two : List ℕ
two = 0xfb ∷ 0xff ∷ []

decoded-base64_url_example :
    (length (base64_url two) ≡ 4 * chunks_of two) × (decoded (base64_url two) ≡ two)
decoded-base64_url_example = decoded-base64_url two (omega arith, (omega arith, tt))

unescaped-url_encode_component_example :
    (unescaped (url_encode_component "a/b c") ≡ bytes "a/b c")
    × All IsUrlSafe (url_encode_component "a/b c")
unescaped-url_encode_component_example = unescaped-url_encode_component "a/b c"

-- A source that counts down.
abbrev counting : ℕ → List ℕ
counting zero = []
counting (suc n) = n % 256 ∷ counting n

abbrev source : Random
source n = ok (counting n)
