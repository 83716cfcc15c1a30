-- ===== src/Examples/Parameters.antt =====
-- Concrete libraries, at which the hypotheses on them hold.
use dax_kiro_proxy.Common.{
  ℕ, zero, suc, ◌+◌, ◌-◌, ◌*◌, ◌/◌, ◌%◌, ◌≡◌, refl, ap, true, List, [], ◌∷◌, ◌++◌, Option, none,
  some, arith, Bytes, length, ltb, &&-eq-true,
}
use dax_kiro_proxy.Json.{Json}
use dax_kiro_proxy.Relay.Content.{Encoding}
use dax_kiro_proxy.History.{Crypto}
use dax_kiro_proxy.History.Validity.{CryptoLaws, IsBytes}

abbrev pub concat : List Bytes → Bytes
concat [] = []
concat (b ∷ bs) = b ++ concat bs

-- An encoding of texts only, each as it stands.
abbrev pub text_json : Json
text_json = record {
  valid_utf8 = λ b. true;
  tokens = λ b. [];
  unmarshal_fields = λ b. none;
  unmarshal_items = λ b. none;
  unmarshal_string = λ b. none;
  marshal_fields = λ m. none;
  marshal_items = λ m. none;
  marshal_text = λ t. t;
  marshal_message = λ role raws. some (role ++ concat raws);
  recode = λ b. none;
}

abbrev sum : Bytes → ℕ
sum [] = 0
sum (b ∷ bs) = b + sum bs

abbrev zeros : ℕ → Bytes
zeros zero = []
zeros (suc n) = 0 ∷ zeros n

-- Two letters from `a` to `p` for each byte.
abbrev encode : Bytes → Bytes
encode [] = []
encode (b ∷ bs) = (b / 16 + 97) ∷ (b % 16 + 97) ∷ encode bs

abbrev decode : Bytes → Option Bytes
decode [] = some []
decode (h ∷ []) = none
decode (h ∷ l ∷ bs) = elim (decode bs) [
  | none ↦ none
  | some r ↦ some (((h - 97) * 16 + (l - 97)) ∷ r)
]

-- The sum of the message, as the first of 32 bytes.
abbrev sum_mac : Bytes → Bytes → Bytes
sum_mac k m = (sum m % 256) ∷ zeros 31

abbrev pub sum_crypto : Crypto
sum_crypto = record { hmac_sha256 = sum_mac; hex_encode = encode; hex_decode = decode }

length-encode : (b : Bytes) → length (encode b) ≡ 2 * length b
length-encode [] = refl
length-encode (b ∷ bs) = omega (arith, length-encode bs)

join_halves : (b : ℕ) → (b / 16 + 97 - 97) * 16 + (b % 16 + 97 - 97) ≡ b
join_halves b = omega arith

decode-encode : (b : Bytes) → IsBytes b → decode (encode b) ≡ some b
decode-encode [] h = refl
decode-encode (b ∷ bs) h =
    rw (decode-encode bs (&&-eq-true (ltb b 256) _ h).1) (ap (λ c. some (c ∷ bs)) (join_halves b))

sum_mac-IsBytes : (k m : Bytes) → IsBytes (sum_mac k m)
sum_mac-IsBytes k m = ground arith

pub sum_crypto-CryptoLaws : CryptoLaws sum_crypto
sum_crypto-CryptoLaws = record {
  mac_length = λ k m. refl;
  mac_bytes = sum_mac-IsBytes;
  encode_length = λ b h. length-encode b;
  decode_encode = decode-encode;
}

abbrev pub lax_encoding : Encoding
lax_encoding = record { base64_ok = λ b. true; encoded_length = λ r. 10 }
