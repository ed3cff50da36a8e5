-- ===== src/Aborad/Server/RequestIds.antt =====
-- The id of every response, whatever the caller sent.
use abora_framework.Common.{
  ℕ, ◌/◌, ◌%◌, ◌<◌, ◌≡◌, refl, arith, true, List, [], ◌∷◌, Option, none, some, Bool-cases, inl, inr,
  ◌⊎◌, ◌∙◌, Text, All, all, length, len,
}
use abora_framework.Aborad.Tokens.{hex_char, hex_encode}
use abora_framework.Aborad.Tokens.Hex.{len-hex_encode}
use abora_framework.Aborad.Server.{is_request_id_char, incoming_request_id, request_id}

hex_char-IsRequestIdChar : (d : ℕ) → d < 16 → is_request_id_char (hex_char d) ≡ true
hex_char-IsRequestIdChar d h = ground arith

hex_encode-all :
    (bytes : List ℕ) → All (λ b. b < 256) bytes → all is_request_id_char (hex_encode bytes) ≡ true
unfolding hex_encode
hex_encode-all [] h = refl
hex_encode-all (b ∷ bs) (hb, h) =
    rw
      (
        hex_char-IsRequestIdChar (b / 16) (omega arith),
        hex_char-IsRequestIdChar (b % 16) (omega arith),
        hex_encode-all bs h,
      )
      refl

generated :
    (bytes : List ℕ)
    → length bytes ≡ 8
    → All (λ b. b < 256) bytes
    → incoming_request_id (hex_encode bytes) ≡ true
unfolding incoming_request_id hex_encode
generated [] k h = absurd (omega arith)
generated (b ∷ bs) k h =
    let size : len (hex_encode (b ∷ bs)) ≡ 16 = len-hex_encode (b ∷ bs) h ∙ omega arith in
    rw (size, hex_encode-all (b ∷ bs) h) refl

-- Whatever a caller sends, the id of the response is acceptable: not empty, at most 128 bytes, and
-- only letters, digits and `-_.:`; an acceptable id that the caller sent is kept. Generated ids have
-- eight bytes.
pub request_id_accepted :
    (sent : Option Text) (bytes : List ℕ)
    → length bytes ≡ 8
    → All (λ b. b < 256) bytes
    → (incoming_request_id (request_id sent bytes) ≡ true)
      × ((request_id sent bytes ≡ hex_encode bytes) ⊎ (sent ≡ some (request_id sent bytes)))
unfolding request_id
request_id_accepted none bytes k h = (generated bytes k h, inl refl)
request_id_accepted (some value) bytes k h = elim (Bool-cases (incoming_request_id value)) [
  | inl e ↦ rw e (e, inr refl)
  | inr e ↦ rw e (generated bytes k h, inl refl)
]
