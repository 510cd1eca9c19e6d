-- ===== src/Identifiers.antt =====
-- internal/id/id.go: the identifiers and tokens, as texts of bytes. What the random source of the
-- operating system draws is a parameter.
pub mod Draws
mod Tests
use otp_relay_backend.Base.{ℕ, ◌+◌, ◌-◌, ◌/◌, ◌%◌, [], ◌∷◌, Option, none, some, ltb, if◌then◌else◌}
use otp_relay_backend.Totp.Decimal.{Bytes}

-- `rand.Read` into a slice of so many bytes, or its error.
abbrev pub Random : Type 0
Random = ℕ → Option Bytes

pub data Drawn : Type 0 where
  panics : Drawn
  drawn : (text : Bytes) → Drawn

unfoldable pub hex_digit : ℕ → ℕ
hex_digit v = if ltb v 10 then b'0' + v else b'a' + (v - 10)

-- `hex.EncodeToString`.
unfoldable pub encode_to_string : Bytes → Bytes
unfolding hex_digit
encode_to_string [] = []
encode_to_string (b ∷ rest) = hex_digit (b / 16) ∷ hex_digit (b % 16) ∷ encode_to_string rest

unfoldable pub new_id : Random → ℕ → Drawn
unfolding encode_to_string
new_id read n_bytes = elim (read n_bytes) [ none ↦ panics | some b ↦ drawn (encode_to_string b) ]

unfoldable pub short_id : Random → Drawn
unfolding new_id
short_id read = new_id read 8

unfoldable pub token : Random → Drawn
unfolding new_id
token read = new_id read 32
