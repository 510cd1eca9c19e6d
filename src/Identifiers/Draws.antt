-- ===== src/Identifiers/Draws.antt =====
-- What an identifier of internal/id/id.go looks like, and that it keeps all that was drawn.
use otp_relay_backend.Base.{
  ℕ, ◌+◌, ◌-◌, ◌*◌, ◌/◌, ◌%◌, ◌<◌, ◌≡◌, refl, inl, inr, ◌&&◌, ◌||◌, true, [], ◌∷◌, none, some,
  arith, leb, All, length, Option-cases, if◌then◌else◌,
}
use otp_relay_backend.Totp.Decimal.{Bytes}
use otp_relay_backend.Totp.Base64.{IsByte}
use otp_relay_backend.Identifiers.{
  Random, Drawn, panics, drawn, hex_digit, encode_to_string, new_id, short_id, token,
}

-- The slice is filled: as many bytes are drawn as were asked for.
abbrev pub IsFilling : Random → Type 0
IsFilling read = (n : ℕ) (b : Bytes) → read n ≡ some b → (length b ≡ n) × All IsByte b

-- `0` to `9` and `a` to `f`.
abbrev pub IsHexDigit : ℕ → Type 0
IsHexDigit c = ((leb b'0' c && leb c b'9') || (leb b'a' c && leb c b'f')) ≡ true

unfoldable pub hex_value : ℕ → ℕ
hex_value c = if leb b'a' c then c - b'a' + 10 else c - b'0'

-- The bytes that a text of hexadecimal digits stands for.
unfoldable pub bytes_of : Bytes → Bytes
unfolding hex_value
bytes_of (h ∷ l ∷ rest) = (hex_value h * 16 + hex_value l) ∷ bytes_of rest
bytes_of _ = []

hex_digit-IsHexDigit : (v : ℕ) → v < 16 → IsHexDigit (hex_digit v)
unfolding hex_digit
hex_digit-IsHexDigit v lt = ground arith

hex_value-hex_digit : (v : ℕ) → v < 16 → hex_value (hex_digit v) ≡ v
unfolding hex_value hex_digit
hex_value-hex_digit v lt = ground arith

-- `text` is the print of the bytes `b`: two digits for each, from which they can be read back.
pub record IsPrint (b text : Bytes) : Type 0 where
  pub size : length text ≡ 2 * length b
  pub digits : All IsHexDigit text
  pub read_back : bytes_of text ≡ b

encode_to_string-IsPrint : (b : Bytes) → All IsByte b → IsPrint b (encode_to_string b)
unfolding encode_to_string bytes_of
encode_to_string-IsPrint [] a = record { size = refl; digits = tt; read_back = refl }
encode_to_string-IsPrint (c ∷ b) (lt, a) =
    let rest = encode_to_string-IsPrint b a in
    let high : c / 16 < 16 = omega arith in
    let low : c % 16 < 16 = omega arith in
    record {
      size = omega (arith, rest.size);
      digits =
          (hex_digit-IsHexDigit (c / 16) high, (hex_digit-IsHexDigit (c % 16) low, rest.digits));
      read_back = ground (
        arith,
        rest.read_back,
        hex_value-hex_digit (c / 16) high,
        hex_value-hex_digit (c % 16) low,
      );
    }

-- What comes of asking for `n` bytes: a panic, if the source fails; else the print of what it drew.
pub data Outcome (read : Random) (n : ℕ) (r : Drawn) : Type 0 where
  refused : read n ≡ none → r ≡ panics → Outcome read n r
  printed :
      (b text : Bytes)
      → read n ≡ some b
      → r ≡ drawn text
      → length text ≡ 2 * n
      → All IsHexDigit text
      → bytes_of text ≡ b
      → Outcome read n r

new_id-Outcome : (read : Random) (n : ℕ) → IsFilling read → Outcome read n (new_id read n)
unfolding new_id
new_id-Outcome read n filling = elim (Option-cases (read n)) [
  | inl e ↦ refused e (rw (e, new_id))
  | inr (b, e) ↦
      let (size, bytes) = filling n b e in
      let print = encode_to_string-IsPrint b bytes in
      printed b (encode_to_string b) e (rw (e, new_id)) (omega (arith, print.size)) print.digits
        print.read_back
]

-- If the random source fills the slice that it is given, New panics when that fails, and gives
-- otherwise a text of twice as many characters as there are bytes, all hexadecimal digits, from which
-- what was drawn can be read back, so that nothing drawn is lost. A ShortID asks for eight bytes, a
-- Token for thirty-two.
pub draws :
    (read : Random) (n : ℕ)
    → IsFilling read
    → Outcome read n (new_id read n) × Outcome read 8 (short_id read) × Outcome read 32 (token read)
unfolding short_id token
draws read n filling =
    (new_id-Outcome read n filling, new_id-Outcome read 8 filling, new_id-Outcome read 32 filling)
