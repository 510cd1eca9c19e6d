-- ===== src/Totp/Base64.antt =====
-- The standard library's base64.RawURLEncoding, as totp.go uses it: no padding, `-` and `_` for the
-- last two digits; the decoder skips line ends and does not look at the bits past the last byte.
use otp_relay_backend.Base.{
  ℕ, ◌+◌, ◌-◌, ◌*◌, ◌/◌, ◌%◌, ◌≤◌, ◌<◌, ◌≡◌, refl, false, ◌||◌, ◌&&◌, List, [], ◌∷◌, map, Option,
  none, some, arith, ltb, leb, eqb, All, if◌then◌else◌,
}
use otp_relay_backend.Totp.Decimal.{Bytes}

unfoldable pub digit : ℕ → ℕ
digit v =
    if ltb v 26
    then b'A' + v
    else if ltb v 52
    then b'a' + (v - 26)
    else if ltb v 62
    then b'0' + (v - 52)
    else if eqb v 62
    then b'-'
    else b'_'

unfoldable pub value : ℕ → Option ℕ
value c =
    if leb b'A' c && leb c b'Z'
    then some (c - b'A')
    else if leb b'a' c && leb c b'z'
    then some (c - b'a' + 26)
    else if leb b'0' c && leb c b'9'
    then some (c - b'0' + 52)
    else if eqb c b'-'
    then some 62
    else if eqb c b'_'
    then some 63
    else none

unfoldable pub encode : Bytes → Bytes
unfolding digit
encode [] = []
encode (a ∷ []) = digit (a / 4) ∷ digit (a % 4 * 16) ∷ []
encode (a ∷ b ∷ []) = digit (a / 4) ∷ digit (a % 4 * 16 + b / 16) ∷ digit (b % 16 * 4) ∷ []
encode (a ∷ b ∷ c ∷ rest) =
    digit (a / 4)
    ∷ digit (a % 4 * 16 + b / 16)
    ∷ digit (b % 16 * 4 + c / 64)
    ∷ digit (c % 64)
    ∷ encode rest

-- Without the line ends.
unfoldable pub unfold_lines : Bytes → Bytes
unfold_lines [] = []
unfold_lines (c ∷ s) = let rest = unfold_lines s in if eqb c 10 || eqb c 13 then rest else c ∷ rest

-- The values of all digits, if all are digits.
unfoldable pub values : Bytes → Option (List ℕ)
unfolding value
values [] = some []
values (c ∷ s) = elim (value c) [
  | none ↦ none
  | some v ↦ elim (values s) [ none ↦ none | some vs ↦ some (v ∷ vs) ]
]

-- Four digits make three bytes; one digit alone at the end is an error.
unfoldable pub join : List ℕ → Option Bytes
join [] = some []
join (a ∷ []) = none
join (a ∷ b ∷ []) = some ((a * 4 + b / 16) ∷ [])
join (a ∷ b ∷ c ∷ []) = some ((a * 4 + b / 16) ∷ (b % 16 * 16 + c / 4) ∷ [])
join (a ∷ b ∷ c ∷ d ∷ rest) = elim (join rest) [
  | none ↦ none
  | some bytes ↦ some ((a * 4 + b / 16) ∷ (b % 16 * 16 + c / 4) ∷ (c % 4 * 64 + d) ∷ bytes)
]

unfoldable pub decode : Bytes → Option Bytes
unfolding unfold_lines values join
decode s = elim (values (unfold_lines s)) [ none ↦ none | some vs ↦ join vs ]

-- A digit is neither a line end nor a dot, and stands for its value.
abbrev pub IsPlain : ℕ → Type 0
IsPlain c = (b'-' ≤ c) × (eqb c b'.' ≡ false)

value-digit : (v : ℕ) → v < 64 → value (digit v) ≡ some v
unfolding value digit
value-digit v lt = ground arith

digit-IsPlain : (v : ℕ) → IsPlain (digit v)
unfolding digit
digit-IsPlain v = ground arith

-- The digits' values of an encoded text.
unfoldable sextets : Bytes → List ℕ
sextets [] = []
sextets (a ∷ []) = a / 4 ∷ a % 4 * 16 ∷ []
sextets (a ∷ b ∷ []) = a / 4 ∷ (a % 4 * 16 + b / 16) ∷ b % 16 * 4 ∷ []
sextets (a ∷ b ∷ c ∷ rest) =
    a / 4 ∷ (a % 4 * 16 + b / 16) ∷ (b % 16 * 4 + c / 64) ∷ c % 64 ∷ sextets rest

abbrev pub IsByte : ℕ → Type 0
IsByte b = b < 256

encode-sextets : (s : Bytes) → encode s ≡ map digit (sextets s)
unfolding encode sextets
encode-sextets [] = refl
encode-sextets (a ∷ []) = refl
encode-sextets (a ∷ b ∷ []) = refl
encode-sextets (a ∷ b ∷ c ∷ rest) = rw (encode-sextets rest)

sextets-All : (s : Bytes) → All IsByte s → All (λ v. v < 64) (sextets s)
unfolding sextets
sextets-All [] h = tt
sextets-All (a ∷ []) h = omega arith
sextets-All (a ∷ b ∷ []) h = omega arith
sextets-All (a ∷ b ∷ c ∷ rest) (ha, (hb, (hc, h))) =
    (omega arith, (omega arith, (omega arith, (omega arith, sextets-All rest h))))

first_byte : (a b : ℕ) → b < 256 → a / 4 * 4 + (a % 4 * 16 + b / 16) / 16 ≡ a
first_byte a b lt = omega arith

second_byte :
    (a b c : ℕ)
    → b < 256
    → c < 256
    → (a % 4 * 16 + b / 16) % 16 * 16 + (b % 16 * 4 + c / 64) / 4 ≡ b
second_byte a b c lt lt' = omega arith

third_byte : (b c : ℕ) → c < 256 → (b % 16 * 4 + c / 64) % 4 * 64 + c % 64 ≡ c
third_byte b c lt = omega arith

join-sextets : (s : Bytes) → All IsByte s → join (sextets s) ≡ some s
unfolding join sextets
join-sextets [] h = refl
join-sextets (a ∷ []) h = ground arith
join-sextets (a ∷ b ∷ []) (ha, (hb, h)) =
    ground (arith, first_byte a b hb, second_byte a b 0 hb (omega arith))
join-sextets (a ∷ b ∷ c ∷ rest) (ha, (hb, (hc, h))) =
    ground
      (arith, join-sextets rest h, first_byte a b hb, second_byte a b c hb hc, third_byte b c hc)

values-digits : (vs : List ℕ) → All (λ v. v < 64) vs → values (map digit vs) ≡ some vs
unfolding values
values-digits [] h = refl
values-digits (v ∷ vs) (lt, h) = rw (value-digit v lt, values, values-digits vs h)

digits-All : (vs : List ℕ) → All IsPlain (map digit vs)
digits-All [] = tt
digits-All (v ∷ vs) = (digit-IsPlain v, digits-All vs)

unfold_lines-plain : (s : Bytes) → All IsPlain s → unfold_lines s ≡ s
unfolding unfold_lines
unfold_lines-plain [] h = refl
unfold_lines-plain (c ∷ s) (p, h) = ground (arith, unfold_lines-plain s h)

pub encode-All : (s : Bytes) → All IsPlain (encode s)
encode-All s = rw (encode-sextets s) (digits-All (sextets s))

-- Every byte text is read back from its encoding.
pub decode-encode : (s : Bytes) → All IsByte s → decode (encode s) ≡ some s
unfolding decode
decode-encode s h =
    rw
      (
        unfold_lines-plain (encode s) (encode-All s),
        encode-sextets s,
        values-digits (sextets s) (sextets-All s h),
        decode,
      )
      (join-sextets s h)
