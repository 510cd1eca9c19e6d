-- ===== src/Totp/Decimal.antt =====
-- The standard library's FormatInt and ParseInt at base 10 and 64 bits, as totp.go uses them.
use otp_relay_backend.Base.{
  ℕ, zero, suc, ◌+◌, ◌-◌, ◌*◌, ◌/◌, ◌%◌, ◌^◌, ◌≤◌, ◌<◌, ◌≡◌, refl, Bool, true, false, ◌||◌, List,
  [], ◌∷◌, Option, none, some, arith, ltb, leb, eqb, inl, inr, Bool-cases, ℤ, pos, negsuc, Fits64,
  if◌then◌else◌,
}

abbrev pub Bytes : Type 0
Bytes = List ℕ

-- The loop that fills a buffer from its end; the buffer has room for all digits of an int64.
unfoldable pub digits : ℕ → ℕ → Bytes → Bytes
digits zero n out = out
digits (suc room) n out = if eqb n 0 then out else digits room (n / 10) ((b'0' + n % 10) ∷ out)

unfoldable pub format_magnitude : ℕ → Bytes
unfolding digits
format_magnitude n = if eqb n 0 then b'0' ∷ [] else digits 20 n []

unfoldable pub format_int : ℤ → Bytes
unfolding format_magnitude
format_int (pos n) = format_magnitude n
format_int (negsuc n) = b'-' ∷ format_magnitude (suc n)

-- The loop of `ParseUint`, with both of its overflow tests.
unfoldable pub scan : Bytes → ℕ → Option ℕ
scan [] n = some n
scan (c ∷ s) n =
    if ltb c b'0' || ltb b'9' c
    then none
    else if leb (2 ^ 64 / 10 + 1) n
    then none
    else let next = (n * 10 + (c - b'0')) % 2 ^ 64 in
      if ltb next (n * 10) then none else scan s next

unfoldable pub parse_uint : Bytes → Option ℕ
unfolding scan
parse_uint [] = none
parse_uint (c ∷ s) = scan (c ∷ s) 0

-- The magnitude and its sign, if the number is an int64.
unfoldable pub signed : Bool → ℕ → Option ℤ
signed false n = if leb (2 ^ 63) n then none else some (pos n)
signed true zero = some (pos 0)
signed true (suc n) = if ltb (2 ^ 63) (suc n) then none else some (negsuc n)

abbrev pub with_sign : Bool → Option ℕ → Option ℤ
with_sign negative none = none
with_sign negative (some n) = signed negative n

unfoldable pub parse_int : Bytes → Option ℤ
unfolding parse_uint signed
parse_int [] = none
parse_int (c ∷ s) =
    if eqb c b'-'
    then with_sign true (parse_uint s)
    else if eqb c b'+'
    then with_sign false (parse_uint s)
    else with_sign false (parse_uint (c ∷ s))

abbrev StartsDigit : Bytes → Type 0
StartsDigit [] = ⊥
StartsDigit (c ∷ s) = (b'0' ≤ c) × (c ≤ b'9')

scan-digit : (n : ℕ) (out : Bytes) → n < 2 ^ 64 → scan ((b'0' + n % 10) ∷ out) (n / 10) ≡ scan out n
unfolding scan
scan-digit n out le = ground arith

scan-digits :
    (room n : ℕ) (out : Bytes)
    → n < 10 ^ room
    → n < 2 ^ 64
    → scan (digits room n out) 0 ≡ scan out n
unfolding digits
scan-digits zero n out lt fits = ground arith
scan-digits (suc room) n out lt fits = elim (Bool-cases (eqb n 0)) [
  | inl done ↦ rw (done, digits) (ground arith)
  | inr more ↦
      rw
        (
          more,
          digits,
          scan-digits room (n / 10) ((b'0' + n % 10) ∷ out) (omega arith) (omega arith),
        )
        (scan-digit n out fits)
]

-- The printed text starts with a digit.
digits-digit : (room n : ℕ) (out : Bytes) → StartsDigit out → StartsDigit (digits room n out)
unfolding digits
digits-digit zero n out s = s
digits-digit (suc room) n out s = elim (Bool-cases (eqb n 0)) [
  | inl done ↦ rw (done, digits) s
  | inr more ↦ rw (more, digits) (digits-digit room (n / 10) ((b'0' + n % 10) ∷ out) (omega arith))
]

format_magnitude-digit : (n : ℕ) → StartsDigit (format_magnitude n)
unfolding format_magnitude digits
format_magnitude-digit n = elim (Bool-cases (eqb n 0)) [
  | inl z ↦ rw (z, format_magnitude) (omega arith)
  | inr p ↦ rw (p, format_magnitude) (digits-digit 19 (n / 10) ((b'0' + n % 10) ∷ []) (omega arith))
]

parse_uint-scan : (s : Bytes) → StartsDigit s → parse_uint s ≡ scan s 0
unfolding parse_uint
parse_uint-scan [] d = absurd d
parse_uint-scan (c ∷ s) d = refl

parse_int-digit : (s : Bytes) → StartsDigit s → parse_int s ≡ with_sign false (parse_uint s)
unfolding parse_int
parse_int-digit [] d = absurd d
parse_int-digit (c ∷ s) d = ground arith

parse_uint-format_magnitude : (n : ℕ) → n < 2 ^ 64 → parse_uint (format_magnitude n) ≡ some n
unfolding format_magnitude scan
parse_uint-format_magnitude n lt =
    rw (parse_uint-scan (format_magnitude n) (format_magnitude-digit n))
      (ground (arith, scan-digits 20 n [] (omega arith) lt))

-- Every int64 is read back from its decimal print.
pub parse_int-format_int : (n : ℤ) → Fits64 n → parse_int (format_int n) ≡ some n
unfolding parse_int format_int signed
parse_int-format_int (pos n) fits =
    rw
      (
        parse_int-digit (format_magnitude n) (format_magnitude-digit n),
        parse_uint-format_magnitude n (omega (arith, fits.above)),
      )
      (ground (arith, fits.above))
parse_int-format_int (negsuc n) fits =
    rw (parse_uint-format_magnitude (suc n) (omega (arith, fits.below)))
      (ground (arith, fits.below))
