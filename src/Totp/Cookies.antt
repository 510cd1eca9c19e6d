-- ===== src/Totp/Cookies.antt =====
-- Which cookie values are valid sessions, and that an issued cookie is one until it expires.
use otp_relay_backend.Base.{
  ℕ, ◌^◌, ◌<◌, ◌≡◌, refl, ◌∙◌, ◌≢◌, ◌↔◌, inl, inr, ℤ, pos, ◌+ℤ◌, ◌≤ℤ◌, ltb_ℤ, [], ◌∷◌, ◌++◌, some,
  if◌then◌else◌, arith, All, Fits64, Bool-cases, Option-cases,
}
use otp_relay_backend.Totp.Decimal.{Bytes, format_int, parse_int, parse_int-format_int}
use otp_relay_backend.Totp.Base64.{encode, decode, value, decode-encode, IsByte}
use otp_relay_backend.Totp.{
  Authenticator, valid, invalid, unix, equal_bytes, sign, expiry_of, issue_cookie, check_expiry,
  check_parts, validate, validate_request,
}
use otp_relay_backend.Totp.Parts.{
  HasNoDot, split_last-append, equal_bytes_refl, eq_of_equal_bytes, split_last-cases,
  decode-HasNoDot, unix-Fits64, unix_mono, unix_later,
}

-- The parts of a valid session: the expiry time in decimal and, after the dot, its MAC.
pub record Session (mac : Bytes → Bytes → Bytes) (key value : Bytes) (now : ℕ) : Type 0 where
  pub payload : Bytes
  pub sig : Bytes
  pub expiry : ℤ
  pub shape : value ≡ payload ++ b'.' ∷ sig
  pub signed : decode sig ≡ some (mac key payload)
  pub read : parse_int payload ≡ some expiry
  pub live : unix (pos now) ≤ℤ expiry

module _ (mac : Bytes → Bytes → Bytes) (a : Authenticator) where
  check_expiry-valid :
      (payload : Bytes) (now : ℕ)
      → check_expiry mac payload now ≡ valid
      → (expiry : ℤ) × (parse_int payload ≡ some expiry) × (unix (pos now) ≤ℤ expiry)
  unfolding check_expiry
  check_expiry-valid payload now e = elim (Option-cases (parse_int payload)) [
    | inl n ↦ absurd (ground arith)
    | inr (expiry, f) ↦ (expiry, f, ground arith)
  ]

  check_parts-valid :
      (payload sig : Bytes) (now : ℕ)
      → check_parts mac a payload sig now ≡ valid
      → (decode sig ≡ some (mac a.signing_key payload)) × (check_expiry mac payload now ≡ valid)
  unfolding check_parts
  check_parts-valid payload sig now e = elim (Option-cases (decode sig)) [
    | inl n ↦ absurd (ground arith)
    | inr (got, f) ↦ elim (Bool-cases (equal_bytes got (mac a.signing_key payload))) [
      | inl same ↦ (rw (f, eq_of_equal_bytes got _ same), ground arith)
      | inr other ↦ absurd (ground arith)
    ]
  ]

  -- Nothing but a signed text of an expiry time that has not passed is a valid session.
  pub validate-Session :
      (value : Bytes) (now : ℕ)
      → validate mac a value now ≡ valid
      → Session mac a.signing_key value now
  unfolding validate
  validate-Session value now e = elim (split_last-cases value) [
    | inl (n, plain) ↦ absurd (ground arith)
    | inr ([], sig, f, same, plain) ↦ absurd (ground arith)
    | inr (c ∷ payload, sig, f, same, plain) ↦
        let (signed, checked) = check_parts-valid (c ∷ payload) sig now (ground arith) in
        let (expiry, read, live) = check_expiry-valid (c ∷ payload) now checked in
        record {
          payload = c ∷ payload;
          sig = sig;
          expiry = expiry;
          shape = same;
          signed = signed;
          read = read;
          live = live;
        }
  ]

  validate-parts :
      (payload sig : Bytes) (now : ℕ)
      → payload ≢ []
      → HasNoDot sig
      → validate mac a (payload ++ b'.' ∷ sig) now ≡ check_parts mac a payload sig now
  unfolding validate
  validate-parts [] sig now h plain = absurd (h refl)
  validate-parts (c ∷ payload) sig now h plain =
      rw (split_last-append (c ∷ payload) sig plain, validate)

  parse_int-ne-nil : (payload : Bytes) (expiry : ℤ) → parse_int payload ≡ some expiry → payload ≢ []
  unfolding parse_int
  parse_int-ne-nil [] expiry e h = ground arith
  parse_int-ne-nil (c ∷ payload) expiry e h = ground arith

  check_parts-signed :
      (payload sig : Bytes) (expiry : ℤ) (now : ℕ)
      → decode sig ≡ some (mac a.signing_key payload)
      → parse_int payload ≡ some expiry
      → check_parts mac a payload sig now
        ≡ (if ltb_ℤ expiry (unix (pos now)) then invalid else valid)
  unfolding check_parts check_expiry
  check_parts-signed payload sig expiry now signed read =
      ground (arith, signed, read, equal_bytes_refl (mac a.signing_key payload))

  -- Every signed text of an expiry time that has not passed is a valid session.
  pub Session-validate :
      (value : Bytes) (now : ℕ)
      → Session mac a.signing_key value now
      → validate mac a value now ≡ valid
  Session-validate value now s =
      rw
        (
          s.shape,
          validate-parts s.payload s.sig now (parse_int-ne-nil s.payload s.expiry s.read)
              (decode-HasNoDot s.sig (mac a.signing_key s.payload) s.signed),
          check_parts-signed s.payload s.sig s.expiry now s.signed s.read,
        )
        (ground (arith, s.live))

  -- A cookie value is a valid session exactly if it is an expiry time in decimal, a dot and the
  -- encoded MAC of that decimal text under the signing key, and the time has not passed.
  pub validate_iff :
      (value : Bytes) (now : ℕ)
      → (validate mac a value now ≡ valid) ↔ Session mac a.signing_key value now
  validate_iff value now = (validate-Session value now, Session-validate value now)

  sign-validate :
      (expiry : ℤ) (now : ℕ)
      → All IsByte (mac a.signing_key (format_int expiry))
      → Fits64 expiry
      → validate mac a (sign mac a expiry) now
        ≡ (if ltb_ℤ expiry (unix (pos now)) then invalid else valid)
  unfolding sign
  sign-validate expiry now bytes fits =
      let payload = format_int expiry in
      let read = parse_int-format_int expiry fits in
      let decoded = decode-encode (mac a.signing_key payload) bytes in
      validate-parts payload (encode (mac a.signing_key payload)) now
        (parse_int-ne-nil payload expiry read)
        (decode-HasNoDot (encode (mac a.signing_key payload)) (mac a.signing_key payload) decoded)
      ∙ check_parts-signed payload (encode (mac a.signing_key payload)) expiry now decoded read

  expiry_of-Fits64 : (now : ℕ) → now < 2 ^ 63 → Fits64 a.session_ttl → Fits64 (expiry_of mac a now)
  unfolding expiry_of ◌+ℤ◌
  expiry_of-Fits64 now lt fits =
      unix-Fits64 (pos now +ℤ a.session_ttl) (ground (arith, fits.above, fits.below))
        (ground (arith, fits.above, fits.below))

  issue_cookie-validate :
      (now later : ℕ)
      → ((payload : Bytes) → All IsByte (mac a.signing_key payload))
      → now < 2 ^ 63
      → Fits64 a.session_ttl
      → validate_request mac a (some (issue_cookie mac a now).value) later
        ≡ (if ltb_ℤ (unix (pos now +ℤ a.session_ttl)) (unix (pos later)) then invalid else valid)
  unfolding validate_request issue_cookie expiry_of
  issue_cookie-validate now later bytes lt fits =
      sign-validate (expiry_of mac a now) later (bytes (format_int (expiry_of mac a now)))
        (expiry_of-Fits64 now lt fits)

  -- An issued cookie is a valid session for its whole time to live, if the MAC is a text of bytes and
  -- the clock, in nanoseconds, is an int64.
  pub issued_session :
      (now later : ℕ)
      → ((payload : Bytes) → All IsByte (mac a.signing_key payload))
      → now < 2 ^ 63
      → Fits64 a.session_ttl
      → pos later ≤ℤ pos now +ℤ a.session_ttl
      → validate_request mac a (some (issue_cookie mac a now).value) later ≡ valid
  issued_session now later bytes lt fits le = rw (
    issue_cookie-validate now later bytes lt fits,
    unix_mono (pos later) (pos now +ℤ a.session_ttl) le,
  )

  -- One second after its time to live an issued cookie is no session any more, under the same
  -- conditions.
  pub expired_session :
      (now later : ℕ)
      → ((payload : Bytes) → All IsByte (mac a.signing_key payload))
      → now < 2 ^ 63
      → Fits64 a.session_ttl
      → pos now +ℤ a.session_ttl +ℤ pos (10 ^ 9) ≤ℤ pos later
      → validate_request mac a (some (issue_cookie mac a now).value) later ≡ invalid
  expired_session now later bytes lt fits le = rw (
    issue_cookie-validate now later bytes lt fits,
    unix_later (pos now +ℤ a.session_ttl) (pos later) le,
  )
