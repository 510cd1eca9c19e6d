-- ===== src/Config/Limits.antt =====
-- What a configuration that the relay starts with promises.
use otp_relay_backend.Base.{
  List-cases, Bool-cases, true, ◌==◌, contains, ◌≡◌, refl, ◌≢◌, ◌⊎◌, inl, inr, String, ℤ, ◌*◌, ◌^◌,
  pos, ◌≤ℤ◌, List, [], ◌∷◌, arith, eq_iff,
}
use otp_relay_backend.Config.{
  Config, ConfigError, Loaded, loaded, rejected, millisecond, hour, getenv_duration, read_config,
  missing, validate_config, load,
}

pub Loaded-cases {ℓ} :
    {A : Type ℓ} (l : Loaded A)
    → ((a : A) × (l ≡ loaded a)) ⊎ ((e : ConfigError) × (l ≡ rejected e))
Loaded-cases (loaded a) = inl (a, refl)
Loaded-cases (rejected e) = inr (e, refl)

-- What a loaded configuration is made of: the durations that the environment or the defaults give,
-- secrets that are there, and a time to live of half a minute at least.
pub record IsSafe (env : String → String) (c : Config) : Type 0 where
  pub window : getenv_duration env "CLAIM_WINDOW_MS" (pos 7000) millisecond ≡ loaded c.claim_window
  pub ttl : getenv_duration env "OTP_TTL_MS" (pos 120000) millisecond ≡ loaded c.otp_ttl
  pub long_enough : pos (30 * 10 ^ 9) ≤ℤ c.otp_ttl
  pub totp : c.totp_secret ≢ ""
  pub session : c.session_secret ≢ ""
  pub public_key : c.vapid_public_key ≢ ""
  pub private_key : c.vapid_private_key ≢ ""

missing-nil :
    (c : Config)
    → missing c ≡ []
    → (c.totp_secret ≢ "")
      × (c.session_secret ≢ "")
      × (c.vapid_public_key ≢ "")
      × (c.vapid_private_key ≢ "")
unfolding missing
missing-nil c e = (
  λ s. ground (arith, (eq_iff c.totp_secret "").1 s),
  λ s. ground (arith, (eq_iff c.session_secret "").1 s),
  λ s. ground (arith, (eq_iff c.vapid_public_key "").1 s),
  λ s. ground (arith, (eq_iff c.vapid_private_key "").1 s),
)

validate_config-ok :
    (b c : Config)
    → validate_config b ≡ loaded c
    → (missing b ≡ []) × (b ≡ c) × (pos (30 * 10 ^ 9) ≤ℤ b.otp_ttl)
unfolding validate_config
validate_config-ok b c e = elim (List-cases (missing b)) [
  | inl n ↦ (n, ground arith, ground arith)
  | inr (key, keys, f) ↦ absurd (ground arith)
]

-- How `load` gets to its result.
record Steps (env : String → String) (c : Config) : Type 0 where
  window : ℤ
  ttl : ℤ
  session : ℤ
  read_window : getenv_duration env "CLAIM_WINDOW_MS" (pos 7000) millisecond ≡ loaded window
  read_ttl : getenv_duration env "OTP_TTL_MS" (pos 120000) millisecond ≡ loaded ttl
  valid : validate_config (read_config env window ttl session) ≡ loaded c

load-Steps : (env : String → String) (c : Config) → load env ≡ loaded c → Steps env c
unfolding load
load-Steps env c e =
    elim (Loaded-cases (getenv_duration env "CLAIM_WINDOW_MS" (pos 7000) millisecond)) [
      | inr (x, f) ↦ absurd (ground arith)
      | inl (w, f) ↦
          elim (Loaded-cases (getenv_duration env "OTP_TTL_MS" (pos 120000) millisecond)) [
            | inr (x, g) ↦ absurd (ground arith)
            | inl (t, g) ↦
                elim (Loaded-cases (getenv_duration env "SESSION_DURATION_HOURS" (pos 24) hour)) [
                  | inr (x, k) ↦ absurd (ground arith)
                  | inl (s, k) ↦ record {
                    window = w;
                    ttl = t;
                    session = s;
                    read_window = f;
                    read_ttl = g;
                    valid = ground arith;
                  }
                ]
          ]
    ]

-- A configuration that loads has the claim window and the time to live of the environment, or of
-- the defaults; its four secrets are not empty, and its OTPs live for thirty seconds at least.
pub load-IsSafe : (env : String → String) (c : Config) → load env ≡ loaded c → IsSafe env c
unfolding read_config
load-IsSafe env c e =
    let s = load-Steps env c e in
    let b = read_config env s.window s.ttl s.session in
    let (full, same, long) = validate_config-ok b c s.valid in
    let (totp, session, public_key, private_key) = missing-nil b full in
    let safe : IsSafe env b = record {
      window = s.read_window;
      ttl = s.read_ttl;
      long_enough = long;
      totp = totp;
      session = session;
      public_key = public_key;
      private_key = private_key;
    } in
    rw same at safe

abbrev pub secrets : List String
secrets = "TOTP_SECRET" ∷ "SESSION_SECRET" ∷ "VAPID_PUBLIC_KEY" ∷ "VAPID_PRIVATE_KEY" ∷ []

-- Why the relay refuses its configuration: a number that is none, a secret that is not there, or a
-- time to live under half a minute.
pub data IsUnsafe (env : String → String) : Type 0 where
  bad_window :
      (e : ConfigError)
      → getenv_duration env "CLAIM_WINDOW_MS" (pos 7000) millisecond ≡ rejected e
      → IsUnsafe env
  bad_ttl :
      (e : ConfigError)
      → getenv_duration env "OTP_TTL_MS" (pos 120000) millisecond ≡ rejected e
      → IsUnsafe env
  bad_session :
      (e : ConfigError)
      → getenv_duration env "SESSION_DURATION_HOURS" (pos 24) hour ≡ rejected e
      → IsUnsafe env
  absent : (key : String) → contains secrets key ≡ true → env key ≡ "" → IsUnsafe env
  too_short :
      (ttl : ℤ)
      → getenv_duration env "OTP_TTL_MS" (pos 120000) millisecond ≡ loaded ttl
      → ¬ (pos (30 * 10 ^ 9) ≤ℤ ttl)
      → IsUnsafe env

missing-absent :
    (env : String → String) (w t s : ℤ) (key : String) (keys : List String)
    → missing (read_config env w t s) ≡ key ∷ keys
    → IsUnsafe env
unfolding missing read_config
missing-absent env w t s key keys e = elim (Bool-cases (env "TOTP_SECRET" == "")) [
  | inl a ↦ absent "TOTP_SECRET" refl ((eq_iff (env "TOTP_SECRET") "").0 a)
  | inr a ↦ elim (Bool-cases (env "SESSION_SECRET" == "")) [
    | inl b ↦ absent "SESSION_SECRET" refl ((eq_iff (env "SESSION_SECRET") "").0 b)
    | inr b ↦ elim (Bool-cases (env "VAPID_PUBLIC_KEY" == "")) [
      | inl c ↦ absent "VAPID_PUBLIC_KEY" refl ((eq_iff (env "VAPID_PUBLIC_KEY") "").0 c)
      | inr c ↦ elim (Bool-cases (env "VAPID_PRIVATE_KEY" == "")) [
        | inl d ↦ absent "VAPID_PRIVATE_KEY" refl ((eq_iff (env "VAPID_PRIVATE_KEY") "").0 d)
        | inr d ↦ absurd (ground arith)
      ]
    ]
  ]
]

validate_config-short :
    (c : Config) (e : ConfigError)
    → missing c ≡ []
    → validate_config c ≡ rejected e
    → ¬ (pos (30 * 10 ^ 9) ≤ℤ c.otp_ttl)
unfolding validate_config
validate_config-short c e n r le = ground arith

validate_config-rejects :
    (env : String → String) (w t s : ℤ) (e : ConfigError)
    → getenv_duration env "OTP_TTL_MS" (pos 120000) millisecond ≡ loaded t
    → validate_config (read_config env w t s) ≡ rejected e
    → IsUnsafe env
unfolding read_config
validate_config-rejects env w t s e read r = elim (List-cases (missing (read_config env w t s))) [
  | inr (key, keys, f) ↦ missing-absent env w t s key keys f
  | inl n ↦ too_short t read (validate_config-short (read_config env w t s) e n r)
]

-- A configuration is rejected only for one of these reasons.
pub load-IsUnsafe : (env : String → String) (e : ConfigError) → load env ≡ rejected e → IsUnsafe env
unfolding load
load-IsUnsafe env e r =
    elim (Loaded-cases (getenv_duration env "CLAIM_WINDOW_MS" (pos 7000) millisecond)) [
      | inr (x, f) ↦ bad_window x f
      | inl (w, f) ↦
          elim (Loaded-cases (getenv_duration env "OTP_TTL_MS" (pos 120000) millisecond)) [
            | inr (x, g) ↦ bad_ttl x g
            | inl (t, g) ↦
                elim (Loaded-cases (getenv_duration env "SESSION_DURATION_HOURS" (pos 24) hour)) [
                  | inr (x, k) ↦ bad_session x k
                  | inl (s, k) ↦ validate_config-rejects env w t s e g (ground arith)
                ]
          ]
    ]
