-- ===== src/Api/Pushing.antt =====
-- A push by REST, on every branch.
use otp_relay_backend.Base.{
  ℕ, ◌≡◌, refl, ◌≢◌, ◌⊎◌, inl, inr, String, Option, some, none, true, false, ◌∙◌, ◌==◌, arith,
  eq_iff, Bool-cases, Option-cases,
}
use otp_relay_backend.Db.{Device, driver_error, ok, err, Result-cases}
use otp_relay_backend.Db.Otps.{insert_otp}
use otp_relay_backend.Push.{PushService}
use otp_relay_backend.Registry.{Answer-cases, authenticate}
use otp_relay_backend.Claim.{Manager}
use otp_relay_backend.Claim.Ingest.{ingest, new_otp}
use otp_relay_backend.Api.{Request, Response, write_json, empty}
use otp_relay_backend.Api.Messages.{OtpPushRequest, handle_otp_push, push_body}
use otp_relay_backend.Api.Routes.{
  otp_push, Environment, routes, serve, require_device_token, device_token_of, reflect,
}
use otp_relay_backend.Api.Access.{
  checked, Holds, IsUntouched, checked-IsUntouched, TokenFailure, refusal-TokenFailure,
  status-reflect, serve-options, serve-direct,
}

-- The push is complete: a live source device sends a ciphertext and an iv.
abbrev pub IsComplete : Request → Option OtpPushRequest → Manager → Device → OtpPushRequest → Type 0
IsComplete r req m dev body =
    Holds r m dev
    × (dev.type ≡ "source")
    × (req ≡ some body)
    × (body.ciphertext ≢ "")
    × (body.iv ≢ "")

-- How a push by REST that is not an OPTIONS request ends.
pub data PushServed (env : Environment) (r : Request) (req : Option OtpPushRequest) (m : Manager)
    (res : Response) (m' : Manager) : Type 0 where
  unauthorized : TokenFailure r m res.status → IsUntouched m m' → PushServed env r req m res m'
  wrong_type :
      (dev : Device)
      → Holds r m dev
      → dev.type ≢ "source"
      → res.status ≡ 403
      → IsUntouched m m'
      → PushServed env r req m res m'
  no_body :
      (dev : Device)
      → Holds r m dev
      → dev.type ≡ "source"
      → req ≡ none
      → res.status ≡ 400
      → IsUntouched m m'
      → PushServed env r req m res m'
  incomplete :
      (dev : Device) (body : OtpPushRequest)
      → Holds r m dev
      → dev.type ≡ "source"
      → req ≡ some body
      → (body.ciphertext ≡ "") ⊎ (body.iv ≡ "")
      → res.status ≡ 400
      → IsUntouched m m'
      → PushServed env r req m res m'
  not_stored :
      (dev : Device) (body : OtpPushRequest)
      → IsComplete r req m dev body
      → ingest env.service env.drawn_id dev.id body.ciphertext body.iv env.now (checked r m)
        ≡ (err driver_error, m')
      → res.status ≡ 500
      → IsUntouched m m'
      → PushServed env r req m res m'
  stored :
      (dev : Device) (body : OtpPushRequest)
      → IsComplete r req m dev body
      → ingest env.service env.drawn_id dev.id body.ciphertext body.iv env.now (checked r m)
        ≡ (ok env.drawn_id, m')
      → res.status ≡ 201
      → PushServed env r req m res m'

-- How a push by REST ends.
pub data PushOutcome (env : Environment) (r : Request) (req : Option OtpPushRequest) (m : Manager)
    (res : Response) (m' : Manager) : Type 0 where
  preflight : r.is_options ≡ true → res.status ≡ 204 → m' ≡ m → PushOutcome env r req m res m'
  served : r.is_options ≡ false → PushServed env r req m res m' → PushOutcome env r req m res m'

ingest-cases :
    (service : PushService) (id source ciphertext iv : String) (now : ℕ) (m m' : Manager)
    → IsUntouched m m'
    → ((after : Manager) × (ingest service id source ciphertext iv now m' ≡ (ok id, after)))
      ⊎ ((after : Manager) × (ingest service id source ciphertext iv now m'
            ≡ (err driver_error, after))
          × IsUntouched m after)
unfolding ingest insert_otp
ingest-cases service id source ciphertext iv now m m' (otps, windows, sent) =
    elim (Result-cases (insert_otp (new_otp id source ciphertext iv now m'.ttl) m'.db).0) [
      | inl (u, e) ↦ inl ((ingest service id source ciphertext iv now m').1, ground arith)
      | inr (inl e) ↦ absurd (ground arith)
      | inr (inr e) ↦
          inr ((ingest service id source ciphertext iv now m').1, ground arith, ground arith)
    ]

module _ (env : Environment) (r : Request) (m : Manager) where
  push_body-served :
      (dev : Device) (body : OtpPushRequest)
      → Holds r m dev
      → dev.type ≡ "source"
      → let out = push_body env.service dev body env.drawn_id env.now (checked r m) in
        PushServed env r (some body) m out.0 out.1
  unfolding push_body
  push_body-served dev body holds source = elim (Bool-cases (body.ciphertext == "")) [
    | inl c ↦
        rw (c, push_body)
          (PushServed.incomplete dev body holds source refl (inl ((eq_iff body.ciphertext "").0 c))
            refl (checked-IsUntouched r m))
    | inr c ↦ elim (Bool-cases (body.iv == "")) [
      | inl v ↦
          rw (c, v, push_body)
            (PushServed.incomplete dev body holds source refl (inr ((eq_iff body.iv "").0 v)) refl
              (checked-IsUntouched r m))
      | inr v ↦
          let complete : IsComplete r (some body) m dev body = (
            holds,
            source,
            refl,
            λ s. ground (arith, (eq_iff body.ciphertext "").1 s),
            λ s. ground (arith, (eq_iff body.iv "").1 s),
          ) in
          rw (c, v, push_body)
            (elim (ingest-cases env.service env.drawn_id dev.id body.ciphertext body.iv env.now m
              (checked r m) (checked-IsUntouched r m)) [
                | inl (after, e) ↦ rw e (PushServed.stored dev body complete e refl)
                | inr (after, e, same) ↦ rw e (PushServed.not_stored dev body complete e refl same)
              ])
    ]
  ]

  handle_otp_push-served :
      (dev : Device) (req : Option OtpPushRequest)
      → Holds r m dev
      → let out = handle_otp_push env.service dev req env.drawn_id env.now (checked r m) in
        PushServed env r req m out.0 out.1
  unfolding handle_otp_push
  handle_otp_push-served dev req holds = elim (Bool-cases (dev.type == "source")) [
    | inr other ↦
        rw (other, handle_otp_push)
          (PushServed.wrong_type dev holds (λ s. ground (arith, (eq_iff dev.type "source").1 s))
            refl (checked-IsUntouched r m))
    | inl source ↦
        let is_source = (eq_iff dev.type "source").0 source in
        elim (Option-cases req) [
          | inl n ↦
              rw (source, n, handle_otp_push)
                (PushServed.no_body dev holds is_source refl refl (checked-IsUntouched r m))
          | inr (body, s) ↦
              rw (source, s, handle_otp_push) (push_body-served dev body holds is_source)
        ]
  ]

  routes-push-served :
      (req : Option OtpPushRequest)
      → PushServed env r req m (routes env r (otp_push req) m).0 (routes env r (otp_push req) m).1
  unfolding routes require_device_token
  routes-push-served req = elim (Bool-cases (device_token_of r == "")) [
    | inl missing ↦
        rw (missing, routes)
          (PushServed.unauthorized
            (TokenFailure.no_token ((eq_iff (device_token_of r) "").0 missing) refl)
            (refl, refl, refl))
    | inr given ↦
        let named : device_token_of r ≢ "" =
          λ s. ground (arith, (eq_iff (device_token_of r) "").1 s) in
        elim (Answer-cases (authenticate (device_token_of r) m.db).0) [
          | inl (e, f) ↦
              rw (given, f, routes)
                (PushServed.unauthorized (refusal-TokenFailure r m e named f)
                  (checked-IsUntouched r m))
          | inr (dev, f) ↦ rw (given, f, routes) (handle_otp_push-served dev req (named, f))
        ]
  ]

  -- The CORS headers change nothing of it.
  reflected :
      (req : Option OtpPushRequest) (res : Response) (m' : Manager)
      → PushServed env r req m res m'
      → PushServed env r req m (reflect env r.origin res) m'
  reflected req res m' (PushServed.unauthorized failure same) =
      PushServed.unauthorized (rw (status-reflect env r res) failure) same
  reflected req res m' (PushServed.wrong_type dev holds other status same) =
      PushServed.wrong_type dev holds other (status-reflect env r res ∙ status) same
  reflected req res m' (PushServed.no_body dev holds source is status same) =
      PushServed.no_body dev holds source is (status-reflect env r res ∙ status) same
  reflected req res m' (PushServed.incomplete dev body holds source is gap status same) =
      PushServed.incomplete dev body holds source is gap (status-reflect env r res ∙ status) same
  reflected req res m' (PushServed.not_stored dev body complete e status same) =
      PushServed.not_stored dev body complete e (status-reflect env r res ∙ status) same
  reflected req res m' (PushServed.stored dev body complete e status) =
      PushServed.stored dev body complete e (status-reflect env r res ∙ status)

  -- A push by REST, on every branch, whatever it holds and however the database answers. An OPTIONS
  -- request is answered by 204 and changes nothing. Without a token, or with one that nobody has, the
  -- status is 401, with that of a revoked device 403, and 500 if the lookup fails; a device that is
  -- no source gets 403, and a source without a body, a ciphertext or an iv 400; a complete push that
  -- the database does not store gets 500; in none of these cases an OTP, a window or a message to a
  -- device comes of it. Every other complete push of a live source device is ingested, with status
  -- 201.
  pub push_outcome :
      (req : Option OtpPushRequest)
      → PushOutcome env r req m (serve env r (otp_push req) m).0 (serve env r (otp_push req) m).1
  push_outcome req = elim (Bool-cases r.is_options) [
    | inl options ↦
        rw (serve-options env r (otp_push req) m options)
          (PushOutcome.preflight options (status-reflect env r (write_json 204 empty)) refl)
    | inr direct ↦ rw (serve-direct env r (otp_push req) m direct) (
        PushOutcome.served direct (
          reflected req (routes env r (otp_push req) m).0 (routes env r (otp_push req) m).1
            (routes-push-served req)))
  ]
