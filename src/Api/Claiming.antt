-- ===== src/Api/Claiming.antt =====
-- A claim by REST, on every branch.
use otp_relay_backend.Base.{
  ◌≡◌, refl, ◌≢◌, inl, inr, String, Option, some, none, true, false, ◌∙◌, ◌⊎◌, ◌==◌, arith, eq_iff,
  Bool-cases, Option-cases,
}
use otp_relay_backend.Db.{Device}
use otp_relay_backend.Registry.{Answer-cases, authenticate}
use otp_relay_backend.Claim.{Manager}
use otp_relay_backend.Claim.Window.{claim}
use otp_relay_backend.Api.{Request, Response, write_json, empty}
use otp_relay_backend.Api.Messages.{handle_otp_claim, claim_body}
use otp_relay_backend.Api.Routes.{
  otp_claim, Environment, routes, serve, require_device_token, device_token_of, reflect,
}
use otp_relay_backend.Api.Access.{
  checked, Holds, IsUntouched, checked-IsUntouched, TokenFailure, refusal-TokenFailure,
  status-reflect, serve-options, serve-direct,
}

-- How a claim by REST that is not an OPTIONS request ends.
pub data ClaimServed (env : Environment) (r : Request) (req : Option String) (m : Manager)
    (res : Response) (m' : Manager) : Type 0 where
  unauthorized : TokenFailure r m res.status → IsUntouched m m' → ClaimServed env r req m res m'
  wrong_type :
      (dev : Device)
      → Holds r m dev
      → dev.type ≢ "destination"
      → res.status ≡ 403
      → IsUntouched m m'
      → ClaimServed env r req m res m'
  nameless :
      (dev : Device)
      → Holds r m dev
      → dev.type ≡ "destination"
      → (req ≡ none) ⊎ (req ≡ some "")
      → res.status ≡ 400
      → IsUntouched m m'
      → ClaimServed env r req m res m'
  registered :
      (dev : Device) (otp_id : String)
      → Holds r m dev
      → dev.type ≡ "destination"
      → req ≡ some otp_id
      → otp_id ≢ ""
      → res.status ≡ 202
      → m' ≡ claim dev.id otp_id env.now (checked r m)
      → ClaimServed env r req m res m'

-- How a claim by REST ends.
pub data ClaimOutcome (env : Environment) (r : Request) (req : Option String) (m : Manager)
    (res : Response) (m' : Manager) : Type 0 where
  preflight : r.is_options ≡ true → res.status ≡ 204 → m' ≡ m → ClaimOutcome env r req m res m'
  served : r.is_options ≡ false → ClaimServed env r req m res m' → ClaimOutcome env r req m res m'

module _ (env : Environment) (r : Request) (m : Manager) where
  claim_body-served :
      (dev : Device) (otp_id : String)
      → Holds r m dev
      → dev.type ≡ "destination"
      → let out = claim_body dev otp_id env.now (checked r m) in
        ClaimServed env r (some otp_id) m out.0 out.1
  unfolding claim_body
  claim_body-served dev otp_id holds dest = elim (Bool-cases (otp_id == "")) [
    | inl missing ↦
        rw (missing, claim_body)
          (ClaimServed.nameless dev holds dest (inr (ground (arith, (eq_iff otp_id "").0 missing)))
            refl (checked-IsUntouched r m))
    | inr given ↦
        rw (given, claim_body)
          (ClaimServed.registered dev otp_id holds dest refl
            (λ s. ground (arith, (eq_iff otp_id "").1 s)) refl refl)
  ]

  handle_otp_claim-served :
      (dev : Device) (req : Option String)
      → Holds r m dev
      → let out = handle_otp_claim dev req env.now (checked r m) in
        ClaimServed env r req m out.0 out.1
  unfolding handle_otp_claim
  handle_otp_claim-served dev req holds = elim (Bool-cases (dev.type == "destination")) [
    | inr other ↦
        rw (other, handle_otp_claim)
          (ClaimServed.wrong_type dev holds
            (λ s. ground (arith, (eq_iff dev.type "destination").1 s)) refl
            (checked-IsUntouched r m))
    | inl dest ↦
        let is_dest = (eq_iff dev.type "destination").0 dest in
        elim (Option-cases req) [
          | inl n ↦
              rw (dest, n, handle_otp_claim)
                (ClaimServed.nameless dev holds is_dest (inl refl) refl (checked-IsUntouched r m))
          | inr (otp_id, s) ↦
              rw (dest, s, handle_otp_claim) (claim_body-served dev otp_id holds is_dest)
        ]
  ]

  routes-claim-served :
      (req : Option String)
      → ClaimServed env r req m
          (routes env r (otp_claim req) m).0
          (routes env r (otp_claim req) m).1
  unfolding routes require_device_token
  routes-claim-served req = elim (Bool-cases (device_token_of r == "")) [
    | inl missing ↦
        rw (missing, routes)
          (ClaimServed.unauthorized
            (TokenFailure.no_token ((eq_iff (device_token_of r) "").0 missing) refl)
            (refl, refl, refl))
    | inr given ↦
        let named : device_token_of r ≢ "" =
          λ s. ground (arith, (eq_iff (device_token_of r) "").1 s) in
        elim (Answer-cases (authenticate (device_token_of r) m.db).0) [
          | inl (e, f) ↦
              rw (given, f, routes)
                (ClaimServed.unauthorized (refusal-TokenFailure r m e named f)
                  (checked-IsUntouched r m))
          | inr (dev, f) ↦ rw (given, f, routes) (handle_otp_claim-served dev req (named, f))
        ]
  ]

  -- The CORS headers change nothing of it.
  reflected :
      (req : Option String) (res : Response) (m' : Manager)
      → ClaimServed env r req m res m'
      → ClaimServed env r req m (reflect env r.origin res) m'
  reflected req res m' (ClaimServed.unauthorized failure same) =
      ClaimServed.unauthorized (rw (status-reflect env r res) failure) same
  reflected req res m' (ClaimServed.wrong_type dev holds other status same) =
      ClaimServed.wrong_type dev holds other (status-reflect env r res ∙ status) same
  reflected req res m' (ClaimServed.nameless dev holds dest none_named status same) =
      ClaimServed.nameless dev holds dest none_named (status-reflect env r res ∙ status) same
  reflected req res m' (ClaimServed.registered dev otp_id holds dest is full status e) =
      ClaimServed.registered dev otp_id holds dest is full (status-reflect env r res ∙ status) e

  -- A claim by REST, on every branch, whatever it holds and however the database answers the lookup
  -- of the token. An OPTIONS request is answered by 204 and changes nothing. Without a token, or with
  -- one that nobody has, the status is 401, with that of a revoked device 403, and 500 if the lookup
  -- fails; a device that is no destination gets 403, and a destination that names no OTP 400; in none
  -- of these cases an OTP, a window or a message to a device comes of it. Every claim of a live
  -- destination device that names an OTP is answered by 202 and handed to the coordinator.
  pub claim_outcome :
      (req : Option String)
      → ClaimOutcome env r req m (serve env r (otp_claim req) m).0 (serve env r (otp_claim req) m).1
  claim_outcome req = elim (Bool-cases r.is_options) [
    | inl options ↦
        rw (serve-options env r (otp_claim req) m options)
          (ClaimOutcome.preflight options (status-reflect env r (write_json 204 empty)) refl)
    | inr direct ↦ rw (serve-direct env r (otp_claim req) m direct) (
        ClaimOutcome.served direct (
          reflected req (routes env r (otp_claim req) m).0 (routes env r (otp_claim req) m).1
            (routes-claim-served req)))
  ]
