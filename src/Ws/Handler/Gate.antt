-- ===== src/Ws/Handler/Gate.antt =====
-- Who gets a connection.
use otp_relay_backend.Base.{
  ℕ, ◌≡◌, ◌≢◌, inl, inr, String, Bool, some, arith, ◌==◌, eq_iff, eq_refl, Bool-cases, Option-cases,
  lookup, lookup-insert,
}
use otp_relay_backend.Db.{Db, Device, not_found, driver_error}
use otp_relay_backend.Registry.{
  Answer-cases, invalid_type, accepted, database, revoked, RegistryError, authenticate,
}
use otp_relay_backend.Ws.Hub.{Hub, Outcome, returns, connect}
use otp_relay_backend.Ws.Hub.Order.{
  IsSound, arrived, arrived-IsSound, displaced, displaced-IsSound, connect-none, connect-some,
}
use otp_relay_backend.Ws.Handler.{
  Upgraded, http_error, upgrade_failed, connected, auth_error, serve_http,
}

-- The device has the new connection, which is open and knows the device's id and type.
pub record IsConnection (h : Hub) (c : ℕ) (dev : Device) : Type 0 where
  pub current : lookup dev.id h.clients ≡ some c
  pub own : (h.cells c).device_id ≡ dev.id
  pub type : (h.cells c).device_type ≡ dev.type

-- How a request with this token ends.
pub data Gate (token : String) (d : Db) (h : Hub) : Outcome (Upgraded × Db × Hub) → Type 0 where
  opens :
      (dev : Device) (d' : Db) (h' : Hub)
      → token ≢ ""
      → (authenticate token d).0 ≡ accepted dev
      → IsConnection h' h.next dev
      → IsSound h'
      → Gate token d h (returns (connected h.next, d', h'))
  stays :
      (answer : Upgraded) (d' : Db)
      → ((c : ℕ) → answer ≢ connected c)
      → Gate token d h (returns (answer, d', h))

connect-IsConnection :
    (dev : Device) (h : Hub)
    → IsSound h
    → (h' : Hub) × (connect dev.id dev.type h ≡ returns (h.next, h'))
      × IsConnection h' h.next dev
      × IsSound h'
connect-IsConnection dev h s =
    let look = lookup-insert dev.id dev.id h.next h.clients in
    elim (Option-cases (lookup dev.id h.clients)) [
      | inl e ↦ (
        arrived dev.id dev.type h s,
        connect-none dev.id dev.type h s e,
        record {
          current = ground (arith, look, eq_refl dev.id);
          own = ground arith;
          type = ground arith;
        },
        arrived-IsSound dev.id dev.type h s e,
      )
      | inr (old, e) ↦ (
        displaced dev.id dev.type h s old,
        connect-some dev.id dev.type h s old e,
        record {
          current = ground (arith, look, eq_refl dev.id);
          own = ground (arith, s.known dev.id old e);
          type = ground (arith, s.known dev.id old e);
        },
        displaced-IsSound dev.id dev.type h s old e,
      )
    ]

auth_error-refuses : (e : RegistryError) (c : ℕ) → auth_error e ≢ connected c
auth_error-refuses (database not_found) c s = ground arith
auth_error-refuses (database driver_error) c s = ground arith
auth_error-refuses revoked c s = ground arith
auth_error-refuses invalid_type c s = ground arith

-- On a hub in order a request for a connection ends without a panic. It gets a connection only for a
-- token that the registry accepts; the connection is then the current one of that device, with its
-- id and type, and the hub is in order; on every other branch the hub is unchanged.
pub serve_http-Gate :
    (token : String) (upgrades : Bool) (d : Db) (h : Hub)
    → IsSound h
    → Gate token d h (serve_http token upgrades d h)
unfolding serve_http
serve_http-Gate token upgrades d h s = elim (Bool-cases (token == "")) [
  | inl missing ↦
      rw (missing, serve_http) (Gate.stays (http_error 401 "missing token") d (λ c s. ground arith))
  | inr given ↦ elim (Answer-cases (authenticate token d).0) [
    | inl (e, f) ↦
        rw (given, f, serve_http)
          (Gate.stays (auth_error e) (authenticate token d).1 (auth_error-refuses e))
    | inr (dev, f) ↦ elim (Bool-cases upgrades) [
      | inr bad ↦
          rw (given, f, bad, serve_http)
            (Gate.stays upgrade_failed (authenticate token d).1 (λ c s. ground arith))
      | inl good ↦
          let (h', made, connection, sound) = connect-IsConnection dev h s in
          rw (given, f, good, made, serve_http)
            (Gate.opens dev (authenticate token d).1 h' (λ e. ground (arith, (eq_iff token "").1 e))
              f connection sound)
    ]
  ]
]
