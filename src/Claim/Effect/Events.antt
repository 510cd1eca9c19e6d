-- ===== src/Claim/Effect/Events.antt =====
-- internal/claim/claim.go: what each event can do to an OTP.
use otp_relay_backend.Base.{
  ℕ, ◌≡◌, refl, ap, inl, inr, String, ℤ, pos, ◌+ℤ◌, ◌≤ℤ◌, leb_ℤ→le, leb_ℤ, List, ◌==◌, arith,
  eq_iff, Bool-cases, Option-cases,
}
use otp_relay_backend.Db.{Otp, pending, Result-cases}
use otp_relay_backend.Db.Otps.{insert_otp, is_stale}
use otp_relay_backend.Db.Otps.Laws.{row, row-expire_stale_otps, row-insert_otp}
use otp_relay_backend.Push.{PushService}
use otp_relay_backend.Claim.Ingest.{ingest, new_otp}
use otp_relay_backend.Claim.Step.{Event, ingests, claims, fires, sweeps, step}
use otp_relay_backend.Claim.Motion.{slots}
use otp_relay_backend.Claim.Armed.{Armed, Occurs}
use otp_relay_backend.Claim.{Manager}
use otp_relay_backend.Claim.Window.{now_millis, fire, sweep, with_db, find_timer, stop}
use otp_relay_backend.Claim.Effect.{view, Change, kept, added, lapsed}
use otp_relay_backend.Claim.Effect.Views.{view-dispatch_push}
use otp_relay_backend.Claim.Effect.Claims.{claim-Change}
use otp_relay_backend.Claim.Effect.Delivery.{resolve-Change}

module _ (j : String) (Adds : Otp → Type 0) (Wins : String → Type 0) where
  pub sweep-Change :
      (now : ℕ) (m : Manager) → Change Adds Wins now (view j m) (view j (sweep now m))
  unfolding sweep
  sweep-Change now m = elim (row-expire_stale_otps j (now_millis now) m.db) [
    | inl same ↦ kept same refl
    | inr e ↦ elim (Option-cases (row j m.db)) [
      | inl n ↦ kept (ground arith) refl
      | inr (o, found) ↦ elim (Bool-cases (is_stale (now_millis now) o)) [
        | inl stale ↦ lapsed o found (ground arith) (ground arith) refl
        | inr fresh ↦ kept (ground arith) refl
      ]
    ]
  ]

  insert_otp-Change :
      (now : ℕ) (o : Otp) (m : Manager)
      → o.status ≡ pending
      → (o.id ≡ j → Adds o)
      → Change Adds Wins now (view j m) (view j (with_db (insert_otp o m.db).1 m))
  insert_otp-Change now o m p adds = elim (row-insert_otp j o m.db) [
    | inl same ↦ kept same refl
    | inr (fresh, e) ↦ elim (Bool-cases (o.id == j)) [
      | inl hit ↦
          added o (adds ((eq_iff o.id j).0 hit)) (ground (arith, eq_iff o.id j)) p
            (ground (arith, eq_iff o.id j)) refl
      | inr miss ↦ kept (ground arith) refl
    ]
  ]

  pub ingest-Change :
      (service : PushService) (now : ℕ) (id source_id ciphertext iv : String) (m : Manager)
      → (id ≡ j → Adds (new_otp id source_id ciphertext iv now m.ttl))
      → Change Adds Wins now (view j m) (view j (ingest service id source_id ciphertext iv now m).1)
  unfolding ingest
  ingest-Change service now id source_id ciphertext iv m adds =
      let o = new_otp id source_id ciphertext iv now m.ttl in
      elim (Result-cases (insert_otp o m.db).0) [
        | inl (u, e) ↦
            rw (e, ingest)
              (rw (view-dispatch_push j service id (with_db (insert_otp o m.db).1 m))
                (insert_otp-Change now o m refl adds))
        | inr (inl e) ↦ rw (e, ingest) (insert_otp-Change now o m refl adds)
        | inr (inr e) ↦ rw (e, ingest) (insert_otp-Change now o m refl adds)
      ]

-- The winner's claim has opened the window, at least the length of the window before.
pub record Won (past : List (ℕ × Event)) (window : ℤ) (j : String) (now : ℕ) (winner : String)
    : Type 0 where
  pub opened_at : ℕ
  pub occurs : Occurs (opened_at, claims winner j) past
  pub waited : pos opened_at +ℤ window ≤ℤ pos now

-- The event is an ingestion, and `o` the row that it stores.
abbrev pub IsStored : String → ℕ → Event → ℤ → Otp → Type 0
IsStored j now e ttl o =
    (source_id : String) × (ciphertext : String) × (iv : String) × (e
      ≡ ingests j source_id ciphertext iv)
    × (o ≡ new_otp j source_id ciphertext iv now ttl)

module _ (past : List (ℕ × Event)) (window : ℤ) (j : String) where
  fire-Change :
      (Adds : Otp → Type 0) (now h : ℕ) (m : Manager)
      → Armed past window (slots m)
      → Change Adds (Won past window j now) now (view j m) (view j (fire h now m))
  unfolding fire
  fire-Change Adds now h m a = elim (Option-cases (find_timer h m.timers)) [
    | inl e ↦ rw (e, fire) (kept refl refl)
    | inr (t, e) ↦
        rw (e, fire)
          (elim (Bool-cases (leb_ℤ t.due (pos now))) [
            | inl due ↦
                let (st, open_, own) = a.owned h t e in
                let (u, found, same_id, o) = a.armed t.otp_id st open_ in
                let same : t ≡ u = ground arith in
                rw (due, fire)
                  (resolve-Change j Adds (Won past window j now) now o.claimant t.otp_id st
                    (record m { timers = stop h m.timers }) open_ o.sole
                    (λ hit. record {
                      opened_at = o.opened_at;
                      occurs = rw hit at o.occurs;
                      waited = rw (← o.due, ← same) (leb_ℤ→le t.due (pos now) due);
                    }))
            | inr early ↦ rw (early, fire) (kept refl refl)
          ])
  ]

  pub step-Change :
      (service : PushService) (now : ℕ) (e : Event) (m : Manager)
      → Armed past window (slots m)
      → Change
          (IsStored j now e m.ttl)
          (Won past window j now)
          now
          (view j m)
          (view j (step service (now, e) m))
  unfolding step
  step-Change service now (ingests id source_id ciphertext iv) m a =
      ingest-Change j (IsStored j now (ingests id source_id ciphertext iv) m.ttl)
        (Won past window j now) service now id source_id ciphertext iv m
        (λ hit. (
          source_id,
          ciphertext,
          iv,
          ap (λ k. ingests k source_id ciphertext iv) hit,
          ap (λ k. new_otp k source_id ciphertext iv now m.ttl) hit,
        ))
  step-Change service now (claims claimant id) m a =
      claim-Change j (IsStored j now (claims claimant id) m.ttl) (Won past window j now) now
        claimant id m
  step-Change service now (fires h) m a = fire-Change (IsStored j now (fires h) m.ttl) now h m a
  step-Change service now sweeps m a =
      sweep-Change j (IsStored j now sweeps m.ttl) (Won past window j now) now m
