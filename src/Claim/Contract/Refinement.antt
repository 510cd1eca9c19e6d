-- ===== src/Claim/Contract/Refinement.antt =====
-- The coordinator of internal/claim/claim.go implements its contract, in every state that it reaches.
use otp_relay_backend.Base.{
  ℕ, ◌≡◌, refl, ap, ◌∙◌, inl, inr, String, ℤ, pos, leb_ℤ, List, [], Option, none, some, ◌==◌, arith,
  Bool-cases, Option-cases, lookup, eq_iff,
}
use otp_relay_backend.Db.{Db, Otp, Status-cases, Result-cases}
use otp_relay_backend.Db.Table.{first_some}
use otp_relay_backend.Db.Otps.{insert_otp}
use otp_relay_backend.Db.Otps.Laws.{row, expire_stale_otps_runs, insert_otp_runs}
use otp_relay_backend.Push.{PushService}
use otp_relay_backend.Claim.{Manager, new}
use otp_relay_backend.Claim.Window.{
  now_millis, with_db, find_timer, stop, claim, fire, resolve, sweep,
}
use otp_relay_backend.Claim.Ingest.{ingest, new_otp, dispatch_push}
use otp_relay_backend.Claim.Step.{Event, ingests, claims, fires, sweeps, step, run}
use otp_relay_backend.Claim.Effect.Views.{view-dispatch_push}
use otp_relay_backend.Claim.Armed.{run-Armed, new-Armed}
use otp_relay_backend.Claim.Contract.{life, about, lapses, input, timer_input, respond_to, is_over}
use otp_relay_backend.Claim.Contract.Others.{life-parts, life-claim, life-resolve}
use otp_relay_backend.Claim.Contract.Own.{IsSole, own-claim, own-resolve}

first_some-none : (r : Option Otp) → first_some r none ≡ r
first_some-none none = refl
first_some-none (some o) = refl

module _ (j : String) (m : Manager) (answers : m.db.replies ≡ []) (now : ℕ) where
  claims-respond :
      (c id : String)
      → IsSole j m
      → life j (claim c id now m) ≡ respond_to j (input j now (claims c id) m) now (life j m)
  unfolding input respond_to
  claims-respond c id sole = elim (Bool-cases (id == j)) [
    | inl hit ↦
        let same : id ≡ j = ground (arith, eq_iff id j) in
        rw hit (ap (λ i. life j (claim c i now m)) same ∙ own-claim j m answers c now sole)
    | inr miss ↦ rw miss (life-claim j id miss c now m)
  ]

  timer-respond :
      (h : ℕ)
      → IsSole j m
      → life j (fire h now m) ≡ respond_to j (input j now (fires h) m) now (life j m)
  unfolding fire input timer_input respond_to
  timer-respond h sole = elim (Option-cases (find_timer h m.timers)) [
    | inl e ↦ rw (e, fire, timer_input) refl
    | inr (t, e) ↦
        let m' : Manager = record m { timers = stop h m.timers } in
        elim (Bool-cases (leb_ℤ t.due (pos now))) [
          | inr early ↦ rw (e, early, fire, timer_input) refl
          | inl due ↦ elim (Bool-cases (t.otp_id == j)) [
            | inr miss ↦ rw (e, due, miss, fire, timer_input) (life-resolve j t.otp_id miss now m')
            | inl hit ↦
                let same : t.otp_id ≡ j = ground (arith, eq_iff t.otp_id j) in
                rw (e, due, hit, fire, timer_input)
                  (ap (λ i. life j (resolve i now m')) same ∙ own-resolve j m' answers now sole)
          ]
        ]
  ]

  sweep-respond : life j (sweep now m) ≡ respond_to j lapses now (life j m)
  unfolding sweep respond_to
  sweep-respond =
      life-parts (expire_stale_otps_runs j (now_millis now) m.db answers) refl refl
      ∙ elim (Option-cases (row j m.db)) [
        | inl e ↦ rw e refl
        | inr (o, e) ↦ rw e (elim (Status-cases o.status) [
          | inl p ↦ elim (Bool-cases (is_over o now)) [
            | inl past ↦ rw (p, past) refl
            | inr live ↦ rw (p, live) refl
          ]
          | inr (inl p) ↦ rw p refl
          | inr (inr (inl p)) ↦ rw p refl
          | inr (inr (inr p)) ↦ rw p refl
        ])
      ]

  pub row-ingest :
      (service : PushService) (id source_id ciphertext iv : String)
      → row j (ingest service id source_id ciphertext iv now m).1.db
        ≡ row j (insert_otp (new_otp id source_id ciphertext iv now m.ttl) m.db).1
  unfolding ingest
  row-ingest service id source_id ciphertext iv =
      let stored = insert_otp (new_otp id source_id ciphertext iv now m.ttl) m.db in
      elim (Result-cases stored.0) [
        | inl (u, e) ↦
            rw (e, ingest) (ap (λ v. v.row) (view-dispatch_push j service id (with_db stored.1 m)))
        | inr (inl e) ↦ rw (e, ingest) refl
        | inr (inr e) ↦ rw (e, ingest) refl
      ]

  pub ingest-rest :
      (service : PushService) (id source_id ciphertext iv : String)
      → let m' = (ingest service id source_id ciphertext iv now m).1 in
        (m'.windows ≡ m.windows) × (m'.sent ≡ m.sent)
  unfolding ingest dispatch_push
  ingest-rest service id source_id ciphertext iv = ground arith

  ingest-respond :
      (service : PushService) (id source_id ciphertext iv : String)
      → life j (ingest service id source_id ciphertext iv now m).1
        ≡ respond_to j (input j now (ingests id source_id ciphertext iv) m) now (life j m)
  unfolding input respond_to
  ingest-respond service id source_id ciphertext iv =
      let (windows, sent) = ingest-rest service id source_id ciphertext iv in
      let o = new_otp id source_id ciphertext iv now m.ttl in
      life-parts (row-ingest service id source_id ciphertext iv ∙ insert_otp_runs j o m.db answers)
        (ap (lookup j) windows) (ap (about j) sent)
      ∙ elim (Bool-cases (id == j)) [
        | inr miss ↦ rw miss (life-parts (first_some-none (row j m.db)) refl refl)
        | inl hit ↦ elim (Option-cases (row j m.db)) [
          | inl e ↦ rw (hit, e) refl
          | inr (old, e) ↦
              rw (hit, e)
                (elim (Status-cases old.status) [
                  | inl p ↦ rw p refl
                  | inr (inl p) ↦ rw p refl
                  | inr (inr (inl p)) ↦ rw p refl
                  | inr (inr (inr p)) ↦ rw p refl
                ])
        ]
      ]

  step-respond :
      (service : PushService) (e : Event)
      → IsSole j m
      → life j (step service (now, e) m) ≡ respond_to j (input j now e m) now (life j m)
  unfolding step input
  step-respond service (ingests id source_id ciphertext iv) sole =
      ingest-respond service id source_id ciphertext iv
  step-respond service (claims c id) sole = claims-respond c id sole
  step-respond service (fires h) sole = timer-respond h sole
  step-respond service sweeps sole = sweep-respond

-- With each handler as one step: in every state that the coordinator reaches, from a start on any database and by any events and
-- failures, and in which the database answers: what the next event does to the row of an OTP, to its
-- window, and which messages about it are sent, in what order, is what the contract answers to it.
pub refines :
    (service : PushService) (db : Db) (window ttl : ℤ) (es : List (ℕ × Event)) (now : ℕ) (e : Event)
    (j : String)
    → let m = run service es (new db window ttl) in
      m.db.replies ≡ []
      → life j (step service (now, e) m) ≡ respond_to j (input j now e m) now (life j m)
refines service db window ttl es now e j answers =
    let m = run service es (new db window ttl) in
    step-respond j m answers now service e (λ st open_.
      let a = run-Armed [] window service es (new db window ttl) refl (new-Armed db window ttl) in
      let (t, found, own, o) = a.armed j st open_ in (o.claimant, o.sole))
