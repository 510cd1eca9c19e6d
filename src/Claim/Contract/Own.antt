-- ===== src/Claim/Contract/Own.antt =====
-- What the coordinator does to one OTP is what its contract says, while the database answers.
use otp_relay_backend.Base.{
  ℕ, ◌≡◌, refl, sym, ap, ◌∙◌, inl, inr, String, leb_ℤ, List, [], ◌∷◌, none, some, ◌==◌, arith,
  Bool-cases, Option-cases, lookup, insert, remove, lookup-insert, lookup-remove, eq_refl,
}
use otp_relay_backend.Db.{Otp, Status-cases, pending, claimed, invalidated}
use otp_relay_backend.Db.Otps.{get_otp, set_otp_status}
use otp_relay_backend.Db.Otps.Laws.{row, set_otp_status_runs}
use otp_relay_backend.Ws.{Envelope}
use otp_relay_backend.Claim.{ClaimState, Manager}
use otp_relay_backend.Claim.Window.{
  now_millis, with_db, send_invalidated, reject, notify_all, invalidate, open_window, close_window,
  join_window, enter_window, claim_loaded, claim, settle, deliver_loaded, deliver, resolve_window,
  resolve, error_envelope, invalidated_envelope, payload_envelope,
}
use otp_relay_backend.Claim.Contract.{
  taken, killed, life, about, candidates_of, fate_of, tell, join, ask, decide, end_window,
}
use otp_relay_backend.Claim.Contract.Others.{life-parts}

-- The open window of the OTP has one claimant.
abbrev pub IsSole : String → Manager → Type 0
IsSole j m =
    (st : ClaimState) → lookup j m.windows ≡ some st → (c : String) × (st.claimants ≡ c ∷ [])

module _ (j : String) where
  about-own :
      (c : String) (e : Envelope) (sent : List (String × Envelope))
      → e.otp_id ≡ j
      → about j ((c, e) ∷ sent) ≡ (c, e) ∷ about j sent
  unfolding about
  about-own c e sent same = rw (same, eq_refl j, about)

  lookup-own :
      (st : ClaimState) (ws : List (String × ClaimState)) → lookup j (insert j st ws) ≡ some st
  lookup-own st ws = lookup-insert j j st ws ∙ rw (eq_refl j) refl

  lookup-gone : (ws : List (String × ClaimState)) → lookup j (remove j ws) ≡ none
  lookup-gone ws = lookup-remove j j ws ∙ rw (eq_refl j) refl

  own-reject :
      (c reason : String) (m : Manager)
      → life j (reject c j reason m) ≡ tell c (error_envelope j reason) (life j m)
  unfolding reject
  own-reject c reason m = life-parts refl refl (about-own c (error_envelope j reason) m.sent refl)

  own-send_invalidated :
      (c : String) (m : Manager)
      → life j (send_invalidated c j m) ≡ tell c (invalidated_envelope j) (life j m)
  unfolding send_invalidated
  own-send_invalidated c m = life-parts refl refl (about-own c (invalidated_envelope j) m.sent refl)

  module _ (o : Otp) (m : Manager) (answers : m.db.replies ≡ [])
      (stored : row j m.db ≡ some o) where
    claim_found : (c : String) (now : ℕ) → claim c j now m ≡ claim_loaded o c j now m
    unfolding claim get_otp
    claim_found c now = ground arith

    deliver_found : (c : String) (now : ℕ) → deliver c j now m ≡ deliver_loaded o c j now m
    unfolding deliver get_otp
    deliver_found c now = ground arith

    own-open_window :
        (c : String) (now : ℕ)
        → life j (open_window c j now m) ≡ record (life j m) { candidates = some (c ∷ []) }
    unfolding open_window
    own-open_window c now = life-parts refl (lookup-own _ m.windows) refl

    -- A second claimant.
    own-second :
        (c d : String) (h : ℕ)
        → o.status ≡ pending
        → life j (invalidate j (d ∷ c ∷ []) (close_window j h m))
          ≡ tell c (invalidated_envelope j) (
              tell d
                (invalidated_envelope j)
                (record (life j m) { fate = killed; candidates = none }))
    unfolding invalidate notify_all
    own-second c d h p =
        let m1 = close_window j h m in
        let m2 = with_db (set_otp_status j invalidated none m1.db).1 m1 in
        let (written, found, quiet) =
          set_otp_status_runs j invalidated none m.db o answers stored in
        own-send_invalidated c (send_invalidated d j m2)
        ∙ ap (tell c (invalidated_envelope j)) (own-send_invalidated d m2)
        ∙ ap (λ l. tell c (invalidated_envelope j) (tell d (invalidated_envelope j) l))
            (life-parts found (lookup-gone m.windows) refl)

    own-enter_window :
        (c : String) (now : ℕ)
        → o.status ≡ pending
        → IsSole j m
        → life j (enter_window c j now m) ≡ join j c (candidates_of (lookup j m.windows)) (life j m)
    unfolding enter_window join_window join
    own-enter_window c now p sole = elim (Option-cases (lookup j m.windows)) [
      | inl e ↦ rw (e, enter_window) (own-open_window c now)
      | inr (st, e) ↦
          let (d, one) = sole st e in
          rw (e, one, enter_window)
            (elim (Bool-cases (d == c)) [
              | inl again ↦ rw again (
                  ap (λ k. record (life j m) { candidates = k })
                    (ap candidates_of e ∙ ap (λ x. some x) one))
              | inr second ↦ rw second (own-second c d st.timer p)
            ])
    ]

    own-claim_loaded :
        (c : String) (now : ℕ)
        → IsSole j m
        → life j (claim_loaded o c j now m) ≡ ask j (fate_of (some o)) c now (life j m)
    unfolding claim_loaded ask
    own-claim_loaded c now sole = elim (Status-cases o.status) [
      | inl p ↦ elim (Bool-cases (leb_ℤ o.expires_at (now_millis now))) [
        | inl past ↦ rw (p, past, claim_loaded) (own-reject c "otp expired" m)
        | inr live ↦ rw (p, live, claim_loaded) (own-enter_window c now p sole)
      ]
      | inr (inl p) ↦ rw (p, claim_loaded) (own-reject c "otp already claimed" m)
      | inr (inr (inl p)) ↦ rw (p, claim_loaded) (own-send_invalidated c m)
      | inr (inr (inr p)) ↦ rw (p, claim_loaded) (own-reject c "otp expired" m)
    ]

    own-settle :
        (c : String)
        → life j (settle o c j m)
          ≡ tell c (payload_envelope j o) (record (life j m) { fate = taken (some c) })
    unfolding settle
    own-settle c =
        let (written, found, quiet) =
          set_otp_status_runs j claimed (some c) m.db o answers stored in
        rw (written, settle)
          (life-parts found refl (about-own c (payload_envelope j o) m.sent refl))

    own-deliver_loaded :
        (c : String) (now : ℕ)
        → life j (deliver_loaded o c j now m) ≡ decide j (fate_of (some o)) c now (life j m)
    unfolding deliver_loaded decide
    own-deliver_loaded c now = elim (Status-cases o.status) [
      | inl p ↦ elim (Bool-cases (leb_ℤ o.expires_at (now_millis now))) [
        | inl past ↦ rw (p, past, deliver_loaded) (own-reject c "otp expired" m)
        | inr live ↦ rw (p, live, deliver_loaded) (own-settle c)
      ]
      | inr (inl p) ↦ rw (p, deliver_loaded) (own-reject c "otp expired" m)
      | inr (inr (inl p)) ↦ rw (p, deliver_loaded) (own-reject c "otp expired" m)
      | inr (inr (inr p)) ↦ rw (p, deliver_loaded) (own-reject c "otp expired" m)
    ]

  module _ (m : Manager) (answers : m.db.replies ≡ []) where
    claim_missing :
        (c : String) (now : ℕ) → row j m.db ≡ none → claim c j now m ≡ reject c j "otp not found" m
    unfolding claim get_otp
    claim_missing c now e = ground arith

    deliver_missing :
        (c : String) (now : ℕ)
        → row j m.db ≡ none
        → deliver c j now m ≡ reject c j "internal error" m
    unfolding deliver get_otp
    deliver_missing c now e = ground arith

    pub own-claim :
        (c : String) (now : ℕ)
        → IsSole j m
        → life j (claim c j now m) ≡ ask j (fate_of (row j m.db)) c now (life j m)
    unfolding ask
    own-claim c now sole = elim (Option-cases (row j m.db)) [
      | inl e ↦
          ap (life j) (claim_missing c now e)
          ∙ own-reject c "otp not found" m
          ∙ ap (λ r. ask j (fate_of r) c now (life j m)) (sym e)
      | inr (o, e) ↦
          ap (life j) (claim_found o m answers e c now)
          ∙ own-claim_loaded o m answers e c now sole
          ∙ ap (λ r. ask j (fate_of r) c now (life j m)) (sym e)
    ]

    own-deliver :
        (c : String) (now : ℕ)
        → life j (deliver c j now m) ≡ decide j (fate_of (row j m.db)) c now (life j m)
    unfolding decide
    own-deliver c now = elim (Option-cases (row j m.db)) [
      | inl e ↦
          ap (life j) (deliver_missing c now e)
          ∙ own-reject c "internal error" m
          ∙ ap (λ r. decide j (fate_of r) c now (life j m)) (sym e)
      | inr (o, e) ↦
          ap (life j) (deliver_found o m answers e c now)
          ∙ own-deliver_loaded o m answers e c now
          ∙ ap (λ r. decide j (fate_of r) c now (life j m)) (sym e)
    ]

  pub own-resolve :
      (m : Manager)
      → m.db.replies ≡ []
      → (now : ℕ) → IsSole j m
      → life j (resolve j now m) ≡ end_window j (candidates_of (lookup j m.windows)) now (life j m)
  unfolding resolve resolve_window end_window
  own-resolve m answers now sole = elim (Option-cases (lookup j m.windows)) [
    | inl e ↦ rw (e, resolve) (life-parts refl e refl)
    | inr (st, e) ↦
        let (c, one) = sole st e in
        let m' : Manager = record m { windows = remove j m.windows } in
        rw (e, one, resolve)
          (own-deliver m' answers c now
            ∙ ap (decide j (fate_of (row j m.db)) c now)
                (life-parts refl (lookup-gone m.windows) refl))
  ]
