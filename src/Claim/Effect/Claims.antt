-- ===== src/Claim/Effect/Claims.antt =====
-- internal/claim/claim.go: what Claim can do to an OTP.
use otp_relay_backend.Base.{
  ℕ, ◌≡◌, refl, ◌∙◌, inl, inr, String, List, [], ◌∷◌, ◌++◌, none, some, ◌==◌, arith, eq_iff, lookup,
  Bool-cases, Option-cases, contains,
}
use otp_relay_backend.Db.{Otp, Status-cases, pending, invalidated, Result-cases}
use otp_relay_backend.Db.Otps.{get_otp, set_otp_status}
use otp_relay_backend.Db.Otps.Laws.{row, row-get_otp, get_otp-eq-ok, row-set_otp_status}
use otp_relay_backend.Claim.{Manager}
use otp_relay_backend.Claim.Window.{
  invalidate, join_window, enter_window, claim_loaded, claim, with_db, is_past, close_window,
}
use otp_relay_backend.Claim.Effect.{recipients, view, Change, kept, killed}
use otp_relay_backend.Claim.Effect.Views.{view-notify_all, view-get_otp}

module _ (j : String) (Adds : Otp → Type 0) (Wins : String → Type 0) where
  -- A write of `invalidated` on a row that is pending.
  pub invalidate-Change :
      (now : ℕ) (id : String) (cs : List String) (o : Otp) (m : Manager)
      → row id m.db ≡ some o
      → o.status ≡ pending
      → Change Adds Wins now (view j m) (view j (invalidate id cs m))
  unfolding invalidate
  invalidate-Change now id cs o m e p =
      rw (view-notify_all j cs id (with_db (set_otp_status id invalidated none m.db).1 m))
        (elim (row-set_otp_status j id invalidated none m.db) [
          | inl same ↦ kept same refl
          | inr set ↦ elim (Bool-cases (id == j)) [
            | inl hit ↦ killed o (ground (arith, eq_iff id j)) p (ground (arith, eq_iff id j)) refl
            | inr miss ↦ kept (ground arith) refl
          ]
        ])

  enter_window-Change :
      (now : ℕ) (claimant id : String) (o : Otp) (m : Manager)
      → row id m.db ≡ some o
      → o.status ≡ pending
      → Change Adds Wins now (view j m) (view j (enter_window claimant id now m))
  unfolding enter_window
  enter_window-Change now claimant id o m e p = elim (Option-cases (lookup id m.windows)) [
    | inl new ↦ rw (new, enter_window) (kept refl refl)
    | inr (st, open_) ↦
        rw (open_, enter_window)
          (elim (Bool-cases (contains st.claimants claimant)) [
            | inl again ↦ rw (again, join_window) (kept refl refl)
            | inr second ↦
                rw (second, join_window)
                  (invalidate-Change now id (st.claimants ++ claimant ∷ []) o
                    (close_window id st.timer m) e p)
          ])
  ]

  claim_loaded-Change :
      (now : ℕ) (o : Otp) (claimant id : String) (m : Manager)
      → row id m.db ≡ some o
      → Change Adds Wins now (view j m) (view j (claim_loaded o claimant id now m))
  unfolding claim_loaded recipients
  claim_loaded-Change now o claimant id m e = elim (Bool-cases (is_past o now)) [
    | inl past ↦ rw (past, claim_loaded) (kept refl refl)
    | inr live ↦
        rw (live, claim_loaded)
          (elim (Status-cases o.status) [
            | inl p ↦ rw (p, claim_loaded) (enter_window-Change now claimant id o m e p)
            | inr (inl p) ↦ rw (p, claim_loaded) (kept refl refl)
            | inr (inr (inl p)) ↦ rw (p, claim_loaded) (kept refl refl)
            | inr (inr (inr p)) ↦ absurd (ground arith)
          ])
  ]

  pub claim-Change :
      (now : ℕ) (claimant id : String) (m : Manager)
      → Change Adds Wins now (view j m) (view j (claim claimant id now m))
  unfolding claim recipients
  claim-Change now claimant id m = elim (Result-cases (get_otp id m.db).0) [
    | inl (o, e) ↦
        rw (e, claim)
          (rw (view-get_otp j id m) at (
            claim_loaded-Change now o claimant id (with_db (get_otp id m.db).1 m)
              (row-get_otp id id m.db ∙ get_otp-eq-ok id m.db o e)))
    | inr (inl e) ↦ rw (e, claim) (kept (row-get_otp j id m.db) refl)
    | inr (inr e) ↦ rw (e, claim) (kept (row-get_otp j id m.db) refl)
  ]
