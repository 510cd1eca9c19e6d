-- ===== src/Claim/Effect/Delivery.antt =====
-- internal/claim/claim.go: what resolve can do to an OTP.
use mathlib.Core.Bool.{not}
use otp_relay_backend.Base.{
  ℕ, ◌≡◌, refl, ◌∙◌, inl, inr, String, leb_ℤ, [], ◌∷◌, false, ◌||◌, some, ◌==◌, arith, eq_iff,
  eq_refl, lookup, remove, Bool-cases,
}
use otp_relay_backend.Db.{Otp, pending, claimed, Result-cases}
use otp_relay_backend.Db.Otps.{get_otp, set_otp_status, is_pending}
use otp_relay_backend.Db.Otps.Laws.{
  row, row-get_otp, get_otp-eq-ok, row-set_otp_status, set_otp_status-eq-ok,
}
use otp_relay_backend.Claim.{ClaimState, Manager}
use otp_relay_backend.Claim.Window.{
  now_millis, deliver_loaded, deliver, resolve_window, resolve, with_db, settle,
}
use otp_relay_backend.Claim.Effect.{recipients, view, Change, kept, taken}
use otp_relay_backend.Claim.Effect.Views.{view-get_otp}

module _ (j : String) (Adds : Otp → Type 0) (Wins : String → Type 0) where
  -- The write of `claimed`, on the row of the OTP or on another.
  settle_hit-Change :
      (now : ℕ) (o : Otp) (winner : String) (m : Manager)
      → Wins winner
      → row j m.db ≡ some o
      → o.status ≡ pending
      → leb_ℤ o.expires_at (now_millis now) ≡ false
      → Change Adds Wins now (view j m) (view j (settle o winner j m))
  unfolding settle recipients
  settle_hit-Change now o winner m wins e p live =
      let written = set_otp_status j claimed (some winner) m.db in
      elim (Result-cases written.0) [
        | inl (u, done) ↦
            rw (done, settle)
              (taken o winner wins e p live
                (ground (arith, set_otp_status-eq-ok j j claimed (some winner) m.db, eq_refl j))
                (inr (ground (arith, eq_refl j))))
        | inr f ↦ elim (row-set_otp_status j j claimed (some winner) m.db) [
          | inl same ↦ kept (ground arith) (ground arith)
          | inr set ↦ taken o winner wins e p live (ground (arith, eq_refl j)) (inl (ground arith))
        ]
      ]

  settle_miss-Change :
      (now : ℕ) (o : Otp) (winner id : String) (m : Manager)
      → (id == j) ≡ false
      → Change Adds Wins now (view j m) (view j (settle o winner id m))
  unfolding settle recipients
  settle_miss-Change now o winner id m miss =
      kept (ground (arith, row-set_otp_status j id claimed (some winner) m.db)) (ground arith)

  deliver_loaded-Change :
      (now : ℕ) (o : Otp) (winner id : String) (m : Manager)
      → (id ≡ j → Wins winner)
      → row id m.db ≡ some o
      → Change Adds Wins now (view j m) (view j (deliver_loaded o winner id now m))
  unfolding deliver_loaded recipients
  deliver_loaded-Change now o winner id m wins e =
      elim (Bool-cases (not (is_pending o.status) || leb_ℤ o.expires_at (now_millis now))) [
        | inl late ↦ rw (late, deliver_loaded) (kept refl refl)
        | inr live ↦
            rw (live, deliver_loaded)
              (elim (Bool-cases (id == j)) [
                | inl hit ↦ rw ((eq_iff id j).0 hit) (
                    settle_hit-Change now o winner m (wins ((eq_iff id j).0 hit))
                      (ground (arith, eq_iff id j)) (ground arith) (ground arith))
                | inr miss ↦ settle_miss-Change now o winner id m miss
              ])
      ]

  deliver-Change :
      (now : ℕ) (winner id : String) (m : Manager)
      → (id ≡ j → Wins winner)
      → Change Adds Wins now (view j m) (view j (deliver winner id now m))
  unfolding deliver recipients
  deliver-Change now winner id m wins = elim (Result-cases (get_otp id m.db).0) [
    | inl (o, e) ↦
        rw (e, deliver)
          (rw (view-get_otp j id m) at (
            deliver_loaded-Change now o winner id (with_db (get_otp id m.db).1 m) wins
              (row-get_otp id id m.db ∙ get_otp-eq-ok id m.db o e)))
    | inr (inl e) ↦ rw (e, deliver) (kept (row-get_otp j id m.db) refl)
    | inr (inr e) ↦ rw (e, deliver) (kept (row-get_otp j id m.db) refl)
  ]

  -- The window that closes has one claimant.
  pub resolve-Change :
      (now : ℕ) (c id : String) (st : ClaimState) (m : Manager)
      → lookup id m.windows ≡ some st
      → st.claimants ≡ c ∷ []
      → (id ≡ j → Wins c)
      → Change Adds Wins now (view j m) (view j (resolve id now m))
  unfolding resolve resolve_window
  resolve-Change now c id st m e sole wins =
      rw (e, resolve)
        (rw (sole, resolve_window)
          (deliver-Change now c id (record m { windows = remove id m.windows }) wins))
