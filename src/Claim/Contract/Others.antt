-- ===== src/Claim/Contract/Others.antt =====
-- What the coordinator does to one OTP leaves the life of another alone.
use otp_relay_backend.Base.{
  ℕ, ◌≡◌, refl, ap, ◌∙◌, inl, inr, String, leb_ℤ, List, [], ◌∷◌, ◌++◌, false, Option, none, some,
  ◌||◌, ◌==◌, arith, Bool-cases, Option-cases, lookup, remove, lookup-insert, lookup-remove,
  contains,
}
use mathlib.Core.Bool.{not}
use otp_relay_backend.Db.{Db, Otp, Status, Status-cases, Result-cases, claimed, invalidated}
use otp_relay_backend.Db.Otps.{get_otp, set_otp_status, is_pending}
use otp_relay_backend.Db.Otps.Laws.{row, row-get_otp, row-set_otp_status}
use otp_relay_backend.Ws.{Envelope}
use otp_relay_backend.Claim.{ClaimState, Manager}
use otp_relay_backend.Claim.Window.{
  now_millis, with_db, send_invalidated, reject, notify_all, invalidate, open_window, close_window,
  join_window, enter_window, is_past, claim_loaded, claim, settle, deliver_loaded, deliver,
  resolve_window, resolve,
}
use otp_relay_backend.Claim.Contract.{life, life_of, about}

-- The three parts that a life is read off.
pub life-parts :
    {r r' : Option Otp} {w w' : Option ClaimState} {s s' : List (String × Envelope)}
    → r' ≡ r
    → w' ≡ w
    → s' ≡ s
    → life_of r' w' s' ≡ life_of r w s
life-parts r w s = rw (r, w, s) refl

module _ (j id : String) (miss : (id == j) ≡ false) where
  row-other :
      (st : Status) (by : Option String) (d : Db) → row j (set_otp_status id st by d).1 ≡ row j d
  row-other st by d = ground (arith, row-set_otp_status j id st by d)

  about-other :
      (c : String) (e : Envelope) (sent : List (String × Envelope))
      → (e.otp_id == j) ≡ false
      → about j ((c, e) ∷ sent) ≡ about j sent
  unfolding about
  about-other c e sent n = rw (n, about)

  life-reject : (c reason : String) (m : Manager) → life j (reject c id reason m) ≡ life j m
  unfolding reject
  life-reject c reason m = life-parts refl refl (about-other c _ m.sent miss)

  life-send_invalidated : (c : String) (m : Manager) → life j (send_invalidated c id m) ≡ life j m
  unfolding send_invalidated
  life-send_invalidated c m = life-parts refl refl (about-other c _ m.sent miss)

  life-notify_all : (cs : List String) (m : Manager) → life j (notify_all cs id m) ≡ life j m
  unfolding notify_all
  life-notify_all [] m = refl
  life-notify_all (c ∷ cs) m =
      life-notify_all cs (send_invalidated c id m) ∙ life-send_invalidated c m

  life-set_otp_status :
      (st : Status) (by : Option String) (m : Manager)
      → life j (with_db (set_otp_status id st by m.db).1 m) ≡ life j m
  life-set_otp_status st by m = life-parts (row-other st by m.db) refl refl

  life-invalidate : (cs : List String) (m : Manager) → life j (invalidate id cs m) ≡ life j m
  unfolding invalidate
  life-invalidate cs m =
      life-notify_all cs (with_db (set_otp_status id invalidated none m.db).1 m)
      ∙ life-set_otp_status invalidated none m

  life-open_window :
      (c : String) (now : ℕ) (m : Manager) → life j (open_window c id now m) ≡ life j m
  unfolding open_window
  life-open_window c now m = life-parts refl (lookup-insert id j _ m.windows ∙ rw miss refl) refl

  life-remove :
      (m m' : Manager)
      → m'.windows ≡ remove id m.windows
      → m'.db ≡ m.db
      → m'.sent ≡ m.sent
      → life j m' ≡ life j m
  life-remove m m' w d s =
      life-parts (ap (row j) d) (ap (lookup j) w ∙ lookup-remove id j m.windows ∙ rw miss refl)
        (ap (about j) s)

  life-enter_window :
      (c : String) (now : ℕ) (m : Manager) → life j (enter_window c id now m) ≡ life j m
  unfolding enter_window join_window
  life-enter_window c now m = elim (Option-cases (lookup id m.windows)) [
    | inl e ↦ rw (e, enter_window) (life-open_window c now m)
    | inr (st, e) ↦
        rw (e, enter_window)
          (elim (Bool-cases (contains st.claimants c)) [
            | inl again ↦ rw (again, join_window) refl
            | inr second ↦
                rw (second, join_window)
                  (life-invalidate (st.claimants ++ c ∷ []) (close_window id st.timer m)
                    ∙ life-remove m (close_window id st.timer m) refl refl refl)
          ])
  ]

  life-claim_loaded :
      (o : Otp) (c : String) (now : ℕ) (m : Manager) → life j (claim_loaded o c id now m) ≡ life j m
  unfolding claim_loaded
  life-claim_loaded o c now m = elim (Bool-cases (is_past o now)) [
    | inl past ↦ rw (past, claim_loaded) (life-reject c "otp expired" m)
    | inr live ↦
        rw (live, claim_loaded)
          (elim (Status-cases o.status) [
            | inl p ↦ rw (p, claim_loaded) (life-enter_window c now m)
            | inr (inl p) ↦ rw (p, claim_loaded) (life-reject c "otp already claimed" m)
            | inr (inr (inl p)) ↦ rw (p, claim_loaded) (life-send_invalidated c m)
            | inr (inr (inr p)) ↦ rw (p, claim_loaded) (life-enter_window c now m)
          ])
  ]

  life-get_otp : (m : Manager) → life j (with_db (get_otp id m.db).1 m) ≡ life j m
  life-get_otp m = life-parts (row-get_otp j id m.db) refl refl

  pub life-claim : (c : String) (now : ℕ) (m : Manager) → life j (claim c id now m) ≡ life j m
  unfolding claim
  life-claim c now m =
      let m' = with_db (get_otp id m.db).1 m in
      elim (Result-cases (get_otp id m.db).0) [
        | inl (o, e) ↦ rw (e, claim) (life-claim_loaded o c now m' ∙ life-get_otp m)
        | inr (inl e) ↦ rw (e, claim) (life-reject c "otp not found" m' ∙ life-get_otp m)
        | inr (inr e) ↦ rw (e, claim) (life-reject c "internal error" m' ∙ life-get_otp m)
      ]

  life-settle : (o : Otp) (c : String) (m : Manager) → life j (settle o c id m) ≡ life j m
  unfolding settle
  life-settle o c m =
      let written = set_otp_status id claimed (some c) m.db in
      let m' = with_db written.1 m in
      let back = life-set_otp_status claimed (some c) m in
      elim (Result-cases written.0) [
        | inl (u, e) ↦ rw (e, settle) (life-parts refl refl (about-other c _ m'.sent miss) ∙ back)
        | inr (inl e) ↦ rw (e, settle) (life-reject c "internal error" m' ∙ back)
        | inr (inr e) ↦ rw (e, settle) (life-reject c "internal error" m' ∙ back)
      ]

  life-deliver : (c : String) (now : ℕ) (m : Manager) → life j (deliver c id now m) ≡ life j m
  unfolding deliver deliver_loaded
  life-deliver c now m =
      let m' = with_db (get_otp id m.db).1 m in
      elim (Result-cases (get_otp id m.db).0) [
        | inl (o, e) ↦
            rw (e, deliver)
              (elim (Bool-cases
                (not (is_pending o.status) || leb_ℤ o.expires_at (now_millis now))) [
                  | inl late ↦
                      rw (late, deliver_loaded) (life-reject c "otp expired" m' ∙ life-get_otp m)
                  | inr live ↦ rw (live, deliver_loaded) (life-settle o c m' ∙ life-get_otp m)
                ])
        | inr (inl e) ↦ rw (e, deliver) (life-reject c "internal error" m' ∙ life-get_otp m)
        | inr (inr e) ↦ rw (e, deliver) (life-reject c "internal error" m' ∙ life-get_otp m)
      ]

  life-resolve_window :
      (cs : List String) (now : ℕ) (m : Manager) → life j (resolve_window cs id now m) ≡ life j m
  unfolding resolve_window
  life-resolve_window [] now m = life-invalidate [] m
  life-resolve_window (c ∷ []) now m = life-deliver c now m
  life-resolve_window (c ∷ d ∷ cs) now m = life-invalidate (c ∷ d ∷ cs) m

  pub life-resolve : (now : ℕ) (m : Manager) → life j (resolve id now m) ≡ life j m
  unfolding resolve
  life-resolve now m = elim (Option-cases (lookup id m.windows)) [
    | inl e ↦ rw (e, resolve) refl
    | inr (st, e) ↦
        let m' : Manager = record m { windows = remove id m.windows } in
        rw (e, resolve) (life-resolve_window st.claimants now m' ∙ life-remove m m' refl refl refl)
  ]
