-- ===== src/Claim/Log.antt =====
-- internal/claim/claim.go: what a handler sends comes on top of what was sent before.
use mathlib.Core.Bool.{not}
use mathlib.Core.List.{append_assoc}
use otp_relay_backend.Base.{
  ℕ, pos, ◌≡◌, refl, sym, ap, ◌∙◌, inl, inr, String, leb_ℤ, List, [], ◌∷◌, ◌++◌, ◌||◌, some, arith,
  Bool-cases, Option-cases, lookup, remove, contains,
}
use otp_relay_backend.Db.{Otp, Result-cases, Status-cases, claimed}
use otp_relay_backend.Db.Otps.{get_otp, set_otp_status, is_pending}
use otp_relay_backend.Push.{PushService}
use otp_relay_backend.Ws.{Envelope}
use otp_relay_backend.Claim.{Manager}
use otp_relay_backend.Claim.Window.{
  now_millis, with_db, send_invalidated, notify_all, invalidate, open_window, close_window,
  join_window, enter_window, is_past, claim_loaded, claim, reject, settle, deliver_loaded, deliver,
  resolve_window, resolve, find_timer, stop, fire, sweep,
}
use otp_relay_backend.Claim.Step.{Event, ingests, claims, fires, sweeps, step}
use otp_relay_backend.Claim.Ingest.{ingest, dispatch_push}

abbrev pub Log : Type 0
Log = List (String × Envelope)

-- The log `after` holds `before` and what is new.
abbrev pub Grows : Log → Log → Type 0
Grows before after = (news : Log) × (after ≡ news ++ before)

Grows-same : (before after : Log) → after ≡ before → Grows before after
Grows-same before after e = ([], e)

Grows-trans : (a b c : Log) → Grows a b → Grows b c → Grows a c
Grows-trans a b c (x, e) (y, f) = (y ++ x, f ∙ ap (◌++◌ y) e ∙ sym (append_assoc y x a))

notify_all-Grows :
    (cs : List String) (id : String) (m : Manager) → Grows m.sent (notify_all cs id m).sent
unfolding notify_all send_invalidated
notify_all-Grows [] id m = ([], refl)
notify_all-Grows (c ∷ cs) id m =
    let m' = send_invalidated c id m in
    Grows-trans m.sent m'.sent (notify_all cs id m').sent (_ ∷ [], refl) (notify_all-Grows cs id m')

invalidate-Grows :
    (id : String) (cs : List String) (m : Manager) → Grows m.sent (invalidate id cs m).sent
unfolding invalidate
invalidate-Grows id cs m = notify_all-Grows cs id _

enter_window-Grows :
    (c id : String) (now : ℕ) (m : Manager) → Grows m.sent (enter_window c id now m).sent
unfolding enter_window open_window join_window
enter_window-Grows c id now m = elim (Option-cases (lookup id m.windows)) [
  | inl e ↦ rw (e, enter_window) ([], refl)
  | inr (st, e) ↦
      rw (e, enter_window)
        (elim (Bool-cases (contains st.claimants c)) [
          | inl again ↦ rw (again, join_window) ([], refl)
          | inr second ↦
              rw (second, join_window)
                (invalidate-Grows id (st.claimants ++ c ∷ []) (close_window id st.timer m))
        ])
]

claim_loaded-Grows :
    (o : Otp) (c id : String) (now : ℕ) (m : Manager)
    → Grows m.sent (claim_loaded o c id now m).sent
unfolding claim_loaded reject send_invalidated
claim_loaded-Grows o c id now m = elim (Bool-cases (is_past o now)) [
  | inl past ↦ rw (past, claim_loaded) (_ ∷ [], refl)
  | inr live ↦
      rw (live, claim_loaded)
        (elim (Status-cases o.status) [
          | inl p ↦ rw (p, claim_loaded) (enter_window-Grows c id now m)
          | inr (inl p) ↦ rw (p, claim_loaded) (_ ∷ [], refl)
          | inr (inr (inl p)) ↦ rw (p, claim_loaded) (_ ∷ [], refl)
          | inr (inr (inr p)) ↦ rw (p, claim_loaded) (enter_window-Grows c id now m)
        ])
]

claim-Grows : (c id : String) (now : ℕ) (m : Manager) → Grows m.sent (claim c id now m).sent
unfolding claim reject
claim-Grows c id now m = elim (Result-cases (get_otp id m.db).0) [
  | inl (o, e) ↦ rw (e, claim) (claim_loaded-Grows o c id now (with_db (get_otp id m.db).1 m))
  | inr (inl e) ↦ rw (e, claim) (_ ∷ [], refl)
  | inr (inr e) ↦ rw (e, claim) (_ ∷ [], refl)
]

settle-Grows : (o : Otp) (c id : String) (m : Manager) → Grows m.sent (settle o c id m).sent
unfolding settle reject
settle-Grows o c id m = elim (Result-cases (set_otp_status id claimed (some c) m.db).0) [
  | inl (u, e) ↦ rw (e, settle) (_ ∷ [], refl)
  | inr (inl e) ↦ rw (e, settle) (_ ∷ [], refl)
  | inr (inr e) ↦ rw (e, settle) (_ ∷ [], refl)
]

deliver-Grows : (c id : String) (now : ℕ) (m : Manager) → Grows m.sent (deliver c id now m).sent
unfolding deliver deliver_loaded reject
deliver-Grows c id now m = elim (Result-cases (get_otp id m.db).0) [
  | inl (o, e) ↦
      rw (e, deliver)
        (elim (Bool-cases (not (is_pending o.status) || leb_ℤ o.expires_at (now_millis now))) [
          | inl late ↦ rw (late, deliver_loaded) (_ ∷ [], refl)
          | inr live ↦
              rw (live, deliver_loaded) (settle-Grows o c id (with_db (get_otp id m.db).1 m))
        ])
  | inr (inl e) ↦ rw (e, deliver) (_ ∷ [], refl)
  | inr (inr e) ↦ rw (e, deliver) (_ ∷ [], refl)
]

resolve_window-Grows :
    (cs : List String) (id : String) (now : ℕ) (m : Manager)
    → Grows m.sent (resolve_window cs id now m).sent
unfolding resolve_window
resolve_window-Grows [] id now m = invalidate-Grows id [] m
resolve_window-Grows (c ∷ []) id now m = deliver-Grows c id now m
resolve_window-Grows (c ∷ d ∷ cs) id now m = invalidate-Grows id (c ∷ d ∷ cs) m

resolve-Grows : (id : String) (now : ℕ) (m : Manager) → Grows m.sent (resolve id now m).sent
unfolding resolve
resolve-Grows id now m = elim (Option-cases (lookup id m.windows)) [
  | inl e ↦ rw (e, resolve) ([], refl)
  | inr (st, e) ↦
      rw (e, resolve)
        (resolve_window-Grows st.claimants id now (record m { windows = remove id m.windows }))
]

fire-Grows : (h now : ℕ) (m : Manager) → Grows m.sent (fire h now m).sent
unfolding fire
fire-Grows h now m = elim (Option-cases (find_timer h m.timers)) [
  | inl e ↦ rw (e, fire) ([], refl)
  | inr (t, e) ↦ elim (Bool-cases (leb_ℤ t.due (pos now))) [
    | inl due ↦
        rw (e, due, fire) (resolve-Grows t.otp_id now (record m { timers = stop h m.timers }))
    | inr early ↦ rw (e, early, fire) ([], refl)
  ]
]

pub ingest-sent :
    (service : PushService) (id source_id ciphertext iv : String) (now : ℕ) (m : Manager)
    → (ingest service id source_id ciphertext iv now m).1.sent ≡ m.sent
unfolding ingest dispatch_push
ingest-sent service id source_id ciphertext iv now m = ground arith

pub step-Grows :
    (service : PushService) (e : ℕ × Event) (m : Manager) → Grows m.sent (step service e m).sent
unfolding step sweep
step-Grows service (now, ingests id source_id ciphertext iv) m =
    ([], ingest-sent service id source_id ciphertext iv now m)
step-Grows service (now, claims c id) m = claim-Grows c id now m
step-Grows service (now, fires h) m = fire-Grows h now m
step-Grows service (now, sweeps) m = ([], refl)
