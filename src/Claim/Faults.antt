-- ===== src/Claim/Faults.antt =====
-- What a dual claim does when the write of its status fails.
use otp_relay_backend.Base.{
  ℕ, ◌≡◌, refl, ◌∙◌, ◌≢◌, String, pos, ◌+ℤ◌, ◌≤ℤ◌, List, [], ◌∷◌, some, none, arith, lookup,
  lookup-remove, eq_refl, eq_of_ne,
}
use otp_relay_backend.Db.{Otp, Reply, done, failed, pending}
use otp_relay_backend.Db.Otps.{get_otp, set_otp_status}
use otp_relay_backend.Db.Otps.Laws.{row}
use otp_relay_backend.Claim.{Manager}
use otp_relay_backend.Claim.Window.{
  claim, claim_loaded, enter_window, open_window, join_window, invalidate, notify_all,
  send_invalidated, fire, payload_envelope, invalidated_envelope, with_db,
}
use otp_relay_backend.Claim.Scenarios.{IsReady, IsLive, first_state, lookup-open_window, sole_claim}

abbrev with_replies : List Reply → Manager → Manager
with_replies rs m = with_db (record m.db { replies = rs }) m

-- The driver answers the lookup of a claim.
claim-answered :
    (m : Manager) (j c : String) (o : Otp) (now : ℕ) (rs : List Reply)
    → m.db.replies ≡ done ∷ rs
    → row j m.db ≡ some o
    → o.status ≡ pending
    → IsLive o now
    → claim c j now m ≡ enter_window c j now (with_replies rs m)
unfolding claim get_otp claim_loaded
claim-answered m j c o now rs answers stored p live = ground arith

module _ (m : Manager) (j : String) (o : Otp) (answers : m.db.replies ≡ done ∷ done ∷ failed ∷ [])
    (stored : row j m.db ≡ some o) (was_pending : o.status ≡ pending)
    (none_open : lookup j m.windows ≡ none) (a b : String) (ne : a ≢ b) (first second : ℕ)
    (live : IsLive o first) (live' : IsLive o second) where
  abbrev loaded : Manager
  loaded = with_replies (done ∷ failed ∷ []) m

  abbrev opened : Manager
  opened = open_window a j first loaded

  abbrev after_dual : Manager
  after_dual = claim b j second (claim a j first m)

  first_opens : claim a j first m ≡ opened
  unfolding enter_window
  first_opens =
      claim-answered m j a o first (done ∷ failed ∷ []) answers stored was_pending live
      ∙ rw (none_open, enter_window)

  second_joins :
      after_dual
      ≡ join_window b j (first_state a j first loaded) (with_replies (failed ∷ []) opened)
  unfolding open_window enter_window
  second_joins = rw first_opens (
      claim-answered opened j b o second (failed ∷ []) refl stored was_pending live'
      ∙ rw (lookup-open_window a j first loaded, enter_window))

  -- Both devices are told of the invalidation, but the row is as before, and no window is open.
  after_dual_lem :
      IsReady after_dual j o
      × (lookup j after_dual.windows ≡ none)
      × (after_dual.sent ≡ (b, invalidated_envelope j) ∷ (a, invalidated_envelope j) ∷ m.sent)
      × (after_dual.window ≡ m.window)
  unfolding join_window invalidate notify_all send_invalidated set_otp_status open_window
  after_dual_lem =
      rw (second_joins, eq_of_ne a b ne, join_window)
        (
          record { answers = refl; stored = stored; is_pending = was_pending },
          lookup-remove j j opened.windows ∙ rw (eq_refl j),
          refl,
          refl,
        )

  -- A dual claim whose write fails is not final: both claimants are told that the OTP is
  -- invalidated, but any device, one of the two included, can claim it again, and gets the payload
  -- after its window.
  pub invalidation_lost :
      (c : String) (third now : ℕ)
      → IsLive o third
      → IsLive o now
      → pos third +ℤ m.window ≤ℤ pos now
      → (fire after_dual.next_timer now (claim c j third after_dual)).sent
        ≡ (c, payload_envelope j o)
          ∷ (b, invalidated_envelope j)
          ∷ (a, invalidated_envelope j)
          ∷ m.sent
  invalidation_lost c third now live_c live_now due =
      let (r, none_open', told, same) = after_dual_lem in
      let (marked, got, closed) =
        (sole_claim r none_open' c third now live_c live_now).0 (rw same due) in
      got ∙ rw told
