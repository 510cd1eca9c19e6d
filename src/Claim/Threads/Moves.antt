-- ===== src/Claim/Threads/Moves.antt =====
-- What one turn of a goroutine can do to one OTP.
use mathlib.Core.Bool.{not}
use otp_relay_backend.Base.{
  ℕ, ◌≡◌, refl, ◌∙◌, inl, inr, String, leb_ℤ, List, [], ◌∷◌, Bool, true, false, Option, none, some,
  ◌||◌, ◌==◌, arith, Bool-cases, Option-cases, lookup, contains, eq_iff, if◌then◌else◌,
}
use otp_relay_backend.Db.{
  Db, Otp, Status, Status-cases, Result, Result-cases, ok, err, not_found, driver_error, claimed,
  invalidated,
}
use otp_relay_backend.Db.Otps.{get_otp, set_otp_status, is_pending}
use otp_relay_backend.Db.Otps.Laws.{
  row, row-get_otp, get_otp-eq-ok, row-set_otp_status, set_otp_status-eq-ok,
  found_of_set_otp_status,
}
use otp_relay_backend.Claim.{ClaimState, Manager}
use otp_relay_backend.Claim.Window.{now_millis, with_db, is_past}
use otp_relay_backend.Claim.Effect.{recipients, View, view}
use otp_relay_backend.Claim.Effect.Views.{view-notify_all, view-get_otp}
use otp_relay_backend.Claim.Threads.{
  Goroutine, claiming, entering, killing, telling, resolving, reloading, marking, handing, finished,
  after_lookup, enter, take_window, after_window, after_reload, after_mark, advance,
}

-- The goroutine stands before the write of `claimed`, or before the sending of the payload.
abbrev pub marks : String → Goroutine → ℕ
marks j (marking winner id o) = if id == j then 1 else 0
marks j _ = 0

abbrev pub hands : String → Goroutine → ℕ
hands j (handing winner id o) = if id == j then 1 else 0
hands j _ = 0

-- The OTP is stored, and not pending any more.
abbrev pub is_settled : Option Otp → Bool
is_settled none = false
is_settled (some o) = not (is_pending o.status)

abbrev pub Settles : View → View → Type 0
Settles v w = is_settled v.row ≡ true → is_settled w.row ≡ true

-- A turn from `g` to `g'`: nothing that counts, but that a settled row stays so; a pending row is
-- read to be marked; it is marked; or the payload is sent.
pub data Move (j : String) (g g' : Goroutine) (v w : View) : Type 0 where
  quiet :
      Settles v w
      → w.recipients ≡ v.recipients
      → hands j g ≡ 0
      → marks j g' ≡ 0
      → hands j g' ≡ 0
      → Move j g g' v w
  reloaded :
      is_settled v.row ≡ false
      → w ≡ v
      → marks j g ≡ 0
      → hands j g ≡ 0
      → marks j g' ≡ 1
      → hands j g' ≡ 0
      → Move j g g' v w
  marked :
      marks j g ≡ 1
      → hands j g ≡ 0
      → marks j g' ≡ 0
      → hands j g' ≡ 1
      → is_settled w.row ≡ true
      → w.recipients ≡ v.recipients
      → Move j g g' v w
  handed :
      (winner : String)
      → marks j g ≡ 0
      → hands j g ≡ 1
      → g' ≡ finished
      → w.row ≡ v.row
      → w.recipients ≡ winner ∷ v.recipients
      → Move j g g' v w

module _ (j : String) where
  -- A turn that leaves the view alone, between goroutines that neither mark nor hand over.
  same_view :
      (g g' : Goroutine) (v w : View)
      → w ≡ v
      → hands j g ≡ 0
      → marks j g' ≡ 0
      → hands j g' ≡ 0
      → Move j g g' v w
  same_view g g' v w e a b c = rw e (quiet (λ s. s) refl a b c)

  set_otp_status-settled :
      (id : String) (st : Status) (by : Option String) (d : Db)
      → is_pending st ≡ false
      → is_settled (row j d) ≡ true
      → is_settled (row j (set_otp_status id st by d).1) ≡ true
  set_otp_status-settled id st by d p s = elim (Option-cases (row j d)) [
    | inl n ↦ absurd (ground arith)
    | inr (o, e) ↦ ground (arith, row-set_otp_status j id st by d)
  ]

  after_lookup-Move :
      (r : Result Otp) (c id : String) (now : ℕ) (m : Manager) (v : View)
      → view j m ≡ v
      → let t = after_lookup r c id now m in Move j (claiming c id) t.0 v (view j t.1)
  unfolding after_lookup recipients
  after_lookup-Move (err not_found) c id now m v e = same_view _ _ _ _ e refl refl refl
  after_lookup-Move (err driver_error) c id now m v e = same_view _ _ _ _ e refl refl refl
  after_lookup-Move (ok o) c id now m v e = elim (Bool-cases (is_past o now)) [
    | inl past ↦ rw (past, after_lookup) (same_view _ _ _ _ e refl refl refl)
    | inr live ↦
        rw (live, after_lookup)
          (elim (Status-cases o.status) [
            | inl p ↦ rw (p, after_lookup) (same_view _ _ _ _ e refl refl refl)
            | inr (inl p) ↦ rw (p, after_lookup) (same_view _ _ _ _ e refl refl refl)
            | inr (inr (inl p)) ↦ rw (p, after_lookup) (same_view _ _ _ _ e refl refl refl)
            | inr (inr (inr p)) ↦ rw (p, after_lookup) (same_view _ _ _ _ e refl refl refl)
          ])
  ]

  enter-Move :
      (c id : String) (now : ℕ) (w : Option ClaimState) (m : Manager)
      → let t = enter c id now w m in Move j (entering c id) t.0 (view j m) (view j t.1)
  unfolding enter
  enter-Move c id now none m = same_view _ _ _ _ refl refl refl refl
  enter-Move c id now (some st) m = elim (Bool-cases (contains st.claimants c)) [
    | inl again ↦ rw (again, enter) (same_view _ _ _ _ refl refl refl refl)
    | inr second ↦ rw (second, enter) (same_view _ _ _ _ refl refl refl refl)
  ]

  after_window-plain :
      (cs : List String) (id : String)
      → (marks j (after_window cs id) ≡ 0) × (hands j (after_window cs id) ≡ 0)
  after_window-plain [] id = (refl, refl)
  after_window-plain (c ∷ []) id = (refl, refl)
  after_window-plain (c ∷ d ∷ cs) id = (refl, refl)

  take_window-Move :
      (id : String) (w : Option ClaimState) (m : Manager)
      → let t = take_window id w m in Move j (resolving id) t.0 (view j m) (view j t.1)
  unfolding take_window
  take_window-Move id none m = same_view _ _ _ _ refl refl refl refl
  take_window-Move id (some st) m =
      let (no_mark, no_hand) = after_window-plain st.claimants id in
      same_view _ _ _ _ refl refl no_mark no_hand

  after_reload-Move :
      (r : Result Otp) (c id : String) (now : ℕ) (m : Manager) (v : View)
      → view j m ≡ v
      → ((o : Otp) → r ≡ ok o → row id m.db ≡ some o)
      → let t = after_reload r c id now m in Move j (reloading c id) t.0 v (view j t.1)
  unfolding after_reload recipients
  after_reload-Move (err e) c id now m v same stored = same_view _ _ _ _ same refl refl refl
  after_reload-Move (ok o) c id now m v same stored =
      elim (Bool-cases (not (is_pending o.status) || leb_ℤ o.expires_at (now_millis now))) [
        | inl late ↦ rw (late, after_reload) (same_view _ _ _ _ same refl refl refl)
        | inr live ↦
            rw (live, after_reload)
              (elim (Bool-cases (id == j)) [
                | inl hit ↦
                    reloaded (ground (arith, eq_iff id j, stored o refl)) (ground arith) refl refl
                      (rw hit) refl
                | inr miss ↦ same_view _ _ _ _ same refl (rw miss) refl
              ])
      ]

  after_mark-Move :
      (c id : String) (o : Otp) (m : Manager)
      → let written = set_otp_status id claimed (some c) m.db in
        let t = after_mark written.0 c id o (with_db written.1 m) in
        Move j (marking c id o) t.0 (view j m) (view j t.1)
  unfolding after_mark recipients
  after_mark-Move c id o m =
      let written = set_otp_status id claimed (some c) m.db in
      let keeps = set_otp_status-settled id claimed (some c) m.db refl in
      elim (Result-cases written.0) [
        | inr (inl e) ↦ rw (e, after_mark) (quiet keeps refl refl refl refl)
        | inr (inr e) ↦ rw (e, after_mark) (quiet keeps refl refl refl refl)
        | inl (u, e) ↦
            rw (e, after_mark)
              (elim (Bool-cases (id == j)) [
                | inr miss ↦ quiet keeps refl refl refl (rw miss)
                | inl hit ↦
                    let (p, found) = found_of_set_otp_status id claimed (some c) m.db e in
                    marked (rw hit) refl refl (rw hit)
                      (ground
                        (arith, eq_iff id j, set_otp_status-eq-ok j id claimed (some c) m.db e))
                      refl
              ])
      ]

  handing-Move :
      (c id : String) (o : Otp) (now : ℕ) (m : Manager)
      → let t = advance (handing c id o) now m in
        Move j (handing c id o) t.0 (view j m) (view j t.1)
  unfolding advance recipients
  handing-Move c id o now m = elim (Bool-cases (id == j)) [
    | inl hit ↦ handed c refl (rw hit) refl refl (ground arith)
    | inr miss ↦ quiet (λ s. s) (ground arith) (rw miss) refl refl
  ]

  pub advance-Move :
      (g : Goroutine) (now : ℕ) (m : Manager)
      → let t = advance g now m in Move j g t.0 (view j m) (view j t.1)
  unfolding advance
  advance-Move (claiming c id) now m =
      after_lookup-Move (get_otp id m.db).0 c id now (with_db (get_otp id m.db).1 m) (view j m)
        (view-get_otp j id m)
  advance-Move (entering c id) now m = enter-Move c id now (lookup id m.windows) m
  advance-Move (killing id cs) now m =
      quiet (set_otp_status-settled id invalidated none m.db refl) refl refl refl refl
  advance-Move (telling id cs) now m = same_view _ _ _ _ (view-notify_all j cs id m) refl refl refl
  advance-Move (resolving id) now m = take_window-Move id (lookup id m.windows) m
  advance-Move (reloading c id) now m =
      after_reload-Move (get_otp id m.db).0 c id now (with_db (get_otp id m.db).1 m) (view j m)
        (view-get_otp j id m) (λ o e. row-get_otp id id m.db ∙ get_otp-eq-ok id m.db o e)
  advance-Move (marking c id o) now m = after_mark-Move c id o m
  advance-Move (handing c id o) now m = handing-Move c id o now m
  advance-Move finished now m = same_view _ _ _ _ refl refl refl refl
