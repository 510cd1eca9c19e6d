-- ===== src/Claim/Threads/Fair.antt =====
-- What a turn of a goroutine of internal/claim/claim.go does to the devices that can get a payload.
use mathlib.Core.Bool.{not}
use otp_relay_backend.Base.{
  ℕ, ◌≡◌, refl, sym, ap, ◌∙◌, inl, inr, String, leb_ℤ, List, [], ◌∷◌, true, Option, none, some,
  ◌||◌, ◌==◌, arith, Bool-cases, lookup, remove, lookup-insert, lookup-remove, contains, All,
  eq_iff, if◌then◌else◌,
}
use otp_relay_backend.Db.{Otp, Status-cases, Result, ok, err, not_found, driver_error}
use otp_relay_backend.Db.Otps.{is_pending}
use otp_relay_backend.Claim.{ClaimState, Manager}
use otp_relay_backend.Claim.Window.{now_millis, is_past, open_window, notify_all, send_invalidated}
use otp_relay_backend.Claim.Effect.{recipients}
use otp_relay_backend.Claim.Effect.Views.{view-notify_all}
use otp_relay_backend.Claim.Threads.{
  Goroutine, claiming, entering, killing, telling, resolving, reloading, marking, handing, finished,
  Turn, after_lookup, enter, take_window, after_window, after_reload, after_mark, advance,
}

-- The device that a goroutine can still make a recipient of the OTP's payload.
abbrev pub holder : String → Goroutine → List String
holder j (claiming c id) = if id == j then c ∷ [] else []
holder j (entering c id) = if id == j then c ∷ [] else []
holder j (reloading c id) = if id == j then c ∷ [] else []
holder j (marking c id o) = if id == j then c ∷ [] else []
holder j (handing c id o) = if id == j then c ∷ [] else []
holder j _ = []

module _ (P : String → Type 0) (j : String) where
  -- Every device in the OTP's window, and every recipient of its payload, is one of `P`.
  pub record IsFair (m : Manager) : Type 0 where
    pub inside : (st : ClaimState) → lookup j m.windows ≡ some st → All P st.claimants
    pub reached : All P (recipients j m.sent)

  abbrev pub IsFairTurn : Turn → Type 0
  IsFairTurn t = All P (holder j t.0) × IsFair t.1

  -- The windows and the recipients are all that counts.
  pub IsFair-same :
      (m m' : Manager)
      → m'.windows ≡ m.windows
      → recipients j m'.sent ≡ recipients j m.sent
      → IsFair m
      → IsFair m'
  IsFair-same m m' w e f = record {
    inside = λ st look. f.inside st (ground (arith, look, w));
    reached = rw e (f.reached);
  }

  after_lookup-IsFair :
      (r : Result Otp) (c id : String) (now : ℕ) (m : Manager)
      → All P (holder j (claiming c id))
      → IsFair m
      → IsFairTurn (after_lookup r c id now m)
  unfolding after_lookup recipients
  after_lookup-IsFair (err not_found) c id now m a f = (tt, IsFair-same m _ refl refl f)
  after_lookup-IsFair (err driver_error) c id now m a f = (tt, IsFair-same m _ refl refl f)
  after_lookup-IsFair (ok o) c id now m a f = elim (Bool-cases (is_past o now)) [
    | inl past ↦ rw (past, after_lookup) (tt, IsFair-same m _ refl refl f)
    | inr live ↦
        rw (live, after_lookup)
          (elim (Status-cases o.status) [
            | inl p ↦ rw (p, after_lookup) (a, f)
            | inr (inl p) ↦ rw (p, after_lookup) (tt, IsFair-same m _ refl refl f)
            | inr (inr (inl p)) ↦ rw (p, after_lookup) (tt, IsFair-same m _ refl refl f)
            | inr (inr (inr p)) ↦ rw (p, after_lookup) (a, f)
          ])
  ]

  IsFair-open_window :
      (c id : String) (now : ℕ) (m : Manager)
      → All P (holder j (entering c id))
      → IsFair m
      → IsFair (open_window c id now m)
  unfolding open_window
  IsFair-open_window c id now m a f = record {
    inside = λ st look.
        let opened : ClaimState = record { claimants = c ∷ []; timer = m.next_timer } in
        let found = lookup-insert id j opened m.windows in
        elim (Bool-cases (id == j)) [
          | inl hit ↦
              let same : c ∷ [] ≡ st.claimants = ground (arith, look, found) in
              let mine : All P (c ∷ []) = rw hit at a in rw (← same) mine
          | inr miss ↦ f.inside st (ground (arith, look, found))
        ];
    reached = f.reached;
  }

  IsFair-remove :
      (id : String) (m m' : Manager)
      → m'.windows ≡ remove id m.windows
      → recipients j m'.sent ≡ recipients j m.sent
      → IsFair m
      → IsFair m'
  IsFair-remove id m m' w e f = record {
    inside = λ st look.
        let stored : lookup j (remove id m.windows) ≡ some st = ap (lookup j) (sym w) ∙ look in
        f.inside st (ground (arith, stored, lookup-remove id j m.windows));
    reached = rw e (f.reached);
  }

  enter-IsFair :
      (c id : String) (now : ℕ) (w : Option ClaimState) (m : Manager)
      → All P (holder j (entering c id))
      → IsFair m
      → IsFairTurn (enter c id now w m)
  unfolding enter
  enter-IsFair c id now none m a f = (tt, IsFair-open_window c id now m a f)
  enter-IsFair c id now (some st) m a f = elim (Bool-cases (contains st.claimants c)) [
    | inl again ↦ rw (again, enter) (tt, f)
    | inr second ↦ rw (second, enter) (tt, IsFair-remove id m _ refl refl f)
  ]

  holder-after_window :
      (cs : List String) (id : String)
      → ((id == j) ≡ true → All P cs)
      → All P (holder j (after_window cs id))
  holder-after_window [] id a = tt
  holder-after_window (c ∷ []) id a = elim (Bool-cases (id == j)) [
    | inl hit ↦ rw hit (a hit)
    | inr miss ↦ rw miss tt
  ]
  holder-after_window (c ∷ d ∷ cs) id a = tt

  take_window-IsFair :
      (id : String) (w : Option ClaimState) (m : Manager)
      → lookup id m.windows ≡ w
      → IsFair m
      → IsFairTurn (take_window id w m)
  unfolding take_window
  take_window-IsFair id none m e f = (tt, f)
  take_window-IsFair id (some st) m e f = (
    holder-after_window st.claimants id (λ hit. f.inside st (ground (arith, eq_iff id j, e))),
    IsFair-remove id m _ refl refl f,
  )

  after_reload-IsFair :
      (r : Result Otp) (c id : String) (now : ℕ) (m : Manager)
      → All P (holder j (reloading c id))
      → IsFair m
      → IsFairTurn (after_reload r c id now m)
  unfolding after_reload recipients
  after_reload-IsFair (err e) c id now m a f = (tt, IsFair-same m _ refl refl f)
  after_reload-IsFair (ok o) c id now m a f =
      elim (Bool-cases (not (is_pending o.status) || leb_ℤ o.expires_at (now_millis now))) [
        | inl late ↦ rw (late, after_reload) (tt, IsFair-same m _ refl refl f)
        | inr live ↦ rw (live, after_reload) (a, f)
      ]

  after_mark-IsFair :
      (r : Result (Unit {0})) (c id : String) (o : Otp) (m : Manager)
      → All P (holder j (marking c id o))
      → IsFair m
      → IsFairTurn (after_mark r c id o m)
  unfolding after_mark recipients
  after_mark-IsFair (err e) c id o m a f = (tt, IsFair-same m _ refl refl f)
  after_mark-IsFair (ok u) c id o m a f = (a, f)

  handing-IsFair :
      (c id : String) (o : Otp) (now : ℕ) (m : Manager)
      → All P (holder j (handing c id o))
      → IsFair m
      → IsFairTurn (advance (handing c id o) now m)
  unfolding advance recipients
  handing-IsFair c id o now m a f = elim (Bool-cases (id == j)) [
    | inl hit ↦ (tt, record { inside = f.inside; reached = rw hit ((rw hit at a).0, f.reached) })
    | inr miss ↦ (tt, IsFair-same m _ refl (rw miss) f)
  ]

  windows-notify_all :
      (cs : List String) (id : String) (m : Manager) → (notify_all cs id m).windows ≡ m.windows
  unfolding notify_all send_invalidated
  windows-notify_all [] id m = refl
  windows-notify_all (c ∷ cs) id m = windows-notify_all cs id (send_invalidated c id m)

  pub advance-IsFair :
      (g : Goroutine) (now : ℕ) (m : Manager)
      → All P (holder j g)
      → IsFair m
      → IsFairTurn (advance g now m)
  unfolding advance
  advance-IsFair (claiming c id) now m a f =
      after_lookup-IsFair _ c id now _ a (IsFair-same m _ refl refl f)
  advance-IsFair (entering c id) now m a f = enter-IsFair c id now _ m a f
  advance-IsFair (killing id cs) now m a f = (tt, IsFair-same m _ refl refl f)
  advance-IsFair (telling id cs) now m a f = (
    tt,
    IsFair-same m _ (windows-notify_all cs id m)
        (ap (λ v. v.recipients) (view-notify_all j cs id m)) f,
  )
  advance-IsFair (resolving id) now m a f = take_window-IsFair id _ m refl f
  advance-IsFair (reloading c id) now m a f =
      after_reload-IsFair _ c id now _ a (IsFair-same m _ refl refl f)
  advance-IsFair (marking c id o) now m a f =
      after_mark-IsFair _ c id o _ a (IsFair-same m _ refl refl f)
  advance-IsFair (handing c id o) now m a f = handing-IsFair c id o now m a f
  advance-IsFair finished now m a f = (tt, f)
