-- ===== src/Db/Otps/Laws.antt =====
-- What the statements over the otps table do to the row of one id.
use mathlib.Core.Option
use otp_relay_backend.Base.{
  ◌≡◌, refl, ◌⊎◌, inl, inr, Option-cases, String, ℤ, List, [], ◌∷◌, Option, none, some, ◌==◌,
  eq_iff, eq_refl, arith, if◌then◌else◌,
}
use otp_relay_backend.Db.{Db, Otp, Status, expired, ok, affected_or_not_found}
use otp_relay_backend.Db.Table.{
  find, affected_of_found, affected_of_missing, find-update, find-append, first_some,
}
use otp_relay_backend.Db.Otps.{
  otp_id, insert_otp, get_otp, with_status, set_otp_status, is_stale, expire, expire_stale_otps,
}

abbrev pub row : String → Db → Option Otp
row j d = find otp_id j d.otps

pub row-get_otp : (j id : String) (d : Db) → row j (get_otp id d).1 ≡ row j d
unfolding get_otp
row-get_otp j id d = ground arith

pub get_otp-eq-ok : (id : String) (d : Db) (o : Otp) → (get_otp id d).0 ≡ ok o → row id d ≡ some o
unfolding get_otp
get_otp-eq-ok id d o h = ground arith

-- A write of a status reaches the row, or the statement has failed.
pub row-set_otp_status :
    (j id : String) (st : Status) (by : Option String) (d : Db)
    → (row j (set_otp_status id st by d).1 ≡ row j d)
      ⊎ (row j (set_otp_status id st by d).1
          ≡ (if id == j then Option.map (with_status st by) (row j d) else row j d))
unfolding set_otp_status
row-set_otp_status j id st by d =
    ground (arith, find-update otp_id j id (with_status st by) d.otps (λ r. refl))

pub set_otp_status-eq-ok :
    (j id : String) (st : Status) (by : Option String) (d : Db)
    → (set_otp_status id st by d).0 ≡ ok tt
    → row j (set_otp_status id st by d).1
      ≡ (if id == j then Option.map (with_status st by) (row j d) else row j d)
unfolding set_otp_status
set_otp_status-eq-ok j id st by d h =
    ground (arith, find-update otp_id j id (with_status st by) d.otps (λ r. refl))

-- A write that is reported as done has found its row.
pub found_of_set_otp_status :
    (id : String) (st : Status) (by : Option String) (d : Db)
    → (set_otp_status id st by d).0 ≡ ok tt
    → (o : Otp) × (row id d ≡ some o)
unfolding set_otp_status affected_or_not_found
found_of_set_otp_status id st by d h = elim (Option-cases (row id d)) [
  | inl n ↦ absurd (ground (arith, affected_of_missing otp_id id d.otps n))
  | inr found ↦ found
]

-- The sweep, on one row.
abbrev pub swept : ℤ → Otp → Otp
swept now o = if is_stale now o then record o { status = expired } else o

pub find-expire :
    (j : String) (now : ℤ) (os : List Otp)
    → find otp_id j (expire now os) ≡ Option.map (swept now) (find otp_id j os)
unfolding find expire
find-expire j now [] = refl
find-expire j now (o ∷ os) = ground (arith, find-expire j now os)

pub row-expire_stale_otps :
    (j : String) (now : ℤ) (d : Db)
    → (row j (expire_stale_otps now d).1 ≡ row j d)
      ⊎ (row j (expire_stale_otps now d).1 ≡ Option.map (swept now) (row j d))
unfolding expire_stale_otps
row-expire_stale_otps j now d = ground (arith, find-expire j now d.otps)

pub row-insert_otp :
    (j : String) (o : Otp) (d : Db)
    → (row j (insert_otp o d).1 ≡ row j d)
      ⊎ ((row o.id d ≡ none)
          × (row j (insert_otp o d).1 ≡ first_some (row j d) (if o.id == j then some o else none)))
unfolding insert_otp
row-insert_otp j o d = ground (arith, find-append otp_id j d.otps o)

-- A write of a status to a known row, when the driver answers.
pub set_otp_status_runs :
    (id : String) (st : Status) (by : Option String) (d : Db) (o : Otp)
    → d.replies ≡ []
    → row id d ≡ some o
    → ((set_otp_status id st by d).0 ≡ ok tt)
      × (row id (set_otp_status id st by d).1 ≡ some (with_status st by o))
      × ((set_otp_status id st by d).1.replies ≡ [])
unfolding set_otp_status
set_otp_status_runs id st by d o answers stored = ground (
  arith,
  find-update otp_id id id (with_status st by) d.otps (λ r. refl),
  eq_refl id,
  affected_of_found otp_id id d.otps o stored,
)

-- The sweep and the insertion, when the driver answers.
pub expire_stale_otps_runs :
    (j : String) (now : ℤ) (d : Db)
    → d.replies ≡ []
    → row j (expire_stale_otps now d).1 ≡ Option.map (swept now) (row j d)
unfolding expire_stale_otps
expire_stale_otps_runs j now d answers = ground (arith, find-expire j now d.otps)

pub insert_otp_runs :
    (j : String) (o : Otp) (d : Db)
    → d.replies ≡ []
    → row j (insert_otp o d).1 ≡ first_some (row j d) (if o.id == j then some o else none)
unfolding insert_otp
insert_otp_runs j o d answers = ground (arith, find-append otp_id j d.otps o, eq_iff o.id j)
