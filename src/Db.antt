-- ===== src/Db.antt =====
-- internal/db/db.go: the rows of the three tables, the connection, and how a statement can end.
-- A table is the list of its rows in the order of insertion. The SQL statements are translated to
-- operations on these lists in the children; SQLite itself is not modelled.
pub mod Table
pub mod Otps
pub mod Devices
pub mod Invites
use otp_relay_backend.Base.{
  ℕ, ◌≡◌, refl, ◌⊎◌, inl, inr, String, Bool, ℤ, List, [], ◌∷◌, Option, eqb, if◌then◌else◌,
}

-- The `status` column. The schema's CHECK admits these four texts only.
pub data Status : Type 0 where
  pending claimed invalidated expired : Status

pub Status-cases : (s : Status) → (s ≡ pending) ⊎ (s ≡ claimed) ⊎ (s ≡ invalidated) ⊎ (s ≡ expired)
Status-cases pending = inl refl
Status-cases claimed = inr (inl refl)
Status-cases invalidated = inr (inr (inl refl))
Status-cases expired = inr (inr (inr refl))

pub record Otp : Type 0 where
  pub id : String
  pub ciphertext : String
  pub iv : String
  pub source_id : String
  pub created_at : ℤ
  pub expires_at : ℤ
  pub claimed_by : Option String
  pub status : Status

pub record Device : Type 0 where
  pub id : String
  pub name : String
  pub type : String
  pub push_sub : Option String
  pub device_token : String
  pub created_at : ℤ
  pub revoked : Bool

pub record InviteToken : Type 0 where
  pub token : String
  pub created_at : ℤ
  pub expires_at : ℤ
  pub used : Bool

-- How the driver answers a statement: it runs; it fails and changes nothing; it runs, but the
-- number of rows that it touched cannot be read.
pub data Reply : Type 0 where
  done failed uncounted : Reply

-- The connection: the tables, and the driver's answers to the statements to come. A statement past
-- the end of that list runs.
pub record Db : Type 0 where
  pub otps : List Otp
  pub devices : List Device
  pub invites : List InviteToken
  pub replies : List Reply

-- `ErrNotFound`, or any other error.
pub data DbError : Type 0 where
  not_found driver_error : DbError

pub data Result {ℓ} (A : Type ℓ) : Type ℓ where
  ok : A → Result A
  err : DbError → Result A

pub Result-cases {ℓ} :
    {A : Type ℓ} (r : Result A)
    → ((a : A) × (r ≡ ok a)) ⊎ (r ≡ err not_found) ⊎ (r ≡ err driver_error)
Result-cases (ok a) = inl (a, refl)
Result-cases (err not_found) = inr (inl refl)
Result-cases (err driver_error) = inr (inr refl)

unfoldable pub next_reply : List Reply → Reply
next_reply [] = done
next_reply (r ∷ rs) = r

unfoldable pub later_replies : List Reply → List Reply
later_replies [] = []
later_replies (r ∷ rs) = rs

-- `affectedOrNotFound`, of a statement whose row count can be read.
unfoldable pub affected_or_not_found : ℕ → Result (Unit {0})
affected_or_not_found n = if eqb n 0 then err not_found else ok tt
