-- ===== src/Db/Table.antt =====
-- Tables as lists of rows with a text as primary key: the lookups and updates of the statements.
use mathlib.Core.Option
use otp_relay_backend.Base.{
  ℕ, suc, ◌<◌, ◌≡◌, refl, String, List, [], ◌∷◌, ◌++◌, Option, none, some, ◌==◌, arith,
  if◌then◌else◌, eq_iff, All, Bool-cases, inl, inr,
}

abbrev pub first_some {ℓ} : {A : Type ℓ} → Option A → Option A → Option A
first_some none b = b
first_some (some a) b = some a

module _ {ℓ} {R : Type ℓ} (key : R → String) where
  -- `SELECT … WHERE key = k`, the first row.
  unfoldable pub find : String → List R → Option R
  find k [] = none
  find k (r ∷ rs) = if key r == k then some r else find k rs

  -- `UPDATE … WHERE key = k`.
  unfoldable pub update : String → (R → R) → List R → List R
  update k f [] = []
  update k f (r ∷ rs) = (if key r == k then f r else r) ∷ update k f rs

  -- The rows that such a statement touches.
  unfoldable pub affected : String → List R → ℕ
  affected k [] = 0
  affected k (r ∷ rs) = let n = affected k rs in if key r == k then suc n else n

  pub find-update :
      (j k : String) (f : R → R) (rs : List R)
      → ((r : R) → key (f r) ≡ key r)
      → find j (update k f rs) ≡ (if k == j then Option.map f (find j rs) else find j rs)
  unfolding find update
  find-update j k f [] keeps = ground arith
  find-update j k f (r ∷ rs) keeps =
      ground
        (arith, keeps r, eq_iff (key r) k, eq_iff (key r) j, eq_iff k j, find-update j k f rs keeps)

  pub affected_of_found :
      (k : String) (rs : List R) (r : R) → find k rs ≡ some r → 0 < affected k rs
  unfolding find affected
  affected_of_found k [] r h = ground arith
  affected_of_found k (x ∷ rs) r h = ground (arith, affected_of_found k rs r)

  pub affected_of_missing : (k : String) (rs : List R) → find k rs ≡ none → affected k rs ≡ 0
  unfolding find affected
  affected_of_missing k [] h = refl
  affected_of_missing k (r ∷ rs) h = ground (arith, affected_of_missing k rs)

  pub find-append :
      (k : String) (rs : List R) (x : R)
      → find k (rs ++ x ∷ []) ≡ first_some (find k rs) (if key x == k then some x else none)
  unfolding find
  find-append k [] x = refl
  find-append k (r ∷ rs) x = ground (arith, find-append k rs x)

  pub key-find : (k : String) (rs : List R) (r : R) → find k rs ≡ some r → key r ≡ k
  unfolding find
  key-find k [] r h = ground arith
  key-find k (x ∷ rs) r h = ground (arith, eq_iff (key x) k, key-find k rs r)

  pub find-All {κ} :
      (P : R → Type κ) (k : String) (rs : List R) (r : R) → All P rs → find k rs ≡ some r → P r
  unfolding find
  find-All P k [] r a e = ground arith
  find-All P k (x ∷ rs) r (p, ps) e = elim (Bool-cases (key x == k)) [
    | inl hit ↦ let same : x ≡ r = ground arith in rw same at p
    | inr miss ↦ find-All P k rs r ps (ground arith)
  ]

  pub update-All {κ} :
      (P : R → Type κ) (k : String) (f : R → R) (rs : List R)
      → ((r : R) → P r → P (f r))
      → All P rs
      → All P (update k f rs)
  unfolding update
  update-All P k f [] keeps a = tt
  update-All P k f (r ∷ rs) keeps (p, ps) = elim (Bool-cases (key r == k)) [
    | inl hit ↦ rw (hit, update) (keeps r p, update-All P k f rs keeps ps)
    | inr miss ↦ rw (miss, update) (p, update-All P k f rs keeps ps)
  ]

-- A lookup by one key, past an update by another.
pub find-update_by {ℓ} :
    {R : Type ℓ} (key other : R → String) (j k : String) (f : R → R) (rs : List R)
    → ((r : R) → key (f r) ≡ key r)
    → find key j (update other k f rs)
      ≡ Option.map (λ r. if other r == k then f r else r) (find key j rs)
unfolding find update
find-update_by key other j k f [] keeps = refl
find-update_by key other j k f (r ∷ rs) keeps =
    ground (arith, keeps r, find-update_by key other j k f rs keeps)
