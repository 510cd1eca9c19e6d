-- ===== src/Base/Maps.antt =====
-- Go's `map[string]V` as an association list in which a stored key stands at the front.
use Prim.Native.String.{String}
use mathlib.Core.Path.{◌≡◌}
use mathlib.Core.List.{List, [], ◌∷◌}
use mathlib.Core.Option.{Option, none, some}
use native.Mathlib.Omega.{arith}
use text.Mathlib.Text.{◌==◌}
use text.Mathlib.TextEquality.{eq_iff}
use otp_relay_backend.Base.Tests.{if◌then◌else◌}

-- `delete(m, key)`.
unfoldable pub remove {ℓ} : {V : Type ℓ} → String → List (String × V) → List (String × V)
remove key [] = []
remove key (entry ∷ rest) =
    let kept = remove key rest in if entry.0 == key then kept else entry ∷ kept

-- `m[key] = value`.
unfoldable pub insert {ℓ} : {V : Type ℓ} → String → V → List (String × V) → List (String × V)
unfolding remove
insert key value entries = (key, value) ∷ remove key entries

-- `m[key]`, with the flag for a key that is there.
unfoldable pub lookup {ℓ} : {V : Type ℓ} → String → List (String × V) → Option V
lookup key [] = none
lookup key (entry ∷ rest) = if entry.0 == key then some entry.1 else lookup key rest

module _ {ℓ} {V : Type ℓ} (gone other : String) where
  pub lookup-remove :
      (entries : List (String × V))
      → lookup other (remove gone entries) ≡ (if gone == other then none else lookup other entries)
  unfolding remove lookup
  lookup-remove [] = ground arith
  lookup-remove (entry ∷ rest) =
      ground
        (arith, lookup-remove rest, eq_iff entry.0 gone, eq_iff gone other, eq_iff entry.0 other)

  pub lookup-insert :
      (value : V) (entries : List (String × V))
      → lookup other (insert gone value entries)
        ≡ (if gone == other then some value else lookup other entries)
  unfolding insert lookup
  lookup-insert value entries = ground (arith, lookup-remove entries)
