-- ===== src/Api/Bearer.antt =====
-- internal/api/middleware.go: bearerToken. A header is a text of characters, as valid UTF-8 is.
use Prim.Native.String.{String, [], ◌∷◌}
use Prim.Native.Char.{code}
use otp_relay_backend.Base.{Option, none, some, eqb, trim_space, if◌then◌else◌}

-- What stands after a prefix, if the text begins with it.
unfoldable pub after_prefix : String → String → Option String
after_prefix [] s = some s
after_prefix (p ∷ ps) [] = none
after_prefix (p ∷ ps) (c ∷ s) =
    let rest = after_prefix ps s in if eqb (code c) (code p) then rest else none

unfoldable pub bearer_token : String → String
unfolding after_prefix trim_space
bearer_token header = elim (after_prefix "Bearer " header) [
  | none ↦ ""
  | some token ↦ trim_space token
]
