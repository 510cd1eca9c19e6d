-- ===== src/Identifiers/Tests.antt =====
-- Identifiers drawn from a source that is not random, and the theorem for it.
use otp_relay_backend.Base.{ℕ, zero, suc, ◌≡◌, ◌<◌, refl, ap, [], ◌∷◌, some, arith, All, length}
use otp_relay_backend.Totp.Decimal.{Bytes}
use otp_relay_backend.Totp.Base64.{IsByte}
use otp_relay_backend.Identifiers.{Random, drawn, new_id, short_id, token}
use otp_relay_backend.Identifiers.Draws.{IsFilling, Outcome, draws}

abbrev fill : ℕ → Bytes
fill zero = []
fill (suc n) = 171 ∷ fill n

abbrev toy_read : Random
toy_read n = some (fill n)

new_id_test : new_id toy_read 2 ≡ drawn (b'a' ∷ b'b' ∷ b'a' ∷ b'b' ∷ [])
unfolding new_id
new_id_test = refl

length-fill : (n : ℕ) → length (fill n) ≡ n
length-fill zero = refl
length-fill (suc n) = ap (λ k. suc k) (length-fill n)

fill-All : (n : ℕ) → All IsByte (fill n)
fill-All zero = tt
fill-All (suc n) = let small : 171 < 256 = omega arith in (small, fill-All n)

toy_read-IsFilling : IsFilling toy_read
toy_read-IsFilling n b e =
    let same : fill n ≡ b = ground arith in rw (← same) (length-fill n, fill-All n)

draws_example :
    Outcome toy_read 2 (new_id toy_read 2)
    × Outcome toy_read 8 (short_id toy_read)
    × Outcome toy_read 32 (token toy_read)
draws_example = draws toy_read 2 toy_read-IsFilling
