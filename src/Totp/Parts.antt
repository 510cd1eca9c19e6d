-- ===== src/Totp/Parts.antt =====
-- What the pieces of `validate` find: the last dot, equal MACs, whole seconds.
use otp_relay_backend.Base.{
  ℕ, ◌^◌, ◌≤◌, ◌<◌, ◌≡◌, refl, ap, ◌⊎◌, inl, inr, ℤ, pos, negsuc, pos_part, neg_part, ◌+ℤ◌, ◌≤ℤ◌,
  ltb_ℤ, true, false, ◌||◌, List, [], ◌∷◌, ◌++◌, none, some, eqb, arith, All, Fits64, Bool-cases,
  Option-cases,
}
use otp_relay_backend.Totp.Decimal.{Bytes}
use otp_relay_backend.Totp.Base64.{decode, value, values, unfold_lines}
use otp_relay_backend.Totp.{unix, split_last, equal_bytes}

abbrev pub HasNoDot : Bytes → Type 0
HasNoDot = All (λ c. eqb c b'.' ≡ false)

split_last-none : (s : Bytes) → HasNoDot s → split_last s ≡ none
unfolding split_last
split_last-none [] h = refl
split_last-none (c ∷ s) (p, h) = ground (arith, split_last-none s h)

pub split_last-append :
    (before after : Bytes)
    → HasNoDot after
    → split_last (before ++ b'.' ∷ after) ≡ some (before, after)
unfolding split_last
split_last-append [] after h = ground (arith, split_last-none after h)
split_last-append (c ∷ before) after h = ground (arith, split_last-append before after h)

pub equal_bytes_refl : (s : Bytes) → equal_bytes s s ≡ true
unfolding equal_bytes
equal_bytes_refl [] = refl
equal_bytes_refl (c ∷ s) = ground (arith, equal_bytes_refl s)

pub eq_of_equal_bytes : (s t : Bytes) → equal_bytes s t ≡ true → s ≡ t
unfolding equal_bytes
eq_of_equal_bytes [] [] e = refl
eq_of_equal_bytes [] (d ∷ t) e = ground arith
eq_of_equal_bytes (c ∷ s) [] e = ground arith
eq_of_equal_bytes (c ∷ s) (d ∷ t) e = ground (arith, eq_of_equal_bytes s t)

-- What the search for the last dot finds.
abbrev pub SplitCase : Bytes → Type 0
SplitCase s =
    ((split_last s ≡ none) × HasNoDot s)
    ⊎ ((before : Bytes) × (after : Bytes) × (split_last s ≡ some (before, after))
        × (s ≡ before ++ b'.' ∷ after)
        × HasNoDot after)

pub split_last-cases : (s : Bytes) → SplitCase s
unfolding split_last
split_last-cases [] = inl (refl, tt)
split_last-cases (c ∷ s) = elim (split_last-cases s) [
  | inl (n, plain) ↦ elim (Bool-cases (eqb c b'.')) [
    | inl dot ↦ inr ([], s, rw (n, dot, split_last), ap (λ x. x ∷ s) (ground arith), plain)
    | inr other ↦ inl (rw (n, other, split_last), (other, plain))
  ]
  | inr (before, after, f, same, plain) ↦
      inr (c ∷ before, after, rw (f, split_last), ap (λ x. c ∷ x) same, plain)
]

value-dot : (c v : ℕ) → value c ≡ some v → eqb c b'.' ≡ false
unfolding value
value-dot c v e = ground arith

value-end : (c : ℕ) → (eqb c 10 || eqb c 13) ≡ true → eqb c b'.' ≡ false
value-end c e = ground arith

-- A text that decodes has no dot.
values-HasNoDot : (s : Bytes) (vs : List ℕ) → values (unfold_lines s) ≡ some vs → HasNoDot s
unfolding values unfold_lines
values-HasNoDot [] vs e = tt
values-HasNoDot (c ∷ s) vs e = elim (Bool-cases (eqb c 10 || eqb c 13)) [
  | inl skip ↦ (value-end c skip, values-HasNoDot s vs (ground arith))
  | inr kept ↦ elim (Option-cases (value c)) [
    | inl n ↦ absurd (ground arith)
    | inr (v, f) ↦ elim (Option-cases (values (unfold_lines s))) [
      | inl n ↦ absurd (ground arith)
      | inr (ws, g) ↦ (value-dot c v f, values-HasNoDot s ws g)
    ]
  ]
]

pub decode-HasNoDot : (s bytes : Bytes) → decode s ≡ some bytes → HasNoDot s
unfolding decode
decode-HasNoDot s bytes e = elim (Option-cases (values (unfold_lines s))) [
  | inl n ↦ absurd (ground arith)
  | inr (vs, f) ↦ values-HasNoDot s vs f
]

pub unix-Fits64 : (z : ℤ) → pos_part z < 2 ^ 64 → neg_part z ≤ 2 ^ 64 → Fits64 (unix z)
unfolding unix
unix-Fits64 (pos n) lt le = record { above = omega arith; below = omega arith }
unix-Fits64 (negsuc n) lt le = record { above = omega arith; below = omega arith }

pub unix_mono : (y z : ℤ) → y ≤ℤ z → ltb_ℤ (unix z) (unix y) ≡ false
unfolding unix
unix_mono (pos m) (pos n) le = ground arith
unix_mono (pos m) (negsuc n) le = ground arith
unix_mono (negsuc m) (pos n) le = ground arith
unix_mono (negsuc m) (negsuc n) le = ground arith

-- A second later the clock shows another second.
pub unix_later : (y z : ℤ) → y +ℤ pos (10 ^ 9) ≤ℤ z → ltb_ℤ (unix y) (unix z) ≡ true
unfolding unix ◌+ℤ◌
unix_later (pos m) (pos n) le = ground arith
unix_later (pos m) (negsuc n) le = ground arith
unix_later (negsuc m) (pos n) le = ground arith
unix_later (negsuc m) (negsuc n) le = ground arith
