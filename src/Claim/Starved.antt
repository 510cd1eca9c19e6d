-- ===== src/Claim/Starved.antt =====
-- A claim window that is at least as long as an OTP lives, over whole histories.
use otp_relay_backend.Base.{
  ℕ, ◌≤◌, ◌⊎◌, ◌≡◌, refl, sym, ◌∙◌, inl, inr, String, ℤ, pos, ◌+ℤ◌, ◌≤ℤ◌, le→leb_ℤ, leb_ℤ, List, [],
  ◌∷◌, some, none, true, arith, Fits64, wrap64, quot,
}
use otp_relay_backend.Db.{Db, Otp}
use otp_relay_backend.Db.Otps.Laws.{row}
use otp_relay_backend.Push.{PushService}
use otp_relay_backend.Claim.{Manager, new}
use otp_relay_backend.Claim.Window.{now_millis}
use otp_relay_backend.Claim.Step.{Event, ingests, claims, step, run}
use otp_relay_backend.Claim.Motion.{step-Motion, Motion-ttl}
use otp_relay_backend.Claim.Armed.{Occurs, here, there, after}
use otp_relay_backend.Claim.Effect.{
  recipients, View, view, Change, kept, added, killed, lapsed, taken,
}
use otp_relay_backend.Claim.Effect.Events.{Won, IsStored, step-Change}
use otp_relay_backend.Claim.Safety.{Sound, step-Sound, new-Sound}
use otp_relay_backend.Claim.History.{Occurs-after}
use otp_relay_backend.Claim.Overlong.{expires-le}

abbrev pub expiry : ℕ → ℕ → ℤ
expiry stored_at lifetime = wrap64 (now_millis stored_at +ℤ quot (pos lifetime) 1000000)

-- Over the events `all`, no time of expiry is out of the range of int64, and no claim of the OTP is
-- earlier, by the clock, than an ingestion of it.
pub record InOrder (all : List (ℕ × Event)) (j : String) (lifetime : ℕ) : Type 0 where
  pub fits :
      (stored_at : ℕ) (source_id ciphertext iv : String)
      → Occurs (stored_at, ingests j source_id ciphertext iv) all
      → Fits64 (now_millis stored_at +ℤ quot (pos lifetime) 1000000)
  pub follows :
      (stored_at claimed_at : ℕ) (source_id ciphertext iv c : String)
      → Occurs (stored_at, ingests j source_id ciphertext iv) all
      → Occurs (claimed_at, claims c j) all
      → stored_at ≤ claimed_at

-- The ingestion that stored the row.
record Stem (past : List (ℕ × Event)) (j : String) (lifetime : ℕ) (o : Otp) : Type 0 where
  stored_at : ℕ
  source_id : String
  ciphertext : String
  iv : String
  occurs : Occurs (stored_at, ingests j source_id ciphertext iv) past
  expires : o.expires_at ≡ expiry stored_at lifetime

abbrev Stems : List (ℕ × Event) → String → ℕ → View → Type 0
Stems past j lifetime v = (o : Otp) → v.row ≡ some o → Stem past j lifetime o

Occurs-past :
    {e : ℕ × Event} (es past : List (ℕ × Event)) → Occurs e past → Occurs e (after es past)
Occurs-past [] past o = o
Occurs-past (d ∷ es) past o = Occurs-past es (d ∷ past) (there o)

module _ (window : ℤ) (lifetime : ℕ) (j : String) (long : pos lifetime ≤ℤ window) where
  -- Who wins the OTP is too late for it.
  too_late :
      (past : List (ℕ × Event)) (now : ℕ) (c : String) (o : Otp)
      → InOrder past j lifetime
      → Stem past j lifetime o
      → Won past window j now c
      → leb_ℤ o.expires_at (now_millis now) ≡ true
  too_late past now c o order stem won = rw (stem.expires) (
      le→leb_ℤ (expiry stem.stored_at lifetime) (now_millis now) (
        expires-le stem.stored_at lifetime won.opened_at now window
          (order.fits stem.stored_at stem.source_id stem.ciphertext stem.iv stem.occurs)
          (order.follows stem.stored_at won.opened_at stem.source_id stem.ciphertext stem.iv c
            stem.occurs won.occurs)
          long won.waited))

  -- The row changes, but not its time of expiry.
  same-Stems :
      (past : List (ℕ × Event)) (e : ℕ × Event) (v w : View) (o o' : Otp)
      → Stems past j lifetime v
      → v.row ≡ some o
      → w.row ≡ some o'
      → o'.expires_at ≡ o.expires_at
      → Stems (e ∷ past) j lifetime w
  same-Stems past e v w o o' s f g same p at =
      let stem = s o f in
      record {
        stored_at = stem.stored_at;
        source_id = stem.source_id;
        ciphertext = stem.ciphertext;
        iv = stem.iv;
        occurs = there (stem.occurs);
        expires = ground (arith, stem.expires);
      }

  Change-starved :
      (past : List (ℕ × Event)) (now : ℕ) (e : Event) (ttl : ℤ) (v w : View)
      → ttl ≡ pos lifetime
      → InOrder past j lifetime
      → Stems past j lifetime v
      → Change (IsStored j now e ttl) (Won past window j now) now v w
      → Stems ((now, e) ∷ past) j lifetime w × (w.recipients ≡ v.recipients)
  Change-starved past now e ttl v w same_ttl order s (kept f r) =
      (λ p at. same-Stems past (now, e) v w p p s (sym f ∙ at) at refl p at, r)
  Change-starved past now e ttl v w same_ttl order s (added o (src, ct, iv, is, new) g p f r) = (
    λ q at. record {
      stored_at = now;
      source_id = src;
      ciphertext = ct;
      iv = iv;
      occurs = rw (← is) here;
      expires = ground arith;
    },
    r,
  )
  Change-starved past now e ttl v w same_ttl order s (killed o g p f r) =
      (same-Stems past (now, e) v w o _ s g f refl, r)
  Change-starved past now e ttl v w same_ttl order s (lapsed o g p f r) =
      (same-Stems past (now, e) v w o _ s g f refl, r)
  Change-starved past now e ttl v w same_ttl order s (taken o c won g p live f r) =
      absurd (ground (arith, too_late past now c o order (s o g) won))

  InOrder-part :
      (all part : List (ℕ × Event))
      → ((e : ℕ × Event) → Occurs e part → Occurs e all)
      → InOrder all j lifetime
      → InOrder part j lifetime
  InOrder-part all part within order = record {
    fits = λ s src ct iv o. order.fits s src ct iv (within _ o);
    follows = λ s t src ct iv c o o'. order.follows s t src ct iv c (within _ o) (within _ o');
  }

  run-starved :
      (service : PushService) (past es : List (ℕ × Event)) (m : Manager)
      → InOrder (after es past) j lifetime
      → Sound past window j m
      → m.ttl ≡ pos lifetime
      → Stems past j lifetime (view j m)
      → recipients j (run service es m).sent ≡ recipients j m.sent
  unfolding run
  run-starved service past [] m order s ttl stems = refl
  run-starved service past ((now, e) ∷ es) m order s ttl stems =
      let m' = step service (now, e) m in
      let within =
        λ (d : ℕ × Event) (o : Occurs d past). Occurs-past es ((now, e) ∷ past) (there o) in
      let order' = InOrder-part (after es ((now, e) ∷ past)) past within order in
      let (stems', same) =
        Change-starved past now e m.ttl (view j m) (view j m') ttl order' stems
          (step-Change past window j service now e m s.armed) in
      run-starved service ((now, e) ∷ past) es m' order (step-Sound service window j (now, e) m s)
        (Motion-ttl (step-Motion service (now, e) m) ∙ ttl) stems'
      ∙ same

  -- With a claim window at least as long as the time to live, no history of the coordinator sends
  -- the payload of an OTP to any device: with each handler as one step, from a start on a database
  -- that does not hold the OTP, whatever the database answers. The time to live is not negative, the
  -- times of expiry are in the range of int64, and no claim of the OTP is earlier, by the clock,
  -- than an ingestion of it.
  pub never_delivered :
      (service : PushService) (db : Db) (es : List (ℕ × Event))
      → row j db ≡ none
      → InOrder es j lifetime
      → recipients j (run service es (new db window (pos lifetime))).sent ≡ []
  unfolding recipients
  never_delivered service db es unknown order =
      run-starved service [] es (new db window (pos lifetime))
        (InOrder-part es (after es []) (λ d o. from_start d (Occurs-after es [] o)) order)
        (new-Sound service window j db (pos lifetime)) refl (λ o at. absurd (ground (arith, at)))
    where
      from_start : (d : ℕ × Event) → Occurs d es ⊎ Occurs d [] → Occurs d es
      from_start d (inl o) = o
      from_start d (inr o) = elim o [ ]
