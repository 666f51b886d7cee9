-- ===== src/Sequence/Verdict.antt =====
-- sequence.py, `observe` and the resets: what each call answers and what it changes.
use crypto_market_platform.Base.{
  ℕ, ◌+◌, ◌≤◌, ◌<◌, ◌≡◌, ◌⊎◌, String, Option, none, some, arith, eq_iff, str_eq, ltb, if◌then◌else◌,
}
use crypto_market_platform.Base.Dict
use crypto_market_platform.Base.Dict.{get-put, get-pop, str_eq_refl}
use crypto_market_platform.Sequence.{
  first, in_order, gap, duplicate, Observation, ContinuityTracker, verdict, observe, reset,
  last_seen,
}

-- What `observe` says of `v` over the baseline `l`: a duplicate at or below it, the next value
-- just above it, and a gap beyond that, with the number of ids in between.
abbrev pub Classified : ℕ → ℕ → Observation → Type 0
Classified l v o =
    ((v ≤ l) × (o.continuity ≡ duplicate) × (o.missing ≡ 0))
    ⊎ ((v ≡ l + 1) × (o.continuity ≡ in_order) × (o.missing ≡ 0))
    ⊎ ((0 < o.missing) × (v ≡ l + 1 + o.missing) × (o.continuity ≡ gap))

-- The highest value seen once `v` has been seen too.
abbrev pub high_water : Option ℕ → ℕ → ℕ
high_water none v = v
high_water (some l) v = if ltb l v then v else l

module _ (t : ContinuityTracker) (p : String) where
  -- Over a baseline, `observe` answers duplicate at or below it, in_order just above it, and gap
  -- beyond that with exactly the number of ids in between.
  pub observe-Classified : (l v : ℕ) → last_seen t p ≡ some l → Classified l v (observe t p v).1
  unfolding last_seen observe
  observe-Classified l v h = ground arith

  -- The baseline of the product only rises: it becomes the larger of the old one and the value,
  -- and the baselines of all other products stay.
  pub last_seen-observe :
      (v : ℕ) (q : String)
      → last_seen (observe t p v).0 q
        ≡ (if str_eq p q then some (high_water (last_seen t p) v) else last_seen t q)
  unfolding last_seen observe
  last_seen-observe v q = ground (arith, eq_iff p q, get-put p q v t.last)

  -- After a reset of the product its next value is a new baseline, whatever it is: it is no gap,
  -- and no total changes.
  pub observe-reset :
      (v : ℕ)
      → let (t', o) = observe (reset t p) p v in
        (o ≡ verdict p v first 0)
        × (last_seen t' p ≡ some v)
        × (t'.gaps_total ≡ t.gaps_total)
        × (t'.messages_lost_total ≡ t.messages_lost_total)
        × (t'.duplicates_total ≡ t.duplicates_total)
  unfolding reset last_seen observe
  observe-reset v =
      ground (arith, get-pop p p t.last, str_eq_refl p, get-put p p v (Dict.pop p t.last))
