-- ===== src/Sequence.antt =====
-- ingest/src/consumer/sequence.py: one product's trade ids, and what each says of the feed.
-- Trade ids and totals are Python ints; the exchange's ids are not negative.
pub mod Verdict
pub mod Accounting
pub mod Loss
pub mod Interleaving
mod Tests
use crypto_market_platform.Base.{
  ℕ, ◌+◌, ◌-◌, String, Bool, true, false, Option, none, some, List, [], ◌∷◌, leb, ltb,
  if◌then◌else◌,
}
use crypto_market_platform.Base.Dict
use crypto_market_platform.Base.Dict.{Dict}

pub data Continuity : Type 0 where
  first in_order gap duplicate : Continuity

pub record Observation : Type 0 where
  pub product_id : String
  pub value : ℕ
  pub continuity : Continuity
  pub missing : ℕ

abbrev is_gap : Continuity → Bool
is_gap gap = true
is_gap _ = false

unfoldable pub is_loss : Observation → Bool
is_loss o = is_gap o.continuity

pub record ContinuityTracker : Type 0 where
  pub last : Dict ℕ
  pub gaps_total : ℕ
  pub messages_lost_total : ℕ
  pub duplicates_total : ℕ

-- `ContinuityTracker()`
abbrev pub new_tracker : ContinuityTracker
new_tracker = record { last = []; gaps_total = 0; messages_lost_total = 0; duplicates_total = 0 }

abbrev pub verdict : String → ℕ → Continuity → ℕ → Observation
verdict p v c m = record { product_id = p; value = v; continuity = c; missing = m }

-- The part of `observe` behind `if last is None`.
unfoldable pub observe_after : ContinuityTracker → String → ℕ → ℕ → ContinuityTracker × Observation
observe_after t p last value =
    if leb value last
    then (record t { duplicates_total = t.duplicates_total + 1 }, verdict p value duplicate 0)
    else (let missing = value - last - 1 in
        let t' = record t { last = Dict.put p value t.last } in
        if ltb 0 missing
        then (
          record t' {
            gaps_total = t.gaps_total + 1;
            messages_lost_total = t.messages_lost_total + missing;
          },
          verdict p value gap missing,
        )
        else (t', verdict p value in_order 0))

unfoldable pub observe : ContinuityTracker → String → ℕ → ContinuityTracker × Observation
unfolding observe_after
observe t p value = elim (Dict.get p t.last) [
  | none ↦ (record t { last = Dict.put p value t.last }, verdict p value first 0)
  | some last ↦ observe_after t p last value
]

unfoldable pub reset : ContinuityTracker → String → ContinuityTracker
reset t p = record t { last = Dict.pop p t.last }

unfoldable pub reset_all : ContinuityTracker → ContinuityTracker
reset_all t = record t { last = [] }

unfoldable pub last_seen : ContinuityTracker → String → Option ℕ
last_seen t p = Dict.get p t.last

-- A stream of trades, one call of `observe` for each.
unfoldable pub observe_all :
    ContinuityTracker → List (String × ℕ) → ContinuityTracker × List Observation
observe_all t [] = (t, [])
observe_all t ((p, v) ∷ rest) =
    let (t', o) = observe t p v in let (t'', os) = observe_all t' rest in (t'', o ∷ os)
