-- ===== src/Sequence/Accounting.antt =====
-- sequence.py over a whole stream: the totals of the tracker against the verdicts it gave.
use crypto_market_platform.Base.{
  ℕ, ◌+◌, ◌≡◌, String, Bool, true, false, ◌&&◌, ◌||◌, some, List, [], ◌∷◌, arith, eq_iff, str_eq,
  length, if◌then◌else◌,
}
use crypto_market_platform.Base.Dict.{get-put}
use crypto_market_platform.Sequence.{
  Continuity, first, in_order, gap, duplicate, Observation, ContinuityTracker, observe, observe_all,
  last_seen,
}

abbrev pub is : Continuity → Continuity → Bool
is first first = true
is in_order in_order = true
is gap gap = true
is duplicate duplicate = true
is _ _ = false

-- How many observations satisfy a test, and what those that do count as missing.
abbrev pub count : (Observation → Bool) → List Observation → ℕ
count test [] = 0
count test (o ∷ os) = (if test o then 1 else 0) + count test os

abbrev pub sum_missing : (Observation → Bool) → List Observation → ℕ
sum_missing test [] = 0
sum_missing test (o ∷ os) = (if test o then o.missing else 0) + sum_missing test os

abbrev pub verdict_is : Continuity → Observation → Bool
verdict_is c o = is o.continuity c

-- The observations of a product that move its baseline: the next trade, or one past a gap.
abbrev pub advances : String → Observation → Bool
advances p o = str_eq o.product_id p && (is o.continuity in_order || is o.continuity gap)

abbrev pub of_product : String → Observation → Bool
of_product p o = str_eq o.product_id p

pub record Totals (t t' : ContinuityTracker) (os : List Observation) : Type 0 where
  pub gaps : t'.gaps_total ≡ t.gaps_total + count (verdict_is gap) os
  pub lost : t'.messages_lost_total ≡ t.messages_lost_total + sum_missing (λ o. true) os
  pub duplicates : t'.duplicates_total ≡ t.duplicates_total + count (verdict_is duplicate) os

observe-Totals :
    (t : ContinuityTracker) (p : String) (v : ℕ)
    → Totals t (observe t p v).0 ((observe t p v).1 ∷ [])
unfolding observe
observe-Totals t p v = ground arith

-- Over any stream the tracker's totals grow by what its verdicts say, and by nothing else.
pub observe_all-Totals :
    (ms : List (String × ℕ)) (t : ContinuityTracker)
    → let (t', os) = observe_all t ms in Totals t t' os × (length os ≡ length ms)
unfolding observe_all
observe_all-Totals [] t = ground arith
observe_all-Totals ((p, v) ∷ ms) t =
    ground (arith, observe-Totals t p v, observe_all-Totals ms (observe t p v).0)

-- One observation moves a baseline by the trade itself and by the ones that it counts as lost.
observe_span :
    (t : ContinuityTracker) (q : String) (v : ℕ) (p : String) (l : ℕ)
    → last_seen t p ≡ some l
    → let (t', o) = observe t q v in
      last_seen t' p
      ≡ some (l + (count (advances p) (o ∷ []) + sum_missing (of_product p) (o ∷ [])))
unfolding last_seen observe
observe_span t q v p l h = ground (arith, get-put q p v t.last, eq_iff q p)

-- From a baseline `l` a product's stream ends at `l`, plus the trades that advanced it, plus the
-- trades that its verdicts count as missing: each id above `l` is paid for once.
pub observe_all_span :
    (ms : List (String × ℕ)) (t : ContinuityTracker) (p : String) (l : ℕ)
    → last_seen t p ≡ some l
    → let (t', os) = observe_all t ms in
      last_seen t' p ≡ some (l + (count (advances p) os + sum_missing (of_product p) os))
unfolding observe_all
observe_all_span [] t p l h = ground arith
observe_all_span ((q, v) ∷ ms) t p l h =
    let (t', o) = observe t q v in
    let step = l + (count (advances p) (o ∷ []) + sum_missing (of_product p) (o ∷ [])) in
    ground (arith, observe_all_span ms t' p step (observe_span t q v p l h))
