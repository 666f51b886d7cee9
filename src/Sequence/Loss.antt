-- ===== src/Sequence/Loss.antt =====
-- sequence.py as a detector of loss: what a gap covers was missed, and what no gap covers arrived.
use crypto_market_platform.Base.{
  ℕ, ◌+◌, ◌≤◌, ◌<◌, ◌≡◌, ◌⊎◌, inl, inr, String, some, List, [], ◌∷◌, arith, eq_iff, str_eq,
  if◌then◌else◌, leb, leb→le, Bool-cases, true, Bool, ◌&&◌,
}
use crypto_market_platform.Sequence.{
  gap, Observation, ContinuityTracker, observe, observe_all, last_seen,
}
use crypto_market_platform.Sequence.Verdict.{high_water, last_seen-observe}
use crypto_market_platform.Sequence.Accounting.{is, count, sum_missing, of_product}

-- The trade `i` of the product is among the messages.
abbrev pub Received : String → ℕ → List (String × ℕ) → Type 0
Received p i [] = ⊥
Received p i ((q, v) ∷ ms) = ((q ≡ p) × (v ≡ i)) ⊎ Received p i ms

-- The trade `i` is one of those that an observation of a gap counts as missing.
abbrev pub Covers : String → ℕ → Observation → Type 0
Covers p i o = (o.product_id ≡ p) × (o.continuity ≡ gap) × (o.value ≤ i + o.missing) × (i < o.value)

abbrev pub Reported : String → ℕ → List Observation → Type 0
Reported p i [] = ⊥
Reported p i (o ∷ os) = Covers p i o ⊎ Reported p i os

-- Every id that one observation passes over is the observed trade, or is reported.
observe_passes :
    (t : ContinuityTracker) (q : String) (v : ℕ) (p : String) (l i : ℕ)
    → last_seen t p ≡ some l
    → (m : ℕ) × (last_seen (observe t q v).0 p ≡ some m)
      × (l < i → i ≤ m → ((q ≡ p) × (v ≡ i)) ⊎ Covers p i (observe t q v).1)
observe_passes t q v p l i h = (
  if str_eq q p then high_water (some l) v else l,
  ground (arith, last_seen-observe t q v p, eq_iff q p),
  unfold observe last_seen in λ above below. ground (arith, eq_iff q p),
)

-- Completeness of the detector: whatever order a product's trades come in, each id between the
-- baseline at the start and the one at the end was received, or lies in a reported gap.
pub Received-or_Reported :
    (ms : List (String × ℕ)) (t : ContinuityTracker) (p : String) (l h i : ℕ)
    → last_seen t p ≡ some l
    → last_seen (observe_all t ms).0 p ≡ some h
    → l < i
    → i ≤ h
    → Received p i ms ⊎ Reported p i (observe_all t ms).1
unfolding observe_all
Received-or_Reported [] t p l h i start end above below = ground arith
Received-or_Reported ((q, v) ∷ ms) t p l h i start end above below =
    let (m, step, passes) = observe_passes t q v p l i start in
    elim (Bool-cases (leb i m)) [
      | inl reached ↦ elim (passes above (leb→le i m reached)) [
        | inl trade ↦ inl (inl trade)
        | inr covered ↦ inr (inl covered)
      ]
      | inr beyond ↦
          elim (Received-or_Reported ms (observe t q v).0 p m h i step end (ground arith) below) [
            | inl later ↦ inl (inr later)
            | inr covered ↦ inr (inr covered)
          ]
    ]

-- No message of the product skips an id, though others may come in between, late or twice.
abbrev pub Steady : String → ℕ → List (String × ℕ) → Type 0
Steady p l [] = Unit
Steady p l ((q, v) ∷ ms) =
    if str_eq q p then (v ≤ l + 1) × Steady p (high_water (some l) v) ms else Steady p l ms

-- The verdicts on a product that report a loss.
abbrev pub alarms : String → Observation → Bool
alarms p o = str_eq o.product_id p && is o.continuity gap

observe_steady :
    (t : ContinuityTracker) (q : String) (v : ℕ) (p : String) (l : ℕ)
    → last_seen t p ≡ some l
    → (str_eq q p ≡ true → v ≤ l + 1)
    → let o = (observe t q v).1 in
      (count (alarms p) (o ∷ []) ≡ 0) × (sum_missing (of_product p) (o ∷ []) ≡ 0)
unfolding observe last_seen
observe_steady t q v p l h near = ground (arith, eq_iff q p)

-- No false alarm: a product whose stream skips no id gets no gap and no missing trade, whatever
-- duplicates it has and whatever the other products do in between.
pub observe_all-Steady :
    (ms : List (String × ℕ)) (t : ContinuityTracker) (p : String) (l : ℕ)
    → last_seen t p ≡ some l
    → Steady p l ms
    → let os = (observe_all t ms).1 in
      (count (alarms p) os ≡ 0) × (sum_missing (of_product p) os ≡ 0)
unfolding observe_all
observe_all-Steady [] t p l h s = ground arith
observe_all-Steady ((q, v) ∷ ms) t p l h s = elim (Bool-cases (str_eq q p)) [
  | inl same ↦
      let now = observe_steady t q v p l h (λ e. (rw same at s).0) in
      let next : last_seen (observe t q v).0 p ≡ some (high_water (some l) v) =
        ground (arith, last_seen-observe t q v p, eq_iff q p) in
      let later =
        observe_all-Steady ms (observe t q v).0 p (high_water (some l) v) next (rw same at s).1 in
      ground arith
  | inr other ↦
      let now = observe_steady t q v p l h (λ e. cc) in
      let next : last_seen (observe t q v).0 p ≡ some l =
        ground (arith, last_seen-observe t q v p) in
      let later = observe_all-Steady ms (observe t q v).0 p l next (rw other at s) in ground arith
]
