-- ===== src/Metrics/Lags.antt =====
-- metrics.py, `record_lag` and `lag_percentile`: the window of lags and its order statistics.
use native.Mathlib.Nat.{le_trans}
use crypto_market_platform.Base.{
  ℕ, ◌+◌, ◌-◌, ◌*◌, ◌/◌, ◌≤◌, ◌<◌, ◌≡◌, ◌⊎◌, inl, inr, refl, false, not, Option, none, some, List,
  [], ◌∷◌, ◌++◌, ◌==◌, if◌then◌else◌, length, get_elem?, arith, length-append, length-drop,
}
use crypto_market_platform.Base.Int.{ℤ, leb_ℤ}
use crypto_market_platform.Base.Sort.{
  sorted, count, IsOrder, sorted-IsSorted, rank, length-sorted, count-sorted, get_elem?-some,
}
use crypto_market_platform.Metrics.{
  Counters, record_lag, lag_percentile, max_samples, dropped_samples, lesser,
}

empty_or_not : (xs : List ℤ) → (xs ≡ []) ⊎ (((length xs == 0) ≡ false) × (0 < length xs))
empty_or_not [] = inl refl
empty_or_not (x ∷ xs) = inr (ground arith, omega arith)

leb_ℤ-IsOrder : IsOrder leb_ℤ
leb_ℤ-IsOrder = record { total = λ x y h. ground arith; trans = λ x y z h k. ground arith }

-- However many lags are recorded, the window never holds more than 10000 of them: from a window
-- that fits, one more lag leaves a window that fits, and a full one drops its oldest 5000.
pub record_lag_bounded :
    (lag : ℤ) (c : Counters)
    → length c.ingest_lag_samples ≤ max_samples
    → let samples = (record_lag lag c).ingest_lag_samples in
      (length samples ≤ max_samples)
      × (length samples ≡ (
          if length c.ingest_lag_samples == max_samples
          then dropped_samples + 1
          else length c.ingest_lag_samples + 1))
unfolding record_lag
record_lag_bounded lag c h = ground (
  arith,
  length-append c.ingest_lag_samples (lag ∷ []),
  length-drop dropped_samples (c.ingest_lag_samples ++ lag ∷ []),
)

-- What `lag_percentile` should answer on some samples: the value such that at most `n·pct/100`
-- samples are smaller, and more than that many (or all of them) are not larger.
abbrev pub IsPercentile : List ℤ → ℕ → Option ℤ → Type 0
IsPercentile samples pct none = samples ≡ []
IsPercentile samples pct (some v) =
    (count (λ y. not (leb_ℤ v y)) samples ≤ length samples * pct / 100)
    × (lesser (length samples * pct / 100) (length samples - 1) < count (λ y. leb_ℤ y v) samples)

abbrev index : ℕ → ℕ → ℕ
index n pct = lesser (n * pct / 100) (n - 1)

index-lt : (n pct : ℕ) → 0 < n → index n pct < n
index-lt n pct h = ground arith

index-le : (n pct : ℕ) → index n pct ≤ n * pct / 100
index-le n pct = ground arith

index-IsPercentile :
    (samples : List ℤ) (pct n : ℕ)
    → length (sorted leb_ℤ samples) ≡ n
    → length samples ≡ n
    → 0 < n
    → IsPercentile samples pct (get_elem? (sorted leb_ℤ samples) (index n pct))
index-IsPercentile samples pct n hs hn pos =
    let s = sorted leb_ℤ samples in
    let (v, e) = get_elem?-some s (index n pct) (rw hs (index-lt n pct pos)) in
    let (below, above) =
      rank leb_ℤ leb_ℤ-IsOrder s (index n pct) v (sorted-IsSorted leb_ℤ leb_ℤ-IsOrder samples) e in
    let fewer = count-sorted leb_ℤ (λ y. not (leb_ℤ v y)) samples in
    let more = count-sorted leb_ℤ (λ y. leb_ℤ y v) samples in
    let bound = index-le n pct in rw (e, hn) (rw fewer at (le_trans below bound), rw more at above)

-- A percentile is an order statistic of the recorded lags, in whatever order they came, and it is
-- missing only when there are none. The index is always in range.
pub lag_percentile-IsPercentile :
    (c : Counters) (pct : ℕ) → IsPercentile c.ingest_lag_samples pct (lag_percentile c pct)
unfolding lag_percentile
lag_percentile-IsPercentile c pct =
    let n = length-sorted leb_ℤ c.ingest_lag_samples in
    elim (empty_or_not c.ingest_lag_samples) [
      | inl nothing ↦ rw nothing refl
      | inr (filled, pos) ↦
          rw (filled, n) (index-IsPercentile c.ingest_lag_samples pct _ n refl pos)
    ]
