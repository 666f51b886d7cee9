-- ===== src/Metrics/Flushes.antt =====
-- metrics.py, `MetricsReporter.flush`: when a snapshot is written, and what the code keeps of it.
use mathlib.Core.List.{foldl}
use crypto_market_platform.Base.{
  ℕ, ◌+◌, ◌≤◌, ◌≡◌, ◌≢◌, ◌⊎◌, refl, String, Bool, true, false, not, ◌&&◌, Option, none, some, List,
  [], ◌∷◌, ltb, if◌then◌else◌, arith, All, eq_iff,
}
use crypto_market_platform.Base.Int.{ℤ}
use crypto_market_platform.Base.Dict
use crypto_market_platform.Base.Dict.{Dict}
use crypto_market_platform.Base.Result.{Result, ok, raise}
use crypto_market_platform.Metrics.{
  Counters, Value, snapshot, put_channel, put_lag, lag_percentile, MetricsReporter, new_reporter,
  Flushed, too_soon, logged, written, write_failed, attempt, is_empty, flush, min_write_interval,
}

record IsFilled (d : Dict Value) : Type 0 where
  filled : is_empty d ≡ false

put-IsFilled : (k : String) (v : Value) (d : Dict Value) → IsFilled (Dict.put k v d)
unfolding Dict.put
put-IsFilled k v [] = record { filled = refl }
put-IsFilled k v ((j, w) ∷ d) = record { filled = ground arith }

channels-IsFilled :
    (received : Dict ℕ) (out : Dict Value)
    → IsFilled out
    → IsFilled (foldl put_channel out received)
channels-IsFilled [] out h = h
channels-IsFilled ((channel, n) ∷ received) out h =
    channels-IsFilled received _ (put-IsFilled _ _ out)

put_lag-IsFilled :
    (name : String) (v : Option ℤ) (out : Dict Value) → IsFilled out → IsFilled (put_lag name v out)
put_lag-IsFilled name none out h = h
put_lag-IsFilled name (some v) out h = put-IsFilled _ _ out

-- A snapshot always has the totals, so it is never empty.
snapshot-IsFilled : (c : Counters) → IsFilled (snapshot c)
unfolding snapshot
snapshot-IsFilled c = put_lag-IsFilled "p99" (lag_percentile c 99) _ (
    put_lag-IsFilled "p95" (lag_percentile c 95) _ (
      put_lag-IsFilled "p50" (lag_percentile c 50) _
        (channels-IsFilled c.messages_received _ (record { filled = refl }))))

module _ (write : Dict Value → Result (Unit {0})) where
  -- What a flush should do, by whether the reporter writes and by the time of its last write.
  abbrev pub should : Bool → ℕ → MetricsReporter → Flushed
  should force now r =
      if not r.enabled
      then logged
      else if not force && ltb now (r.last_write_at + min_write_interval)
      then too_soon
      else attempt (write (snapshot r.counters))

  -- A flush logs when reporting is disabled; otherwise it is skipped when it is not forced and
  -- comes less than the interval after the recorded time, and else it writes the snapshot, and a
  -- write that raises is contained. In every case the reporter is left as it was: the time of a
  -- write is not recorded.
  pub flush_lem :
      (force : Bool) (now : ℕ) (r : MetricsReporter)
      → flush write force now r ≡ (should force now r, r)
  unfolding flush
  flush_lem force now r = ground (arith, (snapshot-IsFilled r.counters).filled)

  -- Flushes at these times, none of them forced.
  pub flush_all : List ℕ → MetricsReporter → List Flushed × MetricsReporter
  flush_all [] r = ([], r)
  flush_all (now ∷ nows) r =
      let (f, r') = flush write false now r in let (fs, r'') = flush_all nows r' in (f ∷ fs, r'')

  flush_all-writes :
      (nows : List ℕ) (r : MetricsReporter)
      → r.enabled ≡ true
      → r.last_write_at ≡ 0
      → All (λ now. min_write_interval ≤ now) nows
      → All (λ f. (f ≡ written) ⊎ (f ≡ write_failed)) (flush_all nows r).0
  unfolding flush_all
  flush_all-writes [] r e z late = tt
  flush_all-writes (now ∷ nows) r e z late =
      rw (flush_lem false now r)
        (go (write (snapshot r.counters)) refl, flush_all-writes nows r e z late.1)
    where
      go :
          (result : Result (Unit {0}))
          → write (snapshot r.counters) ≡ result
          → (should false now r ≡ written) ⊎ (should false now r ≡ write_failed)
      go (ok done) w = ground arith
      go (raise x) w = ground arith

  -- The minimum interval is never enforced: a new reporter that is enabled for a project makes a
  -- write at every flush from the tenth second of the epoch on, however close together they come.
  pub interval_not_enforced :
      (project_id : String) (nows : List ℕ)
      → project_id ≢ ""
      → All (λ now. min_write_interval ≤ now) nows
      → All
          (λ f. (f ≡ written) ⊎ (f ≡ write_failed))
          (flush_all nows (new_reporter project_id true)).0
  unfolding new_reporter
  interval_not_enforced project_id nows named late =
      flush_all-writes nows _ (ground (arith, eq_iff project_id "")) refl late
