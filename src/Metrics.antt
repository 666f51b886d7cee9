-- ===== src/Metrics.antt =====
-- ingest/src/consumer/metrics.py: the counters, their snapshot, and when they are written.
-- A lag is a whole number of microseconds here, where the code has a float of milliseconds; a
-- percentile is given in percent. The Monitoring client is a parameter of `flush`.
pub mod Lags
pub mod Flushes
pub mod Series
mod Tests
use Prim.Native.String.{◌++◌ as append}
use mathlib.Core.List.{foldl}
use mathlib.Core.Bool.{cond}
use crypto_market_platform.Base.{
  ℕ, ◌+◌, ◌-◌, ◌*◌, ◌/◌, ◌<◌, String, Bool, true, false, not, ◌&&◌, Option, none, some, List, [],
  ◌∷◌, ◌++◌, leb, ltb, ◌==◌, if◌then◌else◌, length, drop, get_elem?, str_eq,
}
use crypto_market_platform.Base.Int.{ℤ, leb_ℤ}
use crypto_market_platform.Base.Dict
use crypto_market_platform.Base.Dict.{Dict}
use crypto_market_platform.Base.Sort.{sorted}
use crypto_market_platform.Base.Result.{Result, ok, raise}

pub record Counters : Type 0 where
  pub messages_received : Dict ℕ
  pub sequence_gaps_total : ℕ
  pub heartbeat_detected_gaps_total : ℕ
  pub messages_lost_total : ℕ
  pub duplicates_total : ℕ
  pub websocket_reconnects_total : ℕ
  pub book_resets_total : ℕ
  pub crossed_books_total : ℕ
  pub publish_errors_total : ℕ
  pub ingest_lag_samples : List ℤ

-- `Counters()`
abbrev pub new_counters : Counters
new_counters = record {
  messages_received = [];
  sequence_gaps_total = 0;
  heartbeat_detected_gaps_total = 0;
  messages_lost_total = 0;
  duplicates_total = 0;
  websocket_reconnects_total = 0;
  book_resets_total = 0;
  crossed_books_total = 0;
  publish_errors_total = 0;
  ingest_lag_samples = [];
}

abbrev pub or_zero : Option ℕ → ℕ
or_zero none = 0
or_zero (some n) = n

unfoldable pub record_message : String → Counters → Counters
record_message channel c = record c {
  messages_received =
      Dict.put channel (or_zero (Dict.get channel c.messages_received) + 1) c.messages_received;
}

abbrev pub max_samples : ℕ
max_samples = 10000

abbrev pub dropped_samples : ℕ
dropped_samples = 5000

unfoldable pub record_lag : ℤ → Counters → Counters
record_lag lag c =
    let samples = c.ingest_lag_samples ++ lag ∷ [] in
    record c {
      ingest_lag_samples =
          if ltb max_samples (length samples) then drop dropped_samples samples else samples;
    }

abbrev lesser : ℕ → ℕ → ℕ
lesser a b = if leb a b then a else b

-- `lag_percentile`: the index is in range, so `none` stands for no samples alone.
unfoldable pub lag_percentile : Counters → ℕ → Option ℤ
lag_percentile c pct =
    let ordered = sorted leb_ℤ c.ingest_lag_samples in
    let n = length ordered in
    if length c.ingest_lag_samples == 0
    then none
    else get_elem? ordered (lesser (n * pct / 100) (n - 1))

-- The values of a snapshot: totals, and lags.
pub data Value : Type 0 where
  total : ℕ → Value
  lag : ℤ → Value

abbrev put_channel : Dict Value → String × ℕ → Dict Value
put_channel out (channel, n) = Dict.put (append "messages_received." channel) (total n) out

abbrev put_lag : String → Option ℤ → Dict Value → Dict Value
put_lag name none out = out
put_lag name (some v) out = Dict.put (append "ingest_lag_ms." name) (lag v) out

-- The totals that every snapshot has.
abbrev pub totals : Counters → Dict Value
totals c =
    ("sequence_gaps_total", total c.sequence_gaps_total)
    ∷ ("heartbeat_detected_gaps_total", total c.heartbeat_detected_gaps_total)
    ∷ ("messages_lost_total", total c.messages_lost_total)
    ∷ ("duplicates_total", total c.duplicates_total)
    ∷ ("websocket_reconnects_total", total c.websocket_reconnects_total)
    ∷ ("book_resets_total", total c.book_resets_total)
    ∷ ("crossed_books_total", total c.crossed_books_total)
    ∷ ("publish_errors_total", total c.publish_errors_total)
    ∷ []

unfoldable pub snapshot : Counters → Dict Value
unfolding lag_percentile
snapshot c = put_lag "p99" (lag_percentile c 99) (
    put_lag "p95" (lag_percentile c 95)
      (put_lag "p50" (lag_percentile c 50) (foldl put_channel (totals c) c.messages_received)))

-- Times of the system clock are whole microseconds since the epoch.
abbrev pub min_write_interval : ℕ
min_write_interval = 10000000

pub record MetricsReporter : Type 0 where
  pub project_id : String
  pub enabled : Bool
  pub counters : Counters
  pub last_write_at : ℕ

-- `MetricsReporter(project_id, enabled)`
unfoldable pub new_reporter : String → Bool → MetricsReporter
new_reporter project_id enabled = record {
  project_id = project_id;
  enabled = enabled && not (str_eq project_id "");
  counters = new_counters;
  last_write_at = 0;
}

-- What a call of `flush` did: returned at once, too early or with nothing to say, logged the
-- snapshot, or called `_write`, which may have raised.
pub data Flushed : Type 0 where
  nothing too_soon logged written write_failed : Flushed

abbrev attempt : Result (Unit {0}) → Flushed
attempt (ok _) = written
attempt (raise _) = write_failed

abbrev is_empty : Dict Value → Bool
is_empty [] = true
is_empty (_ ∷ _) = false

-- `flush(force)` at the time `now`. `write` is `_write`, a call of the Monitoring client.
unfoldable pub flush :
    (Dict Value → Result (Unit {0})) → Bool → ℕ → MetricsReporter → Flushed × MetricsReporter
unfolding snapshot
flush write force now r =
    let snap = snapshot r.counters in
    if is_empty snap
    then (nothing, r)
    else if r.enabled && not force && ltb now (r.last_write_at + min_write_interval)
    then (too_soon, r)
    else if not r.enabled
    then (logged, r)
    else (attempt (write snap), r)
