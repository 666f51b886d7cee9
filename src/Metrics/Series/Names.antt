-- ===== src/Metrics/Series/Names.antt =====
-- metrics.py, `_write` and `snapshot`: that the names of a snapshot are told apart by the types of
-- their series.
use Prim.Native.String.{◌++◌ as append}
use mathlib.Core.List.{foldl}
use crypto_market_platform.Base.{
  ℕ, ◌≡◌, ◌≢◌, refl, String, Option, none, some, List, [], ◌∷◌, map, All, str_eq, arith, eq_iff,
  inl, inr, Bool-cases, Bool, true, not, ◌&&◌,
}
use crypto_market_platform.Base.Int.{ℤ}
use crypto_market_platform.Base.Dict
use crypto_market_platform.Base.Dict.{Dict}
use crypto_market_platform.Metrics.{
  Counters, Value, total, lag, put_channel, put_lag, lag_percentile, totals, snapshot,
}
use crypto_market_platform.Metrics.Series.{replace_dots, metric_type, TimeSeries, series}

module _ {V : Type 0} where
  abbrev pub IsFresh : String → Dict V → Type 0
  IsFresh k d = All (λ (e : String × V). k ≢ e.0) d

  -- No key stands twice.
  abbrev pub IsDistinct : Dict V → Type 0
  IsDistinct [] = Unit
  IsDistinct ((k, v) ∷ d) = IsFresh k d × IsDistinct d

  put-IsFresh :
      (j k : String) (v : V) (d : Dict V) → j ≢ k → IsFresh j d → IsFresh j (Dict.put k v d)
  unfolding Dict.put
  put-IsFresh j k v [] n f = (n, tt)
  put-IsFresh j k v ((i, w) ∷ d) n f = elim (Bool-cases (str_eq i k)) [
    | inl same ↦ rw same (f.0, f.1)
    | inr other ↦ rw other (f.0, put-IsFresh j k v d n f.1)
  ]

  pub put-IsDistinct :
      (k : String) (v : V) (d : Dict V) → IsDistinct d → IsDistinct (Dict.put k v d)
  unfolding Dict.put
  put-IsDistinct k v [] u = (tt, tt)
  put-IsDistinct k v ((i, w) ∷ d) u = elim (Bool-cases (str_eq i k)) [
    | inl same ↦ rw same (u.0, u.1)
    | inr other ↦ rw other (
      put-IsFresh i k v d (λ e. ground (arith, eq_iff i k, e, other)) u.0,
      put-IsDistinct k v d u.1,
    )
  ]

  pub put-All :
      (P : String → Type 0) (k : String) (v : V) (d : Dict V)
      → P k
      → All (λ (e : String × V). P e.0) d
      → All (λ (e : String × V). P e.0) (Dict.put k v d)
  unfolding Dict.put
  put-All P k v [] p a = (p, tt)
  put-All P k v ((i, w) ∷ d) p a = elim (Bool-cases (str_eq i k)) [
    | inl same ↦ rw same (a.0, a.1)
    | inr other ↦ rw other (a.0, put-All P k v d p a.1)
  ]

-- The names that a snapshot can have, by the types of their series.
abbrev pub name_of : String → Option String
name_of type = Dict.get type (
    map (λ (n : String). (metric_type n, n))
      ("sequence_gaps_total" ∷ "heartbeat_detected_gaps_total" ∷ "messages_lost_total"
        ∷ "duplicates_total" ∷ "websocket_reconnects_total" ∷ "book_resets_total"
        ∷ "crossed_books_total" ∷ "publish_errors_total" ∷ "messages_received.trades"
        ∷ "messages_received.l2" ∷ "messages_received.heartbeat" ∷ "ingest_lag_ms.p50"
        ∷ "ingest_lag_ms.p95" ∷ "ingest_lag_ms.p99" ∷ []))

pub record IsKnown (name : String) : Type 0 where
  pub known : name_of (metric_type name) ≡ some name

IsKnown_injective : (a b : String) → IsKnown a → IsKnown b → metric_type a ≡ metric_type b → a ≡ b
IsKnown_injective a b p q e = cc (p.known, q.known, e)

-- A channel whose count has a name of these.
pub record IsChannel (channel : String) : Type 0 where
  pub counted : IsKnown (append "messages_received." channel)

pub trades-IsChannel : IsChannel "trades"
unfolding Dict.get replace_dots
trades-IsChannel = record { counted = record { known = refl } }

pub l2-IsChannel : IsChannel "l2"
unfolding Dict.get replace_dots
l2-IsChannel = record { counted = record { known = refl } }

pub heartbeat-IsChannel : IsChannel "heartbeat"
unfolding Dict.get replace_dots
heartbeat-IsChannel = record { counted = record { known = refl } }

-- The names of a snapshot are known, and none stands twice.
abbrev pub IsNamed : Dict Value → Type 0
IsNamed d = All (λ (e : String × Value). IsKnown e.0) d × IsDistinct d

put-IsNamed :
    (k : String) (v : Value) (d : Dict Value) → IsKnown k → IsNamed d → IsNamed (Dict.put k v d)
put-IsNamed k v d known n = (put-All IsKnown k v d known n.0, put-IsDistinct k v d n.1)

channels-IsNamed :
    (received : Dict ℕ) (out : Dict Value)
    → All (λ (e : String × ℕ). IsChannel e.0) received
    → IsNamed out
    → IsNamed (foldl put_channel out received)
channels-IsNamed [] out a n = n
channels-IsNamed ((channel, m) ∷ received) out a n =
    channels-IsNamed received _ a.1
      (put-IsNamed (append "messages_received." channel) (total m) out a.0.counted n)

put_lag-IsNamed :
    (name : String) (v : Option ℤ) (out : Dict Value)
    → IsKnown (append "ingest_lag_ms." name)
    → IsNamed out
    → IsNamed (put_lag name v out)
put_lag-IsNamed name none out known n = n
put_lag-IsNamed name (some v) out known n =
    put-IsNamed (append "ingest_lag_ms." name) (lag v) out known n

-- The same tests as Booleans, for the names that every snapshot has.
is_fresh : {V : Type 0} → String → Dict V → Bool
is_fresh k [] = true
is_fresh k ((j, v) ∷ d) = not (str_eq k j) && is_fresh k d

is_distinct : {V : Type 0} → Dict V → Bool
unfolding is_fresh
is_distinct [] = true
is_distinct ((k, v) ∷ d) = is_fresh k d && is_distinct d

is_fresh_sound : {V : Type 0} (k : String) (d : Dict V) → is_fresh k d ≡ true → IsFresh k d
unfolding is_fresh
is_fresh_sound k [] h = tt
is_fresh_sound k ((j, v) ∷ d) h =
    (λ e. ground (arith, eq_iff k j, e, h), is_fresh_sound k d (ground (arith, h)))

is_distinct_sound : {V : Type 0} (d : Dict V) → is_distinct d ≡ true → IsDistinct d
unfolding is_distinct
is_distinct_sound [] h = tt
is_distinct_sound ((k, v) ∷ d) h =
    (is_fresh_sound k d (ground (arith, h)), is_distinct_sound d (ground (arith, h)))

totals-IsNamed : (c : Counters) → IsNamed (totals c)
unfolding Dict.get replace_dots is_distinct
totals-IsNamed c = (
  (
    record { known = refl },
    (
      record { known = refl },
      (
        record { known = refl },
        (
          record { known = refl },
          (
            record { known = refl },
            (record { known = refl }, (record { known = refl }, (record { known = refl }, tt))),
          ),
        ),
      ),
    ),
  ),
  is_distinct_sound (totals c) refl,
)

pub snapshot-IsNamed :
    (c : Counters)
    → All (λ (e : String × ℕ). IsChannel e.0) c.messages_received
    → IsNamed (snapshot c)
unfolding snapshot Dict.get replace_dots
snapshot-IsNamed c a =
    put_lag-IsNamed "p99" (lag_percentile c 99) _ (record { known = refl })
      (put_lag-IsNamed "p95" (lag_percentile c 95) _ (record { known = refl })
        (put_lag-IsNamed "p50" (lag_percentile c 50) _ (record { known = refl })
          (channels-IsNamed c.messages_received (totals c) a (totals-IsNamed c))))

-- Every two series of a request are of different metrics.
abbrev pub IsApart : List TimeSeries → Type 0
IsApart [] = Unit
IsApart (s ∷ rest) = All (λ (other : TimeSeries). s.metric ≢ other.metric) rest × IsApart rest

series-IsFresh :
    (now : ℕ) (k : String) (v : Value) (d : Dict Value)
    → IsKnown k
    → All (λ (e : String × Value). IsKnown e.0) d
    → IsFresh k d
    → All (λ (other : TimeSeries). (series now (k, v)).metric ≢ other.metric) (map (series now) d)
series-IsFresh now k v [] known all f = tt
series-IsFresh now k v ((j, w) ∷ d) known all f =
    (λ e. f.0 (IsKnown_injective k j known all.0 e), series-IsFresh now k v d known all.1 f.1)

pub series-IsApart : (now : ℕ) (d : Dict Value) → IsNamed d → IsApart (map (series now) d)
series-IsApart now [] n = tt
series-IsApart now ((k, v) ∷ d) n =
    (series-IsFresh now k v d n.0.0 n.0.1 n.1.0, series-IsApart now d (n.0.1, n.1.1))
