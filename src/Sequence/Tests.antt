-- ===== src/Sequence/Tests.antt =====
-- Streams of trades, some of them dropped, repeated or late, as tests/test_sequence.py has them.
use crypto_market_platform.Base.{ℕ, ◌+◌, ◌≡◌, ◌⊎◌, refl, String, some, List, [], ◌∷◌, arith}
use crypto_market_platform.Base.Dict
use crypto_market_platform.Sequence.{
  ContinuityTracker, new_tracker, first, in_order, gap, duplicate, verdict, observe, observe_all,
  last_seen,
}
use crypto_market_platform.Sequence.Accounting.{
  observe_all_span, advances, of_product, count, sum_missing,
}
use crypto_market_platform.Sequence.Interleaving.{only, about, about-observe_all}
use crypto_market_platform.Sequence.Loss.{
  Received, Reported, Received-or_Reported, alarms, observe_all-Steady,
}

abbrev btc : String
btc = "BTC-USD"

abbrev eth : String
eth = "ETH-USD"

abbrev stream : List (String × ℕ)
stream = (btc, 101) ∷ (eth, 7) ∷ (btc, 105) ∷ (btc, 103) ∷ (btc, 106) ∷ []

abbrev steady : List (String × ℕ)
steady = (btc, 101) ∷ (eth, 7) ∷ (btc, 101) ∷ (btc, 102) ∷ (eth, 90) ∷ []

abbrev started : ContinuityTracker
started = (observe new_tracker btc 100).0

verdicts :
    (observe_all started stream).1
    ≡ verdict btc 101 in_order 0
      ∷ verdict eth 7 first 0
      ∷ verdict btc 105 gap 3
      ∷ verdict btc 103 duplicate 0
      ∷ verdict btc 106 in_order 0
      ∷ []
unfolding observe_all observe Dict.get Dict.put
verdicts = refl

observe_all_span_example :
    let (t', os) = observe_all started stream in
    last_seen t' btc ≡ some (100 + (count (advances btc) os + sum_missing (of_product btc) os))
unfolding observe last_seen Dict.get Dict.put
observe_all_span_example = observe_all_span stream started btc 100 refl

Received-or_Reported_example :
    Received btc 104 stream ⊎ Reported btc 104 (observe_all started stream).1
unfolding observe_all observe last_seen Dict.get Dict.put
Received-or_Reported_example =
    Received-or_Reported stream started btc 100 106 104 refl refl (omega arith) (omega arith)

observe_all-Steady_example :
    let os = (observe_all started steady).1 in
    (count (alarms btc) os ≡ 0) × (sum_missing (of_product btc) os ≡ 0)
unfolding observe last_seen Dict.get Dict.put
observe_all-Steady_example =
    observe_all-Steady steady started btc 100 refl (omega arith, (omega arith, (omega arith, tt)))

-- The same baseline for BTC-USD, with one for ETH-USD beside it.
abbrev busier : ContinuityTracker
busier = (observe started eth 5).0

about-observe_all_example :
    about btc (observe_all busier stream).1 ≡ (observe_all started (only btc stream)).1
unfolding observe last_seen Dict.get Dict.put
about-observe_all_example = about-observe_all stream busier started btc refl
