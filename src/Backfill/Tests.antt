-- ===== src/Backfill/Tests.antt =====
-- A backfill of BTC-USD from an exchange that has the trades 7 and 8.
use crypto_market_platform.Base.{
  ℕ, Bool, true, false, ◌≤◌, ◌<◌, ◌≡◌, refl, Option, none, some, List, [], ◌∷◌, ltb, ◌==◌,
  if◌then◌else◌, All, arith, inl, inr, Bool-cases,
}
use crypto_market_platform.Base.Result.{Result, ok, raise, connection_error}
use crypto_market_platform.Base.Exec.{Exec}
use crypto_market_platform.Handler.Messages.{number, text, int_of, str_of}
use crypto_market_platform.Backfill.{Url, RestTrade, lookup, numbered, min_of, read_page, collect}
use crypto_market_platform.Backfill.Collecting.{Genuine, least}
use crypto_market_platform.Datetime.{iso, iso_text}
use crypto_market_platform.Datetime.Calendar.{of_ordinal}
use crypto_market_platform.Base.Sort.{sorted}
use crypto_market_platform.Publisher.{Published, Field}
use crypto_market_platform.Backfill.Payload.{event_time, to_topic_payload}
use crypto_market_platform.Backfill.Script.{Args, Services, publish_all, await_all, main}
use crypto_market_platform.Backfill.Recorder.{open_page, recorded}
use crypto_market_platform.Backfill.Replay.{Replays, planned, main-Replays}
use crypto_market_platform.Backfill.Complete.{Paginates, Ends, collect-Ends}

abbrev trade : ℕ → RestTrade
trade n = record {
  trade_id = some (number n);
  time = some "2026-01-02T03:04:05Z";
  price = some (text "100");
  size = some (text "1");
  side = some (text "buy");
}

abbrev history : ℕ → Option RestTrade
history i = if i == 8 then some (trade 8) else if i == 7 then some (trade 7) else none

abbrev below : ℕ → List RestTrade
below cursor =
    if ltb 8 cursor then trade 8 ∷ trade 7 ∷ [] else if ltb 7 cursor then trade 7 ∷ [] else []

abbrev of_url : Option ℕ → List RestTrade
of_url none = trade 8 ∷ trade 7 ∷ []
of_url (some cursor) = below cursor

abbrev exchange : Url → Exec (Unit {0}) (List RestTrade)
exchange url w = (ok (of_url url.after), w)

collected : (collect exchange "BTC-USD" 6 8 tt).0 ≡ ok (some ((7, trade 7) ∷ []))
unfolding collect numbered int_of lookup
collected = refl

-- What the exchange answers is what the script relies on.
abbrev Contract : ℕ → Result (List (ℕ × RestTrade)) → Type 0
Contract cursor (raise e) = Unit
Contract cursor (ok page) =
    All (Genuine history cursor) page
    × ((i : ℕ) → least page ≤ i → i < cursor → lookup i page ≡ history i)

exchange-Contract : (cursor : ℕ) → Contract cursor (numbered (below cursor))
unfolding numbered int_of lookup min_of
exchange-Contract cursor = elim (Bool-cases (ltb 8 cursor)) [
  | inl both ↦
      rw both
        (((ground (arith, both), refl), ((ground (arith, both), refl), tt)), λ i l u. ground arith)
  | inr fewer ↦ rw fewer (elim (Bool-cases (ltb 7 cursor)) [
    | inl one ↦ rw one (((ground (arith, one), refl), tt), λ i l u. ground (arith, fewer))
    | inr nothing ↦ rw nothing (tt, λ i l u. ground (arith, nothing))
  ])
]

exchange-Paginates : Paginates exchange "BTC-USD" 6 8 history
unfolding read_page
exchange-Paginates = record {
  genuine = λ cursor w page e. (rw e at (exchange-Contract cursor)).0;
  gapless = λ cursor w page i e. (rw e at (exchange-Contract cursor)).1 i;
}

collect-Ends_example : Ends exchange "BTC-USD" 6 8 history (collect exchange "BTC-USD" 6 8 tt).0
collect-Ends_example = collect-Ends exchange "BTC-USD" 6 8 history exchange-Paginates tt

abbrev granting : Services (Unit {0})
granting = record {
  urlopen = exchange;
  clock = λ w. (0, w);
  client = record {
    Future = Unit {0};
    topic_path = λ project topic. topic;
    publish = λ topic payload key w. (ok tt, w);
    resume_publish = λ topic key w. (ok tt, w);
    stop = λ w. (ok tt, w);
  };
  make_client = λ w. (ok tt, w);
  result = λ future w. (ok tt, w);
}

-- The same, but Pub/Sub takes no message.
abbrev refusing : Services (Unit {0})
refusing = record granting {
  client = record granting.client { publish = λ topic payload key w. (raise connection_error, w) };
}

abbrev args : Bool → Args
args dry_run = record {
  product = "BTC-USD";
  after = 6;
  before = 8;
  project = "dataengproj01";
  dry_run = dry_run;
}

recorded-Paginates : Paginates (open_page granting) "BTC-USD" 6 8 history
unfolding read_page
recorded-Paginates = record {
  genuine = λ cursor w page e. (rw e at (exchange-Contract cursor)).0;
  gapless = λ cursor w page i e. (rw e at (exchange-Contract cursor)).1 i;
}

abbrev row_7 : Published
row_7 = (
  "market.raw.trades",
  ("sequence", Field.number 0)
      ∷ ("product_id", Field.text "BTC-USD")
      ∷ ("trade_id", Field.number 7)
      ∷ ("price", Field.text "100")
      ∷ ("size", Field.text "1")
      ∷ ("side", Field.text "buy")
      ∷ ("maker_order_id", Field.text "")
      ∷ ("taker_order_id", Field.text "")
      ∷ ("event_time", Field.text "2026-01-02T03:04:05Z")
      ∷ ("ingest_time", Field.text "0001-01-01T00:00:00.000Z")
      ∷ [],
  "BTC-USD",
)

replayed : main (recorded granting) (args false) (tt, []) ≡ (ok (some 0), (tt, row_7 ∷ []))
unfolding main publish_all await_all sorted collect numbered int_of str_of iso iso_text of_ordinal
    lookup to_topic_payload
replayed = refl

dry : main (recorded granting) (args true) (tt, []) ≡ (ok (some 0), (tt, []))
unfolding main collect numbered int_of lookup
dry = refl

refused : main (recorded refusing) (args false) (tt, []) ≡ (raise connection_error, (tt, []))
unfolding main publish_all sorted collect numbered int_of str_of iso iso_text of_ordinal lookup
    to_topic_payload
refused = refl

offset_replaced : event_time "2026-01-02T03:04:05+00:00" ≡ "2026-01-02T03:04:05Z"
unfolding event_time
offset_replaced = refl

zone_added : event_time "2026-01-02T03:04:05" ≡ "2026-01-02T03:04:05Z"
unfolding event_time
zone_added = refl

main-Replays_example :
    Replays granting
      (args false)
      history
      (planned granting (args false) history)
      []
      (main (recorded granting) (args false) (tt, []))
main-Replays_example = main-Replays granting (args false) history recorded-Paginates (tt, [])
