-- ===== src/Handler/Channels.antt =====
-- ws_client.py and metrics.py: the channels that the handlers count.
use crypto_market_platform.Base.{ℕ, String, All, arith}
use crypto_market_platform.SortedContainers.{SortedContainers}
use crypto_market_platform.Metrics.{record_message, record_lag}
use crypto_market_platform.Metrics.Series.Names.{
  IsChannel, trades-IsChannel, l2-IsChannel, heartbeat-IsChannel, put-All,
}
use crypto_market_platform.Base.Dict
use crypto_market_platform.Base.Dict.{Dict}
use crypto_market_platform.Publisher.{Publisher}
use crypto_market_platform.Handler.{
  MessageHandler, handle_match, handle_snapshot, handle_l2update, handle_heartbeat, handle,
}
use crypto_market_platform.Handler.Messages.{Message}
use crypto_market_platform.Handler.Session.{handle_keeps}

-- The counts are of known channels only.
pub record IsCounted (received : Dict ℕ) : Type 0 where
  pub known : All (λ (e : String × ℕ). IsChannel e.0) received

put_trades : (n : ℕ) (d : Dict ℕ) → IsCounted d → IsCounted (Dict.put "trades" n d)
put_trades n d c = record { known = put-All IsChannel "trades" n d trades-IsChannel c.known }

put_l2 : (n : ℕ) (d : Dict ℕ) → IsCounted d → IsCounted (Dict.put "l2" n d)
put_l2 n d c = record { known = put-All IsChannel "l2" n d l2-IsChannel c.known }

put_heartbeat : (n : ℕ) (d : Dict ℕ) → IsCounted d → IsCounted (Dict.put "heartbeat" n d)
put_heartbeat n d c = record {
  known = put-All IsChannel "heartbeat" n d heartbeat-IsChannel c.known;
}

module _ (sc : SortedContainers) {P : Type 0} (publisher : Publisher P) where
  abbrev pub Counts : MessageHandler sc publisher → Type 0
  Counts h = IsCounted h.metrics.counters.messages_received

  match-Counts :
      (msg : Message) (t : ℕ) (h : MessageHandler sc publisher)
      → Counts h
      → Counts (handle_match sc publisher msg t h).1
  unfolding handle_match record_message record_lag
  match-Counts msg t h i = grind (arith, put_trades)

  snapshot-Counts :
      (msg : Message) (t : ℕ) (h : MessageHandler sc publisher)
      → Counts h
      → Counts (handle_snapshot sc publisher msg t h).1
  unfolding handle_snapshot record_message
  snapshot-Counts msg t h i = grind (arith, put_l2)

  l2update-Counts :
      (msg : Message) (t : ℕ) (h : MessageHandler sc publisher)
      → Counts h
      → Counts (handle_l2update sc publisher msg t h).1
  unfolding handle_l2update record_message
  l2update-Counts msg t h i = grind (arith, put_l2)

  heartbeat-Counts :
      (msg : Message) (t : ℕ) (h : MessageHandler sc publisher)
      → Counts h
      → Counts (handle_heartbeat sc publisher msg t h).1
  unfolding handle_heartbeat record_message
  heartbeat-Counts msg t h i = grind (arith, put_heartbeat)

  pub handle-Counts :
      (msg : Message) (t : ℕ) (h : MessageHandler sc publisher)
      → Counts h
      → Counts (handle sc publisher msg t h).1
  handle-Counts =
      handle_keeps sc publisher Counts match-Counts snapshot-Counts l2update-Counts heartbeat-Counts
