-- ===== src/Handler/Sends.antt =====
-- ws_client.py, `MessageHandler`: what every `publish` keeps of the publisher's state, a handling
-- of a message keeps.
use crypto_market_platform.Base.{ℕ, String, arith}
use crypto_market_platform.SortedContainers.{SortedContainers}
use crypto_market_platform.Metrics.{record_message}
use crypto_market_platform.Publisher.{Publisher, Payload}
use crypto_market_platform.Handler.{
  MessageHandler, handle_match, publish_trade, track_continuity, handle_snapshot, handle_l2update,
  handle_heartbeat, handle,
}
use crypto_market_platform.Handler.Messages.{Message}
use crypto_market_platform.Handler.Session.{handle_keeps}

module _ (sc : SortedContainers) {P : Type 0} (publisher : Publisher P) (J : P → Type 0)
    (publish_keeps : (channel : String) (payload : Payload) (key : String) (p : P)
      → J p
      → J (publisher.publish channel payload key p).1) where
  abbrev Kept : MessageHandler sc publisher → Type 0
  Kept h = J h.publisher_state

  match_keeps :
      (msg : Message) (t : ℕ) (h : MessageHandler sc publisher)
      → Kept h
      → Kept (handle_match sc publisher msg t h).1
  unfolding handle_match publish_trade record_message track_continuity
  match_keeps msg t h i = grind (arith, publish_keeps)

  snapshot_keeps :
      (msg : Message) (t : ℕ) (h : MessageHandler sc publisher)
      → Kept h
      → Kept (handle_snapshot sc publisher msg t h).1
  unfolding handle_snapshot record_message
  snapshot_keeps msg t h i = grind (arith, publish_keeps)

  l2update_keeps :
      (msg : Message) (t : ℕ) (h : MessageHandler sc publisher)
      → Kept h
      → Kept (handle_l2update sc publisher msg t h).1
  unfolding handle_l2update record_message
  l2update_keeps msg t h i = grind (arith, publish_keeps)

  heartbeat_keeps :
      (msg : Message) (t : ℕ) (h : MessageHandler sc publisher)
      → Kept h
      → Kept (handle_heartbeat sc publisher msg t h).1
  unfolding handle_heartbeat record_message
  heartbeat_keeps msg t h i = grind (arith, publish_keeps)

  pub publisher-Kept :
      (msg : Message) (t : ℕ) (h : MessageHandler sc publisher)
      → Kept h
      → Kept (handle sc publisher msg t h).1
  publisher-Kept =
      handle_keeps sc publisher Kept match_keeps snapshot_keeps l2update_keeps heartbeat_keeps
