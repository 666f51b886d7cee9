-- ===== src/Handler/Types.antt =====
-- ws_client.py, `MessageHandler`: what is published is accepted by the schemas of the topics.
use crypto_market_platform.Base.{ℕ, ◌≡◌, true, arith}
use crypto_market_platform.SortedContainers.{SortedContainers}
use crypto_market_platform.Metrics.{record_message, record_lag}
use crypto_market_platform.Publisher.{recording}
use crypto_market_platform.Publisher.Schemas.{accepted, all_accepted, all_accepted-append}
use crypto_market_platform.Handler.{
  MessageHandler, handle_match, handle_snapshot, handle_l2update, handle_heartbeat, handle,
}
use crypto_market_platform.Handler.Messages.{Message}
use crypto_market_platform.Handler.Session.{handle_keeps}

module _ (sc : SortedContainers) where
  -- Every message published so far is accepted by the schema of its topic.
  abbrev pub IsTyped : MessageHandler sc recording → Type 0
  IsTyped h = all_accepted h.publisher_state.messages ≡ true

  match-IsTyped :
      (msg : Message) (t : ℕ) (h : MessageHandler sc recording)
      → IsTyped h
      → IsTyped (handle_match sc recording msg t h).1
  unfolding handle_match accepted record_message record_lag
  match-IsTyped msg t h i = grind (arith, all_accepted-append)

  snapshot-IsTyped :
      (msg : Message) (t : ℕ) (h : MessageHandler sc recording)
      → IsTyped h
      → IsTyped (handle_snapshot sc recording msg t h).1
  unfolding handle_snapshot accepted record_message
  snapshot-IsTyped msg t h i = grind (arith, all_accepted-append)

  l2update-IsTyped :
      (msg : Message) (t : ℕ) (h : MessageHandler sc recording)
      → IsTyped h
      → IsTyped (handle_l2update sc recording msg t h).1
  unfolding handle_l2update accepted record_message
  l2update-IsTyped msg t h i = grind (arith, all_accepted-append)

  heartbeat-IsTyped :
      (msg : Message) (t : ℕ) (h : MessageHandler sc recording)
      → IsTyped h
      → IsTyped (handle_heartbeat sc recording msg t h).1
  unfolding handle_heartbeat accepted record_message
  heartbeat-IsTyped msg t h i = grind (arith, all_accepted-append)

  pub handle-IsTyped :
      (msg : Message) (t : ℕ) (h : MessageHandler sc recording)
      → IsTyped h
      → IsTyped (handle sc recording msg t h).1
  handle-IsTyped =
      handle_keeps sc recording IsTyped match-IsTyped snapshot-IsTyped l2update-IsTyped
        heartbeat-IsTyped
