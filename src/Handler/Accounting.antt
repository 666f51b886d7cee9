-- ===== src/Handler/Accounting.antt =====
-- ws_client.py, the counters of `MessageHandler` against the tracker's own totals.
use crypto_market_platform.Base.{ℕ, ◌+◌, ◌≤◌, ◌≡◌, List, length, arith}
use crypto_market_platform.SortedContainers.{SortedContainers}
use crypto_market_platform.Sequence.{observe, reset_all, last_seen}
use crypto_market_platform.Metrics.{record_message, record_lag, max_samples}
use crypto_market_platform.Metrics.Lags.{record_lag_bounded}
use crypto_market_platform.Publisher.{Publisher}
use crypto_market_platform.Handler.{
  MessageHandler, handle_match, handle_snapshot, handle_l2update, handle_heartbeat, handle,
  on_disconnect,
}
use crypto_market_platform.Handler.Messages.{Message}
use crypto_market_platform.Handler.Session.{Event, run, handle_keeps, run_keeps}

module _ (sc : SortedContainers) {P : Type 0} (publisher : Publisher P) where
  -- The counters that are reported against the totals that the tracker keeps for itself.
  pub record IsAccounted (h : MessageHandler sc publisher) : Type 0 where
    pub lost :
        h.metrics.counters.messages_lost_total
        ≡ h.continuity.messages_lost_total + h.metrics.counters.heartbeat_detected_gaps_total
    pub duplicates : h.metrics.counters.duplicates_total ≡ h.continuity.duplicates_total
    pub gaps : h.metrics.counters.sequence_gaps_total ≤ h.continuity.gaps_total
    pub gaps' :
        h.continuity.gaps_total
        ≤ h.metrics.counters.sequence_gaps_total + h.metrics.counters.heartbeat_detected_gaps_total

  match-IsAccounted :
      (msg : Message) (t : ℕ) (h : MessageHandler sc publisher)
      → IsAccounted h
      → IsAccounted (handle_match sc publisher msg t h).1
  unfolding handle_match record_message record_lag observe
  match-IsAccounted msg t h i = ground arith

  snapshot-IsAccounted :
      (msg : Message) (t : ℕ) (h : MessageHandler sc publisher)
      → IsAccounted h
      → IsAccounted (handle_snapshot sc publisher msg t h).1
  unfolding handle_snapshot record_message
  snapshot-IsAccounted msg t h i = ground arith

  l2update-IsAccounted :
      (msg : Message) (t : ℕ) (h : MessageHandler sc publisher)
      → IsAccounted h
      → IsAccounted (handle_l2update sc publisher msg t h).1
  unfolding handle_l2update record_message
  l2update-IsAccounted msg t h i = ground arith

  heartbeat-IsAccounted :
      (msg : Message) (t : ℕ) (h : MessageHandler sc publisher)
      → IsAccounted h
      → IsAccounted (handle_heartbeat sc publisher msg t h).1
  unfolding handle_heartbeat record_message observe last_seen
  heartbeat-IsAccounted msg t h i = ground arith

  pub handle-IsAccounted :
      (msg : Message) (t : ℕ) (h : MessageHandler sc publisher)
      → IsAccounted h
      → IsAccounted (handle sc publisher msg t h).1
  handle-IsAccounted =
      handle_keeps sc publisher IsAccounted match-IsAccounted snapshot-IsAccounted
        l2update-IsAccounted heartbeat-IsAccounted

  pub disconnect-IsAccounted :
      (h : MessageHandler sc publisher) → IsAccounted h → IsAccounted (on_disconnect sc publisher h)
  unfolding on_disconnect reset_all
  disconnect-IsAccounted h i = ground arith

  -- If it holds at the start, then through any session, messages that raise and disconnects
  -- included: the trades reported as lost are those that the tracker counts, plus one for each gap that a
  -- heartbeat revealed, for the trade that the heartbeat itself names; the duplicates are the
  -- tracker's, and each of its gaps was reported by a trade or by a heartbeat.
  pub run-IsAccounted :
      (events : List Event) (h : MessageHandler sc publisher)
      → IsAccounted h
      → IsAccounted (run sc publisher events h)
  run-IsAccounted =
      run_keeps sc publisher IsAccounted match-IsAccounted snapshot-IsAccounted l2update-IsAccounted
        heartbeat-IsAccounted disconnect-IsAccounted

  -- The window of lags stays within its bound.
  abbrev pub IsBounded : MessageHandler sc publisher → Type 0
  IsBounded h = length h.metrics.counters.ingest_lag_samples ≤ max_samples

  match-IsBounded :
      (msg : Message) (t : ℕ) (h : MessageHandler sc publisher)
      → IsBounded h
      → IsBounded (handle_match sc publisher msg t h).1
  unfolding handle_match record_message
  match-IsBounded msg t h i = grind (arith, record_lag_bounded)

  snapshot-IsBounded :
      (msg : Message) (t : ℕ) (h : MessageHandler sc publisher)
      → IsBounded h
      → IsBounded (handle_snapshot sc publisher msg t h).1
  unfolding handle_snapshot record_message
  snapshot-IsBounded msg t h i = ground arith

  l2update-IsBounded :
      (msg : Message) (t : ℕ) (h : MessageHandler sc publisher)
      → IsBounded h
      → IsBounded (handle_l2update sc publisher msg t h).1
  unfolding handle_l2update record_message
  l2update-IsBounded msg t h i = ground arith

  heartbeat-IsBounded :
      (msg : Message) (t : ℕ) (h : MessageHandler sc publisher)
      → IsBounded h
      → IsBounded (handle_heartbeat sc publisher msg t h).1
  unfolding handle_heartbeat record_message
  heartbeat-IsBounded msg t h i = ground arith

  pub handle-IsBounded :
      (msg : Message) (t : ℕ) (h : MessageHandler sc publisher)
      → IsBounded h
      → IsBounded (handle sc publisher msg t h).1
  handle-IsBounded =
      handle_keeps sc publisher IsBounded match-IsBounded snapshot-IsBounded l2update-IsBounded
        heartbeat-IsBounded

  pub disconnect-IsBounded :
      (h : MessageHandler sc publisher) → IsBounded h → IsBounded (on_disconnect sc publisher h)
  unfolding on_disconnect
  disconnect-IsBounded h i = i

  -- A window of lag samples that is within its bound, 10000, stays within it through any session.
  pub run-IsBounded :
      (events : List Event) (h : MessageHandler sc publisher)
      → IsBounded h
      → IsBounded (run sc publisher events h)
  run-IsBounded =
      run_keeps sc publisher IsBounded match-IsBounded snapshot-IsBounded l2update-IsBounded
        heartbeat-IsBounded disconnect-IsBounded
