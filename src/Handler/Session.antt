-- ===== src/Handler/Session.antt =====
-- ws_client.py, `MessageHandler`, over a session: messages, handled or raising, and disconnects.
use crypto_market_platform.Base.{
  eq_iff, ℕ, suc, ◌≡◌, refl, ◌∙◌, ap, String, Option, str_eq, ◌||◌, inl, inr, Bool-cases, none,
  some, List, [], ◌∷◌,
}
use crypto_market_platform.Base.Result.{Result, ok, raise, key_error}
use crypto_market_platform.SortedContainers.{SortedContainers}
use crypto_market_platform.Publisher.{Publisher}
use crypto_market_platform.Handler.{
  MessageHandler, handle_match, handle_snapshot, handle_l2update, handle_heartbeat, dispatch,
  handle, on_disconnect,
}
use crypto_market_platform.Handler.Messages.{Message}

-- A decoded message with the time of its receipt, or the loss of the connection.
pub data Event : Type 0 where
  message : Message → ℕ → Event
  disconnected : Event

abbrev pub disconnects : List Event → ℕ
disconnects [] = 0
disconnects (message msg t ∷ events) = disconnects events
disconnects (disconnected ∷ events) = suc (disconnects events)

module _ (sc : SortedContainers) {P : Type 0} (publisher : Publisher P) where
  unfoldable pub step : Event → MessageHandler sc publisher → MessageHandler sc publisher
  step (message msg t) h = (handle sc publisher msg t h).1
  step disconnected h = on_disconnect sc publisher h

  unfoldable pub run : List Event → MessageHandler sc publisher → MessageHandler sc publisher
  unfolding step
  run [] h = h
  run (event ∷ events) h = run events (step event h)

  -- `handle` does what one of the four handlers does, or leaves the handler as it was.
  module _ (J : Result (Unit {0}) × MessageHandler sc publisher → Type 0) (msg : Message) (t : ℕ)
      (h : MessageHandler sc publisher) (matched : J (handle_match sc publisher msg t h))
      (snapped : msg.kind ≡ some "snapshot" → J (handle_snapshot sc publisher msg t h))
      (updated : J (handle_l2update sc publisher msg t h))
      (beaten : J (handle_heartbeat sc publisher msg t h))
      (ignored : (r : Result (Unit {0})) → J (r, h)) where
    dispatch_cases :
        (kind : Option String) → msg.kind ≡ kind → J (dispatch sc publisher kind msg t h)
    dispatch_cases none is = ignored (ok tt)
    dispatch_cases (some kind) is =
        elim (Bool-cases (str_eq kind "match" || str_eq kind "last_match")) [
          | inl hit ↦ rw hit matched
          | inr miss ↦ rw miss (elim (Bool-cases (str_eq kind "snapshot")) [
            | inl hit ↦ rw hit (snapped (is ∙ ap some ((eq_iff kind "snapshot").0 hit)))
            | inr miss₂ ↦ rw miss₂ (elim (Bool-cases (str_eq kind "l2update")) [
              | inl hit ↦ rw hit updated
              | inr miss₃ ↦ rw miss₃ (elim (Bool-cases (str_eq kind "heartbeat")) [
                | inl hit ↦ rw hit beaten
                | inr miss₄ ↦ rw miss₄ (elim (Bool-cases (str_eq kind "error")) [
                  | inl hit ↦ rw hit (ignored (raise key_error))
                  | inr miss₅ ↦ rw miss₅ (ignored (ok tt))
                ])
              ])
            ])
          ])
        ]

    pub handle_cases : J (handle sc publisher msg t h)
    unfolding handle
    handle_cases = dispatch_cases msg.kind refl

  -- An invariant of the four handlers and of the disconnect is one of every session.
  module _ (I : MessageHandler sc publisher → Type 0)
      (match_keeps : (msg : Message) (t : ℕ) (h : MessageHandler sc publisher)
        → I h
        → I (handle_match sc publisher msg t h).1)
      (snapshot_keeps : (msg : Message) (t : ℕ) (h : MessageHandler sc publisher)
        → I h
        → I (handle_snapshot sc publisher msg t h).1)
      (l2update_keeps : (msg : Message) (t : ℕ) (h : MessageHandler sc publisher)
        → I h
        → I (handle_l2update sc publisher msg t h).1)
      (heartbeat_keeps : (msg : Message) (t : ℕ) (h : MessageHandler sc publisher)
        → I h
        → I (handle_heartbeat sc publisher msg t h).1) where
    pub handle_keeps :
        (msg : Message) (t : ℕ) (h : MessageHandler sc publisher)
        → I h
        → I (handle sc publisher msg t h).1
    handle_keeps msg t h i =
        handle_cases (λ r. I r.1) msg t h (match_keeps msg t h i) (λ is. snapshot_keeps msg t h i)
          (l2update_keeps msg t h i) (heartbeat_keeps msg t h i) (λ r. i)

    pub run_keeps :
        (disconnect_keeps : (h : MessageHandler sc publisher)
          → I h
          → I (on_disconnect sc publisher h))
        (events : List Event) (h : MessageHandler sc publisher)
        → I h
        → I (run events h)
    unfolding run
    run_keeps keeps [] h i = i
    run_keeps keeps (message msg t ∷ events) h i =
        run_keeps keeps events (handle sc publisher msg t h).1 (handle_keeps msg t h i)
    run_keeps keeps (disconnected ∷ events) h i =
        run_keeps keeps events (on_disconnect sc publisher h) (keeps h i)
