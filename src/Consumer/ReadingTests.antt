-- ===== src/Consumer/ReadingTests.antt =====
-- What is read of a socket when the feed falls silent, and when an error comes.
use crypto_market_platform.Base.{
  ℕ, List, Bool, true, ap, ◌∙◌, ◌≤◌, inl, inr, Bool-cases, leb, le→leb, ◌≡◌, refl, false, Option,
  some, [], ◌∷◌, arith,
}
use crypto_market_platform.Base.Result.{ok, raise, connection_error}
use crypto_market_platform.SortedContainers.Reference.{reference}
use crypto_market_platform.Consumer.Errors.{turn-error}
use crypto_market_platform.Publisher.{recording}
use crypto_market_platform.Handler.{new_handler, handle, handle_heartbeat, handle_match}
use crypto_market_platform.Base.Dict.{get}
use crypto_market_platform.Sequence.{last_seen}
use crypto_market_platform.Datetime.{parse_time}
use crypto_market_platform.Consumer.{
  open_socket, Attempt, Consumer, Incoming, frame, consume, receive, turn, connect, wait,
  disconnect,
}
use crypto_market_platform.Consumer.Watchdog.{RaisesWithin}
use crypto_market_platform.Handler.Messages.{Message, number, int_of}
use crypto_market_platform.Consumer.Stalls.{
  come_by, heard, is_stopping, watch, watched, opened, stall_unnoticed,
}
use crypto_market_platform.Consumer.Samples.{config, lost, start, match}

abbrev heartbeat : Message
heartbeat = record match { kind = some "heartbeat"; last_trade_id = some (number 6) }

-- A heartbeat at 20, and a trade long after it, at 90.
abbrev quiet : Attempt
quiet = record lost { incoming = frame (some heartbeat) 20 ∷ frame (some match) 90 ∷ [] }

abbrev one_frame : List Incoming
one_frame = frame (some heartbeat) 20 ∷ []

nothing_come : (t : ℕ) → leb 20 t ≡ false → come_by t quiet.incoming ≡ []
unfolding come_by
nothing_come t before = rw before

one_come : (t : ℕ) → leb 20 t ≡ true → leb 90 t ≡ false → come_by t quiet.incoming ≡ one_frame
unfolding come_by
one_come t after before = rw (after, before)

all_come : (t : ℕ) → leb 20 t ≡ true → leb 90 t ≡ true → come_by t quiet.incoming ≡ quiet.incoming
unfolding come_by
all_come t after later = rw (after, later)

abbrev heard_of : List Incoming → Option ℕ
heard_of l =
    let s = (consume reference recording l (opened reference recording config quiet start)).1 in
    s.handler.last_heartbeat_at

abbrev stopping_of : List Incoming → Bool
stopping_of l =
    (consume reference recording l (opened reference recording config quiet start)).1.stopping

heard_last : (t : ℕ) → 20 ≤ t → heard reference recording config quiet start t ≡ some 20
unfolding consume receive handle handle_heartbeat int_of last_seen get new_handler parse_time
    handle_match
heard_last t h = elim (Bool-cases (leb 90 t)) [
  | inl later ↦ ap heard_of (all_come t (le→leb 20 t h) later) ∙ refl
  | inr before ↦ ap heard_of (one_come t (le→leb 20 t h) before) ∙ refl
]

never_stopping : (t : ℕ) → is_stopping reference recording config quiet start t ≡ false
unfolding consume receive handle handle_heartbeat int_of last_seen get new_handler parse_time
    handle_match
never_stopping t = elim (Bool-cases (leb 20 t)) [
  | inl after ↦ elim (Bool-cases (leb 90 t)) [
    | inl later ↦ ap stopping_of (all_come t after later) ∙ refl
    | inr before ↦ ap stopping_of (one_come t after before) ∙ refl
  ]
  | inr before ↦ ap stopping_of (nothing_come t before) ∙ refl
]

abbrev delays : List ℕ
delays = 0 ∷ 1 ∷ 0 ∷ 0 ∷ 1 ∷ 0 ∷ 0 ∷ []

stall_unnoticed_example :
    RaisesWithin 5
      (heard reference recording config quiet start)
      (is_stopping reference recording config quiet start)
      36
      (watch reference recording config quiet start 5 0 delays)
    × (connect reference recording config
          (watched reference recording config quiet start 5 0 delays)
          start
        ≡ (
          raise connection_error,
          (consume reference recording quiet.incoming
              (opened reference recording config quiet start)).1,
        ))
unfolding open_socket
stall_unnoticed_example =
    stall_unnoticed reference recording config quiet start 5 0 delays 20 1 refl heard_last
      never_stopping (omega arith) (omega arith) (omega arith)

abbrev refusal : Message
refusal = record match { kind = some "error" }

abbrev interrupted : Attempt
interrupted = record lost {
  incoming = frame (some heartbeat) 20 ∷ frame (some refusal) 30 ∷ frame (some match) 40 ∷ [];
}

abbrev beaten : Consumer reference recording
beaten =
    (consume reference recording one_frame (opened reference recording config interrupted start)).1

beaten_read :
    consume reference recording one_frame (opened reference recording config interrupted start)
    ≡ (ok tt, beaten)
unfolding consume receive handle handle_heartbeat int_of last_seen get new_handler parse_time
beaten_read = refl

beaten_running : beaten.stopping ≡ false
unfolding consume receive handle handle_heartbeat int_of last_seen get new_handler parse_time
beaten_running = refl

turn-error_example :
    turn reference recording config interrupted start
    ≡ wait reference recording config interrupted (disconnect reference recording beaten)
unfolding open_socket
turn-error_example =
    turn-error reference recording refusal 30 refl (frame (some match) 40 ∷ []) config interrupted
      one_frame start beaten refl refl refl beaten_read beaten_running
