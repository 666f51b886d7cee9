-- ===== src/Consumer.antt =====
-- ws_client.py, `WebSocketConsumer`: the loop that connects, reads and waits. What the network and
-- the signals do is an explicit sequence: the attempts to connect, with what comes on each socket.
-- The watchdog is a task of its own: its exception does not interrupt the reading, and is raised
-- where `_consume` waits for the task, after the reading has ended.
pub mod Subscribing
pub mod Keeps
pub mod Backoff
pub mod Resets
pub mod Watchdog
pub mod Stalls
pub mod Types
pub mod Batches
pub mod Errors
pub mod Products
mod Samples
mod Tests
mod ReadingTests
use Prim.Native.Nat.{min}
use crypto_market_platform.Base.{
  ℕ, ◌+◌, ◌*◌, String, Bool, true, false, Option, none, some, List, [], ◌∷◌, leb, if◌then◌else◌,
}
use crypto_market_platform.Base.Result.{Exception, Result, ok, raise, value_error, connection_error}
use crypto_market_platform.SortedContainers.{SortedContainers}
use crypto_market_platform.Publisher.{Publisher}
use crypto_market_platform.Handler.{MessageHandler, handle, on_disconnect}
use crypto_market_platform.Handler.Messages.{Message}
use Subscribing.{Subscription, subscribe_message}

-- The fields of `Config` that the loop reads, the times in milliseconds.
pub record Config : Type 0 where
  pub products : List String
  pub backoff_initial : ℕ
  pub backoff_max : ℕ

-- What happens while a socket is read: a frame, decoded if it is JSON, with the time of its
-- receipt; a call of `stop`; or an exception of the socket. At the end it closes.
pub data Incoming : Type 0 where
  frame : Option Message → ℕ → Incoming
  signal : Incoming
  failure : Exception → Incoming

-- One turn of the loop: what connecting and sending a subscription gives, what is read, whether `stop`
-- is called during a failed attempt or the sleep, and the random number of the sleep, in
-- thousandths.
pub record Attempt : Type 0 where
  pub opened : Subscription → Result (Unit {0})
  pub incoming : List Incoming
  -- whether the watchdog had raised by the end of the reading
  pub stalled : Bool
  pub signalled : Bool
  pub signalled_asleep : Bool
  pub random : ℕ

-- `websockets.connect(...)`, then `ws.send(...)` of the subscription.
unfoldable pub open_socket : Config → Attempt → Result (Unit {0})
open_socket config a = a.opened (subscribe_message config.products)

module _ (sc : SortedContainers) {P : Type 0} (publisher : Publisher P) where
  pub record Consumer : Type 0 where
    pub handler : MessageHandler sc publisher
    pub stopping : Bool
    -- the local variable of `run`
    pub backoff : ℕ

  unfoldable pub stop : Consumer → Consumer
  stop s = record s { stopping = true }

  -- `self.handler.handle(json.loads(raw))`
  unfoldable pub receive : Option Message → ℕ → Consumer → Result (Unit {0}) × Consumer
  receive none t s = (raise value_error, s)
  receive (some msg) t s =
      let (r, h) = handle sc publisher msg t s.handler in (r, record s { handler = h })

  -- After a frame: the loop goes on, or the exception leaves it.
  abbrev pub go_on :
      (Consumer → Result (Unit {0}) × Consumer)
      → Result (Unit {0}) × Consumer
      → Result (Unit {0}) × Consumer
  go_on more (ok _, s) = more s
  go_on more (raise e, s) = (raise e, s)

  -- The reading of `_consume`.
  unfoldable pub consume : List Incoming → Consumer → Result (Unit {0}) × Consumer
  consume [] s = (ok tt, s)
  consume (signal ∷ rest) s = consume rest (stop s)
  consume (failure e ∷ rest) s = (raise e, s)
  consume (frame raw t ∷ rest) s =
      if s.stopping then (ok tt, s) else go_on (consume rest) (receive raw t s)

  -- `finally: ... await watchdog`, which raises what the watchdog raised.
  abbrev pub join_watchdog : Bool → Result (Unit {0}) × Consumer → Result (Unit {0}) × Consumer
  join_watchdog true (r, s) = (raise connection_error, s)
  join_watchdog false (r, s) = (r, s)

  -- `on_disconnect()` and the count of the reconnect.
  unfoldable pub disconnect : Consumer → Consumer
  disconnect s =
      let h = on_disconnect sc publisher s.handler in
      record s {
        handler = record h {
          metrics = record h.metrics {
            counters = record h.metrics.counters {
              websocket_reconnects_total = h.metrics.counters.websocket_reconnects_total + 1;
            };
          };
        };
      }

  -- The `try` of a turn: the socket is opened, the backoff starts over, and it is read.
  unfoldable pub connect : Config → Attempt → Consumer → Result (Unit {0}) × Consumer
  connect config a s = elim (open_socket config a) [
    | ok _ ↦
        join_watchdog a.stalled (consume a.incoming (record s { backoff = config.backoff_initial }))
    | raise e ↦ (raise e, if a.signalled then stop s else s)
  ]

  -- The end of a turn: with `stop` called the loop is left, else it sleeps for so many
  -- microseconds and doubles the backoff.
  unfoldable pub wait : Config → Attempt → Consumer → Option ℕ × Consumer
  wait config a s = if s.stopping then (none, s) else (
    some (s.backoff * (500 + a.random)),
    record s { backoff = min (s.backoff * 2) config.backoff_max; stopping = a.signalled_asleep },
  )

  -- After the `try`: a break on an exception when stopping comes before the disconnect.
  unfoldable pub recover : Config → Attempt → Result (Unit {0}) → Consumer → Option ℕ × Consumer
  recover config a (ok _) s = wait config a (disconnect s)
  recover config a (raise e) s = if s.stopping then (none, s) else wait config a (disconnect s)

  unfoldable pub turn : Config → Attempt → Consumer → Option ℕ × Consumer
  turn config a s = let (r, s') = connect config a s in recover config a r s'

  -- After a turn that slept the loop goes round again.
  abbrev pub resume : (Consumer → List ℕ × Consumer) → Option ℕ × Consumer → List ℕ × Consumer
  resume again (none, s) = ([], s)
  resume again (some sleep, s) = let (sleeps, s') = again s in (sleep ∷ sleeps, s')

  -- `run`, over the attempts made so far: the sleeps, in order, and the state.
  unfoldable pub run : Config → List Attempt → Consumer → List ℕ × Consumer
  run config [] s = ([], s)
  run config (a ∷ attempts) s =
      if s.stopping then ([], s) else resume (run config attempts) (turn config a s)
