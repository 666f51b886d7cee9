-- ===== src/Handler/Publishing.antt =====
-- ws_client.py: what `MessageHandler` publishes, seen through the recorder of publisher.py.
use mathlib.Core.List.{map-append}
use crypto_market_platform.Base.{
  ℕ, ◌≡◌, refl, String, str_eq, Option, none, some, List, [], ◌∷◌, ◌++◌, map, arith, eq_iff,
}
use crypto_market_platform.Base.Dict
use crypto_market_platform.Base.Dict.{Dict}
use crypto_market_platform.Base.Result.{Result, ok, raise, key_error}
use crypto_market_platform.SortedContainers.{SortedContainers}
use crypto_market_platform.Publisher.{Published, recording}
use crypto_market_platform.Handler.{
  MessageHandler, handle_match, handle_snapshot, handle_l2update, handle_heartbeat, handle,
  dispatch,
}
use crypto_market_platform.Handler.Messages.{Message}

-- A published message by its channel, the names of its fields, and its ordering key.
abbrev pub Shape : Type 0
Shape = String × List String × String

abbrev pub shape : Published → Shape
shape (channel, payload, key) = (channel, map (λ f. f.0) payload, key)

-- The fields of schemas/trades.avsc, schemas/l2.avsc and schemas/heartbeat.avsc, in order.
abbrev pub trades_schema : List String
trades_schema =
    "sequence" ∷ "product_id" ∷ "trade_id" ∷ "price" ∷ "size" ∷ "side" ∷ "maker_order_id"
    ∷ "taker_order_id" ∷ "event_time" ∷ "ingest_time" ∷ []

abbrev pub l2_schema : List String
l2_schema = "sequence" ∷ "product_id" ∷ "event_type" ∷ "payload" ∷ "event_time" ∷ "ingest_time" ∷ []

abbrev pub heartbeat_schema : List String
heartbeat_schema = "sequence" ∷ "product_id" ∷ "last_trade_id" ∷ "event_time" ∷ "ingest_time" ∷ []

-- What becomes of a message: it is forwarded on a channel with some fields, raises KeyError, or
-- is ignored.
pub data Route : Type 0 where
  forwarded : String → List String → Route
  refused ignored : Route

abbrev pub routes : Dict Route
routes =
    ("match", forwarded "trades" trades_schema)
    ∷ ("last_match", forwarded "trades" trades_schema)
    ∷ ("snapshot", forwarded "l2" l2_schema)
    ∷ ("l2update", forwarded "l2" l2_schema)
    ∷ ("heartbeat", forwarded "heartbeat" heartbeat_schema)
    ∷ ("error", refused)
    ∷ []

abbrev or_ignored : Option Route → Route
or_ignored none = ignored
or_ignored (some route) = route

abbrev pub route_of : Option String → Route
route_of none = ignored
route_of (some kind) = or_ignored (Dict.get kind routes)

module _ (sc : SortedContainers) where
  abbrev Recorder : Type 0
  Recorder = MessageHandler sc recording

  abbrev pub shapes : Recorder → List Shape
  shapes h = map shape h.publisher_state.messages

  -- One more message of this channel and these fields if the handler returned, and none if not.
  abbrev pub Publishes :
      String → List String → Message → Recorder → Result (Unit {0}) × Recorder → Type 0
  Publishes channel fields msg h (ok _, h') =
      (key : String) × (msg.product_id ≡ some key)
      × (shapes h' ≡ shapes h ++ (channel, fields, key) ∷ [])
  Publishes channel fields msg h (raise _, h') = shapes h' ≡ shapes h

  shapes-append :
      (ms : List Published) (m : Published)
      → map shape (ms ++ m ∷ []) ≡ map shape ms ++ shape m ∷ []
  shapes-append ms m = map-append shape ms (m ∷ [])

  match-Publishes :
      (msg : Message) (t : ℕ) (h : Recorder)
      → Publishes "trades" trades_schema msg h (handle_match sc recording msg t h)
  unfolding handle_match
  match-Publishes msg t h = grind (arith, shapes-append)

  snapshot-Publishes :
      (msg : Message) (t : ℕ) (h : Recorder)
      → Publishes "l2" l2_schema msg h (handle_snapshot sc recording msg t h)
  unfolding handle_snapshot
  snapshot-Publishes msg t h = grind (arith, shapes-append)

  l2update-Publishes :
      (msg : Message) (t : ℕ) (h : Recorder)
      → Publishes "l2" l2_schema msg h (handle_l2update sc recording msg t h)
  unfolding handle_l2update
  l2update-Publishes msg t h = grind (arith, shapes-append)

  heartbeat-Publishes :
      (msg : Message) (t : ℕ) (h : Recorder)
      → Publishes "heartbeat" heartbeat_schema msg h (handle_heartbeat sc recording msg t h)
  unfolding handle_heartbeat
  heartbeat-Publishes msg t h = grind (arith, shapes-append)

  abbrev pub Forwards : Route → Message → Recorder → Result (Unit {0}) × Recorder → Type 0
  Forwards (forwarded channel fields) msg h r = Publishes channel fields msg h r
  Forwards refused msg h r = r ≡ (raise key_error, h)
  Forwards ignored msg h r = r ≡ (ok tt, h)

  str_eq_comm : (a b : String) → str_eq a b ≡ str_eq b a
  str_eq_comm a b = grind (arith, eq_iff)

  dispatch-Forwards :
      (kind : Option String) (msg : Message) (t : ℕ) (h : Recorder)
      → Forwards (route_of kind) msg h (dispatch sc recording kind msg t h)
  unfolding Dict.get
  dispatch-Forwards none msg t h = refl
  dispatch-Forwards (some kind) msg t h =
      rw
        (
          str_eq_comm kind "match",
          str_eq_comm kind "last_match",
          str_eq_comm kind "snapshot",
          str_eq_comm kind "l2update",
          str_eq_comm kind "heartbeat",
          str_eq_comm kind "error",
        )
        (ground (
          arith,
          match-Publishes msg t h,
          snapshot-Publishes msg t h,
          l2update-Publishes msg t h,
          heartbeat-Publishes msg t h,
        ))

  -- A message of a forwarded kind that the handler takes without an exception is published once,
  -- after all earlier ones, on the channel of its kind, with the fields of that channel's schema
  -- and its product as the ordering key; one that raises publishes nothing. A message of kind
  -- "error" raises KeyError, and one of another kind, or of none, is ignored: both leave the whole
  -- handler as it was.
  pub handle-Forwards :
      (msg : Message) (t : ℕ) (h : Recorder)
      → Forwards (route_of msg.kind) msg h (handle sc recording msg t h)
  unfolding handle
  handle-Forwards msg t h = dispatch-Forwards msg.kind msg t h
