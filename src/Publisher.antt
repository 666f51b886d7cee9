-- ===== src/Publisher.antt =====
-- ingest/src/consumer/publisher.py: the interface `Publisher`, the recorder that tests and dry
-- runs use, and the wrapper around Pub/Sub, whose client library is a parameter.
pub mod PubSub
pub mod Schemas
mod Tests
use crypto_market_platform.Base.{
  ℕ, String, Bool, true, false, List, [], ◌∷◌, ◌++◌, str_eq, if◌then◌else◌,
}
use crypto_market_platform.Base.Dict.{Dict}
use crypto_market_platform.Base.Exec.{Exec, modify}

-- The values of a payload: ints, texts, and the text that `json.dumps` makes of the rows of a
-- snapshot or an update, which is kept unprinted.
pub data Field : Type 0 where
  number : ℕ → Field
  text : String → Field
  dumped_book : List (String × String) → List (String × String) → Field
  dumped_changes : List (String × String × String) → Field

abbrev pub Payload : Type 0
Payload = Dict Field

-- A call of `publish`: channel, payload, ordering key.
abbrev pub Published : Type 0
Published = String × Payload × String

-- `class Publisher(Protocol)`, over the state of the publisher.
pub record Publisher (P : Type 0) : Type 0 where
  pub publish : String → Payload → String → Exec P (Unit {0})
  pub flush : Exec P (Unit {0})

pub record RecordingPublisher : Type 0 where
  pub messages : List Published
  pub flushed : Bool

abbrev pub new_recording : RecordingPublisher
new_recording = record { messages = []; flushed = false }

abbrev pub recording : Publisher RecordingPublisher
recording = record {
  publish = λ channel payload ordering_key.
      modify (λ p. record p { messages = p.messages ++ (channel, payload, ordering_key) ∷ [] });
  flush = modify (λ p. record p { flushed = true });
}

-- `for_channel`
unfoldable pub for_channel : String → List Published → List Payload
for_channel channel [] = []
for_channel channel ((c, p, k) ∷ rest) =
    let later = for_channel channel rest in if str_eq c channel then p ∷ later else later
