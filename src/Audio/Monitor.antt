-- ===== src/Audio/Monitor.antt =====
-- What the pipe of PipeWire's monitor brings (guest/devices/audio_events.py, `AudioEvents.receive`): the
-- stream, the graph and the events together.
use ashacky.Base.{
  if◌then◌else◌, Error, Result, value_error, os_error, eof_error, err, ok, ℕ, Bool, true, false,
  Option, List, [], ◌∷◌,
}
use ashacky.Base.Json.{Json, Items}
use ashacky.Wifi.Events.{ValueEq}
use ashacky.Audio.Stream.{feed_stream}
use ashacky.Audio.Graph.{Graph, update}
use ashacky.Audio.Events.{AudioEvents, notify, disconnect}
use ashacky.Base.Json.{Json}
pub mod Noticed
mod Tests

-- `os.read`: nothing yet, an error, the end of the pipe, or bytes, which are what the decoder makes of them
pub data Read : Type 0 where
  would_block broken hung_up : Read
  chunk : Result (List ℕ) → Read

-- `buffer` is the stream's
pub record Monitor (F : Type 0) : Type 0 where
  pub events : AudioEvents F
  pub graph : Graph F
  pub buffer : List ℕ

-- `except (OSError, EOFError, ValueError)`
abbrev pub is_handled : Error → Bool
is_handled os_error = true
is_handled eof_error = true
is_handled value_error = true
is_handled _ = false

abbrev pub data_of : Read → Result (List ℕ)
data_of would_block = ok []
data_of broken = err os_error
data_of hung_up = err eof_error
data_of (chunk text) = text

module _ {F : Type 0} (truth : F → Bool) (q : ValueEq F) where
  -- `if self.graph.update(batch): self.notify()`
  abbrev pub after_update :
      Monitor F
      → Graph F × Result Bool
      → (Monitor F → Monitor F × Result (Unit {0}))
      → Monitor F × Result (Unit {0})
  after_update m (g, err e) next = (record m { graph = g }, err e)
  after_update m (g, ok true) next = next (record m { graph = g; events = notify m.events })
  after_update m (g, ok false) next = next (record m { graph = g })

  unfoldable pub take_batches : List (Items F) → Monitor F → Monitor F × Result (Unit {0})
  take_batches [] m = (m, ok tt)
  take_batches (b ∷ bs) m = after_update m (update truth q b m.graph) (λ m'. take_batches bs m')

  -- the batches of the stream. Where it raises, the source ends, and the buffer is not read again
  abbrev pub take_fed : Result (List (Items F) × List ℕ) → Monitor F → Monitor F × Result (Unit {0})
  take_fed (err e) m = (m, err e)
  take_fed (ok (batches, rest)) m = take_batches batches (record m { buffer = rest })

  -- what `receive` returns, or an exception that it lets pass
  abbrev pub settle : Monitor F × Result (Unit {0}) → Monitor F × Result Bool
  settle (m, ok done) = (m, ok true)
  settle (m, err e) =
      if is_handled e then (record m { events = disconnect e m.events }, ok false) else (m, err e)

  module _ (space : ℕ → Bool) (raw : List ℕ → Option (Json F × ℕ)) (limit : ℕ) where
    unfoldable pub receive : Read → Monitor F → Monitor F × Result Bool
    receive would_block m = (m, ok true)
    receive read m = settle (take_fed (feed_stream space raw limit (data_of read) m.buffer) m)
