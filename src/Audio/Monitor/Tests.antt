-- ===== src/Audio/Monitor/Tests.antt =====
-- The monitor repeats a sink, tells of another volume and hangs up
-- (guest/devices/audio_events.py, `AudioEvents.receive`).
use ashacky.Base.{
  ◌==◌, if◌then◌else◌, Result, eof_error, ok, ℕ, ◌≡◌, refl, Bool, true, false, Option, none, some,
  List, [], ◌∷◌,
}
use ashacky.Base.Json.{Json, arr, nil, cons}
use ashacky.Audio.Stream.{decode_all, feed_stream}
use ashacky.Audio.Graph.{relevant, update_object, update_batch, update}
use ashacky.Audio.Graph.Seen.{IsSameGraph}
use ashacky.Audio.Graph.Tests.{texts, texts_trans, no_floats, sink, with_sink}
use ashacky.Audio.Events.{new_audio, disconnect}
use ashacky.Audio.Monitor.{Read, Monitor, take_batches, receive, hung_up, chunk}
use ashacky.Audio.Monitor.Noticed.{receive-IsSameGraph}

-- a decoder of two words: 1 is the sink at half its volume, 2 the sink at full volume
abbrev words : List ℕ → Option (Json ⊥ × ℕ)
words [] = none
words (c ∷ cs) =
    if c == 1
    then some (arr (cons (sink "half") nil), 1)
    else (if c == 2 then some (arr (cons (sink "full") nil), 1) else none)

abbrev no_space : ℕ → Bool
no_space c = false

abbrev listening : Monitor ⊥
listening = record {
  events = record new_audio { monitored = true };
  graph = with_sink;
  buffer = [];
}

abbrev receive_word : Read → Monitor ⊥ × Result Bool
receive_word read = receive no_floats texts no_space words 100 read listening

half_read :
    ((receive_word (chunk (ok (1 ∷ [])))).1 ≡ ok true)
    × ((receive_word (chunk (ok (1 ∷ [])))).0.events.timers.at_reconcile ≡ none)
unfolding receive feed_stream decode_all take_batches update update_batch update_object relevant
half_read = (refl, refl)

full_read :
    ((receive_word (chunk (ok (2 ∷ [])))).1 ≡ ok true)
    × ((receive_word (chunk (ok (2 ∷ [])))).0.events.timers.at_reconcile ≡ some 40)
unfolding receive feed_stream decode_all take_batches update update_batch update_object relevant
full_read = (refl, refl)

hung_up_read :
    let (m, r) = receive_word hung_up in
    (r ≡ ok false)
    × (m.events.error ≡ some eof_error)
    × (m.events.quitting ≡ true)
    × (m.events.monitored ≡ false)
unfolding receive feed_stream disconnect
hung_up_read = (refl, refl, refl, refl)

receive-IsSameGraph_example :
    (listening.events.timers.at_reconcile ≡ none)
    × IsSameGraph no_floats texts texts_trans listening.graph
        (receive no_floats texts no_space words 100 (chunk (ok (1 ∷ []))) listening).0.graph
receive-IsSameGraph_example =
    receive-IsSameGraph no_floats texts texts_trans no_space words 100 (chunk (ok (1 ∷ [])))
      listening refl half_read.0 half_read.1
