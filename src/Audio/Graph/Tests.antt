-- ===== src/Audio/Graph/Tests.antt =====
-- A sink appears, is repeated and vanishes, and the metadata of the defaults are fetched
-- (guest/devices/audio_events.py, `Graph`).
use text.Mathlib.Text.{◌==◌ as str_eq}
use text.Mathlib.TextEquality.{eq_iff}
use ashacky.Base.{
  Result, ok, String, ◌≡◌, refl, ◌∙◌, Bool, true, false, Option, some, List, [], ◌∷◌, ◌++◌,
}
use ashacky.Base.Int.{ℤ, pos}
use ashacky.Base.Json.{Json, Fields, int, str, arr, obj, nil, cons, end, field}
use ashacky.Base.Assoc.{lookup}
use ashacky.Wifi.Events.{ValueEq}
use ashacky.Audio.Graph.{
  ids, is_in, Graph, new_graph, values, relevant, update_object, update_batch, update, current_of,
  fetch, fetch_all, snapshot,
}
use ashacky.Audio.Graph.Fresh.{snapshot_fresh}

-- an equality that sees texts only
abbrev pub text_in : Option (Json ⊥) → String
text_in (some (str s)) = s
text_in _ = ""

abbrev pub texts : ValueEq ⊥
texts = record {
  same = λ a b. str_eq (text_in a) (text_in b);
  same_self = λ a. (eq_iff (text_in a) (text_in a)).1 refl;
}

pub texts_trans :
    (a b c : Option (Json ⊥))
    → texts.same a b ≡ true
    → texts.same b c ≡ true
    → texts.same a c ≡ true
texts_trans a b c h k =
    (eq_iff (text_in a) (text_in c)).1
      ((eq_iff (text_in a) (text_in b)).0 h ∙ (eq_iff (text_in b) (text_in c)).0 k)

abbrev pub no_floats : ⊥ → Bool
no_floats x = true

abbrev pub sink : String → Json ⊥
sink volume = obj (
    field "id" (int (pos 7)) (
      field "type" (str "PipeWire:Interface:Node") (
        field "info"
          (obj (
            field "props"
              (obj
                (field "media.class" (str "Audio/Sink") (field "node.name" (str "speakers") end)))
              (field "params" (obj (field "Props" (str volume) end)) end)))
          end)))

abbrev defaults_entry : Json ⊥
defaults_entry = obj (
    field "id" (int (pos 3)) (
      field "type" (str "PipeWire:Interface:Metadata")
        (field "props" (obj (field "metadata.name" (str "default") end)) end)))

abbrev pub with_sink : Graph ⊥
with_sink = (update no_floats texts (cons (sink "half") nil) new_graph).0

abbrev with_defaults : Graph ⊥
with_defaults = (update no_floats texts (cons defaults_entry nil) with_sink).0

-- the sink again, another volume, and the metadata
sink_reported :
    ((update no_floats texts (cons (sink "half") nil) with_sink).1 ≡ ok false)
    × ((update no_floats texts (cons (sink "full") nil) with_sink).1 ≡ ok true)
    × (with_defaults.dirty ≡ pos 3 ∷ [])
unfolding update update_batch update_object relevant
sink_reported = (refl, refl, refl)

abbrev answer : ℤ → Result (Json ⊥)
answer i = ok (arr (cons defaults_entry nil))

abbrev snapped : List (Fields ⊥)
snapped = values with_sink.nodes ++ values (snapshot texts answer with_defaults).0.metadata

snapped_read : (snapshot texts answer with_defaults).1 ≡ ok snapped
unfolding snapshot update fetch_all update_batch update_object relevant fetch current_of
snapped_read = refl

snapshot_fresh_example :
    let g' = (snapshot texts answer with_defaults).0 in
    (g'.dirty ≡ [])
    × (g'.nodes ≡ with_defaults.nodes)
    × (snapped ≡ values with_defaults.nodes ++ values g'.metadata)
    × ((i : ℤ)
        → is_in i with_defaults.dirty ≡ true
        → fetch texts answer i ≡ ok (lookup ids i g'.metadata))
    × ((i : ℤ)
        → is_in i with_defaults.dirty ≡ false
        → lookup ids i g'.metadata ≡ lookup ids i with_defaults.metadata)
snapshot_fresh_example = snapshot_fresh texts answer with_defaults snapped snapped_read
