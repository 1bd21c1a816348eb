-- ===== src/Audio/Stream.antt =====
-- The monitor's stream of JSON arrays (guest/devices/audio_events.py, `JSONStream`). A text is the list
-- of its characters' codes; `space` is Python's white space, and `raw` is `raw_decode`, which gives the
-- value that a text begins with and where it ends, and none for a JSONDecodeError.
use ashacky.Base.{
  ltb, if◌then◌else◌, length, drop, Result, ◌>>=◌, ◌>>◌, raise_if, value_error, err, ok, ℕ, zero,
  suc, ◌≤◌, ◌≡◌, Bool, Option, none, some, List, [], ◌∷◌, ◌++◌,
}
use ashacky.Base.Json.{Json, Items, arr}
pub mod Pieces
mod Tests

module _ (space : ℕ → Bool) where
  abbrev pub lstrip : List ℕ → List ℕ
  lstrip [] = []
  lstrip (c ∷ cs) = let rest = lstrip cs in if space c then rest else c ∷ cs

module _ {F : Type 0} where
  -- a batch before those to come
  abbrev pub before_batches :
      Items F → Result (List (Items F) × List ℕ) → Result (List (Items F) × List ℕ)
  before_batches batch (err e) = err e
  before_batches batch (ok (batches, rest)) = ok (batch ∷ batches, rest)

  -- `not isinstance(value, list)`
  abbrev pub batch_of : Json F → Result (Items F)
  batch_of (arr es) = ok es
  batch_of _ = err value_error

-- `raw_decode` as it is documented, for what the loop does with it: a value has a character or more, and
-- ends within the text; and an array that a text begins with is what every longer text begins with.
pub record RawDecode (F : Type 0) : Type 0 where
  pub raw : List ℕ → Option (Json F × ℕ)
  pub positive : (t : List ℕ) (v : Json F) (e : ℕ) → raw t ≡ some (v, e) → 1 ≤ e
  pub within : (t : List ℕ) (v : Json F) (e : ℕ) → raw t ≡ some (v, e) → e ≤ length t
  pub extends :
      (t u : List ℕ) (es : Items F) (e : ℕ)
      → raw t ≡ some (arr es, e)
      → raw (t ++ u) ≡ some (arr es, e)

module _ {F : Type 0} where
  -- `break` for a text that `raw` does not read, or a batch and what is after it
  abbrev pub decode_found :
      List ℕ
      → Option (Json F × ℕ)
      → (ℕ → Result (List (Items F) × List ℕ))
      → Result (List (Items F) × List ℕ)
  decode_found t none next = ok ([], t)
  decode_found t (some (v, e)) next = batch_of v >>= λ batch. before_batches batch (next e)

  -- the test of the loop, on the text and the stripped text
  abbrev pub decode_stripped :
      List ℕ
      → List ℕ
      → (List ℕ → Result (List (Items F) × List ℕ))
      → Result (List (Items F) × List ℕ)
  decode_stripped text [] next = ok ([], text)
  decode_stripped text (c ∷ cs) next = next (c ∷ cs)

module _ {F : Type 0} (space : ℕ → Bool) (raw : List ℕ → Option (Json F × ℕ)) where
  -- The loop, on fuel: the batches, and what is left in the buffer.
  unfoldable pub decode_all : ℕ → List ℕ → Result (List (Items F) × List ℕ)
  decode_all zero text = ok ([], text)
  decode_all (suc fuel) text =
      decode_stripped text (lstrip space text)
        (λ t. decode_found t (raw t) (λ e. decode_all fuel (drop e t)))

  -- `text` is what the decoder makes of the bytes, an error for bytes that are no UTF-8
  unfoldable pub feed_stream : ℕ → Result (List ℕ) → List ℕ → Result (List (Items F) × List ℕ)
  feed_stream limit text buffer = do
    more ← text
    raise_if (ltb limit (length (buffer ++ more))) value_error
    decode_all (length (buffer ++ more)) (buffer ++ more)
