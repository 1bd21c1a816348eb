-- ===== src/Audio/Graph.antt =====
-- The graph of PipeWire as the monitor's batches tell it (guest/devices/audio_events.py, `class Graph`).
-- `q` is Python's `==` on parsed values, and `truth` tells whether a float is true.
use Prim.Native.String.{count}
use ashacky.Base.{
  ltb, ◌==◌, if◌then◌else◌, is_some, Result, ◌>>=◌, ◌>>◌, value_error, type_error, attribute_error,
  err, ok, String, ◌≡◌, Bool, true, false, not, ◌&&◌, ◌||◌, Option, none, some, List, [], ◌∷◌, ◌++◌,
  arith,
}
use ashacky.Base.Int.{ℤ, pos, negsuc}
use ashacky.Base.Json.{
  Json, Items, Fields, get, null, bool, int, float, str, arr, obj, nil, cons, end, field,
}
use ashacky.Base.Assoc.{KeyEq, lookup, has, put, erase}
use ashacky.Host.Status.{is_text}
use ashacky.Wifi.Events.{ValueEq}
pub mod Seen
pub mod Fresh
pub mod Tests

abbrev pub same_id : ℤ → ℤ → Bool
same_id (pos m) (pos n) = m == n
same_id (negsuc m) (negsuc n) = m == n
same_id _ _ = false

pub same_id_sound : (j k : ℤ) → same_id j k ≡ true → j ≡ k
same_id_sound (pos m) (pos n) h = ground arith
same_id_sound (pos m) (negsuc n) h = ground arith
same_id_sound (negsuc m) (pos n) h = ground arith
same_id_sound (negsuc m) (negsuc n) h = ground arith

pub same_id_self : (k : ℤ) → same_id k k ≡ true
same_id_self (pos m) = ground arith
same_id_self (negsuc m) = ground arith

abbrev pub ids : KeyEq ℤ
ids = record { same = same_id; sound = same_id_sound; reflexive = same_id_self }

-- `ident in set`
abbrev pub is_in : ℤ → List ℤ → Bool
is_in i [] = false
is_in i (j ∷ js) = let rest = is_in i js in same_id j i || rest

abbrev pub add : ℤ → List ℤ → List ℤ
add i js = if is_in i js then js else i ∷ js

abbrev pub discard : ℤ → List ℤ → List ℤ
discard i [] = []
discard i (j ∷ js) = let rest = discard i js in if same_id j i then rest else j ∷ rest

-- `dirty` is `dirty_metadata`, in the order that Python's set has
pub record Graph (F : Type 0) : Type 0 where
  pub nodes : List (ℤ × Fields F)
  pub metadata : List (ℤ × Fields F)
  pub dirty : List ℤ
  pub ready : Bool

-- what `relevant` returns of a sink or a source
pub record Endpoint (F : Type 0) : Type 0 where
  pub name : Json F
  pub class : Json F
  pub levels : Json F

module _ {F : Type 0} where
  abbrev pub new_graph : Graph F
  new_graph = record { nodes = []; metadata = []; dirty = []; ready = false }

  -- `get` with a default
  abbrev pub get_or : Json F → Option (Json F) → Json F
  get_or v none = v
  get_or v (some w) = w

  -- a value of which `get` is called
  abbrev pub dict_of : Json F → Result (Fields F)
  dict_of (obj fs) = ok fs
  dict_of _ = err attribute_error

  abbrev pub dict_at : String → Fields F → Result (Fields F)
  dict_at k fs = dict_of (get_or (obj end) (get k fs))

  -- `ident` and the entry
  abbrev pub id_of : Option (Json F) → Result ℤ
  id_of (some (int i)) = ok i
  id_of _ = err value_error

  abbrev pub identify : Json F → Result (ℤ × Fields F)
  identify (obj fs) = id_of (get "id" fs) >>= λ i. ok (i, fs)
  identify _ = err value_error

  abbrev pub is_null : Option (Json F) → Bool
  is_null none = true
  is_null (some null) = true
  is_null (some _) = false

  abbrev pub or_end : Option (Fields F) → Fields F
  or_end none = end
  or_end (some fs) = fs

  -- `self.nodes.get(ident, {})`
  abbrev pub node_of : ℤ → Graph F → Fields F
  node_of i g = or_end (lookup ids i g.nodes)

  -- `kind == METADATA and ...`
  abbrev pub is_defaults : Fields F → Result Bool
  is_defaults fs =
      dict_at "props" fs >>= λ props. ok (is_text "default" (get "metadata.name" props))

  -- `values()` of a dict
  abbrev pub values : List (ℤ × Fields F) → List (Fields F)
  values [] = []
  values ((i, fs) ∷ es) = fs ∷ values es

module _ {F : Type 0} (truth : F → Bool) where
  abbrev pub is_truthy : Json F → Bool
  is_truthy null = false
  is_truthy (bool b) = b
  is_truthy (int (pos n)) = ltb 0 n
  is_truthy (int (negsuc n)) = true
  is_truthy (float x) = truth x
  is_truthy (str s) = ltb 0 (count s)
  is_truthy (arr nil) = false
  is_truthy (arr (cons v vs)) = true
  is_truthy (obj end) = false
  is_truthy (obj (field k v fs)) = true

  -- `node.get('info') or {}`
  abbrev pub info_of : Fields F → Json F
  info_of node = let v = get_or null (get "info" node) in if is_truthy v then v else obj end

  abbrev pub is_endpoint : Option (Json F) → Bool
  is_endpoint v = is_text "Audio/Sink" v || is_text "Audio/Source" v

  abbrev pub endpoint : Fields F → Fields F → Result (Option (Endpoint F))
  endpoint info props = dict_at "params" info >>= λ params. ok (
      some (record {
        name = get_or null (get "node.name" props);
        class = get_or null (get "media.class" props);
        levels = get_or (arr nil) (get "Props" params);
      }))

  unfoldable pub relevant : Fields F → Result (Option (Endpoint F))
  relevant node = do
    info ← dict_of (info_of node)
    props ← dict_at "props" info
    if is_endpoint (get "media.class" props) then endpoint info props else ok none

  module _ (q : ValueEq F) where
    abbrev pub endpoint_eq : Option (Endpoint F) → Option (Endpoint F) → Bool
    endpoint_eq none none = true
    endpoint_eq (some a) (some b) =
        q.same (some a.name) (some b.name)
        && q.same (some a.class) (some b.class)
        && q.same (some a.levels) (some b.levels)
    endpoint_eq _ _ = false

    -- `self.relevant(old) != self.relevant(entry)`
    abbrev pub differs : Fields F → Fields F → Result Bool
    differs old entry = relevant old >>= λ o. relevant entry >>= λ n. ok (not (endpoint_eq o n))

    abbrev pub put_node : ℤ → Fields F → Graph F → Result Bool → Graph F × Result Bool
    put_node i fs g (err e) = (g, err e)
    put_node i fs g (ok c) = (record g { nodes = put ids i fs g.nodes }, ok c)

    abbrev pub put_metadata : ℤ → Fields F → Graph F → Result Bool → Graph F × Result Bool
    put_metadata i fs g (err e) = (g, err e)
    put_metadata i fs g (ok false) = (g, ok false)
    put_metadata i fs g (ok true) =
        (record g { metadata = put ids i fs g.metadata; dirty = add i g.dirty }, ok true)

    -- the entry of an object that is gone; `g` is without its node
    abbrev pub drop_metadata : ℤ → Graph F → Result (Option (Endpoint F)) → Graph F × Result Bool
    drop_metadata i g (err e) = (g, err e)
    drop_metadata i g (ok o) =
        if has ids i g.metadata
        then (record g { metadata = erase ids i g.metadata; dirty = discard i g.dirty }, ok true)
        else (g, ok (is_some o))

    abbrev pub remove_object : ℤ → Graph F → Graph F × Result Bool
    remove_object i g =
        drop_metadata i (record g { nodes = erase ids i g.nodes }) (relevant (node_of i g))

    unfoldable pub update_object : ℤ → Fields F → Graph F → Graph F × Result Bool
    update_object i fs g =
        if is_text "PipeWire:Interface:Node" (get "type" fs)
        then put_node i fs g (differs (node_of i g) fs)
        else (if is_text "PipeWire:Interface:Metadata" (get "type" fs)
            then put_metadata i fs g (is_defaults fs)
            else (if is_null (get "type" fs)
                  && (is_some (get "info" fs) || is_some (get "props" fs))
                then remove_object i g
                else (g, ok false)))

    abbrev pub update_entry : Result (ℤ × Fields F) → Graph F → Graph F × Result Bool
    update_entry (err e) g = (g, err e)
    update_entry (ok (i, fs)) g = update_object i fs g

    -- an exception ends the loop
    abbrev pub after_entry :
        Bool
        → Graph F × Result Bool
        → (Bool → Graph F → Graph F × Result Bool)
        → Graph F × Result Bool
    after_entry changed (g, err e) next = (g, err e)
    after_entry changed (g, ok c) next = next (changed || c) g

    unfoldable pub update_batch : Items F → Bool → Graph F → Graph F × Result Bool
    update_batch nil changed g = (g, ok changed)
    update_batch (cons x xs) changed g =
        after_entry changed (update_entry (identify x) g) (λ c g'. update_batch xs c g')

    unfoldable pub update : Items F → Graph F → Graph F × Result Bool
    update batch g = update_batch batch (not g.ready) (record g { ready = true })

module _ {F : Type 0} (q : ValueEq F) where
  -- `for e in entries`
  abbrev pub entries_of : Json F → Result (Items F)
  entries_of (arr es) = ok es
  entries_of (obj end) = ok nil
  entries_of (obj (field k v fs)) = err attribute_error
  entries_of (str s) = if ltb 0 (count s) then err attribute_error else ok nil
  entries_of _ = err type_error

  abbrev pub is_current : ℤ → Fields F → Bool
  is_current i fs =
      q.same (some (get_or null (get "id" fs))) (some (int i))
      && is_text "PipeWire:Interface:Metadata" (get "type" fs)

  -- `next(...)` over the entries
  unfoldable pub current_of : ℤ → Items F → Result (Option (Fields F))
  current_of i nil = ok none
  current_of i (cons e es) =
      let rest = current_of i es in
      dict_of e >>= λ fs. if is_current i fs then ok (some fs) else rest

  module _ (query : ℤ → Result (Json F)) where
    unfoldable pub fetch : ℤ → Result (Option (Fields F))
    fetch i = query i >>= λ v. entries_of v >>= λ es. current_of i es

    abbrev pub take_metadata : ℤ → Option (Fields F) → Graph F → Graph F
    take_metadata i none g = record g {
      metadata = erase ids i g.metadata;
      dirty = discard i g.dirty;
    }
    take_metadata i (some fs) g = record g {
      metadata = put ids i fs g.metadata;
      dirty = discard i g.dirty;
    }

    abbrev pub after_fetch :
        ℤ
        → Result (Option (Fields F))
        → Graph F
        → (Graph F → Graph F × Result (Unit {0}))
        → Graph F × Result (Unit {0})
    after_fetch i (err e) g next = (g, err e)
    after_fetch i (ok c) g next = next (take_metadata i c g)

    unfoldable pub fetch_all : List ℤ → Graph F → Graph F × Result (Unit {0})
    fetch_all [] g = (g, ok tt)
    fetch_all (i ∷ is) g = after_fetch i (fetch i) g (λ g'. fetch_all is g')

    unfoldable pub snapshot : Graph F → Graph F × Result (List (Fields F))
    snapshot g =
        let (g', r) = fetch_all g.dirty g in
        (g', r >>= λ done. ok (values g'.nodes ++ values g'.metadata))
