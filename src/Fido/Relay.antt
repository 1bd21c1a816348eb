-- ===== src/Fido/Relay.antt =====
-- The relay between the UHID device and the host (guest/auth/fido2.py, `Device.receive` and `class
-- Relay`). A client is a socket to the host; what sockets, the device and the clock answer are inputs.
-- An effect of the channel machine is performed here; the reports for the device are what is left.
use ashacky.Base.{
  ltb, leb, ◌==◌, if◌then◌else◌, length, get_or, take, drop, Bytes, mem, Result, key_error,
  eof_error, err, ok, ℕ, ◌+◌, ◌*◌, Bool, false, not, ◌&&◌, ◌||◌, Option, none, some, List, [], ◌∷◌,
  ◌++◌,
}
use ashacky.Base.Json.{Json, get, obj}
use ashacky.Host.Status.{is_true}
use ashacky.Fido.Hid.State.{Hid, Effect, Draw, abort, emit, request, cancel, raised}
use ashacky.Fido.Hid.Deadlines.{complete, timeout}
use ashacky.Fido.Hid.Defs.{receive}
-- `json.dumps` of the two requests, `json.loads`, and `base64.b64decode` of a field
pub mod Bounded
pub mod Fresh
mod Tests

pub record Codec (F : Type 0) : Type 0 where
  pub dump_request : ℕ → ℕ → Bytes → Bytes
  pub dump_cancel : ℕ → Bytes
  pub loads : Bytes → Result (Json F)
  pub b64decode : Option (Json F) → Result Bytes

-- `completes` is the request that the completion ends, none for the one of a cancellation
pub record Client : Type 0 where
  pub socket : ℕ
  pub output : Bytes
  pub input : Bytes
  pub completes : Option ℕ
  pub deadline : ℕ

pub record Relay : Type 0 where
  pub hid : Hid
  pub clients : List Client

-- The events of the device: a report for the machine, the end of a session, and the two requests that
-- are refused.
pub data Uhid : Type 0 where
  output_report : Bytes → Uhid
  session_end ignored : Uhid
  refuse_get refuse_set : ℕ → Uhid

abbrev pub le16 : Bytes → ℕ → ℕ
le16 b i = get_or b i 0 + 256 * get_or b (i + 1) 0

abbrev pub le32 : Bytes → ℕ → ℕ
le32 b i = le16 b i + 65536 * le16 b (i + 2)

-- `UHID_OUTPUT`: a report of 64 bytes, or of 65 with the report id 0 in front
unfoldable pub output_event : Bytes → Uhid
output_event event =
    let size = le16 event 4100 in
    if not (get_or event 4102 0 == 1)
    then ignored
    else if size == 64
    then output_report (take 64 (drop 4 event))
    else if size == 65 && get_or event 4 0 == 0
    then output_report (take 64 (drop 5 event))
    else ignored

unfoldable pub device_event : Bytes → Result Uhid
device_event event =
    if ltb (length event) 4
    then err eof_error
    else let kind = le32 event 0 in
      ok (
        if kind == 6
        then output_event event
        else if kind == 3 || kind == 5
        then session_end
        else if kind == 9
        then refuse_get (le32 event 4)
        else if kind == 13
        then refuse_set (le32 event 4)
        else ignored)

abbrev pub keep_others : ℕ → List Client → List Client
keep_others socket [] = []
keep_others socket (c ∷ cs) =
    let rest = keep_others socket cs in if c.socket == socket then rest else c ∷ rest

abbrev pub replace : Client → List Client → List Client
replace new [] = []
replace new (c ∷ cs) =
    let rest = replace new cs in if c.socket == new.socket then new ∷ rest else c ∷ rest

abbrev pub unavailable : Bytes
unavailable = 0x7f ∷ []

-- `complete` of the closure in `request`: the machine's reply
unfoldable pub completion : Option ℕ → Bytes → Hid → Hid × List Effect
completion none payload h = (h, [])
completion (some id) payload h = complete id payload h

-- `completion(None)`
unfoldable pub give_up : Option ℕ → Relay → Relay × List Effect
give_up completes r =
    let (h, es) = completion completes unavailable r.hid in (record r { hid = h }, es)

abbrev pub new_client : ℕ → ℕ → Bytes → Option ℕ → Client
new_client socket now message completes = record {
  socket = socket;
  output = message ++ 10 ∷ [];
  input = [];
  completes = completes;
  deadline = now + 70000;
}

-- the client of a connected socket
unfoldable pub connect : Result ℕ → ℕ → Bytes → Option ℕ → Relay → Relay × List Effect
connect (err e) now message completes r = give_up completes r
connect (ok socket) now message completes r =
    (record r { clients = r.clients ++ new_client socket now message completes ∷ [] }, [])

-- `rpc`, with the outcome of the connection
unfoldable pub rpc : Result ℕ → ℕ → Bytes → Option ℕ → Relay → Relay × List Effect
rpc dial now message completes r =
    if leb 8 (length r.clients) then give_up completes r else connect dial now message completes r

unfoldable pub finish : ℕ → Option ℕ → Bytes → Relay → Relay × List Effect
finish socket completes payload r =
    let (h, es) = completion completes payload r.hid in
    (record { hid = h; clients = keep_others socket r.clients }, es)

-- what a client made of its socket: it goes on, or it has a reply, or none
pub data Progress (F : Type 0) : Type 0 where
  going : Client → Progress F
  replied : Option (Json F) → Progress F

module _ {F : Type 0} (codec : Codec F) where
  -- the payload of a reply
  unfoldable pub payload_of : Option (Json F) → Bytes
  payload_of (some (obj v)) =
      if is_true (get "ok" v)
      then elim (codec.b64decode (get "data" v)) [ ok raw ↦ raw | err e ↦ unavailable ]
      else unavailable
  payload_of _ = unavailable

  -- The effects of the machine, in order; `dials` and `clock` answer the calls of `rpc`.
  unfoldable pub perform : (ℕ → Result ℕ) → (ℕ → ℕ) → ℕ → List Effect → Relay → Relay × List Effect
  perform dials clock k [] r = (r, [])
  perform dials clock k (emit p ∷ es) r =
      let (r', out) = perform dials clock k es r in (r', emit p ∷ out)
  perform dials clock k (request id cid payload ∷ es) r =
      let (r', out) = rpc (dials k) (clock k) (codec.dump_request id cid payload) (some id) r in
      let (r'', more) = perform dials clock (k + 1) es r' in (r'', out ++ more)
  perform dials clock k (cancel id ∷ es) r =
      let (r', out) = rpc (dials k) (clock k) (codec.dump_cancel id) none r in
      let (r'', more) = perform dials clock (k + 1) es r' in (r'', out ++ more)
  perform dials clock k (raised e ∷ es) r = (r, raised e ∷ [])

  abbrev pub has_newline : Bytes → Bool
  has_newline b = mem 10 b

  unfoldable pub read_reply : Result Bytes → Client → Progress F
  read_reply (err e) c = replied none
  read_reply (ok []) c = replied none
  read_reply (ok (b ∷ bs)) c =
      let input = c.input ++ b ∷ bs in
      if ltb 16384 (length input)
      then replied none
      else if has_newline input
      then elim (codec.loads input) [ ok v ↦ replied (some v) | err e ↦ replied none ]
      else going (record c { input = input })

  -- A ready client: what `send` and `recv` return, if they are called.
  unfoldable pub advance : Option (Result ℕ) → Option (Result Bytes) → Client → Progress F
  advance (some (err e)) _ c = replied none
  advance (some (ok n)) none c = going (record c { output = drop n c.output })
  advance (some (ok n)) (some received) c =
      read_reply received (record c { output = drop n c.output })
  advance none none c = going c
  advance none (some received) c = read_reply received c

  unfoldable pub settle : Client → Relay → Progress F → Relay × List Effect
  settle c r (going c') = (record r { clients = replace c' r.clients }, [])
  settle c r (replied v) = finish c.socket c.completes (payload_of v) r

  unfoldable pub serve_client :
      Option (Result ℕ) → Option (Result Bytes) → Client → Relay → Relay × List Effect
  serve_client sent received c r = settle c r (advance sent received c)

unfoldable pub expire_client : ℕ → Client → Relay → Relay × List Effect
expire_client now c r =
    if leb c.deadline now then finish c.socket c.completes unavailable r else (r, [])

-- The clients of `list(self.clients.items())` whose deadline has come give up.
unfoldable pub expire_clients : ℕ → List Client → Relay → Relay × List Effect
expire_clients now [] r = (r, [])
expire_clients now (c ∷ cs) r =
    let (r', out) = expire_client now c r in
    let (r'', more) = expire_clients now cs r' in (r'', out ++ more)

abbrev pub client_at : ℕ → List Client → Option Client
client_at socket [] = none
client_at socket (c ∷ cs) =
    let rest = client_at socket cs in if c.socket == socket then some c else rest

-- What `select` reports: an event of the device, with what the machine draws for it, or a client.
pub data Ready : Type 0 where
  device : Bytes → Draw → Ready
  client : ℕ → Option (Result ℕ) → Option (Result Bytes) → Ready

module _ {F : Type 0} (codec : Codec F) (dials : ℕ → Result ℕ) (clock : ℕ → ℕ) where
  -- the machine's state and effects after one of its methods
  unfoldable pub after : Hid × List Effect → Relay → Relay × List Effect
  after (h, es) r = perform codec dials clock 0 es (record r { hid = h })

  abbrev pub after_receive : Option (Hid × List Effect) → Relay → Option (Relay × List Effect)
  after_receive none r = none
  after_receive (some m) r = some (after m r)

  -- `device.receive`; none while a channel id is being drawn
  unfoldable pub serve_device : Result Uhid → Draw → Relay → Option (Relay × List Effect)
  serve_device (err e) draw r = some (r, raised e ∷ [])
  serve_device (ok (output_report p)) draw r = after_receive (receive draw p r.hid) r
  serve_device (ok session_end) draw r = some (after (abort false r.hid) r)
  serve_device (ok _) draw r = some (r, [])

  unfoldable pub serve_ready : Ready → Relay → Option (Relay × List Effect)
  serve_ready (device event draw) r = serve_device (device_event event) draw r
  serve_ready (client socket sent received) r = elim (client_at socket r.clients) [
    | none ↦ some (r, raised key_error ∷ [])
    | some c ↦ some (serve_client codec sent received c r)
  ]

  -- the checks at the end of `step`
  unfoldable pub check_deadlines : ℕ → ℕ → Relay → Relay × List Effect
  check_deadlines now later r =
      let (r', es) = after (timeout now r.hid) r in
      let (r'', more) = expire_clients later r'.clients r' in (r'', es ++ more)

abbrev pub then_more : List Effect → Option (Relay × List Effect) → Option (Relay × List Effect)
then_more es none = none
then_more es (some (r, more)) = some (r, es ++ more)

module _ {F : Type 0} (codec : Codec F) (dials : ℕ → ℕ → Result ℕ) (clock : ℕ → ℕ → ℕ) where
  -- What `select` returned, in order; the calls of `rpc` for the i-th are answered by `dials i`.
  unfoldable pub serve_all : ℕ → List Ready → Relay → Option (Relay × List Effect)
  serve_all i [] r = some (r, [])
  serve_all i (x ∷ xs) r = elim (serve_ready codec (dials i) (clock i) x r) [
    | none ↦ none
    | some (r', es) ↦ then_more es (serve_all (i + 1) xs r')
  ]

  -- `step`, from what `select` returned on
  unfoldable pub step : List Ready → ℕ → ℕ → Relay → Option (Relay × List Effect)
  step xs now later r =
      let n = length xs in
      elim (serve_all 0 xs r) [
        | none ↦ none
        | some (r', es) ↦
            then_more es (some (check_deadlines codec (dials n) (clock n) now later r'))
      ]
