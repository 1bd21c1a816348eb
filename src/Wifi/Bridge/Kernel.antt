-- ===== src/Wifi/Bridge/Kernel.antt =====
-- The rounds of the bridge (guest/devices/wifi_bridge.py, `serve` and `RequestWait`): what it writes to
-- the kernel. Times are milliseconds.
use ashacky.Base.{
  ltb, leb, ◌==◌, if◌then◌else◌, is_some, length, any, Bytes, Error, Result, ◌>>=◌, value_error,
  runtime_error, os_error, permission_error, timeout_error, err, ok, ℕ, suc, ◌+◌, ◌/◌, ◌%◌, min,
  Bool, true, false, not, ◌&&◌, ◌||◌, Option, none, some, List, [], ◌∷◌, ◌++◌,
}
use ashacky.Base.Int.{residue}
use ashacky.Base.Packing.{little}
use ashacky.Base.Json.{Json, Fields}
use ashacky.Host.Status.{Key, is_false}
use ashacky.Wifi.Scan.{Bss}
use ashacky.Wifi.Link.{identity}
use ashacky.Wifi.Link.Follower.{Follower, Link, Report, connected, busy, update}
use ashacky.Wifi.Bridge.{
  unpack_connection, no_address, HostReplies, handle_connection, signal_payload,
}
pub mod Published
pub mod Rounds

-- `RequestWait`: whether the kernel notifies, and the descriptor that is polled beside the device
pub record RequestWait : Type 0 where
  pub notified : Bool
  pub watched : Option ℕ

-- Registrations with the poller, and the descriptors that it then polls.
pub data Registration : Type 0 where
  unregister : ℕ → Registration
  register : ℕ → Registration

abbrev pub same_descriptor : Option ℕ → Option ℕ → Bool
same_descriptor none none = true
same_descriptor (some a) (some b) = a == b
same_descriptor none (some b) = false
same_descriptor (some a) none = false

abbrev pub unregister_old : Option ℕ → List Registration
unregister_old none = []
unregister_old (some a) = unregister a ∷ []

abbrev pub register_new : Option ℕ → List Registration
register_new none = []
register_new (some a) = register a ∷ []

unfoldable pub watch_descriptor : Option ℕ → RequestWait → RequestWait × List Registration
watch_descriptor fd w =
    if not w.notified || same_descriptor w.watched fd
    then (w, [])
    else (record w { watched = fd }, unregister_old w.watched ++ register_new fd)

-- `wait`, from the flags of the events that `poll` returned: the time that it sleeps or polls, without a
-- limit for `none`, and whether there was an event.
unfoldable pub wait_for : Option ℕ → List ℕ → RequestWait → Option ℕ × Result Bool
wait_for timeout flags w =
    if not w.notified
    then (some (elim timeout [ none ↦ 100 | some t ↦ min 100 t ]), ok false)
    else (
      timeout,
      if any (λ f. not (f / 8 % 8 == 0)) flags then err os_error else ok (ltb 0 (length flags)),
    )

-- What the bridge writes to the kernel. `scan_written` is a write of a record, `scan_finished` and `scan_aborted`
-- have the number of the request, and `connection_result` is a packed result.
pub data KernelCall : Type 0 where
  scan_written : Bytes → KernelCall
  scan_finished : ℕ → KernelCall
  scan_aborted : ℕ → KernelCall
  connection_result : Bytes → KernelCall
  signal_reported : Bytes → KernelCall

-- `struct.pack('<IHH6s2x', op_sequence, status_code, 0, address)`
unfoldable pub pack_result : ℕ → ℕ → Bytes → Bytes
pack_result number status address =
    little 4 number ++ little 2 status ++ little 2 0 ++ (address ++ 0 ∷ 0 ∷ [])

-- `struct.pack('<IIiHH6sH', ...) + bss.information_elements`
unfoldable pub scan_packet : ℕ → Bss → Bytes
scan_packet number b =
    little 4 number
    ++ little 4 b.frequency_mhz
    ++ little 4 (residue 4294967296 b.signal_mbm)
    ++ little 2 (if b.open_network then 1 else 17)
    ++ little 2 0
    ++ (b.bssid ++ (little 2 (length b.information_elements) ++ b.information_elements))

-- The loop over the records; `written k` is what `os.write` returns for the k-th.
unfoldable pub write_records :
    (ℕ → Bytes → Result ℕ) → ℕ → ℕ → List Bss → List KernelCall × Result (Unit {0})
write_records written number k [] = ([], ok tt)
write_records written number k (b ∷ bs) =
    let (calls, result) = write_records written number (suc k) bs in
    let packet = scan_packet number b in
    elim (written k packet) [
      | err e ↦ (scan_written packet ∷ [], err e)
      | ok n ↦
          if n == length packet
          then (scan_written packet ∷ calls, result)
          else (scan_written packet ∷ [], err runtime_error)
    ]

-- A scan request: `finished` and `aborted` are what the two calls return; an error of the abort is
-- dropped when it is an OSError.
unfoldable pub finish_scan :
    ℕ
    → Result (Unit {0})
    → List KernelCall × Result (Unit {0})
    → List KernelCall × Result (Unit {0})
finish_scan number finished (calls, err e) = (calls, err e)
finish_scan number finished (calls, ok u) = (calls ++ scan_finished number ∷ [], finished)

unfoldable pub abort_scan :
    ℕ → List KernelCall × Result (Unit {0}) → List KernelCall × Result (Unit {0})
abort_scan number (calls, ok u) = (calls, ok u)
abort_scan number (calls, err e) = (calls ++ scan_aborted number ∷ [], err e)

unfoldable pub publish_scan :
    Result (List Bss)
    → (ℕ → Bytes → Result ℕ)
    → Result (Unit {0})
    → ℕ
    → List KernelCall × Result (Unit {0})
publish_scan (err e) written finished number = abort_scan number ([], err e)
publish_scan (ok records) written finished number =
    abort_scan number (finish_scan number finished (write_records written number 0 records))

-- The errors that the signal round catches; TimeoutError and PermissionError are OSErrors.
abbrev pub is_caught : Error → Bool
is_caught os_error = true
is_caught permission_error = true
is_caught timeout_error = true
is_caught value_error = true
is_caught runtime_error = true
is_caught _ = false

-- The state of the bridge; `link_error` is the kind of the error last printed.
pub record WifiBridge : Type 0 where
  pub previous : ℕ
  pub next_signal : ℕ
  pub follower : Option Follower
  pub link_error : Option Error

abbrev pub new_bridge : Bool → WifiBridge
new_bridge follows = record {
  previous = 0;
  next_signal = 0;
  follower = if follows then some (record { missing = none }) else none;
  link_error = none;
}

-- What the calls of a signal round return: `link` is the snapshot of the follower, `stale` says whether an OSError
-- has the number ESTALE, `watched` is the key of the status watcher, if there is one.
pub record SignalReplies (F : Type 0) : Type 0 where
  pub time : ℕ
  pub link : Result Link
  pub watched : Option (Option (Key F))
  pub state : Result (Fields F)
  pub records : Result (List Bss)
  pub again : Result (Fields F)
  pub reported : Result (Unit {0})
  pub sent : Result (Unit {0})
  pub stale : Bool

-- `not watcher or watcher.key is None or watcher.key[1] is not False`
abbrev pub is_active : {F : Type 0} → Option (Option (Key F)) → Bool
is_active none = true
is_active (some none) = true
is_active (some (some key)) = not (is_false key.active)

-- `next_signal = min(next_signal, follower.missing[1])`
abbrev pub sooner : Follower → ℕ → ℕ
sooner f next = elim f.missing [ none ↦ next | some (s, deadline) ↦ min next deadline ]

-- the ioctl of a report may raise
abbrev pub after_reports : List Report → Result (Unit {0}) → Result (Unit {0}) → Result (Unit {0})
after_reports [] reported result = result
after_reports (r ∷ rs) reported result = reported >>= λ u. result

-- After the update of the follower: an error skips the deadline.
unfoldable pub settle_link :
    WifiBridge
    → Follower
    → List Report
    → Result (Unit {0})
    → WifiBridge × List Report × Result (Unit {0})
settle_link b f reports (err e) = (record b { follower = some f }, reports, err e)
settle_link b f reports (ok u) =
    (record b { follower = some f; next_signal = sooner f b.next_signal }, reports, ok tt)

-- `if payload is not None`, and what its ioctl returns
unfoldable pub send_payload :
    Result (Unit {0})
    → WifiBridge
    → Result (Option Bytes)
    → WifiBridge × List KernelCall × Result (Unit {0})
send_payload sent b (err e) = (b, [], err e)
send_payload sent b (ok none) = (b, [], ok tt)
send_payload sent b (ok (some payload)) = (b, signal_reported payload ∷ [], sent)

-- The end of a signal round: `sampled` says whether it had a state to ask for. An error that is not
-- caught ends the service.
unfoldable pub settle_signal :
    Bool → Bool → WifiBridge → Result (Unit {0}) → WifiBridge × Result (Unit {0})
settle_signal sampled stale b (ok u) =
    (if sampled then record b { link_error = none } else b, ok tt)
settle_signal sampled stale b (err e) =
    if not (is_caught e)
    then (b, err e)
    else if is_some b.follower && not stale
    then (record b { link_error = some e }, ok tt)
    else (b, ok tt)

-- The request of a round, and what the calls that it makes return.
pub data Request (F : Type 0) : Type 0 where
  connect_request : Bytes → (Bss → Result (Unit {0})) → HostReplies F → Request F
  scan_request :
      ℕ
      → Result (List Bss)
      → (ℕ → Bytes → Result ℕ)
      → Result (Unit {0})
      → SignalReplies F
      → Request F

-- the status and the address for the kernel
unfoldable pub answer_result : ℕ → Result Bytes → Bytes
answer_result number (ok address) = pack_result number 0 address
answer_result number (err e) = pack_result number 1 no_address

module _ {F : Type 0} (truthy : Option (Json F) → Bool) (b64decode : Option (Json F) → Result Bytes)
    (from_hex : Option (Json F) → Result Bytes) where
  -- `follower.update(link, state, rpc)` and the deadline that it leaves
  unfoldable pub follow_link :
      SignalReplies F
      → Link
      → Fields F
      → Follower
      → WifiBridge
      → WifiBridge × List Report × Result (Unit {0})
  follow_link r link state f b =
      let (f', reports, result) =
        update r.time (identity truthy b64decode from_hex state) r.records
          (r.again >>= λ s. identity truthy b64decode from_hex s) link f in
      settle_link b f' reports (after_reports reports r.reported result)

  -- the sample for the kernel
  unfoldable pub send_signal :
      SignalReplies F → Fields F → WifiBridge → WifiBridge × List KernelCall × Result (Unit {0})
  send_signal r state b = send_payload r.sent b (signal_payload truthy b64decode from_hex state)

  unfoldable pub after_link :
      SignalReplies F
      → Fields F
      → WifiBridge × List Report × Result (Unit {0})
      → WifiBridge × List Report × List KernelCall × Result (Unit {0})
  after_link r state (b, reports, err e) = (b, reports, [], err e)
  after_link r state (b, reports, ok u) =
      let (b', calls, result) = send_signal r state b in (b', reports, calls, result)

  -- The status of the host; the link is there when the bridge follows links.
  unfoldable pub sample :
      SignalReplies F
      → Option (Follower × Link)
      → WifiBridge
      → Result (Fields F)
      → WifiBridge × List Report × List KernelCall × Result (Unit {0})
  sample r followed b (err e) = (b, [], [], err e)
  sample r none b (ok state) = after_link r state (b, [], ok tt)
  sample r (some (f, link)) b (ok state) = after_link r state (follow_link r link state f b)

  -- the body of the try block, for a bridge with this follower and this snapshot of its link
  unfoldable pub try_signal :
      SignalReplies F
      → WifiBridge
      → Option Follower
      → Result Link
      → WifiBridge × List Report × List KernelCall × Result (Unit {0})
  try_signal r b none link =
      if is_active r.watched then sample r none b r.state else (b, [], [], ok tt)
  try_signal r b (some f) (err e) = (b, [], [], err e)
  try_signal r b (some f) (ok link) =
      if is_active r.watched && (connected link.flags && not (busy link.flags))
      then sample r (some (f, link)) b r.state
      else (b, [], [], ok tt)

  abbrev pub sampled : SignalReplies F → Option Follower → Result Link → Bool
  sampled r none link = is_active r.watched
  sampled r (some f) (err e) = false
  sampled r (some f) (ok link) =
      is_active r.watched && (connected link.flags && not (busy link.flags))

  unfoldable pub signal_round :
      SignalReplies F → WifiBridge → WifiBridge × List Report × List KernelCall × Result (Unit {0})
  signal_round r b =
      let timed : WifiBridge = record b { next_signal = r.time + 5000 } in
      let (b', reports, calls, result) = try_signal r timed b.follower r.link in
      let (b'', result') = settle_signal (sampled r b.follower r.link) r.stale b' result in
      (b'', reports, calls, result')

  -- A connection request is always answered, under its own number.
  unfoldable pub answer_connection : Bytes → (Bss → Result (Unit {0})) → HostReplies F → Bytes
  answer_connection payload publish host =
      let c = unpack_connection payload in
      answer_result c.number (handle_connection truthy b64decode from_hex publish c host)

  -- One round of the loop; a connection has come when its number is not 0.
  unfoldable pub signal_or_wait :
      SignalReplies F → WifiBridge → WifiBridge × List KernelCall × Result (Unit {0})
  signal_or_wait r b =
      if leb b.next_signal r.time
      then (let (b', reports, calls, result) = signal_round r b in (b', calls, result))
      else (b, [], ok tt)

  unfoldable pub bridge_round :
      Request F → WifiBridge → WifiBridge × List KernelCall × Result (Unit {0})
  bridge_round (connect_request payload publish host) b = (
    record b { next_signal = 0 },
    connection_result (answer_connection payload publish host) ∷ [],
    ok tt,
  )
  bridge_round (scan_request number scanned written finished r) b =
      if number == 0 || number == b.previous
      then signal_or_wait r b
      else (record b { previous = number }, (publish_scan scanned written finished number).0, ok tt)
