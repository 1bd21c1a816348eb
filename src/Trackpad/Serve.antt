-- ===== src/Trackpad/Serve.antt =====
-- The loop of the touchpad service (guest/input/trackpad.py, `serve` and `reply`). The clock, the
-- outcomes of the writes to the port, and `json.loads` are inputs; times are milliseconds.
use ashacky.Base.{
  ltb, leb, ◌==◌, if◌then◌else◌, length, Bytes, Result, ◌>>=◌, value_error, os_error,
  stop_iteration, ok, err, ℕ, zero, suc, ◌+◌, ◌-◌, min, Bool, true, false, not, ◌&&◌, ◌||◌, Option,
  none, some, List, [], ◌∷◌, ◌++◌,
}
use ashacky.Base.Json.{Json}
use ashacky.Trackpad.Frame.{UnitFloat, Point, validate}
use ashacky.Trackpad.Pad.{Write, Pad, frame}

pub record Loop : Type 0 where
  pub pad : Pad
  pub buf : Bytes
  pub last : ℕ
  pub next_ready : ℕ
  pub blocked : Bool

-- the outcome of `reply`: written, BlockingIOError, or another OSError
pub data Reply : Type 0 where
  sent would_block failed : Reply

-- what the loop puts out: the events of a frame, and its two messages
pub data Output : Type 0 where
  frame_writes : List Write → Output
  input_ready : Output
  input_applied : Output

-- `pad.slots or pad.buttons`
abbrev pub held : Pad → Bool
held p = ltb 0 (length p.slots) || not (p.buttons == 0)

abbrev pub newline : ℕ
newline = 10

-- `buf.split(b'\n', 1)`, `none` if there is no newline
unfoldable pub split_line : Bytes → Option (Bytes × Bytes)
split_line [] = none
split_line (c ∷ cs) =
    let rest = split_line cs in
    if c == newline
    then some ([], cs)
    else elim rest [ none ↦ none | some (line, more) ↦ some (c ∷ line, more) ]

-- The heartbeat to the host; `later` is the clock after it was written.
unfoldable pub heartbeat : ℕ → ℕ → Reply → Loop → Result (Loop × List Output)
heartbeat now later reply l =
    if leb l.next_ready now && not l.blocked
    then elim reply [
      | sent ↦ ok (record l { next_ready = later + 1000 }, input_ready ∷ [])
      | would_block ↦ ok (record l { blocked = true }, [])
      | failed ↦ err os_error
    ]
    else ok (l, [])

-- The acknowledgement of a frame with contacts.
unfoldable pub acknowledge : Bool → Reply → Loop → List Output → Result (Loop × List Output)
acknowledge false reply l out = ok (l, out)
acknowledge true sent l out = ok (l, out ++ input_applied ∷ [])
acknowledge true would_block l out = ok (l, out)
acknowledge true failed l out = err os_error

module _ {F : Type 0} (u : UnitFloat F) where
  -- `pad.frame(points, buttons)`; StopIteration leaves the loop
  abbrev pub submit : List (Point F) → ℕ → Loop → Result (Loop × List Output)
  submit ps b l = elim (frame u ps b l.pad) [
    | none ↦ err stop_iteration
    | some (pad, ws) ↦ ok (record l { pad = pad }, frame_writes ws ∷ [])
  ]

  -- Contacts that have been held for a second without a frame are lifted.
  unfoldable pub expire : ℕ → Loop → Result (Loop × List Output)
  unfolding frame
  expire now l = if held l.pad && leb 1000 (now - l.last) then submit [] 0 l else ok (l, [])

  -- The part of a round before `select`.
  unfoldable pub poll : ℕ → ℕ → Reply → Loop → Result (Loop × List Output)
  unfolding expire heartbeat
  poll now later reply l = do
    r ← expire now l
    s ← heartbeat now later reply r.0
    ok (s.0, r.1 ++ s.1)

module _ {F : Type 0} (u : UnitFloat F) (loads : Bytes → Result (Json F)) where
  -- One line of input.
  unfoldable pub handle_line : Bytes → ℕ → Reply → Loop → Result (Loop × List Output)
  unfolding validate frame acknowledge
  handle_line line now reply l = elim (loads line >>= validate u) [
    | err e ↦ submit u [] 0 l
    | ok (ps, b) ↦ do
      r ← submit u ps b l
      acknowledge (ltb 0 (length ps)) reply (record (r.0) { last = now }) r.1
  ]

  -- `while b'\n' in buf`, on fuel; the clock and the outcomes of the replies by the line's number.
  unfoldable pub lines : (ℕ → ℕ) → (ℕ → Reply) → ℕ → ℕ → Loop → Result (Loop × List Output)
  unfolding split_line handle_line
  lines clock replies zero k l = ok (l, [])
  lines clock replies (suc fuel) k l = elim (split_line l.buf) [
    | none ↦ ok (l, [])
    | some (line, more) ↦ do
      r ← handle_line line (clock k) (replies k) (record l { buf = more })
      s ← lines clock replies fuel (k + 1) r.0
      ok (s.0, r.1 ++ s.1)
  ]

  -- The part of a round after `select`, for the bytes that were read.
  unfoldable pub feed : (ℕ → ℕ) → (ℕ → Reply) → Bytes → Loop → Result (Loop × List Output)
  unfolding lines
  feed clock replies bytes l =
      let buf = l.buf ++ bytes in
      if ltb 65536 (length buf)
      then err value_error
      else lines clock replies (length buf) 0 (record l { buf = buf })

-- The timeout of `select`, `none` for no limit.
unfoldable pub select_timeout : ℕ → Loop → Option ℕ
select_timeout now l =
    if l.blocked
    then (if held l.pad then some (l.last + 1000 - now) else none)
    else some ((if held l.pad then min l.next_ready (l.last + 1000) else l.next_ready) - now)
