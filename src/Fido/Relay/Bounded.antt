-- ===== src/Fido/Relay/Bounded.antt =====
-- The relay keeps the machine valid and its clients few and fresh (guest/auth/fido2.py, `class Relay`).
use mathlib.Core.Path.{subst}
use ashacky.Base.{
  leb, Bool-cases, Option-cases, length, length-append, Bytes, Result, err, ok, ℕ, ◌+◌, ◌≤◌, ◌<◌,
  ◌≡◌, refl, inl, inr, false, Option, none, some, List, [], ◌∷◌, arith,
}
use ashacky.Fido.Hid.State.{Hid, Effect, Draw, abort, emit, request, cancel, raised}
use ashacky.Fido.Hid.Deadlines.{timeout}
use ashacky.Fido.Hid.Defs.{receive}
use ashacky.Fido.Hid.Invariant.{IsValid, abort-Good}
use ashacky.Fido.Hid.Calls.{GoodOrDrawing, receive-IsValid, complete-IsValid}
use ashacky.Fido.Hid.Clock.{timeout-IsValid}
use ashacky.Fido.Relay.{
  Codec, Client, Relay, Uhid, device_event, keep_others, replace, unavailable, completion, give_up,
  new_client, connect, rpc, finish, Progress, payload_of, perform, advance, settle, serve_client,
  expire_client, expire_clients, client_at, Ready, after, after_receive, serve_device, serve_ready,
  check_deadlines, then_more, serve_all, step, output_report, session_end, ignored, refuse_get,
  refuse_set, going, replied, device, client,
}

-- a valid machine, and at most eight clients
abbrev pub RelayIsValid : Relay → Type 0
RelayIsValid r = IsValid r.hid × (length r.clients ≤ 8)

completion-IsValid :
    (completes : Option ℕ) (payload : Bytes) (h : Hid)
    → IsValid h
    → IsValid (completion completes payload h).0
unfolding completion
completion-IsValid none payload h v = v
completion-IsValid (some id) payload h v = (complete-IsValid id payload h v).0

length-keep_others : (socket : ℕ) (cs : List Client) → length (keep_others socket cs) ≤ length cs
length-keep_others socket [] = omega arith
length-keep_others socket (c ∷ cs) = ground (arith, length-keep_others socket cs)

length-replace : (new : Client) (cs : List Client) → length (replace new cs) ≡ length cs
length-replace new [] = refl
length-replace new (c ∷ cs) = ground (arith, length-replace new cs)

give_up-RelayIsValid :
    (completes : Option ℕ) (r : Relay) → RelayIsValid r → RelayIsValid (give_up completes r).0
unfolding give_up
give_up-RelayIsValid completes r (v, n) = (completion-IsValid completes unavailable r.hid v, n)

connect-RelayIsValid :
    (dial : Result ℕ) (now : ℕ) (message : Bytes) (completes : Option ℕ) (r : Relay)
    → length r.clients < 8
    → RelayIsValid r
    → RelayIsValid (connect dial now message completes r).0
unfolding connect
connect-RelayIsValid (err e) now message completes r room v = give_up-RelayIsValid completes r v
connect-RelayIsValid (ok socket) now message completes r room (v, n) =
    (v, omega (arith, length-append r.clients (new_client socket now message completes ∷ [])))

rpc-RelayIsValid :
    (dial : Result ℕ) (now : ℕ) (message : Bytes) (completes : Option ℕ) (r : Relay)
    → RelayIsValid r
    → RelayIsValid (rpc dial now message completes r).0
unfolding rpc
rpc-RelayIsValid dial now message completes r v = elim (Bool-cases (leb 8 (length r.clients))) [
  | inl full ↦ rw (rpc, full) (give_up-RelayIsValid completes r v)
  | inr room ↦ rw (rpc, room) (connect-RelayIsValid dial now message completes r (ground arith) v)
]

finish-RelayIsValid :
    (socket : ℕ) (completes : Option ℕ) (payload : Bytes) (r : Relay)
    → RelayIsValid r
    → RelayIsValid (finish socket completes payload r).0
unfolding finish
finish-RelayIsValid socket completes payload r (v, n) = (
  completion-IsValid completes payload r.hid v,
  omega (arith, length-keep_others socket r.clients),
)

expire_client-RelayIsValid :
    (now : ℕ) (c : Client) (r : Relay) → RelayIsValid r → RelayIsValid (expire_client now c r).0
unfolding expire_client
expire_client-RelayIsValid now c r v = elim (Bool-cases (leb c.deadline now)) [
  | inl due ↦ rw (expire_client, due) (finish-RelayIsValid c.socket c.completes unavailable r v)
  | inr not_due ↦ rw (expire_client, not_due) v
]

expire_clients-RelayIsValid :
    (now : ℕ) (cs : List Client) (r : Relay)
    → RelayIsValid r
    → RelayIsValid (expire_clients now cs r).0
unfolding expire_clients
expire_clients-RelayIsValid now [] r v = v
expire_clients-RelayIsValid now (c ∷ cs) r v =
    expire_clients-RelayIsValid now cs _ (expire_client-RelayIsValid now c r v)

module _ {F : Type 0} (codec : Codec F) where
  perform-RelayIsValid :
      (dials : ℕ → Result ℕ) (clock : ℕ → ℕ) (k : ℕ) (es : List Effect) (r : Relay)
      → RelayIsValid r
      → RelayIsValid (perform codec dials clock k es r).0
  unfolding perform
  perform-RelayIsValid dials clock k [] r v = v
  perform-RelayIsValid dials clock k (emit p ∷ es) r v = perform-RelayIsValid dials clock k es r v
  perform-RelayIsValid dials clock k (request id cid payload ∷ es) r v =
      perform-RelayIsValid dials clock (k + 1) es _
        (rpc-RelayIsValid (dials k) (clock k) (codec.dump_request id cid payload) (some id) r v)
  perform-RelayIsValid dials clock k (cancel id ∷ es) r v =
      perform-RelayIsValid dials clock (k + 1) es _
        (rpc-RelayIsValid (dials k) (clock k) (codec.dump_cancel id) none r v)
  perform-RelayIsValid dials clock k (raised e ∷ es) r v = v

  settle-RelayIsValid :
      (c : Client) (r : Relay) (p : Progress F)
      → RelayIsValid r
      → RelayIsValid (settle codec c r p).0
  unfolding settle
  settle-RelayIsValid c r (going c') (v, n) = (v, omega (arith, length-replace c' r.clients))
  settle-RelayIsValid c r (replied w) v =
      finish-RelayIsValid c.socket c.completes (payload_of codec w) r v

  serve_client-RelayIsValid :
      (sent : Option (Result ℕ)) (received : Option (Result Bytes)) (c : Client) (r : Relay)
      → RelayIsValid r
      → RelayIsValid (serve_client codec sent received c r).0
  unfolding serve_client
  serve_client-RelayIsValid sent received c r v =
      settle-RelayIsValid c r (advance codec sent received c) v

  module _ (dials : ℕ → Result ℕ) (clock : ℕ → ℕ) where
    after-RelayIsValid :
        (m : Hid × List Effect) (r : Relay)
        → IsValid m.0
        → RelayIsValid r
        → RelayIsValid (after codec dials clock m r).0
    unfolding after
    after-RelayIsValid (h, es) r v (w, n) =
        perform-RelayIsValid dials clock 0 es (record r { hid = h }) (v, n)

    -- the outcome of a call that may still be drawing
    abbrev pub DrawingOrValid : Option (Relay × List Effect) → Type 0
    DrawingOrValid none = Unit
    DrawingOrValid (some m) = RelayIsValid m.0

    received-RelayIsValid :
        (o : Option (Hid × List Effect)) (r : Relay)
        → GoodOrDrawing o
        → RelayIsValid r
        → DrawingOrValid (after_receive codec dials clock o r)
    received-RelayIsValid none r g v = tt
    received-RelayIsValid (some m) r g v = after-RelayIsValid m r (g.0) v

    serve_device-RelayIsValid :
        (u : Result Uhid) (draw : Draw) (r : Relay)
        → RelayIsValid r
        → DrawingOrValid (serve_device codec dials clock u draw r)
    unfolding serve_device
    serve_device-RelayIsValid (err e) draw r v = v
    serve_device-RelayIsValid (ok (output_report p)) draw r v =
        received-RelayIsValid (receive draw p r.hid) r (receive-IsValid draw p r.hid (v.0)) v
    serve_device-RelayIsValid (ok session_end) draw r v =
        after-RelayIsValid (abort false r.hid) r ((abort-Good false r.hid (v.0)).0) v
    serve_device-RelayIsValid (ok ignored) draw r v = v
    serve_device-RelayIsValid (ok (refuse_get id)) draw r v = v
    serve_device-RelayIsValid (ok (refuse_set id)) draw r v = v

    -- A ready descriptor keeps a valid relay valid.
    serve_ready-RelayIsValid :
        (x : Ready) (r : Relay)
        → RelayIsValid r
        → DrawingOrValid (serve_ready codec dials clock x r)
    unfolding serve_ready
    serve_ready-RelayIsValid (device event draw) r v =
        serve_device-RelayIsValid (device_event event) draw r v
    serve_ready-RelayIsValid (client socket sent received) r v =
        elim (Option-cases (client_at socket r.clients)) [
          | inl e ↦ rw (serve_ready, e) v
          | inr (c, e) ↦ rw (serve_ready, e) (serve_client-RelayIsValid sent received c r v)
        ]

    -- The checks at the end of a round keep a valid relay valid.
    check_deadlines-RelayIsValid :
        (now later : ℕ) (r : Relay)
        → RelayIsValid r
        → RelayIsValid (check_deadlines codec dials clock now later r).0
    unfolding check_deadlines
    check_deadlines-RelayIsValid now later r v =
        let r' = (after codec dials clock (timeout now r.hid) r).0 in
        expire_clients-RelayIsValid later r'.clients r'
          (after-RelayIsValid (timeout now r.hid) r ((timeout-IsValid now r.hid (v.0)).0) v)

module _ {F : Type 0} (codec : Codec F) (dials : ℕ → ℕ → Result ℕ) (clock : ℕ → ℕ → ℕ) where
  -- The outcome of a part of a round, unless it is still drawing.
  abbrev pub ValidOrDrawing : Option (Relay × List Effect) → Type 0
  ValidOrDrawing none = Unit
  ValidOrDrawing (some m) = RelayIsValid m.0

  then_more-RelayIsValid :
      (es : List Effect) (o : Option (Relay × List Effect))
      → ValidOrDrawing o
      → ValidOrDrawing (then_more es o)
  then_more-RelayIsValid es none v = tt
  then_more-RelayIsValid es (some m) v = v

  serve_all-RelayIsValid :
      (i : ℕ) (xs : List Ready) (r : Relay)
      → RelayIsValid r
      → ValidOrDrawing (serve_all codec dials clock i xs r)
  unfolding serve_all
  serve_all-RelayIsValid i [] r v = v
  serve_all-RelayIsValid i (x ∷ xs) r v =
      elim (Option-cases (serve_ready codec (dials i) (clock i) x r)) [
        | inl e ↦ rw (serve_all, e) tt
        | inr ((r', es), e) ↦
            rw (serve_all, e)
              (then_more-RelayIsValid es _ (
                serve_all-RelayIsValid (i + 1) xs r' (
                  subst (DrawingOrValid codec (dials i) (clock i)) e
                    (serve_ready-RelayIsValid codec (dials i) (clock i) x r v))))
      ]

  -- Whatever the device, the sockets and the host say in a round of the relay's loop, and whatever
  -- the clock shows: a valid relay, that is a valid channel machine and at most eight clients, stays
  -- valid. Only a round that is still drawing a channel id has no outcome yet.
  pub step-RelayIsValid :
      (xs : List Ready) (now later : ℕ) (r : Relay)
      → RelayIsValid r
      → ValidOrDrawing (step codec dials clock xs now later r)
  unfolding step
  step-RelayIsValid xs now later r v = elim (Option-cases (serve_all codec dials clock 0 xs r)) [
    | inl e ↦ rw (step, e) tt
    | inr ((r', es), e) ↦
        rw (step, e)
          (check_deadlines-RelayIsValid codec (dials (length xs)) (clock (length xs)) now later r'
            (subst ValidOrDrawing e (serve_all-RelayIsValid 0 xs r v)))
  ]
