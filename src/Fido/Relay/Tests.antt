-- ===== src/Fido/Relay/Tests.antt =====
-- A request of a key that the relay sends to the host, and its reply (guest/auth/fido2.py, `class Relay`).
use ashacky.Base.{All, Result, os_error, err, ok, ℕ, true, none, some, List, [], ◌∷◌, arith}
use ashacky.Base.Json.{bool, obj, end, field}
use ashacky.Fido.Relay.{Codec, Relay, Ready, check_deadlines, step, client}
use ashacky.Fido.Relay.Bounded.{RelayIsValid, ValidOrDrawing, step-RelayIsValid}
use ashacky.Fido.Relay.Fresh.{Fresh, check_deadlines-Fresh}

abbrev plain : Codec ⊥
plain = record {
  dump_request = λ id cid payload. payload;
  dump_cancel = λ id. [];
  loads = λ line. ok (obj (field "ok" (bool true) end));
  b64decode = λ v. ok (0 ∷ []);
}

-- channel 5 waits for request 7, whose client is on socket 3
abbrev waiting : Relay
waiting = record {
  hid = record {
    channels = 5 ∷ [];
    fragment = none;
    busy = some (record { cid = 5; request_id = 7; deadline = 65000; keepalive = 200 });
  };
  clients =
      record { socket = 3; output = []; input = []; completes = some 7; deadline = 70000 } ∷ [];
}

waiting-RelayIsValid : RelayIsValid waiting
waiting-RelayIsValid = ground arith

abbrev dials : ℕ → ℕ → Result ℕ
dials i k = err os_error

abbrev clock : ℕ → ℕ → ℕ
clock i k = 100

-- the reply of the host, a line
abbrev replies : List Ready
replies = client 3 none (some (ok (10 ∷ []))) ∷ []

step-RelayIsValid_example :
    ValidOrDrawing plain dials clock (step plain dials clock replies 100 100 waiting)
step-RelayIsValid_example =
    step-RelayIsValid plain dials clock replies 100 100 waiting waiting-RelayIsValid

check_deadlines-Fresh_example :
    All (Fresh 80000) (check_deadlines plain (dials 0) (clock 0) 100 80000 waiting).0.clients
check_deadlines-Fresh_example = check_deadlines-Fresh plain (dials 0) (clock 0) 100 80000 waiting
