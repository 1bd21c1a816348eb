-- ===== src/Host/Status.antt =====
-- The revision of the host state in the status file (`host_revision` of
-- guest/devices/wifi_events.py, bluetooth_events.py and audio_events.py, which differ in the name
-- of the revision only). Times are milliseconds since the epoch.
use Prim.Native.String.{count}
use text.Mathlib.Text.{◌==◌ as str_eq}
use ashacky.Base.{
  ltb, leb, if◌then◌else◌, Result, ok, err, ℕ, ◌-◌, max, String, Bool, false, not, ◌&&◌, Option,
  none, some,
}
use ashacky.Base.Json.{Json, Fields, get, bool, str}

pub record Key (F : Type 0) : Type 0 where
  pub revision : String
  pub active : Option (Json F)
  pub wake_generation : Option (Json F)

-- `value.get(key) is True`, and `is False`
abbrev pub is_true : {F : Type 0} → Option (Json F) → Bool
is_true (some (bool b)) = b
is_true _ = false

abbrev pub is_false : {F : Type 0} → Option (Json F) → Bool
is_false (some (bool b)) = not b
is_false _ = false

abbrev pub is_text : {F : Type 0} → String → Option (Json F) → Bool
is_text t (some (str s)) = str_eq s t
is_text t _ = false

abbrev pub text_of : {F : Type 0} → Option (Json F) → Option String
text_of (some (str s)) = some s
text_of _ = none

-- `path.stat().st_mtime` and the parsed text; an error of either call, or a value that is no
-- dict, is caught and gives no revision.
pub record Snapshot (F : Type 0) : Type 0 where
  pub mtime : ℕ
  pub value : Fields F

-- The revision and the time for which it is good.
unfoldable pub host_revision : {F : Type 0} → String → Result (Snapshot F) → ℕ → Option (Key F) × ℕ
host_revision name (err e) now = (none, 0)
host_revision name (ok s) now =
    let age = now - s.mtime in
    elim (text_of (get name s.value)) [
      | none ↦ (none, 0)
      | some revision ↦
          if is_true (get "ok" s.value)
            && is_text "virtio-serial" (get "statusTransport" s.value)
            && ltb 0 (count revision)
            && leb (count revision) 128
            && ltb age 25000
          then (
            some (record {
              revision = revision;
              active = get "active" s.value;
              wake_generation = get "wakeGeneration" s.value;
            }),
            max 1000 (25000 - age),
          )
          else (none, 0)
    ]
