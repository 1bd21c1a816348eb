-- ===== src/Audio/Volume/Reconcile.antt =====
-- One reconciliation of the output volume (guest/devices/audio_volume.py, `OutputVolume.reconcile`).
-- The clock is read once.
use text.Mathlib.Text.{◌==◌ as str_eq}
use ashacky.Base.{
  if◌then◌else◌, Result, value_error, err, ok, ℕ, ◌+◌, String, Bool, not, ◌&&◌, Option, none, some,
  [], ◌∷◌,
}
use ashacky.Audio.Volume.{
  Levels, Floats, Device, Node, Effect, Answers, OutputVolume, Outcome, key_is, fallback, fall_back,
  before, equal, equal_to, host_is, scale, parts_or, enter_key, settle_pending, written, asked,
  scheduled,
}

module _ {X : Type 0} (q : Floats X) where
  abbrev pub after_finish :
      OutputVolume X
      → X × Bool
      → Levels X
      → Levels X
      → Option (Option (Device X))
      → ℕ
      → Effect X
      → Result (Unit {0})
      → Outcome X
  after_finish v host actual wanted result now w (err e) = (v, w ∷ [], err e)
  after_finish v host actual wanted result now w (ok done) = (
    record v {
      pending = some (actual, wanted, now + 2000);
      host = some host;
      observed = some wanted;
    },
    w ∷ scheduled 2100 ∷ [],
    ok result,
  )

  -- from `wanted` on
  unfoldable pub finish :
      Answers X
      → Node X
      → X × Bool
      → Levels X
      → Option (Option (Device X))
      → ℕ
      → OutputVolume X
      → Outcome X
  finish a node host actual result now v =
      let wanted : Levels X = (scale q (q.cube host.0) v.balance, host.1) in
      if equal q actual wanted && equal q node.soft (v.balance, host.1)
      then (record v { host = some host; observed = some wanted }, [], ok result)
      else after_finish v host actual wanted result now (written node.ident wanted v.balance)
          a.write

  -- what is done with the profile of the reply
  abbrev pub after_profile :
      Answers X
      → Node X
      → Levels X
      → Option (Device X)
      → ℕ
      → OutputVolume X
      → Option (X × Bool)
      → Outcome X
  after_profile a node actual reply now v none = fall_back (some reply) (fallback a (some node) v)
  after_profile a node actual reply now v (some host) = finish a node host actual (some reply) now v

  abbrev pub after_change :
      Answers X
      → Node X
      → String
      → Levels X
      → ℕ
      → OutputVolume X
      → Result (Option (Device X))
      → Outcome X
  after_change a node uid actual now v (err e) = (v, [], err e)
  after_change a node uid actual now v (ok none) = fall_back (some none) (fallback a (some node) v)
  after_change a node uid actual now v (ok (some d)) =
      if str_eq d.uid uid
      then after_profile a node actual (some d) now v d.profile
      else fall_back (some (some d)) (fallback a (some node) v)

  -- the choice of the user goes to the host
  unfoldable pub push :
      Answers X → Node X → String → X × Bool → Levels X → ℕ → OutputVolume X → Outcome X
  push a node uid host actual now v =
      let m = q.largest actual.0 in
      let v' : OutputVolume X = record v { balance = parts_or q m actual.0 v.balance } in
      before (asked uid (q.at_most_one (q.cube_root m), actual.1) host ∷ [])
        (after_change a node uid actual now v' a.change)

  abbrev pub after_pending :
      Answers X
      → Node X
      → String
      → X × Bool
      → Levels X
      → Bool
      → ℕ
      → OutputVolume X × Option Bool
      → Outcome X
  after_pending a node uid host actual fresh now (v, none) = (v, [], ok none)
  after_pending a node uid host actual fresh now (v, some stale) =
      if not fresh && not stale && host_is q host v.host && not (equal_to q actual v.observed)
      then push a node uid host actual now v
      else finish a node host actual none now v

  unfoldable pub reconcile_levels :
      Answers X → Node X → String → X × Bool → ℕ → OutputVolume X → Levels X → Outcome X
  reconcile_levels a node uid host now v actual =
      let fresh = not (key_is (uid, node.ident) v.key) in
      let v' = enter_key q fresh (uid, node.ident) actual v in
      after_pending a node uid host actual fresh now
        (settle_pending q actual host now v'.pending v')

  abbrev pub with_levels :
      Answers X → Node X → String → X × Bool → ℕ → OutputVolume X → Result (Levels X) → Outcome X
  with_levels a node uid host now v (err e) = (v, [], err e)
  with_levels a node uid host now v (ok actual) = reconcile_levels a node uid host now v actual

  abbrev pub with_profile :
      Answers X → Node X → String → ℕ → OutputVolume X → Option (X × Bool) → Outcome X
  with_profile a node uid now v none = fall_back none (fallback a (some node) v)
  with_profile a node uid now v (some host) =
      if q.is_scalar host.0
      then with_levels a node uid host now v node.levels
      else (v, [], err value_error)

  unfoldable pub reconcile : Answers X → Device X → Node X → ℕ → OutputVolume X → Outcome X
  reconcile a device node now v = with_profile a node device.uid now v device.profile
