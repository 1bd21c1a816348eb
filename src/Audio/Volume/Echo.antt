-- ===== src/Audio/Volume/Echo.antt =====
-- What comes of the echo of an own write (guest/devices/audio_volume.py, `OutputVolume.reconcile`).
use mathlib.Core.Path.{subst}
use text.Mathlib.TextEquality.{eq_iff}
use ashacky.Base.{ok, ℕ, String, ◌≡◌, refl, sym, Bool, true, false, none, some, List, [], ◌∷◌}
use ashacky.Base.Int.{ℤ}
use ashacky.Audio.Graph.{same_id_self}
use ashacky.Audio.Volume.{
  Levels, Floats, Device, Node, Answers, OutputVolume, Outcome, key_is, same_flag, all_close, equal,
  equal_to, host_is, scale, enter_key, settle_pending,
}
use ashacky.Audio.Volume.Reconcile.{
  finish, after_pending, reconcile_levels, with_levels, with_profile, reconcile,
}

module _ {X : Type 0} (q : Floats X) where
  same_flag_self : (b : Bool) → same_flag b b ≡ true
  same_flag_self true = refl
  same_flag_self false = refl

  all_close_self : (xs : List X) → all_close q xs xs ≡ true
  all_close_self [] = refl
  all_close_self (x ∷ xs) = rw (q.close_self x) (all_close_self xs)

  equal_self : (l : Levels X) → equal q l l ≡ true
  equal_self l = rw (same_flag_self l.1) (all_close_self l.0)

  host_is_self : (h : X × Bool) → host_is q h (some h) ≡ true
  host_is_self h = rw (q.same_self h.0) (same_flag_self h.1)

  pub key_is_self : (k : String × ℤ) → key_is k (some k) ≡ true
  key_is_self k = rw ((eq_iff k.0 k.0).1 refl, same_id_self k.1) refl

  -- the state after a write
  abbrev pub IsWaiting : String → ℤ → X × Bool → Levels X → List X → OutputVolume X → Type 0
  IsWaiting uid i host wanted software v =
      (key_is (uid, i) v.key ≡ true)
      × (v.host ≡ some host)
      × (v.observed ≡ some wanted)
      × (v.balance ≡ software)
      × (wanted ≡ (scale q (q.cube host.0) software, host.1))
      × (old : Levels X) × (deadline : ℕ) × (v.pending ≡ some (old, wanted, deadline))

  settle_pending_echo :
      (wanted old : Levels X) (host : X × Bool) (now deadline : ℕ) (v : OutputVolume X)
      → settle_pending q wanted host now (some (old, wanted, deadline)) v
        ≡ (record v { pending = none }, some false)
  settle_pending_echo wanted old host now deadline v = rw (equal_self wanted) refl

  abbrev pub IsQuiet : Outcome X → Type 0
  IsQuiet o = (o.1 ≡ []) × (o.2 ≡ ok none)

  finish_echo :
      (a : Answers X) (node : Node X) (host : X × Bool) (wanted : Levels X) (now : ℕ)
      (v : OutputVolume X)
      → wanted ≡ (scale q (q.cube host.0) v.balance, host.1)
      → node.soft ≡ (v.balance, host.1)
      → IsQuiet (finish q a node host wanted none now v)
  unfolding finish
  finish_echo a node host wanted now v w s =
      let same : equal q wanted (scale q (q.cube host.0) v.balance, host.1) ≡ true =
        subst (λ l. equal q wanted l ≡ true) w (equal_self wanted) in
      let soft : equal q node.soft (v.balance, host.1) ≡ true =
        subst (λ l. equal q node.soft l ≡ true) s (equal_self node.soft) in
      rw (same, soft) (refl, refl)

  after_pending_echo :
      (a : Answers X) (node : Node X) (uid : String) (host : X × Bool) (wanted : Levels X) (now : ℕ)
      (v : OutputVolume X)
      → host_is q host v.host ≡ true
      → equal_to q wanted v.observed ≡ true
      → wanted ≡ (scale q (q.cube host.0) v.balance, host.1)
      → node.soft ≡ (v.balance, host.1)
      → IsQuiet (after_pending q a node uid host wanted false now (v, some false))
  after_pending_echo a node uid host wanted now v h o w s =
      rw (h, o) (finish_echo a node host wanted now v w s)

  -- the part of `reconcile` that the echo comes to
  reconcile_levels_echo :
      (a : Answers X) (node : Node X) (uid : String) (host : X × Bool) (now : ℕ)
      (v : OutputVolume X) (wanted : Levels X) (software : List X)
      → IsWaiting uid node.ident host wanted software v
      → node.soft ≡ (software, host.1)
      → IsQuiet (reconcile_levels q a node uid host now v wanted)
  unfolding reconcile_levels enter_key
  reconcile_levels_echo a node uid host now v wanted software (k, h, o, b, w, old, deadline, p) s =
      let fit : host_is q host v.host ≡ true =
        subst (λ x. host_is q host x ≡ true) (sym h) (host_is_self host) in
      let seen : equal_to q wanted v.observed ≡ true =
        subst (λ x. equal_to q wanted x ≡ true) (sym o) (equal_self wanted) in
      let settled : settle_pending q wanted host now v.pending v
          ≡ (record v { pending = none }, some false) =
        subst
          (λ x. settle_pending q wanted host now x v ≡ (record v { pending = none }, some false))
          (sym p) (settle_pending_echo wanted old host now deadline v) in
      rw k (
        subst (λ x. IsQuiet (after_pending q a node uid host wanted false now x)) (sym settled)
          (after_pending_echo a node uid host wanted now (record v { pending = none }) fit seen
            (subst (λ x. wanted ≡ (scale q (q.cube host.0) x, host.1)) (sym b) w)
            (subst (λ x. node.soft ≡ (x, host.1)) (sym b) s)))

  pub reconcile_echo :
      (a : Answers X) (d : Device X) (node : Node X) (now : ℕ) (v : OutputVolume X)
      (host : X × Bool) (wanted : Levels X) (software : List X)
      → d.profile ≡ some host
      → q.is_scalar host.0 ≡ true
      → IsWaiting d.uid node.ident host wanted software v
      → node.levels ≡ ok wanted
      → node.soft ≡ (software, host.1)
      → IsQuiet (reconcile q a d node now v)
  unfolding reconcile
  reconcile_echo a d node now v host wanted software p c w l s =
      let here : IsQuiet (with_levels q a node d.uid host now v node.levels) =
        subst (λ r. IsQuiet (with_levels q a node d.uid host now v r)) (sym l)
          (reconcile_levels_echo a node d.uid host now v wanted software w s) in
      subst (λ x. IsQuiet (with_profile q a node d.uid now v x)) (sym p) (rw c here)
