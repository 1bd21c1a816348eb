-- ===== src/Audio/Volume/Writing.antt =====
-- A reconciliation that writes waits for the echo (guest/devices/audio_volume.py,
-- `OutputVolume.reconcile`).
use mathlib.Core.Path.{subst}
use text.Mathlib.Text.{◌==◌ as str_eq}
use ashacky.Base.{
  ltb, Bool-cases, if-intro, Result, value_error, err, ok, ℕ, ◌+◌, String, ◌≡◌, refl, sym, ap, ◌∙◌,
  ◌≢◌, inl, inr, Bool, true, false, not, ◌&&◌, Option, none, some, List, [], ◌∷◌,
}
use ashacky.Base.Int.{ℤ}
use ashacky.Audio.Volume.{
  Levels, Floats, Device, Node, Effect, Answers, OutputVolume, Outcome, key_is, fallback, fall_back,
  equal, host_is, scale, enter_key, settle_pending, written,
}
use ashacky.Audio.Volume.Reconcile.{
  after_finish, finish, after_profile, after_change, push, after_pending, reconcile_levels,
  with_levels, with_profile, reconcile,
}
use ashacky.Audio.Volume.Echo.{key_is_self, IsWaiting}

module _ {X : Type 0} (q : Floats X) where
  -- a reconciliation that writes first, and has no reply, waits for the echo of what it wrote
  abbrev pub IsWriting : String → Node X → X × Bool → Outcome X → Type 0
  IsWriting uid node host o =
      (i : ℤ) (wanted : Levels X) (software : List X) (rest : List (Effect X))
      → o.1 ≡ written i wanted software ∷ rest
      → o.2 ≡ ok none
      → IsWaiting q uid node.ident host wanted software o.0

  after_finish-IsWriting :
      (r : Result (Unit {0})) (node : Node X) (uid : String) (host : X × Bool) (actual : Levels X)
      (now : ℕ) (v : OutputVolume X)
      → key_is (uid, node.ident) v.key ≡ true
      → let full : Levels X = (scale q (q.cube host.0) v.balance, host.1) in
        IsWriting uid node host
          (after_finish q v host actual full none now (written node.ident full v.balance) r)
  after_finish-IsWriting (err e) node uid host actual now v k i wanted software rest w r = cc
  after_finish-IsWriting (ok done) node uid host actual now v k i wanted software rest w r =
      let full : Levels X = (scale q (q.cube host.0) v.balance, host.1) in
      let same : full ≡ wanted = cc in
      let balanced : v.balance ≡ software = cc in
      (
        k,
        refl,
        ap some same,
        balanced,
        sym same ∙ ap (λ b. (scale q (q.cube host.0) b, host.1)) balanced,
        actual,
        now + 2000,
        ap (λ l. some (actual, l, now + 2000)) same,
      )

  quiet-IsWriting :
      (uid : String) (node : Node X) (host : X × Bool) (v : OutputVolume X)
      (r : Result (Option (Option (Device X))))
      → IsWriting uid node host (v, [], r)
  quiet-IsWriting uid node host v r i wanted software rest w s = cc

  finish-IsWriting :
      (a : Answers X) (node : Node X) (uid : String) (host : X × Bool) (actual : Levels X) (now : ℕ)
      (v : OutputVolume X)
      → key_is (uid, node.ident) v.key ≡ true
      → IsWriting uid node host (finish q a node host actual none now v)
  unfolding finish
  finish-IsWriting a node uid host actual now v k =
      if-intro (IsWriting uid node host) _ _ _ (quiet-IsWriting uid node host _ _)
        (after_finish-IsWriting a.write node uid host actual now v k)

  -- a request has a reply, or raises
  abbrev HasReply : Outcome X → Type 0
  HasReply o = o.2 ≢ ok none

  fall_back-HasReply :
      (d : Option (Device X)) (p : OutputVolume X × List (Effect X) × Result (Unit {0}))
      → HasReply (fall_back (some d) p)
  fall_back-HasReply d (v, fx, err e) h = cc
  fall_back-HasReply d (v, fx, ok done) h = cc

  after_finish-HasReply :
      (d : Option (Device X)) (r : Result (Unit {0})) (v : OutputVolume X) (host : X × Bool)
      (actual wanted : Levels X) (now : ℕ) (w : Effect X)
      → HasReply (after_finish q v host actual wanted (some d) now w r)
  after_finish-HasReply d (err e) v host actual wanted now w h = cc
  after_finish-HasReply d (ok done) v host actual wanted now w h = cc

  reply-HasReply :
      (d : Option (Device X)) (v : OutputVolume X) (fx : List (Effect X))
      → HasReply (v, fx, ok (some d))
  reply-HasReply d v fx h = cc

  finish-HasReply :
      (a : Answers X) (node : Node X) (host : X × Bool) (actual : Levels X) (d : Option (Device X))
      (now : ℕ) (v : OutputVolume X)
      → HasReply (finish q a node host actual (some d) now v)
  unfolding finish
  finish-HasReply a node host actual d now v =
      if-intro HasReply _ _ _
        (reply-HasReply d
          (record v {
            host = some host;
            observed = some (scale q (q.cube host.0) v.balance, host.1);
          })
          [])
        (after_finish-HasReply d a.write v host actual _ now _)

  after_profile-HasReply :
      (a : Answers X) (node : Node X) (actual : Levels X) (d : Option (Device X)) (now : ℕ)
      (v : OutputVolume X) (profile : Option (X × Bool))
      → HasReply (after_profile q a node actual d now v profile)
  after_profile-HasReply a node actual d now v none =
      fall_back-HasReply d (fallback a (some node) v)
  after_profile-HasReply a node actual d now v (some host) =
      finish-HasReply a node host actual d now v

  after_change-HasReply :
      (a : Answers X) (node : Node X) (uid : String) (actual : Levels X) (now : ℕ)
      (v : OutputVolume X) (r : Result (Option (Device X)))
      → HasReply (after_change q a node uid actual now v r)
  after_change-HasReply a node uid actual now v (err e) = λ h. cc
  after_change-HasReply a node uid actual now v (ok none) =
      fall_back-HasReply none (fallback a (some node) v)
  after_change-HasReply a node uid actual now v (ok (some d)) =
      if-intro HasReply (str_eq d.uid uid) _ _
        (after_profile-HasReply a node actual (some d) now v d.profile)
        (fall_back-HasReply (some d) (fallback a (some node) v))

  push-IsWriting :
      (a : Answers X) (node : Node X) (uid : String) (host : X × Bool) (actual : Levels X) (now : ℕ)
      (v : OutputVolume X)
      → IsWriting uid node host (push q a node uid host actual now v)
  unfolding push
  push-IsWriting a node uid host actual now v i wanted software rest w r =
      absurd (after_change-HasReply a node uid actual now _ a.change r)

  after_pending-IsWriting :
      (a : Answers X) (node : Node X) (uid : String) (host : X × Bool) (actual : Levels X)
      (fresh : Bool) (now : ℕ) (p : OutputVolume X × Option Bool)
      → key_is (uid, node.ident) p.0.key ≡ true
      → IsWriting uid node host (after_pending q a node uid host actual fresh now p)
  after_pending-IsWriting a node uid host actual fresh now (v, none) k =
      quiet-IsWriting uid node host v (ok none)
  after_pending-IsWriting a node uid host actual fresh now (v, some stale) k =
      if-intro (IsWriting uid node host) _ _ _ (push-IsWriting a node uid host actual now v)
        (finish-IsWriting a node uid host actual now v k)

  abbrev KeepsKey : OutputVolume X → OutputVolume X × Option Bool → Type 0
  KeepsKey v p = p.0.key ≡ v.key

  settle_pending-KeepsKey :
      (actual : Levels X) (host : X × Bool) (now : ℕ) (p : Option (Levels X × Levels X × ℕ))
      (v : OutputVolume X)
      → KeepsKey v (settle_pending q actual host now p v)
  settle_pending-KeepsKey actual host now none v = refl
  settle_pending-KeepsKey actual host now (some (old, wanted, deadline)) v =
      if-intro (KeepsKey v) (equal q actual wanted) (record v { pending = none }, some false) _ refl
        (if-intro (KeepsKey v) (equal q actual old) _ (record v { pending = none }, some false)
          (if-intro (KeepsKey v) (host_is q host v.host && ltb now deadline) (v, none)
            (record v { pending = none }, some true) refl refl)
          refl)

  enter_key_key :
      (key : String × ℤ) (actual : Levels X) (v : OutputVolume X)
      → key_is key (enter_key q (not (key_is key v.key)) key actual v).key ≡ true
  unfolding enter_key
  enter_key_key key actual v = elim (Bool-cases (key_is key v.key)) [
    | inl y ↦ rw y y
    | inr n ↦ rw n (key_is_self q key)
  ]

  reconcile_levels-IsWriting :
      (a : Answers X) (node : Node X) (uid : String) (host : X × Bool) (now : ℕ)
      (v : OutputVolume X) (actual : Levels X)
      → IsWriting uid node host (reconcile_levels q a node uid host now v actual)
  unfolding reconcile_levels
  reconcile_levels-IsWriting a node uid host now v actual =
      let v' = enter_key q (not (key_is (uid, node.ident) v.key)) (uid, node.ident) actual v in
      after_pending-IsWriting a node uid host actual _ now
        (settle_pending q actual host now v'.pending v')
        (subst (λ k. key_is (uid, node.ident) k ≡ true)
          (sym (settle_pending-KeepsKey actual host now v'.pending v'))
          (enter_key_key (uid, node.ident) actual v))

  with_levels-IsWriting :
      (a : Answers X) (node : Node X) (uid : String) (host : X × Bool) (now : ℕ)
      (v : OutputVolume X) (r : Result (Levels X))
      → IsWriting uid node host (with_levels q a node uid host now v r)
  with_levels-IsWriting a node uid host now v (err e) = quiet-IsWriting uid node host v (err e)
  with_levels-IsWriting a node uid host now v (ok actual) =
      reconcile_levels-IsWriting a node uid host now v actual

  pub reconcile-IsWriting :
      (a : Answers X) (d : Device X) (node : Node X) (now : ℕ) (v : OutputVolume X)
      (host : X × Bool)
      → d.profile ≡ some host
      → IsWriting d.uid node host (reconcile q a d node now v)
  unfolding reconcile
  reconcile-IsWriting a d node now v host p =
      subst (λ x. IsWriting d.uid node host (with_profile q a node d.uid now v x)) (sym p)
        (if-intro (IsWriting d.uid node host) (q.is_scalar host.0) _ _
          (with_levels-IsWriting a node d.uid host now v node.levels)
          (quiet-IsWriting d.uid node host v (err value_error)))
