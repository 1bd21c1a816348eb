-- ===== src/Audio/Volume/Tests.antt =====
-- A quiet node is brought to the volume of the host, and its echo is ignored
-- (guest/devices/audio_volume.py).
use ashacky.Base.{
  leb, ◌==◌, if◌then◌else◌, ==_iff, ok, ℕ, ◌*◌, max, ◌≡◌, refl, false, none, some, List, [], ◌∷◌,
}
use ashacky.Base.Int.{pos}
use ashacky.Audio.Volume.{Floats, Device, Node, Answers, reset, enter_key, written, scheduled}
use ashacky.Audio.Volume.Reconcile.{finish, reconcile_levels, reconcile}
use ashacky.Audio.Volume.Settled.{reconcile_twice}

abbrev largest_of : List ℕ → ℕ
largest_of [] = 0
largest_of (x ∷ xs) = max x (largest_of xs)

-- a whole number of steps, of which 10 are all
abbrev steps : Floats ℕ
steps = record {
  close = λ x y. x == y;
  close_self = λ x. (==_iff x x).1 refl;
  same = λ x y. x == y;
  same_self = λ x. (==_iff x x).1 refl;
  is_zero = λ x. x == 0;
  is_scalar = λ x. leb x 10;
  one = 1;
  over = λ x m. if x == m then 1 else 0;
  times = λ x y. x * y;
  cube = λ x. x;
  cube_root = λ x. x;
  at_most_one = λ x. if leb x 10 then x else 10;
  largest = largest_of;
}

abbrev fine : Answers ℕ
fine = record { write = ok tt; change = ok none }

abbrev speakers : Device ℕ
speakers = record { uid = "speakers"; profile = some (3, false) }

abbrev loud : Node ℕ
loud = record { ident = pos 7; levels = ok (8 ∷ 8 ∷ [], false); soft = ([], false) }

abbrev adjusted : Node ℕ
adjusted = record { ident = pos 7; levels = ok (3 ∷ 3 ∷ [], false); soft = (1 ∷ 1 ∷ [], false) }

adjusting :
    let (v, fx, r) = reconcile steps fine speakers loud 0 reset in
    (fx ≡ written (pos 7) (3 ∷ 3 ∷ [], false) (1 ∷ 1 ∷ []) ∷ scheduled 2100 ∷ []) × (r ≡ ok none)
unfolding reconcile reconcile_levels enter_key finish
adjusting = (refl, refl)

reconcile_twice_example :
    let again =
      reconcile steps fine speakers adjusted 100 (reconcile steps fine speakers loud 0 reset).0 in
    (again.1 ≡ []) × (again.2 ≡ ok none)
reconcile_twice_example =
    reconcile_twice steps fine fine speakers loud adjusted 0 100 reset (3, false) (pos 7)
      (3 ∷ 3 ∷ [], false) (1 ∷ 1 ∷ []) (scheduled 2100 ∷ []) refl refl adjusting.0 adjusting.1 refl
      refl refl
