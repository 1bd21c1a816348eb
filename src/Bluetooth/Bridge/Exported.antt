-- ===== src/Bluetooth/Bridge/Exported.antt =====
-- What the bridge exports after an update (guest/devices/bluetooth_bluez.py, `update`).
use mathlib.Core.Path.{subst}
use ashacky.Base.{
  if◌then◌else◌, Bool-cases, Option-cases, is_some, Bytes, >>=-eq-ok, ok, ℕ, ◌≡◌, refl, sym, ap,
  ◌∙◌, inl, inr, Bool, true, false, ◌||◌, Option, none, some, List, [], ◌∷◌, arith,
}
use ashacky.Base.Json.{Json, Items, Fields, item, null, bool, int, float, str, arr, obj, nil, cons}
use ashacky.Base.Assoc.{
  lookup, has, put, erase, puts, HasKeysOnce, lookup-erase_self, lookup-erase_ne, put-HasKeysOnce,
  or_else, lookup-puts, has-put,
}
use ashacky.Bluetooth.Bridge.Devices.{
  ObjectPath, path_eq, path_eq_sound, paths, BusLibrary, Props, variants, checked_props,
  device_props, manager_path, bluez_path, adapter_path, device_path,
}
use ashacky.Bluetooth.Bridge.{
  Export, remove_gone, put_object, put_objects, export_current, adapter_values, add_devices,
  device_items, current_objects,
}

pub not_both : (b : Bool) → b ≡ true → b ≡ false → ⊥
not_both b h k = ground arith

moved : (p m r o : Bool) → r ≡ (m || o) → (p || r) ≡ (m || (p || o))
moved p m r o h = ground arith

kept : (p o : Bool) → (p ≡ true → o ≡ true) → o ≡ (p || o)
kept true o h = h refl
kept false o h = refl

ok_injective {ℓ} : {A : Type ℓ} {x y : A} → ok x ≡ ok y → x ≡ y
ok_injective h = cc

module _ {V : Type 0} where
  -- the paths that are gone, taken from a list of entries
  erase_gone :
      {W : Type 0}
      → List (ObjectPath × Props V)
      → List (ObjectPath × Props V)
      → List (ObjectPath × W)
      → List (ObjectPath × W)
  erase_gone current [] es = es
  erase_gone current ((p, props) ∷ before) es =
      erase_gone current before (if has paths p current then es else erase paths p es)

  remove_gone-erase_gone :
      (current before objects : List (ObjectPath × Props V)) (registrations : List (ObjectPath × ℕ))
      → (remove_gone current before (objects, registrations)).0
        ≡ (erase_gone current before objects, erase_gone current before registrations)
  unfolding remove_gone erase_gone
  remove_gone-erase_gone current [] objects registrations = refl
  remove_gone-erase_gone current ((p, props) ∷ before) objects registrations =
      elim (Bool-cases (has paths p current)) [
        | inl y ↦ rw y (remove_gone-erase_gone current before objects registrations)
        | inr n ↦ rw n (
            remove_gone-erase_gone current before (erase paths p objects)
              (erase paths p registrations))
      ]

  lookup-erase_gone_kept :
      {W : Type 0} (q : ObjectPath) (current before : List (ObjectPath × Props V))
      (es : List (ObjectPath × W))
      → has paths q current ≡ true
      → lookup paths q (erase_gone current before es) ≡ lookup paths q es
  unfolding erase_gone
  lookup-erase_gone_kept q current [] es h = refl
  lookup-erase_gone_kept q current ((p, props) ∷ before) es h =
      elim (Bool-cases (has paths p current)) [
        | inl y ↦ rw y (lookup-erase_gone_kept q current before es h)
        | inr n ↦ elim (Bool-cases (path_eq p q)) [
          | inl same ↦
              let e = path_eq_sound p q same in
              absurd
                (not_both (has paths q current) h (subst (λ x. has paths x current ≡ false) e n))
          | inr other ↦ rw n (
              lookup-erase_gone_kept q current before (erase paths p es) h
              ∙ lookup-erase_ne paths q p es other)
        ]
      ]

  lookup-erase_gone_missing :
      {W : Type 0} (q : ObjectPath) (current before : List (ObjectPath × Props V))
      (es : List (ObjectPath × W))
      → lookup paths q es ≡ none
      → lookup paths q (erase_gone current before es) ≡ none
  unfolding erase_gone
  lookup-erase_gone_missing q current [] es h = h
  lookup-erase_gone_missing q current ((p, props) ∷ before) es h =
      elim (Bool-cases (has paths p current)) [
        | inl y ↦ rw y (lookup-erase_gone_missing q current before es h)
        | inr n ↦
            let gone : lookup paths q (erase paths p es) ≡ none = elim (Bool-cases (path_eq p q)) [
              | inl same ↦
                  subst (λ x. lookup paths x (erase paths p es) ≡ none) (path_eq_sound p q same)
                    (lookup-erase_self paths p es)
              | inr other ↦ lookup-erase_ne paths q p es other ∙ h
            ] in
            rw n (lookup-erase_gone_missing q current before (erase paths p es) gone)
      ]

  lookup-erase_gone :
      {W : Type 0} (q : ObjectPath) (current before : List (ObjectPath × Props V))
      (es : List (ObjectPath × W))
      → has paths q current ≡ false
      → has paths q before ≡ true
      → lookup paths q (erase_gone current before es) ≡ none
  unfolding erase_gone
  lookup-erase_gone q current [] es h k = ground arith
  lookup-erase_gone q current ((p, props) ∷ before) es h k = elim (Bool-cases (path_eq p q)) [
    | inl same ↦
        let e = path_eq_sound p q same in
        let n : has paths p current ≡ false = subst (λ x. has paths x current ≡ false) (sym e) h in
        let gone : lookup paths q (erase paths p es) ≡ none =
          subst (λ x. lookup paths x (erase paths p es) ≡ none) e (lookup-erase_self paths p es) in
        rw n (lookup-erase_gone_missing q current before (erase paths p es) gone)
    | inr other ↦
        lookup-erase_gone q current before (if has paths p current then es else erase paths p es) h
          (ground arith)
  ]

  lookup-erase_gone_absent :
      {W : Type 0} (q : ObjectPath) (current before : List (ObjectPath × Props V))
      (es : List (ObjectPath × W))
      → has paths q before ≡ false
      → lookup paths q (erase_gone current before es) ≡ lookup paths q es
  unfolding erase_gone
  lookup-erase_gone_absent q current [] es h = refl
  lookup-erase_gone_absent q current ((p, props) ∷ before) es h = elim (Bool-cases (path_eq p q)) [
    | inl same ↦ ground arith
    | inr other ↦ elim (Bool-cases (has paths p current)) [
      | inl y ↦ rw y (lookup-erase_gone_absent q current before es (ground arith))
      | inr n ↦ rw n (
          lookup-erase_gone_absent q current before (erase paths p es) (ground arith)
          ∙ lookup-erase_ne paths q p es other)
    ]
  ]

  -- A path is registered exactly when it is exported, and the root always.
  abbrev pub Agrees : ObjectPath → Export V → Type 0
  Agrees q (objects, registrations) =
      has paths q registrations ≡ (path_eq manager_path q || has paths q objects)

  module _ (same : V → V → Bool) (ids : ObjectPath → ℕ) where
    put_object-put :
        (p : ObjectPath) (props : Props V) (old : Option (Props V)) (export : Export V)
        → (put_object same ids p props old export).0.0 ≡ put paths p props export.0
    unfolding put_object
    put_object-put p props none export = refl
    put_object-put p props (some old) export = refl

    put_objects-puts :
        (current : List (ObjectPath × Props V)) (export : Export V)
        → (put_objects same ids current export).0.0 ≡ puts paths current export.0
    unfolding put_objects
    put_objects-puts [] export = refl
    put_objects-puts ((p, props) ∷ current) export =
        let next = (put_object same ids p props (lookup paths p export.0) export).0 in
        put_objects-puts current next
        ∙ ap (puts paths current) (put_object-put p props (lookup paths p export.0) export)

    pub put_object-Agrees :
        (q p : ObjectPath) (props : Props V) (old : Option (Props V)) (export : Export V)
        → lookup paths p export.0 ≡ old
        → Agrees q export
        → Agrees q (put_object same ids p props old export).0
    unfolding put_object
    put_object-Agrees q p props none (objects, registrations) l a =
        has-put paths p q (ids p) registrations
        ∙ moved (path_eq p q) (path_eq manager_path q) (has paths q registrations)
            (has paths q objects) a
        ∙ ap (λ b. path_eq manager_path q || b) (sym (has-put paths p q props objects))
    put_object-Agrees q p props (some old) (objects, registrations) l a =
        a
        ∙ ap (λ b. path_eq manager_path q || b)
            (kept (path_eq p q) (has paths q objects) (λ same_path.
                subst (λ x. has paths x objects ≡ true) (path_eq_sound p q same_path)
                  (ap is_some l))
              ∙ sym (has-put paths p q props objects))

    put_objects-Agrees :
        (q : ObjectPath) (current : List (ObjectPath × Props V)) (export : Export V)
        → Agrees q export
        → Agrees q (put_objects same ids current export).0
    unfolding put_objects
    put_objects-Agrees q [] export a = a
    put_objects-Agrees q ((p, props) ∷ current) export a =
        put_objects-Agrees q current
          (put_object same ids p props (lookup paths p export.0) export).0
          (put_object-Agrees q p props (lookup paths p export.0) export refl a)

    or_else-none : (o : Option (Props V)) → or_else paths o none ≡ o
    or_else-none none = refl
    or_else-none (some v) = refl

    or_else-some : (o w : Option (Props V)) → is_some o ≡ true → or_else paths o w ≡ o
    or_else-some none w h = ground arith
    or_else-some (some v) w h = refl

    pub export_current-lookup :
        (q : ObjectPath) (current : List (ObjectPath × Props V)) (export : Export V)
        → HasKeysOnce paths current
        → lookup paths q (export_current same ids current export).0.0 ≡ lookup paths q current
    unfolding export_current
    export_current-lookup q current export once =
        let left = remove_gone current export.0 export in
        let gone = remove_gone-erase_gone current export.0 export.0 export.1 in
        ap (lookup paths q) (put_objects-puts current left.0)
        ∙ lookup-puts paths q current left.0.0 once
        ∙ elim (Bool-cases (has paths q current)) [
          | inl y ↦ or_else-some (lookup paths q current) (lookup paths q left.0.0) y
          | inr n ↦
              let l : lookup paths q left.0.0 ≡ none =
                ap (λ e. lookup paths q e.0) gone ∙ elim (Option-cases (lookup paths q export.0)) [
                  | inl m ↦ lookup-erase_gone_missing q current export.0 export.0 m
                  | inr (v, m) ↦ lookup-erase_gone q current export.0 export.0 n (ap is_some m)
                ] in
              ap (or_else paths (lookup paths q current)) l ∙ or_else-none (lookup paths q current)
        ]

    erase_gone-Agrees :
        (q : ObjectPath) (current : List (ObjectPath × Props V)) (export : Export V)
        → has paths manager_path export.0 ≡ false
        → Agrees q export
        → Agrees q (erase_gone current export.0 export.0, erase_gone current export.0 export.1)
    erase_gone-Agrees q current (objects, registrations) m a =
        elim (Bool-cases (has paths q current)) [
          | inl y ↦
              rw
                (
                  lookup-erase_gone_kept q current objects objects y,
                  lookup-erase_gone_kept q current objects registrations y,
                )
                a
          | inr n ↦ elim (Bool-cases (has paths q objects)) [
            | inl there ↦
                let below : path_eq manager_path q ≡ false =
                  elim (Bool-cases (path_eq manager_path q)) [
                    | inr b ↦ b
                    | inl b ↦ absurd (
                        not_both (has paths q objects) there (
                          subst (λ x. has paths x objects ≡ false) (path_eq_sound manager_path q b)
                            m))
                  ] in
                rw
                  (
                    lookup-erase_gone q current objects objects n there,
                    lookup-erase_gone q current objects registrations n there,
                    below,
                  )
                  refl
            | inr absent ↦
                rw
                  (
                    lookup-erase_gone_absent q current objects objects absent,
                    lookup-erase_gone_absent q current objects registrations absent,
                  )
                  a
          ]
        ]

    pub export_current-Agrees :
        (q : ObjectPath) (current : List (ObjectPath × Props V)) (export : Export V)
        → has paths manager_path export.0 ≡ false
        → Agrees q export
        → Agrees q (export_current same ids current export).0
    unfolding export_current
    export_current-Agrees q current export m a =
        put_objects-Agrees q current (remove_gone current export.0 export).0 (
          subst (Agrees q) (sym (remove_gone-erase_gone current export.0 export.0 export.1))
            (erase_gone-Agrees q current export m a))

module _ {F V : Type 0} (lib : BusLibrary F V) (text_value : Bytes → Json F) where
  device_props-device_path :
      (device : Fields F) (p : ObjectPath) (props : Props V)
      → device_props lib text_value device ≡ ok (p, props)
      → (a : Bytes) × (p ≡ device_path a)
  unfolding device_props
  device_props-device_path device p props h =
      let (given, g, h1) = >>=-eq-ok (item "address" device) _ h in
      let (address, a, h2) = >>=-eq-ok (lib.address given) _ h1 in
      let (values, v, h3) =
        >>=-eq-ok (checked_props lib address (text_value address) device) _ h2 in
      (address, ap (λ e. e.0) (sym (ok_injective h3)))

  -- A dict of objects without the manager, as an update makes it.
  abbrev pub IsCurrent : List (ObjectPath × Props V) → Type 0
  IsCurrent current = HasKeysOnce paths current × (has paths manager_path current ≡ false)

  put_device-IsCurrent :
      (p : ObjectPath) (a : Bytes) (props : Props V) (current : List (ObjectPath × Props V))
      → p ≡ device_path a
      → IsCurrent current
      → IsCurrent (put paths p props current)
  put_device-IsCurrent p a props current e (once, m) =
      let outside : path_eq p manager_path ≡ false =
        subst (λ x. path_eq x manager_path ≡ false) (sym e) refl in
      (
        put-HasKeysOnce paths p props current once,
        has-put paths p manager_path props current
            ∙ ap (λ b. b || has paths manager_path current) outside
            ∙ m,
      )

  add_devices-IsCurrent :
      (items : Items F) (current all_current : List (ObjectPath × Props V))
      → add_devices lib text_value items current ≡ ok all_current
      → IsCurrent current
      → IsCurrent all_current
  unfolding add_devices
  add_devices-IsCurrent nil current all_current h c = subst IsCurrent (ok_injective h) c
  add_devices-IsCurrent (cons (obj device) rest) current all_current h c =
      let ((p, props), d, h1) = >>=-eq-ok (device_props lib text_value device) _ h in
      let (a, e) = device_props-device_path device p props d in
      add_devices-IsCurrent rest (put paths p props current) all_current h1
        (put_device-IsCurrent p a props current e c)
  add_devices-IsCurrent (cons null rest) current all_current h c = ground arith
  add_devices-IsCurrent (cons (bool b) rest) current all_current h c = ground arith
  add_devices-IsCurrent (cons (int n) rest) current all_current h c = ground arith
  add_devices-IsCurrent (cons (float x) rest) current all_current h c = ground arith
  add_devices-IsCurrent (cons (str s) rest) current all_current h c = ground arith
  add_devices-IsCurrent (cons (arr es) rest) current all_current h c = ground arith

  pub current_objects-IsCurrent :
      (state : Fields F) (discovering : Bool) (current : List (ObjectPath × Props V))
      → current_objects lib text_value state discovering ≡ ok current
      → IsCurrent current
  unfolding current_objects
  current_objects-IsCurrent state discovering current h =
      let (powered, a, h1) = >>=-eq-ok (item "powered" state) _ h in
      let (adapter, b, h2) =
        >>=-eq-ok (variants lib (adapter_values lib text_value powered discovering)) _ h1 in
      let (listed, c, h3) = >>=-eq-ok (item "devices" state) _ h2 in
      let (devices, d, h4) = >>=-eq-ok (device_items lib text_value listed) _ h3 in
      add_devices-IsCurrent devices ((bluez_path, []) ∷ (adapter_path, adapter) ∷ []) current h4
        ((refl, (refl, tt)), refl)
