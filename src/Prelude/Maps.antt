-- ===== src/Prelude/Maps.antt =====
-- Maps as lists of pairs, by a Boolean equality of their keys.
use Prim.Native.Nat.{◌≤◌, ◌<◌}
use mathlib.Core.Path.{◌≡◌, refl, subst}
use mathlib.Core.Logic.{inl, inr}
use mathlib.Core.Bool.{Bool, true}
use mathlib.Core.Option.{Option, none, some}
use mathlib.Core.List.{List, [], ◌∷◌}
use native.Mathlib.Omega.{arith}
use ruvname.Prelude.Tests.{if◌then◌else◌, Bool-cases}
use ruvname.Prelude.Lists.{All, length}

module _ {K V : Type 0} (same : K → K → Bool) where
  abbrev pub get_key : List (K × V) → K → Option V
  get_key [] k = none
  get_key ((k', v) ∷ rest) k = if same k' k then some v else get_key rest k

  -- The entry of the key keeps its place.
  abbrev pub put_key : List (K × V) → K → V → List (K × V)
  put_key [] k v = (k, v) ∷ []
  put_key ((k', v') ∷ rest) k v =
      let rest' = put_key rest k v in if same k' k then (k', v) ∷ rest else (k', v') ∷ rest'

  abbrev pub remove_key : List (K × V) → K → List (K × V)
  remove_key [] k = []
  remove_key ((k', v') ∷ rest) k =
      let rest' = remove_key rest k in if same k' k then rest' else (k', v') ∷ rest'

  pub get_key-put_key :
      (m : List (K × V)) (k : K) (v : V) → same k k ≡ true → get_key (put_key m k v) k ≡ some v
  get_key-put_key [] k v h = ground arith
  get_key-put_key ((k', v') ∷ rest) k v h = elim (Bool-cases (same k' k)) [
    | inl e ↦ ground arith
    | inr e ↦ let ih = get_key-put_key rest k v h in ground arith
  ]

  pub get_key-remove_key : (m : List (K × V)) (k : K) → get_key (remove_key m k) k ≡ none
  get_key-remove_key [] k = refl
  get_key-remove_key ((k', v) ∷ rest) k = elim (Bool-cases (same k' k)) [
    | inl e ↦ rw e (get_key-remove_key rest k)
    | inr e ↦ rw (e, e) (get_key-remove_key rest k)
  ]

  pub length-remove_key_le : (m : List (K × V)) (k : K) → length (remove_key m k) ≤ length m
  length-remove_key_le [] k = omega arith
  length-remove_key_le ((k', v) ∷ rest) k =
      let ih = length-remove_key_le rest k in
      elim (Bool-cases (same k' k)) [
        | inl e ↦ rw e (omega (arith, ih))
        | inr e ↦ rw e (omega (arith, ih))
      ]

  pub length-remove_key :
      (m : List (K × V)) (k : K) (v : V) → get_key m k ≡ some v → length (remove_key m k) < length m
  length-remove_key [] k v h = cc
  length-remove_key ((k', v') ∷ rest) k v h = elim (Bool-cases (same k' k)) [
    | inl e ↦ let le = length-remove_key_le rest k in rw e (omega (arith, le))
    | inr e ↦
        let found : get_key rest k ≡ some v = ground arith in
        let ih = length-remove_key rest k v found in rw e (omega (arith, ih))
  ]

  module _ (R : K → V → Type 0) where
    abbrev pub AllKeys : List (K × V) → Type 0
    AllKeys = All (λ kv. R kv.0 kv.1)

    pub AllKeys-get_key :
        (m : List (K × V)) (k : K) (v : V)
        → AllKeys m
        → get_key m k ≡ some v
        → (k' : K) × (same k' k ≡ true) × R k' v
    AllKeys-get_key [] k v all h = ground arith
    AllKeys-get_key ((k', v') ∷ rest) k v (r, all) h = elim (Bool-cases (same k' k)) [
      | inl e ↦ let found : v' ≡ v = ground arith in (k', e, subst (R k') found r)
      | inr e ↦ AllKeys-get_key rest k v all (ground arith)
    ]

    pub AllKeys-put_key :
        (m : List (K × V)) (k : K) (v : V)
        → AllKeys m
        → ((k' : K) → same k' k ≡ true → R k' v)
        → R k v
        → AllKeys (put_key m k v)
    AllKeys-put_key [] k v all there here = (here, tt)
    AllKeys-put_key ((k', v') ∷ rest) k v (r, all) there here = elim (Bool-cases (same k' k)) [
      | inl e ↦ rw e (there k' e, all)
      | inr e ↦ rw e (r, AllKeys-put_key rest k v all there here)
    ]

    pub AllKeys-remove_key : (m : List (K × V)) (k : K) → AllKeys m → AllKeys (remove_key m k)
    AllKeys-remove_key [] k all = tt
    AllKeys-remove_key ((k', v) ∷ rest) k (r, all) = elim (Bool-cases (same k' k)) [
      | inl e ↦ rw e (AllKeys-remove_key rest k all)
      | inr e ↦ rw e (r, AllKeys-remove_key rest k all)
    ]
