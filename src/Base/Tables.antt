-- ===== src/Base/Tables.antt =====
-- `std::unordered_map` and the directory of files: an association list whose first entry for a
-- key counts. `put` replaces the value of a key in place or adds the key at the end.
use mathlib.Core.List.{List, [], ◌∷◌, map}
use mathlib.Core.Logic.{ite}
use mathlib.Core.Option.{Option, none, some}
use mathlib.Core.Path.{◌≡◌, refl}
use mathlib.Core.Bool.{Bool, true, false}
use native.Mathlib.Omega.{arith}

abbrev pub Table {ℓ} : Type ℓ → Type ℓ → Type ℓ
Table K V = List (K × V)

module _ {ℓ} {K V : Type ℓ} where
  abbrev pub keys : Table K V → List K
  keys = map (λ e. e.0)

module _ {ℓ} {K V : Type ℓ} (dec : Discrete K) where
  unfoldable pub find : K → Table K V → Option V
  find k [] = none
  find k ((j, v) ∷ t) = ite (dec j k) (some v) (find k t)

  unfoldable pub put : K → V → Table K V → Table K V
  put k v [] = (k, v) ∷ []
  put k v ((j, w) ∷ t) = ite (dec j k) ((j, v) ∷ t) ((j, w) ∷ put k v t)

  unfoldable pub erase : K → Table K V → Table K V
  erase k [] = []
  erase k ((j, w) ∷ t) = ite (dec j k) (erase k t) ((j, w) ∷ erase k t)

  abbrev pub has : K → Table K V → Bool
  has k t = elim (find k t) [ none ↦ false | some v ↦ true ]

  pub find-put :
      (k j : K) (v : V) (t : Table K V) → find j (put k v t) ≡ ite (dec k j) (some v) (find j t)
  unfolding find put
  find-put k j v [] = refl
  find-put k j v ((i, w) ∷ t) = ground (arith, find-put k j v t)

  pub find-erase : (k j : K) (t : Table K V) → find j (erase k t) ≡ ite (dec k j) none (find j t)
  unfolding find erase
  find-erase k j [] = ground arith
  find-erase k j ((i, w) ∷ t) = ground (arith, find-erase k j t)

pub ruleset table_laws = (find-put, find-erase)
