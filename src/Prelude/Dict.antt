-- ===== src/Prelude/Dict.antt =====
-- JavaScript's `Map` with string keys: `get` and `set`. A `set` on a key that is there keeps its
-- place, and a new key goes to the end.
use Prim.Native.String.{String}
use mathlib.Core.Path.{◌≡◌, refl}
use mathlib.Core.List.{List, [], ◌∷◌}
use mathlib.Core.Option.{Option, none, some}
use native.Mathlib.Omega.{arith}
use veritio.Prelude.Tests.{◌===◌, ===_iff, ===_refl, if◌then◌else◌}

abbrev pub Dict {ℓ} : Type ℓ → Type ℓ
Dict V = List (String × V)

module _ {ℓ} {V : Type ℓ} where
  unfoldable pub get : Dict V → String → Option V
  get [] key = none
  get ((k, v) ∷ d) key = if k === key then some v else get d key

  unfoldable pub set : Dict V → String → V → Dict V
  set [] key value = (key, value) ∷ []
  set ((k, v) ∷ d) key value = if k === key then (k, value) ∷ d else (k, v) ∷ set d key value

  pub get-set :
      (d : Dict V) (key other : String) (value : V)
      → get (set d key value) other ≡ (if key === other then some value else get d other)
  unfolding get set
  get-set [] key other value = refl
  get-set ((k, v) ∷ d) key other value =
      ground (arith, ===_iff k key, ===_iff k other, ===_iff key other, get-set d key other value)

  pub get-set_self :
      (d : Dict V) (key : String) (value : V) → get (set d key value) key ≡ some value
  get-set_self d key value = simp (get-set, ===_refl)
