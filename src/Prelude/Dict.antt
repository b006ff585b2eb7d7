-- ===== src/Prelude/Dict.antt =====
-- A Python dictionary with numbers for keys, as an association list.
use Prim.Native.Nat.{ℕ}
use mathlib.Core.Path.{◌≡◌, refl}
use mathlib.Core.Bool.{Bool, false, ◌||◌}
use mathlib.Core.List.{List, [], ◌∷◌}
use mathlib.Core.Option.{Option, none, some}
use native.Mathlib.Omega.{arith}
use fpga_pi_parallel_nids.Prelude.Tests.{◌==◌, if◌then◌else◌}

module _ {ℓ} {V : Type ℓ} where
  abbrev pub lookup : List (ℕ × V) → ℕ → Option V
  lookup [] k = none
  lookup ((j, v) ∷ d) k = if j == k then some v else lookup d k

  -- `k in d`
  abbrev pub contains : List (ℕ × V) → ℕ → Bool
  contains [] k = false
  contains ((j, v) ∷ d) k = j == k || contains d k

  -- `d[k] = v`
  abbrev pub insert : List (ℕ × V) → ℕ → V → List (ℕ × V)
  insert [] k v = (k, v) ∷ []
  insert ((j, w) ∷ d) k v = if j == k then (k, v) ∷ d else (j, w) ∷ insert d k v

  -- `d.get(k, default)`
  abbrev pub get_default : List (ℕ × V) → ℕ → V → V
  get_default [] k v = v
  get_default ((j, w) ∷ d) k v = if j == k then w else get_default d k v

  pub get_default-insert :
      (d : List (ℕ × V)) (k j : ℕ) (v w : V)
      → get_default (insert d k v) j w ≡ (if k == j then v else get_default d j w)
  get_default-insert [] k j v w = refl
  get_default-insert ((i, u) ∷ d) k j v w = ground (arith, get_default-insert d k j v w)
