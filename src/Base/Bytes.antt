-- ===== src/Base/Bytes.antt =====
-- Text as the list of its bytes, with `std::string::find` and comparison.
use Prim.Native.Nat.{ℕ, suc}
use Prim.Native.Char.{code}
use Prim.Native.String.{String}
use mathlib.Core.Path.{◌≡◌, refl}
use mathlib.Core.Bool.{Bool, true, false, ◌&&◌}
use mathlib.Core.List.{List, [], ◌∷◌}
use mathlib.Core.Option.{Option, none, some}
use native.Mathlib.Omega.{arith}
use magneto.Base.Tests.{◌==◌, if◌then◌else◌}

abbrev pub codes : String → List ℕ
codes String.[] = []
codes (String.◌∷◌ c s) = code c ∷ codes s

unfoldable pub eqb_bytes : List ℕ → List ℕ → Bool
eqb_bytes [] [] = true
eqb_bytes [] (y ∷ t) = false
eqb_bytes (x ∷ s) [] = false
eqb_bytes (x ∷ s) (y ∷ t) = x == y && eqb_bytes s t

pub eqb_bytes_eq : (s t : List ℕ) → eqb_bytes s t ≡ true → s ≡ t
unfolding eqb_bytes
eqb_bytes_eq [] [] h = refl
eqb_bytes_eq [] (y ∷ t) h = cc
eqb_bytes_eq (x ∷ s) [] h = cc
eqb_bytes_eq (x ∷ s) (y ∷ t) h = ground (arith, eqb_bytes_eq s t)

-- `find` of one character, as an index.
unfoldable pub find : ℕ → List ℕ → Option ℕ
find c [] = none
find c (x ∷ s) = if x == c then some 0 else elim (find c s) [ none ↦ none | some i ↦ some (suc i) ]

abbrev pub Lacks : ℕ → List ℕ → Type 0
Lacks c [] = Unit
Lacks c (x ∷ s) = ((x == c) ≡ false) × Lacks c s
