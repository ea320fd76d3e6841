-- ===== src/Base/Decimal.antt =====
-- Numbers in decimal, as `sprintf` prints a `%u` or `%lu` and as a reader takes them back.
use Prim.Native.Nat.{ℕ, zero, suc, ◌+◌, ◌-◌, ◌*◌, ◌/◌, ◌%◌, ◌<◌, ◌≤◌}
use mathlib.Core.Path.{◌≡◌, ap, ◌∙◌}
use mathlib.Core.Logic.{inl, inr}
use mathlib.Core.Bool.{Bool, true, false, ◌&&◌}
use mathlib.Core.List.{List, [], ◌∷◌, ◌++◌}
use native.Mathlib.Omega.{arith}
use magneto.Base.Bytes.{Lacks}
use magneto.Base.Lists.{length}
use magneto.Base.Tests.{ltb, leb, if◌then◌else◌, Bool-cases}

-- The digits of `n` before `out`; the fuel is enough above `n`.
pub emit : ℕ → ℕ → List ℕ → List ℕ
emit zero n out = out
emit (suc fuel) n out =
    let more = emit fuel (n / 10) ((b'0' + n % 10) ∷ out) in
    if ltb n 10 then (b'0' + n) ∷ out else more

unfoldable pub digits : ℕ → List ℕ
unfolding emit
digits n = emit (suc n) n []

abbrev pub is_digit : ℕ → Bool
is_digit c = leb b'0' c && leb c b'9'

-- Reads digits as far as they go.
unfoldable pub read_number : ℕ → List ℕ → ℕ × List ℕ
read_number acc [] = (acc, [])
read_number acc (c ∷ s) =
    let more = read_number (acc * 10 + (c - b'0')) s in if is_digit c then more else (acc, c ∷ s)

-- What `read_number` makes of the digits already out.
abbrev Continues : ℕ → ℕ → List ℕ → Type 0
Continues n fuel out =
    (s : List ℕ) → read_number 0 (emit fuel n out ++ s) ≡ read_number n (out ++ s)

read_number-digit :
    (acc d : ℕ) (s : List ℕ)
    → d < 10
    → read_number acc ((b'0' + d) ∷ s) ≡ read_number (acc * 10 + d) s
unfolding read_number
read_number-digit acc d s h =
    let e : is_digit (b'0' + d) ≡ true = ground arith in
    rw e (ap (λ k. read_number (acc * 10 + k) s) (omega arith))

emit-Continues : (fuel n : ℕ) (out : List ℕ) → n < fuel → Continues n fuel out
unfolding emit
emit-Continues zero n out h s = absurd (omega arith)
emit-Continues (suc fuel) n out h s = elim (Bool-cases (ltb n 10)) [
  | inl last ↦
      let start : 0 * 10 + n ≡ n = omega arith in
      rw last
        (read_number-digit 0 n (out ++ s) (ground arith) ∙ ap (λ k. read_number k (out ++ s)) start)
  | inr more ↦
      let smaller : n / 10 < fuel = ground arith in
      let whole : n / 10 * 10 + n % 10 ≡ n = omega arith in
      rw more (
        emit-Continues fuel (n / 10) ((b'0' + n % 10) ∷ out) smaller s
        ∙ read_number-digit (n / 10) (n % 10) (out ++ s) (omega arith)
        ∙ ap (λ k. read_number k (out ++ s)) whole)
]

pub read_number-digits :
    (n c : ℕ) (s : List ℕ) → is_digit c ≡ false → read_number 0 (digits n ++ c ∷ s) ≡ (n, c ∷ s)
unfolding digits
read_number-digits n c s h = emit-Continues (suc n) n [] (omega arith) (c ∷ s) ∙ stops
  where
    stops : read_number n (c ∷ s) ≡ (n, c ∷ s)
    stops = unfold read_number in rw h

emit-Lacks :
    (fuel n c : ℕ) (out : List ℕ) → is_digit c ≡ false → Lacks c out → Lacks c (emit fuel n out)
unfolding emit
emit-Lacks zero n c out h lacks = lacks
emit-Lacks (suc fuel) n c out h lacks = elim (Bool-cases (ltb n 10)) [
  | inl last ↦ rw last (ground arith, lacks)
  | inr more ↦
      let digit : n % 10 < 10 = omega arith in
      rw more (emit-Lacks fuel (n / 10) c ((b'0' + n % 10) ∷ out) h (ground arith, lacks))
]

-- A number in decimal has digits only.
pub digits-Lacks : (n c : ℕ) → is_digit c ≡ false → Lacks c (digits n)
unfolding digits
digits-Lacks n c h = emit-Lacks (suc n) n c [] h tt

emit-grows : (fuel n : ℕ) (out : List ℕ) → length out ≤ length (emit fuel n out)
unfolding emit
emit-grows zero n out = omega arith
emit-grows (suc fuel) n out = elim (Bool-cases (ltb n 10)) [
  | inl last ↦ rw last (omega arith)
  | inr more ↦ rw more (omega (arith, emit-grows fuel (n / 10) ((b'0' + n % 10) ∷ out)))
]

pub digits-nonempty : (n : ℕ) → 0 < length (digits n)
unfolding digits emit
digits-nonempty n = elim (Bool-cases (ltb n 10)) [
  | inl last ↦ rw last (omega arith)
  | inr more ↦ rw more (omega (arith, emit-grows n (n / 10) ((b'0' + n % 10) ∷ [])))
]
