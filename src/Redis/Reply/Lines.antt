-- ===== src/Redis/Reply/Lines.antt =====
-- The ends of lines in a reply, and the number that is read up to one.
use magneto.Base.{
  ℕ, suc, ◌+◌, ◌-◌, ◌^◌, ◌<◌, ◌==◌, ◌≡◌, ◌∙◌, refl, ap, false, ◌&&◌, Bool-cases, Option-cases, inl,
  inr, List, [], ◌∷◌, ◌++◌, length, drop, none, some, pos, arith, digits, is_digit, Lacks,
}
use magneto.Redis.{crlf}
use magneto.Redis.Reply.{Strtol, find_crlf}

-- `strtol` reads a number in decimal that fits, up to a byte that is no digit.
pub record Reads (strtol : Strtol) : Type 0 where
  pub number :
      (n c : ℕ) (s : List ℕ)
      → n < 2 ^ 63 - 1
      → is_digit c ≡ false
      → strtol (digits n ++ c ∷ s) ≡ (pos n, length (digits n))

pub find_crlf-Lacks :
    (p s : List ℕ) → Lacks b'\r' p → find_crlf (p ++ (crlf ++ s)) ≡ some (length p)
unfolding find_crlf
find_crlf-Lacks [] s h = refl
find_crlf-Lacks (x ∷ p) s (h, hs) = ground (arith, find_crlf-Lacks p s hs)

pub find_crlf-none :
    (p s : List ℕ) → find_crlf p ≡ none → find_crlf (p ++ (crlf ++ s)) ≡ some (length p)
unfolding find_crlf
find_crlf-none [] s h = refl
find_crlf-none (x ∷ []) s h = ground arith
find_crlf-none (x ∷ y ∷ p) s h = ground (arith, find_crlf-none (y ∷ p) s)

pub find_crlf-some :
    (p s : List ℕ) (i : ℕ)
    → find_crlf p ≡ some i
    → (find_crlf (p ++ s) ≡ some i) × (suc i < length p)
unfolding find_crlf
find_crlf-some [] s i h = absurd (ground arith)
find_crlf-some (x ∷ []) s i h = absurd (ground arith)
find_crlf-some (x ∷ y ∷ p) s i h = elim (Bool-cases (x == b'\r' && y == b'\n')) [
  | inl here ↦ let first : 0 ≡ i = ground arith in rw (← first) (ground arith, omega arith)
  | inr on ↦ elim (Option-cases (find_crlf (y ∷ p))) [
    | inl missing ↦ absurd (ground arith)
    | inr (j, found) ↦
        let (again, inside) = find_crlf-some (y ∷ p) s j found in
        let next : suc j ≡ i = ground arith in rw (← next) (ground arith, omega arith)
  ]
]

pub drop-two : (p s : List ℕ) → drop (length p + 2) (p ++ (crlf ++ s)) ≡ s
drop-two [] s = refl
drop-two (x ∷ p) s =
    let next : suc (length p) + 2 ≡ suc (length p + 2) = omega arith in
    ap (λ k. drop k (x ∷ p ++ (crlf ++ s))) next ∙ drop-two p s

pub drop-one : (p s : List ℕ) → drop (length p + 1) (p ++ (crlf ++ s)) ≡ b'\n' ∷ s
drop-one [] s = refl
drop-one (x ∷ p) s =
    let next : suc (length p) + 1 ≡ suc (length p + 1) = omega arith in
    ap (λ k. drop k (x ∷ p ++ (crlf ++ s))) next ∙ drop-one p s

pub line_feed_first :
    (s : List ℕ) (i : ℕ) → find_crlf s ≡ some i → find_crlf (b'\n' ∷ s) ≡ some (suc i)
unfolding find_crlf
line_feed_first s i found = rw found refl
