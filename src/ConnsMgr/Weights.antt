-- ===== src/ConnsMgr/Weights.antt =====
-- The weighted draw of `GetRemoteWeight_`: which index a random number stands for.
use magneto.Base.{
  ℕ, zero, suc, ◌+◌, ◌%◌, ◌^◌, ◌≤◌, ◌<◌, inl, inr, ltb, ltb→lt, ◌≡◌, ◌∙◌, refl, ap, ◌&&◌,
  Bool-cases, List, [], ◌∷◌, some, get_elem?, arith, if◌then◌else◌,
}
use magneto.ConnsMgr.{pick, sum64}

abbrev pub sum : List ℕ → ℕ
sum [] = 0
sum (w ∷ ws) = w + sum ws

-- `random` lies in the stretch of index `i`: from `below` on, the stretches follow one another and
-- each is as long as its weight.
abbrev pub Draws : ℕ → ℕ → List ℕ → ℕ → Type 0
Draws random below [] i = ⊥
Draws random below (w ∷ ws) zero = (below ≤ random) × (random < below + w)
Draws random below (w ∷ ws) (suc i) = Draws random (below + w) ws i

passes :
    (below w random : ℕ)
    → below + w < 2 ^ 31
    → (ltb ((below + w) % 2 ^ 32) (2 ^ 31) && ltb random ((below + w) % 2 ^ 32))
      ≡ ltb random (below + w)
passes below w random h =
    let e : (below + w) % 2 ^ 32 ≡ below + w = omega arith in rw e (ground arith)

pick-cons :
    (random below i w : ℕ) (ws : List ℕ)
    → below + w < 2 ^ 31
    → pick random below i (w ∷ ws)
      ≡ (if ltb random (below + w) then some i else pick random (below + w) (suc i) ws)
unfolding pick
pick-cons random below i w ws h =
    let e : (below + w) % 2 ^ 32 ≡ below + w = omega arith in
    rw (passes below w random h) (rw e refl)

pub pick-Draws :
    (random below i : ℕ) (ws : List ℕ)
    → below + sum ws < 2 ^ 31
    → below ≤ random
    → random < below + sum ws
    → (j : ℕ) × (pick random below i ws ≡ some (i + j)) × Draws random below ws j
pick-Draws random below i [] fits lo hi = absurd (omega arith)
pick-Draws random below i (w ∷ ws) fits lo hi =
    let step = pick-cons random below i w ws (omega arith) in
    elim (Bool-cases (ltb random (below + w))) [
      | inl now ↦ (0, step ∙ rw now (ap some (omega arith)), (lo, ltb→lt random _ now))
      | inr not_yet ↦
          let (j, found, draws) =
            pick-Draws random (below + w) (suc i) ws (omega arith) (ground arith) (omega arith) in
          (suc j, step ∙ rw not_yet (found ∙ ap some (omega arith)), draws)
    ]

Draws-below : (random below : ℕ) (ws : List ℕ) (i : ℕ) → Draws random below ws i → below ≤ random
Draws-below random below (w ∷ ws) zero d = d.0
Draws-below random below (w ∷ ws) (suc i) d = omega (arith, Draws-below random (below + w) ws i d)
Draws-below random below [] i d = absurd d

pub Draws-unique :
    (random below : ℕ) (ws : List ℕ) (i j : ℕ)
    → Draws random below ws i
    → Draws random below ws j
    → i ≡ j
Draws-unique random below [] i j p q = absurd p
Draws-unique random below (w ∷ ws) zero zero p q = refl
Draws-unique random below (w ∷ ws) zero (suc j) p q =
    absurd (omega (arith, Draws-below random (below + w) ws j q))
Draws-unique random below (w ∷ ws) (suc i) zero p q =
    absurd (omega (arith, Draws-below random (below + w) ws i p))
Draws-unique random below (w ∷ ws) (suc i) (suc j) p q =
    ap suc (Draws-unique random (below + w) ws i j p q)

-- The 64-bit sum is the sum where that fits.
pub sum64-sum : (ws : List ℕ) → sum ws < 2 ^ 64 → sum64 ws ≡ sum ws
unfolding sum64
sum64-sum [] h = refl
sum64-sum (w ∷ ws) h = omega (arith, sum64-sum ws (omega arith))

pub Draws-weight :
    (random below : ℕ) (ws : List ℕ) (i : ℕ)
    → Draws random below ws i
    → (w : ℕ) × (get_elem? ws i ≡ some w) × (0 < w)
Draws-weight random below (w ∷ ws) zero d = (w, refl, omega arith)
Draws-weight random below (w ∷ ws) (suc i) d = Draws-weight random (below + w) ws i d
Draws-weight random below [] i d = absurd d
