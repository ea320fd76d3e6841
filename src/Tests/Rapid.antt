-- ===== src/Tests/Rapid.antt =====
-- The rapid codec over a descriptor that hands out at most one byte at a time.
use magneto.Base.{
  ◌⊎◌, false, ℕ, zero, suc, ◌≡◌, refl, List, [], ◌∷◌, ◌++◌, arith, Bool, true, some, ℤ, pos, eqb_ℤ,
  length,
}
use magneto.Socket.{Recv, got, nothing, failed, Ordered, start, again}
use magneto.Rapid.{Reader, reset, read, decode, encode, body, size}
use magneto.Rapid.Transfer.{concat, transfer}

-- At most one byte at a time.
abbrev pub trickle : List ℕ → ℕ → Recv × List ℕ
trickle [] n = (nothing, [])
trickle (b ∷ bs) zero = (nothing, b ∷ bs)
trickle (b ∷ bs) (suc n) = (got b [], bs)

pub trickle-Ordered : Ordered trickle (λ s. s)
trickle-Ordered = record { delivers = by_cases }
  where
    by_cases : (s : List ℕ) (n : ℕ) → magneto.Socket.Delivers s n (trickle s n).0 (trickle s n).1
    by_cases [] n = refl
    by_cases (b ∷ bs) zero = refl
    by_cases (b ∷ bs) (suc n) = (refl, omega arith)

abbrev message : List ℕ
message = 104 ∷ 105 ∷ []

abbrev fresh : Reader
fresh = record { buffer = []; read_header = true }

abbrev wire : List ℕ
wire = 229 ∷ 140 ∷ 0 ∷ 0 ∷ 0 ∷ 0 ∷ 0 ∷ 2 ∷ 104 ∷ 105 ∷ 7 ∷ []

-- The first call leaves the last byte of the body, which the second one reads.
abbrev first : ℤ × Reader × List ℕ
first = (
  pos 1,
  record { buffer = 229 ∷ 140 ∷ 0 ∷ 0 ∷ 2 ∷ 0 ∷ 0 ∷ 0 ∷ 104 ∷ []; read_header = Bool.false },
  105 ∷ 7 ∷ [],
)

on_the_wire : wire ≡ concat (encode message) ++ (7 ∷ [])
unfolding encode
on_the_wire = refl

first_read : read trickle (reset fresh) wire ≡ some first
unfolding read reset
first_read = refl

transfer_example :
    (out : ℤ × Reader × List ℕ) × (read trickle first.1 first.2 ≡ some out)
    × ((eqb_ℤ out.0 (pos 0) ≡ false)
        ⊎ ((out.0 ≡ pos 0)
            × ((decode out.1).0 ≡ true)
            × (body (decode out.1).1 ≡ message)
            × (size (decode out.1).1 ≡ length message)
            × (out.2 ≡ 7 ∷ [])))
transfer_example =
    transfer trickle (λ s. s) trickle-Ordered message (7 ∷ []) (omega arith) fresh wire first.1
      first.2 on_the_wire (again first start first_read)
