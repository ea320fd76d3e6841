-- ===== src/Socket.antt =====
-- Non-blocking descriptors as `src/protocols` uses them: `IOHelper::ReadNonBlock` and
-- `IOHelper::WriteVecNonBlock` of the bundled library are parameters, and this file names their
-- results and what the codecs rely on.
use magneto.Base.{
  ℕ, suc, ◌-◌, ◌%◌, ◌^◌, ◌≤◌, ◌<◌, ◌≡◌, List, ◌∷◌, ◌++◌, length, ltb, if◌then◌else◌, ℤ, pos, negsuc,
  arith, Option, some,
}

-- What `ReadNonBlock` returns: a positive count with the bytes, 0, or a negative number.
pub data Recv : Type 0 where
  got : ℕ → List ℕ → Recv
  nothing : Recv
  failed : ℕ → Recv

-- A `size_t` that an `int` function returns.
abbrev pub to_int32 : ℕ → ℤ
to_int32 n = let m = n % 2 ^ 32 in if ltb m (2 ^ 31) then pos m else negsuc (2 ^ 32 - m - 1)

-- An integer converted to an unsigned type of `w` bits.
abbrev pub to_unsigned : ℕ → ℤ → ℕ
to_unsigned w (pos n) = n % 2 ^ w
to_unsigned w (negsuc n) = 2 ^ w - 1 - n % 2 ^ w

-- `ProtocolRead::kEnd` and `ProtocolWrite::kEnd`.
abbrev pub k_end : ℤ
k_end = negsuc 99

-- What one read does to the bytes that are still to come: a read of at most `n` bytes takes them
-- from the front, and any other outcome leaves them.
abbrev pub Delivers : List ℕ → ℕ → Recv → List ℕ → Type 0
Delivers before n (got b bs) after = (before ≡ b ∷ bs ++ after) × (suc (length bs) ≤ n)
Delivers before n nothing after = before ≡ after
Delivers before n (failed e) after = before ≡ after

-- A descriptor on which the bytes arrive in order.
pub record Ordered {S : Type 0} (recv : S → ℕ → Recv × S) (pending : S → List ℕ) : Type 0 where
  pub delivers : (s : S) (n : ℕ) → Delivers (pending s) n (recv s n).0 (pending (recv s n).1)

pub to_int32-zero : (n : ℕ) → n < 2 ^ 32 → to_int32 n ≡ pos 0 → n ≡ 0
to_int32-zero n h e = ground arith

-- A reader and its descriptor after any number of calls of `read` that have returned.
pub data Called {R S : Type 0} (read : R → S → Option (ℤ × R × S)) (r : R) (s : S)
    : R → S → Type 0 where
  start : Called read r s r s
  again :
      {r' : R} {s' : S} (out : ℤ × R × S)
      → Called read r s r' s'
      → read r' s' ≡ some out
      → Called read r s out.1 out.2

-- What every call keeps, any number of calls keeps.
pub Called-keeps :
    {R S : Type 0} {read : R → S → Option (ℤ × R × S)} {r : R} {s : S} {r' : R} {s' : S}
    (Holds : R → S → Type 0)
    → ((r : R) (s : S) (out : ℤ × R × S) → Holds r s → read r s ≡ some out → Holds out.1 out.2)
    → Holds r s
    → Called read r s r' s'
    → Holds r' s'
Called-keeps Holds keep now start = now
Called-keeps Holds keep now (again {r'} {s'} out calls run) =
    keep r' s' out (Called-keeps Holds keep now calls) run
