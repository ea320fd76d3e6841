-- ===== src/Redis.antt =====
-- src/protocols/redis/redis_parser.h and src/protocols/redis/details/redis_parser.cpp: commands
-- from the segments of a buffer, and replies to the segments of a result.
pub mod Command
pub mod Reply
pub mod Codec
use magneto.Base.{
  ℕ, zero, suc, ◌+◌, ◌-◌, ◌%◌, ◌^◌, ◌==◌, Bool, true, false, if◌then◌else◌, List, [], ◌∷◌, ◌++◌,
  length, take, drop, Option, none, some, digits, find,
}

abbrev pub k_sep : ℕ
k_sep = 1

abbrev pub crlf : List ℕ
crlf = b'\r' ∷ b'\n' ∷ []

-- One `$<length>\r\n<segment>\r\n`.
abbrev pub bulk : ℕ → List ℕ → List ℕ
bulk len_seg seg = b'$' ∷ digits len_seg ++ (crlf ++ (seg ++ crlf))

-- A round of the loop of ParseCmd over a segment of `len_seg` bytes, an `uint32_t`: an empty one
-- ends the loop. `go_on` is the rest of the loop, from the segments counted and the result so far.
abbrev pub add_segment :
    ℕ
    → List ℕ
    → ℕ
    → List ℕ
    → (ℕ → List ℕ → Option (Option (ℕ × List ℕ)))
    → Option (Option (ℕ × List ℕ))
add_segment len_seg rest num_segs result go_on =
    if len_seg == 0
    then some (some (num_segs, result))
    else go_on ((num_segs + 1) % 2 ^ 32) (result ++ bulk len_seg (take len_seg rest))

-- The loop on what follows `follower`, which is `rest`: `leader` is the index of a separator in
-- it. The outer `none` is that the fuel ran out, the inner one that ParseCmd fails.
unfoldable pub parse_segs : ℕ → List ℕ → ℕ → List ℕ → Option (Option (ℕ × List ℕ))
unfolding find
parse_segs zero rest num_segs result = none
parse_segs (suc fuel) rest num_segs result = elim (find k_sep rest) [
  | some zero ↦ some none
  | some (suc i) ↦
      add_segment (suc i % 2 ^ 32) rest num_segs result (parse_segs fuel (drop (suc (suc i)) rest))
  | none ↦
      add_segment (length rest % 2 ^ 32) rest num_segs result (λ num out. some (some (num, out)))
]

-- ParseCmd: each round takes a byte at least.
unfoldable pub parse_cmd : List ℕ → Option (Option (List ℕ))
unfolding parse_segs
parse_cmd [] = some none
parse_cmd (c ∷ s) = elim (parse_segs (suc (length (c ∷ s))) (c ∷ s) 0 crlf) [
  | none ↦ none
  | some none ↦ some none
  | some (some (num_segs, result)) ↦ some (some (b'*' ∷ digits num_segs ++ result))
]
