-- ===== src/Redis/Command/Wire.antt =====
-- What a server of the redis protocol reads from the output of ParseCmd.
use magneto.Base.{
  take-append, drop-append, ℕ, zero, suc, ◌^◌, ◌<◌, ◌==◌, ◌≡◌, inl, inr, refl, true, if◌then◌else◌,
  List, [], ◌∷◌, ◌++◌, append_assoc, length, take, drop, Option, none, some, arith, digits,
  read_number, read_number-digits,
}
use magneto.Redis.{crlf, bulk, parse_cmd}
use magneto.Redis.Command.{Cuts, bulks, command, parse_cmd-command}

-- The text behind a given start.
unfoldable pub expect : List ℕ → List ℕ → Option (List ℕ)
expect [] s = some s
expect (c ∷ start) [] = none
expect (c ∷ start) (x ∷ s) = if x == c then expect start s else none

-- A line with a size, behind its mark.
unfoldable pub end_line : ℕ × List ℕ → Option (ℕ × List ℕ)
unfolding expect
end_line (n, s) = elim (expect crlf s) [ none ↦ none | some s' ↦ some (n, s') ]

unfoldable pub read_size : ℕ → List ℕ → Option (ℕ × List ℕ)
unfolding end_line
read_size mark [] = none
read_size mark (c ∷ s) = if c == mark then end_line (read_number 0 s) else none

-- A bulk string: `$`, its length, and as many bytes.
unfoldable pub read_bulk : List ℕ → Option (List ℕ × List ℕ)
unfolding expect
read_bulk s = elim (read_size b'$' s) [
  | none ↦ none
  | some (len, s1) ↦ elim (expect crlf (drop len s1)) [
    | none ↦ none
    | some s2 ↦ some (take len s1, s2)
  ]
]

unfoldable pub read_bulks : ℕ → List ℕ → Option (List (List ℕ) × List ℕ)
unfolding read_bulk
read_bulks zero s = some ([], s)
read_bulks (suc n) s = elim (read_bulk s) [
  | none ↦ none
  | some (p, s1) ↦ elim (read_bulks n s1) [ none ↦ none | some (ps, s2) ↦ some (p ∷ ps, s2) ]
]

-- An array of bulk strings, with what follows it.
unfoldable pub read_command : List ℕ → Option (List (List ℕ) × List ℕ)
unfolding read_bulks
read_command s = elim (read_size b'*' s) [ none ↦ none | some (n, s1) ↦ read_bulks n s1 ]

read_number-crlf : (n : ℕ) (s : List ℕ) → read_number 0 (digits n ++ (crlf ++ s)) ≡ (n, crlf ++ s)
read_number-crlf n s = read_number-digits n b'\r' (b'\n' ∷ s) refl

read_size-digits :
    (mark n : ℕ) (s : List ℕ) → read_size mark (mark ∷ digits n ++ (crlf ++ s)) ≡ some (n, s)
unfolding read_size expect
read_size-digits mark n s =
    let same : (mark == mark) ≡ true = ground arith in rw (same, read_number-crlf n s) refl

-- A bulk string with what follows it, from the left.
bulk-append :
    (p s : List ℕ)
    → bulk (length p) p ++ s ≡ b'$' ∷ digits (length p) ++ (crlf ++ (p ++ (crlf ++ s)))
bulk-append p s = simp append_assoc

read_bulk-bulk : (p s : List ℕ) → read_bulk (bulk (length p) p ++ s) ≡ some (p, s)
unfolding read_bulk expect
read_bulk-bulk p s = rw (bulk-append p s) (
    rw (read_size-digits b'$' (length p) (p ++ (crlf ++ s)), read_bulk)
      (ground (arith, take-append p (crlf ++ s), drop-append p (crlf ++ s))))

read_bulks-bulks :
    (ps : List (List ℕ)) (s : List ℕ) → read_bulks (length ps) (bulks ps ++ s) ≡ some (ps, s)
unfolding read_bulks
read_bulks-bulks [] s = refl
read_bulks-bulks (p ∷ ps) s = rw (append_assoc (bulk (length p) p) (bulks ps) s) (
    rw (read_bulk-bulk p (bulks ps ++ s), read_bulks) (rw (read_bulks-bulks ps s, read_bulks) refl))

read_command-command :
    (ps : List (List ℕ)) (s : List ℕ) → read_command (command ps ++ s) ≡ some (ps, s)
unfolding read_command
read_command-command ps s =
    let regroup : command ps ++ s ≡ b'*' ∷ digits (length ps) ++ (crlf ++ (bulks ps ++ s)) =
      simp append_assoc in
    rw regroup
      (rw (read_size-digits b'*' (length ps) (bulks ps ++ s), read_command) (read_bulks-bulks ps s))

-- When ParseCmd takes an input of less than 2^32 bytes, a server that reads the protocol's arrays
-- of bulk strings gets back from the output, and from anything behind it, the segments that spell
-- the input, and is left with what is behind.
pub read_command-parse_cmd :
    (input out s : List ℕ)
    → length input < 2 ^ 32
    → parse_cmd input ≡ some (some out)
    → (ps : List (List ℕ)) × Cuts ps input × (read_command (out ++ s) ≡ some (ps, s))
unfolding read_command
read_command-parse_cmd input out s small run = elim (parse_cmd-command input small) [
  | inl (ps, some_segments, cuts, parsed) ↦
      let same : command ps ≡ out = cc in (ps, cuts, rw (← same) (read_command-command ps s))
  | inr (gap, failed) ↦ absurd (ground arith)
]
