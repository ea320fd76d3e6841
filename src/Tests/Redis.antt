-- ===== src/Tests/Redis.antt =====
-- Commands of the redis protocol.
use magneto.Base.{
  ◌≡◌, ◌≢◌, ◌⊎◌, refl, List, [], ◌∷◌, ◌++◌, ℕ, some, none, codes, digits, arith, ◌-◌, ◌<◌, ◌^◌, ap,
  pos, negsuc, length, length-append, read_number, read_number-digits, is_digit, false, ◌+ℤ◌,
}
use magneto.Redis.{parse_cmd, bulk, k_sep}
use magneto.Redis.Reply.{Strtol, parse_reply, find_crlf, done, stop}
use magneto.Redis.Reply.Bulk.{parse_reply-bulk}
use magneto.Redis.Reply.Lines.{Reads}
use magneto.Redis.Reply.Array.{array_of, joined, parse_reply-array}
use magneto.Redis.Codec.{Delivered, read_loop-delivers}
use magneto.Tests.Rapid.{trickle, trickle-Ordered}
use magneto.Redis.Command.{parse_cmd-command, Cuts, Gap, command}
use magneto.Redis.Command.Wire.{read_command, read_command-parse_cmd}

-- `GET`, the separator, `key`.
abbrev get_key : List ℕ
get_key = codes "GET" ++ 1 ∷ codes "key"

parse_get_key : parse_cmd get_key ≡ some (some (codes "*2\r\n$3\r\nGET\r\n$3\r\nkey\r\n"))
unfolding parse_cmd digits
parse_get_key = refl

parse_gap : parse_cmd (codes "GET" ++ 1 ∷ 1 ∷ []) ≡ some none
unfolding parse_cmd
parse_gap = refl

parse_cmd-command_example :
    ((ps : List (List ℕ)) × (ps ≢ [])
      × Cuts ps get_key
      × (parse_cmd get_key ≡ some (some (command ps))))
    ⊎ (((get_key ≡ []) ⊎ Gap get_key) × (parse_cmd get_key ≡ some none))
parse_cmd-command_example = parse_cmd-command get_key (omega arith)

read_command-parse_cmd_example :
    (ps : List (List ℕ)) × Cuts ps get_key
    × (read_command (codes "*2\r\n$3\r\nGET\r\n$3\r\nkey\r\n" ++ codes "*1")
        ≡ some (ps, codes "*1"))
read_command-parse_cmd_example =
    read_command-parse_cmd get_key (codes "*2\r\n$3\r\nGET\r\n$3\r\nkey\r\n") (codes "*1")
      (omega arith) parse_get_key

-- A reader of decimal numbers in place of `strtol`.
abbrev strtol : Strtol
strtol s = let (n, rest) = read_number 0 s in (pos n, length s - length rest)

reads : Reads strtol
reads = record { number = by_digits }
  where
    by_digits :
        (n c : ℕ) (s : List ℕ)
        → n < 2 ^ 63 - 1
        → is_digit c ≡ false
        → strtol (digits n ++ c ∷ s) ≡ (pos n, length (digits n))
    by_digits n c s small h =
        rw (read_number-digits n c s h)
          (ap (λ k. (pos n, k)) (omega (arith, length-append (digits n) (c ∷ s))))

parse_reply-bulk_example :
    ((find_crlf (codes "key") ≡ none)
      × (parse_reply strtol (bulk 3 (codes "key") ++ codes "+") []
          ≡ done (length (bulk 3 (codes "key"))) (b'1' ∷ k_sep ∷ codes "key")))
    ⊎ (((i : ℕ) × (find_crlf (codes "key") ≡ some i))
        × (parse_reply strtol (bulk 3 (codes "key") ++ codes "+") [] ≡ stop (negsuc 0) []))
parse_reply-bulk_example = parse_reply-bulk strtol reads (codes "key") (codes "+") [] (omega arith)

parse_reply-array_example :
    parse_reply strtol (array_of (codes "key" ∷ codes "v" ∷ []) ++ codes "+") []
    ≡ done
        (length (array_of (codes "key" ∷ codes "v" ∷ [])))
        ([] ++ (digits 2 ++ k_sep ∷ joined (codes "key" ∷ codes "v" ∷ [])))
unfolding find_crlf
parse_reply-array_example =
    parse_reply-array strtol reads (codes "key") (codes "v" ∷ []) (codes "+") [] (omega arith) (
      (omega arith, omega arith, refl, (refl, (refl, (refl, tt)))),
      ((omega arith, omega arith, refl, (refl, tt)), tt),
    )

-- A `$` in an answer of an array is taken for the start of the next one.
misread :
    parse_reply strtol (array_of (codes "a$b" ∷ codes "c" ∷ [])) []
    ≡ stop (negsuc 0) (codes "2" ++ k_sep ∷ codes "a$b" ++ k_sep ∷ [])
unfolding parse_reply read_number ◌+ℤ◌ digits
misread = refl

-- A value with the end of a line in it is refused.
refused : parse_reply strtol (codes "$4\r\na\r\nb\r\n") [] ≡ stop (negsuc 0) []
unfolding parse_reply read_number ◌+ℤ◌
refused = refl

-- The first value of an array is written again when the rest has come.
half :
    parse_reply strtol (codes "*2\r\n$1\r\na\r\n") []
    ≡ stop (pos 1) (codes "2" ++ 1 ∷ codes "a" ++ 1 ∷ [])
unfolding parse_reply read_number digits
half = refl

whole :
    parse_reply strtol (codes "*2\r\n$1\r\na\r\n$1\r\nb\r\n") (codes "2" ++ 1 ∷ codes "a" ++ 1 ∷ [])
    ≡ done 18 (codes "2" ++ 1 ∷ codes "a" ++ 1 ∷ codes "2" ++ 1 ∷ codes "a" ++ 1 ∷ codes "b")
unfolding parse_reply read_number digits
whole = refl

-- An empty value in an array is refused.
empty : (parse_reply strtol (codes "*1\r\n$0\r\n\r\n") []).ret ≡ negsuc 0
unfolding parse_reply read_number digits
empty = refl

read_loop-delivers_example : Delivered trickle (λ s. s) 4 (codes "+OK") []
read_loop-delivers_example =
    read_loop-delivers trickle (λ s. s) 4 (codes "+OK") [] trickle-Ordered
      (refl, (refl, (refl, tt))) (omega arith)
