-- ===== src/Redis/Reply.antt =====
-- src/protocols/redis/details/redis_parser.cpp, ParseReply and ParseReplySeg_: what a server
-- answers. `strtol` of the C library is a parameter.
pub mod Lines
pub mod Bulk
pub mod Segment
pub mod Array
use magneto.Base.{
  ℕ, zero, suc, ◌+◌, ◌-◌, ◌^◌, ◌==◌, leb, Bool, true, false, ◌&&◌, ◌||◌, if◌then◌else◌, List, [],
  ◌∷◌, ◌++◌, length, take, drop, Option, none, some, ℤ, pos, negsuc, ◌+ℤ◌, eqb_ℤ, leb_ℤ, pos_part,
  digits, find, codes,
}
use magneto.Socket.{to_int32}
use magneto.Redis.{k_sep}

-- `strtol`, base 10: the number, and how many bytes it has read; none if that is no number.
abbrev pub Strtol : Type 0
Strtol = List ℕ → ℤ × ℕ

abbrev pub is_lf : List ℕ → Bool
is_lf [] = false
is_lf (y ∷ s) = y == b'\n'

-- `find("\r\n")`.
unfoldable pub find_crlf : List ℕ → Option ℕ
find_crlf [] = none
find_crlf (x ∷ s) =
    if x == b'\r' && is_lf s
    then some 0
    else elim (find_crlf s) [ none ↦ none | some i ↦ some (suc i) ]

abbrev pub starts_with : List ℕ → List ℕ → Bool
starts_with [] s = true
starts_with (c ∷ start) [] = false
starts_with (c ∷ start) (x ∷ s) = x == c && starts_with start s

abbrev pub contains : List ℕ → List ℕ → Bool
contains part [] = starts_with part []
contains part (x ∷ s) = starts_with part (x ∷ s) || contains part s

-- An index that is looked for from a position on.
abbrev pub behind : ℕ → Option ℕ → Option ℕ
behind start none = none
behind start (some i) = some (start + i)

-- LONG_MAX or LONG_MIN, which tell that the number does not fit.
abbrev pub out_of_range : ℤ → Bool
out_of_range n = eqb_ℤ n (pos (2 ^ 63 - 1)) || eqb_ℤ n (negsuc (2 ^ 63 - 1))

-- What ParseReply returns: its result, `is_pong`, `size_reply` if it was set, and `out`.
pub record Parsed : Type 0 where
  pub ret : ℤ
  pub is_pong : Bool
  pub size_reply : Option ℕ
  pub out : List ℕ

abbrev pub stop : ℤ → List ℕ → Parsed
stop ret out = record { ret = ret; is_pong = false; size_reply = none; out = out }

abbrev pub done : ℕ → List ℕ → Parsed
done size out = record { ret = pos 0; is_pong = false; size_reply = some size; out = out }

-- ParseReplySeg_: its result, `size_reply_seg` and `out`.
unfoldable pub parse_reply_seg : Strtol → List ℕ → ℕ → ℕ → List ℕ → ℤ × ℕ × List ℕ
unfolding find_crlf
parse_reply_seg strtol reply start size out = elim (behind start (find_crlf (drop start reply))) [
  | none ↦ (pos 1, size, out)
  | some idx_cr ↦
      let (len_answer, read) = strtol (drop (start + 1) reply) in
      if eqb_ℤ len_answer (negsuc 0)
      then (pos 0, idx_cr + 2 - start, out ++ codes "__null")
      else if out_of_range len_answer || start + 1 + read == 3 || leb_ℤ len_answer (pos 0)
      then (negsuc 0, size, out)
      else elim (behind (idx_cr + 1) (find_crlf (drop (idx_cr + 1) reply))) [
        | none ↦ (pos 1, size, out)
        | some idx_second_cr ↦
            if eqb_ℤ (to_int32 (idx_second_cr - idx_cr - 2)) len_answer
            then (
              pos 0,
              idx_second_cr + 2 - start,
              out ++ take (pos_part len_answer) (drop (idx_cr + 2) reply),
            )
            else (negsuc 0, size, out)
      ]
]

-- The loop of ParseReply over the `left` answers of an array.
unfoldable pub parse_answers : Strtol → List ℕ → ℕ → ℕ → ℕ → List ℕ → Parsed
unfolding parse_reply_seg find
parse_answers strtol reply zero idx_dollar size out = done (idx_dollar + size - 1) out
parse_answers strtol reply (suc left) idx_dollar size out =
    elim (behind idx_dollar (find b'$' (drop idx_dollar reply))) [
      | none ↦ stop (pos 1) out
      | some idx ↦
          let (ret, size', out') = parse_reply_seg strtol reply idx size out in
          let rest =
            parse_answers strtol reply left (idx + 1) size'
              (if left == 0 then out' else out' ++ k_sep ∷ []) in
          if eqb_ℤ ret (pos 0) then rest else stop ret out'
    ]

-- The case `*`.
unfoldable pub parse_array : Strtol → List ℕ → ℕ → List ℕ → Parsed
unfolding parse_answers
parse_array strtol reply idx_cr out =
    let (num_answer, read) = strtol (drop 1 reply) in
    if out_of_range num_answer || read == 0
    then stop (negsuc 0) out
    else if leb_ℤ num_answer (pos 0)
    then (if eqb_ℤ num_answer (negsuc 0)
        then done (idx_cr + 2) (out ++ codes "0")
        else stop (negsuc 0) out)
    else parse_answers strtol reply (pos_part num_answer) 0 0
        (out ++ digits (pos_part num_answer) ++ k_sep ∷ [])

-- The case `$`.
unfoldable pub parse_bulk : Strtol → List ℕ → ℕ → List ℕ → Parsed
unfolding find_crlf
parse_bulk strtol reply idx_cr out =
    let (len_answer, read) = strtol (drop 1 reply) in
    if out_of_range len_answer || read == 0
    then stop (negsuc 0) out
    else if eqb_ℤ len_answer (negsuc 0)
    then done (idx_cr + 2) (out ++ codes "0")
    else elim (behind (idx_cr + 1) (find_crlf (drop (idx_cr + 1) reply))) [
      | none ↦ stop (pos 1) out
      | some idx_second_cr ↦
          if eqb_ℤ (to_int32 (idx_second_cr - idx_cr)) (pos 2 +ℤ len_answer)
          then done (idx_second_cr + 2)
              (out ++ b'1' ∷ k_sep ∷ take (pos_part len_answer) (drop (idx_cr + 2) reply))
          else stop (negsuc 0) out
    ]

-- The switch of ParseReply over the first byte.
unfoldable pub parse_kind : Strtol → ℕ → List ℕ → ℕ → List ℕ → Parsed
unfolding parse_array parse_bulk
parse_kind strtol kind reply idx_cr out =
    if kind == b'*'
    then parse_array strtol reply idx_cr out
    else if kind == b'$'
    then parse_bulk strtol reply idx_cr out
    else if kind == b':'
    then done (idx_cr + 2) (out ++ b'1' ∷ k_sep ∷ take (idx_cr - 1) (drop 1 reply))
    else if kind == b'+'
    then record (done (idx_cr + 2) (out ++ codes "0")) {
      is_pong = leb 5 (length reply) && contains (codes "PONG") reply;
    }
    else if kind == b'-'
    then done (idx_cr + 2) (out ++ codes "__null")
    else stop (negsuc 0) out

-- ParseReply.
unfoldable pub parse_reply : Strtol → List ℕ → List ℕ → Parsed
unfolding find_crlf parse_kind
parse_reply strtol [] out = stop (negsuc 0) out
parse_reply strtol (kind ∷ s) out = elim (find_crlf (kind ∷ s)) [
  | none ↦ stop (pos 1) out
  | some idx_cr ↦ parse_kind strtol kind (kind ∷ s) idx_cr out
]
