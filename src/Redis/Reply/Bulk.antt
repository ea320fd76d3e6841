-- ===== src/Redis/Reply/Bulk.antt =====
-- ParseReply on a bulk string: which payloads it takes.
use magneto.Base.{
  take-append, ◌⊎◌, eqb_ℤ, ℕ, suc, ◌+◌, ◌-◌, ◌^◌, ◌<◌, ◌==◌, ◌≡◌, ◌∙◌, refl, ap, true, false, ◌||◌,
  if◌then◌else◌, Option-cases, inl, inr, List, ◌∷◌, ◌++◌, append_assoc, length, length-append, take,
  drop, none, some, pos, negsuc, ◌+ℤ◌, arith, digits, digits-Lacks, digits-nonempty,
}
use magneto.Socket.{to_int32}
use magneto.Redis.{k_sep, crlf, bulk}
use magneto.Redis.Reply.{
  out_of_range, Strtol, find_crlf, stop, done, parse_bulk, parse_kind, parse_reply,
}
use magneto.Redis.Reply.Lines.{
  Reads, find_crlf-Lacks, find_crlf-none, find_crlf-some, drop-two, drop-one, line_feed_first,
}

-- `$`, the length of the payload in decimal, and what is behind its line.
abbrev pub announced : ℕ → List ℕ → List ℕ
announced len s = b'$' ∷ digits len ++ (crlf ++ s)

-- The lengths are compared as `int`s.
same_length :
    (d i len : ℕ)
    → i < 2 ^ 31
    → len + 2 < 2 ^ 31
    → i + 2 < 2 ^ 31
    → eqb_ℤ (to_int32 (suc d + 1 + suc i - suc d)) (pos 2 +ℤ pos len) ≡ (i == len)
unfolding ◌+ℤ◌
same_length d i len h k l =
    let diff : suc d + 1 + suc i - suc d ≡ i + 2 = omega arith in
    ap (λ n. eqb_ℤ (to_int32 n) (pos 2 +ℤ pos len)) diff ∙ ground arith

-- The case `$`, once the line with the length is read.
parse_bulk-announced :
    (strtol : Strtol) (reads : Reads strtol) (len i : ℕ) (s out : List ℕ)
    → len + 2 < 2 ^ 31
    → find_crlf s ≡ some i
    → i + 2 < 2 ^ 31
    → parse_bulk strtol (announced len s) (suc (length (digits len))) out ≡ (
        if i == len
        then done (suc (length (digits len)) + 1 + suc i + 2) (out ++ b'1' ∷ k_sep ∷ take len s)
        else stop (negsuc 0) out)
unfolding parse_bulk
parse_bulk-announced strtol reads len i s out small found short =
    let line = b'$' ∷ digits len in
    let number = reads.number len b'\r' (b'\n' ∷ s) (omega arith) refl in
    let some_digits = digits-nonempty len in
    let in_range : (out_of_range (pos len) || length (digits len) == 0) ≡ false = ground arith in
    let not_null : eqb_ℤ (pos len) (negsuc 0) ≡ false = ground arith in
    let second : find_crlf (drop (length line + 1) (line ++ (crlf ++ s))) ≡ some (suc i) =
      ap find_crlf (drop-one line s) ∙ line_feed_first s i found in
    let rest = drop-two line s in
    let test = same_length (length (digits len)) i len (omega arith) small short in
    rw (number, parse_bulk)
      (rw in_range (rw second (rw number (rw (test, rest) (rw not_null refl)))))

parse_reply-announced :
    (strtol : Strtol) (reads : Reads strtol) (len i : ℕ) (s out : List ℕ)
    → len + 2 < 2 ^ 31
    → find_crlf s ≡ some i
    → i + 2 < 2 ^ 31
    → parse_reply strtol (announced len s) out ≡ (
        if i == len
        then done (suc (length (digits len)) + 1 + suc i + 2) (out ++ b'1' ∷ k_sep ∷ take len s)
        else stop (negsuc 0) out)
unfolding parse_reply parse_kind
parse_reply-announced strtol reads len i s out small found short =
    let cr : find_crlf (announced len s) ≡ some (suc (length (digits len))) =
      find_crlf-Lacks (b'$' ∷ digits len) s (refl, digits-Lacks len b'\r' refl) in
    ap
      (λ o. elim o [
        | none ↦ stop (pos 1) out
        | some idx ↦ parse_kind strtol b'$' (announced len s) idx out
      ])
      cr
    ∙ parse_bulk-announced strtol reads len i s out small found short

-- A bulk string as the protocol spells it, with anything behind it: if there is no end of a line
-- in the payload, ParseReply takes it, gives its size in the reply, and appends the mark of a
-- value and the payload; if there is one, it refuses the reply, although the protocol allows any
-- bytes there. This is for payloads of less than 2^31 - 2 bytes.
pub parse_reply-bulk :
    (strtol : Strtol) (reads : Reads strtol) (p s out : List ℕ)
    → length p + 2 < 2 ^ 31
    → ((find_crlf p ≡ none)
        × (parse_reply strtol (bulk (length p) p ++ s) out
            ≡ done (length (bulk (length p) p)) (out ++ b'1' ∷ k_sep ∷ p)))
      ⊎ (((i : ℕ) × (find_crlf p ≡ some i))
          × (parse_reply strtol (bulk (length p) p ++ s) out ≡ stop (negsuc 0) out))
parse_reply-bulk strtol reads p s out small =
    let spelled : bulk (length p) p ++ s ≡ announced (length p) (p ++ (crlf ++ s)) =
      simp append_assoc in
    elim (Option-cases (find_crlf p)) [
      | inl whole ↦
          let at_end = find_crlf-none p s whole in
          let same : (length p == length p) ≡ true = ground arith in
          let size : suc (length (digits (length p))) + 1 + suc (length p) + 2
              ≡ length (bulk (length p) p) =
            omega (
              arith,
              length-append (digits (length p)) (crlf ++ (p ++ crlf)),
              length-append p crlf,
            ) in
          inl (
            whole,
            ap (λ r. parse_reply strtol r out) spelled
                ∙ parse_reply-announced strtol reads (length p) (length p) (p ++ (crlf ++ s)) out
                    small at_end small
                ∙ rw (same, size, take-append p (crlf ++ s)) refl,
          )
      | inr (i, inside) ↦
          let (again, early) = find_crlf-some p (crlf ++ s) i inside in
          let other : (i == length p) ≡ false = ground arith in
          inr (
            (i, inside),
            ap (λ r. parse_reply strtol r out) spelled
                ∙ parse_reply-announced strtol reads (length p) i (p ++ (crlf ++ s)) out small again
                    (omega arith)
                ∙ rw other refl,
          )
    ]
