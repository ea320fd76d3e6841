-- ===== src/Redis/Reply/Array.antt =====
-- ParseReply on an array of bulk strings: the answers come out as they were sent.
use magneto.Base.{
  drop-append, ℕ, suc, ◌+◌, ◌^◌, ◌<◌, ◌==◌, ◌≡◌, ◌∙◌, refl, sym, ap, false, ◌||◌, if◌then◌else◌,
  List, [], ◌∷◌, ◌++◌, append_assoc, length, length-append, drop, none, some, pos, leb_ℤ, arith,
  digits, find, Lacks, digits-Lacks, digits-nonempty,
}
use magneto.Redis.{k_sep, crlf, bulk}
use magneto.Redis.Reply.{
  out_of_range, Strtol, find_crlf, stop, done, parse_reply_seg, parse_answers, parse_array,
  parse_kind, parse_reply,
}
use magneto.Redis.Reply.Lines.{Reads, find_crlf-Lacks}
use magneto.Redis.Reply.Bulk.{announced}
use magneto.Redis.Reply.Segment.{Plain, size_of, parse_reply_seg-announced}

abbrev pub AllPlain : List (List ℕ) → Type 0
AllPlain [] = Unit
AllPlain (p ∷ ps) = Plain p × AllPlain ps

-- The answers in a row, with what is behind them; their sizes; and what is made of them.
abbrev pub answers : List (List ℕ) → List ℕ → List ℕ
answers [] s = s
answers (p ∷ ps) s = announced (length p) (p ++ (crlf ++ answers ps s))

abbrev pub sizes : List (List ℕ) → ℕ
sizes [] = 0
sizes (p ∷ ps) = size_of p + sizes ps

abbrev pub joined : List (List ℕ) → List ℕ
joined [] = []
joined (p ∷ []) = p
joined (p ∷ q ∷ ps) = p ++ k_sep ∷ joined (q ∷ ps)

find-gap : (c : ℕ) (gap s : List ℕ) → Lacks c gap → find c (gap ++ c ∷ s) ≡ some (length gap)
unfolding find
find-gap c [] s h = ground arith
find-gap c (x ∷ gap) s (h, hs) = ground (arith, find-gap c gap s hs)

Lacks-append : (c : ℕ) (xs ys : List ℕ) → Lacks c xs → Lacks c ys → Lacks c (xs ++ ys)
Lacks-append c [] ys h k = k
Lacks-append c (x ∷ xs) ys (h, hs) k = (h, Lacks-append c xs ys hs k)

-- A round of the loop over the answers.
parse_answers-step :
    (strtol : Strtol) (reply : List ℕ) (left start gap size size' : ℕ) (out out' : List ℕ)
    → find b'$' (drop start reply) ≡ some gap
    → parse_reply_seg strtol reply (start + gap) size out ≡ (pos 0, size', out')
    → parse_answers strtol reply (suc left) start size out
      ≡ parse_answers strtol reply left
          (start + gap + 1)
          size'
          (if left == 0 then out' else out' ++ k_sep ∷ [])
unfolding parse_answers
parse_answers-step strtol reply left start gap size size' out out' found segment =
    rw (found, parse_answers) (rw segment refl)

module _ (strtol : Strtol) (reads : Reads strtol) where
  -- The first answer of several.
  parse_answers-first :
      (pre gap p rest : List ℕ) (left size : ℕ) (out out' : List ℕ)
      → (if left == 0 then out ++ p else (out ++ p) ++ k_sep ∷ []) ≡ out'
      → Lacks b'$' gap
      → 2 < length pre + length gap
      → Plain p
      → let reply = pre ++ (gap ++ announced (length p) (p ++ (crlf ++ rest))) in
        parse_answers strtol reply (suc left) (length pre) size out
        ≡ parse_answers strtol reply left (length pre + length gap + 1) (size_of p) out'
  parse_answers-first pre gap p rest left size out out' then_out lacks far plain =
      let full = announced (length p) (p ++ (crlf ++ rest)) in
      let reply = pre ++ (gap ++ full) in
      let found : find b'$' (drop (length pre) reply) ≡ some (length gap) =
        ap (find b'$') (drop-append pre (gap ++ full)) ∙ find-gap b'$' gap _ lacks in
      let total : length (pre ++ gap) ≡ length pre + length gap = length-append pre gap in
      let segment : parse_reply_seg strtol reply (length pre + length gap) size out
          ≡ (pos 0, size_of p, out ++ p) =
        ap (λ n. parse_reply_seg strtol reply n size out) (sym total)
        ∙ ap (λ r. parse_reply_seg strtol r (length (pre ++ gap)) size out)
            (sym (append_assoc pre gap full))
        ∙ parse_reply_seg-announced strtol reads (pre ++ gap) p rest size out (omega arith) plain in
      parse_answers-step strtol reply left (length pre) (length gap) size (size_of p) out (out ++ p)
        found segment
      ∙ ap (parse_answers strtol reply left (length pre + length gap + 1) (size_of p)) then_out

  parse_answers-answers :
      (p : List ℕ) (ps : List (List ℕ)) (pre gap s : List ℕ) (size : ℕ) (out : List ℕ)
      → Lacks b'$' gap
      → 2 < length pre + length gap
      → AllPlain (p ∷ ps)
      → parse_answers strtol
          (pre ++ (gap ++ answers (p ∷ ps) s))
          (length (p ∷ ps))
          (length pre)
          size
          out
        ≡ done (length pre + length gap + sizes (p ∷ ps)) (out ++ joined (p ∷ ps))
  unfolding parse_answers
  parse_answers-answers p [] pre gap s size out lacks far (plain, _) =
      parse_answers-first pre gap p s 0 size out (out ++ p) (ground arith) lacks far plain
      ∙ ap (λ n. done n (out ++ p)) (omega arith)
  parse_answers-answers p (q ∷ ps) pre gap s size out lacks far (plain, plains) =
      let rest = answers (q ∷ ps) s in
      let pre' = (pre ++ gap) ++ b'$' ∷ [] in
      let gap' = digits (length p) ++ (crlf ++ (p ++ crlf)) in
      let reply = pre ++ (gap ++ answers (p ∷ q ∷ ps) s) in
      let again : reply ≡ pre' ++ (gap' ++ rest) = simp append_assoc in
      let lacks' : Lacks b'$' gap' =
        Lacks-append b'$' (digits (length p)) (crlf ++ (p ++ crlf))
          (digits-Lacks (length p) b'$' refl)
          (refl, (refl, Lacks-append b'$' p crlf plain.3 (refl, (refl, tt)))) in
      let long : length pre' ≡ length pre + length gap + 1 =
        length-append (pre ++ gap) (b'$' ∷ []) ∙ ap (λ n. n + 1) (length-append pre gap) in
      let wide : length gap' + 1 ≡ size_of p =
        omega
          (arith, length-append (digits (length p)) (crlf ++ (p ++ crlf)), length-append p crlf) in
      let end : length pre' + length gap' + sizes (q ∷ ps)
          ≡ length pre + length gap + sizes (p ∷ q ∷ ps) =
        omega arith in
      let row : ((out ++ p) ++ k_sep ∷ []) ++ joined (q ∷ ps) ≡ out ++ joined (p ∷ q ∷ ps) =
        simp append_assoc in
      parse_answers-first pre gap p rest (suc (length ps)) size out ((out ++ p) ++ k_sep ∷ [])
        (ground arith) lacks far plain
      ∙ ap
          (λ n.
            parse_answers strtol reply (suc (length ps)) n (size_of p) ((out ++ p) ++ k_sep ∷ []))
          (sym long)
      ∙ ap
          (λ r.
            parse_answers strtol r (suc (length ps)) (length pre') (size_of p)
              ((out ++ p) ++ k_sep ∷ []))
          again
      ∙ parse_answers-answers q ps pre' gap' s (size_of p) ((out ++ p) ++ k_sep ∷ []) lacks'
          (omega arith) plains
      ∙ rw (end, row) refl

-- An array of bulk strings as the protocol spells it.
abbrev pub bulks : List (List ℕ) → List ℕ
bulks [] = []
bulks (p ∷ ps) = bulk (length p) p ++ bulks ps

abbrev pub array_of : List (List ℕ) → List ℕ
array_of ps = b'*' ∷ digits (length ps) ++ (crlf ++ bulks ps)

bulks-answers : (ps : List (List ℕ)) (s : List ℕ) → bulks ps ++ s ≡ answers ps s
bulks-answers [] s = refl
bulks-answers (p ∷ ps) s =
    append_assoc (bulk (length p) p) (bulks ps) s
    ∙ ap (λ xs. bulk (length p) p ++ xs) (bulks-answers ps s)
    ∙ simp append_assoc

length-bulks : (ps : List (List ℕ)) → length (bulks ps) ≡ sizes ps
length-bulks [] = refl
length-bulks (p ∷ ps) = omega (
  arith,
  length-append (bulk (length p) p) (bulks ps),
  length-append (digits (length p)) (crlf ++ (p ++ crlf)),
  length-append p crlf,
  length-bulks ps,
)

module _ (strtol : Strtol) (reads : Reads strtol) where
  parse_array-answers :
      (p : List ℕ) (ps : List (List ℕ)) (s out : List ℕ) (idx_cr : ℕ)
      → length (p ∷ ps) < 2 ^ 31
      → AllPlain (p ∷ ps)
      → let n = length (p ∷ ps) in
        let gap = b'*' ∷ digits n ++ crlf in
        parse_array strtol (gap ++ answers (p ∷ ps) s) idx_cr out
        ≡ done (length gap + sizes (p ∷ ps)) (((out ++ digits n) ++ k_sep ∷ []) ++ joined (p ∷ ps))
  unfolding parse_array
  parse_array-answers p ps s out idx_cr few plains =
      let n = length (p ∷ ps) in
      let gap = b'*' ∷ digits n ++ crlf in
      let reply = gap ++ answers (p ∷ ps) s in
      let some_digits = digits-nonempty n in
      let spelled : drop 1 reply ≡ digits n ++ (crlf ++ answers (p ∷ ps) s) =
        append_assoc (digits n) crlf (answers (p ∷ ps) s) in
      let number : strtol (drop 1 reply) ≡ (pos n, length (digits n)) =
        ap strtol spelled ∙ reads.number n b'\r' (b'\n' ∷ answers (p ∷ ps) s) (omega arith) refl in
      let fits : (out_of_range (pos n) || length (digits n) == 0) ≡ false = ground arith in
      let some_answers : leb_ℤ (pos n) (pos 0) ≡ false = ground arith in
      let lacks : Lacks b'$' gap =
        (refl, Lacks-append b'$' (digits n) crlf (digits-Lacks n b'$' refl) (refl, (refl, tt))) in
      let wide = length-append (digits n) crlf in
      let all =
        parse_answers-answers strtol reads p ps [] gap s 0 ((out ++ digits n) ++ k_sep ∷ []) lacks
          (omega arith) plains in
      let size : 0 + length gap + sizes (p ∷ ps) ≡ length gap + sizes (p ∷ ps) = omega arith in
      rw (number, parse_array)
        (rw fits (
          rw some_answers
            (all ∙ ap (λ k. done k (((out ++ digits n) ++ k_sep ∷ []) ++ joined (p ∷ ps))) size)))

  -- An array of at least one bulk string, as the protocol spells it, with anything behind it: if
  -- no payload is empty, or holds the end of a line or a `$`, ParseReply takes it, gives its size
  -- in the reply, and appends the number of the answers and then the payloads in their order, with
  -- a separator between two of these. This is for fewer than 2^31 answers of less than 2^31 bytes.
  pub parse_reply-array :
      (p : List ℕ) (ps : List (List ℕ)) (s out : List ℕ)
      → length (p ∷ ps) < 2 ^ 31
      → AllPlain (p ∷ ps)
      → parse_reply strtol (array_of (p ∷ ps) ++ s) out
        ≡ done
            (length (array_of (p ∷ ps)))
            (out ++ (digits (length (p ∷ ps)) ++ k_sep ∷ joined (p ∷ ps)))
  unfolding parse_reply parse_kind
  parse_reply-array p ps s out few plains =
      let n = length (p ∷ ps) in
      let gap = b'*' ∷ digits n ++ crlf in
      let reply = gap ++ answers (p ∷ ps) s in
      let spelled : array_of (p ∷ ps) ++ s ≡ reply =
        ap (λ xs. b'*' ∷ xs)
          (append_assoc (digits n) (crlf ++ bulks (p ∷ ps)) s
            ∙ ap (λ xs. digits n ++ (crlf ++ xs)) (bulks-answers (p ∷ ps) s)
            ∙ sym (append_assoc (digits n) crlf (answers (p ∷ ps) s))) in
      let cr : find_crlf reply ≡ some (suc (length (digits n))) =
        ap (λ xs. find_crlf (b'*' ∷ xs)) (append_assoc (digits n) crlf (answers (p ∷ ps) s))
        ∙ find_crlf-Lacks (b'*' ∷ digits n) (answers (p ∷ ps) s)
            (refl, digits-Lacks n b'\r' refl) in
      let size : length gap + sizes (p ∷ ps) ≡ length (array_of (p ∷ ps)) = omega (
        arith,
        length-append (digits n) crlf,
        length-append (digits n) (crlf ++ bulks (p ∷ ps)),
        length-bulks (p ∷ ps),
      ) in
      let row : ((out ++ digits n) ++ k_sep ∷ []) ++ joined (p ∷ ps)
          ≡ out ++ (digits n ++ k_sep ∷ joined (p ∷ ps)) =
        simp append_assoc in
      ap (λ r. parse_reply strtol r out) spelled
      ∙ ap
          (λ o. elim o [
            | none ↦ stop (pos 1) out
            | some idx ↦ parse_kind strtol b'*' reply idx out
          ])
          cr
      ∙ parse_array-answers p ps s out (suc (length (digits n))) few plains
      ∙ rw (size, row) refl
