-- ===== src/Redis/Reply/Segment.antt =====
-- ParseReplySeg_ on one bulk string of an array.
use magneto.Base.{
  take-append, drop-append, ℕ, suc, ◌+◌, ◌-◌, ◌^◌, ◌<◌, ◌==◌, ◌≡◌, ◌∙◌, refl, ap, true, false, ◌||◌,
  List, [], ◌∷◌, ◌++◌, length, take, drop, none, some, pos, negsuc, leb_ℤ, eqb_ℤ, arith, digits,
  Lacks, digits-Lacks,
}
use magneto.Socket.{to_int32}
use magneto.Redis.{crlf}
use magneto.Redis.Reply.{out_of_range, Strtol, find_crlf, parse_reply_seg}
use magneto.Redis.Reply.Lines.{
  Reads, find_crlf-Lacks, find_crlf-none, drop-two, drop-one, line_feed_first,
}
use magneto.Redis.Reply.Bulk.{announced}

-- What an answer has to be for ParseReplySeg_ to take it, and for the next one to be found behind it.
abbrev pub Plain : List ℕ → Type 0
Plain p = (0 < length p) × (length p < 2 ^ 31) × (find_crlf p ≡ none) × Lacks b'$' p

-- The size of a bulk string, as ParseReplySeg_ finds it.
abbrev pub size_of : List ℕ → ℕ
size_of p = suc (length (digits (length p))) + 1 + suc (length p) + 2

drop-add : (pre xs : List ℕ) (k : ℕ) → drop (length pre + k) (pre ++ xs) ≡ drop k xs
drop-add [] xs k = ap (λ n. drop n xs) (omega arith)
drop-add (x ∷ pre) xs k =
    let next : suc (length pre) + k ≡ suc (length pre + k) = omega arith in
    ap (λ n. drop n (x ∷ pre ++ xs)) next ∙ drop-add pre xs k

same_int : (a len : ℕ) → len < 2 ^ 31 → eqb_ℤ (to_int32 (a + 1 + suc len - a - 2)) (pos len) ≡ true
same_int a len h =
    let diff : a + 1 + suc len - a - 2 ≡ len = omega arith in
    ap (λ n. eqb_ℤ (to_int32 n) (pos len)) diff ∙ ground arith

-- ParseReplySeg_, once its calls have come through.
parse_reply_seg-step :
    (strtol : Strtol) (reply : List ℕ) (start c len d size : ℕ) (out : List ℕ)
    → find_crlf (drop start reply) ≡ some c
    → strtol (drop (start + 1) reply) ≡ (pos len, d)
    → find_crlf (drop (start + c + 1) reply) ≡ some (suc len)
    → 0 < len
    → len < 2 ^ 31
    → 2 < start
    → parse_reply_seg strtol reply start size out
      ≡ (pos 0, start + c + 1 + suc len + 2 - start, out ++ take len (drop (start + c + 2) reply))
unfolding parse_reply_seg
parse_reply_seg-step strtol reply start c len d size out first number second some_bytes short far =
    let there : eqb_ℤ (pos len) (negsuc 0) ≡ false = ground arith in
    let fits : (out_of_range (pos len) || start + 1 + d == 3 || leb_ℤ (pos len) (pos 0)) ≡ false =
      ground arith in
    let same = same_int (start + c) len short in ground (arith, same)

module _ (strtol : Strtol) (reads : Reads strtol) where
  pub parse_reply_seg-announced :
      (pre p s : List ℕ) (size : ℕ) (out : List ℕ)
      → 2 < length pre
      → Plain p
      → parse_reply_seg strtol
          (pre ++ announced (length p) (p ++ (crlf ++ s)))
          (length pre)
          size
          out
        ≡ (pos 0, size_of p, out ++ p)
  parse_reply_seg-announced pre p s size out far (some_bytes, short, whole, _) =
      let len = length p in
      let line = b'$' ∷ digits len in
      let full = announced len (p ++ (crlf ++ s)) in
      let reply = pre ++ full in
      let idx_cr = length pre + suc (length (digits len)) in
      let first : find_crlf (drop (length pre) reply) ≡ some (suc (length (digits len))) =
        ap find_crlf (drop-append pre full)
        ∙ find_crlf-Lacks line (p ++ (crlf ++ s)) (refl, digits-Lacks len b'\r' refl) in
      let number : strtol (drop (length pre + 1) reply) ≡ (pos len, length (digits len)) =
        ap strtol (drop-add pre full 1)
        ∙ reads.number len b'\r' (b'\n' ∷ p ++ (crlf ++ s)) (omega arith) refl in
      let at_lf : drop (idx_cr + 1) reply ≡ b'\n' ∷ p ++ (crlf ++ s) =
        ap (λ n. drop n reply) (omega arith)
        ∙ drop-add pre full (suc (length (digits len)) + 1)
        ∙ drop-one line (p ++ (crlf ++ s)) in
      let second : find_crlf (drop (idx_cr + 1) reply) ≡ some (suc len) =
        ap find_crlf at_lf ∙ line_feed_first (p ++ (crlf ++ s)) len (find_crlf-none p s whole) in
      let payload : drop (idx_cr + 2) reply ≡ p ++ (crlf ++ s) =
        ap (λ n. drop n reply) (omega arith)
        ∙ drop-add pre full (suc (length (digits len)) + 2)
        ∙ drop-two line (p ++ (crlf ++ s)) in
      let size' : idx_cr + 1 + suc len + 2 - length pre ≡ size_of p = omega arith in
      let taken : take len (drop (idx_cr + 2) reply) ≡ p =
        ap (take len) payload ∙ take-append p (crlf ++ s) in
      parse_reply_seg-step strtol reply (length pre) (suc (length (digits len))) len
        (length (digits len)) size out first number second some_bytes short far
      ∙ ap (λ n. (pos 0, n, out ++ take len (drop (idx_cr + 2) reply))) size'
      ∙ ap (λ q. (pos 0, size_of p, out ++ q)) taken
