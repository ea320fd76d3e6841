-- ===== src/Thrift/Framing.antt =====
-- ProtocolReadThrift::Read over a descriptor that delivers the bytes of a message in pieces of any
-- size: what the reader holds between two calls, and what it holds when a call returns 0.
use magneto.Base.{
  ℕ, zero, suc, ◌+◌, ◌-◌, ◌^◌, ◌≤◌, ◌<◌, ◌≡◌, ◌∙◌, refl, ap, inl, inr, List, ◌∷◌, ◌++◌, length,
  length-append, append_cut, arith, append_assoc, Bool, true, false, Bool-cases, Option, some, ℤ,
  pos, ◌==◌, ==_iff,
}
use magneto.Socket.{Recv, got, nothing, failed, Delivers, Ordered, to_int32-zero}
use magneto.Rapid.{load32, ntohl, end_or}
use magneto.Rapid.Bytes.{ntohl-bytes, word-bytes, byte_lt}
use magneto.Thrift.{
  Reader, bytes_of, append, finish_header, body_result, header_result, read_body, read_loop, read,
}

ntohl_lt : (n : ℕ) → ntohl n < 2 ^ 32
ntohl_lt n = omega (arith, byte_lt 0 n, byte_lt 1 n, byte_lt 2 n, byte_lt 3 n)

ntohl-ntohl : (n : ℕ) → n < 2 ^ 32 → ntohl (ntohl n) ≡ n
ntohl-ntohl n h = let bs = ntohl-bytes n in omega (arith, bs.0, bs.1, bs.2, bs.3, word-bytes n h)

-- The size that is read back from the header.
size-wire : (n : ℕ) → n < 2 ^ 32 → ntohl (load32 0 (bytes_of (ntohl n))) ≡ n
size-wire n h = ap ntohl (word-bytes (ntohl n) (ntohl_lt n)) ∙ ntohl-ntohl n h

-- A reader on the way through one message, with `p` the bytes that are still to come.
pub data Reading (msg rest : List ℕ) (r : Reader) (p : List ℕ) : Type 0 where
  in_header :
      r.read_header ≡ true
      → length r.buffer < 4
      → r.buffer ++ p ≡ bytes_of (ntohl (length msg)) ++ (msg ++ rest)
      → Reading msg rest r p
  in_body :
      r.read_header ≡ false
      → r.size_body ≡ length msg
      → r.buffer ++ p ≡ msg ++ rest
      → length r.buffer ≤ length msg
      → Reading msg rest r p

-- The message is there and nothing after it was taken.
abbrev pub Complete : List ℕ → List ℕ → Reader → List ℕ → Type 0
Complete msg rest r p = (r.buffer ≡ msg) × (p ≡ rest)

abbrev pub Post : {S : Type 0} → (S → List ℕ) → List ℕ → List ℕ → ℤ × Reader × S → Type 0
Post pending msg rest out =
    Reading msg rest out.1 (pending out.2)
    × (out.0 ≡ pos 0 → Complete msg rest out.1 (pending out.2))

below4 : (n : ℕ) → n ≤ 4 → (n == 4) ≡ false → n < 4
below4 n h e = ground arith

end_or-pos : (has : Bool) (left : ℕ) → 0 < left → left < 2 ^ 32 → ¬ (end_or has left ≡ pos 0)
end_or-pos true left h k z = let e = to_int32-zero left k z in omega arith
end_or-pos false left h k z = cc

module _ {S : Type 0} (pending : S → List ℕ) (msg rest : List ℕ) (fits : length msg < 2 ^ 32) where
  end_or-zero :
      (has : Bool) (left n : ℕ)
      → left ≡ length msg - n
      → n ≤ length msg
      → end_or has left ≡ pos 0
      → n ≡ length msg
  end_or-zero true left n e h z = let l = to_int32-zero left (omega arith) z in omega arith
  end_or-zero false left n e h z = cc

  body_result-Post :
      (r : Reader) (p : List ℕ) (has : Bool) (left : ℕ) (a : Recv) (s : S)
      → r.read_header ≡ false
      → r.size_body ≡ length msg
      → r.buffer ++ p ≡ msg ++ rest
      → length r.buffer ≤ length msg
      → left ≡ length msg - length r.buffer
      → Delivers p left a (pending s)
      → Post pending msg rest (body_result r has left a s)
  body_result-Post r p has left (got b bs) s hr hs hp hl e (d, k) =
      let cut : (r.buffer ++ b ∷ bs) ++ pending s ≡ msg ++ rest =
        append_assoc r.buffer (b ∷ bs) (pending s) ∙ (rw (← d) hp) in
      let l = length-append r.buffer (b ∷ bs) in
      (
        in_body hr hs cut (omega arith),
        λ z.
            let zero_left = to_int32-zero (left - suc (length bs)) (omega arith) z in
            append_cut (r.buffer ++ b ∷ bs) msg (pending s) rest cut (omega arith),
      )
  body_result-Post r p has left nothing s hr hs hp hl e d =
      let cut : r.buffer ++ pending s ≡ msg ++ rest = rw (← d) hp in
      (
        in_body hr hs cut hl,
        λ z.
            append_cut r.buffer msg (pending s) rest cut
              (end_or-zero has left (length r.buffer) e hl z),
      )
  body_result-Post r p has left (failed n) s hr hs hp hl e d =
      (in_body hr hs (rw (← d) hp) hl, λ h. cc)

  finish_header-size :
      (r : Reader) (p : List ℕ)
      → length r.buffer ≡ 4
      → r.buffer ++ p ≡ bytes_of (ntohl (length msg)) ++ (msg ++ rest)
      → ((finish_header r).size_body ≡ length msg) × (p ≡ msg ++ rest)
  finish_header-size r p hl hp =
      let (same, after) =
        append_cut r.buffer (bytes_of (ntohl (length msg))) p (msg ++ rest) hp hl in
      (ap (λ b. ntohl (load32 0 b)) same ∙ size-wire (length msg) fits, after)

  header_result-Post :
      (again : Reader → S → Option (ℤ × Reader × S)) (r : Reader) (p : List ℕ) (has : Bool)
      (left : ℕ) (a : Recv) (s : S)
      → ((r' : Reader)
          → (r'.read_header ≡ true → length r.buffer < length r'.buffer)
          → Reading msg rest r' (pending s)
          → (out : ℤ × Reader × S) × (again r' s ≡ some out) × Post pending msg rest out)
      → r.read_header ≡ true
      → r.buffer ++ p ≡ bytes_of (ntohl (length msg)) ++ (msg ++ rest)
      → left ≡ 4 - length r.buffer
      → length r.buffer < 4
      → Delivers p left a (pending s)
      → (out : ℤ × Reader × S) × (header_result again r has left a s ≡ some out)
        × Post pending msg rest out
  header_result-Post again r p has left (got b bs) s ih hr hp e hl (d, k) =
      let cut : (r.buffer ++ b ∷ bs) ++ pending s ≡ bytes_of (ntohl (length msg)) ++ (msg ++ rest) =
        append_assoc r.buffer (b ∷ bs) (pending s) ∙ (rw (← d) hp) in
      let l = length-append r.buffer (b ∷ bs) in
      elim (Bool-cases (length (r.buffer ++ b ∷ bs) == 4)) [
        | inl full ↦
            let (sized, after) =
              finish_header-size (append r b bs) (pending s) ((==_iff _ 4).0 full) cut in
            let (out, run, post) =
              ih (finish_header (append r b bs)) (λ h. cc)
                (in_body refl sized after (omega arith)) in
            (out, rw full (run), post)
        | inr short ↦
            let (out, run, post) =
              ih (append r b bs) (λ h. omega arith)
                (in_header hr (below4 _ (omega arith) short) cut) in
            (out, rw short (run), post)
      ]
  header_result-Post again r p has left nothing s ih hr hp e hl d = (
    _,
    refl,
    (
      in_header hr hl (rw (← d) hp),
      λ z. absurd (end_or-pos has left (omega arith) (omega arith) z),
    ),
  )
  header_result-Post again r p has left (failed n) s ih hr hp e hl d =
      (_, refl, (in_header hr hl (rw (← d) hp), λ z. cc))

module _ {S : Type 0} (recv : S → ℕ → Recv × S) (pending : S → List ℕ) (sock : Ordered recv pending)
    (msg rest : List ℕ) (fits : length msg < 2 ^ 32) where
  read_loop-body :
      (fuel : ℕ) (r : Reader) (has : Bool) (s : S)
      → r.read_header ≡ false
      → read_loop recv (suc fuel) r has s ≡ some (read_body recv r has s)
  unfolding read_loop
  read_loop-body fuel r has s hr = simp (hr, read_loop)

  read_loop-Post :
      (fuel : ℕ) (r : Reader) (has : Bool) (s : S)
      → Reading msg rest r (pending s)
      → (r.read_header ≡ true → 5 ≤ fuel + length r.buffer)
      → (out : ℤ × Reader × S) × (read_loop recv (suc fuel) r has s ≡ some out)
        × Post pending msg rest out
  unfolding read_loop read_body
  read_loop-Post fuel r has s (in_body hr hs hp hl) k = (
    _,
    read_loop-body fuel r has s hr,
    body_result-Post pending msg rest fits r (pending s) has _ _ _ hr hs hp hl
        (ap (λ n. n - length r.buffer) hs) (sock.delivers s _),
  )
  read_loop-Post zero r has s (in_header hr hl hp) k = let enough = k hr in absurd (omega arith)
  read_loop-Post (suc fuel) r has s (in_header hr hl hp) k =
      let enough = k hr in
      rw (hr, read_loop)
        (header_result-Post pending msg rest fits (λ r' t. read_loop recv (suc fuel) r' true t) r
          (pending s) has _ _ _
          (λ r' longer now.
            read_loop-Post fuel r' true _ now (λ h. let more = longer h in omega arith))
          hr hp refl hl (sock.delivers s _))

  pub read-Post :
      (r : Reader) (s : S)
      → Reading msg rest r (pending s)
      → (out : ℤ × Reader × S) × (read recv r s ≡ some out) × Post pending msg rest out
  unfolding read
  read-Post r s now = read_loop-Post 5 r false s now (λ h. omega arith)
