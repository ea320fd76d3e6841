-- ===== src/Rapid/Framing.antt =====
-- ProtocolReadRapid::Read over a descriptor that delivers the writer's bytes in pieces of any
-- size: what the reader holds between two calls, and what it holds when a call returns 0.
use magneto.Base.{
  ℕ, zero, suc, ◌+◌, ◌-◌, ◌^◌, ◌≤◌, ◌<◌, ◌≡◌, ◌∙◌, refl, ap, inl, inr, List, [], ◌∷◌, ◌++◌, length,
  length-append, append_cut, arith, append_assoc, Bool, true, false, Bool-cases, Option, some, ℤ,
  pos, ◌==◌, ==_iff,
}
use magneto.Socket.{Recv, got, nothing, failed, Delivers, Ordered, to_int32-zero}
use magneto.Rapid.{
  Reader, header_result, append, end_or, body_result, size, read_body, read_loop, read,
  finish_header, store32, load32, ntohl,
}
use magneto.Rapid.Bytes.{wire_header, host_header, store32-wire, load32-host}

-- A reader on the way through one message, with `p` the bytes that are still to come.
pub data Reading (msg rest : List ℕ) (r : Reader) (p : List ℕ) : Type 0 where
  in_header :
      r.read_header ≡ true
      → length r.buffer < 8
      → r.buffer ++ p ≡ wire_header (length msg) ++ (msg ++ rest)
      → Reading msg rest r p
  in_body :
      (part : List ℕ)
      → r.read_header ≡ false
      → r.buffer ≡ host_header (length msg) ++ part
      → part ++ p ≡ msg ++ rest
      → length part ≤ length msg
      → Reading msg rest r p

-- The message is there and nothing after it was taken.
pub record Complete (msg rest : List ℕ) (r : Reader) (p : List ℕ) : Type 0 where
  pub buffered : r.buffer ≡ host_header (length msg) ++ msg
  pub untouched : p ≡ rest

abbrev pub Post : {S : Type 0} → (S → List ℕ) → List ℕ → List ℕ → ℤ × Reader × S → Type 0
Post pending msg rest out =
    Reading msg rest out.1 (pending out.2)
    × (out.0 ≡ pos 0 → Complete msg rest out.1 (pending out.2))

below8 : (n : ℕ) → n ≤ 8 → (n == 8) ≡ false → n < 8
below8 n h e = ground arith

end_or-pos : (has : Bool) (left : ℕ) → 0 < left → left < 2 ^ 32 → ¬ (end_or has left ≡ pos 0)
end_or-pos true left h k z = let e = to_int32-zero left k z in omega arith
end_or-pos false left h k z = cc

module _ {S : Type 0} (pending : S → List ℕ) (msg rest : List ℕ) (fits : length msg < 2 ^ 32) where
  completes :
      (r : Reader) (part p : List ℕ)
      → r.buffer ≡ host_header (length msg) ++ part
      → part ++ p ≡ msg ++ rest
      → length part ≡ length msg
      → Complete msg rest r p
  completes r part p hb hp hl =
      let (same, after) = append_cut part msg p rest hp hl in
      record { buffered = hb ∙ ap (◌++◌ (host_header (length msg))) same; untouched = after }

  longer :
      (buf part : List ℕ) (b : ℕ) (bs : List ℕ)
      → buf ≡ host_header (length msg) ++ part
      → buf ++ b ∷ bs ≡ host_header (length msg) ++ (part ++ b ∷ bs)
  longer buf part b bs e = rw e

  end_or-zero :
      (has : Bool) (left : ℕ) (part : List ℕ)
      → left ≡ length msg - length part
      → length part ≤ length msg
      → end_or has left ≡ pos 0
      → length part ≡ length msg
  end_or-zero true left part e h z = let l = to_int32-zero left (omega arith) z in omega arith
  end_or-zero false left part e h z = cc

  body_result-Post :
      (r : Reader) (p part : List ℕ) (has : Bool) (left : ℕ) (a : Recv) (s : S)
      → r.read_header ≡ false
      → r.buffer ≡ host_header (length msg) ++ part
      → part ++ p ≡ msg ++ rest
      → length part ≤ length msg
      → left ≡ length msg - length part
      → Delivers p left a (pending s)
      → Post pending msg rest (body_result r has left a s)
  body_result-Post r p part has left (got b bs) s hr hb hp hl e (d, k) =
      let cut : (part ++ b ∷ bs) ++ pending s ≡ msg ++ rest =
        append_assoc part (b ∷ bs) (pending s) ∙ (rw (← d) hp) in
      let l = length-append part (b ∷ bs) in
      let held = longer r.buffer part b bs hb in
      (
        in_body (part ++ (b ∷ bs)) hr held cut (omega arith),
        λ z.
            let zero_left = to_int32-zero (left - suc (length bs)) (omega arith) z in
            completes (append r b bs) (part ++ (b ∷ bs)) (pending s) held cut (omega arith),
      )
  body_result-Post r p part has left nothing s hr hb hp hl e d =
      let cut : part ++ pending s ≡ msg ++ rest = rw (← d) hp in
      (
        in_body part hr hb cut hl,
        λ z. completes r part (pending s) hb cut (end_or-zero has left part e hl z),
      )
  body_result-Post r p part has left (failed n) s hr hb hp hl e d =
      (in_body part hr hb (rw (← d) hp) hl, λ h. cc)

  finish_header-host :
      (r : Reader) (p : List ℕ)
      → length r.buffer ≡ 8
      → r.buffer ++ p ≡ wire_header (length msg) ++ (msg ++ rest)
      → ((finish_header r).buffer ≡ host_header (length msg)) × (p ≡ msg ++ rest)
  finish_header-host r p hl hp =
      let (same, after) = append_cut r.buffer (wire_header (length msg)) p (msg ++ rest) hp hl in
      (ap (λ b. store32 4 (ntohl (load32 4 b)) b) same ∙ store32-wire (length msg) [], after)

  size-host :
      (r : Reader) (part : List ℕ)
      → r.buffer ≡ host_header (length msg) ++ part
      → 8 + size r - length r.buffer ≡ length msg - length part
  size-host r part hb =
      let sized : size r ≡ length msg = ap (load32 4) hb ∙ load32-host (length msg) part fits in
      let long = ap length hb in omega arith

  header_result-Post :
      (again : Reader → S → Option (ℤ × Reader × S)) (r : Reader) (p : List ℕ) (has : Bool)
      (left : ℕ) (a : Recv) (s : S)
      → ((r' : Reader)
          → length r.buffer < length r'.buffer
          → Reading msg rest r' (pending s)
          → (out : ℤ × Reader × S) × (again r' s ≡ some out) × Post pending msg rest out)
      → r.read_header ≡ true
      → r.buffer ++ p ≡ wire_header (length msg) ++ (msg ++ rest)
      → left ≡ 8 - length r.buffer
      → length r.buffer < 8
      → Delivers p left a (pending s)
      → (out : ℤ × Reader × S) × (header_result again r has left a s ≡ some out)
        × Post pending msg rest out
  header_result-Post again r p has left (got b bs) s ih hr hp e hl (d, k) =
      let cut : (r.buffer ++ b ∷ bs) ++ pending s ≡ wire_header (length msg) ++ (msg ++ rest) =
        append_assoc r.buffer (b ∷ bs) (pending s) ∙ (rw (← d) hp) in
      let l = length-append r.buffer (b ∷ bs) in
      elim (Bool-cases (length (r.buffer ++ b ∷ bs) == 8)) [
        | inl full ↦
            let e8 = (==_iff _ 8).0 full in
            let (host, after) = finish_header-host (append r b bs) (pending s) e8 cut in
            let (out, run, post) =
              ih (finish_header (append r b bs)) (omega (arith, ap length host))
                (in_body [] refl host after (omega arith)) in
            (out, rw full (run), post)
        | inr short ↦
            let (out, run, post) =
              ih (append r b bs) (omega arith) (in_header hr (below8 _ (omega arith) short) cut) in
            (out, rw short (run), post)
      ]
  header_result-Post again r p has left nothing s ih hr hp e hl d = (
    _,
    refl,
    (
      in_header hr hl (rw (← d) hp),
      λ z. absurd (end_or-pos has left (omega arith) (omega arith) z),
    ),
  )
  header_result-Post again r p has left (failed n) s ih hr hp e hl d =
      (_, refl, (in_header hr hl (rw (← d) hp), λ z. cc))

module _ {S : Type 0} (recv : S → ℕ → Recv × S) (pending : S → List ℕ) (sock : Ordered recv pending)
    (msg rest : List ℕ) (fits : length msg < 2 ^ 32) where
  read_loop-body :
      (fuel : ℕ) (r : Reader) (has : Bool) (s : S)
      → r.read_header ≡ false
      → read_loop recv (suc fuel) r has s ≡ some (read_body recv r has s)
  unfolding read_loop
  read_loop-body fuel r has s hr = simp (hr, read_loop)

  read_loop-Post :
      (fuel : ℕ) (r : Reader) (has : Bool) (s : S)
      → Reading msg rest r (pending s)
      → 10 ≤ suc fuel + length r.buffer
      → (out : ℤ × Reader × S) × (read_loop recv (suc fuel) r has s ≡ some out)
        × Post pending msg rest out
  unfolding read_loop read_body
  read_loop-Post fuel r has s (in_body part hr hb hp hl) k = (
    _,
    read_loop-body fuel r has s hr,
    body_result-Post pending msg rest fits r (pending s) part has _ _ _ hr hb hp hl
        (size-host pending msg rest fits r part hb) (sock.delivers s _),
  )
  read_loop-Post zero r has s (in_header hr hl hp) k = absurd (omega arith)
  read_loop-Post (suc fuel) r has s (in_header hr hl hp) k =
      rw (hr, read_loop)
        (header_result-Post pending msg rest fits (λ r' t. read_loop recv (suc fuel) r' true t) r
          (pending s) has _ _ _ (λ r' longer now. read_loop-Post fuel r' true _ now (omega arith))
          hr hp refl hl (sock.delivers s _))

  pub read-Post :
      (r : Reader) (s : S)
      → Reading msg rest r (pending s)
      → (out : ℤ × Reader × S) × (read recv r s ≡ some out) × Post pending msg rest out
  unfolding read
  read-Post r s now = read_loop-Post 9 r false s now (omega arith)
