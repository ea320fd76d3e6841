-- ===== src/Redis/Codec.antt =====
-- src/protocols/redis/protocol_redis.h and src/protocols/redis/details/protocol_redis.cpp: the
-- codec objects around the parser, over a non-blocking descriptor.
use magneto.Base.{
  ℕ, zero, suc, ◌+◌, ◌-◌, ◌<◌, ◌≡◌, ◌∙◌, refl, sym, ap, subst, ltb, ◌==◌, Bool, true, false,
  if◌then◌else◌, Bool-cases, inl, inr, List, [], ◌∷◌, ◌++◌, append_assoc, length, length-append,
  drop, Option, none, some, ℤ, pos, negsuc, arith, Lacks,
}
use magneto.Socket.{Recv, got, nothing, failed, Ordered, Delivers, to_int32, k_end}
use magneto.Redis.{parse_cmd}
use magneto.Redis.Reply.{Strtol, parse_reply}

-- A buffer of bytes as the string that a `const char*` to it is: up to the first 0.
unfoldable pub c_string : List ℕ → List ℕ
c_string [] = []
c_string (c ∷ s) = if c == 0 then [] else c ∷ c_string s

pub record ProtocolReadRedis : Type 0 where
  pub reply : List ℕ
  pub out : List ℕ

pub record ProtocolWriteRedis : Type 0 where
  pub input : List ℕ
  pub out : List ℕ
  pub out_pos : ℕ

-- The two functions Reset.
abbrev pub reset_read : ProtocolReadRedis
reset_read = record { reply = []; out = [] }

abbrev pub reset_write : List ℕ → ProtocolWriteRedis → ProtocolWriteRedis
reset_write buf w = record w { input = c_string buf; out_pos = 0 }

-- Encode; what ParseCmd refuses leaves the old output.
unfoldable pub encode : ProtocolWriteRedis → Option (Bool × ProtocolWriteRedis)
unfolding parse_cmd
encode w = elim (parse_cmd w.input) [
  | none ↦ none
  | some none ↦ some (false, w)
  | some (some out) ↦ some (true, record w { out = out })
]

-- What Write hands to WriteNonBlock, and what it makes of the answer.
abbrev pub unwritten : ProtocolWriteRedis → List ℕ
unwritten w = drop w.out_pos w.out

unfoldable pub write : ℤ → ProtocolWriteRedis → ℤ × ProtocolWriteRedis
write (pos zero) w = (k_end, w)
write (pos (suc n)) w =
    (to_int32 (length w.out - (w.out_pos + suc n)), record w { out_pos = w.out_pos + suc n })
write (negsuc n) w = (negsuc n, w)

abbrev pub k_tmp_buf_size : ℕ
k_tmp_buf_size = 100

module _ {S : Type 0} (recv : S → ℕ → Recv × S) where
  -- The loop of Read, on fuel: whether the reads went well, and the reply so far.
  unfoldable pub read_loop : ℕ → S → List ℕ → Option (Bool × List ℕ × S)
  unfolding c_string
  read_loop zero s reply = none
  read_loop (suc fuel) s reply =
      let (answer, s') = recv s k_tmp_buf_size in
      elim answer [
        | got b bs ↦
            let reply' = reply ++ c_string (b ∷ bs) in
            let more = read_loop fuel s' reply' in
            if ltb (length (b ∷ bs)) k_tmp_buf_size then some (true, reply', s') else more
        | nothing ↦ some (true, reply, s')
        | failed e ↦ some (false, reply, s')
      ]

  -- Read.
  unfoldable pub read : Strtol → ℕ → S → ProtocolReadRedis → Option (ℤ × ProtocolReadRedis × S)
  unfolding read_loop parse_reply
  read strtol fuel s r = elim (read_loop fuel s r.reply) [
    | none ↦ none
    | some (false, reply, s') ↦ some (negsuc 0, record r { reply = reply }, s')
    | some (true, reply, s') ↦
        let parsed = parse_reply strtol reply r.out in
        some (parsed.ret, record { reply = reply; out = parsed.out }, s')
  ]

  c_string-Lacks : (s : List ℕ) → Lacks 0 s → c_string s ≡ s
  unfolding c_string
  c_string-Lacks [] h = refl
  c_string-Lacks (c ∷ s) (h, hs) = rw (h, c_string-Lacks s hs) refl

  Lacks-split : (c : ℕ) (s t : List ℕ) → Lacks c (s ++ t) → Lacks c s × Lacks c t
  Lacks-split c [] t h = (tt, h)
  Lacks-split c (x ∷ s) t (h, hs) = let (l, r) = Lacks-split c s t hs in ((h, l), r)

  abbrev pub Delivered : (S → List ℕ) → ℕ → S → List ℕ → Type 0
  Delivered pending fuel s reply =
      (ok : Bool) × (reply' : List ℕ) × (s' : S) × (read_loop fuel s reply ≡ some (ok, reply', s'))
      × (reply' ++ pending s' ≡ reply ++ pending s)

  -- One round of the loop, by what came.
  read_loop-round :
      (pending : S → List ℕ) (fuel : ℕ) (s : S) (reply : List ℕ) (answer : Recv)
      → (recv s k_tmp_buf_size).0 ≡ answer
      → Delivers (pending s) k_tmp_buf_size answer (pending (recv s k_tmp_buf_size).1)
      → Lacks 0 (pending s)
      → length (pending s) < suc fuel
      → ((s1 : S) (reply1 : List ℕ)
          → Lacks 0 (pending s1)
          → length (pending s1) < fuel
          → Delivered pending fuel s1 reply1)
      → Delivered pending (suc fuel) s reply
  unfolding read_loop
  read_loop-round pending fuel s reply nothing e none_came clean small later = (
    true,
    reply,
    (recv s k_tmp_buf_size).1,
    rw (e, read_loop) refl,
    ap (λ t. reply ++ t) (sym none_came),
  )
  read_loop-round pending fuel s reply (failed k) e none_came clean small later = (
    false,
    reply,
    (recv s k_tmp_buf_size).1,
    rw (e, read_loop) refl,
    ap (λ t. reply ++ t) (sym none_came),
  )
  read_loop-round pending fuel s reply (got b bs) e (came, few) clean small later =
      let s1 = (recv s k_tmp_buf_size).1 in
      let (clean1, clean2) = Lacks-split 0 (b ∷ bs) (pending s1) (subst (Lacks 0) came clean) in
      let whole = c_string-Lacks (b ∷ bs) clean1 in
      let reply1 = reply ++ c_string (b ∷ bs) in
      let moved : reply1 ++ pending s1 ≡ reply ++ pending s =
        ap (λ t. (reply ++ t) ++ pending s1) whole
        ∙ append_assoc reply (b ∷ bs) (pending s1)
        ∙ ap (λ t. reply ++ t) (sym came) in
      elim (Bool-cases (ltb (length (b ∷ bs)) k_tmp_buf_size)) [
        | inl last ↦ (true, reply1, s1, rw (e, read_loop) (rw last refl), moved)
        | inr full ↦
            let fewer : length (pending s1) < fuel =
              omega (arith, ap length came, length-append (b ∷ bs) (pending s1)) in
            let (ok, reply', s', run, all) = later s1 reply1 clean2 fewer in
            (ok, reply', s', rw (e, read_loop) (rw full run), all ∙ moved)
      ]

  -- Over a descriptor that delivers bytes in order, when those to come hold no 0, the loop of Read
  -- comes to an end, with more fuel than there are bytes to come, and what it has appended to the
  -- reply is just what it took from the descriptor, in the same order.
  pub read_loop-delivers :
      (pending : S → List ℕ) (fuel : ℕ) (s : S) (reply : List ℕ)
      → Ordered recv pending
      → Lacks 0 (pending s)
      → length (pending s) < fuel
      → Delivered pending fuel s reply
  read_loop-delivers pending zero s reply o clean small = absurd (omega arith)
  read_loop-delivers pending (suc fuel) s reply o clean small =
      read_loop-round pending fuel s reply (recv s k_tmp_buf_size).0 refl
        (o.delivers s k_tmp_buf_size) clean small
        (λ s1 reply1 clean1 fewer. read_loop-delivers pending fuel s1 reply1 o clean1 fewer)
