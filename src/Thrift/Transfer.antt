-- ===== src/Thrift/Transfer.antt =====
-- A whole transfer of the thrift codec: the writer's iovecs on one side, repeated calls of
-- `ProtocolReadThrift::Read` and the final `Decode` on the other.
use magneto.Base.{
  drop-append, ℕ, ◌+◌, ◌-◌, ◌%◌, ◌^◌, ◌≤◌, ◌<◌, ◌≡◌, ◌∙◌, ◌⊎◌, refl, sym, ap, inl, inr, subst, List,
  [], ◌∷◌, ◌++◌, length, length-append, drop, arith, append-nil, Bool, true, false, Bool-cases,
  some, some_inj, Option-cases, ltb, ℤ, pos, eqb_ℤ,
}
use magneto.Socket.{Recv, Ordered, Called, Called-keeps}
use magneto.Rapid.{ntohl}
use magneto.Rapid.Transfer.{concat}
use magneto.Thrift.{
  Binary, MessageType, Direction, request, reply, oneway, invalid_dir, Message, type_of,
  direction_of, bytes_of, encode, Reader, reset, read, decode, k_min_size_buf, k_max_size_buf,
}
use magneto.Thrift.Framing.{Reading, in_header, Post, read-Post}

-- What the library has written it reads again, with the number of bytes, whatever follows.
pub record Inverse (bin : Binary) : Type 0 where
  pub reads :
      (fn : List ℕ) (mtype : MessageType) (seqid : ℤ) (proto after : List ℕ)
      → bin.write_message fn mtype seqid ≡ some proto
      → bin.read_message (proto ++ after) ≡ some (fn, mtype, seqid, length proto)

-- `Decode` has accepted exactly this message.
pub record Decoded (m : Message) (d : Bool × Reader) : Type 0 where
  pub accepted : d.0 ≡ true
  pub same_fn : d.1.fn ≡ m.fn
  pub same_dir : d.1.dir ≡ m.dir
  pub same_seqid : d.1.seqid ≡ m.seqid
  pub same_body : d.1.body ≡ m.body

-- The size that the header carries is one that `Decode` takes.
abbrev pub Accepted : ℕ → Type 0
Accepted n = (k_min_size_buf ≤ n) × (n ≤ k_max_size_buf)

-- What `Decode` makes of a payload of `n` bytes.
abbrev pub Answered : ℕ → Message → Bool × Reader → Type 0
Answered n m d = (Accepted n × Decoded m d) ⊎ (¬ Accepted n × (d.0 ≡ false))

direction_of-type_of :
    (dir : Direction) (mtype : MessageType)
    → type_of dir ≡ some mtype
    → direction_of mtype ≡ some dir
direction_of-type_of request mtype e = subst (λ t. direction_of t ≡ some request) (some_inj e) refl
direction_of-type_of reply mtype e = subst (λ t. direction_of t ≡ some reply) (some_inj e) refl
direction_of-type_of oneway mtype e = subst (λ t. direction_of t ≡ some oneway) (some_inj e) refl
direction_of-type_of invalid_dir mtype e = absurd (ground arith)

-- What `Encode` has laid out, when it returns true.
record LaidOut (bin : Binary) (m : Message) (iovs : List (List ℕ)) : Type 0 where
  pub mtype : MessageType
  pub proto : List ℕ
  pub typed : type_of m.dir ≡ some mtype
  pub wrote : bin.write_message m.fn mtype m.seqid ≡ some proto
  pub vectors :
      iovs ≡ bytes_of (ntohl ((length proto + length m.body) % 2 ^ 32)) ∷ proto ∷ m.body ∷ []

encode-LaidOut :
    (bin : Binary) (m : Message) (iovs : List (List ℕ))
    → encode bin m ≡ some iovs
    → LaidOut bin m iovs
unfolding encode
encode-LaidOut bin m iovs e = elim (Option-cases (type_of m.dir)) [
  | inl missing ↦ absurd (ground (arith, missing))
  | inr (mtype, typed) ↦ elim (Option-cases (bin.write_message m.fn mtype m.seqid)) [
    | inl missing ↦ absurd (ground (arith, missing, typed))
    | inr (proto, wrote) ↦
        let laid : encode bin m
            ≡ some
                (bytes_of (ntohl ((length proto + length m.body) % 2 ^ 32)) ∷ proto ∷ m.body ∷ []) =
          simp (typed, wrote, encode) in
        record {
          mtype = mtype;
          proto = proto;
          typed = typed;
          wrote = wrote;
          vectors = some_inj (sym e ∙ laid);
        }
  ]
]

-- The one message that the header announces.
abbrev payload : {bin : Binary} {m : Message} {iovs : List (List ℕ)} → LaidOut bin m iovs → List ℕ
payload {m} l = l.proto ++ m.body

-- The bytes that go out: the size of the payload, and the payload.
concat-wire :
    {bin : Binary} {m : Message} {iovs : List (List ℕ)} (l : LaidOut bin m iovs)
    → length (payload l) < 2 ^ 32
    → concat iovs ≡ bytes_of (ntohl (length (payload l))) ++ payload l
concat-wire {m} l fits =
    let small : (length l.proto + length m.body) % 2 ^ 32 ≡ length (payload l) =
      omega (arith, length-append l.proto m.body) in
    rw (l.vectors, small, append-nil m.body) refl

length-concat :
    {bin : Binary} {m : Message} {iovs : List (List ℕ)} (l : LaidOut bin m iovs)
    → length (concat iovs) ≡ 4 + length (payload l)
length-concat {m} l =
    let whole = ap (λ vs. length (concat vs)) l.vectors in
    let tail = ap (λ b. length (l.proto ++ b)) (append-nil m.body) in omega arith

reset-Reading :
    {bin : Binary} {m : Message} {iovs : List (List ℕ)} (l : LaidOut bin m iovs) (r : Reader)
    (rest : List ℕ)
    → length (payload l) < 2 ^ 32
    → Reading (payload l) rest (reset r) (concat iovs ++ rest)
unfolding reset
reset-Reading l r rest fits = in_header refl (omega arith) (rw (concat-wire l fits) refl)

decode-Decoded :
    {bin : Binary} {m : Message} {iovs : List (List ℕ)} (inv : Inverse bin) (l : LaidOut bin m iovs)
    (r : Reader)
    → r.buffer ≡ payload l
    → Answered (length (payload l)) m (decode bin r)
unfolding decode
decode-Decoded {bin} {m} inv l r held =
    let reads = inv.reads m.fn l.mtype m.seqid l.proto m.body l.wrote in
    let there : bin.read_message r.buffer ≡ some (m.fn, l.mtype, m.seqid, length l.proto) =
      rw held reads in
    let left : drop (length l.proto) r.buffer ≡ m.body =
      ap (drop (length l.proto)) held ∙ drop-append l.proto m.body in
    let dir = direction_of-type_of m.dir l.mtype l.typed in
    let size = ap length held in
    elim (Bool-cases (ltb (length r.buffer) k_min_size_buf)) [
      | inl small ↦ inr (λ a. ground (arith, a.0), rw small refl)
      | inr some_bytes ↦ elim (Bool-cases (ltb k_max_size_buf (length r.buffer))) [
        | inl big ↦ inr (λ a. ground (arith, a.1), rw (some_bytes, big) refl)
        | inr fits ↦
            let result : decode bin r
                ≡ (true, record r { fn = m.fn; seqid = m.seqid; dir = m.dir; body = m.body }) =
              rw (some_bytes, fits, there, dir, left) refl in
            inl (
              (ground arith, ground arith),
              subst (Decoded m) (sym result) (record {
                accepted = refl;
                same_fn = refl;
                same_dir = refl;
                same_seqid = refl;
                same_body = refl;
              }),
            )
      ]
    ]

module _ {S : Type 0} (recv : S → ℕ → Recv × S) (pending : S → List ℕ) (sock : Ordered recv pending)
    (msg rest : List ℕ) (fits : length msg < 2 ^ 32) where
  read_out :
      (r : Reader) (s : S) (out : ℤ × Reader × S)
      → Reading msg rest r (pending s)
      → read recv r s ≡ some out
      → Post pending msg rest out
  read_out r s out now run =
      let (out', run', post) = read-Post recv pending sock msg rest fits r s now in
      let same : out' ≡ out = cc in subst (Post pending msg rest) same post

  Called-Reading :
      {r : Reader} {s : S} {r' : Reader} {s' : S}
      → Reading msg rest r (pending s)
      → Called (read recv) r s r' s'
      → Reading msg rest r' (pending s')
  Called-Reading =
      Called-keeps (λ r s. Reading msg rest r (pending s))
        (λ r s out now run. (read_out r s out now run).0)

module _ (bin : Binary) (inv : Inverse bin) {S : Type 0} (recv : S → ℕ → Recv × S)
    (pending : S → List ℕ) (sock : Ordered recv pending) where
  -- If the library reads back what it has written, a message that `Encode` has laid out in less than
  -- 2^32 bytes, with anything after it, arrives over a descriptor that delivers bytes in order, in
  -- pieces of any size: after any number of earlier calls on a reader that was `Reset`, `Read`
  -- returns; either it returns something other than 0, or exactly what followed the message is still
  -- to be read, and `Decode` accepts with the function, direction, sequence id and struct of the
  -- message if it has from 9 bytes to 8 MB behind the size, and refuses it if it has not.
  pub transfer_message :
      (m : Message) (iovs : List (List ℕ)) (rest : List ℕ) (r0 : Reader) (s0 : S) (r : Reader)
      (s : S)
      → encode bin m ≡ some iovs
      → length (concat iovs) < 2 ^ 32
      → pending s0 ≡ concat iovs ++ rest
      → Called (read recv) (reset r0) s0 r s
      → (out : ℤ × Reader × S) × (read recv r s ≡ some out)
        × ((eqb_ℤ out.0 (pos 0) ≡ false)
            ⊎ ((out.0 ≡ pos 0)
                × (pending out.2 ≡ rest)
                × Answered (length (concat iovs) - 4) m (decode bin out.1)))
  transfer_message m iovs rest r0 s0 r s laid short sent calls =
      let l = encode-LaidOut bin m iovs laid in
      let whole = length-concat l in
      let sized : length (concat iovs) - 4 ≡ length (payload l) = omega arith in
      let fits : length (payload l) < 2 ^ 32 = omega arith in
      let first : Reading (payload l) rest (reset r0) (pending s0) =
        rw sent (reset-Reading l r0 rest fits) in
      let now = Called-Reading recv pending sock (payload l) rest fits first calls in
      let (out, run, post) = read-Post recv pending sock (payload l) rest fits r s now in
      elim (Bool-cases (eqb_ℤ out.0 (pos 0))) [
        | inr unfinished ↦ (out, run, inl unfinished)
        | inl ended ↦
            let z : out.0 ≡ pos 0 = ground arith in
            let (held, after) = post.1 z in
            (
              out,
              run,
              inr (
                z,
                after,
                subst (λ n. Answered n m (decode bin out.1)) (sym sized)
                    (decode-Decoded inv l out.1 held),
              ),
            )
      ]
