-- ===== src/Tests/Thrift.antt =====
-- The thrift codec with a library that writes the length of the name, the name, the kind of message
-- and the sequence id, over a descriptor that hands out at most one byte at a time.
use magneto.Base.{
  take-append, drop-append, ◌⊎◌, false, ℕ, ◌+◌, ◌-◌, ◌≡◌, refl, List, [], ◌∷◌, ◌++◌, arith, Option,
  none, some, ℤ, pos, negsuc, eqb_ℤ, length, take, drop, ◌==◌, if◌then◌else◌, subst, some_inj,
  append_assoc, ap, ◌∙◌, length-append,
}
use magneto.Socket.{start, again}
use magneto.Thrift.{
  Binary, MessageType, t_call, t_reply, t_exception, t_oneway, request, Message, encode, Reader,
  reset, read, decode,
}
use magneto.Thrift.Transfer.{Inverse, Answered, transfer_message}
use magneto.Rapid.Transfer.{concat}
use magneto.Tests.Rapid.{trickle, trickle-Ordered}

abbrev tag : MessageType → ℕ
tag t_call = 1
tag t_reply = 2
tag t_exception = 3
tag t_oneway = 4

abbrev untag : ℕ → Option MessageType
untag n =
    if n == 1
    then some t_call
    else if n == 2
    then some t_reply
    else if n == 3
    then some t_exception
    else if n == 4
    then some t_oneway
    else none

abbrev write_simple : List ℕ → MessageType → ℤ → Option (List ℕ)
write_simple fn mtype (pos n) = some (length fn ∷ fn ++ tag mtype ∷ n ∷ [])
write_simple fn mtype (negsuc n) = none

abbrev read_tail : List ℕ → ℕ → List ℕ → Option (List ℕ × MessageType × ℤ × ℕ)
read_tail fn size (t ∷ n ∷ after) = elim (untag t) [
  | none ↦ none
  | some mtype ↦ some (fn, mtype, pos n, size)
]
read_tail fn size _ = none

abbrev read_simple : List ℕ → Option (List ℕ × MessageType × ℤ × ℕ)
read_simple [] = none
read_simple (k ∷ bs) = read_tail (take k bs) (3 + k) (drop k bs)

abbrev simple : Binary
simple = record { write_message = write_simple; read_message = read_simple }

read_tail-tag :
    (fn : List ℕ) (mtype : MessageType) (n size : ℕ) (after : List ℕ)
    → read_tail fn size (tag mtype ∷ n ∷ after) ≡ some (fn, mtype, pos n, size)
read_tail-tag fn t_call n size after = refl
read_tail-tag fn t_reply n size after = refl
read_tail-tag fn t_exception n size after = refl
read_tail-tag fn t_oneway n size after = refl

-- The name is cut off again, and what is behind it read.
read_simple-write :
    (fn : List ℕ) (mtype : MessageType) (n : ℕ) (after : List ℕ)
    → read_simple ((length fn ∷ fn ++ tag mtype ∷ n ∷ []) ++ after)
      ≡ some (fn, mtype, pos n, 3 + length fn)
read_simple-write fn mtype n after =
    let rest = tag mtype ∷ n ∷ after in
    ap (λ bs. read_simple (length fn ∷ bs)) (append_assoc fn (tag mtype ∷ n ∷ []) after)
    ∙ ap (λ b. read_tail b (3 + length fn) (drop (length fn) (fn ++ rest))) (take-append fn rest)
    ∙ ap (read_tail fn (3 + length fn)) (drop-append fn rest)
    ∙ read_tail-tag fn mtype n (3 + length fn) after

simple-Inverse : Inverse simple
simple-Inverse = record { reads = by_cases }
  where
    by_cases :
        (fn : List ℕ) (mtype : MessageType) (seqid : ℤ) (proto after : List ℕ)
        → write_simple fn mtype seqid ≡ some proto
        → read_simple (proto ++ after) ≡ some (fn, mtype, seqid, length proto)
    by_cases fn mtype (pos n) proto after e =
        let proto_is = some_inj e in
        let long : length (length fn ∷ fn ++ tag mtype ∷ n ∷ []) ≡ 3 + length fn =
          omega (arith, length-append fn (tag mtype ∷ n ∷ [])) in
        subst (λ bs. read_simple (bs ++ after) ≡ some (fn, mtype, pos n, length bs)) proto_is
          (rw long (read_simple-write fn mtype n after))
    by_cases fn mtype (negsuc n) proto after e = absurd (ground arith)

abbrev ping : Message
ping = record {
  fn = 112 ∷ 105 ∷ 110 ∷ 103 ∷ [];
  dir = request;
  seqid = pos 5;
  body = 1 ∷ 2 ∷ 3 ∷ [];
}

abbrev vectors : List (List ℕ)
vectors = (0 ∷ 0 ∷ 0 ∷ 10 ∷ []) ∷ (4 ∷ 112 ∷ 105 ∷ 110 ∷ 103 ∷ 1 ∷ 5 ∷ []) ∷ (1 ∷ 2 ∷ 3 ∷ []) ∷ []

laid_out : encode simple ping ≡ some vectors
unfolding encode
laid_out = refl

abbrev fresh : Reader
fresh = record {
  buffer = [];
  read_header = false;
  size_body = 0;
  body = [];
  fn = [];
  dir = request;
  seqid = pos 0;
}

abbrev wire : List ℕ
wire = concat vectors ++ (7 ∷ [])

-- The first call reads the header and one byte of the body.
abbrev first : ℤ × Reader × List ℕ
first = (
  pos 9,
  record fresh { buffer = 4 ∷ []; size_body = 10 },
  112 ∷ 105 ∷ 110 ∷ 103 ∷ 1 ∷ 5 ∷ 1 ∷ 2 ∷ 3 ∷ 7 ∷ [],
)

first_read : read trickle (reset fresh) wire ≡ some first
unfolding read reset
first_read = refl

transfer_message_example :
    (out : ℤ × Reader × List ℕ) × (read trickle first.1 first.2 ≡ some out)
    × ((eqb_ℤ out.0 (pos 0) ≡ false)
        ⊎ ((out.0 ≡ pos 0)
            × (out.2 ≡ 7 ∷ [])
            × Answered (length (concat vectors) - 4) ping (decode simple out.1)))
transfer_message_example =
    transfer_message simple simple-Inverse trickle (λ s. s) trickle-Ordered ping vectors (7 ∷ [])
      fresh wire first.1 first.2 laid_out (omega arith) refl (again first start first_read)
