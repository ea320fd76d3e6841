-- ===== src/Thrift.antt =====
-- src/protocols/thrift/protocol_thrift.h and src/protocols/thrift/details/protocol_thrift.cpp: thrift
-- messages behind a size of four bytes, in a build with MAGNETO_THRIFT_SUPPORT. What TBinaryProtocol
-- of the thrift library makes of the beginning of a message is given by `Binary`.
pub mod Framing
pub mod Transfer
use magneto.Base.{
  ℕ, zero, suc, ◌+◌, ◌-◌, ◌%◌, ◌^◌, List, [], ◌∷◌, ◌++◌, length, drop, ltb, ◌==◌, ◌||◌, Bool, true,
  false, if◌then◌else◌, Option, none, some, ℤ, pos, negsuc,
}
use magneto.Socket.{Recv, got, nothing, failed, to_int32, k_end}
use magneto.Rapid.{byte, load32, ntohl, end_or}

-- TMessageType.
pub data MessageType : Type 0 where
  t_call t_reply t_exception t_oneway : MessageType

-- writeMessageBegin with the calls behind it, as the bytes in the memory buffer, and readMessageBegin,
-- with the number of bytes that it has read; `none` is a TException.
pub record Binary : Type 0 where
  pub write_message : List ℕ → MessageType → ℤ → Option (List ℕ)
  pub read_message : List ℕ → Option (List ℕ × MessageType × ℤ × ℕ)

-- Direction; the field is an enum, which can hold another number.
pub data Direction : Type 0 where
  request reply oneway invalid_dir : Direction

-- ProtocolWriteThrift::Params, and the struct.
pub record Message : Type 0 where
  pub fn : List ℕ
  pub dir : Direction
  pub seqid : ℤ
  pub body : List ℕ

abbrev pub type_of : Direction → Option MessageType
type_of request = some t_call
type_of reply = some t_reply
type_of oneway = some t_oneway
type_of invalid_dir = none

-- A `uint32_t` as it stands in the memory of a little-endian host.
abbrev pub bytes_of : ℕ → List ℕ
bytes_of v = byte 0 v ∷ byte 1 v ∷ byte 2 v ∷ byte 3 v ∷ []

-- ProtocolWriteThrift::Encode: the three iovecs.
unfoldable pub encode : Binary → Message → Option (List (List ℕ))
encode bin m = elim (type_of m.dir) [
  | none ↦ none
  | some mtype ↦ elim (bin.write_message m.fn mtype m.seqid) [
    | none ↦ none
    | some proto ↦
        some (bytes_of (ntohl ((length proto + length m.body) % 2 ^ 32)) ∷ proto ∷ m.body ∷ [])
  ]
]

-- ProtocolWriteThrift::Write, after `WriteVecNonBlock` has returned and left these iovecs.
unfoldable pub write_result : ℤ → List (List ℕ) → ℤ
write_result (pos zero) iovs = k_end
write_result (negsuc e) iovs = negsuc e
write_result (pos (suc n)) [] = pos 0
write_result (pos (suc n)) (u ∷ []) = to_int32 (length u)
write_result (pos (suc n)) (u ∷ v ∷ []) = to_int32 (length u + length v)
write_result (pos (suc n)) (u ∷ v ∷ w ∷ rest) = to_int32 (length u + length v + length w)

-- ProtocolReadThrift.
pub record Reader : Type 0 where
  pub buffer : List ℕ
  pub read_header : Bool
  pub size_body : ℕ
  pub body : List ℕ
  pub fn : List ℕ
  pub dir : Direction
  pub seqid : ℤ

unfoldable pub reset : Reader → Reader
reset r = record r { buffer = []; read_header = true }

abbrev pub append : Reader → ℕ → List ℕ → Reader
append r b bs = record r { buffer = r.buffer ++ (b ∷ bs) }

abbrev pub header_size : ℕ
header_size = 4

-- The header is complete: the size is kept, and the buffer is cleared for the body.
abbrev pub finish_header : Reader → Reader
finish_header r = record r {
  buffer = [];
  read_header = false;
  size_body = ntohl (load32 0 r.buffer);
}

-- What Read returns after the one `ReadNonBlock` of the body.
abbrev pub body_result : {S : Type 0} → Reader → Bool → ℕ → Recv → S → ℤ × Reader × S
body_result r has left (got b bs) s = (to_int32 (left - suc (length bs)), append r b bs, s)
body_result r has left nothing s = (end_or has left, r, s)
body_result r has left (failed e) s = (negsuc e, r, s)

-- The same in the header, where bytes lead to another round.
abbrev pub header_result :
    {S : Type 0}
    → (Reader → S → Option (ℤ × Reader × S))
    → Reader
    → Bool
    → ℕ
    → Recv
    → S
    → Option (ℤ × Reader × S)
header_result again r has left (got b bs) s =
    let r' = append r b bs in
    again (if length r'.buffer == header_size then finish_header r' else r') s
header_result again r has left nothing s = some (end_or has left, r, s)
header_result again r has left (failed e) s = some (negsuc e, r, s)

module _ {S : Type 0} (recv : S → ℕ → Recv × S) where
  unfoldable pub read_body : Reader → Bool → S → ℤ × Reader × S
  read_body r has s =
      let left = r.size_body - length r.buffer in
      let (answer, s') = recv s left in body_result r has left answer s'

  -- The loop of Read: each round in the header adds a byte at least, so six rounds do.
  unfoldable pub read_loop : ℕ → Reader → Bool → S → Option (ℤ × Reader × S)
  read_loop zero r has s = none
  read_loop (suc fuel) r has s = elim r.read_header [
    | false ↦ some (read_body r has s)
    | true ↦
        let left = header_size - length r.buffer in
        let (answer, s') = recv s left in
        header_result (λ r' t. read_loop fuel r' true t) r has left answer s'
  ]

  unfoldable pub read : Reader → S → Option (ℤ × Reader × S)
  unfolding read_loop read_body
  read r s = read_loop 6 r false s

abbrev pub k_min_size_buf : ℕ
k_min_size_buf = 9

abbrev pub k_max_size_buf : ℕ
k_max_size_buf = 8388608

abbrev pub direction_of : MessageType → Option Direction
direction_of t_call = some request
direction_of t_reply = some reply
direction_of t_oneway = some oneway
direction_of t_exception = none

-- ProtocolReadThrift::Decode. What an exception of the library leaves in `fn_` and `seqid_` is not
-- said; they stay here.
unfoldable pub decode : Binary → Reader → Bool × Reader
decode bin r =
    if ltb (length r.buffer) k_min_size_buf || ltb k_max_size_buf (length r.buffer)
    then (false, r)
    else elim (bin.read_message r.buffer) [
      | none ↦ (false, r)
      | some (fn, mtype, seqid, size_func) ↦ elim (direction_of mtype) [
        | none ↦ (false, record r { fn = fn; seqid = seqid })
        | some dir ↦
            (true, record r { fn = fn; seqid = seqid; dir = dir; body = drop size_func r.buffer })
      ]
    ]
