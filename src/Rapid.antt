-- ===== src/Rapid.antt =====
-- src/protocols/rapid/protocol_rapid.h and src/protocols/rapid/details/protocol_rapid.cpp: the
-- length-prefixed codec. The buffer is the list of bytes received, whose first eight are the
-- header struct; `ntohs` and `ntohl` rewrite its fields in place on a little-endian host.
pub mod Bytes
pub mod Framing
pub mod Transfer
use magneto.Base.{
  ℕ, zero, suc, ◌+◌, ◌-◌, ◌*◌, ◌/◌, ◌%◌, ◌^◌, List, [], ◌∷◌, ◌++◌, length, get_or, set, drop, ltb,
  leb, ◌==◌, Bool, true, false, ◌&&◌, if◌then◌else◌, Option, none, some, ℤ, pos, negsuc,
}
use magneto.Socket.{Recv, got, nothing, failed, to_int32, k_end}

abbrev pub magic : ℕ
magic = 58764

abbrev pub max_version : ℕ
max_version = 10

abbrev pub header_size : ℕ
header_size = 8

abbrev pub byte : ℕ → ℕ → ℕ
byte k n = n / 256 ^ k % 256

-- `RapidHeader` in host order, as the fields of the buffer's first bytes.
abbrev pub load16 : ℕ → List ℕ → ℕ
load16 i b = get_or b i 0 + 256 * get_or b (i + 1) 0

abbrev pub load32 : ℕ → List ℕ → ℕ
load32 i b =
    get_or b i 0
    + 256 * get_or b (i + 1) 0
    + 65536 * get_or b (i + 2) 0
    + 16777216 * get_or b (i + 3) 0

abbrev pub store16 : ℕ → ℕ → List ℕ → List ℕ
store16 i v b = set (set b i (byte 0 v)) (i + 1) (byte 1 v)

abbrev pub store32 : ℕ → ℕ → List ℕ → List ℕ
store32 i v b =
    set (set (set (set b i (byte 0 v)) (i + 1) (byte 1 v)) (i + 2) (byte 2 v)) (i + 3) (byte 3 v)

abbrev pub ntohs : ℕ → ℕ
ntohs v = byte 1 v + 256 * byte 0 v

abbrev pub ntohl : ℕ → ℕ
ntohl v = byte 3 v + 256 * byte 2 v + 65536 * byte 1 v + 16777216 * byte 0 v

-- ProtocolWriteRapid: the two iovecs, header and body, that `Reset` and `Encode` lay out.
unfoldable pub encode : List ℕ → List (List ℕ)
encode body =
    store32 4 (ntohl (length body % 2 ^ 32)) (store16 2 (ntohs 0) (store16 0 (ntohs magic) blank))
    ∷ body
    ∷ []
  where
    blank : List ℕ
    blank = 0 ∷ 0 ∷ 0 ∷ 0 ∷ 0 ∷ 0 ∷ 0 ∷ 0 ∷ []

-- ProtocolWriteRapid::Write, after `WriteVecNonBlock` has returned and left these iovecs.
unfoldable pub write_result : ℤ → List (List ℕ) → ℤ
write_result (pos zero) iovs = k_end
write_result (negsuc e) iovs = negsuc e
write_result (pos (suc n)) [] = pos 0
write_result (pos (suc n)) (v ∷ []) = to_int32 (length v)
write_result (pos (suc n)) (v ∷ w ∷ rest) = to_int32 (length v + length w)

-- ProtocolReadRapid.
pub record Reader : Type 0 where
  pub buffer : List ℕ
  pub read_header : Bool

unfoldable pub reset : Reader → Reader
reset r = record { buffer = []; read_header = true }

abbrev pub size : Reader → ℕ
size r = load32 4 r.buffer

abbrev pub body : Reader → List ℕ
body r = drop header_size r.buffer

abbrev pub append : Reader → ℕ → List ℕ → Reader
append r b bs = record r { buffer = r.buffer ++ (b ∷ bs) }

-- The header is complete: `read_header_=false; header->size = ntohl(header->size)`.
abbrev pub finish_header : Reader → Reader
finish_header r = record { buffer = store32 4 (ntohl (size r)) r.buffer; read_header = false }

abbrev pub end_or : Bool → ℕ → ℤ
end_or has_bytes_read left = if has_bytes_read then to_int32 left else k_end

-- The outcomes of `Read` once the header is there: it returns after one `ReadNonBlock`.
abbrev pub body_result : {S : Type 0} → Reader → Bool → ℕ → Recv → S → ℤ × Reader × S
body_result r has left (got b bs) s = (to_int32 (left - suc (length bs)), append r b bs, s)
body_result r has left nothing s = (end_or has left, r, s)
body_result r has left (failed e) s = (negsuc e, r, s)

-- The same in the header: bytes lead to another round, which has bytes read.
abbrev pub header_result :
    {S : Type 0}
    → (Reader → S → Option (ℤ × Reader × S))
    → Reader
    → Bool
    → ℕ
    → Recv
    → S
    → Option (ℤ × Reader × S)
header_result again r has left (got b bs) s =
    let r' = append r b bs in
    again (if length r'.buffer == header_size then finish_header r' else r') s
header_result again r has left nothing s = some (end_or has left, r, s)
header_result again r has left (failed e) s = some (negsuc e, r, s)

module _ {S : Type 0} (recv : S → ℕ → Recv × S) where
  unfoldable pub read_body : Reader → Bool → S → ℤ × Reader × S
  read_body r has s =
      let left = header_size + size r - length r.buffer in
      let (answer, s') = recv s left in body_result r has left answer s'

  -- The loop of `ProtocolReadRapid::Read`. Each round in the header adds a byte at least, so ten
  -- rounds do; `none` means that the fuel ran out.
  unfoldable pub read_loop : ℕ → Reader → Bool → S → Option (ℤ × Reader × S)
  read_loop zero r has s = none
  read_loop (suc fuel) r has s = elim r.read_header [
    | false ↦ some (read_body r has s)
    | true ↦
        let left = header_size - length r.buffer in
        let (answer, s') = recv s left in
        header_result (λ r' t. read_loop fuel r' true t) r has left answer s'
  ]

  unfoldable pub read : Reader → S → Option (ℤ × Reader × S)
  unfolding read_loop read_body
  read r s = read_loop 10 r false s

-- ProtocolReadRapid::Decode: `magic` and `version` go to host order, then both are checked.
unfoldable pub decode : Reader → Bool × Reader
decode r =
    let b = store16 0 (ntohs (load16 0 r.buffer)) r.buffer in
    let b' = store16 2 (ntohs (load16 2 b)) b in
    (load16 0 b' == magic && leb (load16 2 b') max_version, record r { buffer = b' })
