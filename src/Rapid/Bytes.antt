-- ===== src/Rapid/Bytes.antt =====
-- The byte order of the rapid header: what `htonl` lays out, `ntohl` reads back.
use magneto.Base.{ℕ, ◌+◌, ◌*◌, ◌%◌, ◌^◌, ◌<◌, ◌≡◌, ◌∙◌, ap, List, [], ◌∷◌, ◌++◌, length, arith}
use magneto.Rapid.{byte, load32, store32, ntohl, encode}

-- The header as it stands on the wire for a body of `n` bytes.
abbrev pub wire_header : ℕ → List ℕ
wire_header n = 229 ∷ 140 ∷ 0 ∷ 0 ∷ byte 3 n ∷ byte 2 n ∷ byte 1 n ∷ byte 0 n ∷ []

-- The header in the reader's buffer once its size is in host order.
abbrev pub host_header : ℕ → List ℕ
host_header n = 229 ∷ 140 ∷ 0 ∷ 0 ∷ byte 0 n ∷ byte 1 n ∷ byte 2 n ∷ byte 3 n ∷ []

abbrev word : ℕ → ℕ → ℕ → ℕ → ℕ
word a b c d = a + 256 * b + 65536 * c + 16777216 * d

byte0-word : (a b c d : ℕ) → a < 256 → byte 0 (word a b c d) ≡ a
byte0-word a b c d h = omega arith

byte1-word : (a b c d : ℕ) → a < 256 → b < 256 → byte 1 (word a b c d) ≡ b
byte1-word a b c d h k = omega arith

byte2-word : (a b c d : ℕ) → a < 256 → b < 256 → c < 256 → byte 2 (word a b c d) ≡ c
byte2-word a b c d h k l = omega arith

byte3-word : (a b c d : ℕ) → a < 256 → b < 256 → c < 256 → d < 256 → byte 3 (word a b c d) ≡ d
byte3-word a b c d h k l m = omega arith

pub byte_lt : (k n : ℕ) → byte k n < 256
byte_lt k n = omega arith

-- The bytes of a 32-bit number make it up.
pub word-bytes : (n : ℕ) → n < 2 ^ 32 → word (byte 0 n) (byte 1 n) (byte 2 n) (byte 3 n) ≡ n
word-bytes n h = omega arith

pub ntohl-bytes :
    (v : ℕ)
    → (byte 0 (ntohl v) ≡ byte 3 v)
      × (byte 1 (ntohl v) ≡ byte 2 v)
      × (byte 2 (ntohl v) ≡ byte 1 v)
      × (byte 3 (ntohl v) ≡ byte 0 v)
ntohl-bytes v = (
  byte0-word (byte 3 v) (byte 2 v) (byte 1 v) (byte 0 v) (byte_lt 3 v),
  byte1-word (byte 3 v) (byte 2 v) (byte 1 v) (byte 0 v) (byte_lt 3 v) (byte_lt 2 v),
  byte2-word (byte 3 v) (byte 2 v) (byte 1 v) (byte 0 v) (byte_lt 3 v) (byte_lt 2 v) (byte_lt 1 v),
  byte3-word (byte 3 v) (byte 2 v) (byte 1 v) (byte 0 v) (byte_lt 3 v) (byte_lt 2 v) (byte_lt 1 v)
      (byte_lt 0 v),
)

header_ext :
    {a b c d a' b' c' d' : ℕ} (t : List ℕ)
    → a ≡ a'
    → b ≡ b'
    → c ≡ c'
    → d ≡ d'
    → 229 ∷ 140 ∷ 0 ∷ 0 ∷ a ∷ b ∷ c ∷ d ∷ t ≡ 229 ∷ 140 ∷ 0 ∷ 0 ∷ a' ∷ b' ∷ c' ∷ d' ∷ t
header_ext t p q r s = cc

-- What the writer hands to `WriteVecNonBlock`.
pub encode-wire :
    (body : List ℕ) → length body < 2 ^ 32 → encode body ≡ wire_header (length body) ∷ body ∷ []
unfolding encode
encode-wire body h =
    let e : length body % 2 ^ 32 ≡ length body = omega arith in
    let bs = ntohl-bytes (length body) in
    rw e (ap (λ h. h ∷ body ∷ []) (header_ext [] bs.0 bs.1 bs.2 bs.3))

-- Storing the converted size turns the wire header into the host's.
pub store32-wire :
    (n : ℕ) (rest : List ℕ)
    → store32 4 (ntohl (load32 4 (wire_header n ++ rest))) (wire_header n ++ rest)
      ≡ host_header n ++ rest
store32-wire n rest =
    let twice = ntohl-bytes (ntohl n) in
    let once = ntohl-bytes n in
    header_ext rest (twice.0 ∙ once.3) (twice.1 ∙ once.2) (twice.2 ∙ once.1) (twice.3 ∙ once.0)

pub load32-host : (n : ℕ) (rest : List ℕ) → n < 2 ^ 32 → load32 4 (host_header n ++ rest) ≡ n
load32-host n rest h = word-bytes n h
