-- ===== src/Rapid/Transfer.antt =====
-- A whole transfer of the rapid protocol: the writer's iovecs on one side, repeated calls of
-- `ProtocolReadRapid::Read` and the final `Decode` on the other.
use magneto.Base.{
  eqb_ℤ, Bool-cases, ◌⊎◌, inl, inr, false, subst, ℕ, ◌^◌, ◌<◌, ◌≡◌, ◌∙◌, refl, ap, inl, inr, List,
  [], ◌∷◌, ◌++◌, length, arith, append-nil, true, some, ℤ, pos, eqb_ℤ,
}
use magneto.Socket.{Recv, Ordered, Called, Called-keeps}
use magneto.Rapid.{Reader, reset, size, body, read, decode, encode}
use magneto.Rapid.Bytes.{encode-wire, load32-host}
use magneto.Rapid.Framing.{Reading, in_header, Complete, Post, read-Post}

abbrev pub concat : List (List ℕ) → List ℕ
concat [] = []
concat (x ∷ xs) = x ++ concat xs

-- A reader that was `Reset` stands before the first byte of what `Encode` lays out.
reset-Reading :
    (r : Reader) (msg rest : List ℕ)
    → length msg < 2 ^ 32
    → Reading msg rest (reset r) (concat (encode msg) ++ rest)
unfolding reset
reset-Reading r msg rest fits =
    in_header refl (omega arith) (rw (encode-wire msg fits) (rw (append-nil msg) refl))

-- What the handler of the message sees once `Decode` has accepted it.
decode-Complete :
    (r : Reader) (msg rest p : List ℕ)
    → length msg < 2 ^ 32
    → Complete msg rest r p
    → ((decode r).0 ≡ true) × (body (decode r).1 ≡ msg) × (size (decode r).1 ≡ length msg)
unfolding decode
decode-Complete r msg rest p fits c = (
  ap (λ b. (decode (with_buffer b)).0) c.buffered,
  ap (λ b. body (decode (with_buffer b)).1) c.buffered,
  ap (λ b. size (decode (with_buffer b)).1) c.buffered ∙ load32-host (length msg) msg fits,
)
  where
    with_buffer : List ℕ → Reader
    with_buffer b = record { buffer = b; read_header = r.read_header }

module _ {S : Type 0} (recv : S → ℕ → Recv × S) (pending : S → List ℕ) (sock : Ordered recv pending)
    (msg rest : List ℕ) (fits : length msg < 2 ^ 32) where
  read_out :
      (r : Reader) (s : S) (out : ℤ × Reader × S)
      → Reading msg rest r (pending s)
      → read recv r s ≡ some out
      → Post pending msg rest out
  read_out r s out now run =
      let (out', run', post) = read-Post recv pending sock msg rest fits r s now in
      let same : out' ≡ out = cc in subst (Post pending msg rest) same post

  Called-Reading :
      {r : Reader} {s : S} {r' : Reader} {s' : S}
      → Reading msg rest r (pending s)
      → Called (read recv) r s r' s'
      → Reading msg rest r' (pending s')
  Called-Reading =
      Called-keeps (λ r s. Reading msg rest r (pending s))
        (λ r s out now run. (read_out r s out now run).0)

  -- A body of less than 2^32 bytes that `Encode` has laid out, with anything after it, arrives
  -- whole: over a descriptor that delivers bytes in order, in pieces of any size, `Read` always
  -- returns after any number of earlier calls on a reader that was `Reset`; either it returns
  -- something other than 0, or `Decode` then accepts, `Data` and `Size` are the body and its length,
  -- and exactly what followed the body is still to be read.
  pub transfer :
      (r0 : Reader) (s0 : S) (r : Reader) (s : S)
      → pending s0 ≡ concat (encode msg) ++ rest
      → Called (read recv) (reset r0) s0 r s
      → (out : ℤ × Reader × S) × (read recv r s ≡ some out)
        × ((eqb_ℤ out.0 (pos 0) ≡ false)
            ⊎ ((out.0 ≡ pos 0)
                × ((decode out.1).0 ≡ true)
                × (body (decode out.1).1 ≡ msg)
                × (size (decode out.1).1 ≡ length msg)
                × (pending out.2 ≡ rest)))
  transfer r0 s0 r s sent calls =
      let first : Reading msg rest (reset r0) (pending s0) =
        rw sent (reset-Reading r0 msg rest fits) in
      let (out, run, post) =
        read-Post recv pending sock msg rest fits r s (Called-Reading first calls) in
      elim (Bool-cases (eqb_ℤ out.0 (pos 0))) [
        | inr unfinished ↦ (out, run, inl unfinished)
        | inl ended ↦
            let z : out.0 ≡ pos 0 = ground arith in
            let c = post.1 z in
            let d = decode-Complete out.1 msg rest (pending out.2) fits c in
            (out, run, inr (z, d.0, d.1, d.2, c.untouched))
      ]
