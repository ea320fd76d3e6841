-- ===== src/Ping.antt =====
-- src/protocols/ping: a codec that moves one byte. The socket is the one of Socket.
use magneto.Base.{ℕ, zero, suc, ◌≡◌, ◌⊎◌, inl, inr, refl, List, [], ◌∷◌, ℤ, pos, negsuc, arith}
use magneto.Socket.{Recv, got, nothing, failed, Ordered, Delivers, k_end}

-- ProtocolWritePing::Write, on what WriteNonBlock returned for its one byte.
unfoldable pub write : ℤ → ℤ
write (pos zero) = k_end
write (pos (suc n)) = pos 0
write (negsuc n) = negsuc n

-- What Read makes of the answer: its result, and `buffer_`.
unfoldable pub read_ret : Recv → ℕ → ℤ × ℕ
read_ret (got b bs) buffer = (pos 0, b)
read_ret nothing buffer = (k_end, buffer)
read_ret (failed e) buffer = (negsuc e, buffer)

module _ {S : Type 0} (recv : S → ℕ → Recv × S) where
  -- ProtocolReadPing::Read.
  unfoldable pub read : S → ℕ → ℤ × ℕ × S
  unfolding read_ret
  read s buffer =
      let (answer, s') = recv s 1 in
      let (ret, buffer') = read_ret answer buffer in (ret, buffer', s')

  -- What a Read has come to: it has taken the next byte, or nothing.
  abbrev pub TookOne : (S → List ℕ) → S → ℕ → ℤ × ℕ × S → Type 0
  TookOne pending s buffer out =
      ((out.0 ≡ pos 0) × (pending s ≡ out.1 ∷ pending out.2))
      ⊎ (((n : ℕ) × (out.0 ≡ negsuc n)) × (out.1 ≡ buffer) × (pending s ≡ pending out.2))

  by_answer :
      (pending : S → List ℕ) (s s' : S) (buffer : ℕ) (answer : Recv)
      → Delivers (pending s) 1 answer (pending s')
      → TookOne pending s buffer ((read_ret answer buffer).0, (read_ret answer buffer).1, s')
  unfolding read_ret
  by_answer pending s s' buffer (got b []) (came, few) = inl (refl, came)
  by_answer pending s s' buffer (got b (c ∷ bs)) (came, few) = absurd (omega arith)
  by_answer pending s s' buffer nothing same = inr ((99, refl), refl, same)
  by_answer pending s s' buffer (failed e) same = inr ((e, refl), refl, same)

  -- Over a descriptor that delivers bytes in order, Read returns 0 with the next byte in its
  -- buffer, and only that byte is gone, or it returns a negative number and nothing has changed.
  pub read-TookOne :
      (pending : S → List ℕ) (s : S) (buffer : ℕ)
      → Ordered recv pending
      → TookOne pending s buffer (read s buffer)
  unfolding read
  read-TookOne pending s buffer o =
      by_answer pending s (recv s 1).1 buffer (recv s 1).0 (o.delivers s 1)
