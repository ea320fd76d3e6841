-- ===== src/Ctx.antt =====
-- src/ctx_helper.h: a pointer is handed to a coroutine as two ints.
use magneto.Base.{ℕ, ◌+◌, ◌*◌, ◌/◌, ◌%◌, ◌^◌, ◌<◌, ◌≡◌, ℤ, arith}
use magneto.Socket.{to_int32, to_unsigned}

-- PtrToInts: the address, shifted by 32 and masked with `kLow32Int`, as two ints.
unfoldable pub ptr_to_ints : ℕ → ℤ × ℤ
ptr_to_ints ptr = (to_int32 (ptr / 2 ^ 32), to_int32 (ptr % 2 ^ 32))

-- IntsToPtr: the two halves do not overlap, so the `|` is a sum.
unfoldable pub ints_to_ptr : ℤ × ℤ → ℕ
ints_to_ptr (hign, low) = to_unsigned 32 hign * 2 ^ 32 + to_unsigned 32 low

to_unsigned-to_int32 : (n : ℕ) → to_unsigned 32 (to_int32 n) ≡ n % 2 ^ 32
to_unsigned-to_int32 n = ground arith

-- A pointer of 64 bits that is split into two ints, of which either may be negative, is put together again.
ints_to_ptr-ptr_to_ints : (ptr : ℕ) → ptr < 2 ^ 64 → ints_to_ptr (ptr_to_ints ptr) ≡ ptr
unfolding ints_to_ptr ptr_to_ints
ints_to_ptr-ptr_to_ints ptr small =
    omega (arith, to_unsigned-to_int32 (ptr / 2 ^ 32), to_unsigned-to_int32 (ptr % 2 ^ 32))
