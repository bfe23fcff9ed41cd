-- ===== src/Fd/Modes.antt =====
-- The end-of-file test and the non-blocking mode of src/fd.c (the POSIX branch). What `feof`, `recv`
-- and `fcntl` answer are arguments, and so is O_NONBLOCK, a power of two.
use libsimple.Base.{
  ℕ, zero, ◌+◌, ◌-◌, ◌/◌, ◌%◌, ◌≡◌, ◌==◌, arith, Bool, Option, none, some, if◌then◌else◌,
}
use libsimple.Base.Int.{ℤ, pos, negsuc, minus_one}
use libsimple.Fd.{Fd, Impl, file_impl, sock_impl}

-- `rc == 0`
sock_eof : ℤ → ℤ
sock_eof (pos zero) = pos 1
sock_eof _ = pos 0

-- _file_eof and _sock_eof, by what `feof`, or `recv` with MSG_PEEK, answers
eof_of : Option Impl → ℤ → Option ℤ
unfolding sock_eof
eof_of none answer = none
eof_of (some file_impl) answer = some answer
eof_of (some sock_impl) answer = some (sock_eof answer)

-- `fd->is_eof(fd)`
unfoldable pub call_is_eof : Fd → ℤ → Option ℤ
unfolding eof_of
call_is_eof fd = eof_of fd.is_eof

-- `flags | bit` and `flags & ~bit`
unfoldable pub with_bit : ℕ → ℕ → ℕ
with_bit bit flags = if flags / bit % 2 == 1 then flags else flags + bit

unfoldable pub without_bit : ℕ → ℕ → ℕ
without_bit bit flags = if flags / bit % 2 == 1 then flags - bit else flags

-- _sock_set_nonblock; `getfl` is the answer to F_GETFL, and `setfl` answers to F_SETFL.
unfoldable pub sock_set_nonblock : ℕ → ℤ → (ℕ → ℤ) → Bool → ℤ
unfolding with_bit without_bit
sock_set_nonblock nonblock (negsuc n) setfl enable = minus_one
sock_set_nonblock nonblock (pos flags) setfl enable =
    setfl (if enable then with_bit nonblock flags else without_bit nonblock flags)

-- For the bit 2048, as on Linux: what is set can be cleared again, which gives back the flags if it
-- was clear before, and setting it twice is setting it once.
pub with_bit-without_bit :
    (flags : ℕ)
    → (flags / 2048 % 2 ≡ 0)
    → (without_bit 2048 (with_bit 2048 flags) ≡ flags)
      × (with_bit 2048 (with_bit 2048 flags) ≡ with_bit 2048 flags)
unfolding with_bit without_bit
with_bit-without_bit flags h =
    let sets : (flags + 2048) / 2048 % 2 ≡ 1 = omega (arith, h) in ground (arith, h, sets)
