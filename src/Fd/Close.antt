-- ===== src/Fd/Close.antt =====
-- What is closed when, and which of the function pointers can be called.
use libsimple.Base.{ℕ, ◌≡◌, refl, Option, none, some, [], ◌∷◌, arith, if◌then◌else◌}
use libsimple.Base.Int.{ℤ, pos, minus_one}
use libsimple.Fd.{
  Fd, open_from_file, open_from_socket, detach, close, fclose, close_fd, is_minus_one, call_read,
  call_set_nonblock, call_set_read_buf, call_set_write_buf, lasterr,
}

-- Opening and closing again closes what was passed in, once, and after a detach nothing.
pub close_fd_open :
    (n file : ℕ)
    → (close_fd (open_from_socket (pos n)) ≡ close (pos n) ∷ [])
      × (close_fd (open_from_file (some file)) ≡ fclose file ∷ [])
      × (close_fd (detach (open_from_socket (pos n))) ≡ [])
      × (close_fd (detach (open_from_file (some file))) ≡ [])
unfolding close_fd open_from_socket open_from_file detach
close_fd_open n file = (refl, refl, refl, refl)

-- A read that fails on a socket can be told by `simple_fd_lasterr`, and one that succeeds leaves
-- the last error as it was; on a file each read stores `errno`.
pub lasterr-call_read :
    (s rc errno : ℤ) (file : Option ℕ)
    → (out out' : ℤ × Fd) × (call_read (open_from_socket s) (rc, errno) ≡ some out)
      × (lasterr out.1 ≡ (if is_minus_one rc then errno else pos 0))
      × (call_read (open_from_file file) (rc, errno) ≡ some out')
      × (lasterr out'.1 ≡ errno)
unfolding call_read open_from_socket open_from_file lasterr
lasterr-call_read s rc errno file = (_, _, refl, ground arith, refl, refl)

-- Neither way to open sets the pointers for the buffer sizes, so no opened descriptor can be asked
-- to set them, while every one can be asked to be made non-blocking.
pub buffers_unset :
    (s rc : ℤ) (file : Option ℕ)
    → (call_set_read_buf (open_from_socket s) rc ≡ none)
      × (call_set_write_buf (open_from_socket s) rc ≡ none)
      × (call_set_read_buf (open_from_file file) rc ≡ none)
      × (call_set_write_buf (open_from_file file) rc ≡ none)
      × (call_set_nonblock (open_from_socket s) rc ≡ some rc)
      × (call_set_nonblock (open_from_file file) rc ≡ some minus_one)
unfolding call_set_read_buf call_set_write_buf call_set_nonblock open_from_socket open_from_file
buffers_unset s rc file = (refl, refl, refl, refl, refl, refl)
