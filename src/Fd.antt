-- ===== src/Fd.antt =====
-- src/fd.c and src/fd_impl.h: a file or a socket behind one set of function pointers (the POSIX
-- branch of the conditional code). Calls of the operating system are recorded, and what they
-- answer is an argument.
pub mod Close
pub mod Modes
use libsimple.Base.{ℕ, zero, Bool, true, false, Option, none, some, List, [], ◌∷◌, if◌then◌else◌}
use libsimple.Base.Int.{ℤ, pos, negsuc, minus_one}

-- enum FDTYPE
pub data FdType : Type 0 where
  type_socket type_file : FdType

-- the union in `struct fd_t`: the number of a socket, or a `FILE *`
pub data Handle : Type 0 where
  sock : ℤ → Handle
  fp : Option ℕ → Handle

-- which function a pointer of `struct fd_t` points at
pub data Impl : Type 0 where
  file_impl sock_impl : Impl

-- struct fd_t; a function pointer that nothing has been written to is `none`.
pub record Fd : Type 0 where
  pub handle : Handle
  pub kind : FdType
  pub err : ℤ
  pub read : Option Impl
  pub write : Option Impl
  pub is_eof : Option Impl
  pub set_nonblock : Option Impl
  pub set_read_buf : Option Impl
  pub set_write_buf : Option Impl

-- simple_fd_open_from_file
unfoldable pub open_from_file : Option ℕ → Fd
open_from_file file = record {
  handle = fp file;
  kind = type_file;
  err = pos 0;
  read = some file_impl;
  write = some file_impl;
  is_eof = some file_impl;
  set_nonblock = some file_impl;
  set_read_buf = none;
  set_write_buf = none;
}

-- simple_fd_open_from_socket
unfoldable pub open_from_socket : ℤ → Fd
open_from_socket s = record {
  handle = sock s;
  kind = type_socket;
  err = pos 0;
  read = some sock_impl;
  write = some sock_impl;
  is_eof = some sock_impl;
  set_nonblock = some sock_impl;
  set_read_buf = none;
  set_write_buf = none;
}

unfoldable pub is_minus_one : ℤ → Bool
is_minus_one (negsuc zero) = true
is_minus_one _ = false

-- `rc` and `errno`, of the call that a read or a write makes
abbrev pub Answer : Type 0
Answer = ℤ × ℤ

-- _file_read and _file_write: `errno` is copied whatever `rc` is.
unfoldable pub file_transfer : Fd → Answer → ℤ × Fd
file_transfer fd (rc, errno) = (rc, record fd { err = errno })

-- _sock_read and _sock_write: `errno` is copied where `rc` is -1.
unfoldable pub sock_transfer : Fd → Answer → ℤ × Fd
unfolding is_minus_one
sock_transfer fd (rc, errno) = (rc, if is_minus_one rc then record fd { err = errno } else fd)

transfer : Option Impl → Fd → Answer → Option (ℤ × Fd)
transfer none fd answer = none
transfer (some file_impl) fd answer = some (file_transfer fd answer)
transfer (some sock_impl) fd answer = some (sock_transfer fd answer)

-- `fd->read(fd, …)`; `none` is a call through a pointer that was never set.
unfoldable pub call_read : Fd → Answer → Option (ℤ × Fd)
unfolding transfer file_transfer sock_transfer
call_read fd = transfer fd.read fd

-- `fd->write(fd, …)`
unfoldable pub call_write : Fd → Answer → Option (ℤ × Fd)
unfolding transfer file_transfer sock_transfer
call_write fd = transfer fd.write fd

set_option : Option Impl → ℤ → Option ℤ
set_option none rc = none
set_option (some file_impl) rc = some minus_one
set_option (some sock_impl) rc = some rc

-- `fd->set_nonblock(fd, …)`: -1 for a file, and what the system answers for a socket.
unfoldable pub call_set_nonblock : Fd → ℤ → Option ℤ
unfolding set_option
call_set_nonblock fd = set_option fd.set_nonblock

-- `fd->set_read_buf(fd, …)`
unfoldable pub call_set_read_buf : Fd → ℤ → Option ℤ
unfolding set_option
call_set_read_buf fd = set_option fd.set_read_buf

-- `fd->set_write_buf(fd, …)`
unfoldable pub call_set_write_buf : Fd → ℤ → Option ℤ
unfolding set_option
call_set_write_buf fd = set_option fd.set_write_buf

-- simple_fd_lasterr
unfoldable pub lasterr : Fd → ℤ
lasterr fd = fd.err

-- simple_fd_detach
detach_kind : FdType → Fd → Fd
detach_kind type_socket fd = record fd { handle = sock minus_one }
detach_kind type_file fd = record fd { handle = fp none }

unfoldable pub detach : Fd → Fd
unfolding detach_kind
detach fd = detach_kind fd.kind fd

-- The calls that close something.
pub data OsCall : Type 0 where
  close : ℤ → OsCall
  fclose : ℕ → OsCall

-- simple_fd_close; a union read through its other member is not modelled, no function sets one so.
close_handle : Handle → List OsCall
close_handle (sock s) = if is_minus_one s then [] else close s ∷ []
close_handle (fp none) = []
close_handle (fp (some file)) = fclose file ∷ []

unfoldable pub close_fd : Fd → List OsCall
unfolding close_handle is_minus_one
close_fd fd = close_handle fd.handle
