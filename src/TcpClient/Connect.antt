-- ===== src/TcpClient/Connect.antt =====
-- The connecting half of src/tcpclient.c, with the calls that close a socket recorded in order.
use libsimple.Base.{
  ℕ, zero, suc, ◌≡◌, refl, ap, Bool, true, false, Option, none, some, List, [], ◌∷◌, ◌++◌, arith,
}
use libsimple.Base.Int.{ℤ, pos, negsuc, minus_one}
use libsimple.Outcome.{Outcome, done, fault, ◌>>=◌}
use libsimple.Fd.{Fd, OsCall, close, open_from_socket, close_fd}

-- What the system answers while one address is tried: `connect` succeeds, fails, or is in progress;
-- then `select` fails or times out, or returns with the socket in the set or without.
pub data ConnectEvent : Type 0 where
  connected refused : ConnectEvent
  in_progress_failed in_progress_set in_progress_unset : ConnectEvent

connect_rc : ConnectEvent → ℤ
connect_rc connected = pos 0
connect_rc refused = minus_one
connect_rc in_progress_failed = minus_one
connect_rc in_progress_set = pos 0
connect_rc in_progress_unset = minus_one

-- _connect: its result, and the calls made by `simple_fd_close` at its end.
unfoldable pub connect : ℤ → ConnectEvent → ℤ × List OsCall
unfolding connect_rc
connect s ev = let fd = open_from_socket s in (connect_rc ev, close_fd fd)

-- One address: what `socket` returns (`none` is -1) and what happens to the connection.
pub record Attempt : Type 0 where
  pub socket : Option ℕ
  pub event : ConnectEvent

negative : ℤ → Bool
negative (pos n) = false
negative (negsuc n) = true

-- the loop of _try_connect over the addresses, with the calls so far
unfoldable pub try_connect_loop : List Attempt → List OsCall → ℤ × List OsCall
unfolding negative
try_connect_loop [] calls = (minus_one, calls)
try_connect_loop (a ∷ rest) calls = elim a.socket [
  | none ↦ try_connect_loop rest calls
  | some s ↦
      let r = connect (pos s) a.event in
      elim (negative r.0) [
        | true ↦ try_connect_loop rest (calls ++ (r.1 ++ (close (pos s) ∷ [])))
        | false ↦ (pos s, calls ++ r.1)
      ]
]

-- What `getaddrinfo` answers: the addresses, or one of its error codes.
pub data Resolved : Type 0 where
  found : List Attempt → Resolved
  failed : ℤ → Resolved

-- _try_connect. It takes `getaddrinfo` for failed only where that returns -1; with any other error
-- code it goes on with `addr`, which has not been written.
unfoldable pub try_connect : Resolved → Outcome (ℤ × List OsCall)
try_connect (found addrs) = done (try_connect_loop addrs [])
try_connect (failed (negsuc zero)) = done (minus_one, [])
try_connect (failed rc) = fault

-- struct tcpclient_t
pub record TcpClient : Type 0 where
  pub sock : ℤ
  pub fd : Fd

client_of : ℤ → Option TcpClient
client_of (negsuc n) = none
client_of (pos n) = some (record { sock = pos n; fd = open_from_socket (pos n) })

-- simple_tcpclient_open
unfoldable pub open_client : Resolved → Outcome (Option TcpClient × List OsCall)
unfolding client_of
open_client addrs = try_connect addrs >>= λ r. done (client_of r.0, r.1)

-- simple_tcpclient_close
unfoldable pub close_client : TcpClient → List OsCall
close_client tc = close_fd tc.fd

-- The last thing that was done is to close the socket.
abbrev pub ClosedLast : ℕ → List OsCall → Type 0
ClosedLast s calls = (before : List OsCall) × (calls ≡ before ++ (close (pos s) ∷ []))

attempt_closed :
    (s : ℕ) (o : Option ℕ) (ev : ConnectEvent) (rest : List Attempt) (calls out : List OsCall)
    → ((calls' : List OsCall) → try_connect_loop rest calls' ≡ (pos s, out) → ClosedLast s out)
    → try_connect_loop (record { socket = o; event = ev } ∷ rest) calls ≡ (pos s, out)
    → ClosedLast s out
unfolding try_connect_loop connect close_fd open_from_socket
attempt_closed s none ev rest calls out ih e = ih calls e
attempt_closed s (some n) connected rest calls out ih e = (calls, cc)
attempt_closed s (some n) in_progress_set rest calls out ih e = (calls, cc)
attempt_closed s (some n) refused rest calls out ih e = ih _ e
attempt_closed s (some n) in_progress_failed rest calls out ih e = ih _ e
attempt_closed s (some n) in_progress_unset rest calls out ih e = ih _ e

try_connect_loop-ClosedLast :
    (addrs : List Attempt) (calls : List OsCall) (s : ℕ) (out : List OsCall)
    → try_connect_loop addrs calls ≡ (pos s, out)
    → ClosedLast s out
unfolding try_connect_loop
try_connect_loop-ClosedLast [] calls s out e = absurd (ground arith)
try_connect_loop-ClosedLast (a ∷ rest) calls s out e =
    attempt_closed s a.socket a.event rest calls out
      (λ calls' e'. try_connect_loop-ClosedLast rest calls' s out e') e

-- Whenever `simple_tcpclient_open` returns a client, and has not read an address that was never
-- written, the last thing that it has done is to close the
-- client's socket: `_connect` ends with `simple_fd_close`, on success too.
pub open_client-ClosedLast :
    (addrs : Resolved) (tc : TcpClient) (calls : List OsCall)
    → open_client addrs ≡ done (some tc, calls)
    → (s : ℕ) × (tc.sock ≡ pos s) × ClosedLast s calls
unfolding open_client try_connect
open_client-ClosedLast (failed (negsuc zero)) tc calls e = absurd (ground arith)
open_client-ClosedLast (failed (negsuc (suc n))) tc calls e = absurd (ground arith)
open_client-ClosedLast (failed (pos n)) tc calls e = absurd (ground arith)
open_client-ClosedLast (found addrs) tc calls e =
    let r = try_connect_loop addrs [] in
    let same : ◌≡◌ {A = Option TcpClient × List OsCall} (client_of r.0, r.1) (some tc, calls) =
      cc in
    by_result r.0 r.1 refl (ap (λ x. x.0) same) (ap (λ x. x.1) same)
  where
    by_result :
        (s : ℤ) (out : List OsCall)
        → try_connect_loop addrs [] ≡ (s, out)
        → client_of s ≡ some tc
        → out ≡ calls
        → (n : ℕ) × (tc.sock ≡ pos n) × ClosedLast n calls
    by_result (negsuc n) out t c o = absurd (unfold client_of in cc)
    by_result (pos n) out t c o = (
      n,
      unfold client_of in (ground arith),
      rw o at (try_connect_loop-ClosedLast addrs [] n out t),
    )
