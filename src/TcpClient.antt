-- ===== src/TcpClient.antt =====
-- src/tcpclient.c: sending and receiving over a socket that does not block. What `select`, `send`
-- and `recv` answer is not part of this repository: it is a list of events, one for each turn of
-- the loops, and the functions here are those loops over any such list.
pub mod Send
pub mod Recv
pub mod Connect
use libsimple.Base.{
  ℕ, zero, suc, ◌+◌, ◌-◌, min, Option, none, some, List, [], ◌∷◌, ◌++◌, Bytes, length, take, drop,
}
use libsimple.Base.Int.{ℤ, pos, negsuc, minus_one}

-- How a call ends: it returns an `int`, or it still waits for the next event.
pub data End : Type 0 where
  returned : ℤ → End
  waiting : End

-- One turn of sendt: `select` times out or fails; or it succeeds and `send` would block, fails, or
-- accepts what it is given, but no more than some number of bytes.
pub data SendEvent : Type 0 where
  select_timeout select_error would_block failed : SendEvent
  accepts : ℕ → SendEvent

-- The result of a call, `*sent`, the bytes that went to `send`, and the events not yet used.
pub record Sent : Type 0 where
  pub end : End
  pub sent : ℕ
  pub wire : Bytes
  pub left : List SendEvent

-- simple_tcpclient_sendt; `goto retry` is the recursion.
unfoldable pub sendt : List SendEvent → Bytes → Sent
sendt [] from = record { end = waiting; sent = 0; wire = []; left = [] }
sendt (select_timeout ∷ evs) from = record {
  end = returned (negsuc 1);
  sent = 0;
  wire = [];
  left = evs;
}
sendt (select_error ∷ evs) from = record {
  end = returned minus_one;
  sent = 0;
  wire = [];
  left = evs;
}
sendt (would_block ∷ evs) from = sendt evs from
sendt (failed ∷ evs) from = record { end = returned minus_one; sent = 0; wire = []; left = evs }
sendt (accepts n ∷ evs) from =
    let rc = min n (length from) in
    record { end = returned (pos rc); sent = rc; wire = take rc from; left = evs }

-- `rc > 0`
abbrev pub went_on : End → Option ℕ
went_on (returned (pos (suc n))) = some (suc n)
went_on _ = none

-- The loop of simple_tcpclient_sendnt: `len` is the whole length, `rest` the bytes not yet sent,
-- `sent` is `*sent`, and `wire` what has gone to `send`. `none` means that the fuel is used up.
unfoldable pub sendnt_loop : ℕ → ℕ → List SendEvent → Bytes → ℕ → Bytes → Option Sent
sendnt_loop len zero evs rest sent wire = none
sendnt_loop len (suc fuel) evs [] sent wire =
    some (record { end = returned (pos len); sent = sent; wire = wire; left = evs })
sendnt_loop len (suc fuel) evs (c ∷ rest) sent wire =
    let r = sendt evs (c ∷ rest) in
    elim (went_on r.end) [
      | none ↦ some (record { end = r.end; sent = sent; wire = wire; left = r.left })
      | some n ↦
          sendnt_loop len fuel r.left (drop r.sent (c ∷ rest)) (sent + r.sent) (wire ++ r.wire)
    ]

-- simple_tcpclient_sendnt, with more fuel than there are events.
unfoldable pub sendnt : List SendEvent → Bytes → Option Sent
sendnt evs from = sendnt_loop (length from) (suc (length evs)) evs from 0 []

-- simple_tcpclient_send and simple_tcpclient_sendn: the same with the longest time-out, which the
-- events stand for.
unfoldable pub send : List SendEvent → Bytes → Sent
unfolding sendt
send evs from = sendt evs from

unfoldable pub sendn : List SendEvent → Bytes → Option Sent
unfolding sendnt
sendn evs from = sendnt evs from

-- One turn of recvt; `delivers` is what the socket holds (nothing: the other side has closed).
pub data RecvEvent : Type 0 where
  select_timeout select_error would_block failed : RecvEvent
  delivers : Bytes → RecvEvent

-- The result of a call, the `*recved` bytes put into the buffer, and the events not yet used.
pub record Recved : Type 0 where
  pub end : End
  pub out : Bytes
  pub left : List RecvEvent

-- simple_tcpclient_recvt
unfoldable pub recvt : List RecvEvent → ℕ → Recved
recvt [] len = record { end = waiting; out = []; left = [] }
recvt (select_timeout ∷ evs) len = record { end = returned (negsuc 1); out = []; left = evs }
recvt (select_error ∷ evs) len = record { end = returned minus_one; out = []; left = evs }
recvt (would_block ∷ evs) len = recvt evs len
recvt (failed ∷ evs) len = record { end = returned minus_one; out = []; left = evs }
recvt (delivers from ∷ evs) len =
    let out = take len from in record { end = returned (pos (length out)); out = out; left = evs }

-- The loop of simple_tcpclient_recvnt: `rest` is how much of the buffer is left, `out` what is in it.
unfoldable pub recvnt_loop : ℕ → ℕ → List RecvEvent → ℕ → Bytes → Option Recved
recvnt_loop len zero evs rest out = none
recvnt_loop len (suc fuel) evs zero out =
    some (record { end = returned (pos len); out = out; left = evs })
recvnt_loop len (suc fuel) evs (suc rest) out =
    let r = recvt evs (suc rest) in
    elim (went_on r.end) [
      | none ↦ some (record { end = r.end; out = out; left = r.left })
      | some n ↦ recvnt_loop len fuel r.left (suc rest - length r.out) (out ++ r.out)
    ]

-- simple_tcpclient_recvnt, with more fuel than there are events.
unfoldable pub recvnt : List RecvEvent → ℕ → Option Recved
recvnt evs len = recvnt_loop len (suc (length evs)) evs len []

-- simple_tcpclient_recv and simple_tcpclient_recvn
unfoldable pub recv : List RecvEvent → ℕ → Recved
unfolding recvt
recv evs len = recvt evs len

unfoldable pub recvn : List RecvEvent → ℕ → Option Recved
unfolding recvnt
recvn evs len = recvnt evs len
