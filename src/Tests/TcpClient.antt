-- ===== src/Tests/TcpClient.antt =====
-- Runs of src/tcpclient.c, and its theorems at a socket that takes two bytes at a time.
use libsimple.Base.{◌≡◌, ◌<◌, ◌⊎◌, refl, ℕ, ◌-◌, some, List, [], ◌∷◌, length, take, drop}
use libsimple.Base.Int.{pos}
use libsimple.Clib.Text.{codes}
use libsimple.Fd.{OsCall, close, close_fd, open_from_socket}
use libsimple.TcpClient.{
  SendEvent, RecvEvent, Sent, Recved, returned, sendt, sendnt_loop, sendnt, recvnt, delivers,
  accepts,
}
use libsimple.TcpClient.Send.{EndsSendt, sendnt-SentSome}
use libsimple.TcpClient.Recv.{EndsRecvt, recvnt-RecvedSome}
use libsimple.TcpClient.Connect.{
  Attempt, found, TcpClient, connected, refused, connect, try_connect_loop, try_connect,
  open_client, ClosedLast, open_client-ClosedLast,
}

abbrev slow : List SendEvent
slow = accepts 2 ∷ SendEvent.would_block ∷ accepts 9 ∷ SendEvent.failed ∷ []

sendnt-slow :
    sendnt slow (codes "abc")
    ≡ some (record {
      end = returned (pos 3);
      sent = 3;
      wire = codes "abc";
      left = SendEvent.failed ∷ [];
    })
unfolding sendnt sendnt_loop sendt
sendnt-slow = refl

sendnt-SentSome_example :
    (r : Sent) × (sendnt slow (codes "abc") ≡ some r)
    × (r.wire ≡ take r.sent (codes "abc"))
    × (((r.sent ≡ 3) × (r.end ≡ returned (pos 3)))
        ⊎ ((r.sent < 3) × EndsSendt slow (drop r.sent (codes "abc")) r.end))
sendnt-SentSome_example = sendnt-SentSome slow (codes "abc")

abbrev trickle : List RecvEvent
trickle = delivers (codes "ab") ∷ RecvEvent.select_timeout ∷ []

recvnt-RecvedSome_example :
    (r : Recved) × (recvnt trickle 4 ≡ some r)
    × (((length r.out ≡ 4) × (r.end ≡ returned (pos 4)))
        ⊎ ((length r.out < 4) × EndsRecvt trickle (4 - length r.out) r.end))
recvnt-RecvedSome_example = recvnt-RecvedSome trickle 4

-- The first address refuses, the second one is connected.
abbrev addresses : List Attempt
addresses =
    record { socket = some 3; event = refused } ∷ record { socket = some 4; event = connected } ∷ []

abbrev client : TcpClient
client = record { sock = pos 4; fd = open_from_socket (pos 4) }

abbrev closes : List OsCall
closes = close (pos 3) ∷ close (pos 3) ∷ close (pos 4) ∷ []

open_client-ClosedLast_example : (s : ℕ) × (pos 4 ≡ pos s) × ClosedLast s closes
unfolding open_client try_connect try_connect_loop connect close_fd open_from_socket
open_client-ClosedLast_example = open_client-ClosedLast (found addresses) client closes refl
