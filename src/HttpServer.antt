-- ===== src/HttpServer.antt =====
-- httpsrv/httprequest.c: the example server's answer to one request. What `send` answers is a list
-- of events; the file system and the working directory are arguments.
pub mod Send
pub mod Respond
pub mod SendFile
use libsimple.Base.{
  ℕ, zero, suc, ◌+◌, ◌-◌, ◌%◌, ◌^◌, min, Bool, true, false, not, ◌&&◌, ◌||◌, Option, none, some,
  List, [], ◌∷◌, ◌++◌, Bytes, length, take, drop, ltb, leb, ◌==◌, if◌then◌else◌,
}
use libsimple.Base.Int.{ℤ, pos, negsuc, minus_one}
use libsimple.Clib.Decimal.{decimal}
use libsimple.Clib.Text.{codes, strcaseeq}
use libsimple.HttpMessage.{
  HttpMessage, HttpParserState, http_body, http_complete, StartLine, create, set_start_line,
  set_value, append_body, get_encode_length, encode,
}
use libsimple.HttpParser.{parse, message_state}
use libsimple.Outcome.{Outcome, done, fault, diverges, ◌>>=◌}
use libsimple.Url.{Url, Match, parse_url}

-- What a call of `send` on the blocking socket of a connection answers.
pub data SockSend : Type 0 where
  accepts : ℕ → SockSend
  fails : SockSend

-- How sending ends: with a result, or while it still waits.
pub record Sending : Type 0 where
  pub result : Option ℤ
  pub wire : Bytes
  pub left : List SockSend

-- one turn in front of the others
abbrev pub after_part : Bytes → Sending → Sending
after_part bytes r = record r { wire = bytes ++ r.wire }

-- send_data, and the loop of send_res
unfoldable pub send_data : List SockSend → Bytes → Sending
send_data evs [] = record { result = some (pos 0); wire = []; left = evs }
send_data [] (c ∷ from) = record { result = none; wire = []; left = [] }
send_data (fails ∷ evs) (c ∷ from) = record { result = some minus_one; wire = []; left = evs }
send_data (accepts zero ∷ evs) (c ∷ from) = record {
  result = some minus_one;
  wire = [];
  left = evs;
}
send_data (accepts (suc n) ∷ evs) (c ∷ from) =
    after_part (take (suc n) (c ∷ from)) (send_data evs (drop n from))

-- _types
abbrev pub types : List (Bytes × Bytes)
types =
    (codes ".txt", codes "text/plain")
    ∷ (codes ".c", codes "text/plain")
    ∷ (codes ".h", codes "text/plain")
    ∷ (codes ".cpp", codes "text/plain")
    ∷ (codes ".html", codes "text/html")
    ∷ (codes ".htm", codes "text/html")
    ∷ (codes ".ico", codes "image/x-icon")
    ∷ (codes ".jpg", codes "image/jpeg")
    ∷ (codes ".jpeg", codes "image/jpeg")
    ∷ (codes ".gif", codes "image/gif")
    ∷ (codes ".mp3", codes "audio/mp3")
    ∷ (codes ".mpeg", codes "video/mpg")
    ∷ (codes ".mp4", codes "video/mpeg")
    ∷ (codes ".js", codes "application/x-javascript")
    ∷ (codes ".java", codes "java/*")
    ∷ (codes ".png", codes "image/png")
    ∷ (codes ".gz", codes "application/x-gzip")
    ∷ (codes ".ppt", codes "application/mspowerpoint")
    ∷ []

-- the loop of get_context_type_from_ext
unfoldable pub find_type : List (Bytes × Bytes) → Bytes → Bytes
find_type [] ext = codes "application/octet-stream"
find_type ((e, t) ∷ table) ext = if strcaseeq ext e then t else find_type table ext

-- get_context_type_from_ext; a null `ext` must not be given to `strcasecmp`.
unfoldable pub get_context_type_from_ext : Option Bytes → Outcome Bytes
get_context_type_from_ext none = fault
get_context_type_from_ext (some ext) = done (find_type types ext)

-- `strrchr(s, c)`: the text from the last `c` on
unfoldable pub strrchr : ℕ → Bytes → Option Bytes
strrchr c [] = none
strrchr c (x ∷ s) = elim (strrchr c s) [
  | some t ↦ some t
  | none ↦ if x == c then some (x ∷ s) else none
]

-- What `stat` says of a name that exists.
pub record FileStat : Type 0 where
  pub size : ℕ
  pub is_dir : Bool
  pub has_format : Bool

-- The file system: `stat`, and the contents of what `fopen` opens.
pub record FileSystem : Type 0 where
  pub stat : Bytes → Option FileStat
  pub open_file : Bytes → Option Bytes

unfoldable pub is_file : Option FileStat → Bool
is_file none = false
is_file (some st) = not st.is_dir && st.has_format

-- The result, the response as it has been changed, and what was sent.
pub record Reply : Type 0 where
  pub rc : Option ℤ
  pub res : HttpMessage
  pub wire : Bytes
  pub left : List SockSend

-- the loop of send_local_file over the file, in blocks of 4096 bytes up to the one that is short
unfoldable pub send_blocks : ℕ → List SockSend → Bytes → Sending
send_blocks zero evs from = record { result = none; wire = []; left = evs }
send_blocks (suc fuel) evs from =
    let r = send_data evs (take 4096 from) in
    elim r.result [
      | none ↦ r
      | some rc ↦ elim rc [
        | negsuc n ↦ r
        | pos n ↦ elim (ltb (length from) 4096) [
          | true ↦ record r { result = some (pos 1) }
          | false ↦ after_part r.wire (send_blocks fuel r.left (drop 4096 from))
        ]
      ]
    ]

abbrev pub reply_of : HttpMessage → Sending → Reply
reply_of res r = record { rc = r.result; res = res; wire = r.wire; left = r.left }

unfoldable pub send_contents : List SockSend → HttpMessage → Bytes → Option Bytes → Reply
send_contents evs res before none = record {
  rc = some minus_one;
  res = res;
  wire = before;
  left = evs;
}
send_contents evs res before (some from) =
    reply_of res (after_part before (send_blocks (suc (length from)) evs from))

unfoldable pub send_header : List SockSend → HttpMessage → Bytes → Option Bytes → Reply
send_header evs res head from =
    let r = send_data evs head in
    elim r.result [
      | none ↦ reply_of res r
      | some rc ↦ elim rc [
        | negsuc n ↦ reply_of res r
        | pos n ↦ send_contents r.left res r.wire from
      ]
    ]

unfoldable pub encoded : Option Bytes → Outcome Bytes
encoded none = fault
encoded (some text) = done text

-- the two headers that send_local_file adds, with the size that `stat` gives, printed by "%u" of 32
-- bits
abbrev pub file_headers : HttpMessage → Bytes → ℕ → HttpMessage
file_headers res type size =
    set_value (set_value res (codes "Content-Type") type) (codes "Content-Length")
      (decimal (size % 2 ^ 32))

-- send_local_file, for a name that `stat` has found
unfoldable pub send_local_file :
    FileSystem → List SockSend → HttpMessage → Bytes → FileStat → Outcome Reply
unfolding send_contents send_header encoded
send_local_file fs evs res filename st =
    get_context_type_from_ext (strrchr b'.' filename) >>= λ type.
    let res' = file_headers res type st.size in
    encoded (encode res' false) >>= λ head. done (send_header evs res' head (fs.open_file filename))

-- the body of ret_404: at most 1023 bytes of it, and a NUL
abbrev pub not_found_body : Bytes → Bytes
not_found_body path = take 1023 (codes "NOT found " ++ path) ++ (0 ∷ [])

unfoldable pub or_else : HttpMessage → Option HttpMessage → HttpMessage
or_else res none = res
or_else res (some res') = res'

-- ret_404
unfoldable pub ret_404 : HttpMessage → Bytes → HttpMessage
unfolding or_else set_start_line
ret_404 res path =
    let res1 = or_else res (
      set_start_line (some res) (some (codes "HTTP/1.0")) (some (codes "404"))
        (some (codes "File Not Found"))) in
    let res2 = set_value res1 (codes "Content-Type") (codes "text/plain") in
    or_else res2 (append_body (some res2) (not_found_body path)).1

-- build_filename: `strcat` into 1024 bytes, without a test for their end
unfoldable pub build_filename : Bytes → Bytes → Outcome Bytes
build_filename root path =
    if ltb (length root + length path) 1024 then done (root ++ path) else fault

-- http_request
unfoldable pub http_request : FileSystem → Bytes → List SockSend → Url → HttpMessage → Outcome Reply
unfolding is_file
http_request fs root evs url res = build_filename root url.path >>= λ filename.
    let st = fs.stat filename in
    if is_file st
    then elim st [ none ↦ fault | some s ↦ send_local_file fs evs res filename s ]
    else done (record { rc = some (pos 0); res = ret_404 res filename; wire = []; left = evs })
