-- ===== src/CircBuf.antt =====
-- src/circ_buf.c: a ring of bytes with one slot kept free. `int` values are numbers here, without
-- the overflow of a ring of 2^30 bytes or more, and with differences that are not negative while
-- `head` and `tail` are less than `size`.
pub mod Counts
pub mod Bounds
pub mod Spec
pub mod Chunk
pub mod Ends
pub mod Read
pub mod Write
pub mod Session
use libsimple.Base.{
  ℕ, ◌+◌, ◌-◌, ◌%◌, List, [], ◌++◌, Bytes, length, take, drop, slice, store, if◌then◌else◌, ltb,
  leb,
}
use libsimple.Mutex.{Mutex, mutex_create, mutex_lock, mutex_unlock, mutex_destroy}

-- struct circ_buf_t
pub record CircBuf : Type 0 where
  pub buf : Bytes
  pub head : ℕ
  pub tail : ℕ
  pub size : ℕ
  pub mutex : Mutex

-- simple_circ_buf_create; `block` is what `malloc(size + 1)` returns, its contents unknown.
unfoldable pub create : Bytes → ℕ → CircBuf
create block size = record { buf = block; head = 0; tail = 0; size = size; mutex = mutex_create }

-- simple_circ_buf_destroy, as the calls that its mutex has seen in the end.
unfoldable pub destroy : CircBuf → Mutex
destroy c = mutex_destroy c.mutex

-- _cnt
unfoldable pub cnt : ℕ → ℕ → ℕ → ℕ
cnt head tail size = (head + size - tail) % size

-- _space
unfoldable pub space : ℕ → ℕ → ℕ → ℕ
space head tail size = cnt tail (head + 1) size

-- simple_circ_buf_get_data_cnt
unfoldable pub get_data_cnt : CircBuf → ℕ
get_data_cnt c = cnt c.head c.tail c.size

-- simple_circ_buf_get_space_cnt
unfoldable pub get_space_cnt : CircBuf → ℕ
get_space_cnt c = space c.head c.tail c.size

-- _circ_cnt_to_end
unfoldable pub circ_cnt_to_end : ℕ → ℕ → ℕ → ℕ
circ_cnt_to_end head tail size =
    let end = size - tail in let n = (head + end) % size in if ltb n end then n else end

-- _circ_space_to_end
unfoldable pub circ_space_to_end : ℕ → ℕ → ℕ → ℕ
circ_space_to_end head tail size =
    let end = size - 1 - head in let n = (end + tail) % size in if leb n end then n else end + 1

-- `memcpy(to, c->buf+c->tail, n); c->tail += n; c->tail %= c->size;`
abbrev pub take_chunk : CircBuf → ℕ → Bytes × CircBuf
take_chunk c n = (slice c.buf c.tail n, record c { tail = (c.tail + n) % c.size })

-- `memcpy(c->buf+c->head, from, n); c->head += n; c->head %= c->size;`
abbrev pub put_chunk : CircBuf → Bytes → CircBuf
put_chunk c from = record c {
  buf = store c.buf c.head from;
  head = (c.head + length from) % c.size;
}

abbrev pub locked : CircBuf → CircBuf
locked c = record c { mutex = mutex_lock c.mutex }

abbrev pub unlocked : CircBuf → CircBuf
unlocked c = record c { mutex = mutex_unlock c.mutex }

-- simple_circ_buf_read: the bytes that go to `buf`, the returned count, and the ring.
unfoldable pub read : CircBuf → ℕ → Bytes × ℕ × CircBuf
read c0 size =
    let c = locked c0 in
    let n = circ_cnt_to_end c.head c.tail c.size in
    if leb size n
    then (let (out, c1) = take_chunk c size in (out, size, unlocked c1))
    else let (out1, c1) = take_chunk c n in
      let rest = size - n in
      let n' = circ_cnt_to_end c1.head c1.tail c1.size in
      let n2 = if leb n' rest then n' else rest in
      let (out2, c2) = take_chunk c1 n2 in (out1 ++ out2, n + n2, unlocked c2)

-- simple_circ_buf_write: the returned count, and the ring. `data` holds the `size` bytes.
unfoldable pub write : CircBuf → Bytes → ℕ × CircBuf
write c0 from =
    let size = length from in
    let c = locked c0 in
    let n = circ_space_to_end c.head c.tail c.size in
    if leb size n
    then (size, unlocked (put_chunk c from))
    else let c1 = put_chunk c (take n from) in
      let from' = drop n from in
      let rest = size - n in
      let n' = circ_space_to_end c1.head c1.tail c1.size in
      let n2 = if leb n' rest then n' else rest in (n + n2, unlocked (put_chunk c1 (take n2 from')))
