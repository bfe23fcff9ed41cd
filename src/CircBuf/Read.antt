-- ===== src/CircBuf/Read.antt =====
-- `simple_circ_buf_read` against `dequeue` of CircBuf/Spec.
use libsimple.Base.{
  ℕ, ◌+◌, ◌-◌, ◌≤◌, ◌<◌, min, ◌≡◌, ap, ◌∙◌, [], ◌∷◌, ◌++◌, append_assoc, Bytes, length,
  length-append, take_all, drop_all, take-append, drop-append, append-nil, eq-nil_of_length, arith,
  leb, if◌then◌else◌, Bool-cases, inl, inr, leb→le, sym, refl,
}
use native.Mathlib.Decide.{dec_le}
use native.Mathlib.Nat.{le_refl}
use libsimple.Mutex.{lock, unlock}
use libsimple.CircBuf.{CircBuf, circ_cnt_to_end, take_chunk, locked, unlocked, read}
use libsimple.CircBuf.Bounds.{IsValid}
use libsimple.CircBuf.Chunk.{contents, take_chunk-IsValid, take_chunk-contents}
use libsimple.CircBuf.Ends.{cnt_to_end-le-length, cnt_to_end-take_chunk, length-take_chunk}
use libsimple.CircBuf.Spec.{dequeue}

-- A prefix of the length that `dequeue` asks for is what it takes.
prefix_dequeued :
    (q out rest : Bytes) (n : ℕ)
    → q ≡ out ++ rest
    → length out ≡ min n (length q)
    → dequeue q n ≡ (out, length out, rest)
unfolding dequeue
prefix_dequeued q out rest n e l = elim (dec_le n (length q)) [
  | yes h ↦
      let k : n ≡ length out = omega arith in
      rw (e, k, take-append out rest, drop-append out rest) (ground (arith, length-append out rest))
  | no h ↦
      let k : length q ≡ length out + length rest = ap length e ∙ length-append out rest in
      let none : rest ≡ [] = eq-nil_of_length rest (omega arith) in
      let all : q ≡ out = e ∙ ap (out ++◌) none ∙ append-nil out in
      rw
        (
          none,
          all,
          take_all n out (omega (arith, ap length all)),
          drop_all n out (omega (arith, ap length all)),
        )
        (let m : min n (length out) ≡ length out = omega (arith, ap length all) in rw m)
]

-- What a call has done to a ring: the bytes, the invariant and the calls on the mutex.
record Reads (c : CircBuf) (n : ℕ) (out : Bytes) (k : ℕ) (c' : CircBuf) : Type 0 where
  pub splits : contents c ≡ out ++ contents c'
  pub amount : length out ≡ min n (length (contents c))
  pub counted : k ≡ length out
  pub valid : IsValid c'
  pub same_size : c'.size ≡ c.size
  pub balanced : c'.mutex ≡ c.mutex ++ (lock ∷ unlock ∷ [])

-- One `memcpy`.
read_one :
    (c0 : CircBuf) (size : ℕ)
    → IsValid c0
    → size ≤ circ_cnt_to_end c0.head c0.tail c0.size
    → let (out, c1) = take_chunk (locked c0) size in Reads c0 size out size (unlocked c1)
read_one c0 size v0 fits =
    let c = locked c0 in
    let v : IsValid c = ground arith in
    let v1 : IsValid (take_chunk c size).1 = take_chunk-IsValid c v size fits in
    let l : length (take_chunk c size).0 ≡ size = length-take_chunk c v size fits in
    record {
      splits = take_chunk-contents c v size fits;
      amount = omega (arith, cnt_to_end-le-length c v);
      counted = sym l;
      valid = ground arith;
      same_size = refl;
      balanced = append_assoc c0.mutex (lock ∷ []) (unlock ∷ []);
    }

-- A `memcpy` up to the end of the storage, and one from its start.
read_two :
    (c0 : CircBuf) (size : ℕ)
    → IsValid c0
    → circ_cnt_to_end c0.head c0.tail c0.size < size
    → let n = circ_cnt_to_end c0.head c0.tail c0.size in
      let (out1, c1) = take_chunk (locked c0) n in
      let n' = circ_cnt_to_end c1.head c1.tail c1.size in
      let n2 = if leb n' (size - n) then n' else size - n in
      let (out2, c2) = take_chunk c1 n2 in Reads c0 size (out1 ++ out2) (n + n2) (unlocked c2)
read_two c0 size v0 over =
    let c = locked c0 in
    let v : IsValid c = ground arith in
    let n = circ_cnt_to_end c.head c.tail c.size in
    let c1 = (take_chunk c n).1 in
    let v1 : IsValid c1 = take_chunk-IsValid c v n (le_refl n) in
    let l1 : length (take_chunk c n).0 ≡ n = length-take_chunk c v n (le_refl n) in
    let n' = circ_cnt_to_end c1.head c1.tail c1.size in
    let n2 = if leb n' (size - n) then n' else size - n in
    let h2 : n2 ≤ n' = ground arith in
    let v2 : IsValid (take_chunk c1 n2).1 = take_chunk-IsValid c1 v1 n2 h2 in
    let l2 : length (take_chunk c1 n2).0 ≡ n2 = length-take_chunk c1 v1 n2 h2 in
    let s1 : contents c ≡ (take_chunk c n).0 ++ contents c1 =
      take_chunk-contents c v n (le_refl n) in
    let all : n' ≡ length (contents c1) = cnt_to_end-take_chunk c v in
    let sum : length ((take_chunk c n).0 ++ (take_chunk c1 n2).0) ≡ n + n2 =
      omega (arith, length-append (take_chunk c n).0 (take_chunk c1 n2).0) in
    let whole : length (contents c) ≡ n + length (contents c1) =
      omega (arith, ap length s1, length-append (take_chunk c n).0 (contents c1)) in
    record {
      splits =
          s1
          ∙ ap ((take_chunk c n).0 ++◌) (take_chunk-contents c1 v1 n2 h2)
          ∙ sym (append_assoc (take_chunk c n).0 (take_chunk c1 n2).0 _);
      amount = ground arith;
      counted = sym sum;
      valid = ground arith;
      same_size = refl;
      balanced = append_assoc c0.mutex (lock ∷ []) (unlock ∷ []);
    }

read-Reads : (c : CircBuf) (n : ℕ) → IsValid c → let (out, k, c') = read c n in Reads c n out k c'
unfolding read
read-Reads c0 size v0 = elim (Bool-cases (leb size (circ_cnt_to_end c0.head c0.tail c0.size))) [
  | inl fits ↦ rw fits (read_one c0 size v0 (leb→le _ _ fits))
  | inr over ↦ rw over (read_two c0 size v0 (ground arith))
]

-- On a valid ring `simple_circ_buf_read` delivers the oldest bytes, at most as many as were asked
-- for, returns their number, leaves the ring valid and of the same size holding the rest, and
-- takes and releases the lock once.
pub read_refines :
    (c : CircBuf) (n : ℕ)
    → IsValid c
    → let (out, k, c') = read c n in
      ((out, k, contents c') ≡ dequeue (contents c) n)
      × IsValid c'
      × (c'.size ≡ c.size)
      × (c'.mutex ≡ c.mutex ++ (lock ∷ unlock ∷ []))
read_refines c n v =
    let (out, k, c') = read c n in
    let r : Reads c n out k c' = read-Reads c n v in
    (
      rw r.counted (sym (prefix_dequeued (contents c) out (contents c') n r.splits r.amount)),
      r.valid,
      r.same_size,
      r.balanced,
    )
