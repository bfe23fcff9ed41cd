-- ===== src/CircBuf/Write.antt =====
-- `simple_circ_buf_write` against `enqueue` of CircBuf/Spec.
use libsimple.Base.{
  ℕ, ◌+◌, ◌-◌, ◌≤◌, ◌<◌, min, ◌≡◌, ap, ◌∙◌, [], ◌∷◌, ◌++◌, append_assoc, Bytes, length, take, drop,
  length-append, length-take, length-drop, take_all, take-add, arith, leb, if◌then◌else◌,
  Bool-cases, inl, inr, leb→le, sym, refl,
}
use native.Mathlib.Decide.{dec_le}
use native.Mathlib.Nat.{le_refl}
use libsimple.Mutex.{lock, unlock}
use libsimple.CircBuf.{CircBuf, circ_space_to_end, put_chunk, locked, unlocked, write}
use libsimple.CircBuf.Bounds.{IsValid}
use libsimple.CircBuf.Chunk.{contents, put_chunk-IsValid, put_chunk-contents}
use libsimple.CircBuf.Ends.{space_to_end-le-room, space_to_end-put_chunk}
use libsimple.CircBuf.Spec.{enqueue}

-- What a call has done to a ring: the bytes, the invariant and the calls on the mutex.
record Writes (c : CircBuf) (from : Bytes) (k : ℕ) (c' : CircBuf) : Type 0 where
  pub stored : contents c' ≡ contents c ++ take k from
  pub amount : k ≡ min (length from) (c.size - 1 - length (contents c))
  pub valid : IsValid c'
  pub same_size : c'.size ≡ c.size
  pub balanced : c'.mutex ≡ c.mutex ++ (lock ∷ unlock ∷ [])

-- One `memcpy`.
write_one :
    (c0 : CircBuf) (from : Bytes)
    → IsValid c0
    → length from ≤ circ_space_to_end c0.head c0.tail c0.size
    → Writes c0 from (length from) (unlocked (put_chunk (locked c0) from))
write_one c0 from v0 fits =
    let c = locked c0 in
    let v : IsValid c = ground arith in
    let v1 : IsValid (put_chunk c from) = put_chunk-IsValid c v from fits in
    record {
      stored =
          rw (take_all (length from) from (le_refl (length from)))
            (put_chunk-contents c v from fits);
      amount = omega (arith, space_to_end-le-room c v);
      valid = ground arith;
      same_size = refl;
      balanced = append_assoc c0.mutex (lock ∷ []) (unlock ∷ []);
    }

-- A `memcpy` up to the end of the storage, and one from its start.
write_two :
    (c0 : CircBuf) (from : Bytes)
    → IsValid c0
    → circ_space_to_end c0.head c0.tail c0.size < length from
    → let n = circ_space_to_end c0.head c0.tail c0.size in
      let c1 = put_chunk (locked c0) (take n from) in
      let n' = circ_space_to_end c1.head c1.tail c1.size in
      let n2 = if leb n' (length from - n) then n' else length from - n in
      Writes c0 from (n + n2) (unlocked (put_chunk c1 (take n2 (drop n from))))
write_two c0 from v0 over =
    let c = locked c0 in
    let v : IsValid c = ground arith in
    let n = circ_space_to_end c.head c.tail c.size in
    let l1 : length (take n from) ≡ n = omega (arith, length-take n from) in
    let c1 = put_chunk c (take n from) in
    let v1 : IsValid c1 = put_chunk-IsValid c v (take n from) (omega arith) in
    let n' = circ_space_to_end c1.head c1.tail c1.size in
    let n2 = if leb n' (length from - n) then n' else length from - n in
    let part = take n2 (drop n from) in
    let l2 : length part ≡ n2 = ground (arith, length-take n2 (drop n from), length-drop n from) in
    let h2 : length part ≤ n' = ground arith in
    let v2 : IsValid (put_chunk c1 part) = put_chunk-IsValid c1 v1 part h2 in
    let s1 : contents c1 ≡ contents c ++ take n from =
      put_chunk-contents c v (take n from) (omega arith) in
    let room : n' ≡ c.size - 1 - length (contents c1) =
      space_to_end-put_chunk c v (take n from) l1 in
    let whole : length (contents c1) ≡ length (contents c) + n =
      omega (arith, ap length s1, length-append (contents c) (take n from)) in
    record {
      stored =
          put_chunk-contents c1 v1 part h2
          ∙ ap (◌++ part) s1
          ∙ append_assoc (contents c) (take n from) part
          ∙ ap (contents c ++◌) (sym (take-add n n2 from));
      amount = ground (arith, space_to_end-le-room c v);
      valid = ground arith;
      same_size = refl;
      balanced = append_assoc c0.mutex (lock ∷ []) (unlock ∷ []);
    }

write-Writes :
    (c : CircBuf) (from : Bytes) → IsValid c → let (k, c') = write c from in Writes c from k c'
unfolding write
write-Writes c0 from v0 =
    elim (Bool-cases (leb (length from) (circ_space_to_end c0.head c0.tail c0.size))) [
      | inl fits ↦ rw fits (write_one c0 from v0 (leb→le _ _ fits))
      | inr over ↦ rw over (write_two c0 from v0 (ground arith))
    ]

take-min : (from : Bytes) (room : ℕ) → take (min (length from) room) from ≡ take room from
take-min from room = elim (dec_le (length from) room) [
  | yes h ↦
      let e : min (length from) room ≡ length from = omega arith in
      rw (e, take_all (length from) from (le_refl (length from)), take_all room from h)
  | no h ↦ ap (λ k. take k from) (omega arith)
]

-- On a valid ring `simple_circ_buf_write` appends as many of the bytes as there is room for below
-- `size - 1`, returns their number, leaves the ring valid and of the same size, and takes and
-- releases the lock once.
pub write_refines :
    (c : CircBuf) (from : Bytes)
    → IsValid c
    → let (k, c') = write c from in
      ((k, contents c') ≡ enqueue (c.size - 1) (contents c) from)
      × IsValid c'
      × (c'.size ≡ c.size)
      × (c'.mutex ≡ c.mutex ++ (lock ∷ unlock ∷ []))
unfolding enqueue
write_refines c from v =
    let (k, c') = write c from in
    let w : Writes c from k c' = write-Writes c from v in
    (
      rw (w.stored, w.amount, take-min from (c.size - 1 - length (contents c))),
      w.valid,
      w.same_size,
      w.balanced,
    )
