-- ===== src/Tracking/Areas/Settle.antt =====
-- What area_changed of tmp/TeacherPtz.cpp does with a target that stands still.
use native.Mathlib.Nat.{suc-mul, lt-div-mul-add, mul_comm}
use libsimple.Base.{
  ℕ, zero, suc, ◌+◌, ◌*◌, ◌-◌, ◌/◌, ◌≤◌, ◌<◌, ◌≡◌, refl, sym, ◌∙◌, subst, inl, inr, true, false,
  some, ltb, leb, ◌==◌, Bool-cases, arith,
}
use libsimple.Base.Int.{pos, ltb_ℤ, ◌-ℤ◌}
use libsimple.Outcome.{Outcome, done, ◌>>=◌}
use libsimple.Tracking.Areas.{Areas, make_areas, segment_left, segment_right, area_changed}

-- area_changed with one offset, a number of times
unfoldable pub settle : ℕ → Areas → ℕ → ℕ → Outcome ℕ
settle zero a i offset = done i
settle (suc k) a i offset = area_changed a (some i) offset >>= λ r. settle k a r.0 offset

-- Whether an offset is in a segment, which neither reaches left of 0 nor over the right edge.
abbrev pub IsInside : Areas → ℕ → ℕ → Type 0
IsInside a i offset = (segment_left a i ≤ offset) × (ltb_ℤ (segment_right a i) (pos offset) ≡ false)

-- The areas reach as far as the offset, and the right edge does.
abbrev pub Reaches : Areas → ℕ → Type 0
Reaches a offset =
    (offset ≤ a.areas * a.area_length + a.overlap) × (ltb_ℤ a.right (pos offset) ≡ false)

-- a segment's right end, for an offset that the right edge is not left of
right_end :
    (a : Areas) (i offset : ℕ)
    → ltb_ℤ a.right (pos offset) ≡ false
    → ltb_ℤ (segment_right a i) (pos offset) ≡ ltb ((i + 1) * a.area_length + a.overlap) offset
unfolding segment_right
right_end a i offset h =
    elim (Bool-cases (ltb_ℤ a.right (pos ((i + 1) * a.area_length + a.overlap)))) [
      | inl cut ↦ rw cut (ground (arith, cut, h))
      | inr whole ↦ rw whole (ground arith)
    ]

-- one of the three cases of a call
stays :
    (a : Areas) (i offset : ℕ)
    → i < a.areas
    → IsInside a i offset
    → area_changed a (some i) offset ≡ done (i, false)
unfolding area_changed
stays a i offset h (l, r) =
    let within : ltb i a.areas ≡ true = ground arith in
    let right_of : ltb offset (segment_left a i) ≡ false = ground arith in
    rw (within, right_of, r) refl

falls :
    (a : Areas) (i offset : ℕ)
    → i < a.areas
    → ltb offset (segment_left a i) ≡ true
    → area_changed a (some i) offset ≡ done (i - 1, true)
unfolding area_changed
falls a i offset h l = let within : ltb i a.areas ≡ true = ground arith in rw (within, l) refl

rises :
    (a : Areas) (i offset : ℕ)
    → i < a.areas
    → ltb offset (segment_left a i) ≡ false
    → ltb_ℤ (segment_right a i) (pos offset) ≡ true
    → area_changed a (some i) offset ≡ done (i + 1, true)
unfolding area_changed
rises a i offset h l r = let within : ltb i a.areas ≡ true = ground arith in rw (within, l, r) refl

-- past a segment there is a next one, and it reaches left of the offset
next_in :
    (a : Areas) (i offset : ℕ)
    → Reaches a offset
    → i < a.areas
    → ltb_ℤ (segment_right a i) (pos offset) ≡ true
    → i + 1 < a.areas
next_in a i offset (h, e) l past = elim (Bool-cases (ltb (i + 1) a.areas)) [
  | inl next ↦ ground (arith, next)
  | inr last ↦
      let r = sym (right_end a i offset e) ∙ past in
      let n : a.areas ≡ i + 1 = ground (arith, last, l) in
      let m = subst (λ n. offset ≤ n * a.area_length + a.overlap) n h in ground (arith, r, m)
]

next_left :
    (a : Areas) (i offset : ℕ)
    → Reaches a offset
    → ltb_ℤ (segment_right a i) (pos offset) ≡ true
    → ltb offset (segment_left a (i + 1)) ≡ false
unfolding segment_left
next_left a i offset (h, e) past = let r = sym (right_end a i offset e) ∙ past in ground (arith, r)

-- Where a series of calls ends.
abbrev pub Settles : Areas → ℕ → Outcome ℕ → Type 0
Settles a offset m = (j : ℕ) × (m ≡ done j) × (j < a.areas) × IsInside a j offset

settle-inside :
    (k : ℕ) (a : Areas) (i offset : ℕ)
    → i < a.areas
    → IsInside a i offset
    → settle k a i offset ≡ done i
unfolding settle
settle-inside zero a i offset h s = refl
settle-inside (suc k) a i offset h s = rw (stays a i offset h s) (settle-inside k a i offset h s)

-- a place left of the offset is left for the next one, never for the one before
settle_up :
    (k : ℕ) (a : Areas) (i offset : ℕ)
    → Reaches a offset
    → i < a.areas
    → a.areas ≤ i + k
    → ltb offset (segment_left a i) ≡ false
    → Settles a offset (settle k a i offset)
unfolding settle
settle_up zero a i offset h l e s = absurd (omega arith)
settle_up (suc k) a i offset h l e s = elim (Bool-cases (ltb_ℤ (segment_right a i) (pos offset))) [
  | inl past ↦
      let next = next_in a i offset h l past in
      rw (rises a i offset l s past)
        (settle_up k a (i + 1) offset h next (omega arith) (next_left a i offset h past))
  | inr inside ↦
      let s' : IsInside a i offset = (ground (arith, s), inside) in
      (i, settle-inside (suc k) a i offset l s', l, s')
]

-- left of a segment there is one before it, and the offset is not right of that
before_right :
    (a : Areas) (i offset : ℕ)
    → ltb_ℤ a.right (pos offset) ≡ false
    → ltb offset (segment_left a i) ≡ true
    → (0 < i) × (ltb_ℤ (segment_right a (i - 1)) (pos offset) ≡ false)
unfolding segment_left
before_right a zero offset e past = ground (arith, past)
before_right a (suc i) offset e past =
    let m = suc-mul i a.area_length in
    let r = right_end a i offset e in
    let back : suc i - 1 ≡ i = omega arith in (omega arith, rw back (r ∙ ground (arith, m, past)))

settle_down :
    (k : ℕ) (a : Areas) (i offset : ℕ)
    → Reaches a offset
    → i < a.areas
    → i ≤ k
    → ltb_ℤ (segment_right a i) (pos offset) ≡ false
    → Settles a offset (settle k a i offset)
unfolding settle
settle_down zero a i offset h l e s = elim (Bool-cases (ltb offset (segment_left a i))) [
  | inl past ↦ let b = (before_right a i offset h.1 past).0 in absurd (omega arith)
  | inr inside ↦ let s' : IsInside a i offset = (ground (arith, inside), s) in (i, refl, l, s')
]
settle_down (suc k) a i offset h l e s = elim (Bool-cases (ltb offset (segment_left a i))) [
  | inl past ↦
      let b = before_right a i offset h.1 past in
      let p = b.0 in
      rw (falls a i offset l past)
        (settle_down k a (i - 1) offset h (omega arith) (omega arith) b.1)
  | inr inside ↦
      let s' : IsInside a i offset = (ground (arith, inside), s) in
      (i, settle-inside (suc k) a i offset l s', l, s')
]

settle-Settles :
    (a : Areas) (i offset : ℕ)
    → Reaches a offset
    → i < a.areas
    → Settles a offset (settle a.areas a i offset)
unfolding segment_left
settle-Settles a i offset h l = elim (Bool-cases (ltb offset (segment_left a i))) [
  | inl past ↦
      let m = suc-mul i a.area_length in
      let r = right_end a i offset h.1 in
      settle_down a.areas a i offset h l (omega arith) (r ∙ ground (arith, m, past))
  | inr right_of ↦ settle_up a.areas a i offset h l (omega arith) right_of
]

-- Where the room is at least `4 * n * n` wide, the areas that the constructor works out reach every
-- offset in it, though the width need not be a multiple of their number.
make_areas-Reaches :
    (left width n offset : ℕ)
    → 0 < n
    → n ≤ width / n / 4
    → offset ≤ width
    → Reaches (make_areas (pos left) (pos (left + width)) n) offset
      × ((make_areas (pos left) (pos (left + width)) n).areas ≡ n)
unfolding make_areas ◌-ℤ◌
make_areas-Reaches left width n offset some_areas wide h =
    let few : (n == 0) ≡ false = ground arith in
    let ordered : leb (0 + left) (left + width + 0) ≡ true = ground arith in
    let diff : left + width + 0 - (0 + left) ≡ width = omega arith in
    let all = lt-div-mul-add {a = width} some_areas in
    let turned = mul_comm n (width / n) in
    rw (few, ordered, diff) ((omega arith, ground (arith, h)), refl)

-- In a room of any width from `4 * n * n` on, with n areas, a target that stands still anywhere in
-- it is followed into a segment that holds its place: from any area, n calls of area_changed are
-- enough, and no index on the way is out of range.
pub area_changed-Settles :
    (left width n i offset : ℕ)
    → 0 < n
    → n ≤ width / n / 4
    → offset ≤ width
    → i < n
    → Settles
        (make_areas (pos left) (pos (left + width)) n)
        offset
        (settle n (make_areas (pos left) (pos (left + width)) n) i offset)
area_changed-Settles left width n i offset some_areas wide h l =
    let r = make_areas-Reaches left width n offset some_areas wide h in
    let a = make_areas (pos left) (pos (left + width)) n in
    subst (λ k. Settles a offset (settle k a i offset)) r.1
      (settle-Settles a i offset r.0 (subst (λ k. i < k) (sym r.1) l))
