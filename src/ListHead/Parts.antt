-- ===== src/ListHead/Parts.antt =====
-- Two nodes of a list with others between them: which addresses of a distinct list differ.
use libsimple.Base.{ℕ, ◌≡◌, ◌≢◌, refl, sym, List, [], ◌∷◌, ◌++◌}
use libsimple.Clib.Text.{Lacks}
use libsimple.ListHead.{Links}
use libsimple.ListHead.Addresses.{
  Apart, Distinct, Distinct-append, Apart-sym, Apart-split, Lacks-append,
}
use libsimple.ListHead.Ring.{Forth}
use libsimple.ListHead.Walk.{start_of}

-- the last address of a stretch that begins at `p`
abbrev pub last_of : ℕ → List ℕ → ℕ
last_of p [] = p
last_of p (x ∷ xs) = last_of x xs

pub Forth-last_of : (h : Links) (p : ℕ) (xs : List ℕ) (l : ℕ) → Forth h p xs l → l ≡ last_of p xs
Forth-last_of h p [] l w = sym w
Forth-last_of h p (x ∷ xs) l w = Forth-last_of h x xs l w.1

pub last_of-append :
    (p : ℕ) (xs : List ℕ) (y : ℕ) (ys : List ℕ) → last_of p (xs ++ (y ∷ ys)) ≡ last_of y ys
last_of-append p [] y ys = refl
last_of-append p (x ∷ xs) y ys = last_of-append x xs y ys

last_of-Lacks : (p : ℕ) (xs zs : List ℕ) → Apart (p ∷ xs) zs → Lacks (last_of p xs) zs
last_of-Lacks p [] zs a = a.0
last_of-Lacks p (x ∷ xs) zs a = last_of-Lacks x xs zs a.1

start_of-Lacks : (c : ℕ) (zs : List ℕ) (head : ℕ) → Lacks c zs → head ≢ c → start_of zs head ≢ c
start_of-Lacks c [] head o n = n
start_of-Lacks c (z ∷ zs) head o n = o.0

-- Where no two of the nodes and of their neighbours on one side are the same.
pub record Separate (p a n q b m : ℕ) : Type 0 where
  pub p_a : p ≢ a
  pub p_q : p ≢ q
  pub p_b : p ≢ b
  pub a_q : a ≢ q
  pub a_b : a ≢ b
  pub q_b : q ≢ b
  pub n_a : n ≢ a
  pub n_b : n ≢ b
  pub n_m : n ≢ m
  pub a_m : a ≢ m
  pub b_m : b ≢ m

-- What the distinct nodes of the list give for the two nodes and the stretches around them.
pub record Parts (head : ℕ) (xs : List ℕ) (a y : ℕ) (ys : List ℕ) (b : ℕ) (zs : List ℕ)
    : Type 0 where
  pub a_xs : Lacks a (head ∷ xs)
  pub b_xs : Lacks b (head ∷ xs)
  pub a_ys : Lacks a (y ∷ ys)
  pub b_ys : Lacks b (y ∷ ys)
  pub a_zs : Lacks a zs
  pub b_zs : Lacks b zs
  pub y_zs : Lacks y zs
  pub a_b : b ≢ a
  pub head_y : head ≢ y
  pub xs_ys : Apart (head ∷ xs) (y ∷ ys)

pub Distinct-Parts :
    (head : ℕ) (xs : List ℕ) (a y : ℕ) (ys : List ℕ) (b : ℕ) (zs : List ℕ)
    → Distinct (head ∷ (xs ++ (a ∷ ((y ∷ ys) ++ (b ∷ zs)))))
    → Parts head xs a y ys b zs
Distinct-Parts head xs a y ys b zs d =
    let hs = head ∷ xs in
    let (front, back, apart) = Distinct-append hs (a ∷ ((y ∷ ys) ++ (b ∷ zs))) d in
    let (a_ys, a_rest) = Lacks-append a (y ∷ ys) (b ∷ zs) back.0 in
    let (mid, last, mid_last) = Distinct-append (y ∷ ys) (b ∷ zs) back.1 in
    let (with_a, with_rest) = Apart-split hs (a ∷ []) ((y ∷ ys) ++ (b ∷ zs)) apart in
    let (with_ys, with_last) = Apart-split hs (y ∷ ys) (b ∷ zs) with_rest in
    let turned = Apart-sym hs (b ∷ zs) with_last in
    record {
      a_xs = (Apart-sym hs (a ∷ []) with_a).0;
      b_xs = turned.0;
      a_ys = a_ys;
      b_ys = (Apart-sym (y ∷ ys) (b ∷ zs) mid_last).0;
      a_zs = a_rest.1;
      b_zs = last.0;
      y_zs = mid_last.0.1;
      a_b = a_rest.0;
      head_y = (Apart-sym hs (y ∷ ys) with_ys).0.0;
      xs_ys = with_ys;
    }

pub Parts-Separate :
    (head : ℕ) (xs : List ℕ) (a y : ℕ) (ys : List ℕ) (b : ℕ) (zs : List ℕ)
    → Parts head xs a y ys b zs
    → Separate (last_of head xs) a y (last_of y ys) b (start_of zs head)
Parts-Separate head xs a y ys b zs v =
    let p = last_of head xs in
    let q = last_of y ys in
    let hs = head ∷ xs in
    let off = λ (c : ℕ) (o : Lacks c hs).
      (last_of-Lacks head xs (c ∷ []) (Apart-sym (c ∷ []) hs (o, tt))).0 in
    let off' = λ (c : ℕ) (o : Lacks c (y ∷ ys)).
      (last_of-Lacks y ys (c ∷ []) (Apart-sym (c ∷ []) (y ∷ ys) (o, tt))).0 in
    let q_xs : Lacks q hs = last_of-Lacks y ys hs (Apart-sym hs (y ∷ ys) v.xs_ys) in
    record {
      p_a = λ e. off a v.a_xs (sym e);
      p_q = λ e. off q q_xs (sym e);
      p_b = λ e. off b v.b_xs (sym e);
      a_q = off' a v.a_ys;
      a_b = λ e. v.a_b (sym e);
      q_b = λ e. off' b v.b_ys (sym e);
      n_a = v.a_ys.0;
      n_b = v.b_ys.0;
      n_m = λ e. start_of-Lacks y zs head v.y_zs v.head_y (sym e);
      a_m = λ e. start_of-Lacks a zs head v.a_zs v.a_xs.0 (sym e);
      b_m = λ e. start_of-Lacks b zs head v.b_zs v.b_xs.0 (sym e);
    }
