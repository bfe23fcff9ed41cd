-- ===== src/HttpServer/Send.antt =====
-- send_data of httpsrv/httprequest.c.
use libsimple.Base.{
  ℕ, zero, suc, ◌+◌, ◌<◌, ◌≡◌, ◌⊎◌, inl, inr, refl, ap, sym, ◌∙◌, Option, some, List, [], ◌∷◌, ◌++◌,
  Bytes, length, take, drop, take-append-drop, append_assoc, take-add, arith,
}
use libsimple.Base.Int.{ℤ, pos, minus_one}
use libsimple.HttpServer.{SockSend, accepts, fails, Sending, send_data}

-- How many bytes a connection takes, in all, before it fails.
abbrev pub capacity : List SockSend → ℕ
capacity [] = 0
capacity (fails ∷ evs) = 0
capacity (accepts zero ∷ evs) = 0
capacity (accepts (suc n) ∷ evs) = suc (n + capacity evs)

take-nil : (n : ℕ) → take {A = ℕ} n [] ≡ []
take-nil zero = refl
take-nil (suc n) = refl

-- What send_data has sent is as much of its data as the connection takes.
pub send_data-capacity :
    (evs : List SockSend) (from : Bytes) → (send_data evs from).wire ≡ take (capacity evs) from
unfolding send_data
send_data-capacity [] [] = refl
send_data-capacity [] (c ∷ from) = refl
send_data-capacity (ev ∷ evs) [] = sym (take-nil (capacity (ev ∷ evs)))
send_data-capacity (fails ∷ evs) (c ∷ from) = refl
send_data-capacity (accepts zero ∷ evs) (c ∷ from) = refl
send_data-capacity (accepts (suc n) ∷ evs) (c ∷ from) =
    ap (λ l. c ∷ (take n from ++ l)) (send_data-capacity evs (drop n from))
    ∙ ap (c ∷◌) (sym (take-add n (capacity evs) from))

-- The connection fails at some point.
abbrev pub HasFailure : List SockSend → Type 0
HasFailure [] = ⊥
HasFailure (fails ∷ evs) = Unit
HasFailure (accepts zero ∷ evs) = Unit
HasFailure (accepts (suc n) ∷ evs) = HasFailure evs

-- Why less than all has been sent: the connection has failed, and the result is -1; or it has done all
-- that it does, and the result is still awaited.
abbrev pub IsStopped : List SockSend → List SockSend → Option ℤ → Type 0
IsStopped evs left result =
    ((result ≡ some minus_one) × HasFailure evs) ⊎ ((result ≡ Option.none) × (left ≡ []))

-- What has been sent: all, and the result is 0; or less, and it is not.
pub record IsSent (evs : List SockSend) (from : Bytes) (r : Sending) : Type 0 where
  pub rest : Bytes
  pub prefix : r.wire ++ rest ≡ from
  pub outcome :
      ((rest ≡ []) × (r.result ≡ some (pos 0)))
      ⊎ ((0 < length rest) × IsStopped evs r.left r.result)
  pub fails_before : HasFailure r.left → HasFailure evs

-- However the connection behaves, what send_data (and the loop of send_res) has sent is a prefix of
-- its data, in order: all of it, and the result is 0; or less, and the result is -1 or it waits.
pub send_data-IsSent : (evs : List SockSend) (from : Bytes) → IsSent evs from (send_data evs from)
unfolding send_data
send_data-IsSent [] [] = record {
  rest = [];
  prefix = refl;
  outcome = inl (refl, refl);
  fails_before = λ h. h;
}
send_data-IsSent (ev ∷ evs) [] = record {
  rest = [];
  prefix = refl;
  outcome = inl (refl, refl);
  fails_before = λ h. h;
}
send_data-IsSent [] (c ∷ from) = record {
  rest = c ∷ from;
  prefix = refl;
  outcome = inr (omega arith, inr (refl, refl));
  fails_before = λ h. h;
}
send_data-IsSent (fails ∷ evs) (c ∷ from) = record {
  rest = c ∷ from;
  prefix = refl;
  outcome = inr (omega arith, inl (refl, tt));
  fails_before = λ h. tt;
}
send_data-IsSent (accepts zero ∷ evs) (c ∷ from) = record {
  rest = c ∷ from;
  prefix = refl;
  outcome = inr (omega arith, inl (refl, tt));
  fails_before = λ h. tt;
}
send_data-IsSent (accepts (suc n) ∷ evs) (c ∷ from) =
    let q : IsSent evs (drop n from) (send_data evs (drop n from)) =
      send_data-IsSent evs (drop n from) in
    record {
      rest = q.rest;
      prefix =
          append_assoc (c ∷ take n from) (send_data evs (drop n from)).wire q.rest
          ∙ ap ((c ∷ take n from) ++◌) q.prefix
          ∙ ap (c ∷◌) (take-append-drop n from);
      outcome = q.outcome;
      fails_before = q.fails_before;
    }
