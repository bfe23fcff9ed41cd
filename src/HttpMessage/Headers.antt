-- ===== src/HttpMessage/Headers.antt =====
-- The header list of a message: what a value is found under after one is set or all are deleted.
use libsimple.Base.{
  ◌≤◌, ◌<◌, ◌≡◌, ◌≢◌, refl, true, none, some, List, [], ◌∷◌, Bytes, length, if◌then◌else◌, arith,
  Bool-cases, inl, inr,
}
use libsimple.Clib.Text.{strcaseeq, strcaseeq_iff}
use libsimple.HttpMessage.{
  HttpMessage, HttpHeader, set_value, find_value, get_value, delete_values, del_value,
}

-- The two ways to compare keys agree, and keys that match the same key match each other.
pub strcaseeq_sym : (a b : Bytes) → strcaseeq a b ≡ strcaseeq b a
strcaseeq_sym a b = ground (arith, strcaseeq_iff a b, strcaseeq_iff b a)

strcaseeq_trans : (a b c : Bytes) → strcaseeq a b ≡ true → strcaseeq a c ≡ strcaseeq b c
strcaseeq_trans a b c h = ground (arith, strcaseeq_iff a b, strcaseeq_iff a c, strcaseeq_iff b c)

-- `httpc_Message_getValue` after `httpc_Message_setValue`: the new value under every spelling of
-- its key, whatever was there, and the old answer under any other key.
pub get_value-set_value :
    (msg : HttpMessage) (key value key' : Bytes)
    → get_value (set_value msg key value) key'
      ≡ (if strcaseeq key key' then some value else get_value msg key')
unfolding get_value set_value find_value
get_value-set_value msg key value key' = refl

find_value-delete_values :
    (headers : List HttpHeader) (key key' : Bytes)
    → find_value (delete_values headers key) key'
      ≡ (if strcaseeq key key' then none else find_value headers key')
unfolding find_value delete_values
find_value-delete_values [] key key' = ground arith
find_value-delete_values (h ∷ headers) key key' = elim (Bool-cases (strcaseeq h.key key)) [
  | inl hit ↦
      rw hit
        (ground (arith, find_value-delete_values headers key key', strcaseeq_trans h.key key key'))
  | inr miss ↦ rw miss (
      ground (
        arith,
        find_value-delete_values headers key key',
        strcaseeq_sym key key',
        strcaseeq_sym h.key key',
        strcaseeq_trans key' key h.key,
        strcaseeq_sym h.key key,
        strcaseeq_trans key key' h.key,
      ))
]

-- `httpc_Message_delValue` deletes every value of its key, in all spellings, and no other.
pub get_value-del_value :
    (msg : HttpMessage) (key key' : Bytes)
    → get_value (del_value msg key) key' ≡ (if strcaseeq key key' then none else get_value msg key')
unfolding get_value del_value
get_value-del_value msg key key' = find_value-delete_values msg.headers key key'

-- `header_cnt` is the number of headers.
abbrev pub IsCounted : HttpMessage → Type 0
IsCounted msg = msg.header_cnt ≡ length msg.headers

pub set_value-IsCounted :
    (msg : HttpMessage) (key value : Bytes) → IsCounted msg → IsCounted (set_value msg key value)
unfolding set_value
set_value-IsCounted msg key value h = omega arith

length-delete_values :
    (headers : List HttpHeader) (key : Bytes) → length (delete_values headers key) ≤ length headers
unfolding delete_values
length-delete_values [] key = omega arith
length-delete_values (h ∷ headers) key = ground (arith, length-delete_values headers key)

delete_values-lt :
    (headers : List HttpHeader) (key : Bytes)
    → find_value headers key ≢ none
    → length (delete_values headers key) < length headers
unfolding find_value delete_values
delete_values-lt [] key h = absurd (h refl)
delete_values-lt (x ∷ headers) key h =
    ground (arith, delete_values-lt headers key, length-delete_values headers key)

-- `httpc_Message_delValue` does not count down: on a message whose count is right, a deletion that
-- deletes something leaves `header_cnt` greater than the number of headers.
pub del_value-not-IsCounted :
    (msg : HttpMessage) (key : Bytes)
    → IsCounted msg
    → get_value msg key ≢ none
    → length (del_value msg key).headers < (del_value msg key).header_cnt
unfolding get_value del_value
del_value-not-IsCounted msg key c h = omega (arith, delete_values-lt msg.headers key h)
