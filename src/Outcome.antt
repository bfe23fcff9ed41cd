-- ===== src/Outcome.antt =====
-- What a piece of C code does: it returns, or it has undefined behaviour (a null pointer, a block
-- of negative length, memory that was never written), or it runs for ever.
use libsimple.Base.{◌≡◌, refl}

pub data Outcome {ℓ} (A : Type ℓ) : Type ℓ where
  done : A → Outcome A
  fault : Outcome A
  diverges : Outcome A

infixl 5 ◌>>=◌
abbrev pub ◌>>=◌ {ℓ κ} : {A : Type ℓ} {B : Type κ} → Outcome A → (A → Outcome B) → Outcome B
done a >>= f = f a
fault >>= f = fault
diverges >>= f = diverges

-- It ends, and the result has the property if the behaviour is defined.
abbrev pub Holds {ℓ} : {A : Type ℓ} → (A → Type 0) → Outcome A → Type 0
Holds P (done a) = P a
Holds P fault = Unit
Holds P diverges = ⊥

pub >>=_assoc {ℓ κ μ} :
    {A : Type ℓ} {B : Type κ} {C : Type μ} (m : Outcome A) (f : A → Outcome B) (g : B → Outcome C)
    → (m >>= f >>= g) ≡ (m >>= λ a. f a >>= g)
>>=_assoc (done a) f g = refl
>>=_assoc fault f g = refl
>>=_assoc diverges f g = refl

pub Holds-bind {ℓ κ} :
    {A : Type ℓ} {B : Type κ} (P : A → Type 0) (Q : B → Type 0) (m : Outcome A) (f : A → Outcome B)
    → Holds P m
    → ((a : A) → P a → Holds Q (f a))
    → Holds Q (m >>= f)
Holds-bind P Q (done a) f h k = k a h
Holds-bind P Q fault f h k = tt
Holds-bind P Q diverges f h k = h

pub bind-cong {ℓ κ} :
    {A : Type ℓ} {B : Type κ} (P : A → Type 0) (m : Outcome A) (f g : A → Outcome B)
    → Holds P m
    → ((a : A) → P a → f a ≡ g a)
    → m >>= f ≡ m >>= g
bind-cong P (done a) f g h k = k a h
bind-cong P fault f g h k = refl
bind-cong P diverges f g h k = absurd h

pub Holds-map {ℓ} :
    {A : Type ℓ} (P Q : A → Type 0) (m : Outcome A) → ((a : A) → P a → Q a) → Holds P m → Holds Q m
Holds-map P Q (done a) k h = k a h
Holds-map P Q fault k h = tt
Holds-map P Q diverges k h = h
