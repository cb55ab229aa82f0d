-- ===== src/Base/Calls.antt =====
-- How a C++ call ends.
use mathlib.Core.Path.{◌≡◌, refl}
use mathlib.Core.Logic.{◌≢◌}
use Prim.Native.Nat.{ℕ, zero, suc}
use mathlib.Core.List.{List, [], ◌∷◌}
use mathlib.Core.Option.{Option, none, some}

pub data Outcome {ℓ} (A : Type ℓ) : Type ℓ where
  returned : A → Outcome A
  -- `std::out_of_range` is thrown. Nothing in the program catches it: it ends the process.
  threw : Outcome A
  -- The behaviour is undefined, as for an index out of bounds.
  undefined : Outcome A

infixl 5 ◌>>=◌
abbrev pub ◌>>=◌ {ℓ κ} : {A : Type ℓ} {B : Type κ} → Outcome A → (A → Outcome B) → Outcome B
returned a >>= f = f a
threw >>= f = threw
undefined >>= f = undefined

pub >>=-eq-returned {ℓ κ} :
    {A : Type ℓ} {B : Type κ} (m : Outcome A) (f : A → Outcome B) {b : B}
    → (m >>= f) ≡ returned b
    → (a : A) × (m ≡ returned a) × (f a ≡ returned b)
>>=-eq-returned (returned a) f h = (a, refl, h)
>>=-eq-returned threw f h = cc
>>=-eq-returned undefined f h = cc

pub bind_assoc {ℓ κ μ} :
    {A : Type ℓ} {B : Type κ} {C : Type μ} (m : Outcome A) (f : A → Outcome B) (g : B → Outcome C)
    → (m >>= f >>= g) ≡ (m >>= λ a. f a >>= g)
bind_assoc (returned a) f g = refl
bind_assoc threw f g = refl
bind_assoc undefined f g = refl

pub bind-returned {ℓ} : {A : Type ℓ} (m : Outcome A) → (m >>= λ a. returned a) ≡ m
bind-returned (returned a) = refl
bind-returned threw = refl
bind-returned undefined = refl

abbrev pub and_then {ℓ κ} : {A : Type ℓ} {B : Type κ} → Option A → (A → Option B) → Option B
and_then none f = none
and_then (some a) f = f a

-- `operator[]` of `std::vector`
abbrev pub at {ℓ} : {A : Type ℓ} → List A → ℕ → Outcome A
at [] i = undefined
at (x ∷ xs) zero = returned x
at (x ∷ xs) (suc i) = at xs i

-- Two continuations that agree on what a call returns.
pub bind_cong {ℓ κ} :
    {A : Type ℓ} {B : Type κ} (m : Outcome A) (f g : A → Outcome B)
    → ((a : A) → m ≡ returned a → f a ≡ g a)
    → (m >>= f) ≡ (m >>= g)
bind_cong (returned a) f g h = h a refl
bind_cong threw f g h = refl
bind_cong undefined f g h = refl

-- The call returns or throws.
abbrev pub IsDefined {ℓ} : {A : Type ℓ} → Outcome A → Type ℓ
IsDefined m = m ≢ undefined

pub bind-IsDefined {ℓ κ} :
    {A : Type ℓ} {B : Type κ} (m : Outcome A) (f : A → Outcome B)
    → IsDefined m
    → ((a : A) → m ≡ returned a → IsDefined (f a))
    → IsDefined (m >>= f)
bind-IsDefined (returned a) f h g = g a refl
bind-IsDefined threw f h g = λ p. cc
bind-IsDefined undefined f h g = absurd (h refl)

pub returned-IsDefined {ℓ} : {A : Type ℓ} (a : A) → IsDefined (returned a)
returned-IsDefined a = λ p. cc

pub bind-eq-undefined {ℓ κ} :
    {A : Type ℓ} {B : Type κ} (m : Outcome A) (f : A → Outcome B)
    → IsDefined m
    → (m >>= f) ≡ undefined
    → (a : A) × (m ≡ returned a) × (f a ≡ undefined)
bind-eq-undefined (returned a) f h p = (a, refl, p)
bind-eq-undefined threw f h p = cc
bind-eq-undefined undefined f h p = absurd (h refl)
