-- ===== src/Base/Outcomes.antt =====
-- The end of a call that may stop the process: aborted by LOG_ALWAYS_FATAL_IF or
-- ALOG_ALWAYS_FATAL_IF, or crashed by a call through a NULL pointer.
use mathlib.Core.Path.{◌≡◌, refl, sym, ap, subst}

pub data Outcome {ℓ} (A : Type ℓ) : Type ℓ where
  aborted : Outcome A
  crashed : Outcome A
  returned : A → Outcome A

infixl 5 ◌>>=◌
abbrev pub ◌>>=◌ {ℓ κ} : {A : Type ℓ} {B : Type κ} → Outcome A → (A → Outcome B) → Outcome B
aborted >>= f = aborted
crashed >>= f = crashed
returned a >>= f = f a

abbrev pub IsReturned {ℓ} : {A : Type ℓ} → Outcome A → Type 0
IsReturned aborted = ⊥
IsReturned crashed = ⊥
IsReturned (returned a) = Unit {0}

pub aborted≢returned {ℓ} : {A : Type ℓ} (a : A) → ¬ (returned a ≡ aborted)
aborted≢returned a h = subst IsReturned h tt

abbrev result_or {ℓ} : {A : Type ℓ} → A → Outcome A → A
result_or a aborted = a
result_or a crashed = a
result_or a (returned b) = b

pub returned_injective {ℓ} : {A : Type ℓ} {a b : A} → returned a ≡ returned b → a ≡ b
returned_injective {a = a} h = ap (result_or a) h

-- Inversion of a bind that returns.
pub >>=-returned {ℓ κ} :
    {A : Type ℓ} {B : Type κ} (m : Outcome A) (f : A → Outcome B) (b : B)
    → (m >>= f) ≡ returned b
    → (a : A) × (m ≡ returned a) × (f a ≡ returned b)
>>=-returned aborted f b h = absurd (subst IsReturned (sym h) tt)
>>=-returned crashed f b h = absurd (subst IsReturned (sym h) tt)
>>=-returned (returned a) f b h = (a, refl, h)

pub bind_returned {ℓ κ} :
    {A : Type ℓ} {B : Type κ} (m : Outcome A) (f : A → Outcome B) (a : A)
    → m ≡ returned a
    → (m >>= f) ≡ f a
bind_returned m f a h = ap (λ o. o >>= f) h
