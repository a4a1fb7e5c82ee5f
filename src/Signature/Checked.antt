-- ===== src/Signature/Checked.antt =====
-- How an evaluation in signature_checker.h ends: with a value, with an empty ConstexprOptional, or
-- by a failed X_ASSERT, which halts the compilation. PARSE_FAILURE is one of the last two, by the
-- macro PARSE_FAILURES_NONFATAL.
use platform_libnativehelper.Base.{Bool, true, false, ◌≡◌, refl, ◌≢◌}

-- `spent` belongs to the model only: a loop ran out of fuel.
pub data Checked {ℓ} (A : Type ℓ) : Type ℓ where
  ok : A → Checked A
  null halt spent : Checked A

infixl 5 ◌>>=◌ ◌>>◌
abbrev pub ◌>>=◌ {ℓ κ} : {A : Type ℓ} {B : Type κ} → Checked A → (A → Checked B) → Checked B
ok a >>= f = f a
null >>= f = null
halt >>= f = halt
spent >>= f = spent

abbrev pub ◌>>◌ {ℓ} : {B : Type ℓ} → Checked (Unit {0}) → Checked B → Checked B
m >> k = m >>= λ _. k

-- X_ASSERT
abbrev pub x_assert : Bool → Checked (Unit {0})
x_assert true = ok tt
x_assert false = halt

-- Whether PARSE_FAILURES_NONFATAL is defined.
pub data Mode : Type 0 where
  nonfatal fatal : Mode

-- PARSE_FAILURE
unfoldable pub parse_failure {ℓ} : {A : Type ℓ} → Mode → Checked A
parse_failure nonfatal = null
parse_failure fatal = halt

-- PARSE_ASSERT and PARSE_ASSERT_MSG
abbrev pub parse_assert : Mode → Bool → Checked (Unit {0})
parse_assert m true = ok tt
parse_assert m false = parse_failure m

pub parse_failure-ne-ok {ℓ} : {A : Type ℓ} (m : Mode) (a : A) → parse_failure m ≢ ok a
unfolding parse_failure
parse_failure-ne-ok nonfatal a = λ e. cc
parse_failure-ne-ok fatal a = λ e. cc

-- A failure goes through the rest of a chain unchanged.
pub parse_failure->>= {ℓ κ} :
    {A : Type ℓ} {B : Type κ} (m : Mode) (f : A → Checked B)
    → (parse_failure m >>= f) ≡ parse_failure m
unfolding parse_failure
parse_failure->>= nonfatal f = refl
parse_failure->>= fatal f = refl
