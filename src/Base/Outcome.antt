-- ===== src/Base/Outcome.antt =====
-- What a Go function does: it returns, or it panics, or (a loop whose counter wraps) it never ends.
use mathlib.Core.Path.{◌≡◌, refl, ap}
use mathlib.Core.Option.{Option, none, some}

pub data Panic : Type 0 where
  divide_by_zero index_out_of_range make_negative nil_map nil_pointer : Panic
  -- `panic(...)` written in the source
  outside_window engine_collision encode_failed decode_failed ticker_started ticker_stopped : Panic

pub data Outcome {ℓ} (A : Type ℓ) : Type ℓ where
  ok : A → Outcome A
  panic : Panic → Outcome A
  diverges : Outcome A

-- `abbrev`, so that `ok a >>= f` computes wherever it stands.
infixl 5 ◌>>=◌
abbrev pub ◌>>=◌ {ℓ κ} : {A : Type ℓ} {B : Type κ} → Outcome A → (A → Outcome B) → Outcome B
ok a >>= f = f a
panic p >>= f = panic p
diverges >>= f = diverges

-- A use of a value that is nil if absent.
abbrev pub or_panic {ℓ} : {A : Type ℓ} → Panic → Option A → Outcome A
or_panic p none = panic p
or_panic p (some a) = ok a

-- Inversion of a bind that returns, for proofs where the parts stay shut.
pub >>=-eq-ok {ℓ κ} :
    {A : Type ℓ} {B : Type κ} (m : Outcome A) (f : A → Outcome B) (b : B)
    → (m >>= f) ≡ ok b
    → (a : A) × (m ≡ ok a) × (f a ≡ ok b)
>>=-eq-ok (ok a) f b h = (a, refl, h)
>>=-eq-ok (panic p) f b h = cc
>>=-eq-ok diverges f b h = cc

pub ok-injective {ℓ} : {A : Type ℓ} (a b : A) → ok a ≡ ok b → a ≡ b
ok-injective {A = A} a b h = ap value h
  where
    value : Outcome A → A
    value (ok x) = x
    value (panic p) = a
    value diverges = a
