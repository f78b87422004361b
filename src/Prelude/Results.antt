-- ===== src/Prelude/Results.antt =====
-- What a request ends with: a value, or the HTTP error that the handler throws.
use mathlib.Core.Path.{◌≡◌, refl}
use mathlib.Core.Bool.{Bool, true, false}
use mathlib.Core.Logic.{◌⊎◌, inl, inr}
use mathlib.Core.Option.{Option, none, some}

-- The exceptions of @nestjs/common that the services throw; `internal` stands for every other
-- error, which the framework reports as 500.
pub data Error : Type 0 where
  bad_request unauthorized not_found conflict too_many_requests service_unavailable internal : Error

-- `err` is a thrown exception.
pub data Result {ℓ} (A : Type ℓ) : Type ℓ where
  err : Error → Result A
  ok : A → Result A

module _ {ℓ κ} {A : Type ℓ} {B : Type κ} where
  infixl 5 ◌>>=◌
  -- An awaited call and what follows it.
  abbrev pub ◌>>=◌ : Result A → (A → Result B) → Result B
  r >>= next = elim r [ err e ↦ err e | ok a ↦ next a ]

module _ {ℓ} {B : Type ℓ} where
  infixl 5 ◌>>◌
  abbrev pub ◌>>◌ : Result (Unit {0}) → Result B → Result B
  err e >> next = err e
  ok _ >> next = next

-- `if (!test) throw e`
abbrev pub guard : Bool → Error → Result (Unit {0})
guard test e = elim test [ false ↦ err e | true ↦ ok tt ]

-- `if (!o) throw e`
abbrev pub require {ℓ} : {A : Type ℓ} → Option A → Error → Result A
require o e = elim o [ none ↦ err e | some a ↦ ok a ]

pub Result-cases {ℓ} :
    {A : Type ℓ} (r : Result A) → ((a : A) × (r ≡ ok a)) ⊎ ((e : Error) × (r ≡ err e))
Result-cases (ok a) = inl (a, refl)
Result-cases (err e) = inr (e, refl)
