-- ===== src/Prelude/Result.antt =====
-- A call that may reach `YS__errmsg` (MemSys/util.c), which prints a message and ends the simulation.
use mathlib.Core.Path.{◌≡◌, refl, ap, ◌∙◌}

pub data Result {ℓ} (A : Type ℓ) : Type ℓ where
  ok : A → Result A
  fatal : Result A

infixl 5 ◌>>=◌
abbrev pub ◌>>=◌ {ℓ κ} : {A : Type ℓ} {B : Type κ} → Result A → (A → Result B) → Result B
ok a >>= f = f a
fatal >>= f = fatal

-- what holds of every result that is not fatal
abbrev pub OnOk {ℓ κ} : {A : Type ℓ} → (A → Type κ) → Result A → Type κ
OnOk P (ok a) = P a
OnOk P fatal = Unit

pub OnOk-eq {ℓ κ} : {A : Type ℓ} (P : A → Type κ) (m : Result A) (a : A) → m ≡ ok a → OnOk P m → P a
OnOk-eq P (ok b) a e h = let e' : b ≡ a = cc in rw e' at h
OnOk-eq P fatal a e h = cc

pub OnOk->>= {ℓ κ μ} :
    {A : Type ℓ} {B : Type κ} (P : B → Type μ) (m : Result A) (f : A → Result B)
    → ((a : A) → m ≡ ok a → OnOk P (f a))
    → OnOk P (m >>= f)
OnOk->>= P (ok a) f h = h a refl
OnOk->>= P fatal f h = tt

-- what holds of a result before a step, and after it
pub OnOk-bind {ℓ κ μ ν} :
    {A : Type ℓ} {B : Type κ} (P : B → Type μ) (Q : A → Type ν) (m : Result A) (f : A → Result B)
    → OnOk Q m
    → ((a : A) → Q a → OnOk P (f a))
    → OnOk P (m >>= f)
OnOk-bind P Q (ok a) f h k = k a h
OnOk-bind P Q fatal f h k = tt

-- that a call returns, and what holds of its result
abbrev pub Returns {ℓ κ} : {A : Type ℓ} → (A → Type κ) → Result A → Type (ℓ ⊔ κ)
Returns {A = A} P r = (a : A) × (r ≡ ok a) × P a

pub Returns-bind {ℓ κ μ ν} :
    {A : Type ℓ} {B : Type κ} (P : B → Type μ) (Q : A → Type ν) (m : Result A) (f : A → Result B)
    → Returns Q m
    → ((a : A) → Q a → Returns P (f a))
    → Returns P (m >>= f)
Returns-bind P Q m f (a, e, h) k = let (b, e', h') = k a h in (b, ap (λ r. r >>= f) e ∙ e', h')

pub OnOk-map {ℓ κ μ} :
    {A : Type ℓ} (P : A → Type κ) (Q : A → Type μ) (m : Result A)
    → ((a : A) → P a → Q a)
    → OnOk P m
    → OnOk Q m
OnOk-map P Q (ok a) h k = h a k
OnOk-map P Q fatal h k = tt
