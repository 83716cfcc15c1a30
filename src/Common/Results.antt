-- ===== src/Common/Results.antt =====
-- Chains of optional results, and what holds of a result.
use mathlib.Core.Path.{◌≡◌, refl}
use mathlib.Core.Bool.{Bool, true, false}
use mathlib.Core.Option.{Option, none, some}
use dax_kiro_proxy.Common.Tests.{if◌then◌else◌}

infixl 5 ◌>>=◌ ◌>>◌
abbrev pub ◌>>=◌ {ℓ κ} : {A : Type ℓ} {B : Type κ} → Option A → (A → Option B) → Option B
none >>= f = none
some a >>= f = f a

abbrev pub ◌>>◌ {ℓ} : {B : Type ℓ} → Option (Unit {0}) → Option B → Option B
m >> k = m >>= λ _. k

abbrev pub check : Bool → Option (Unit {0})
check true = some tt
check false = none

-- What holds of a result, if there is one.
abbrev pub Post {ℓ κ} : {A : Type ℓ} → (A → Type κ) → Option A → Type κ
Post P none = Unit
Post P (some a) = P a

pub bind-Post {ℓ κ μ ν} :
    {A : Type ℓ} {B : Type κ} (P : A → Type μ) (Q : B → Type ν) (m : Option A) (f : A → Option B)
    → Post P m
    → ((a : A) → P a → Post Q (f a))
    → Post Q (m >>= f)
bind-Post P Q none f h k = tt
bind-Post P Q (some a) f h k = k a h

pub skip-Post {ℓ κ μ} :
    {A : Type ℓ} {B : Type κ} (Q : B → Type μ) (m : Option A) (f : A → Option B)
    → ((a : A) → Post Q (f a))
    → Post Q (m >>= f)
skip-Post Q none f k = tt
skip-Post Q (some a) f k = k a

pub Post-mono {ℓ κ μ} :
    {A : Type ℓ} (P : A → Type κ) (Q : A → Type μ) (m : Option A)
    → Post P m
    → ((a : A) → P a → Q a)
    → Post Q m
Post-mono P Q none h k = tt
Post-mono P Q (some a) h k = k a h

pub if-Post {ℓ κ} :
    {A : Type ℓ} (Q : A → Type κ) (b : Bool) (m m' : Option A)
    → (b ≡ true → Post Q m)
    → (b ≡ false → Post Q m')
    → Post Q (if b then m else m')
if-Post Q true m m' h k = h refl
if-Post Q false m m' h k = k refl

pub some-Post {ℓ κ} :
    {A : Type ℓ} (P : A → Type κ) (m : Option A) → ((a : A) → m ≡ some a → P a) → Post P m
some-Post P none h = tt
some-Post P (some a) h = h a refl
