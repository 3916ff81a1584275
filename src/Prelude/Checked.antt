-- ===== src/Prelude/Checked.antt =====
-- Results that carry an error, as `Result` and `?` run them.
use mathlib.Core.Path.{◌≡◌, subst}
use mathlib.Core.Bool.{Bool, true, false}
use mathlib.Core.Option.{Option, none, some}

pub data Checked {ℓ} (E : Type 0) (A : Type ℓ) : Type ℓ where
  bad : E → Checked E A
  good : A → Checked E A

infixl 5 ◌>>=◌
abbrev pub ◌>>=◌ {κ μ} :
    {E : Type 0} {Here : Type κ} {There : Type μ}
    → Checked E Here
    → (Here → Checked E There)
    → Checked E There
bad reason >>= onward = bad reason
good here >>= onward = onward here

infixl 5 ◌>>◌
abbrev pub ◌>>◌ {κ} :
    {E : Type 0} {There : Type κ} → Checked E (Unit {0}) → Checked E There → Checked E There
bad reason >> onward = bad reason
good passed >> onward = onward

-- An early return with the reason, if the test holds.
abbrev pub refuse_if : {E : Type 0} → Bool → E → Checked E (Unit {0})
refuse_if true reason = bad reason
refuse_if false reason = good tt

abbrev pub ok_or {κ} : {E : Type 0} {A : Type κ} → Option A → E → Checked E A
ok_or none reason = bad reason
ok_or (some a) reason = good a

-- What a result gives, if it is not an error, has the property.
abbrev pub Gives {κ μ} : {E : Type 0} {A : Type κ} → (A → Type μ) → Checked E A → Type μ
Gives P (bad reason) = Unit
Gives P (good a) = P a

pub Gives-elim {κ μ} :
    {E : Type 0} {A : Type κ} (P : A → Type μ) (result : Checked E A) {a : A}
    → Gives P result
    → result ≡ good a
    → P a
Gives-elim P result h e = subst (Gives P) e h

-- Behind a guard and behind a bind.
pub Gives-refuse_if {κ μ} :
    {E : Type 0} {A : Type κ} (P : A → Type μ) (stop : Bool) (reason : E) (onward : Checked E A)
    → Gives P onward
    → Gives P (refuse_if stop reason >> onward)
Gives-refuse_if P true reason onward h = tt
Gives-refuse_if P false reason onward h = h
