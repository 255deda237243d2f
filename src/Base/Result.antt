-- ===== src/Base/Result.antt =====
-- A value or the text of an error, as Go's pairs of results.
use mathlib.Core.Path.{◌≡◌, refl}
use mathlib.Core.Logic.{◌⊎◌, inl, inr}
use wrapping_bot.Base.Bytes.{Bytes}

pub data Result {ℓ} (A : Type ℓ) : Type ℓ where
  ok : A → Result A
  error : Bytes → Result A

unfoldable pub ok_then {ℓ κ} : {A : Type ℓ} {B : Type κ} → Result A → (A → Result B) → Result B
ok_then (ok a) f = f a
ok_then (error text) f = error text

pub Result-cases {ℓ} :
    {A : Type ℓ} (r : Result A) → ((a : A) × (r ≡ ok a)) ⊎ ((text : Bytes) × (r ≡ error text))
Result-cases (ok a) = inl (a, refl)
Result-cases (error text) = inr (text, refl)

-- A chain succeeds where both its parts do.
pub ok_then-ok {ℓ κ} :
    {A : Type ℓ} {B : Type κ} (r : Result A) (f : A → Result B) (b : B)
    → ok_then r f ≡ ok b
    → (a : A) × (r ≡ ok a) × (f a ≡ ok b)
unfolding ok_then
ok_then-ok (ok a) f b e = (a, refl, e)
ok_then-ok (error text) f b e = absurd (cc)

pub ok_injective {ℓ} : {A : Type ℓ} {a b : A} → ok a ≡ ok b → a ≡ b
ok_injective e = cc

-- Chains are read from either end.
pub ok_then-ok_then {ℓ κ μ} :
    {A : Type ℓ} {B : Type κ} {C : Type μ} (r : Result A) (f : A → Result B) (g : B → Result C)
    (h : A → Result C)
    → ((a : A) → h a ≡ ok_then (f a) g)
    → ok_then r h ≡ ok_then (ok_then r f) g
unfolding ok_then
ok_then-ok_then (ok a) f g h same = same a
ok_then-ok_then (error text) f g h same = refl

pub error_ok {ℓ} : {A : Type ℓ} {text : Bytes} {a : A} → error text ≡ ok a → ⊥
error_ok e = cc
