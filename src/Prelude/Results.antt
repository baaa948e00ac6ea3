-- ===== src/Prelude/Results.antt =====
-- A computation that returns a value or throws an error of type `E`.
use mathlib.Core.Path.{◌≡◌, refl, ap, subst}
use mathlib.Core.Bool.{Bool, true, false}
use mathlib.Core.Option.{Option, none, some}

pub data Result {ℓ κ} (E : Type κ) (A : Type ℓ) : Type (ℓ ⊔ κ) where
  ok : A → Result E A
  err : E → Result E A

infixl 5 ◌>>=◌ ◌>>◌
abbrev pub ◌>>=◌ {ℓ κ ι} :
    {A : Type ℓ} {B : Type κ} {E : Type ι} (m : Result E A) (next : A → Result E B) → Result E B
ok value >>= next = next value
err thrown >>= next = err thrown

abbrev pub ◌>>◌ {ℓ ι} :
    {B : Type ℓ} {E : Type ι} (m : Result E (Unit {0})) (next : Result E B) → Result E B
m >> next = m >>= λ _. next

-- `if (bad) throw e`.
abbrev pub throw_if {ι} : {E : Type ι} → Bool → E → Result E (Unit {0})
throw_if true e = err e
throw_if false e = ok tt

-- A value that is needed: its absence is the given error.
abbrev pub need {ℓ ι} : {E : Type ι} {A : Type ℓ} → Option A → E → Result E A
need none e = err e
need (some a) e = ok a

-- Where a sequence succeeds, its first step did.
pub >>=-eq-ok {ℓ κ ι} :
    {E : Type ι} {A : Type ℓ} {B : Type κ} (m : Result E A) (next : A → Result E B) {r : B}
    → (m >>= next) ≡ ok r
    → (value : A) × (m ≡ ok value) × (next value ≡ ok r)
>>=-eq-ok (ok value) next done = (value, refl, done)
>>=-eq-ok (err thrown) next done = cc

pub throw_if-eq-ok {ι} :
    {E : Type ι} (b : Bool) (e : E) {u : Unit {0}} → throw_if b e ≡ ok u → b ≡ false
throw_if-eq-ok true e h = cc
throw_if-eq-ok false e h = refl

-- A result that was fetched and then checked.
pub checked-eq-ok {ℓ ι} :
    {E : Type ι} {A : Type ℓ} (m : Result E A) (is_bad : A → Bool) (e : E) {a : A}
    → (m >>= λ x. throw_if (is_bad x) e >> ok x) ≡ ok a
    → (m ≡ ok a) × (is_bad a ≡ false)
checked-eq-ok (err e') is_bad e h = cc
checked-eq-ok (ok x) is_bad e {a} h =
    let (u, quiet, done) = >>=-eq-ok (throw_if (is_bad x) e) (λ _. ok x) h in
    let same : x ≡ a = cc in
    (ap ok same, subst (λ y. is_bad y ≡ false) same (throw_if-eq-ok (is_bad x) e quiet))

-- A test that was passed, and what follows it.
pub passed {ℓ ι} :
    {E : Type ι} {A : Type ℓ} (is_bad : Bool) (e : E) (next : Result E A) {a : A}
    → (throw_if is_bad e >> next) ≡ ok a
    → (is_bad ≡ false) × (next ≡ ok a)
passed true e next h = cc
passed false e next h = (refl, h)

-- What holds of the value that is returned, if one is.
abbrev pub Ensures {ℓ κ ι} : {E : Type ι} {A : Type ℓ} → (A → Type κ) → Result E A → Type κ
Ensures P (ok value) = P value
Ensures P (err thrown) = Unit

module _ {ℓ κ ι} {E : Type ι} {A : Type ℓ} (P : A → Type κ) where
  pub Ensures-eq-ok : (m : Result E A) {a : A} → Ensures P m → m ≡ ok a → P a
  Ensures-eq-ok (ok value) h e = let same : value ≡ _ = cc in subst P same h
  Ensures-eq-ok (err thrown) h e = cc

  pub >>=-Ensures {μ ν} :
      {B : Type μ} (Q : B → Type ν) (m : Result E B) (next : B → Result E A)
      → Ensures Q m
      → ((value : B) → Q value → Ensures P (next value))
      → Ensures P (m >>= next)
  >>=-Ensures Q (ok value) next h then_P = then_P value h
  >>=-Ensures Q (err thrown) next h then_P = tt

  pub throw_if-Ensures :
      (is_bad : Bool) (e : E) (next : Result E A)
      → (is_bad ≡ false → Ensures P next)
      → Ensures P (throw_if is_bad e >> next)
  throw_if-Ensures true e next h = tt
  throw_if-Ensures false e next h = h refl

  pub >>=-Ensures_any {μ} :
      {B : Type μ} (m : Result E B) (next : B → Result E A)
      → ((value : B) → Ensures P (next value))
      → Ensures P (m >>= next)
  >>=-Ensures_any (ok value) next h = h value
  >>=-Ensures_any (err thrown) next h = tt

  pub need-Ensures {μ} :
      {B : Type μ} (o : Option B) (e : E) (next : B → Result E A)
      → ((b : B) → o ≡ some b → Ensures P (next b))
      → Ensures P (need o e >>= next)
  need-Ensures none e next h = tt
  need-Ensures (some b) e next h = h b refl

pub need_last-Ensures {ℓ ι} :
    {E : Type ι} {A : Type ℓ} (o : Option A) (e : E) → Ensures (λ a. o ≡ some a) (need o e)
need_last-Ensures none e = tt
need_last-Ensures (some a) e = refl

pub self-Ensures {ℓ ι} : {E : Type ι} {A : Type ℓ} (m : Result E A) → Ensures (λ a. m ≡ ok a) m
self-Ensures (ok a) = refl
self-Ensures (err e) = tt
