-- ===== src/Base/Outcomes.antt =====
-- The outcome of a handler: a value, a crash of the process, or a loop that used up its fuel.
use mathlib.Core.Path.{◌≡◌, refl, subst, ap, ◌∙◌}
use mathlib.Core.Logic.{◌⊎◌, inl, inr}
use mathlib.Core.Bool.{Bool, true, false}
use banyan.Base.Tests.{if◌then◌else◌}

-- Why a process stops: an index out of range, a nil dereference, an assignment to an entry of a nil
-- map, a fatal error, or a call of `panic`.
pub data Fault : Type 0 where
  index_out_of_range nil_dereference nil_map fatal explicit : Fault

pub data Outcome {ℓ} (A : Type ℓ) : Type ℓ where
  ok : A → Outcome A
  panic : Fault → Outcome A
  starved : Outcome A

-- What follows a crash or a loop out of fuel does not run.
infixl 5 ◌>>=◌
abbrev pub ◌>>=◌ {ℓ μ} : {A : Type ℓ} {C : Type μ} → Outcome A → (A → Outcome C) → Outcome C
panic fault >>= next = panic fault
starved >>= next = starved
ok x >>= next = next x

pub >>=-eq-ok {ℓ μ} :
    {A : Type ℓ} {C : Type μ} (run : Outcome A) (next : A → Outcome C) {c : C}
    → (run >>= next) ≡ ok c
    → (x : A) × (run ≡ ok x) × (next x ≡ ok c)
>>=-eq-ok starved next h = absurd (cc)
>>=-eq-ok (panic fault) next h = absurd (cc)
>>=-eq-ok (ok x) next h = (x, refl, h)

-- To split on a run and keep the equation.
pub Outcome-cases {ℓ} :
    {A : Type ℓ} (m : Outcome A)
    → ((a : A) × (m ≡ ok a)) ⊎ (((e : Fault) × (m ≡ panic e)) ⊎ (m ≡ starved))
Outcome-cases (ok a) = inl (a, refl)
Outcome-cases (panic e) = inr (inl (e, refl))
Outcome-cases starved = inr (inr refl)

pub ok-injective {ℓ} : {A : Type ℓ} {a b : A} → ok a ≡ ok b → a ≡ b
ok-injective h = cc

abbrev pub is_ok {ℓ} : {A : Type ℓ} → Outcome A → Bool
is_ok (ok a) = true
is_ok (panic e) = false
is_ok starved = false

pub >>=-is_ok {ℓ μ} :
    {A : Type ℓ} {C : Type μ} (run : Outcome A) (next : A → Outcome C)
    → ((x : A) → is_ok (next x) ≡ true)
    → is_ok (run >>= next) ≡ is_ok run
>>=-is_ok (ok x) next h = h x
>>=-is_ok (panic fault) next h = refl
>>=-is_ok starved next h = refl

-- What holds of every value that a run returns.
abbrev pub Returns {ℓ κ} : {A : Type ℓ} → (A → Type κ) → Outcome A → Type κ
Returns P (ok a) = P a
Returns P (panic e) = Unit
Returns P starved = Unit

-- The run does not use up its fuel, and what it returns satisfies the predicate.
abbrev pub Ends {ℓ} : {A : Type ℓ} → (A → Type 0) → Outcome A → Type 0
Ends P (ok a) = P a
Ends P (panic e) = Unit
Ends P starved = ⊥

pub Ends-bind {ℓ κ} :
    {A : Type ℓ} {B : Type κ} (P : A → Type 0) (Q : B → Type 0) (m : Outcome A) (f : A → Outcome B)
    → Ends P m
    → ((a : A) → P a → Ends Q (f a))
    → Ends Q (m >>= f)
Ends-bind P Q (ok a) f h k = k a h
Ends-bind P Q (panic e) f h k = tt
Ends-bind P Q starved f h k = absurd h

pub Ends-map {ℓ} :
    {A : Type ℓ} (P Q : A → Type 0) (m : Outcome A) → Ends P m → ((a : A) → P a → Q a) → Ends Q m
Ends-map P Q (ok a) h k = k a h
Ends-map P Q (panic e) h k = tt
Ends-map P Q starved h k = h

pub Ends-not_starved {ℓ} :
    {A : Type ℓ} (P : A → Type 0) (m : Outcome A) → Ends P m → ¬ (m ≡ starved)
Ends-not_starved P (ok a) h = λ e. cc
Ends-not_starved P (panic x) h = λ e. cc
Ends-not_starved P starved h = λ e. h

-- The run returns, and what it returns satisfies the predicate.
abbrev pub Gives {ℓ} : {A : Type ℓ} → (A → Type 0) → Outcome A → Type 0
Gives P (ok a) = P a
Gives P (panic e) = ⊥
Gives P starved = ⊥

pub Gives-map {ℓ} :
    {A : Type ℓ} (P Q : A → Type 0) (m : Outcome A) → Gives P m → ((a : A) → P a → Q a) → Gives Q m
Gives-map P Q (ok a) h k = k a h
Gives-map P Q (panic e) h k = h
Gives-map P Q starved h k = h

pub Gives-bind {ℓ κ} :
    {A : Type ℓ} {B : Type κ} (P : A → Type 0) (Q : B → Type 0) (m : Outcome A) (f : A → Outcome B)
    → Gives P m
    → ((a : A) → P a → Gives Q (f a))
    → Gives Q (m >>= f)
Gives-bind P Q (ok a) f h k = k a h
Gives-bind P Q (panic e) f h k = absurd h
Gives-bind P Q starved f h k = absurd h

pub Returns-bind {ℓ κ μ} :
    {A : Type ℓ} {B : Type κ} (P : A → Type μ) (Q : B → Type μ) (m : Outcome A) (f : A → Outcome B)
    → Returns P m
    → ((a : A) → P a → Returns Q (f a))
    → Returns Q (m >>= f)
Returns-bind P Q (ok a) f h k = k a h
Returns-bind P Q (panic e) f h k = tt
Returns-bind P Q starved f h k = tt

pub Returns-map {ℓ κ μ} :
    {A : Type ℓ} (P : A → Type κ) (Q : A → Type μ) (m : Outcome A)
    → Returns P m
    → ((a : A) → P a → Q a)
    → Returns Q m
Returns-map P Q (ok a) h k = k a h
Returns-map P Q (panic e) h k = tt
Returns-map P Q starved h k = tt

pub Returns-at {ℓ κ} :
    {A : Type ℓ} (P : A → Type κ) (m : Outcome A) (a : A) → Returns P m → m ≡ ok a → P a
Returns-at P (ok b) a h e = subst P (ok-injective e) h
Returns-at P (panic e) a h k = absurd (cc)
Returns-at P starved a h k = absurd (cc)

pub Returns-both {ℓ κ μ} :
    {A : Type ℓ} (P : A → Type κ) (Q : A → Type μ) (m : Outcome A)
    → Returns P m
    → Returns Q m
    → Returns (λ a. P a × Q a) m
Returns-both P Q (ok a) h k = (h, k)
Returns-both P Q (panic e) h k = tt
Returns-both P Q starved h k = tt

pub Returns-then {ℓ κ μ} :
    {A : Type ℓ} {B : Type κ} (Q : B → Type μ) (m : Outcome A) (f : A → Outcome B)
    → ((a : A) → m ≡ ok a → Returns Q (f a))
    → Returns Q (m >>= f)
Returns-then Q (ok a) f k = k a refl
Returns-then Q (panic e) f k = tt
Returns-then Q starved f k = tt

pub Returns-if {ℓ κ} :
    {A : Type ℓ} (P : A → Type κ) (b : Bool) (m n : Outcome A)
    → (b ≡ true → Returns P m)
    → (b ≡ false → Returns P n)
    → Returns P (if b then m else n)
Returns-if P true m n yea nay = yea refl
Returns-if P false m n yea nay = nay refl

-- The function on what a run returns.
abbrev pub outcome_map {ℓ μ} : {A : Type ℓ} {C : Type μ} → (A → C) → Outcome A → Outcome C
outcome_map f (ok a) = ok (f a)
outcome_map f (panic e) = panic e
outcome_map f starved = starved

pub outcome_map_bind {ℓ μ κ ν} :
    {A : Type ℓ} {B : Type μ} {C : Type κ} {D : Type ν} (f : A → C) (g : B → D) (m : Outcome A)
    (next : A → Outcome B) (m' : Outcome C) (next' : C → Outcome D)
    → outcome_map f m ≡ m'
    → ((a : A) → outcome_map g (next a) ≡ next' (f a))
    → outcome_map g (m >>= next) ≡ (m' >>= next')
outcome_map_bind f g (ok a) next m' next' e h = h a ∙ ap (λ k. k >>= next') e
outcome_map_bind f g (panic x) next m' next' e h = ap (λ k. k >>= next') e
outcome_map_bind f g starved next m' next' e h = ap (λ k. k >>= next') e

pub outcome_map_same {ℓ μ κ} :
    {A : Type ℓ} {B : Type μ} {D : Type κ} (g : B → D) (m : Outcome A) (next : A → Outcome B)
    (next' : A → Outcome D)
    → ((a : A) → outcome_map g (next a) ≡ next' a)
    → outcome_map g (m >>= next) ≡ (m >>= next')
outcome_map_same g (ok a) next next' h = h a
outcome_map_same g (panic x) next next' h = refl
outcome_map_same g starved next next' h = refl
