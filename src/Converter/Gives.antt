-- ===== src/Converter/Gives.antt =====
-- What a conversion returns (internal/converter), one rule for each way to build one.
use filemagic_backend.Prelude.{
  ◌≡◌, refl, Bool, true, false, Option, none, some, if◌then◌else◌, Text,
}
use filemagic_backend.Converter.{
  Site, Run, ok, failed, panicked, Task, pure, fail, ◌>>=◌, ◌>>◌, and_then, check, need,
}

-- What the conversion returns satisfies `Q`, if it returns.
abbrev pub Returned : {A : Type 0} → (A → Type 0) → Run A → Type 0
Returned Q (ok a s) = Q a
Returned Q (failed e s) = Unit
Returned Q (panicked s) = Unit

pub record Gives {A : Type 0} (Q : A → Type 0) (m : Task A) : Type 0 where
  pub at : (s : Site) → Returned Q (m s)

module _ {A : Type 0} {Q : A → Type 0} where
  pub Gives-pure : (a : A) → Q a → Gives Q (pure a)
  unfolding pure
  Gives-pure a q = record { at = λ s. q }

  pub Gives-fail : (e : Text) → Gives Q (fail {A = A} e)
  unfolding fail
  Gives-fail e = record { at = λ s. tt }

  pub Gives-if : (b : Bool) (m n : Task A) → Gives Q m → Gives Q n → Gives Q (if b then m else n)
  Gives-if true m n gm gn = gm
  Gives-if false m n gm gn = gn

pub Gives-bind :
    {A B : Type 0} {Q : B → Type 0} (m : Task A) (k : A → Task B)
    → ((a : A) → Gives Q (k a))
    → Gives Q (m >>= k)
unfolding ◌>>=◌
Gives-bind {A} {B} {Q} m k g = record { at = λ s. after (m s) }
  where
    after : (r : Run A) → Returned Q (and_then r k)
    after (ok a s) = (g a).at s
    after (failed e s) = tt
    after (panicked s) = tt

pub Gives-then :
    {A B : Type 0} {Q : B → Type 0} (m : Task A) (n : Task B) → Gives Q n → Gives Q (m >> n)
unfolding ◌>>◌ ◌>>=◌
Gives-then m n g = record { at = (Gives-bind m (λ _. n) (λ _. g)).at }

-- The rest may use that a check went well, and what the beginning returned.
pub Gives-checked :
    {B : Type 0} {Q : B → Type 0} (b : Bool) (e : Text) (n : Task B)
    → (b ≡ true → Gives Q n)
    → Gives Q (check b e >> n)
unfolding check ◌>>◌ pure fail
Gives-checked true e n g = record { at = (g refl).at }
Gives-checked false e n g = record { at = λ s. tt }

pub Gives-after :
    {A B : Type 0} {P : A → Type 0} {Q : B → Type 0} (m : Task A) (k : A → Task B)
    → Gives P m
    → ((a : A) → P a → Gives Q (k a))
    → Gives Q (m >>= k)
unfolding ◌>>=◌
Gives-after {A} {B} {P} {Q} m k gm g = record { at = λ s. after (m s) (gm.at s) }
  where
    after : (r : Run A) → Returned P r → Returned Q (and_then r k)
    after (ok a s) p = (g a p).at s
    after (failed e s) p = tt
    after (panicked s) p = tt

pub Gives-need :
    {A : Type 0} (Q : A → Type 0) (o : Option A) (e : Text)
    → ((a : A) → o ≡ some a → Q a)
    → Gives Q (need o e)
unfolding need
Gives-need Q none e q = Gives-fail e
Gives-need Q (some a) e q = Gives-pure a (q a refl)

pub Gives-check : (b : Bool) (e : Text) → Gives (λ _. b ≡ true) (check b e)
unfolding check
Gives-check true e = Gives-pure tt refl
Gives-check false e = Gives-fail e

pub ruleset gives_rules = (Gives-pure, Gives-fail, Gives-if, Gives-bind, Gives-then)
