-- ===== src/Io/Returns.antt =====
-- What an action returns if it succeeds, with a rule for each way to build an action.
use libndt.Io.{Io, Result, continue, err, lift, ok, out_of_fuel, pure, raise, stuck, ◌>>=◌}
use libndt.Prelude.{Bool, ap, false, if◌then◌else◌, refl, true, ◌≡◌}
use mathlib.Core.Path.{subst}

pub record Returns {S E A : Type 0} (m : Io S E A) (P : A → Type 0) : Type 0 where
  pub at : (s : S) (a : A) → (m s).0 ≡ ok a → P a

module _ {E A : Type 0} where
  abbrev value_or : A → Result E A → A
  value_or a (ok b) = b
  value_or a _ = a

  pub ok-injective : {a b : A} → ◌≡◌ {A = Result E A} (ok a) (ok b) → a ≡ b
  ok-injective {a} e = ap (value_or a) e

module _ {S E A : Type 0} where
  pub Returns-pure : (P : A → Type 0) (a : A) → P a → Returns {S = S} {E = E} (pure a) P
  Returns-pure P a h = record { at = λ s b e. subst P (ok-injective e) h }

  pub Returns-lift :
      (P : A → Type 0) (r : Result E A) → ((a : A) → r ≡ ok a → P a) → Returns {S = S} (lift r) P
  Returns-lift P r h = record { at = λ s a e. h a e }

  pub Returns-any : (m : Io S E A) → Returns m (λ a. Unit {0})
  Returns-any m = record { at = λ s a e. tt }

  pub Returns-raise : (P : A → Type 0) (e : E) → Returns {S = S} (raise e) P
  Returns-raise P e = record { at = λ s b p. cc }

  pub Returns-fuel : (P : A → Type 0) → Returns {S = S} {E = E} out_of_fuel P
  Returns-fuel P = record { at = λ s b p. cc }

  pub Returns-if :
      {P : A → Type 0} (b : Bool) (m n : Io S E A)
      → (b ≡ true → Returns m P)
      → (b ≡ false → Returns n P)
      → Returns (if b then m else n) P
  Returns-if true m n hm hn = hm refl
  Returns-if false m n hm hn = hn refl

module _ {S E A B : Type 0} where
  pub >>=-eq-ok :
      (r : Result E A) (f : A → Io S E B) (s : S) (b : B)
      → (continue r f s).0 ≡ ok b
      → (a : A) × (r ≡ ok a) × ((f a s).0 ≡ ok b)
  >>=-eq-ok (ok a) f s b h = (a, refl, h)
  >>=-eq-ok (err e) f s b h = cc
  >>=-eq-ok stuck f s b h = cc

  pub Returns-bind :
      {m : Io S E A} (f : A → Io S E B) (Q : A → Type 0) {P : B → Type 0}
      → Returns m Q
      → ((a : A) → Q a → Returns (f a) P)
      → Returns (m >>= f) P
  Returns-bind {m} f Q hm hf = record {
    at = λ s b e.
        let (a, e', h) = >>=-eq-ok (m s).0 f (m s).1 b e in (hf a (hm.at s a e')).at (m s).1 b h;
  }

module _ {S E A : Type 0} where
  -- An action that looks at the state to choose what to do.
  pub Returns-on :
      (m : Io S E A) (f : S → Io S E A) (P : A → Type 0)
      → ((s : S) → m s ≡ f s s)
      → ((s : S) → Returns (f s) P)
      → Returns m P
  Returns-on m f P same h = record { at = λ s a e. (h s).at s a (rw (same s) at e) }

module _ {S E A B : Type 0} where
  -- An action that has returned, and what goes on from there.
  pub bind-on_ok :
      (m : Io S E A) (f : A → Io S E B) {s s1 : S} {a : A} → m s ≡ (ok a, s1) → (m >>= f) s ≡ f a s1
  bind-on_ok m f e = ap (λ (r : Result E A × S). continue r.0 f r.1) e

  -- An action that has failed.
  pub bind-on_err :
      (m : Io S E A) (f : A → Io S E B) {s s1 : S} {e : E}
      → m s ≡ (err e, s1)
      → (m >>= f) s ≡ (err e, s1)
  bind-on_err m f e = ap (λ (r : Result E A × S). continue r.0 f r.1) e
