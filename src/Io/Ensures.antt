-- ===== src/Io/Ensures.antt =====
-- What holds of the state behind an action: Keeps, whatever the result; Ensures, if it succeeds; and
-- Holds, if it succeeds and if it fails.
use libndt.Io.{Io, Result, continue, err, ok, pure, raise, stuck, ◌>>=◌, ◌>>◌}
use libndt.Io.Returns.{ok-injective}
use libndt.Prelude.{Bool, false, if◌then◌else◌, refl, true, ◌∙◌, ◌≡◌}
use mathlib.Core.Path.{subst}

-- This part of the state stays as it is.
pub record Keeps {S V E A : Type 0} (part : S → V) (m : Io S E A) : Type 0 where
  pub at : (s : S) → part (m s).1 ≡ part s

module _ {S V E A : Type 0} {part : S → V} where
  pub Keeps-pure : (a : A) → Keeps {E = E} part (pure a)
  Keeps-pure a = record { at = λ s. refl }

  pub Keeps-raise : (e : E) → Keeps {A = A} part (raise e)
  Keeps-raise e = record { at = λ s. refl }

  pub Keeps-if :
      (b : Bool) {m n : Io S E A} → Keeps part m → Keeps part n → Keeps part (if b then m else n)
  Keeps-if true km kn = km
  Keeps-if false km kn = kn

module _ {S V E A B : Type 0} {part : S → V} where
  Keeps-continue :
      (r : Result E A) (f : A → Io S E B) (s : S)
      → ((a : A) → Keeps part (f a))
      → part (continue r f s).1 ≡ part s
  Keeps-continue (ok a) f s h = (h a).at s
  Keeps-continue (err e) f s h = refl
  Keeps-continue stuck f s h = refl

  pub Keeps-bind :
      {m : Io S E A} (f : A → Io S E B)
      → Keeps part m
      → ((a : A) → Keeps part (f a))
      → Keeps part (m >>= f)
  Keeps-bind {m} f km kf = record { at = λ s. Keeps-continue (m s).0 f (m s).1 kf ∙ km.at s }

  pub Keeps-then : {m : Io S E A} {n : Io S E B} → Keeps part m → Keeps part n → Keeps part (m >> n)
  Keeps-then {n} km kn = Keeps-bind (λ _. n) km (λ _. kn)

-- From a state with `P`, a success has a value and a state with `Q`.
pub record Ensures {S E A : Type 0} (P : S → Type 0) (m : Io S E A) (Q : A → S → Type 0)
    : Type 0 where
  pub at : (s : S) → P s → (a : A) → (m s).0 ≡ ok a → Q a (m s).1

module _ {S E A : Type 0} where
  pub Ensures-pure :
      {P : S → Type 0} (Q : A → S → Type 0) (a : A)
      → ((s : S) → P s → Q a s)
      → Ensures {E = E} P (pure a) Q
  Ensures-pure Q a h = record { at = λ s p b e. subst (λ (x : A). Q x s) (ok-injective e) (h s p) }

  pub Ensures-raise : (P : S → Type 0) (Q : A → S → Type 0) (e : E) → Ensures P (raise e) Q
  Ensures-raise P Q e = record { at = λ s p b x. cc }

  pub Ensures-if :
      {P : S → Type 0} {Q : A → S → Type 0} (b : Bool) {m n : Io S E A}
      → (b ≡ true → Ensures P m Q)
      → (b ≡ false → Ensures P n Q)
      → Ensures P (if b then m else n) Q
  Ensures-if true hm hn = hm refl
  Ensures-if false hm hn = hn refl

module _ {S E A B : Type 0} where
  Ensures-continue :
      {Q : A → S → Type 0} {R : B → S → Type 0} (r : Result E A) (f : A → Io S E B) (s : S)
      → ((a : A) → r ≡ ok a → Q a s)
      → ((a : A) → Ensures (Q a) (f a) R)
      → (b : B) → (continue r f s).0 ≡ ok b
      → R b (continue r f s).1
  Ensures-continue (ok a) f s hq hf b e = (hf a).at s (hq a refl) b e
  Ensures-continue (err x) f s hq hf b e = cc
  Ensures-continue stuck f s hq hf b e = cc

  pub Ensures-bind :
      {P : S → Type 0} {m : Io S E A} (f : A → Io S E B) (Q : A → S → Type 0) {R : B → S → Type 0}
      → Ensures P m Q
      → ((a : A) → Ensures (Q a) (f a) R)
      → Ensures P (m >>= f) R
  Ensures-bind {m} f Q hm hf = record {
    at = λ s p. Ensures-continue (m s).0 f (m s).1 (hm.at s p) hf;
  }

  pub Ensures-then :
      {P : S → Type 0} {m : Io S E A} {n : Io S E B} (Q : S → Type 0) {R : B → S → Type 0}
      → Ensures P m (λ a. Q)
      → Ensures Q n R
      → Ensures P (m >> n) R
  Ensures-then {n} Q hm hn = Ensures-bind (λ _. n) (λ _. Q) hm (λ _. hn)

-- `Q` behind a success, `R` behind a failure.
abbrev pub After : {S E A : Type 0} → (A → S → Type 0) → (S → Type 0) → Result E A → S → Type 0
After Q R (ok a) s = Q a s
After Q R (err e) s = R s
After Q R stuck s = Unit

pub record Holds {S E A : Type 0} (P : S → Type 0) (m : Io S E A) (Q : A → S → Type 0)
    (R : S → Type 0) : Type 0 where
  pub at : (s : S) → P s → After Q R (m s).0 (m s).1

module _ {S E A : Type 0} where
  pub Holds-pure :
      {P : S → Type 0} (Q : A → S → Type 0) (R : S → Type 0) (a : A)
      → ((s : S) → P s → Q a s)
      → Holds {E = E} P (pure a) Q R
  Holds-pure Q R a h = record { at = h }

  pub Holds-if :
      {P : S → Type 0} {Q : A → S → Type 0} {R : S → Type 0} (b : Bool) {m n : Io S E A}
      → Holds P m Q R
      → Holds P n Q R
      → Holds P (if b then m else n) Q R
  Holds-if true hm hn = hm
  Holds-if false hm hn = hn

  After-both : (P : S → Type 0) (r : Result E A) (s : S) → P s → After (λ a. P) P r s
  After-both P (ok a) s p = p
  After-both P (err e) s p = p
  After-both P stuck s p = tt

  -- What is kept holds behind every result.
  pub Holds-Keeps :
      {V : Type 0} {part : S → V} {m : Io S E A} (v : V)
      → Keeps part m
      → Holds (λ s. part s ≡ v) m (λ a s. part s ≡ v) (λ s. part s ≡ v)
  Holds-Keeps {part} {m} v k = record {
    at = λ s p. After-both (λ x. part x ≡ v) (m s).0 (m s).1 (k.at s ∙ p);
  }

module _ {S E A B : Type 0} where
  After-continue :
      {Q : A → S → Type 0} {T : B → S → Type 0} {R : S → Type 0} (r : Result E A) (f : A → Io S E B)
      (s : S)
      → After Q R r s
      → ((a : A) → Holds (Q a) (f a) T R)
      → After T R (continue r f s).0 (continue r f s).1
  After-continue (ok a) f s h hf = (hf a).at s h
  After-continue (err e) f s h hf = h
  After-continue stuck f s h hf = tt

  pub Holds-bind :
      {P : S → Type 0} {m : Io S E A} (f : A → Io S E B) (Q : A → S → Type 0) {T : B → S → Type 0}
      {R : S → Type 0}
      → Holds P m Q R
      → ((a : A) → Holds (Q a) (f a) T R)
      → Holds P (m >>= f) T R
  Holds-bind {m} f Q {T} hm hf = record {
    at = λ s p. After-continue {T = T} (m s).0 f (m s).1 (hm.at s p) hf;
  }

  pub Holds-then :
      {P : S → Type 0} {m : Io S E A} {n : Io S E B} (Q : S → Type 0) {T : B → S → Type 0}
      {R : S → Type 0}
      → Holds P m (λ a. Q) R
      → Holds Q n T R
      → Holds P (m >> n) T R
  Holds-then {n} Q {T} hm hn = Holds-bind (λ _. n) (λ _. Q) {T = T} hm (λ _. hn)
