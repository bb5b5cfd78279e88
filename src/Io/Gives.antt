-- ===== src/Io/Gives.antt =====
-- What an action returns and does to what can be seen of the state, with a rule for each way to
-- build an action.
use libndt.Io.{Io, Result, err, lift, ok, pure, raise, ◌>>=◌, ◌>>◌}
use libndt.Prelude.{refl, ◌∙◌, ◌≡◌}

-- From every state that looks like `v`, the result is `r` and the state then looks like `v'`.
pub record Gives {S V E A : Type 0} (view : S → V) (m : Io S E A) (v : V) (r : Result E A) (v' : V)
    : Type 0 where
  pub at : (s : S) → view s ≡ v → ((m s).0 ≡ r) × (view (m s).1 ≡ v')

module _ {S V E A : Type 0} {view : S → V} where
  pub Gives-pure : (a : A) (v : V) → Gives {E = E} view (pure a) v (ok a) v
  Gives-pure a v = record { at = λ s h. (refl, h) }

  pub Gives-raise : (e : E) (v : V) → Gives {A = A} view (raise e) v (err e) v
  Gives-raise e v = record { at = λ s h. (refl, h) }

  pub Gives-lift : (r : Result E A) (v : V) → Gives view (lift r) v r v
  Gives-lift r v = record { at = λ s h. (refl, h) }

  pub Gives-lift_eq : {r r' : Result E A} (v : V) → r ≡ r' → Gives view (lift r) v r' v
  Gives-lift_eq v e = record { at = λ s h. (e, h) }

  -- An action that is equal to another on the states that look like `v`.
  pub Gives-on :
      (m m' : Io S E A) {v v' : V} {r : Result E A}
      → ((s : S) → view s ≡ v → m s ≡ m' s)
      → Gives view m' v r v'
      → Gives view m v r v'
  Gives-on m m' same g = record { at = λ s h. rw (same s h) (g.at s h) }

module _ {S V E A B : Type 0} {view : S → V} where
  pub Gives-bind :
      {m : Io S E A} (f : A → Io S E B) {v v1 v2 : V} {a : A} {r : Result E B}
      → Gives view m v (ok a) v1
      → Gives view (f a) v1 r v2
      → Gives view (m >>= f) v r v2
  Gives-bind f gm gf = record { at = λ s h. rw (gm.at s h).0 (gf.at _ (gm.at s h).1) }

  pub Gives-bind_err :
      {m : Io S E A} (f : A → Io S E B) {v v1 : V} {e : E}
      → Gives view m v (err e) v1
      → Gives view (m >>= f) v (err e) v1
  Gives-bind_err f gm = record { at = λ s h. rw (gm.at s h).0 (refl, (gm.at s h).1) }

  pub Gives-then :
      {m : Io S E A} {n : Io S E B} {v v1 v2 : V} {a : A} {r : Result E B}
      → Gives view m v (ok a) v1
      → Gives view n v1 r v2
      → Gives view (m >> n) v r v2
  Gives-then {n} gm gn = Gives-bind (λ _. n) gm gn

-- From every state that looks like `v`, `m` comes to do what `n` does from a state that looks like
-- `v'`.
pub record Leads {S V E A : Type 0} (view : S → V) (m : Io S E A) (v : V) (n : Io S E A) (v' : V)
    : Type 0 where
  pub at : (s : S) → view s ≡ v → (s' : S) × (m s ≡ n s') × (view s' ≡ v')

pub Leads-here : {S V E A : Type 0} {view : S → V} (m : Io S E A) (v : V) → Leads view m v m v
Leads-here m v = record { at = λ s h. (s, refl, h) }

module _ {S V E A B : Type 0} {view : S → V} where
  pub Leads-then :
      {m : Io S E A} {n k : Io S E B} {v v1 v2 : V} {a : A}
      → Gives view m v (ok a) v1
      → Leads view n v1 k v2
      → Leads view (m >> n) v k v2
  Leads-then {m} {n} gm gn = record {
    at = λ s h.
        let (s', e, h') = gn.at (m s).1 (gm.at s h).1 in
        let first : (m >> n) s ≡ n (m s).1 = rw (gm.at s h).0 refl in (s', first ∙ e, h');
  }
