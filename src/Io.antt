-- ===== src/Io.antt =====
-- Code that changes a state and may fail. A C++ function that returns `Err` and fills in what its
-- pointer arguments point at is an action whose result is `ok` with those values, or `err`. One
-- that returns bool is an action that fails with `tt`. `stuck` is no C++ value: a loop of the
-- model ran out of fuel.
pub mod Gives
pub mod Returns
pub mod Ensures

pub data Result {ℓ} (E A : Type ℓ) : Type ℓ where
  ok : A → Result E A
  err : E → Result E A
  stuck : Result E A

-- What was changed before a failure stays changed, so the state comes back beside every result.
abbrev pub Io {ℓ} : Type ℓ → Type ℓ → Type ℓ → Type ℓ
Io S E A = S → Result E A × S

module _ {ℓ} {S E A : Type ℓ} where
  abbrev pub pure : A → Io S E A
  pure a s = (ok a, s)

  abbrev pub raise : E → Io S E A
  raise e s = (err e, s)

  abbrev pub out_of_fuel : Io S E A
  out_of_fuel s = (stuck, s)

  abbrev pub gets : (S → A) → Io S E A
  gets f s = (ok (f s), s)

  abbrev pub lift : Result E A → Io S E A
  lift r s = (r, s)

-- A result that is kept whatever a call whose own result is dropped returns, if it returns.
abbrev pub unless_stuck : {E F A B : Type 0} → Result E A → Result F B → Result F B
unless_stuck (ok a) r = r
unless_stuck (err e) r = r
unless_stuck stuck r = stuck

-- An error of the call is dropped: `(void)f()`.
abbrev pub ignore : {S E : Type 0} → Io S E Unit → Io S E Unit
ignore m s = elim (m s).0 [ stuck ↦ (stuck, (m s).1) | _ ↦ (ok tt, (m s).1) ]

module _ {ℓ} {S E A B : Type ℓ} where
  abbrev pub continue : Result E A → (A → Io S E B) → Io S E B
  continue (ok a) f s = f a s
  continue (err e) f s = (err e, s)
  continue stuck f s = (stuck, s)

  infixl 5 ◌>>=◌ ◌>>◌
  abbrev pub ◌>>=◌ : Io S E A → (A → Io S E B) → Io S E B
  ◌>>=◌ m f s = continue (m s).0 f (m s).1

  abbrev pub ◌>>◌ : Io S E A → Io S E B → Io S E B
  m >> n = m >>= λ _. n
