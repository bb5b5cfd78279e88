-- ===== src/Net/Reads.antt =====
-- Actions over a stream that end: they run out of no fuel, and what they return has cost input.
use libndt.Err.{Err, eof}
use libndt.Io.{Io, Result, err, ignore, lift, ok, out_of_fuel, pure, raise, stuck, ◌>>=◌}
use libndt.Net.{Draw, Net}
use libndt.Net.Stream.{Stream, View}
use libndt.Prelude.{
  Bool, Bool-cases, ap, arith, false, if◌then◌else◌, inl, inr, length, length-drop, ltb, refl, true,
  ℕ, ◌+◌, ◌<◌, ◌^◌, ◌≡◌, ◌≢◌, ◌≤◌, ◌⊎◌,
}
use libndt.Prelude.Bytes.{Bytes}
use libndt.Types.{Socket}

-- From a state with less than `room` bytes of input, the action ends, puts no input back, and
-- takes at least `cost` bytes if it succeeds. The part `k` of the state is kept.
pub record Reads {S K E A : Type 0} (view : S → View K) (k : K) (room cost : ℕ) (m : Io S E A)
    : Type 0 where
  pub ends : (s : S) → (view s).kept ≡ k → length (view s).input < room → (m s).0 ≢ stuck
  pub keeps : (s : S) → (view s).kept ≡ k → (view (m s).1).kept ≡ k
  pub shrinks : (s : S) → (view s).kept ≡ k → length (view (m s).1).input ≤ length (view s).input
  pub costs :
      (s : S) (a : A)
      → (view s).kept ≡ k
      → (m s).0 ≡ ok a
      → cost + length (view (m s).1).input ≤ length (view s).input

module _ {S K E A : Type 0} {view : S → View K} {k : K} {room : ℕ} where
  pub Reads-pure : (a : A) → Reads {E = E} view k room 0 (pure a)
  Reads-pure a = record {
    ends = λ s u h e. cc;
    keeps = λ s u. u;
    shrinks = λ s u. omega arith;
    costs = λ s b u e. omega arith;
  }

  pub Reads-raise : (cost : ℕ) (e : E) → Reads {A = A} view k room cost (raise e)
  Reads-raise cost e = record {
    ends = λ s u h p. cc;
    keeps = λ s u. u;
    shrinks = λ s u. omega arith;
    costs = λ s b u p. cc;
  }

  pub Reads-lift : (r : Result E A) → r ≢ stuck → Reads view k room 0 (lift r)
  Reads-lift r h = record {
    ends = λ s u _. h;
    keeps = λ s u. u;
    shrinks = λ s u. omega arith;
    costs = λ s b u p. omega arith;
  }

  pub Reads-weaken :
      {m : Io S E A} (room' cost cost' : ℕ)
      → room ≤ room'
      → cost ≤ cost'
      → Reads view k room' cost' m
      → Reads view k room cost m
  Reads-weaken room' cost cost' hr hc r = record {
    ends = λ s u h. r.ends s u (omega arith);
    keeps = r.keeps;
    shrinks = r.shrinks;
    costs = λ s a u e. omega (arith, r.costs s a u e);
  }

  -- An action that is equal to another on the states whose kept part is `k`.
  pub Reads-on :
      (cost : ℕ) (m m' : Io S E A)
      → ((s : S) → (view s).kept ≡ k → m s ≡ m' s)
      → Reads view k room cost m'
      → Reads view k room cost m
  Reads-on cost m m' same r = record {
    ends = λ s u h. rw (same s u) (r.ends s u h);
    keeps = λ s u. rw (same s u) (r.keeps s u);
    shrinks = λ s u. rw (same s u) (r.shrinks s u);
    costs = λ s a u. rw (same s u) (r.costs s a u);
  }

  -- A change that is not seen, and an action that depends on the state before it.
  pub Reads-after :
      (cost : ℕ) (change : S → S) (pick : S → Io S E A)
      → ((s : S) → view (change s) ≡ view s)
      → ((s : S) → Reads view k room cost (pick s))
      → Reads view k room cost (λ s. pick s (change s))
  Reads-after cost change pick same r = record {
    ends = λ s u h. (r s).ends (change s) (rw (same s) u) (rw (same s) h);
    keeps = λ s u. (r s).keeps (change s) (rw (same s) u);
    shrinks = λ s u. rw (same s) at ((r s).shrinks (change s) (rw (same s) u));
    costs = λ s a u e. rw (same s) at ((r s).costs (change s) a (rw (same s) u) e);
  }

  pub Reads-if :
      (b : Bool) (cost : ℕ) (m n : Io S E A)
      → Reads view k room cost m
      → Reads view k room cost n
      → Reads view k room cost (if b then m else n)
  Reads-if true cost m n rm rn = rm
  Reads-if false cost m n rm rn = rn

-- Where there is no room left there is no state to start from.
pub Reads-no_room :
    {S K E A : Type 0} {view : S → View K} {k : K} (cost : ℕ)
    → Reads {E = E} {A = A} view k 0 cost out_of_fuel
Reads-no_room cost = record {
  ends = λ s u h. absurd (omega arith);
  keeps = λ s u. u;
  shrinks = λ s u. omega arith;
  costs = λ s a u e. cc;
}

pub Result-cases {ℓ} :
    {E A : Type ℓ} (r : Result E A)
    → ((a : A) × (r ≡ ok a)) ⊎ (((e : E) × (r ≡ err e)) ⊎ (r ≡ stuck))
Result-cases (ok a) = inl (a, refl)
Result-cases (err e) = inr (inl (e, refl))
Result-cases stuck = inr (inr refl)

module _ {S K E A B : Type 0} {view : S → View K} {k : K} {room : ℕ} where
  -- The rest of a block has the room that is left.
  pub Reads-bind :
      {m : Io S E A} (f : A → Io S E B) (room' c d : ℕ)
      → room ≤ c + room'
      → Reads view k room c m
      → ((a : A) → Reads view k room' d (f a))
      → Reads view k room (c + d) (m >>= f)
  Reads-bind {m} f room' c d fits rm rf = record {
    ends = λ s u h. elim (Result-cases (m s).0) [
      | inl (a, e) ↦ rw e ((rf a).ends (m s).1 (rm.keeps s u) (omega (arith, rm.costs s a u e)))
      | inr (inl (x, e)) ↦ rw e (λ p. cc)
      | inr (inr e) ↦ absurd (rm.ends s u h e)
    ];
    keeps = λ s u. elim (Result-cases (m s).0) [
      | inl (a, e) ↦ rw e ((rf a).keeps (m s).1 (rm.keeps s u))
      | inr (inl (x, e)) ↦ rw e (rm.keeps s u)
      | inr (inr e) ↦ rw e (rm.keeps s u)
    ];
    shrinks = λ s u. elim (Result-cases (m s).0) [
      | inl (a, e) ↦ rw e (omega (arith, rm.shrinks s u, (rf a).shrinks (m s).1 (rm.keeps s u)))
      | inr (inl (x, e)) ↦ rw e (rm.shrinks s u)
      | inr (inr e) ↦ rw e (rm.shrinks s u)
    ];
    costs = λ s b u. elim (Result-cases (m s).0) [
      | inl (a, e) ↦
          rw e (λ p. omega (arith, rm.costs s a u e, (rf a).costs (m s).1 b (rm.keeps s u) p))
      | inr (inl (x, e)) ↦ rw e (λ p. cc)
      | inr (inr e) ↦ rw e (λ p. cc)
    ];
  }

module _ {S K E : Type 0} {view : S → View K} {k : K} {room : ℕ} where
  pub Reads-ignore : {m : Io S E Unit} → Reads view k room 0 m → Reads view k room 0 (ignore m)
  Reads-ignore {m} r = record {
    ends = λ s u h. elim (Result-cases (m s).0) [
      | inl (a, e) ↦ rw (e, ignore) (λ p. cc)
      | inr (inl (x, e)) ↦ rw (e, ignore) (λ p. cc)
      | inr (inr e) ↦ absurd (r.ends s u h e)
    ];
    keeps = λ s u. elim (Result-cases (m s).0) [
      | inl (a, e) ↦ rw (e, ignore) (r.keeps s u)
      | inr (inl (x, e)) ↦ rw (e, ignore) (r.keeps s u)
      | inr (inr e) ↦ rw (e, ignore) (r.keeps s u)
    ];
    shrinks = λ s u. elim (Result-cases (m s).0) [
      | inl (a, e) ↦ rw (e, ignore) (r.shrinks s u)
      | inr (inl (x, e)) ↦ rw (e, ignore) (r.shrinks s u)
      | inr (inr e) ↦ rw (e, ignore) (r.shrinks s u)
    ];
    costs = λ s b u. elim (Result-cases (m s).0) [
      | inl (a, e) ↦ rw (e, ignore) (λ p. omega (arith, r.shrinks s u))
      | inr (inl (x, e)) ↦ rw (e, ignore) (λ p. omega (arith, r.shrinks s u))
      | inr (inr e) ↦ rw (e, ignore) (λ p. cc)
    ];
  }

module _ {S K : Type 0} {net : Net S} {draw : Draw S} {sock : Socket} {view : S → View K} {k : K}
    (stream : Stream net draw sock view k) (room : ℕ) where
  -- A state whose kept part is `k`, in full.
  abbrev with_kept : S → View K
  with_kept s = record { input = (view s).input; output = (view s).output; kept = k }

  view-with_kept : (s : S) → (view s).kept ≡ k → view s ≡ with_kept s
  view-with_kept s u = ap (λ (x : K). record (view s) { kept = x }) u

  recvn_cases :
      (n : ℕ) (s : S)
      → (view s).kept ≡ k
      → ((view (net.recvn sock n s).1).kept ≡ k)
        × (((e : Err) × ((net.recvn sock n s).0 ≡ err e)
              × (length (view (net.recvn sock n s).1).input ≤ length (view s).input))
            ⊎ ((a : Bytes) × ((net.recvn sock n s).0 ≡ ok a)
                × (n + length (view (net.recvn sock n s).1).input ≡ length (view s).input)))
  recvn_cases n s u = elim (Bool-cases (ltb (length (view s).input) n)) [
    | inl short ↦ elim (Bool-cases (ltb n (2 ^ 63))) [
      | inl fits ↦
          let g =
            (stream.short n (view s).input (view s).output (ground arith) (ground arith)).at s
              (view-with_kept s u) in
          (rw g.1 refl, inl (eof, g.0, rw g.1 (omega arith)))
      | inr huge ↦
          let (e, i', less, gives) =
            stream.oversized n (view s).input (view s).output (ground arith) (ground arith) in
          let g = gives.at s (view-with_kept s u) in (rw g.1 refl, inl (e, g.0, rw g.1 less))
    ]
    | inr full ↦
        let g =
          (stream.recvn n (view s).input (view s).output (ground arith)).at s
            (view-with_kept s u) in
        (rw g.1 refl, inr (_, g.0, rw (g.1, length-drop n (view s).input) (ground arith)))
  ]

  pub Reads-recvn : (n : ℕ) → Reads view k room n (net.recvn sock n)
  Reads-recvn n = record {
    ends = λ s u h. elim (recvn_cases n s u).1 [
      | inl (x, e, l) ↦ rw e (λ p. cc)
      | inr (a, e, l) ↦ rw e (λ p. cc)
    ];
    keeps = λ s u. (recvn_cases n s u).0;
    shrinks = λ s u. elim (recvn_cases n s u).1 [
      | inl (x, e, l) ↦ omega arith
      | inr (a, e, l) ↦ omega arith
    ];
    costs = λ s b u p. elim (recvn_cases n s u).1 [
      | inl (x, e, l) ↦ absurd (cc)
      | inr (a, e, l) ↦ omega arith
    ];
  }

  pub Reads-sendn : (bytes : Bytes) → Reads view k room 0 (net.sendn sock bytes)
  Reads-sendn bytes = record {
    ends = λ s u h. (stream.sends bytes s u).0;
    keeps = λ s u. (stream.sends bytes s u).2;
    shrinks = λ s u. let e = ap length (stream.sends bytes s u).1 in omega arith;
    costs = λ s a u p. let e = ap length (stream.sends bytes s u).1 in omega arith;
  }
