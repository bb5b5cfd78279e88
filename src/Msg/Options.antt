-- ===== src/Msg/Options.antt =====
-- msg_expect_test_prepare (include/libndt/libndt.hpp): the options that are taken.
use libndt.Io.{Result, err, ok, stuck}
use libndt.Io.Returns.{ok-injective}
use libndt.Msg.{TestPrepare, parse_nflows, parse_test_prepare}
use libndt.Prelude.{
  Bool-cases, List, [], ap, arith, get_or, inl, inr, leb, length, refl, sym, ℕ, ◌%◌, ◌^◌, ◌∷◌, ◌≡◌,
  ◌≤◌,
}
use libndt.Prelude.Bytes.{Bytes}
use libndt.Strtonum.{StrError, strtonum}
use libndt.Strtonum.Bounds.{strtonum-bounds}

-- The port is the first option and a number from 1 to 65535, and there are 1 to 16 flows.
abbrev pub IsPrepared : List Bytes → TestPrepare → Type 0
IsPrepared options t =
    (t.port ≡ get_or options 0 [])
    × ((n : ℕ) × (strtonum t.port 1 65535 ≡ ok n) × (1 ≤ n) × (n ≤ 65535))
    × (1 ≤ t.nflows)
    × (t.nflows ≤ 16)

flows-bounds :
    (r : Result StrError ℕ) (port : Bytes) (t : TestPrepare)
    → ((n : ℕ) → r ≡ ok n → (1 ≤ n) × (n ≤ 16))
    → ◌≡◌ {A = Result Unit TestPrepare}
        (elim r [ ok n ↦ ok (record { port = port; nflows = n % 2 ^ 8 }) | _ ↦ err tt ])
        (ok t)
    → (t.port ≡ port) × (1 ≤ t.nflows) × (t.nflows ≤ 16)
flows-bounds (ok n) port t h e =
    let (low, high) = h n refl in
    let e' = ok-injective e in
    (
      sym (ap (λ (x : TestPrepare). x.port) e'),
      omega (arith, ap (λ (x : TestPrepare). x.nflows) e'),
      omega (arith, ap (λ (x : TestPrepare). x.nflows) e'),
    )
flows-bounds (err x) port t h e = cc
flows-bounds stuck port t h e = cc

parse_nflows-bounds :
    (port : Bytes) (options : List Bytes) (t : TestPrepare)
    → parse_nflows port options ≡ ok t
    → (t.port ≡ port) × (1 ≤ t.nflows) × (t.nflows ≤ 16)
unfolding parse_nflows
parse_nflows-bounds port options t e = elim (Bool-cases (leb 6 (length options))) [
  | inl h ↦
      flows-bounds (strtonum (get_or options 5 []) 1 16) port t
        (λ n. strtonum-bounds (get_or options 5 []) 1 16 n) (rw h at e)
  | inr h ↦
      let e' : record { port = port; nflows = 1 } ≡ t = ok-injective (rw h at e) in
      (
        sym (ap (λ (x : TestPrepare). x.port) e'),
        omega (arith, ap (λ (x : TestPrepare). x.nflows) e'),
        omega (arith, ap (λ (x : TestPrepare). x.nflows) e'),
      )
]

port-bounds :
    (r : Result StrError ℕ) (port : Bytes) (options : List Bytes) (t : TestPrepare)
    → ((n : ℕ) → r ≡ ok n → (1 ≤ n) × (n ≤ 65535))
    → ◌≡◌ {A = Result Unit TestPrepare}
        (elim r [ ok n ↦ parse_nflows port options | _ ↦ err tt ])
        (ok t)
    → ((n : ℕ) × (r ≡ ok n) × (1 ≤ n) × (n ≤ 65535)) × (parse_nflows port options ≡ ok t)
port-bounds (ok n) port options t h e = let (low, high) = h n refl in ((n, refl, low, high), e)
port-bounds (err x) port options t h e = cc
port-bounds stuck port options t h e = cc

-- The options of a MSG_TEST_PREPARE that are taken have a port that is the first option and a
-- number from 1 to 65535, and 1 to 16 flows.
pub parse_test_prepare-IsPrepared :
    (options : List Bytes) (t : TestPrepare)
    → parse_test_prepare options ≡ ok t
    → IsPrepared options t
unfolding parse_test_prepare
parse_test_prepare-IsPrepared [] t e = cc
parse_test_prepare-IsPrepared (port ∷ more) t e =
    let (n, rest) =
      port-bounds (strtonum port 1 65535) port (port ∷ more) t (λ n. strtonum-bounds port 1 65535 n)
        e in
    let (same, low, high) = parse_nflows-bounds port (port ∷ more) t rest in
    (same, rw same n, low, high)
