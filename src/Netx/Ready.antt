-- ===== src/Netx/Ready.antt =====
-- The pieces that netx_recvn (include/libndt/libndt.hpp) receives: what recv takes, and how its loop
-- joins them.
use libndt.Client.{Client}
use libndt.Err.{Err, value_too_large}
use libndt.Io.{Io, ok, raise}
use libndt.Io.Returns.{bind-on_ok}
use libndt.Netx.{netx_recv, recvn_loop}
use libndt.Prelude.{
  Option, [], ap, arith, drop, false, if◌then◌else◌, length, ltb, refl, some, suc, take, true, zero,
  ℕ, ◌++◌, ◌+◌, ◌-◌, ◌<◌, ◌^◌, ◌∙◌, ◌∷◌, ◌≡◌, ◌≤◌,
}
use libndt.Prelude.Bytes.{Bytes}
use libndt.Sys.{Sys}
use libndt.Types.{Socket}

take_none : (m : ℕ) → take {A = ℕ} m [] ≡ []
take_none zero = refl
take_none (suc m) = refl

pub drop_none : (m : ℕ) → drop {A = ℕ} m [] ≡ []
drop_none zero = refl
drop_none (suc m) = refl

-- A piece and the next one, taken together.
pub take_add : (k m j : ℕ) (xs : Bytes) → j ≡ k + m → take k xs ++ take m (drop k xs) ≡ take j xs
take_add zero m j xs e = let e' : j ≡ m = omega arith in rw e' refl
take_add (suc k) m zero xs e = absurd (omega arith)
take_add (suc k) m (suc j) [] e = take_none m
take_add (suc k) m (suc j) (x ∷ xs) e =
    ap (λ (ys : Bytes). x ∷ ys) (take_add k m j xs (omega arith))

pub drop_add : (k m j : ℕ) (xs : Bytes) → j ≡ k + m → drop m (drop k xs) ≡ drop j xs
drop_add zero m j xs e = let e' : j ≡ m = omega arith in rw e' refl
drop_add (suc k) m zero xs e = absurd (omega arith)
drop_add (suc k) m (suc j) [] e = drop_none m
drop_add (suc k) m (suc j) (x ∷ xs) e = drop_add k m j xs (omega arith)

-- What recv does with `n` bytes of room on a socket that has these bytes ready: it takes `k` of
-- them, at least one.
pub record Takes (n k : ℕ) (ready : Bytes) (result : Option Bytes) (after : Bytes) : Type 0 where
  pub some_bytes : 0 < k
  pub in_room : k ≤ n
  pub in_ready : k ≤ length ready
  pub taken : result ≡ some (take k ready)
  pub left : after ≡ drop k ready

module _ {W : Type 0} (sys : Sys W) (sock : Socket) where
  -- A round of the loop in which netx_recv returns a piece.
  pub recvn_loop-round :
      (budget fuel count : ℕ) (acc piece : Bytes) (s s1 : Client W)
      → ltb (length acc) count ≡ true
      → netx_recv sys budget sock (count - length acc) s ≡ (ok piece, s1)
      → ltb (2 ^ 64 - 1 - length piece) (length acc) ≡ false
      → recvn_loop sys budget (suc fuel) sock count acc s
        ≡ recvn_loop sys budget fuel sock count (acc ++ piece) s1
  unfolding recvn_loop
  recvn_loop-round budget fuel count acc piece s s1 less e fits =
      let f : Bytes → Io (Client W) Err Bytes = λ part.
        if ltb (2 ^ 64 - 1 - length part) (length acc)
        then raise value_too_large
        else recvn_loop sys budget fuel sock count (acc ++ part) in
      let goes_on : f piece s1 ≡ recvn_loop sys budget fuel sock count (acc ++ piece) s1 =
        rw fits refl in
      rw less (bind-on_ok (netx_recv sys budget sock (count - length acc)) f e ∙ goes_on)
