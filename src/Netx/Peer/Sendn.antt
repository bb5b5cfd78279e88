-- ===== src/Netx/Peer/Sendn.antt =====
-- netx_sendn (include/libndt/libndt.hpp) without TLS over a connection.
use libndt.Client.{Client}
use libndt.Err.{Err, invalid_argument, value_too_large}
use libndt.Io.{Io, Result, err, ok, raise, stuck}
use libndt.Io.Returns.{bind-on_err, bind-on_ok}
use libndt.Netx.{netx_send, netx_sendn, sendn_loop}
use libndt.Netx.Peer.{IsPeer, IsTcp, Link, at_world}
use libndt.Netx.Peer.Calls.{netx_send-outcome, netx_send-oversized}
use libndt.Netx.Ready.{drop_add}
use libndt.Prelude.{
  Bool-cases, [], ap, arith, drop, false, if◌then◌else◌, inl, inr, length, length-drop, ltb, refl,
  suc, sym, take, true, zero, ℕ, ◌++◌, ◌+◌, ◌-◌, ◌<◌, ◌^◌, ◌∙◌, ◌∷◌, ◌≡◌, ◌≢◌, ◌≤◌,
}
use libndt.Prelude.Bytes.{Bytes}
use libndt.Sys.{Sys, ssize_max}
use libndt.Types.{Socket}
use mathlib.Core.List.{append-nil, append_assoc}

length-eq-0 : (xs : Bytes) → length xs ≡ 0 → xs ≡ []
length-eq-0 [] e = refl
length-eq-0 (x ∷ xs) e = absurd (omega arith)

take_rest : (k : ℕ) (xs : Bytes) → take k xs ++ drop k xs ≡ xs
take_rest zero xs = refl
take_rest (suc k) [] = refl
take_rest (suc k) (x ∷ xs) = ap (λ (ys : Bytes). x ∷ ys) (take_rest k xs)

piece_and_rest : (off k : ℕ) (xs : Bytes) → take k (drop off xs) ++ drop (off + k) xs ≡ drop off xs
piece_and_rest off k xs =
    ap (λ (ys : Bytes). take k (drop off xs) ++ ys) (sym (drop_add off k (off + k) xs refl))
    ∙ take_rest k (drop off xs)

module _ {W : Type 0} (sys : Sys W) (sock : Socket) (link : Link W) (limit : ℕ)
    (peer : IsPeer sys sock link limit) where
  -- A round of netx_sendn.
  sendn_loop-round :
      (budget fuel off k : ℕ) (base : Bytes) (s s1 : Client W)
      → ltb off (length base) ≡ true
      → netx_send sys budget sock (drop off base) s ≡ (ok k, s1)
      → ltb (2 ^ 64 - 1 - k) off ≡ false
      → sendn_loop sys budget (suc fuel) sock base off s
        ≡ sendn_loop sys budget fuel sock base (off + k) s1
  unfolding sendn_loop
  sendn_loop-round budget fuel off k base s s1 less e fits =
      let f : ℕ → Io (Client W) Err Unit = λ n.
        if ltb (2 ^ 64 - 1 - n) off
        then raise value_too_large
        else sendn_loop sys budget fuel sock base (off + n) in
      let goes_on : f k s1 ≡ sendn_loop sys budget fuel sock base (off + k) s1 = rw fits refl in
      rw less (bind-on_ok (netx_send sys budget sock (drop off base)) f e ∙ goes_on)

  -- From the offset on, everything is sent.
  sendn_loop-outcome :
      (budget fuel off : ℕ) (base : Bytes) (s : Client W)
      → IsTcp s
      → limit ≤ budget
      → off ≤ length base
      → length base < 2 ^ 63
      → length base - off < fuel
      → (w : W) × (link.received w ≡ link.received s.world)
        × (link.sent w ≡ link.sent s.world ++ drop off base)
        × (sendn_loop sys budget fuel sock base off s ≡ (ok tt, at_world s w))
  unfolding sendn_loop
  sendn_loop-outcome budget zero off base s tcp patience le small fueled = absurd (omega arith)
  sendn_loop-outcome budget (suc fuel) off base s tcp patience le small fueled =
      elim (Bool-cases (ltb off (length base))) [
        | inr whole ↦
            let nothing : drop off base ≡ [] =
              length-eq-0 (drop off base) (ground (arith, length-drop off base)) in
            (s.world, refl, rw (nothing, append-nil) refl, rw whole refl)
        | inl less ↦
            let l = length-drop off base in
            let (k, w1, t, e) =
              netx_send-outcome sys sock link limit peer budget (drop off base) s tcp (ground arith)
                (omega (arith, l)) (omega (arith, peer.patient s.world)) in
            let fits : ltb (2 ^ 64 - 1 - k) off ≡ false = ground (arith, t.in_bytes, l) in
            let s1 = at_world s w1 in
            let (w, r, d, e2) =
              sendn_loop-outcome budget fuel (off + k) base s1 tcp patience
                (ground (arith, t.in_bytes, l)) small (ground (arith, t.some_bytes)) in
            (
              w,
              r ∙ t.received_same,
              d
                  ∙ (ap (λ (x : Bytes). x ++ drop (off + k) base) t.appended
                      ∙ (append_assoc (link.sent s.world) (take k (drop off base))
                            (drop (off + k) base)
                          ∙ ap (λ (x : Bytes). link.sent s.world ++ x)
                              (piece_and_rest off k base))),
              sendn_loop-round budget fuel off k base s s1 less e fits ∙ e2,
            )
      ]

  pub netx_sendn-outcome :
      (budget : ℕ) (base : Bytes) (s : Client W)
      → IsTcp s
      → limit ≤ budget
      → length base < 2 ^ 63
      → (w : W) × (link.received w ≡ link.received s.world)
        × (link.sent w ≡ link.sent s.world ++ base)
        × (netx_sendn sys budget (suc (length base)) sock base s ≡ (ok tt, at_world s w))
  unfolding netx_sendn
  netx_sendn-outcome budget base s tcp patience small =
      sendn_loop-outcome budget (suc (length base)) 0 base s tcp patience (omega arith) small
        (omega arith)

  -- A round that the guard against overflow ends.
  sendn_loop-overflow :
      (budget fuel off k : ℕ) (base : Bytes) (s s1 : Client W)
      → ltb off (length base) ≡ true
      → netx_send sys budget sock (drop off base) s ≡ (ok k, s1)
      → ltb (2 ^ 64 - 1 - k) off ≡ true
      → sendn_loop sys budget (suc fuel) sock base off s ≡ (err value_too_large, s1)
  unfolding sendn_loop
  sendn_loop-overflow budget fuel off k base s s1 less e past =
      let f : ℕ → Io (Client W) Err Unit = λ n.
        if ltb (2 ^ 64 - 1 - n) off
        then raise value_too_large
        else sendn_loop sys budget fuel sock base (off + n) in
      let stops : f k s1 ≡ (err value_too_large, s1) = rw past refl in
      rw less (bind-on_ok (netx_send sys budget sock (drop off base)) f e ∙ stops)

  -- However long the buffer is, the loop ends, and nothing is received.
  sendn_loop-ends :
      (budget fuel off : ℕ) (base : Bytes) (s : Client W)
      → IsTcp s
      → limit ≤ budget
      → length base - off < fuel
      → (w : W) × (r : Result Err Unit) × (link.received w ≡ link.received s.world)
        × (r ≢ stuck)
        × (sendn_loop sys budget fuel sock base off s ≡ (r, at_world s w))
  unfolding sendn_loop
  sendn_loop-ends budget zero off base s tcp patience fueled = absurd (omega arith)
  sendn_loop-ends budget (suc fuel) off base s tcp patience fueled =
      elim (Bool-cases (ltb off (length base))) [
        | inr whole ↦ (s.world, ok tt, refl, (λ p. cc), rw whole refl)
        | inl less ↦ elim (Bool-cases (ltb ssize_max (length (drop off base)))) [
          | inl huge ↦
              let (w, q, e) =
                netx_send-oversized sys sock link limit peer budget (drop off base) s tcp
                  (ground arith) (omega (arith, peer.patient s.world)) in
              (
                w,
                err invalid_argument,
                q.received_same,
                (λ p. cc),
                rw less (bind-on_err (netx_send sys budget sock (drop off base)) _ e),
              )
          | inr fits ↦
              let l = length-drop off base in
              let (k, w1, t, e) =
                netx_send-outcome sys sock link limit peer budget (drop off base) s tcp
                  (ground arith) (ground arith) (omega (arith, peer.patient s.world)) in
              let s1 = at_world s w1 in
              elim (Bool-cases (ltb (2 ^ 64 - 1 - k) off)) [
                | inl past ↦ (
                  w1,
                  err value_too_large,
                  t.received_same,
                  (λ p. cc),
                  sendn_loop-overflow budget fuel off k base s s1 less e past,
                )
                | inr in_range ↦
                    let (w, r, same, ends, e2) =
                      sendn_loop-ends budget fuel (off + k) base s1 tcp patience
                        (ground (arith, t.some_bytes)) in
                    (
                      w,
                      r,
                      same ∙ t.received_same,
                      ends,
                      sendn_loop-round budget fuel off k base s s1 less e in_range ∙ e2,
                    )
              ]
        ]
      ]

  pub netx_sendn-ends :
      (budget : ℕ) (base : Bytes) (s : Client W)
      → IsTcp s
      → limit ≤ budget
      → (w : W) × (r : Result Err Unit) × (link.received w ≡ link.received s.world)
        × (r ≢ stuck)
        × (netx_sendn sys budget (suc (length base)) sock base s ≡ (r, at_world s w))
  unfolding netx_sendn
  netx_sendn-ends budget base s tcp patience =
      sendn_loop-ends budget (suc (length base)) 0 base s tcp patience (omega arith)
