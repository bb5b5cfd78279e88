-- ===== src/Netx/Exact.antt =====
-- netx_recvn (include/libndt/libndt.hpp): as many bytes as were asked for.
use libndt.Client.{Client, uses}
use libndt.Err.{
  Err, eof, invalid_argument, operation_would_block, ssl_want_read, ssl_want_write, value_too_large,
}
use libndt.Io.{Io, Result, err, ok, pure, raise, stuck, ◌>>◌}
use libndt.Io.Returns.{
  Returns, Returns-any, Returns-bind, Returns-fuel, Returns-if, Returns-on, Returns-pure,
  Returns-raise, ok-injective,
}
use libndt.Netx.{
  catch, change_world, errno_result, find_ssl, handle, int_max, last_ssl_error, netx_recv,
  netx_recv_nonblocking, netx_recvn, netx_wait_readable, netx_wait_writeable, on_world, read_ssl,
  recv_tcp, recv_tls, recvn_loop, retry_recv, ssl_result, unless_error,
}
use libndt.Netx.Dial.{netx}
use libndt.Prelude.{
  Bool-cases, Option, [], arith, if◌then◌else◌, inl, inr, length, length-append, ltb, none, refl,
  some, suc, zero, ℕ, ◌++◌, ◌-◌, ◌==◌, ◌^◌, ◌∙◌, ◌≡◌, ◌≤◌,
}
use libndt.Prelude.Bytes.{Bytes}
use libndt.Sys.{Sys, no_error, ssize_max, sys_recv}
use libndt.Types.{Socket, protocol_flag_tls}
use libndt.Ws.Bounds.{IsExact}

-- recv and SSL_read do not return more bytes than the buffer holds.
pub record IsBounded {W : Type 0} (sys : Sys W) : Type 0 where
  pub recv_bounded :
      (sock : Socket) (n : ℕ) (w : W) (d : Bytes) → (sys.recv sock n w).0 ≡ some d → length d ≤ n
  pub ssl_read_bounded :
      (ssl n : ℕ) (w : W) (d : Bytes) → (sys.ssl_read ssl n w).0 ≡ some d → length d ≤ n

abbrev AtMost : ℕ → Bytes → Type 0
AtMost n d = length d ≤ n

module _ {W A : Type 0} where
  on_world-Returns :
      (f : W → A × W) (P : A → Type 0)
      → ((w : W) (a : A) → (f w).0 ≡ a → P a)
      → Returns (on_world f) P
  on_world-Returns f P h = record { at = λ s a e. h s.world a (ok-injective e) }

  handle-ok :
      (handler : Err → Io (Client W) Err A) (P : A → Type 0) (r : Result Err A) (s : Client W)
      (a : A)
      → ((b : A) → r ≡ ok b → P b)
      → ((e : Err) → Returns (handler e) P)
      → (handle handler r s).0 ≡ ok a
      → P a
  handle-ok handler P (ok b) s a h hh e = h a e
  handle-ok handler P (err x) s a h hh e = (hh x).at s a e
  handle-ok handler P stuck s a h hh e = cc

  catch-Returns :
      (m : Io (Client W) Err A) (handler : Err → Io (Client W) Err A) (P : A → Type 0)
      → Returns m P
      → ((e : Err) → Returns (handler e) P)
      → Returns (catch m handler) P
  catch-Returns m handler P hm hh = record {
    at = λ s a e. handle-ok handler P (m s).0 (m s).1 a (hm.at s) hh e;
  }

module _ {W : Type 0} (sys : Sys W) (bounded : IsBounded sys) where
  sys_recv-bounded :
      (sock : Socket) (n : ℕ) (w : W) (d : Bytes)
      → (sys_recv sys sock n w).0 ≡ some d
      → length d ≤ n
  unfolding sys_recv
  sys_recv-bounded sock n w d e = elim (Bool-cases (ltb ssize_max n)) [
    | inl huge ↦ let e' = rw huge at e in absurd (cc)
    | inr fits ↦ bounded.recv_bounded sock n w d (rw fits at e)
  ]

  recv_tcp-Returns : (sock : Socket) (count : ℕ) → Returns (recv_tcp sys sock count) (AtMost count)
  unfolding recv_tcp errno_result
  recv_tcp-Returns sock count =
      Returns-bind _ (λ rv. (d : Bytes) → rv ≡ some d → length d ≤ count)
        (on_world-Returns (sys_recv sys sock count) _
          (λ w rv same d e. sys_recv-bounded sock count w d (same ∙ e)))
        received
    where
      received :
          (rv : Option Bytes)
          → ((d : Bytes) → rv ≡ some d → length d ≤ count)
          → Returns
              (elim rv [
                | none ↦ errno_result sys
                | some data' ↦ if length data' == 0 then raise eof else pure data'
              ])
              (AtMost count)
      received none h = record { at = λ s a e. cc }
      received (some d) h =
          Returns-if (length d == 0) _ _ (λ _. Returns-raise _ eof)
            (λ _. Returns-pure _ d (h d refl))

  unless_error-bound :
      (r : Option Err) (count : ℕ) (d : Bytes) → unless_error [] r ≡ ok d → length d ≤ count
  unless_error-bound none count d e = let e' : [] ≡ d = ok-injective e in rw (← e') (omega arith)
  unless_error-bound (some x) count d e = cc

  read_ssl-Returns : (ssl count : ℕ) → Returns (read_ssl sys ssl count) (AtMost count)
  unfolding read_ssl ssl_result
  read_ssl-Returns ssl count =
      Returns-bind _ (λ ret. (d : Bytes) → ret ≡ some d → length d ≤ count)
        (on_world-Returns (sys.ssl_read ssl count) _
          (λ w ret same d e. bounded.ssl_read_bounded ssl count w d (same ∙ e)))
        received
    where
      received :
          (ret : Option Bytes)
          → ((d : Bytes) → ret ≡ some d → length d ≤ count)
          → Returns
              (elim ret [ none ↦ ssl_result sys ssl [] | some data' ↦ pure data' ])
              (AtMost count)
      received none h = record {
        at = λ s d e. unless_error-bound (last_ssl_error sys ssl s) count d e;
      }
      received (some d) h = Returns-pure _ d (h d refl)

  recv_tls-Returns : (sock : Socket) (count : ℕ) → Returns (recv_tls sys sock count) (AtMost count)
  unfolding recv_tls
  recv_tls-Returns sock count =
      Returns-on _
        (λ s.
          if ltb int_max count
          then raise invalid_argument
          else looked_up (find_ssl sock s.fd_to_ssl))
        _
        (λ s. elim (Bool-cases (ltb int_max count)) [
          | inl h ↦ rw h refl
          | inr h ↦ rw h (same (find_ssl sock s.fd_to_ssl) s)
        ])
        (λ s.
          Returns-if (ltb int_max count) (raise invalid_argument) _
            (λ _. Returns-raise _ invalid_argument)
            (λ _. looked_up-Returns (find_ssl sock s.fd_to_ssl)))
    where
      looked_up : Option ℕ → Io (Client W) Err Bytes
      looked_up none = raise invalid_argument
      looked_up (some ssl) = read_ssl sys ssl count

      same :
          (r : Option ℕ) (s : Client W)
          → ◌≡◌ {A = Result Err Bytes × Client W}
              (elim r [ none ↦ (err invalid_argument, s) | some ssl ↦ read_ssl sys ssl count s ])
              (looked_up r s)
      same none s = refl
      same (some ssl) s = refl

      looked_up-Returns : (r : Option ℕ) → Returns (looked_up r) (AtMost count)
      looked_up-Returns none = Returns-raise _ _
      looked_up-Returns (some ssl) = read_ssl-Returns ssl count

  -- Whichever errors are retried, and whichever the calls of the system between them.
  retry_recv-Returns :
      (P : Bytes → Type 0) (fuel : ℕ) (sock : Socket) (again : Io (Client W) Err Bytes) (e : Err)
      → Returns again P
      → Returns (retry_recv sys fuel sock again e) P
  unfolding retry_recv
  retry_recv-Returns P fuel sock again operation_would_block h =
      Returns-on _ (λ s. do netx_wait_readable sys fuel sock s.settings.timeout; again) P
        (λ s. refl) (λ s. Returns-bind _ (λ _. Unit) (Returns-any _) (λ _ _. h))
  retry_recv-Returns P fuel sock again ssl_want_read h =
      Returns-on _ (λ s. do netx_wait_readable sys fuel sock s.settings.timeout; again) P
        (λ s. refl) (λ s. Returns-bind _ (λ _. Unit) (Returns-any _) (λ _ _. h))
  retry_recv-Returns P fuel sock again ssl_want_write h =
      Returns-on _ (λ s. do netx_wait_writeable sys fuel sock s.settings.timeout; again) P
        (λ s. refl) (λ s. Returns-bind _ (λ _. Unit) (Returns-any _) (λ _ _. h))
  retry_recv-Returns P fuel sock again e h = record { at = λ s a p. cc }

  netx_recv_nonblocking-Returns :
      (sock : Socket) (count : ℕ) → Returns (netx_recv_nonblocking sys sock count) (AtMost count)
  unfolding netx_recv_nonblocking
  netx_recv_nonblocking-Returns sock count =
      Returns-on _
        (λ s. if count == 0 then raise invalid_argument else do
          change_world sys (sys.set_last_error no_error)
          if uses protocol_flag_tls s then recv_tls sys sock count else recv_tcp sys sock count)
        _ (λ s. refl)
        (λ s.
          Returns-if (count == 0) _ _ (λ _. Returns-raise _ invalid_argument)
            (λ _.
              Returns-bind {m = change_world sys (sys.set_last_error no_error)} _ (λ _. Unit)
                (Returns-any _)
                (λ _ _.
                  Returns-if (uses protocol_flag_tls s) _ _ (λ _. recv_tls-Returns sock count)
                    (λ _. recv_tcp-Returns sock count))))

  netx_recv-Returns :
      (fuel : ℕ) (sock : Socket) (count : ℕ)
      → Returns (netx_recv sys fuel sock count) (AtMost count)
  unfolding netx_recv
  netx_recv-Returns zero sock count = Returns-fuel _
  netx_recv-Returns (suc fuel) sock count =
      catch-Returns _ _ _ (netx_recv_nonblocking-Returns sock count) (λ e.
        retry_recv-Returns _ fuel sock (netx_recv sys fuel sock count) e
          (netx_recv-Returns fuel sock count))

  recvn_loop-Returns :
      (budget fuel : ℕ) (sock : Socket) (count : ℕ) (acc : Bytes)
      → length acc ≤ count
      → Returns (recvn_loop sys budget fuel sock count acc) (λ d. length d ≡ count)
  unfolding recvn_loop
  recvn_loop-Returns budget zero sock count acc h = Returns-fuel _
  recvn_loop-Returns budget (suc fuel) sock count acc h =
      Returns-if (ltb (length acc) count) _ _
        (λ less.
          Returns-bind _ (AtMost (count - length acc))
            (netx_recv-Returns budget sock (count - length acc))
            (λ part short.
              Returns-if (ltb (2 ^ 64 - 1 - length part) (length acc)) _ _
                (λ _. Returns-raise _ value_too_large)
                (λ _.
                  recvn_loop-Returns budget fuel sock count (acc ++ part)
                    (ground (arith, short, length-append acc part)))))
        (λ whole. Returns-pure _ acc (ground arith))

  -- Where recv and SSL_read return no more than they are asked for: however they cut the stream
  -- into pieces, and whichever errors are retried between them, what netx_recvn returns has
  -- exactly the length that was asked for.
  pub netx_recvn-exact :
      (budget fuel : ℕ) (sock : Socket) (count : ℕ)
      → Returns (netx_recvn sys budget fuel sock count) (λ d. length d ≡ count)
  unfolding netx_recvn
  netx_recvn-exact budget fuel sock count =
      recvn_loop-Returns budget fuel sock count [] (omega arith)

  -- So the client's own networking is what the bounds of the WebSocket code rely on.
  pub netx-IsExact : (fuel : ℕ) (sock : Socket) → IsExact (netx sys fuel) sock
  unfolding netx
  netx-IsExact fuel sock = record { recvn = λ n. netx_recvn-exact fuel (suc n) sock n }
