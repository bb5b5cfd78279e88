-- ===== src/Runs/System.antt =====
-- A system that hands out the bytes of the peer one at a time.
use libndt.Netx.Exact.{IsBounded}
use libndt.Prelude.{
  Bool-cases, Option, [], ap, arith, drop, if◌then◌else◌, inl, inr, leb, length, length-take, none,
  some, take, true, ℕ, ◌&&◌, ◌++◌, ◌≡◌, ◌≤◌,
}
use libndt.Prelude.Bytes.{Bytes}
use libndt.Runs.Wire.{Wire}
use libndt.Sys.{Sys, no_error, ssl_error_none}
use libndt.Types.{fd}

abbrev recv_one : ℕ → Wire → Option Bytes × Wire
recv_one n w =
    if leb 1 n && leb 1 (length w.input)
    then (some (take 1 w.input), record w { input = drop 1 w.input })
    else (some [], w)

abbrev pub one_by_one : Sys Wire
one_by_one = record {
  get_last_error = λ w. no_error;
  set_last_error = λ e w. w;
  recv = λ sock. recv_one;
  send = λ sock bytes w. (some (length bytes), record w { output = w.output ++ bytes });
  poll = λ pfds timeout w. ((some 1, pfds), w);
  closesocket = λ sock w. (true, w);
  shutdown = λ sock w. (true, w);
  get_flags = λ sock w. (some 0, w);
  set_flags = λ sock flags w. (true, w);
  getaddrinfo = λ numeric host port w. (inr [], w);
  getnameinfo = λ a w. (none, w);
  new_socket = λ a w. (fd 3, w);
  connect = λ sock a w. (true, w);
  so_error = λ sock w. (none, w);
  ssl_read = λ ssl. recv_one;
  ssl_write = λ ssl bytes w. (some (length bytes), record w { output = w.output ++ bytes });
  ssl_get_error = λ ssl w. ssl_error_none;
  ssl_free = λ ssl w. w;
  ssl_shutdown = λ ssl w. w;
  ssl_do_handshake = λ ssl w. w;
  access = λ path w. true;
  ssl_ctx_new = λ w. (true, w);
  ssl_load_ca = λ path w. (true, w);
  ssl_new = λ w. (some 1, w);
  bio_new = λ w. (true, w);
  ssl_set_host = λ ssl host w. (true, w);
}

abbrev received : Option Bytes → Bytes
received none = []
received (some d) = d

recv_one-length : (n : ℕ) (w : Wire) (d : Bytes) → (recv_one n w).0 ≡ some d → length d ≤ n
recv_one-length n w d e = elim (Bool-cases (leb 1 n && leb 1 (length w.input))) [
  | inl h ↦
      let e' : some (take 1 w.input) ≡ some d = rw h at e in
      let e'' = ap received e' in rw (← e'') (ground (arith, length-take 1 w.input))
  | inr h ↦
      let e' : some [] ≡ some d = rw h at e in let e'' = ap received e' in rw (← e'') (omega arith)
]

pub one_by_one-IsBounded : IsBounded one_by_one
one_by_one-IsBounded = record {
  recv_bounded = λ sock. recv_one-length;
  ssl_read_bounded = λ ssl. recv_one-length;
}
