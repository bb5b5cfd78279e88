-- ===== src/Runs/Peer.antt =====
-- A connection whose socket is ready every other time, and hands out a byte at a time.
use libndt.Client.{Client, no_summary}
use libndt.Net.{Draw}
use libndt.Net.Stream.{Stream}
use libndt.Netx.{errno_result, recv_tcp}
use libndt.Netx.Bio.{BioCalls, libndt_bio_read}
use libndt.Netx.Bio.Plain.{libndt_bio_read-recv_tcp}
use libndt.Netx.Dial.{netx}
use libndt.Netx.Errors.{map_errno}
use libndt.Netx.Peer.{IsPeer, Link, Quiet, Sends}
use libndt.Netx.Peer.Contract.{link_view}
use libndt.Netx.Ready.{Takes}
use libndt.Prelude.{
  Bool-cases, Option, [], ap, arith, false, if◌then◌else◌, inl, inr, length, none, refl, some, suc,
  take, true, zero, ℕ, ◌%◌, ◌++◌, ◌<◌, ◌==◌, ◌^◌, ◌∷◌, ◌≡◌, ◌⊎◌,
}
use libndt.Prelude.Bytes.{Bytes}
use libndt.Runs.Wire.{plain}
use libndt.Session.Online.{netx-IsOnline}
use libndt.Session.Steps.{IsOnline}
use libndt.Sys.{Errno, Sys, ewouldblock, no_error, ssl_error_none, sys_recv}
use libndt.Types.{fd}

pub record Slow : Type 0 where
  pub to_come : ℕ
  pub busy_next : ℕ
  pub output : Bytes
  pub errno : Errno

abbrev zeroes : ℕ → Bytes
zeroes zero = []
zeroes (suc n) = 0 ∷ zeroes n

length-zeroes : (n : ℕ) → length (zeroes n) ≡ n
length-zeroes zero = refl
length-zeroes (suc n) = ap suc (length-zeroes n)

-- One byte of what is to come.
abbrev hand_out : ℕ → Slow → Option Bytes × Slow
hand_out zero w = (some [], w)
hand_out (suc n) w = (some (0 ∷ []), record w { to_come = n; busy_next = 1 })

abbrev slow_recv : ℕ → Slow → Option Bytes × Slow
slow_recv n w =
    if w.busy_next % 2 == 1
    then (none, record w { busy_next = 0; errno = ewouldblock })
    else hand_out (w.to_come % 2 ^ 63) w

abbrev slow_send : Bytes → Slow → Option ℕ × Slow
slow_send bytes w =
    if w.busy_next % 2 == 1
    then (none, record w { busy_next = 0; errno = ewouldblock })
    else (some 1, record w { busy_next = 1; output = w.output ++ take 1 bytes })

abbrev pub slow : Sys Slow
slow = record {
  get_last_error = λ w. w.errno;
  set_last_error = λ e w. record w { errno = e };
  recv = λ sock. slow_recv;
  send = λ sock. slow_send;
  poll = λ pfds timeout w. ((some 1, pfds), w);
  closesocket = λ sock w. (true, w);
  shutdown = λ sock w. (true, w);
  get_flags = λ sock w. (some 0, w);
  set_flags = λ sock flags w. (true, w);
  getaddrinfo = λ numeric host port w. (inr [], w);
  getnameinfo = λ a w. (none, w);
  new_socket = λ a w. (fd 3, w);
  connect = λ sock a w. (true, w);
  so_error = λ sock w. (none, w);
  ssl_read = λ ssl. slow_recv;
  ssl_write = λ ssl. slow_send;
  ssl_get_error = λ ssl w. ssl_error_none;
  ssl_free = λ ssl w. w;
  ssl_shutdown = λ ssl w. w;
  ssl_do_handshake = λ ssl w. w;
  access = λ path w. true;
  ssl_ctx_new = λ w. (true, w);
  ssl_load_ca = λ path w. (true, w);
  ssl_new = λ w. (some 1, w);
  bio_new = λ w. (true, w);
  ssl_set_host = λ ssl host w. (true, w);
}

abbrev pub slow_link : Link Slow
slow_link = record {
  received = λ w. zeroes (w.to_come % 2 ^ 63);
  sent = λ w. w.output;
  stalls = λ w. w.busy_next % 2;
}

slow-Quiet : (w : Slow) → Quiet slow_link w w
slow-Quiet w = record { received_same = refl; sent_same = refl }

-- What the contract asks of recv.
abbrev Answers : ℕ → Slow → Bytes → Option Bytes × Slow → Type 0
Answers n w ready r =
    ((k : ℕ) × Takes n k ready r.0 (slow_link.received r.1)
      × (slow_link.sent r.1 ≡ slow_link.sent w))
    ⊎ (((ready ≡ []) × (r.0 ≡ some []) × Quiet slow_link w r.1)
        ⊎ ((r.0 ≡ none)
            × (slow.get_last_error r.1 ≡ ewouldblock)
            × (slow_link.stalls r.1 < slow_link.stalls w)
            × Quiet slow_link w r.1))

hand_out-Answers : (n m : ℕ) (w : Slow) → 0 < n → m < 2 ^ 63 → Answers n w (zeroes m) (hand_out m w)
hand_out-Answers n zero w room small = inr (inl (refl, refl, slow-Quiet w))
hand_out-Answers n (suc m) w room small =
    let e : m % 2 ^ 63 ≡ m = omega arith in
    inl (
      1,
      record {
        some_bytes = omega arith;
        in_room = omega arith;
        in_ready = omega arith;
        taken = refl;
        left = rw e refl;
      },
      refl,
    )

slow_recv-Answers : (n : ℕ) (w : Slow) → 0 < n → Answers n w (slow_link.received w) (slow_recv n w)
slow_recv-Answers n w room = elim (Bool-cases (w.busy_next % 2 == 1)) [
  | inl stall ↦
      rw stall
        (inr (inr (refl, refl, ground arith, record { received_same = refl; sent_same = refl })))
  | inr ready ↦ rw ready (hand_out-Answers n (w.to_come % 2 ^ 63) w room (omega arith))
]

slow_send-answers :
    (bytes : Bytes) (w : Slow)
    → 0 < length bytes
    → ((k : ℕ) × Sends slow_link bytes k w (slow_send bytes w).0 (slow_send bytes w).1)
      ⊎ (((slow_send bytes w).0 ≡ none)
          × (slow.get_last_error (slow_send bytes w).1 ≡ ewouldblock)
          × (slow_link.stalls (slow_send bytes w).1 < slow_link.stalls w)
          × Quiet slow_link w (slow_send bytes w).1)
slow_send-answers bytes w some_bytes = elim (Bool-cases (w.busy_next % 2 == 1)) [
  | inl stall ↦
      rw stall (inr (refl, refl, ground arith, record { received_same = refl; sent_same = refl }))
  | inr ready ↦ rw ready (
      inl (
        1,
        record {
          some_bytes = omega arith;
          in_bytes = omega arith;
          counted = refl;
          received_same = refl;
          appended = refl;
        },
      ))
]

pub slow-IsPeer : IsPeer slow (fd 3) slow_link 2
slow-IsPeer = record {
  received_small = λ w. omega (arith, length-zeroes (w.to_come % 2 ^ 63));
  patient = λ w. omega arith;
  errno_apart = λ e w. (record { received_same = refl; sent_same = refl }, refl);
  errno_kept = λ e w. refl;
  recv_answers = λ n w room small. slow_recv-Answers n w room;
  send_answers = λ bytes w some_bytes small. slow_send-answers bytes w some_bytes;
  poll_ready = λ events msec w. ((0, refl), slow-Quiet w, omega arith);
}

abbrev slow_draw : Draw (Client Slow)
slow_draw s = (7, s)

-- A BIO that is no more than its flags: 1 asks for a read to be tried again, 2 for a write.
abbrev flag_calls : BioCalls ℕ
flag_calls = record {
  get_data = λ flags. true;
  get_fd = λ flags. fd 3;
  clear_retry_flags = λ flags. 0;
  set_retry_write = λ flags. 2;
  set_retry_read = λ flags. 1;
}

abbrev slow_start : Slow
slow_start = record { to_come = 5; busy_next = 1; output = []; errno = no_error }

abbrev slow_client : Client Slow
slow_client = record {
  settings = plain;
  sock = fd 3;
  granted_suite = [];
  fd_to_ssl = [];
  busy = [];
  summary = no_summary;
  web100 = [];
  reports = [];
  world = slow_start;
}

libndt_bio_read-recv_tcp_example :
    libndt_bio_read slow flag_calls true
      (record { negative = false; magnitude = 4 })
      (some 2, slow_start)
    ≡ (none, (some 1, record slow_start { busy_next = 0; errno = ewouldblock }))
unfolding recv_tcp errno_result map_errno sys_recv
libndt_bio_read-recv_tcp_example =
    libndt_bio_read-recv_tcp slow flag_calls 2 4 slow_client refl (omega arith)

netx-IsOnline_example : IsOnline (netx slow 5) slow_draw (fd 3) (link_view slow_link)
netx-IsOnline_example =
    netx-IsOnline slow (fd 3) slow_link 2 slow_draw 4 slow-IsPeer (λ s. refl) (omega arith)
