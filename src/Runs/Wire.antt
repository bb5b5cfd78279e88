-- ===== src/Runs/Wire.antt =====
-- A peer whose bytes are all known beforehand, and the contract of the networking methods over it.
use libndt.Client.{Client, Json, Settings, default_settings, no_summary}
use libndt.Err.{Err, eof}
use libndt.Io.{Io, err, ok}
use libndt.Msg.Legacy.{Kept}
use libndt.Net.{Draw, Net}
use libndt.Net.Stream.{Stream, View}
use libndt.Prelude.{
  [], ap, arith, drop, false, if◌then◌else◌, leb, length, refl, some, take, true, ℕ, ◌*◌, ◌++◌, ◌+◌,
  ◌<◌, ◌==◌, ◌∷◌, ◌≡◌, ◌≤◌,
}
use libndt.Prelude.Bytes.{Bytes}
use libndt.Types.{fd, protocol_flag_websocket}
use mathlib.Core.Path.{subst}

-- What the peer sends, and what was sent to it.
pub record Wire : Type 0 where
  pub input : Bytes
  pub output : Bytes
  pub seed : ℕ

abbrev pub set_wire : Client Wire → Wire → Client Wire
set_wire s w = record s { world = w }

abbrev pub wire_draw : Draw (Client Wire)
wire_draw s = (s.world.seed, set_wire s (record s.world { seed = s.world.seed * 5 + 3 }))

abbrev wire_recvn : ℕ → Io (Client Wire) Err Bytes
wire_recvn n s =
    if leb n (length s.world.input)
    then (ok (take n s.world.input), set_wire s (record s.world { input = drop n s.world.input }))
    else (err eof, set_wire s (record s.world { input = [] }))

-- As many bytes as there are, up to `n`.
abbrev wire_recv : ℕ → Io (Client Wire) Err Bytes
wire_recv n s =
    if length s.world.input == 0
    then (err eof, s)
    else (ok (take n s.world.input), set_wire s (record s.world { input = drop n s.world.input }))

abbrev pub wire_net : Net (Client Wire)
wire_net = record {
  recvn = λ sock n. wire_recvn n;
  recv = λ sock n. wire_recv n;
  send = λ sock bytes s.
      (ok (length bytes), set_wire s (record s.world { output = s.world.output ++ bytes }));
  sendn = λ sock bytes s. (ok tt, set_wire s (record s.world { output = s.world.output ++ bytes }));
  dial = λ host port s. (ok (fd 3), s);
  closesocket = λ sock s. (ok tt, s);
  wait_readable = λ sock timeout s. (ok tt, s);
}

abbrev pub wire_view : Client Wire → View Kept
wire_view s = record {
  input = s.world.input;
  output = s.world.output;
  kept = (s.settings, s.sock, s.granted_suite);
}

recvn-enough :
    (n : ℕ) (s : Client Wire)
    → n ≤ length s.world.input
    → ((wire_recvn n s).0 ≡ ok (take n s.world.input))
      × (wire_view (wire_recvn n s).1 ≡ record (wire_view s) { input = drop n s.world.input })
recvn-enough n s h =
    let enough : leb n (length s.world.input) ≡ true = ground arith in rw enough (refl, refl)

recvn-short :
    (n : ℕ) (s : Client Wire)
    → length s.world.input < n
    → ((wire_recvn n s).0 ≡ err eof)
      × (wire_view (wire_recvn n s).1 ≡ record (wire_view s) { input = [] })
recvn-short n s h =
    let short : leb n (length s.world.input) ≡ false = ground arith in rw short (refl, refl)

pub wire-Stream : (k : Kept) → Stream wire_net wire_draw (fd 3) wire_view k
wire-Stream k = record {
  recvn = λ n i out enough. record {
    at = λ s h.
        subst
          (λ (v : View Kept).
            n ≤ length v.input
            → ((wire_recvn n s).0 ≡ ok (take n v.input))
              × (wire_view (wire_recvn n s).1 ≡ record v { input = drop n v.input }))
          h (recvn-enough n s) enough;
  };
  short = λ n i out short low. record {
    at = λ s h.
        subst
          (λ (v : View Kept).
            length v.input < n
            → ((wire_recvn n s).0 ≡ err eof)
              × (wire_view (wire_recvn n s).1 ≡ record v { input = [] }))
          h (recvn-short n s) short;
  };
  oversized = λ n i out short huge. (
    eof,
    [],
    omega arith,
    record {
      at = λ s h.
          subst
            (λ (v : View Kept).
              length v.input < n
              → ((wire_recvn n s).0 ≡ err eof)
                × (wire_view (wire_recvn n s).1 ≡ record v { input = [] }))
            h (recvn-short n s) short;
    },
  );
  sendn = λ bytes i out small. record {
    at = λ s h. (refl, ap (λ (v : View Kept). record v { output = v.output ++ bytes }) h);
  };
  sends = λ bytes s h. ((λ p. cc), refl, h);
  draws = λ s. refl;
}

-- A client that is connected.
abbrev pub connected : Settings → Wire → Client Wire
connected settings w = record {
  settings = settings;
  sock = fd 3;
  granted_suite = [];
  fd_to_ssl = [];
  busy = [];
  summary = no_summary;
  web100 = [];
  reports = [];
  world = w;
}

abbrev pub plain : Settings
plain = default_settings

abbrev pub over_ws : Settings
over_ws = record default_settings { protocol_flags = protocol_flag_websocket }

-- JSON texts that are taken as they stand.
abbrev pub plain_json : Json Bytes
plain_json = record {
  parse = some;
  at_string = λ value key. some value;
  object = λ fields. [];
  dump = some;
  entries = λ value. value ∷ [];
}
