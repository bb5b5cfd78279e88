-- ===== src/Runs/Frames.antt =====
-- A run of the loop of ndt7_upload over a network that counts the binary frames it sends.
use libndt.Client.{Client, no_summary}
use libndt.Err.{Err, eof}
use libndt.Io.{Io, err, ok}
use libndt.Net.{Draw, Net}
use libndt.Prelude.{
  List, Option, [], arith, get_or, if◌then◌else◌, length, none, refl, suc, ℕ, ◌%◌, ◌*◌, ◌+◌, ◌<◌,
  ◌==◌, ◌^◌, ◌∷◌, ◌≡◌,
}
use libndt.Prelude.Bytes.{Bytes}
use libndt.Runs.Wire.{plain}
use libndt.Transfer.{Clock, one_second}
use libndt.Transfer.Ndt7.{
  Progress, Transferred, UploadMeasurement, advance, measure, send_measurement, upload_loop,
}
use libndt.Transfer.Ndt7.Frames.{IsTally, upload_loop-frames}
use libndt.Types.{Socket, fd}
use libndt.Ws.{random_printable_fill, ws_prepare_frame, ws_send_frame}

record Tallied : Type 0 where
  pub now : ℕ
  pub frames : ℕ

abbrev tally_sendn : Bytes → Io (Client Tallied) Err Unit
tally_sendn bytes s =
    if get_or bytes 0 0 == 0x81
    then (ok tt, s)
    else (ok tt, record s { world = record s.world { frames = suc s.world.frames } })

abbrev tally_net : Net (Client Tallied)
tally_net = record {
  recvn = λ sock n s. (err eof, s);
  recv = λ sock n s. (err eof, s);
  send = λ sock bytes s. (ok (length bytes), s);
  sendn = λ sock bytes s. tally_sendn bytes s;
  dial = λ host port s. (ok (fd 3), s);
  closesocket = λ sock s. (ok tt, s);
  wait_readable = λ sock timeout s. (ok tt, s);
}

abbrev tally_draw : Draw (Client Tallied)
tally_draw s = (7, s)

-- Six seconds pass with each look.
abbrev six_clock : Clock Tallied
six_clock w = (w.now * one_second, record w { now = w.now + 6 })

abbrev no_fields : Socket → Tallied → Option (List (Bytes × ℕ)) × Tallied
no_fields sock w = (none, w)

abbrev no_text : UploadMeasurement → Bytes
no_text m = []

abbrev binary : Bytes
binary = 0x82 ∷ []

frames-IsTally :
    IsTally tally_net tally_draw six_clock no_fields no_text binary (λ s. s.world.frames)
frames-IsTally = record {
  ticks = λ s. refl;
  sends = λ sock s done. refl;
  texts = λ sock bytes s. refl;
  draws = λ s. refl;
  asks = λ s. refl;
  summarized = λ s u. refl;
  reported = λ s reports. refl;
}

abbrev tally_client : Client Tallied
tally_client = record {
  settings = plain;
  sock = fd 3;
  granted_suite = [];
  fd_to_ssl = [];
  busy = [];
  summary = no_summary;
  web100 = [];
  reports = [];
  world = record { now = 0; frames = 0 };
}

abbrev zero_hour : Progress
zero_hour = record { begin = 0; latest = 0; total = 0 }

abbrev two_frames : Transferred
two_frames = record { total = 16384; elapsed = 12 * one_second }

upload_two :
    (upload_loop tally_net tally_draw six_clock no_fields no_text 4 binary zero_hour tally_client).0
    ≡ ok two_frames
unfolding upload_loop measure send_measurement ws_send_frame advance ws_prepare_frame
    random_printable_fill
upload_two = refl

upload_loop-frames_example :
    (10 * 10 ^ 9 < 12 * one_second)
    × ((k : ℕ) × ((upload_loop tally_net tally_draw six_clock no_fields no_text 4 binary zero_hour
            tally_client).1.world.frames
          ≡ 0 + k)
        × (16384 ≡ (0 + k * 2 ^ 13) % 2 ^ 64))
upload_loop-frames_example =
    upload_loop-frames tally_net tally_draw six_clock no_fields no_text binary (λ s. s.world.frames)
      frames-IsTally 4 zero_hour tally_client two_frames (omega arith) upload_two
