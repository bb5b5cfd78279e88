-- ===== src/Transfer/Ndt7/Frames.antt =====
-- The loop of ndt7_upload (include/libndt/libndt.hpp): the bytes that it counts, by the frames that
-- it sends.
-- What a success of one action behind another says of the two.
use libndt.Client.{Client, Report, Summary}
use libndt.Err.{Err}
use libndt.Io.{Io, ok, ◌>>◌}
use libndt.Io.Returns.{ok-injective}
use libndt.Msg.{to_bool}
use libndt.Net.{Draw, Net}
use libndt.Net.Reads.{Result-cases}
use libndt.Prelude.{
  Bool-cases, List, Option, ap, arith, inl, inr, ltb, refl, suc, zero, ℕ, ◌%◌, ◌*◌, ◌+◌, ◌-◌, ◌<◌,
  ◌^◌, ◌∙◌, ◌∷◌, ◌≡◌,
}
use libndt.Prelude.Bytes.{Bytes}
use libndt.Transfer.{Clock, measurement_interval, on_performance, set_summary}
use libndt.Transfer.Ndt7.{
  Progress, Transferred, UploadMeasurement, advance, max_upload_time, measure, note_tcp_info,
  send_measurement, upload_bufsiz, upload_loop,
}
use libndt.Types.{Socket, nettest_flag_upload}
use libndt.Ws.{random_printable_fill, ws_prepare_frame, ws_send_frame}

then-ok :
    {S E A B : Type 0} (m : Io S E A) (n : Io S E B) (s : S) (b : B)
    → ((m >> n) s).0 ≡ ok b
    → ((a : A) × ((m s).0 ≡ ok a)) × ((n (m s).1).0 ≡ ok b) × (((m >> n) s).1 ≡ (n (m s).1).1)
then-ok m n s b e = elim (Result-cases (m s).0) [
  | inl (a, done) ↦ ((a, done), rw done at e, rw done refl)
  | inr (inl (x, failed)) ↦ let e' = rw failed at e in absurd (cc)
  | inr (inr failed) ↦ let e' = rw failed at e in absurd (cc)
]

to_bool-ok :
    {S A : Type 0} (m : Io S Err A) (s : S) (a : A) → (to_bool m s).0 ≡ ok a → (m s).0 ≡ ok a
to_bool-ok m s a e = elim (Result-cases (m s).0) [
  | inl (b, done) ↦ let e' = rw (done, to_bool) at e in cc
  | inr (inl (x, failed)) ↦ let e' = rw (failed, to_bool) at e in absurd (cc)
  | inr (inr failed) ↦ let e' = rw (failed, to_bool) at e in absurd (cc)
]

module _ {W : Type 0} (net : Net (Client W)) (draw : Draw (Client W)) (clock : Clock W)
    (tcp_info : Socket → W → Option (List (Bytes × ℕ)) × W)
    (dump_measurement : UploadMeasurement → Bytes) where
  -- `sent` is how often netx_sendn has sent these bytes, a binary frame. A text frame, whose first
  -- byte is another, and what is no sending leave it as it is.
  pub record IsTally (frame : Bytes) (sent : Client W → ℕ) : Type 0 where
    pub ticks : (s : Client W) → sent (record s { world = (clock s.world).1 }) ≡ sent s
    pub sends :
        (sock : Socket) (s : Client W)
        → (net.sendn sock frame s).0 ≡ ok tt
        → sent (net.sendn sock frame s).1 ≡ suc (sent s)
    pub texts :
        (sock : Socket) (bytes : Bytes) (s : Client W)
        → sent (net.sendn sock (0x81 ∷ bytes) s).1 ≡ sent s
    pub draws : (s : Client W) → sent (draw s).1 ≡ sent s
    pub asks : (s : Client W) → sent (record s { world = (tcp_info s.sock s.world).1 }) ≡ sent s
    pub summarized : (s : Client W) (u : Summary) → sent (set_summary s u) ≡ sent s
    pub reported :
        (s : Client W) (reports : List Report) → sent (record s { reports = reports }) ≡ sent s

  module _ (frame : Bytes) (sent : Client W → ℕ) (tally : IsTally frame sent) where
    fill-sent : (n : ℕ) (s : Client W) → sent (random_printable_fill draw n s).1 ≡ sent s
    unfolding random_printable_fill
    fill-sent zero s = refl
    fill-sent (suc n) s = fill-sent n (draw s).1 ∙ tally.draws s

    text-sent :
        (sock : Socket) (base : Option Bytes) (n : ℕ) (s : Client W)
        → sent (ws_send_frame net draw sock 0x81 base n s).1 ≡ sent s
    unfolding ws_send_frame ws_prepare_frame
    text-sent sock base n s = tally.texts sock _ (random_printable_fill draw 4 s).1 ∙ fill-sent 4 s

    to_bool-sent : {A : Type 0} (m : Io (Client W) Err A) (s : Client W) → (to_bool m s).1 ≡ (m s).1
    to_bool-sent m s = elim (Result-cases (m s).0) [
      | inl (a, e) ↦ rw (e, to_bool) refl
      | inr (inl (x, e)) ↦ rw (e, to_bool) refl
      | inr (inr e) ↦ rw (e, to_bool) refl
    ]

    on_performance-sent : (r : Report) (s : Client W) → sent (on_performance r s) ≡ sent s
    on_performance-sent r s = elim (Bool-cases s.settings.summary_only) [
      | inl silent ↦ simp silent refl
      | inr loud ↦ simp loud (tally.reported s (r ∷ s.reports))
    ]

    send_measurement-sent :
        (now : ℕ) (p : Progress) (s : Client W)
        → sent (send_measurement net draw clock tcp_info dump_measurement now p s).1 ≡ sent s
    unfolding send_measurement
    send_measurement-sent now p s =
        let info = tcp_info s.sock s.world in
        let s0 = record s { world = info.1 } in
        let u = note_tcp_info info.0 s.summary in
        let s1 = set_summary s0 u in
        let r : Report = record {
          tid = nettest_flag_upload;
          nflows = 1;
          measured_bytes = p.total;
          elapsed = now - p.begin;
          max_runtime = max_upload_time;
        } in
        let s2 = on_performance r s1 in
        ap sent (to_bool-sent (ws_send_frame net draw s2.sock 0x81 _ _) s2)
        ∙ (text-sent s2.sock _ _ s2
            ∙ (on_performance-sent r s1 ∙ (tally.summarized s0 u ∙ tally.asks s)))

    measure-sent :
        (now : ℕ) (p : Progress) (s : Client W)
        → sent (measure net draw clock tcp_info dump_measurement now p s).1 ≡ sent s
    unfolding measure
    measure-sent now p s = elim (Bool-cases (ltb measurement_interval (now - p.latest))) [
      | inl late ↦ rw late (send_measurement-sent now p s)
      | inr early ↦ rw early refl
    ]

    abbrev upload : ℕ → Progress → Io (Client W) Unit Transferred
    upload fuel p = upload_loop net draw clock tcp_info dump_measurement fuel frame p

    -- More than ten seconds, and 2^13 bytes for each of the `k` frames that were sent.
    abbrev Counted : Progress → ℕ → Transferred → ℕ → Type 0
    Counted p before t after =
        (10 * 10 ^ 9 < t.elapsed)
        × ((k : ℕ) × (after ≡ before + k) × (t.total ≡ (p.total + k * 2 ^ 13) % 2 ^ 64))

    Counted-suc :
        (now before : ℕ) (p : Progress) (t : Transferred) (after : ℕ)
        → Counted (advance now upload_bufsiz p) (suc before) t after
        → Counted p before t after
    unfolding advance
    Counted-suc now before p t after (long, (k, more, total)) =
        (long, (suc k, omega (arith, more), omega (arith, total)))

    -- Where `sent` counts the frames that netx_sendn has sent: if the loop of ndt7_upload succeeds,
    -- then it has run for more than ten seconds, and the bytes it has counted are those it had
    -- before and 2^13 bytes for each frame that it has sent, no more and no fewer, modulo 2^64.
    pub upload_loop-frames :
        (fuel : ℕ) (p : Progress) (s : Client W) (t : Transferred)
        → p.total < 2 ^ 64
        → (upload_loop net draw clock tcp_info dump_measurement fuel frame p s).0 ≡ ok t
        → (10 * 10 ^ 9 < t.elapsed)
          × ((k : ℕ) × (sent (upload_loop net draw clock tcp_info dump_measurement fuel frame p s).1
                ≡ sent s + k)
              × (t.total ≡ (p.total + k * 2 ^ 13) % 2 ^ 64))
    unfolding upload_loop advance
    upload_loop-frames zero p s t low e = cc
    upload_loop-frames (suc fuel) p s t low e =
        let now = (clock s.world).0 in
        let s1 = record s { world = (clock s.world).1 } in
        let m = measure net draw clock tcp_info dump_measurement now p s1 in
        let sending = net.sendn s1.sock frame m.1 in
        elim (Bool-cases (ltb max_upload_time (now - p.begin))) [
          | inl late ↦
              let done : Transferred = record { total = p.total; elapsed = now - p.begin } in
              let e' : done ≡ t = ok-injective (rw late at e) in
              rw late
                (rw (← e') (ground arith, (0, omega (arith, tally.ticks s), omega (arith, low))))
          | inr early ↦
              let again = upload fuel (advance now upload_bufsiz p) in
              let send = to_bool (net.sendn s1.sock frame) in
              let (_, e1, after1) =
                then-ok (measure net draw clock tcp_info dump_measurement now p) (send >> again) s1
                  t (rw early at e) in
              let ((u, e2), e3, after2) = then-ok send again m.1 t e1 in
              let same = to_bool-sent (net.sendn s1.sock frame) m.1 in
              let grown : sent sending.1 ≡ suc (sent s) =
                tally.sends s1.sock m.1 (to_bool-ok (net.sendn s1.sock frame) m.1 u e2)
                ∙ ap (λ (n : ℕ). suc n) (measure-sent now p s1 ∙ tally.ticks s) in
              let rest =
                upload_loop-frames fuel (advance now upload_bufsiz p) sending.1 t (omega arith)
                  (rw same at e3) in
              let counted = Counted-suc now (sent s) p t _ (rw grown at rest) in
              rw early (rw (after1, after2, same) counted)
        ]
