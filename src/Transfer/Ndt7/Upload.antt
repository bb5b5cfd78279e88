-- ===== src/Transfer/Ndt7/Upload.antt =====
-- The loop of ndt7_upload (include/libndt/libndt.hpp): it ends by the clock.
use libndt.Client.{Client, Report, Summary}
use libndt.Err.{Err}
use libndt.Io.{Io, stuck, ◌>>=◌, ◌>>◌}
use libndt.Msg.{to_bool}
use libndt.Net.{Draw, Net}
use libndt.Net.Reads.{Result-cases}
use libndt.Prelude.{
  Bool-cases, List, Option, arith, inl, inr, ltb, suc, zero, ℕ, ◌*◌, ◌+◌, ◌-◌, ◌<◌, ◌^◌, ◌∷◌, ◌≢◌,
  ◌≤◌,
}
use libndt.Prelude.Bytes.{Bytes}
use libndt.Transfer.{Clock, measurement_interval, on_performance, set_summary}
use libndt.Transfer.Ndt7.{
  Progress, UploadMeasurement, advance, max_upload_time, measure, note_tcp_info, send_measurement,
  upload_bufsiz, upload_loop,
}
use libndt.Types.{Socket, nettest_flag_upload}
use libndt.Ws.{random_printable_fill, ws_prepare_frame, ws_send_frame}

module _ {W : Type 0} (net : Net (Client W)) (draw : Draw (Client W)) (clock : Clock W)
    (tcp_info : Socket → W → Option (List (Bytes × ℕ)) × W)
    (dump_measurement : UploadMeasurement → Bytes) where
  -- The time goes on with every look at the clock, nothing turns it back, and sending returns.
  pub record IsForward (time : Client W → ℕ) : Type 0 where
    pub ticks :
        (s : Client W)
        → (time s < (clock s.world).0)
          × ((clock s.world).0 ≤ time (record s { world = (clock s.world).1 }))
    pub sends :
        (sock : Socket) (bytes : Bytes) (s : Client W)
        → ((net.sendn sock bytes s).0 ≢ stuck) × (time s ≤ time (net.sendn sock bytes s).1)
    pub draws : (s : Client W) → time s ≤ time (draw s).1
    pub asks : (s : Client W) → time s ≤ time (record s { world = (tcp_info s.sock s.world).1 })
    pub summarized : (s : Client W) (u : Summary) → time s ≤ time (set_summary s u)
    pub reported :
        (s : Client W) (reports : List Report) → time s ≤ time (record s { reports = reports })

  module _ (time : Client W → ℕ) (forward : IsForward time) where
    -- An action that returns, and does not turn the time back.
    abbrev Forward : {E A : Type 0} → Io (Client W) E A → Type 0
    Forward m = (s : Client W) → ((m s).0 ≢ stuck) × (time s ≤ time (m s).1)

    fill-time : (n : ℕ) (s : Client W) → time s ≤ time (random_printable_fill draw n s).1
    unfolding random_printable_fill
    fill-time zero s = omega arith
    fill-time (suc n) s = omega (arith, forward.draws s, fill-time n (draw s).1)

    ws_send_frame-Forward :
        (sock : Socket) (b : ℕ) (base : Option Bytes) (n : ℕ)
        → Forward (ws_send_frame net draw sock b base n)
    unfolding ws_send_frame ws_prepare_frame
    ws_send_frame-Forward sock b base n s =
        let s1 = (random_printable_fill draw 4 s).1 in
        let r = forward.sends sock (ws_prepare_frame draw b base n s).0 s1 in
        (r.0, omega (arith, r.1, fill-time 4 s))

    to_bool-Forward : {A : Type 0} (m : Io (Client W) Err A) → Forward m → Forward (to_bool m)
    to_bool-Forward m h s = elim (Result-cases (m s).0) [
      | inl (a, e) ↦ rw (e, to_bool) ((λ p. cc), (h s).1)
      | inr (inl (x, e)) ↦ rw (e, to_bool) ((λ p. cc), (h s).1)
      | inr (inr e) ↦ absurd ((h s).0 e)
    ]

    on_performance-time : (r : Report) (s : Client W) → time s ≤ time (on_performance r s)
    on_performance-time r s = elim (Bool-cases s.settings.summary_only) [
      | inl silent ↦ simp silent (omega arith)
      | inr loud ↦ simp loud (forward.reported s (r ∷ s.reports))
    ]

    send_measurement-Forward :
        (now : ℕ) (p : Progress)
        → Forward (send_measurement net draw clock tcp_info dump_measurement now p)
    unfolding send_measurement
    send_measurement-Forward now p s =
        let info = tcp_info s.sock s.world in
        let s0 = record s { world = info.1 } in
        let u = note_tcp_info info.0 s.summary in
        let s1 = set_summary s0 u in
        let r : Report = record {
          tid = nettest_flag_upload;
          nflows = 1;
          measured_bytes = p.total;
          elapsed = now - p.begin;
          max_runtime = max_upload_time;
        } in
        let s2 = on_performance r s1 in
        let sent =
          to_bool-Forward (ws_send_frame net draw s2.sock 0x81 _ _)
            (ws_send_frame-Forward s2.sock 0x81 _ _) s2 in
        (
          sent.0,
          omega (arith, sent.1, forward.asks s, forward.summarized s0 u, on_performance-time r s1),
        )

    measure-Forward :
        (now : ℕ) (p : Progress) → Forward (measure net draw clock tcp_info dump_measurement now p)
    unfolding measure
    measure-Forward now p s = elim (Bool-cases (ltb measurement_interval (now - p.latest))) [
      | inl late ↦ rw late (send_measurement-Forward now p s)
      | inr early ↦ rw early ((λ q. cc), omega arith)
    ]

    -- What a bind does that is given the time and returns.
    bind-ends :
        {E A B : Type 0} (m : Io (Client W) E A) (f : A → Io (Client W) E B) (s : Client W)
        → Forward m
        → ((a : A) (s1 : Client W) → time s ≤ time s1 → (f a s1).0 ≢ stuck)
        → ((m >>= f) s).0 ≢ stuck
    bind-ends m f s h hf = elim (Result-cases (m s).0) [
      | inl (a, e) ↦ rw e (hf a (m s).1 (h s).1)
      | inr (inl (x, e)) ↦ rw e (λ p. cc)
      | inr (inr e) ↦ absurd ((h s).0 e)
    ]

    -- Where the time goes on with every look at the clock, nothing turns it back, and sending
    -- returns: with more fuel than there are nanoseconds left of the ten seconds, the loop of
    -- ndt7_upload ends.
    pub upload_loop-ends :
        (fuel : ℕ) (frame : Bytes) (p : Progress) (s : Client W)
        → p.begin + 10 * 10 ^ 9 - time s < fuel
        → (upload_loop net draw clock tcp_info dump_measurement fuel frame p s).0 ≢ stuck
    unfolding upload_loop advance
    upload_loop-ends zero frame p s h = absurd (omega arith)
    upload_loop-ends (suc fuel) frame p s h =
        let now = (clock s.world).0 in
        let s1 = record s { world = (clock s.world).1 } in
        let t = forward.ticks s in
        elim (Bool-cases (ltb max_upload_time (now - p.begin))) [
          | inl late ↦ rw late (λ q. cc)
          | inr early ↦
              let again =
                upload_loop net draw clock tcp_info dump_measurement fuel frame
                  (advance now upload_bufsiz p) in
              let before : now ≤ p.begin + 10 * 10 ^ 9 = ground arith in
              rw early (
                bind-ends (measure net draw clock tcp_info dump_measurement now p)
                  (λ _. to_bool (net.sendn s1.sock frame) >> again) s1 (measure-Forward now p)
                  (λ _ s2 h2.
                    bind-ends (to_bool (net.sendn s1.sock frame)) (λ _. again) s2
                      (to_bool-Forward (net.sendn s1.sock frame) (forward.sends s1.sock frame))
                      (λ _ s3 h3.
                        upload_loop-ends fuel frame (advance now upload_bufsiz p) s3
                          (omega (arith, t.0, t.1, h2, h3, before, h)))))
        ]
