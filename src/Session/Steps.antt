-- ===== src/Session/Steps.antt =====
-- The steps of a test (include/libndt/libndt.hpp) over a stream, without WebSocket and without
-- JSON, as the server drives them.
use libndt.Client.{Client, Json, Settings, uses}
use libndt.Client.Steps.{
  grant_tests, kickoff, recv_kickoff, recv_tests_ids, recv_version, send_login, wait_close,
  wait_in_queue,
}
use libndt.Client.Steps.Grants.{Ids, grant_tests-Ids, kept_ids}
use libndt.Err.{Err}
use libndt.Io.{Io, Result, err, ignore, ok, pure, raise, stuck, ◌>>=◌}
use libndt.Io.Gives.{Gives, Gives-bind, Gives-on, Gives-pure}
use libndt.Msg.{
  getlines, login_flags, msg_write_legacy, msg_write_login, set_nettest_flags, to_bool,
}
use libndt.Msg.Expect.{msg_expect-raw}
use libndt.Msg.Legacy.{Gives-to_bool, Kept, msg_write_legacy-raw, wire}
use libndt.Net.{Draw, Net}
use libndt.Net.Reads.{Result-cases}
use libndt.Net.Stream.{Stream, View, recvn-append}
use libndt.Prelude.{
  List, [], ap, arith, false, if◌then◌else◌, inl, inr, length, refl, sym, ℕ, ◌++◌, ◌<◌, ◌^◌, ◌∙◌,
  ◌∷◌, ◌≡◌, ◌≢◌,
}
use libndt.Prelude.Bytes.{Bytes}
use libndt.Prelude.Text.{codes, text_eq, text_eq_refl}
use libndt.Sys.{Sys}
use libndt.Types.{
  Socket, has, msg_login, msg_srv_queue, protocol_flag_json, protocol_flag_tls,
  protocol_flag_websocket,
}
use mathlib.Core.List.{append-nil}
use mathlib.Core.Path.{ap₂}

abbrev pub with_login_flags : Settings → Settings
with_login_flags settings = record settings { nettest_flags = login_flags settings.nettest_flags }

-- A client whose bytes come from a stream as long as its settings are without TLS, whichever tests
-- it was granted; `view` sees these two, and the socket. Waiting on a socket and closing it return.
pub record IsOnline {W : Type 0} (net : Net (Client W)) (draw : Draw (Client W)) (sock : Socket)
    (view : Client W → View Kept) : Type 0 where
  pub stream :
      (settings : Settings) (suite : List ℕ)
      → has settings.protocol_flags protocol_flag_tls ≡ false
      → Stream net draw sock view (settings, sock, suite)
  pub sees : (s : Client W) → (view s).kept ≡ (s.settings, s.sock, s.granted_suite)
  pub updates :
      (settings : Settings) (suite : List ℕ) (s : Client W)
      → view (record s { settings = settings; granted_suite = suite })
        ≡ record (view s) { kept = (settings, s.sock, suite) }
  pub waits :
      (timeout : ℕ) (s : Client W)
      → (view s).kept.1 ≡ sock
      → ((net.wait_readable s.sock timeout s).0 ≢ stuck)
        × ((view (net.wait_readable s.sock timeout s).1).kept.1 ≡ sock)
  pub closes : (s : Client W) → (view s).kept.1 ≡ sock → (net.closesocket s.sock s).0 ≢ stuck

module _ {W J : Type 0} (sys : Sys W) {net : Net (Client W)} {draw : Draw (Client W)}
    {sock : Socket} {view : Client W → View Kept} (online : IsOnline net draw sock view)
    (json : Json J) (fuel : ℕ) where
  -- A client with these settings and these tests, this input and this output.
  abbrev pub seen_at : Settings → List ℕ → Bytes → Bytes → View Kept
  seen_at settings suite i out = record { input = i; output = out; kept = (settings, sock, suite) }

  pub kept_of :
      (s : Client W) (settings : Settings) (suite : List ℕ) (i out : Bytes)
      → view s ≡ seen_at settings suite i out
      → ◌≡◌ {A = Kept} (s.settings, s.sock, s.granted_suite) (settings, sock, suite)
  kept_of s settings suite i out h = sym (online.sees s) ∙ ap (λ (v : View Kept). v.kept) h

  updated :
      (settings' : Settings) (suite' : List ℕ) (s : Client W) (settings : Settings) (suite : List ℕ)
      (i out : Bytes)
      → view s ≡ seen_at settings suite i out
      → view (record s { settings = settings'; granted_suite = suite' })
        ≡ seen_at settings' suite' i out
  updated settings' suite' s settings suite i out h =
      let same : s.sock ≡ sock = ap (λ (k : Kept). k.1) (kept_of s settings suite i out h) in
      online.updates settings' suite' s
      ∙ ap₂ (λ (v : View Kept) (k : Socket). record v { kept = (settings', k, suite') }) h same

  ignored :
      (m : Io (Client W) Err Unit) (s : Client W) → (m s).0 ≢ stuck → ignore m s ≡ (ok tt, (m s).1)
  ignored m s ends = elim (Result-cases (m s).0) [
    | inl (a, e) ↦ rw (e, ignore) refl
    | inr (inl (x, e)) ↦ rw (e, ignore) refl
    | inr (inr e) ↦ absurd (ends e)
  ]

  to_bool-ignored :
      (m : Io (Client W) Err Unit) (s : Client W)
      → (m s).0 ≢ stuck
      → to_bool (ignore m) s ≡ (ok tt, (m s).1)
  to_bool-ignored m s ends =
      ap
        (λ (r : Result Err Unit × Client W). elim r.0 as (λ _. Result Unit Unit × Client W) [
          | ok a ↦ (ok a, r.1)
          | err e ↦ (err tt, r.1)
          | stuck ↦ (stuck, r.1)
        ])
        (ignored m s ends)

  -- wait_close succeeds, whatever waiting and closing answer.
  pub wait_close-ok :
      (s : Client W) → s.sock ≡ sock → (wait_close sys net draw json fuel s).0 ≡ ok tt
  unfolding wait_close
  wait_close-ok s own =
      let s1 = (net.wait_readable s.sock 3 s).1 in
      let (waited, same) = online.waits 3 s (ap (λ (k : Kept). k.1) (online.sees s) ∙ own) in
      rw
        (
          to_bool-ignored (net.wait_readable s.sock 3) s waited,
          to_bool-ignored (net.closesocket s1.sock) s1 (online.closes s1 same),
        )
        refl

  module _ (settings : Settings) (suite : List ℕ)
      (tcp : has settings.protocol_flags protocol_flag_tls ≡ false)
      (raw : has settings.protocol_flags protocol_flag_websocket ≡ false)
      (no_json : has settings.protocol_flags protocol_flag_json ≡ false) where
    abbrev here : Bytes → Bytes → View Kept
    here i out = seen_at settings suite i out

    pub same_flags :
        (s : Client W) (i out : Bytes) (flag : ℕ)
        → view s ≡ here i out
        → uses flag s ≡ has settings.protocol_flags flag
    same_flags s i out flag h =
        ap (λ (k : Kept). has k.0.protocol_flags flag) (kept_of s settings suite i out h)

    pub send_login-sent :
        (i out : Bytes)
        → Gives view (send_login sys net draw json fuel) (here i out) (ok tt) (
            seen_at
              (with_login_flags settings)
              suite
              i
              (out ++ wire msg_login (login_flags settings.nettest_flags ∷ [])))
    unfolding send_login msg_write_login set_nettest_flags
    send_login-sent i out =
        let flags = login_flags settings.nettest_flags in
        Gives-on _
          (set_nettest_flags net draw json fuel flags >>= λ _.
            msg_write_legacy net draw json fuel msg_login (flags ∷ []))
          (λ s h.
            let no_text : uses protocol_flag_json s ≡ false =
              same_flags s i out protocol_flag_json h ∙ no_json in
            let flags_same : login_flags s.settings.nettest_flags ≡ flags =
              ap (λ (k : Kept). login_flags k.0.nettest_flags) (kept_of s settings suite i out h) in
            rw (no_text, flags_same) refl)
          (Gives-bind (λ _. msg_write_legacy net draw json fuel msg_login (flags ∷ [])) flagged
            (msg_write_legacy-raw (online.stream (with_login_flags settings) suite tcp) online.sees
              json fuel msg_login (flags ∷ []) i out raw (omega arith)))
      where
        flagged :
            Gives view
              (set_nettest_flags net draw json fuel (login_flags settings.nettest_flags))
              (here i out)
              (ok tt)
              (seen_at (with_login_flags settings) suite i out)
        flagged = record {
          at = λ s h.
              let same : s.settings ≡ settings =
                ap (λ (k : Kept). k.0) (kept_of s settings suite i out h) in
              let own : s.granted_suite ≡ suite =
                ap (λ (k : Kept). k.2) (kept_of s settings suite i out h) in
              (
                refl,
                updated (record s.settings { nettest_flags = login_flags settings.nettest_flags })
                      s.granted_suite s settings suite i out h
                    ∙ ap₂
                        (λ (t : Settings) (g : List ℕ).
                          seen_at (record t { nettest_flags = login_flags settings.nettest_flags })
                            g i out)
                        same own,
              );
        }

    pub recv_kickoff-received :
        (rest out : Bytes)
        → Gives view
            (recv_kickoff sys net draw json fuel)
            (here (kickoff ++ rest) out)
            (ok tt)
            (here rest out)
    unfolding recv_kickoff
    recv_kickoff-received rest out =
        Gives-on _
          (to_bool (net.recvn sock (length kickoff)) >>= λ buf.
            if text_eq buf kickoff then pure tt else raise tt)
          (λ s h.
            let no_ws : uses protocol_flag_websocket s ≡ false =
              same_flags s (kickoff ++ rest) out protocol_flag_websocket h ∙ raw in
            let same : s.sock ≡ sock =
              ap (λ (k : Kept). k.1) (kept_of s settings suite (kickoff ++ rest) out h) in
            rw (no_ws, same) refl)
          (Gives-bind (λ buf. if text_eq buf kickoff then pure tt else raise tt)
            (Gives-to_bool (online.stream settings suite tcp) online.sees json fuel (
              recvn-append (online.stream settings suite tcp) (length kickoff) kickoff rest out
                refl))
            (rw (text_eq_refl kickoff) (Gives-pure tt _)))

    pub wait_in_queue-free :
        (rest out : Bytes)
        → Gives view
            (wait_in_queue sys net draw json fuel)
            (here (wire msg_srv_queue (codes "0") ++ rest) out)
            (ok tt)
            (here rest out)
    unfolding wait_in_queue
    wait_in_queue-free rest out =
        Gives-bind _
          (msg_expect-raw (online.stream settings suite tcp) online.sees json fuel msg_srv_queue
            msg_srv_queue (codes "0") rest out raw no_json (omega arith))
          (rw (text_eq_refl (codes "0")) (Gives-pure tt _))

    pub recv_version-received :
        (version rest out : Bytes)
        → length version < 2 ^ 16
        → Gives view
            (recv_version sys net draw json fuel)
            (here (wire msg_login version ++ rest) out)
            (ok tt)
            (here rest out)
    unfolding recv_version
    recv_version-received version rest out short =
        Gives-bind _
          (msg_expect-raw (online.stream settings suite tcp) online.sees json fuel msg_login
            msg_login version rest out raw no_json short)
          (Gives-pure tt _)

    pub recv_tests_ids-granted :
        (text rest out : Bytes) (ids : List ℕ)
        → Ids (getlines b' ' text) ids
        → length text < 2 ^ 16
        → Gives view
            (recv_tests_ids sys net draw json fuel)
            (here (wire msg_login text ++ rest) out)
            (ok tt)
            (seen_at settings (suite ++ kept_ids ids) rest out)
    unfolding recv_tests_ids
    recv_tests_ids-granted text rest out ids words short =
        Gives-bind _
          (msg_expect-raw (online.stream settings suite tcp) online.sees json fuel msg_login
            msg_login text rest out raw no_json short)
          (record { at = granted })
      where
        granted :
            (s : Client W)
            → view s ≡ here rest out
            → ((grant_tests sys net draw json fuel (getlines b' ' text) s).0 ≡ ok tt)
              × (view (grant_tests sys net draw json fuel (getlines b' ' text) s).1
                  ≡ seen_at settings (suite ++ kept_ids ids) rest out)
        granted s h =
            let own : s.granted_suite ≡ suite =
              ap (λ (k : Kept). k.2) (kept_of s settings suite rest out h) in
            let same : s.settings ≡ settings =
              ap (λ (k : Kept). k.0) (kept_of s settings suite rest out h) in
            let all = rw append-nil at (grant_tests-Ids sys net draw json fuel [] s words) in
            rw all (
              unfold grant_tests in
              (
                refl,
                updated s.settings (s.granted_suite ++ kept_ids ids) s settings suite rest out h
                    ∙ ap₂ (λ (t : Settings) (g : List ℕ). seen_at t (g ++ kept_ids ids) rest out)
                        same own,
              ))
