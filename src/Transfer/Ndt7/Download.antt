-- ===== src/Transfer/Ndt7/Download.antt =====
-- The loop of ndt7_download (include/libndt/libndt.hpp) over a stream.
use libndt.Client.{Client, Json, Report, Settings, Summary}
use libndt.Err.{Err, eof}
use libndt.Io.{Io, Result, err, ok, raise, stuck}
use libndt.Io.Returns.{ok-injective}
use libndt.Msg.Legacy.{Kept}
use libndt.Net.{Draw, Net}
use libndt.Net.Reads.{Reads, Reads-after, Reads-if, Reads-no_room, Reads-on, Reads-raise}
use libndt.Net.Stream.{Stream, View}
use libndt.Prelude.{
  Bool, Bool-cases, List, Option, ap, arith, false, if◌then◌else◌, inl, inr, length, ltb, none,
  refl, some, suc, sym, true, zero, ℕ, ◌*◌, ◌-◌, ◌<◌, ◌==◌, ◌^◌, ◌∙◌, ◌≡◌, ◌≢◌, ◌≤◌,
}
use libndt.Transfer.{Clock, Numerals, measurement_interval, one_second, set_summary}
use libndt.Transfer.Ndt7.{
  Progress, Transferred, advance, after_message, download_bufsiz, download_loop, note_measurement,
  note_message, note_parsed, report_download,
}
use libndt.Types.{Socket, ws_opcode_text}
use libndt.Ws.{Message, ws_recvmsg}
use libndt.Ws.Termination.{ws_recvmsg-Reads}

module _ {W J : Type 0} {net : Net (Client W)} {draw : Draw (Client W)} {sock : Socket}
    {view : Client W → View Kept} {settings : Settings} {suite : List ℕ}
    (stream : Stream net draw sock view (settings, sock, suite))
    (sees : (s : Client W) → (view s).kept ≡ (s.settings, s.sock, s.granted_suite))
    (clock : Clock W) (json : Json J) (numerals : Numerals J) where
  -- The clock, the summary and the reports are no part of what is seen.
  pub record IsApart : Type 0 where
    pub ticks : (s : Client W) → view (record s { world = (clock s.world).1 }) ≡ view s
    pub summarized : (s : Client W) (u : Summary) → view (set_summary s u) ≡ view s
    pub reported :
        (s : Client W) (reports : List Report) → view (record s { reports = reports }) ≡ view s

  module _ (apart : IsApart) where
    if-view :
        (b : Bool) (s s1 s2 : Client W)
        → view s1 ≡ view s
        → view s2 ≡ view s
        → view (if b then s1 else s2) ≡ view s
    if-view true s s1 s2 e1 e2 = e1
    if-view false s s1 s2 e1 e2 = e2

    pub report-view :
        (now : ℕ) (p : Progress) (s : Client W) → view (report_download now p s) ≡ view s
    unfolding report_download
    report-view now p s =
        if-view (ltb measurement_interval (now - p.latest)) s _ s
          (if-view s.settings.summary_only s s _ refl (apart.reported s _)) refl

    note_parsed-view : (r : Option J) (s : Client W) → view (note_parsed json numerals r s) ≡ view s
    unfolding note_parsed
    note_parsed-view none s = refl
    note_parsed-view (some m) s = apart.summarized s _

    pub note-view : (m : Message) (s : Client W) → view (note_message json numerals m s) ≡ view s
    unfolding note_message note_measurement
    note-view m s =
        if-view (m.opcode == ws_opcode_text) s _ s (note_parsed-view (json.parse m.payload) s) refl

    -- The state in which ws_recvmsg is called.
    after_report : ℕ → Progress → Client W → Client W
    after_report now p s = report_download now p (record s { world = (clock s.world).1 })

    after_report-view :
        (now : ℕ) (p : Progress) (s : Client W) → view (after_report now p s) ≡ view s
    unfolding after_report
    after_report-view now p s = report-view now p _ ∙ apart.ticks s

    -- What a round does from a state that is seen like `s`.
    abbrev Goes : ℕ → Io (Client W) Unit Transferred → Type 0
    Goes room m = Reads view (settings, sock, suite) room 0 m

    -- What follows a message, from the state behind ws_recvmsg.
    after_message-ends :
        (room : ℕ) (again : ℕ → Io (Client W) Unit Transferred) (done : Transferred)
        (r : Result Err Message) (s : Client W)
        → ((n : ℕ) → Goes room (again n))
        → (view s).kept ≡ (settings, sock, suite)
        → r ≢ stuck
        → ((m : Message) → r ≡ ok m → length (view s).input < room)
        → ((after_message json numerals again done r s).0 ≢ stuck)
    unfolding after_message
    after_message-ends room again done (ok m) s goes u h less =
        (goes (length m.payload)).ends (note_message json numerals m s) (rw (note-view m s) u)
          (rw (note-view m s) (less m refl))
    after_message-ends room again done (err eof) s goes u h less = λ p. cc
    after_message-ends room again done (err e) s goes u h less = λ p. cc
    after_message-ends room again done stuck s goes u h less = absurd (h refl)

    after_message-keeps :
        (room : ℕ) (again : ℕ → Io (Client W) Unit Transferred) (done : Transferred)
        (r : Result Err Message) (s : Client W)
        → ((n : ℕ) → Goes room (again n))
        → (view s).kept ≡ (settings, sock, suite)
        → ((view (after_message json numerals again done r s).1).kept ≡ (settings, sock, suite))
          × (length (view (after_message json numerals again done r s).1).input
              ≤ length (view s).input)
    unfolding after_message
    after_message-keeps room again done (ok m) s goes u =
        let g = goes (length m.payload) in
        let n = note_message json numerals m s in
        let un : (view n).kept ≡ (settings, sock, suite) = rw (note-view m s) u in
        (g.keeps n un, rw (note-view m s) at (g.shrinks n un))
    after_message-keeps room again done (err eof) s goes u = (u, omega arith)
    after_message-keeps room again done (err e) s goes u = (u, omega arith)
    after_message-keeps room again done stuck s goes u = (u, omega arith)

    -- ws_recvmsg on a socket, and what follows.
    receive :
        ℕ
        → Socket
        → (ℕ → Io (Client W) Unit Transferred)
        → Transferred
        → Io (Client W) Unit Transferred
    receive budget from again done s =
        let r = ws_recvmsg net draw budget from download_bufsiz s in
        after_message json numerals again done r.0 r.1

    receive-Reads :
        (budget room : ℕ) (again : ℕ → Io (Client W) Unit Transferred) (done : Transferred)
        → room < budget
        → ((n : ℕ) → Goes room (again n))
        → Goes (suc room) (receive budget sock again done)
    unfolding receive
    receive-Reads budget room again done h goes =
        let got = ws_recvmsg-Reads stream budget download_bufsiz in
        let act = λ (s : Client W). ws_recvmsg net draw budget sock download_bufsiz s in
        let same : (s : Client W)
            → (view s).kept ≡ (settings, sock, suite)
            → length (view (receive budget sock again done s).1).input ≤ length (view s).input =
          λ s u. omega (
            arith,
            (after_message-keeps room again done (act s).0 (act s).1 goes (got.keeps s u)).1,
            got.shrinks s u,
          ) in
        record {
          ends = λ s u fits.
              after_message-ends room again done (act s).0 (act s).1 goes (got.keeps s u)
                (got.ends s u (omega arith)) (λ m e. omega (arith, got.costs s m u e));
          keeps = λ s u.
              (after_message-keeps room again done (act s).0 (act s).1 goes (got.keeps s u)).0;
          shrinks = same;
          costs = λ s a u e. omega (arith, same s u);
        }

    pub own_socket : (s : Client W) → (view s).kept ≡ (settings, sock, suite) → s.sock ≡ sock
    own_socket s u = ap (λ (x : Kept). x.1) (sym (sees s) ∙ u)

    abbrev tick : Client W → Client W
    tick s = record s { world = (clock s.world).1 }

    -- The rest of a round behind the check of the time.
    goes_on :
        ℕ → Progress → ℕ → (ℕ → Io (Client W) Unit Transferred) → Io (Client W) Unit Transferred
    unfolding receive
    goes_on budget p now again s =
        receive budget sock again (record { total = p.total; elapsed = now - p.begin })
          (report_download now p s)

    goes_on-Reads :
        (budget room now : ℕ) (p : Progress) (again : ℕ → Io (Client W) Unit Transferred)
        → room < budget
        → ((n : ℕ) → Goes room (again n))
        → Goes (suc room) (goes_on budget p now again)
    unfolding goes_on
    goes_on-Reads budget room now p again h goes =
        Reads-after 0 (report_download now p) (λ s. receive budget sock again _) (report-view now p)
          (λ s. receive-Reads budget room again _ h goes)

    -- A round, as it is on the states that are seen.
    round : ℕ → ℕ → Progress → Client W → Io (Client W) Unit Transferred
    unfolding goes_on
    round budget fuel p s =
        let now = (clock s.world).0 in
        if ltb (s.settings.max_runtime * one_second) (now - p.begin)
        then raise tt
        else goes_on budget p now
            (λ n. download_loop net draw clock json numerals budget fuel (advance now n p))

    round-same :
        (budget fuel : ℕ) (p : Progress) (s : Client W)
        → (view s).kept ≡ (settings, sock, suite)
        → download_loop net draw clock json numerals budget (suc fuel) p s
          ≡ round budget fuel p s (tick s)
    unfolding download_loop round goes_on receive
    round-same budget fuel p s u =
        let now = (clock s.world).0 in
        let s2 = report_download now p (tick s) in
        let seen : (view s2).kept ≡ (settings, sock, suite) =
          rw (report-view now p (tick s), apart.ticks s) u in
        let own : s2.sock ≡ sock = own_socket s2 seen in
        elim (Bool-cases (ltb (s.settings.max_runtime * one_second) (now - p.begin))) [
          | inl late ↦ rw late refl
          | inr early ↦ rw early (rw own refl)
        ]

    -- Over a stream, where the clock, the summary and the reports are no part of what is seen of a
    -- client: with more fuel than there are bytes left to receive, the loop of ndt7_download ends,
    -- whatever the server sends and whatever the clock says, puts no input back, and keeps the
    -- settings and the socket.
    pub download_loop-Reads :
        (budget fuel : ℕ) (p : Progress)
        → fuel ≤ budget
        → Goes fuel (download_loop net draw clock json numerals budget fuel p)
    unfolding download_loop round
    download_loop-Reads budget zero p h = Reads-no_room 0
    download_loop-Reads budget (suc fuel) p h =
        Reads-on 0 _ (λ s. round budget fuel p s (tick s)) (round-same budget fuel p)
          (Reads-after 0 tick (round budget fuel p) apart.ticks (λ s.
            Reads-if _ 0 _ _ (Reads-raise 0 tt) (
              goes_on-Reads budget fuel (clock s.world).0 p _ (omega arith) (λ n.
                download_loop-Reads budget fuel (advance (clock s.world).0 n p) (omega arith)))))

    leb_of : (a b : ℕ) → ltb a b ≡ false → b ≤ a
    leb_of a b h = ground arith

    -- What a loop may return: it ended in time, and its bytes are a number of 64 bits.
    abbrev InTime : Transferred → Type 0
    InTime t = (t.elapsed ≤ settings.max_runtime * one_second) × (t.total < 2 ^ 64)

    after_message-InTime :
        (room : ℕ) (again : ℕ → Io (Client W) Unit Transferred) (done : Transferred)
        (r : Result Err Message) (s : Client W) (t : Transferred)
        → (view s).kept ≡ (settings, sock, suite)
        → ((n : ℕ) (s' : Client W)
            → (view s').kept ≡ (settings, sock, suite)
            → (again n s').0 ≡ ok t
            → InTime t)
        → InTime done
        → (after_message json numerals again done r s).0 ≡ ok t
        → InTime t
    unfolding after_message
    after_message-InTime room again done (ok m) s t u h d e =
        h (length m.payload) (note_message json numerals m s) (rw (note-view m s) u) e
    after_message-InTime room again done (err eof) s t u h d e =
        let e' : done ≡ t = ok-injective e in rw (← e') d
    after_message-InTime room again done (err x) s t u h d e = cc
    after_message-InTime room again done stuck s t u h d e = cc

    -- Over such a stream: if the loop of ndt7_download succeeds, then its last look at the clock
    -- was within the `max_runtime` seconds of the settings, and its count of bytes, which was a number
    -- of 64 bits, still is one.
    pub download_loop-in_time :
        (budget fuel : ℕ) (p : Progress) (s : Client W) (t : Transferred)
        → (view s).kept ≡ (settings, sock, suite)
        → p.total < 2 ^ 64
        → (download_loop net draw clock json numerals budget fuel p s).0 ≡ ok t
        → (t.elapsed ≤ settings.max_runtime * one_second) × (t.total < 2 ^ 64)
    unfolding download_loop advance
    download_loop-in_time budget zero p s t u low e = cc
    download_loop-in_time budget (suc fuel) p s t u low e =
        let now = (clock s.world).0 in
        let s2 = report_download now p (tick s) in
        let seen : (view s2).kept ≡ (settings, sock, suite) =
          rw (report-view now p (tick s), apart.ticks s) u in
        let got = ws_recvmsg-Reads stream budget download_bufsiz in
        let own : s2.sock ≡ sock = own_socket s2 seen in
        let set : s.settings ≡ settings = ap (λ (x : Kept). x.0) (sym (sees s) ∙ u) in
        elim (Bool-cases (ltb (s.settings.max_runtime * one_second) (now - p.begin))) [
          | inl late ↦ absurd (cc)
          | inr early ↦
              let in_time : now - p.begin ≤ settings.max_runtime * one_second =
                rw set at (leb_of (s.settings.max_runtime * one_second) (now - p.begin) early) in
              let again = λ (n : ℕ).
                download_loop net draw clock json numerals budget fuel (advance now n p) in
              let done : Transferred = record { total = p.total; elapsed = now - p.begin } in
              let e' = rw (early, own) at e in
              after_message-InTime fuel again done _ _ t (got.keeps s2 seen)
                (λ n s' u' h.
                  download_loop-in_time budget fuel (advance now n p) s' t u' (omega arith) h)
                (in_time, low) e'
        ]
