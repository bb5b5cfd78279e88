-- ===== src/Netx/Peer/Contract.antt =====
-- The client's own networking methods over a connection meet the contract that the protocol code
-- relies on.
use libndt.Client.{Client, Settings}
use libndt.Err.{eof, invalid_argument}
use libndt.Io.{err, ok}
use libndt.Io.Gives.{Gives}
use libndt.Msg.Legacy.{Kept}
use libndt.Net.{Draw}
use libndt.Net.Stream.{Stream, View}
use libndt.Netx.{netx_recvn, netx_sendn}
use libndt.Netx.Dial.{netx}
use libndt.Netx.Peer.{IsPeer, IsTcp, Link, at_world}
use libndt.Netx.Peer.Recvn.{netx_recvn-outcome, netx_recvn-oversized}
use libndt.Netx.Peer.Sendn.{netx_sendn-ends, netx_sendn-outcome}
use libndt.Prelude.{
  List, [], ap, arith, drop, false, inl, inr, length, refl, suc, take, ℕ, ◌++◌, ◌<◌, ◌^◌, ◌∙◌, ◌≡◌,
  ◌≤◌,
}
use libndt.Prelude.Bytes.{Bytes}
use libndt.Sys.{Sys}
use libndt.Types.{Socket, has, protocol_flag_tls}

-- What the protocol code can see of a client over a connection.
abbrev pub link_view : {W : Type 0} → Link W → Client W → View Kept
link_view link s = record {
  input = link.received s.world;
  output = link.sent s.world;
  kept = (s.settings, s.sock, s.granted_suite);
}

module _ {W : Type 0} (sys : Sys W) (sock : Socket) (link : Link W) (limit : ℕ)
    (peer : IsPeer sys sock link limit) (settings : Settings) (own : Socket) (suite : List ℕ)
    (tcp : has settings.protocol_flags protocol_flag_tls ≡ false) where
  view_at : Bytes → Bytes → View Kept
  view_at i out = record { input = i; output = out; kept = (settings, own, suite) }

  kept-IsTcp : (s : Client W) → (link_view link s).kept ≡ (settings, own, suite) → IsTcp s
  kept-IsTcp s u = let e : s.settings ≡ settings = ap (λ (x : Kept). x.0) u in rw e tcp

  -- The state behind a call, as it is seen.
  view-at_world :
      (s : Client W) (w : W) (i out : Bytes)
      → (link_view link s).kept ≡ (settings, own, suite)
      → link.received w ≡ i
      → link.sent w ≡ out
      → link_view link (at_world s w) ≡ view_at i out
  unfolding view_at
  view-at_world s w i out u hi ho =
      rw (hi, ho, ap (λ (x : Kept). x.0) u, ap (λ (x : Kept). x.1) u, ap (λ (x : Kept). x.2) u) refl

  recvn_enough :
      (budget n : ℕ) (i out : Bytes)
      → limit ≤ budget
      → n ≤ length i
      → Gives
          (link_view link)
          (netx_recvn sys budget (suc n) sock n)
          (view_at i out)
          (ok (take n i))
          (view_at (drop n i) out)
  unfolding view_at
  recvn_enough budget n i out patience enough = record {
    at = λ s h.
        let hi : link.received s.world ≡ i = ap (λ (v : View Kept). v.input) h in
        let ho : link.sent s.world ≡ out = ap (λ (v : View Kept). v.output) h in
        let hk : (link_view link s).kept ≡ (settings, own, suite) =
          ap (λ (v : View Kept). v.kept) h in
        let (w, same, rest) =
          netx_recvn-outcome sys sock link limit peer budget n s (kept-IsTcp s hk) patience
            (omega (arith, peer.received_small s.world, ap length hi)) in
        elim rest [
          | inl (_, after, e) ↦ (
            rw (e, hi) refl,
            rw e (view-at_world s w _ _ hk (after ∙ ap (drop n) hi) (same ∙ ho)),
          )
          | inr (short, after, e) ↦ absurd (omega (arith, ap length hi))
        ];
  }

  recvn_short :
      (budget n : ℕ) (i out : Bytes)
      → limit ≤ budget
      → length i < n
      → n < 2 ^ 63
      → Gives
          (link_view link)
          (netx_recvn sys budget (suc n) sock n)
          (view_at i out)
          (err eof)
          (view_at [] out)
  unfolding view_at
  recvn_short budget n i out patience few low = record {
    at = λ s h.
        let hi : link.received s.world ≡ i = ap (λ (v : View Kept). v.input) h in
        let ho : link.sent s.world ≡ out = ap (λ (v : View Kept). v.output) h in
        let hk : (link_view link s).kept ≡ (settings, own, suite) =
          ap (λ (v : View Kept). v.kept) h in
        let (w, same, rest) =
          netx_recvn-outcome sys sock link limit peer budget n s (kept-IsTcp s hk) patience low in
        elim rest [
          | inl (enough, after, e) ↦ absurd (omega (arith, ap length hi))
          | inr (_, after, e) ↦ (rw e refl, rw e (view-at_world s w _ _ hk after (same ∙ ho)))
        ];
  }

  recvn_oversized :
      (budget n : ℕ) (i out : Bytes)
      → limit ≤ budget
      → 2 ^ 63 ≤ n
      → Gives
          (link_view link)
          (netx_recvn sys budget (suc n) sock n)
          (view_at i out)
          (err invalid_argument)
          (view_at i out)
  unfolding view_at
  recvn_oversized budget n i out patience huge = record {
    at = λ s h.
        let hi : link.received s.world ≡ i = ap (λ (v : View Kept). v.input) h in
        let ho : link.sent s.world ≡ out = ap (λ (v : View Kept). v.output) h in
        let hk : (link_view link s).kept ≡ (settings, own, suite) =
          ap (λ (v : View Kept). v.kept) h in
        let (w, q, e) =
          netx_recvn-oversized sys sock link limit peer budget n s (kept-IsTcp s hk) patience
            huge in
        (rw e refl, rw e (view-at_world s w i out hk (q.received_same ∙ hi) (q.sent_same ∙ ho)));
  }

  sendn_all :
      (budget : ℕ) (bytes i out : Bytes)
      → limit ≤ budget
      → length bytes < 2 ^ 63
      → Gives
          (link_view link)
          (netx_sendn sys budget (suc (length bytes)) sock bytes)
          (view_at i out)
          (ok tt)
          (view_at i (out ++ bytes))
  unfolding view_at
  sendn_all budget bytes i out patience small = record {
    at = λ s h.
        let hi : link.received s.world ≡ i = ap (λ (v : View Kept). v.input) h in
        let ho : link.sent s.world ≡ out = ap (λ (v : View Kept). v.output) h in
        let hk : (link_view link s).kept ≡ (settings, own, suite) =
          ap (λ (v : View Kept). v.kept) h in
        let (w, same, more, e) =
          netx_sendn-outcome sys sock link limit peer budget bytes s (kept-IsTcp s hk) patience
            small in
        (
          rw e refl,
          rw e (view-at_world s w _ _ hk (same ∙ hi) (more ∙ ap (λ (x : Bytes). x ++ bytes) ho)),
        );
  }

  pub netx-Stream :
      (draw : Draw (Client W)) (fuel : ℕ)
      → ((s : Client W) → link_view link (draw s).1 ≡ link_view link s)
      → limit ≤ fuel
      → Stream (netx sys fuel) draw sock (link_view link) (settings, own, suite)
  unfolding netx view_at
  netx-Stream draw fuel draws patience = record {
    recvn = λ n i out enough. recvn_enough fuel n i out patience enough;
    short = λ n i out few low. recvn_short fuel n i out patience few low;
    oversized = λ n i out few huge.
        (invalid_argument, i, omega arith, recvn_oversized fuel n i out patience huge);
    sendn = λ bytes i out small. sendn_all fuel bytes i out patience small;
    sends = λ bytes s u.
        let (w, r, same, ends, e) =
          netx_sendn-ends sys sock link limit peer fuel bytes s (kept-IsTcp s u) patience in
        (rw e ends, rw e same, rw e u);
    draws = draws;
  }
