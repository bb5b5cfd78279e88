-- ===== src/Client/Run/Failover.antt =====
-- Client::run (include/libndt/libndt.hpp): the hosts that refuse, and the first one that does not.
use libndt.Client.{Client, uses}
use libndt.Client.Run.{Methods, authorize, run_authorized, run_hosts, set_hostname}
use libndt.Io.{err, ok}
use libndt.Prelude.{List, [], ap, false, refl, ◌++◌, ◌∙◌, ◌∷◌, ◌≡◌}
use libndt.Prelude.Bytes.{Bytes}
use libndt.Types.{protocol_flag_ndt7}
use mathlib.Core.List.{append-nil}

module _ {W : Type 0} (methods : Methods (Client W)) where
  -- These hosts are tried, one after the other, and none of them takes the client.
  pub data Refused : List Bytes → Client W → Client W → Type 0 where
    none_tried : {s : Client W} → Refused [] s s
    then_refused :
        {fqdn : Bytes} {rest : List Bytes} {s s1 s2 : Client W}
        → uses protocol_flag_ndt7 (set_hostname methods fqdn s) ≡ false
        → authorize methods (set_hostname methods fqdn s) ≡ (err tt, s1)
        → Refused rest s1 s2
        → Refused (fqdn ∷ rest) s s2

  run_hosts-Refused :
      {bad : List Bytes} {s s' : Client W} (rest : List Bytes)
      → Refused bad s s'
      → run_hosts methods (bad ++ rest) s ≡ run_hosts methods rest s'
  unfolding run_hosts
  run_hosts-Refused rest none_tried = refl
  run_hosts-Refused rest (then_refused raw refused more) =
      rw (raw, ap (λ x. x.0) refused, ap (λ x. x.1) refused) (run_hosts-Refused rest more)

  -- Without ndt7, hosts that refuse are passed over, in their order and with the state that each
  -- of them leaves; the first host that takes the client decides the run, and no later host is
  -- contacted, whatever becomes of the test.
  pub run_hosts-first_willing :
      {bad : List Bytes} {s s' s'' : Client W} (fqdn : Bytes) (rest : List Bytes)
      → Refused bad s s'
      → uses protocol_flag_ndt7 (set_hostname methods fqdn s') ≡ false
      → authorize methods (set_hostname methods fqdn s') ≡ (ok tt, s'')
      → run_hosts methods (bad ++ fqdn ∷ rest) s ≡ run_authorized methods s''
  run_hosts-first_willing {s'} fqdn rest refused raw taken =
      run_hosts-Refused (fqdn ∷ rest) refused
      ∙ unfold run_hosts in rw (raw, ap (λ x. x.0) taken, ap (λ x. x.1) taken) refl

  -- Without ndt7, when every host refuses, the run fails, in the state that the last host left.
  run_hosts-all_refuse :
      {hosts : List Bytes} {s s' : Client W}
      → Refused hosts s s'
      → run_hosts methods hosts s ≡ (err tt, s')
  run_hosts-all_refuse {hosts} {s} {s'} refused =
      rw append-nil at (run_hosts-Refused [] refused) ∙ unfold run_hosts in refl
