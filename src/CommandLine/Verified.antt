-- ===== src/CommandLine/Verified.antt =====
-- What main of libndt-client.cpp runs a Client with.
use libndt.CommandLine.{
  Cmdline, Exit, Options, and_then, each, final_step, first_options, flag_step, host_step,
  param_step, parse_command_line, policy_step,
}
use libndt.Io.{Result, err, ok, stuck}
use libndt.Io.Returns.{ok-injective}
use libndt.Prelude.{
  All, Bool, Bool-cases, List, [], arith, false, inl, inr, refl, true, ◌==◌, ◌∷◌, ◌≡◌, ◌≢◌,
}
use libndt.Prelude.Bytes.{Bytes}
use libndt.Prelude.Text.{codes, text_eq}
use mathlib.Core.Path.{subst}

-- What the options keep in a step.
record Keeps (P : Options → Type 0) (r : Result {0} Exit Options) : Type 0 where
  at : (o : Options) → r ≡ ok o → P o

Keeps-ok : (P : Options → Type 0) (o : Options) → P o → Keeps P (ok o)
Keeps-ok P o h = record { at = λ o' e. subst P (ok-injective e) h }

Keeps-err : (P : Options → Type 0) (x : Exit) → Keeps P (err x)
Keeps-err P x = record { at = λ o e. cc }

-- The peer of TLS is verified.
abbrev pub IsVerified : Options → Type 0
IsVerified o = o.settings.tls_verify_peer ≡ true

-- The test of it; a status is no Client.
abbrev verified : Result {0} Exit Options → Bool
verified (ok o) = o.settings.tls_verify_peer
verified _ = true

verified-Keeps : (r : Result {0} Exit Options) → verified r ≡ true → Keeps IsVerified r
verified-Keeps (ok o) h = Keeps-ok IsVerified o h
verified-Keeps (err e) h = Keeps-err IsVerified e
verified-Keeps stuck h = record { at = λ o e. cc }

flag_step-verified :
    (flag : Bytes) (o : Options)
    → text_eq flag (codes "insecure") ≡ false
    → IsVerified o
    → verified (flag_step flag o) ≡ true
unfolding flag_step
flag_step-verified flag o secure h = ground arith

policy_step-verified :
    (value : Bytes) (o : Options) → IsVerified o → verified (policy_step value o) ≡ true
unfolding policy_step
policy_step-verified value o h = ground arith

param_step-verified :
    (param : Bytes × Bytes) (o : Options) → IsVerified o → verified (param_step param o) ≡ true
unfolding param_step policy_step
param_step-verified (name, value) o h = ground arith

Keeps-and_then :
    (P Q : Options → Type 0) (r : Result {0} Exit Options)
    (next : Options → Result {0} Exit Options)
    → Keeps P r
    → ((o : Options) → P o → Keeps Q (next o))
    → Keeps Q (and_then r next)
Keeps-and_then P Q (ok o) next h hn = hn o (h.at o refl)
Keeps-and_then P Q (err e) next h hn = Keeps-err Q e
Keeps-and_then P Q stuck next h hn = record { at = λ o e. cc }

module _ {A : Type 0} where
  each-Keeps :
      (step : A → Options → Result {0} Exit Options) (good : A → Type 0) (list : List A)
      (o : Options)
      → ((a : A) (o' : Options) → good a → IsVerified o' → Keeps IsVerified (step a o'))
      → All good list
      → IsVerified o
      → Keeps IsVerified (each step list o)
  unfolding each
  each-Keeps step good [] o kept all h = Keeps-ok IsVerified o h
  each-Keeps step good (a ∷ more) o kept all h =
      Keeps-and_then IsVerified IsVerified (step a o) (each step more) (kept a o all.0 h)
        (λ o' h'. each-Keeps step good more o' kept all.1 h')

All-unit : {A : Type 0} (list : List A) → All (λ _. Unit {0}) list
All-unit [] = tt
All-unit (a ∷ more) = (tt, All-unit more)

host_step-Keeps :
    (args : List Bytes) (o : Options) → IsVerified o → Keeps IsVerified (host_step args o)
unfolding host_step
host_step-Keeps [] o h = Keeps-err IsVerified _
host_step-Keeps (program ∷ []) o h = Keeps-ok IsVerified o h
host_step-Keeps (program ∷ hostname ∷ []) o h = Keeps-ok IsVerified _ h
host_step-Keeps (program ∷ hostname ∷ x ∷ more) o h = Keeps-err IsVerified _

-- What a Client is built with.
abbrev pub IsChecked : Options → Type 0
IsChecked o = (o.settings.tls_verify_peer ≡ true) × (o.settings.nettest_flags ≢ 0)

final_step-Keeps : (o : Options) → IsVerified o → Keeps IsChecked (final_step o)
unfolding final_step
final_step-Keeps o h = elim (Bool-cases (o.settings.nettest_flags == 0)) [
  | inl no_test ↦ rw no_test (Keeps-err IsChecked _)
  | inr some_test ↦ simp some_test (Keeps-ok IsChecked _ (h, ground arith))
]

-- If the command line is accepted and has no flag `insecure`, then the Client verifies its peer
-- over TLS, whatever other flags and parameters there are, and its `nettest_flags` are not zero.
pub parse_command_line-IsChecked :
    (c : Cmdline) (o : Options)
    → All (λ flag. text_eq flag (codes "insecure") ≡ false) c.flags
    → parse_command_line c ≡ ok o
    → (o.settings.tls_verify_peer ≡ true) × (o.settings.nettest_flags ≢ 0)
unfolding parse_command_line
parse_command_line-IsChecked c o secure e =
    (Keeps-and_then IsVerified IsChecked (each flag_step c.flags first_options) _
        (each-Keeps flag_step (λ flag. text_eq flag (codes "insecure") ≡ false) c.flags
          first_options
          (λ flag o' good h. verified-Keeps (flag_step flag o') (flag_step-verified flag o' good h))
          secure refl)
        (λ o1 h1.
          Keeps-and_then IsVerified IsChecked (each param_step c.params o1) _
            (each-Keeps param_step (λ _. Unit {0}) c.params o1
              (λ param o' _ h.
                verified-Keeps (param_step param o') (param_step-verified param o' h))
              (All-unit c.params) h1)
            (λ o2 h2.
              Keeps-and_then IsVerified IsChecked (host_step c.pos_args o2) final_step
                (host_step-Keeps c.pos_args o2 h2) final_step-Keeps))).at
      o e
