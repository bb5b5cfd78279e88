-- ===== src/Netx/Bio.antt =====
-- include/libndt/libndt.hpp: the callbacks of the BIO that passes the reads and the writes of
-- OpenSSL on to Sys.
pub mod Plain
use libndt.Err.{Err, operation_would_block}
use libndt.Netx.Errors.{map_errno}
use libndt.Prelude.{Bool, Option, false, if◌then◌else◌, none, not, some, take, true, ℕ, ◌==◌, ◌||◌}
use libndt.Prelude.Bytes.{Bytes}
use libndt.Strtonum.{Signed}
use libndt.Sys.{Sys, einval, sys_recv, sys_send}
use libndt.Types.{Socket}

-- What the callbacks call of OpenSSL on a BIO, `B`. BIO_get_data answers whether there is a client.
pub record BioCalls (B : Type 0) : Type 0 where
  pub get_data : B → Bool
  pub get_fd : B → Socket
  pub clear_retry_flags : B → B
  pub set_retry_write : B → B
  pub set_retry_read : B → B

-- What is left of a BIO, which may be null, and of the world.
abbrev pub BioState : Type 0 → Type 0 → Type 0
BioState B W = Option B × W

module _ {W B : Type 0} (sys : Sys W) (calls : BioCalls B) where
  -- What follows an operation that returned -1.
  pub bio_failed : {A : Type 0} → (B → B) → B → Err → W → Option A × BioState B W
  bio_failed set_retry bio operation_would_block w = (none, (some (set_retry bio), w))
  bio_failed set_retry bio e w = (none, (some bio, w))

  pub bio_result : {A : Type 0} → (B → B) → B → Option A → W → Option A × BioState B W
  unfolding bio_failed
  bio_result set_retry bio (some n) w = (some n, (some bio, w))
  bio_result set_retry bio none w = bio_failed set_retry bio (map_errno (sys.get_last_error w)) w

  -- `base` is whether the buffer is there, and `count` an `int`.
  pub libndt_bio_operation :
      {A : Type 0}
      → Bool
      → Signed
      → (Socket → ℕ → W → Option A × W)
      → (B → B)
      → BioState B W
      → Option A × BioState B W
  unfolding bio_result
  libndt_bio_operation base count operation set_retry (none, w) =
      (none, (none, sys.set_last_error einval w))
  libndt_bio_operation base count operation set_retry (some bio, w) =
      let r = operation (calls.get_fd bio) count.magnitude w in
      if not base || (count.negative || count.magnitude == 0)
      then (none, (some bio, sys.set_last_error einval w))
      else if not (calls.get_data bio)
      then (none, (some bio, sys.set_last_error einval w))
      else bio_result set_retry (calls.clear_retry_flags bio) r.0 r.1

  -- The buffer is null, or has at least `count` bytes.
  pub libndt_bio_write : Option Bytes → Signed → BioState B W → Option ℕ × BioState B W
  unfolding libndt_bio_operation
  libndt_bio_write none count st =
      libndt_bio_operation false count (λ sock n w. (none, w)) calls.set_retry_write st
  libndt_bio_write (some base) count st =
      libndt_bio_operation true count (λ sock n w. sys_send sys sock (take n base) w)
        calls.set_retry_write st

  pub libndt_bio_read : Bool → Signed → BioState B W → Option Bytes × BioState B W
  unfolding libndt_bio_operation
  libndt_bio_read base count st =
      libndt_bio_operation base count (sys_recv sys) calls.set_retry_read st
