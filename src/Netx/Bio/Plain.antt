-- ===== src/Netx/Bio/Plain.antt =====
-- libndt_bio_read against the plain path of netx_recv_nonblocking (include/libndt/libndt.hpp).
-- What a read of the BIO answers where recv of the client itself gives this result.
use libndt.Client.{Client}
use libndt.Err.{Err, eof, operation_would_block}
use libndt.Io.{Result, continue, err, ok, pure, raise, stuck}
use libndt.Netx.{errno_result, recv_tcp}
use libndt.Netx.Bio.{BioCalls, bio_failed, bio_result, libndt_bio_operation, libndt_bio_read}
use libndt.Netx.Errors.{map_errno}
use libndt.Prelude.{
  Option, [], arith, false, if◌then◌else◌, length, none, refl, some, true, ℕ, ◌<◌, ◌==◌, ◌∷◌, ◌≡◌,
}
use libndt.Prelude.Bytes.{Bytes}
use libndt.Sys.{
  Errno, Sys, eagain, econnaborted, econnrefused, econnreset, ehostunreach, einprogress, eintr,
  einval, eio, enetdown, enetreset, enetunreach, epipe, etimedout, ewouldblock, no_error,
  other_errno, sys_recv,
}

abbrev pub bio_answer : Result Err Bytes → Option Bytes
bio_answer (ok d) = some d
bio_answer (err eof) = some []
bio_answer (err e) = none
bio_answer stuck = none

abbrev pub bio_flags : {B A : Type 0} → (B → B) → B → Result Err A → B
bio_flags set_retry bio (err operation_would_block) = set_retry bio
bio_flags set_retry bio _ = bio

module _ {W B : Type 0} (sys : Sys W) (calls : BioCalls B) where
  failed :
      (set : B → B) (bio : B) (w : W) (e : Errno)
      → (bio_failed sys calls {A = Bytes} set bio (map_errno e) w ≡ (
        bio_answer (err (map_errno e)),
        (some (bio_flags {A = Bytes} set bio (err (map_errno e))), w),
      ))
  unfolding bio_failed map_errno
  failed set bio w no_error = refl
  failed set bio w epipe = refl
  failed set bio w econnaborted = refl
  failed set bio w econnrefused = refl
  failed set bio w econnreset = refl
  failed set bio w ehostunreach = refl
  failed set bio w eintr = refl
  failed set bio w einval = refl
  failed set bio w eio = refl
  failed set bio w enetdown = refl
  failed set bio w enetreset = refl
  failed set bio w enetunreach = refl
  failed set bio w einprogress = refl
  failed set bio w ewouldblock = refl
  failed set bio w eagain = refl
  failed set bio w etimedout = refl
  failed set bio w (other_errno n) = refl

  answered :
      (set : B → B) (bio : B) (s : Client W) (r : Option Bytes) (w : W)
      → (let tcp : Result Err Bytes × Client W =
            continue
              (ok r)
              (λ rv. elim rv [
                | none ↦ errno_result sys
                | some data' ↦ if length data' == 0 then raise eof else pure data'
              ])
              (record s { world = w }) in
          bio_result sys calls set bio r w
          ≡ (bio_answer tcp.0, (some (bio_flags set bio tcp.0), tcp.1.world)))
  unfolding bio_result errno_result
  answered set bio s none w = failed set bio w (sys.get_last_error w)
  answered set bio s (some []) w = refl
  answered set bio s (some (b ∷ bs)) w =
      let full : (length (b ∷ bs) == 0) ≡ false = ground arith in rw full refl

  -- Where a BIO has a client, and a buffer with room for some bytes is given: the read callback
  -- answers the bytes that the client would receive without TLS on the socket of the BIO, an empty
  -- answer where the client would report the end of the stream, and -1 on each other error; it
  -- makes the BIO ask for a retry exactly where that error is operation_would_block, clears the
  -- request in every other case, and leaves the same world.
  pub libndt_bio_read-recv_tcp :
      (bio : B) (n : ℕ) (s : Client W)
      → calls.get_data bio ≡ true
      → 0 < n
      → (let tcp = recv_tcp sys (calls.get_fd bio) n s in
          libndt_bio_read sys calls true
            (record { negative = false; magnitude = n })
            (some bio, s.world)
          ≡ (
            bio_answer tcp.0,
            (
              some (bio_flags calls.set_retry_read (calls.clear_retry_flags bio) tcp.0),
              tcp.1.world,
            ),
          ))
  unfolding libndt_bio_read libndt_bio_operation recv_tcp
  libndt_bio_read-recv_tcp bio n s client room =
      let some_room : (n == 0) ≡ false = ground arith in
      rw (some_room, client)
        (answered calls.set_retry_read (calls.clear_retry_flags bio) s
          (sys_recv sys (calls.get_fd bio) n s.world).0
          (sys_recv sys (calls.get_fd bio) n s.world).1)
