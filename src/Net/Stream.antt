-- ===== src/Net/Stream.antt =====
-- The contract of the networking methods over one socket, as the protocol code relies on it: what
-- is received is a byte stream, in order, and what is sent is appended to another.
use libndt.Err.{Err, eof}
use libndt.Io.{err, ok, stuck}
use libndt.Io.Gives.{Gives}
use libndt.Net.{Draw, Net}
use libndt.Prelude.{
  [], arith, drop, drop-append, length, length-append, take, take-append, ℕ, ◌++◌, ◌<◌, ◌^◌, ◌≡◌,
  ◌≢◌, ◌≤◌,
}
use libndt.Prelude.Bytes.{Bytes}
use libndt.Types.{Socket}

-- What can be seen of a state: the bytes that will be received, the bytes that were sent, and the
-- part `kept` of the state that networking leaves alone.
pub record View (K : Type 0) : Type 0 where
  pub input : Bytes
  pub output : Bytes
  pub kept : K

pub record Stream {S K : Type 0} (net : Net S) (draw : Draw S) (sock : Socket) (view : S → View K)
    (k : K) : Type 0 where
  pub recvn :
      (n : ℕ) (i out : Bytes)
      → n ≤ length i
      → Gives view
          (net.recvn sock n)
          (record { input = i; output = out; kept = k })
          (ok (take n i))
          (record { input = drop n i; output = out; kept = k })
  -- The stream ends inside of what is asked for.
  pub short :
      (n : ℕ) (i out : Bytes)
      → length i < n
      → n < 2 ^ 63
      → Gives view
          (net.recvn sock n)
          (record { input = i; output = out; kept = k })
          (err eof)
          (record { input = []; output = out; kept = k })
  -- More than the system receives in one call.
  pub oversized :
      (n : ℕ) (i out : Bytes)
      → length i < n
      → 2 ^ 63 ≤ n
      → (e : Err) × (i' : Bytes) × (length i' ≤ length i)
        × Gives view
            (net.recvn sock n)
            (record { input = i; output = out; kept = k })
            (err e)
            (record { input = i'; output = out; kept = k })
  pub sendn :
      (bytes i out : Bytes)
      → length bytes < 2 ^ 63
      → Gives view
          (net.sendn sock bytes)
          (record { input = i; output = out; kept = k })
          (ok tt)
          (record { input = i; output = out ++ bytes; kept = k })
  -- Whatever is sent, the call returns, and what will be received stays.
  pub sends :
      (bytes : Bytes) (s : S)
      → (view s).kept ≡ k
      → ((net.sendn sock bytes s).0 ≢ stuck)
        × ((view (net.sendn sock bytes s).1).input ≡ (view s).input)
        × ((view (net.sendn sock bytes s).1).kept ≡ k)
  pub draws : (s : S) → view (draw s).1 ≡ view s

module _ {S K : Type 0} {net : Net S} {draw : Draw S} {sock : Socket} {view : S → View K} {k : K}
    (stream : Stream net draw sock view k) where
  -- What stands in front of the stream is what is received.
  pub recvn-append :
      (n : ℕ) (a rest out : Bytes)
      → length a ≡ n
      → Gives view
          (net.recvn sock n)
          (record { input = a ++ rest; output = out; kept = k })
          (ok a)
          (record { input = rest; output = out; kept = k })
  recvn-append n a rest out e =
      let h = stream.recvn (length a) (a ++ rest) out (omega (arith, length-append a rest)) in
      rw (← e) (rw (take-append, drop-append) at h)
