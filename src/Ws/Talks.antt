-- ===== src/Ws/Talks.antt =====
-- What an action does over a stream: what it reads, its result, and the WebSocket frames that it
-- sends. The masking keys are random, so the frames are known by what a server decodes.
use libndt.Io.{Io, Result, err, ignore, ok, pure, raise, ◌>>=◌}
use libndt.Io.Gives.{Gives, Gives-pure, Gives-raise}
use libndt.Net.Stream.{View}
use libndt.Prelude.{List, [], refl, some, ℕ, ◌++◌, ◌∷◌, ◌≡◌}
use libndt.Prelude.Bytes.{Bytes}
use libndt.Ws.Prepare.{decode_frame}
use mathlib.Core.List.{append-nil, append_assoc}

-- The bytes are a frame, whatever follows them.
pub record IsFrame (bytes : Bytes) (first_byte : ℕ) (payload : Bytes) : Type 0 where
  pub decoded : (rest : Bytes) → decode_frame (bytes ++ rest) ≡ some (first_byte, payload, rest)

-- The bytes are these frames, one after the other.
pub data Frames : Bytes → List (ℕ × Bytes) → Type 0 where
  no_frames : Frames [] []
  then_frame :
      {bytes more : Bytes} {first_byte : ℕ} {payload : Bytes} {frames : List (ℕ × Bytes)}
      → IsFrame bytes first_byte payload
      → Frames more frames
      → Frames (bytes ++ more) ((first_byte, payload) ∷ frames)

pub Frames-one :
    {bytes : Bytes} (first_byte : ℕ) (payload : Bytes)
    → IsFrame bytes first_byte payload
    → Frames bytes ((first_byte, payload) ∷ [])
Frames-one {bytes} first_byte payload h = rw append-nil at (then_frame h no_frames)

pub Frames-append :
    {a b : Bytes} {fs gs : List (ℕ × Bytes)}
    → Frames a fs
    → Frames b gs
    → Frames (a ++ b) (fs ++ gs)
Frames-append no_frames g = g
Frames-append {b} (then_frame {bytes = x} {more = y} h f) g =
    rw (append_assoc x y b) (then_frame h (Frames-append f g))

-- From every state with this input and this kept part, the action gives `r`, leaves the input
-- `after`, and appends these frames to what was sent.
pub record Talks {S K E A : Type 0} (view : S → View K) (m : Io S E A) (k : K) (before : Bytes)
    (r : Result E A) (after : Bytes) (frames : List (ℕ × Bytes)) : Type 0 where
  pub at :
      (out : Bytes) (s : S)
      → view s ≡ record { input = before; output = out; kept = k }
      → (sent : Bytes) × ((m s).0 ≡ r)
        × Frames sent frames
        × (view (m s).1 ≡ record { input = after; output = out ++ sent; kept = k })

module _ {S K E A : Type 0} {view : S → View K} where
  -- An action that sends nothing.
  pub Talks-quiet :
      {m : Io S E A} {k : K} {i i' : Bytes} {r : Result E A}
      → ((out : Bytes)
          → Gives view m
              (record { input = i; output = out; kept = k })
              r
              (record { input = i'; output = out; kept = k }))
      → Talks view m k i r i' []
  Talks-quiet g = record {
    at = λ out s h. ([], ((g out).at s h).0, no_frames, rw append-nil ((g out).at s h).1);
  }

  pub Talks-pure : (a : A) (k : K) (i : Bytes) → Talks {E = E} view (pure a) k i (ok a) i []
  Talks-pure a k i = Talks-quiet (λ out. Gives-pure a _)

  pub Talks-raise : (e : E) (k : K) (i : Bytes) → Talks {A = A} view (raise e) k i (err e) i []
  Talks-raise e k i = Talks-quiet (λ out. Gives-raise e _)

module _ {S K E : Type 0} {view : S → View K} where
  pub Talks-ignore :
      {m : Io S E Unit} {k : K} {i i' : Bytes} {fs : List (ℕ × Bytes)}
      → Talks view m k i (ok tt) i' fs
      → Talks view (ignore m) k i (ok tt) i' fs
  Talks-ignore t = record {
    at = λ out s h.
        let (sent, e, fr, v) = t.at out s h in (sent, rw (e, ignore), fr, rw (e, ignore) v);
  }

module _ {S K E A B : Type 0} {view : S → View K} where
  pub Talks-bind :
      {m : Io S E A} (f : A → Io S E B) {k : K} {i i1 i2 : Bytes} {a : A} {r : Result E B}
      {fs gs : List (ℕ × Bytes)}
      → Talks view m k i (ok a) i1 fs
      → Talks view (f a) k i1 r i2 gs
      → Talks view (m >>= f) k i r i2 (fs ++ gs)
  Talks-bind {m} f tm tf = record {
    at = λ out s h.
        let (sent, e, fr, v) = tm.at out s h in
        let (more, e', fr', v') = tf.at (out ++ sent) (m s).1 v in
        (sent ++ more, rw e e', Frames-append fr fr', rw (e, ← append_assoc out sent more) v');
  }

  pub Talks-bind_err :
      {m : Io S E A} (f : A → Io S E B) {k : K} {i i1 : Bytes} {e : E} {fs : List (ℕ × Bytes)}
      → Talks view m k i (err e) i1 fs
      → Talks view (m >>= f) k i (err e) i1 fs
  Talks-bind_err {m} f tm = record {
    at = λ out s h. let (sent, e, fr, v) = tm.at out s h in (sent, rw e refl, fr, rw e v);
  }
