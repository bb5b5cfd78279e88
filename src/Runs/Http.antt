-- ===== src/Runs/Http.antt =====
-- A request over a libcurl whose options are all taken, and whose server replies "ok" in two pieces.
use libndt.Curl.{CurlOption, Libcurl, get_maybe_socks5}
use libndt.Curl.Handles.{OpensHandles, get_maybe_socks5-Keeps}
use libndt.Curl.Replies.{Answers, deliver, get_maybe_socks5-Returns}
use libndt.Io.{Result, err, ok}
use libndt.Io.Ensures.{Keeps}
use libndt.Io.Returns.{Returns, ok-injective}
use libndt.Prelude.{List, Option, [], ap, drop, none, refl, some, sym, true, ℕ, ◌++◌, ◌∷◌, ◌≡◌}
use libndt.Prelude.Bytes.{Bytes}
use libndt.Prelude.Text.{codes}

record Web : Type 0 where
  open_handles : List ℕ
  set_options : List CurlOption

abbrev two_pieces_of_ok : List Bytes
two_pieces_of_ok = codes "o" ∷ codes "k" ∷ []

-- What is delivered, or the failure of the callback.
abbrev delivered : Option Bytes → Result Unit Bytes
delivered none = err tt
delivered (some body) = ok body

abbrev web_curl : Libcurl Web
web_curl = record {
  easy_init = λ w. (some 7, record { open_handles = 7 ∷ w.open_handles; set_options = [] });
  easy_cleanup = λ h w. record w { open_handles = drop 1 w.open_handles };
  easy_setopt = λ h o w. (true, record w { set_options = w.set_options ++ o ∷ [] });
  easy_perform = λ h callback ss w. (delivered (deliver callback two_pieces_of_ok ss), w);
  response_code = λ h w. (some 200, w);
}

web-OpensHandles : OpensHandles web_curl (λ w. w.open_handles)
web-OpensHandles = record {
  refused = λ w e. cc;
  opened = λ w h e. ap (λ (o : Option ℕ). elim o [ none ↦ [] | some k ↦ k ∷ w.open_handles ]) e;
  cleaned = λ w h hs e. ap (drop 1) e;
  set = λ h o w. refl;
  performed = λ h callback ss. record { at = λ w. refl };
  asked = λ h w. refl;
}

delivered-eq-ok : (o : Option Bytes) (body : Bytes) → delivered o ≡ ok body → o ≡ some body
delivered-eq-ok none body e = cc
delivered-eq-ok (some b) body e = ap some (ok-injective e)

abbrev web_reply : List CurlOption → List Bytes
web_reply os = two_pieces_of_ok

abbrev web_status : List CurlOption → ℕ
web_status os = 200

web-Answers : Answers web_curl (λ h w. w.set_options) web_reply web_status
web-Answers = record {
  fresh = λ w h e. refl;
  set = λ h o w e. refl;
  performed = λ h callback ss os. record {
    at = λ w p body e. (p, delivered-eq-ok (deliver callback two_pieces_of_ok ss) body e);
  };
  asked = λ h w code e. ap (λ (o : Option ℕ). elim o [ none ↦ 0 | some k ↦ k ]) (sym e);
}

get_maybe_socks5-Keeps_example :
    Keeps
      (λ (w : Web). w.open_handles)
      (get_maybe_socks5 web_curl (codes "9050") (codes "https://h/ndt7") 7)
get_maybe_socks5-Keeps_example =
    get_maybe_socks5-Keeps web_curl (λ w. w.open_handles) web-OpensHandles (codes "9050")
      (codes "https://h/ndt7") 7

get_maybe_socks5-Returns_example :
    Returns
      (get_maybe_socks5 web_curl (codes "9050") (codes "https://h/ndt7") 7)
      (λ body. (body ≡ codes "ok") × (◌≡◌ {A = ℕ} 200 200))
get_maybe_socks5-Returns_example =
    get_maybe_socks5-Returns web_curl (λ h w. w.set_options) web_reply web_status web-Answers
      (codes "9050") (codes "https://h/ndt7") 7

-- The request succeeds.
web-ok :
    (get_maybe_socks5 web_curl [] (codes "u") 7 (record { open_handles = []; set_options = [] })).0
    ≡ ok (codes "ok")
unfolding get_maybe_socks5 deliver
web-ok = refl
