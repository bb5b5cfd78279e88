-- ===== src/Curl.antt =====
-- include/libndt/internal/curlx.hpp: the HTTP request of Curlx over the calls of libcurl, which are
-- a parameter, and query_mlabns_curl of include/libndt/libndt.hpp. A call that does not return
-- CURLE_OK answers `none` or `false`.
pub mod Handles
pub mod Replies
use libndt.Client.{Client}
use libndt.Io.{Io, err, ok, pure, raise, ◌>>=◌, ◌>>◌}
use libndt.Netx.{handle}
use libndt.Prelude.{
  Bool, Option, [], if◌then◌else◌, length, ltb, none, not, some, take, ℕ, ◌*◌, ◌++◌, ◌-◌, ◌/◌, ◌==◌,
  ◌^◌,
}
use libndt.Prelude.Bytes.{Bytes}
use libndt.Prelude.Text.{codes}
use libndt.Strtonum.{c_str}

abbrev pub size_max : ℕ
size_max = 2 ^ 64 - 1

-- CurlWriteCb, on the buffer, `size` and `nmemb`, and the stringstream that is behind `userdata`.
-- `none` is an abort of the process.
abbrev pub CurlWriteCb : Type 0
CurlWriteCb = Bytes → ℕ → ℕ → Bytes → Option (ℕ × Bytes)

unfoldable pub libndt_curl_callback : CurlWriteCb
libndt_curl_callback ptr size nmemb ss =
    if nmemb == 0
    then some (0, ss)
    else if ltb (size_max / nmemb) size
    then none
    else some (nmemb, ss ++ take (size * nmemb) ptr)

-- CURLOPT_URL and the other options that are set.
pub data CurlOption : Type 0 where
  option_url option_proxy : Bytes → CurlOption
  option_timeout : ℕ → CurlOption
  option_write_function option_write_data option_failonerror : CurlOption

-- The functions of libcurl on a handle, which is a number.
pub record Libcurl (W : Type 0) : Type 0 where
  pub easy_init : W → Option ℕ × W
  pub easy_cleanup : ℕ → W → W
  pub easy_setopt : ℕ → CurlOption → W → Bool × W
  -- curl_easy_perform, with the callback and what its stringstream holds: what the stringstream
  -- then holds, or an error; `stuck` where the callback aborts.
  pub easy_perform : ℕ → CurlWriteCb → Bytes → Io W Unit Bytes
  pub response_code : ℕ → W → Option ℕ × W

module _ {W : Type 0} (curl : Libcurl W) where
  -- The methods SetoptURL, SetoptProxy and the like, and the check that follows each of them.
  unfoldable pub setopt : ℕ → CurlOption → Io W Unit Unit
  setopt handle option w =
      let r = curl.easy_setopt handle option w in ((if r.0 then ok tt else err tt), r.1)

  unfoldable pub response_code_of : ℕ → Io W Unit ℕ
  response_code_of handle w =
      let r = curl.response_code handle w in
      elim r.0 [ none ↦ (err tt, r.1) | some code ↦ (ok code, r.1) ]

  -- Curlx::Get behind its options.
  unfoldable pub request : ℕ → Io W Unit Bytes
  unfolding response_code_of libndt_curl_callback
  request handle = do
    body ← curl.easy_perform handle libndt_curl_callback []
    code ← response_code_of handle
    if code == 204 then raise tt else if not (code == 200) then raise tt else pure body

  unfoldable pub get : ℕ → Bytes → ℕ → Io W Unit Bytes
  unfolding setopt request
  get handle url timeout = do
    setopt handle (option_url (c_str url))
    setopt handle option_write_function
    setopt handle option_write_data
    setopt handle (option_timeout timeout)
    setopt handle option_failonerror
    request handle

  unfoldable pub set_proxy : ℕ → Bytes → Io W Unit Unit
  unfolding setopt
  set_proxy handle proxy_port =
      if not (length proxy_port == 0)
      then setopt handle (option_proxy (c_str (codes "socks5h://127.0.0.1:" ++ proxy_port)))
      else pure tt

  -- The handle is a UniqueCurl, which is cleaned up on every way out.
  unfoldable pub with_handle : Option ℕ → (ℕ → Io W Unit Bytes) → Io W Unit Bytes
  with_handle none body w = (err tt, w)
  with_handle (some handle) body w = ((body handle w).0, curl.easy_cleanup handle (body handle w).1)

  unfoldable pub get_maybe_socks5 : Bytes → Bytes → ℕ → Io W Unit Bytes
  unfolding set_proxy get with_handle
  get_maybe_socks5 proxy_port url timeout w =
      with_handle (curl.easy_init w).0
        (λ handle. do set_proxy handle proxy_port; get handle url timeout) (curl.easy_init w).1

  pub query_mlabns_curl : Bytes → ℕ → Io (Client W) Unit Bytes
  unfolding get_maybe_socks5
  query_mlabns_curl url timeout s =
      let r = get_maybe_socks5 s.settings.socks5h_port url timeout s.world in
      (r.0, record s { world = r.1 })
