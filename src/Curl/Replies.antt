-- ===== src/Curl/Replies.antt =====
-- Curlx::GetMaybeSOCKS5 (include/libndt/internal/curlx.hpp): the body that is returned.
use libndt.Curl.{
  CurlOption, CurlWriteCb, Libcurl, get, get_maybe_socks5, libndt_curl_callback, option_failonerror,
  option_proxy, option_timeout, option_url, option_write_data, option_write_function, request,
  response_code_of, set_proxy, setopt, size_max, with_handle,
}
use libndt.Io.{Io, ok}
use libndt.Io.Ensures.{Ensures, Ensures-bind, Ensures-if, Ensures-pure, Ensures-raise, Ensures-then}
use libndt.Io.Returns.{Returns, ok-injective}
use libndt.Prelude.{
  Bool-cases, List, Option, Option-cases, [], ap, arith, false, if◌then◌else◌, inl, inr, length,
  ltb, none, not, refl, some, sym, take-length, true, ℕ, ◌*◌, ◌++◌, ◌/◌, ◌==◌, ◌∙◌, ◌∷◌, ◌≡◌,
}
use libndt.Prelude.Bytes.{Bytes}
use libndt.Prelude.Text.{codes}
use libndt.Strtonum.{c_str}
use mathlib.Core.List.{append-nil, append_assoc}

-- libcurl hands a reply over in pieces, each with a `size` of 1; a callback that takes another
-- number of bytes than it is given makes the request fail.
unfoldable pub deliver : CurlWriteCb → List Bytes → Bytes → Option Bytes
deliver callback [] ss = some ss
deliver callback (c ∷ cs) ss = elim (callback c 1 (length c) ss) [
  | none ↦ none
  | some (n, ss') ↦ if n == length c then deliver callback cs ss' else none
]

abbrev pub joined_bytes : List Bytes → Bytes
joined_bytes [] = []
joined_bytes (c ∷ cs) = c ++ joined_bytes cs

-- What libcurl does with the options of a handle: they are kept, in the order in which they are
-- set, and say what a request is answered.
pub record Answers {W : Type 0} (curl : Libcurl W) (options : ℕ → W → List CurlOption)
    (reply : List CurlOption → List Bytes) (status : List CurlOption → ℕ) : Type 0 where
  pub fresh : (w : W) (h : ℕ) → (curl.easy_init w).0 ≡ some h → options h (curl.easy_init w).1 ≡ []
  pub set :
      (h : ℕ) (o : CurlOption) (w : W)
      → (curl.easy_setopt h o w).0 ≡ true
      → options h (curl.easy_setopt h o w).1 ≡ options h w ++ o ∷ []
  pub performed :
      (h : ℕ) (callback : CurlWriteCb) (ss : Bytes) (os : List CurlOption)
      → Ensures
          (λ w. options h w ≡ os)
          (curl.easy_perform h callback ss)
          (λ body w. (options h w ≡ os) × (deliver callback (reply os) ss ≡ some body))
  pub asked :
      (h : ℕ) (w : W) (code : ℕ)
      → (curl.response_code h w).0 ≡ some code
      → code ≡ status (options h w)

callback-piece :
    (c ss ss' : Bytes) (n : ℕ)
    → libndt_curl_callback c 1 (length c) ss ≡ some (n, ss')
    → ss' ≡ ss ++ c
unfolding libndt_curl_callback
callback-piece [] ss ss' n h = rw append-nil (cc)
callback-piece (x ∷ xs) ss ss' n h =
    let some_bytes : (length (x ∷ xs) == 0) ≡ false = ground arith in
    let whole : 1 * length (x ∷ xs) ≡ length (x ∷ xs) = omega arith in
    elim (Bool-cases (ltb (size_max / length (x ∷ xs)) 1)) [
      | inl large ↦ let h' = rw (some_bytes, large) at h in cc
      | inr small ↦ let h' = rw (some_bytes, small, whole, take-length) at h in cc
    ]

deliver-joined_bytes :
    (cs : List Bytes) (ss body : Bytes)
    → deliver libndt_curl_callback cs ss ≡ some body
    → body ≡ ss ++ joined_bytes cs
unfolding deliver
deliver-joined_bytes [] ss body h = rw append-nil (cc)
deliver-joined_bytes (c ∷ cs) ss body h =
    elim (Option-cases (libndt_curl_callback c 1 (length c) ss)) [
      | inl aborted ↦ let h' = rw (aborted, deliver) at h in cc
      | inr ((n, ss'), taken) ↦ elim (Bool-cases (n == length c)) [
        | inl all ↦
            let h' = rw (taken, deliver, all) at h in
            let e = deliver-joined_bytes cs ss' body h' in
            e
            ∙ ap (λ (x : Bytes). x ++ joined_bytes cs) (callback-piece c ss ss' n taken)
            ∙ append_assoc ss c (joined_bytes cs)
        | inr part ↦ let h' = rw (taken, deliver, part) at h in cc
      ]
    ]

-- The options of a request, in the order in which they are set.
abbrev pub proxy_options : Bytes → List CurlOption
proxy_options [] = []
proxy_options (c ∷ cs) = option_proxy (c_str (codes "socks5h://127.0.0.1:" ++ c ∷ cs)) ∷ []

abbrev pub request_options : Bytes → ℕ → List CurlOption
request_options url timeout =
    option_url (c_str url)
    ∷ option_write_function
    ∷ option_write_data
    ∷ option_timeout timeout
    ∷ option_failonerror
    ∷ []

module _ {W : Type 0} (curl : Libcurl W) (options : ℕ → W → List CurlOption)
    (reply : List CurlOption → List Bytes) (status : List CurlOption → ℕ)
    (answers : Answers curl options reply status) where
  -- The options that a handle has.
  abbrev Has : ℕ → List CurlOption → W → Type 0
  Has h os w = options h w ≡ os

  abbrev IsReply : List CurlOption → Bytes → Type 0
  IsReply os body = (body ≡ joined_bytes (reply os)) × (status os ≡ 200)

  setopt-Ensures :
      (h : ℕ) (o : CurlOption) (os : List CurlOption)
      → Ensures (Has h os) (setopt curl h o) (λ u. Has h (os ++ o ∷ []))
  unfolding setopt
  setopt-Ensures h o os = record {
    at = λ w p u e. elim (Bool-cases (curl.easy_setopt h o w).0) [
      | inl done ↦ answers.set h o w done ∙ ap (λ (x : List CurlOption). x ++ o ∷ []) p
      | inr failed ↦ let e' = rw failed at e in cc
    ];
  }

  -- The reply is delivered whole, and the status is known.
  abbrev Replied : List CurlOption → Bytes → ℕ → Type 0
  Replied os body code = (body ≡ joined_bytes (reply os)) × (code ≡ status os)

  response_code_of-Ensures :
      (h : ℕ) (os : List CurlOption) (body : Bytes)
      → Ensures
          (λ w. Has h os w × (deliver libndt_curl_callback (reply os) [] ≡ some body))
          (response_code_of curl h)
          (λ code w. Replied os body code)
  unfolding response_code_of
  response_code_of-Ensures h os body = record {
    at = λ w p code e. elim (Option-cases (curl.response_code h w).0) [
      | inl none_asked ↦ let e' = rw (none_asked, response_code_of) at e in cc
      | inr (c, found) ↦
          let same : c ≡ code = ok-injective (rw (found, response_code_of) at e) in
          (
            deliver-joined_bytes (reply os) [] body p.1,
            sym same ∙ answers.asked h w c found ∙ ap status p.0,
          )
    ];
  }

  request-Ensures :
      (h : ℕ) (os : List CurlOption)
      → Ensures (Has h os) (request curl h) (λ body w. IsReply os body)
  unfolding request
  request-Ensures h os =
      Ensures-bind _
        (λ body w. Has h os w × (deliver libndt_curl_callback (reply os) [] ≡ some body))
        (answers.performed h libndt_curl_callback [] os)
        (λ body.
          Ensures-bind _ (λ code w. Replied os body code) (response_code_of-Ensures h os body)
            (λ code.
              Ensures-if (code == 204) (λ _. Ensures-raise _ _ tt)
                (λ _.
                  Ensures-if (not (code == 200)) (λ _. Ensures-raise _ _ tt)
                    (λ good.
                      Ensures-pure (λ b w. IsReply os b) body
                        (λ w p. (p.0, sym p.1 ∙ ground arith))))))

  get-Ensures :
      (h : ℕ) (url : Bytes) (timeout : ℕ) (os : List CurlOption)
      → Ensures
          (Has h os)
          (get curl h url timeout)
          (λ body w. IsReply (os ++ request_options url timeout) body)
  unfolding get
  get-Ensures h url timeout os =
      let a = option_url (c_str url) ∷ [] in
      let b = option_write_function ∷ [] in
      let c = option_write_data ∷ [] in
      let d = option_timeout timeout ∷ [] in
      let e = option_failonerror ∷ [] in
      let same : ((((os ++ a) ++ b) ++ c) ++ d) ++ e ≡ os ++ request_options url timeout =
        simp append_assoc in
      rw (← same) (
        Ensures-then _ (setopt-Ensures h (option_url (c_str url)) os) (
          Ensures-then _ (setopt-Ensures h option_write_function (os ++ a)) (
            Ensures-then _ (setopt-Ensures h option_write_data ((os ++ a) ++ b)) (
              Ensures-then _ (setopt-Ensures h (option_timeout timeout) (((os ++ a) ++ b) ++ c)) (
                Ensures-then _ (setopt-Ensures h option_failonerror ((((os ++ a) ++ b) ++ c) ++ d))
                  (request-Ensures h (((((os ++ a) ++ b) ++ c) ++ d) ++ e)))))))

  set_proxy-Ensures :
      (h : ℕ) (port : Bytes)
      → Ensures (Has h []) (set_proxy curl h port) (λ u. Has h (proxy_options port))
  unfolding set_proxy
  set_proxy-Ensures h [] = Ensures-pure (λ u. Has h []) tt (λ w p. p)
  set_proxy-Ensures h (c ∷ cs) =
      let given : (length (c ∷ cs) == 0) ≡ false = ground arith in rw given (setopt-Ensures h _ [])

  with_handle-Ensures :
      (found : Option ℕ) (body : ℕ → Io W Unit Bytes) (w : W) (os : List CurlOption)
      → ((h : ℕ) → found ≡ some h → Has h [] w)
      → ((h : ℕ) → Ensures (Has h []) (body h) (λ b w. IsReply os b))
      → (b : Bytes) → (with_handle curl found body w).0 ≡ ok b
      → IsReply os b
  unfolding with_handle
  with_handle-Ensures none body w os fresh ends b e = cc
  with_handle-Ensures (some h) body w os fresh ends b e = (ends h).at w (fresh h refl) b e

  -- A body that GetMaybeSOCKS5 returns is the whole reply, in order, to a request with the URL, the
  -- timeout, the callback with its stringstream, and with CURLOPT_FAILONERROR, all of them set, and
  -- with the SOCKSv5 proxy on the given port of this host exactly if a port was given; and the
  -- status of the reply is 200.
  pub get_maybe_socks5-Returns :
      (proxy_port url : Bytes) (timeout : ℕ)
      → Returns
          (get_maybe_socks5 curl proxy_port url timeout)
          (IsReply (proxy_options proxy_port ++ request_options url timeout))
  unfolding get_maybe_socks5
  get_maybe_socks5-Returns port url timeout = record {
    at = λ w b e.
        with_handle-Ensures (curl.easy_init w).0 _ (curl.easy_init w).1 _ (answers.fresh w)
          (λ h.
            Ensures-then _ (set_proxy-Ensures h port)
              (get-Ensures h url timeout (proxy_options port)))
          b e;
  }
