-- ===== src/Curl/Handles.antt =====
-- Curlx::GetMaybeSOCKS5 (include/libndt/internal/curlx.hpp): the handle of the request.
use libndt.Curl.{
  CurlOption, CurlWriteCb, Libcurl, get, get_maybe_socks5, libndt_curl_callback, request,
  response_code_of, set_proxy, setopt, with_handle,
}
use libndt.Io.{Io}
use libndt.Io.Ensures.{Keeps, Keeps-bind, Keeps-if, Keeps-pure, Keeps-raise, Keeps-then}
use libndt.Prelude.{
  List, Option, Option-cases, [], inl, inr, length, none, not, refl, some, ℕ, ◌==◌, ◌∙◌, ◌∷◌, ◌≡◌,
}
use libndt.Prelude.Bytes.{Bytes}

-- What libcurl does with handles: a new one is open until it is cleaned up, and no other call opens
-- or closes any.
pub record OpensHandles {W : Type 0} (curl : Libcurl W) (open_handles : W → List ℕ) : Type 0 where
  pub refused :
      (w : W) → (curl.easy_init w).0 ≡ none → open_handles (curl.easy_init w).1 ≡ open_handles w
  pub opened :
      (w : W) (h : ℕ)
      → (curl.easy_init w).0 ≡ some h
      → open_handles (curl.easy_init w).1 ≡ h ∷ open_handles w
  pub cleaned :
      (w : W) (h : ℕ) (hs : List ℕ)
      → open_handles w ≡ h ∷ hs
      → open_handles (curl.easy_cleanup h w) ≡ hs
  pub set :
      (h : ℕ) (o : CurlOption) (w : W) → open_handles (curl.easy_setopt h o w).1 ≡ open_handles w
  pub performed :
      (h : ℕ) (callback : CurlWriteCb) (ss : Bytes)
      → Keeps open_handles (curl.easy_perform h callback ss)
  pub asked : (h : ℕ) (w : W) → open_handles (curl.response_code h w).1 ≡ open_handles w

module _ {W : Type 0} (curl : Libcurl W) (open_handles : W → List ℕ)
    (opens : OpensHandles curl open_handles) where
  setopt-Keeps : (h : ℕ) (o : CurlOption) → Keeps open_handles (setopt curl h o)
  unfolding setopt
  setopt-Keeps h o = record { at = λ w. opens.set h o w }

  response_code_of-Keeps : (h : ℕ) → Keeps open_handles (response_code_of curl h)
  unfolding response_code_of
  response_code_of-Keeps h = record {
    at = λ w. elim (Option-cases (curl.response_code h w).0) [
      | inl e ↦ rw (e, response_code_of) (opens.asked h w)
      | inr (code, e) ↦ rw (e, response_code_of) (opens.asked h w)
    ];
  }

  request-Keeps : (h : ℕ) → Keeps open_handles (request curl h)
  unfolding request
  request-Keeps h = Keeps-bind _ (opens.performed h libndt_curl_callback []) (λ body.
      Keeps-bind _ (response_code_of-Keeps h) (λ code.
        Keeps-if (code == 204) (Keeps-raise tt)
          (Keeps-if (not (code == 200)) (Keeps-raise tt) (Keeps-pure body))))

  get-Keeps : (h : ℕ) (url : Bytes) (timeout : ℕ) → Keeps open_handles (get curl h url timeout)
  unfolding get
  get-Keeps h url timeout = Keeps-then (setopt-Keeps h _) (
      Keeps-then (setopt-Keeps h _) (
        Keeps-then (setopt-Keeps h _)
          (Keeps-then (setopt-Keeps h _) (Keeps-then (setopt-Keeps h _) (request-Keeps h)))))

  set_proxy-Keeps : (h : ℕ) (port : Bytes) → Keeps open_handles (set_proxy curl h port)
  unfolding set_proxy
  set_proxy-Keeps h port = Keeps-if (not (length port == 0)) (setopt-Keeps h _) (Keeps-pure tt)

  with_handle-cleaned :
      (found : Option ℕ) (body : ℕ → Io W Unit Bytes) (w w1 : W)
      → (found ≡ none → open_handles w1 ≡ open_handles w)
      → ((h : ℕ) → found ≡ some h → open_handles w1 ≡ h ∷ open_handles w)
      → ((h : ℕ) → Keeps open_handles (body h))
      → open_handles (with_handle curl found body w1).1 ≡ open_handles w
  unfolding with_handle
  with_handle-cleaned none body w w1 hn hs hk = hn refl
  with_handle-cleaned (some h) body w w1 hn hs hk =
      opens.cleaned (body h w1).1 h (open_handles w) ((hk h).at w1 ∙ hs h refl)

  -- Whatever fails on the way, and also where the request succeeds: the handles of libcurl that
  -- are open behind GetMaybeSOCKS5 are those that were open before it, so its own handle is
  -- cleaned up, and no other one.
  pub get_maybe_socks5-Keeps :
      (proxy_port url : Bytes) (timeout : ℕ)
      → Keeps open_handles (get_maybe_socks5 curl proxy_port url timeout)
  unfolding get_maybe_socks5
  get_maybe_socks5-Keeps port url timeout = record {
    at = λ w.
        with_handle-cleaned (curl.easy_init w).0 _ w (curl.easy_init w).1 (opens.refused w)
          (opens.opened w) (λ h. Keeps-then (set_proxy-Keeps h port) (get-Keeps h url timeout));
  }
