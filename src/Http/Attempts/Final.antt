-- ===== src/Http/Attempts/Final.antt =====
-- What every answer of Do has passed.
use deskaone_sdk.Shared.{ℕ, zero, suc, ◌+◌, ◌≡◌, ◌⊎◌, true, false, Bool-cases, inl, inr}
use deskaone_sdk.Shared.{Option, none, some, Result, ok, err, arith, []}
use deskaone_sdk.Shared.Int.{ℤ, pos_part}
use deskaone_sdk.Shared.Text.{codes}
use deskaone_sdk.Http.{
  HttpRequest, HttpResponse, HttpError, is_retryable_http_error, is_redirect_status, get_header,
}
use deskaone_sdk.Http.Exchange.{HttpClient, Outside, Act}
use deskaone_sdk.Http.Client.{Network, do_with_redirects, is_final}
use deskaone_sdk.Http.Client.Following.{follow-final, is_final-cases}
use deskaone_sdk.Http.Attempts.{
  rounds_up_to, judge, unless_cancelled, attempts, all_attempts, do_request, response_code,
}

module _ {W D A : Type 0} (o : Outside W D) (status_of : A → ℤ) (c : HttpClient) (req : HttpRequest)
    (run : Act (Network W) A) (P : A → Type 0)
    (fine : (net : Network W) (a : A) → (run net).0 ≡ ok a → P a) where
  unless_cancelled-fine :
      (p : Option HttpError × Network W)
      (rest : Network W → Result HttpError (Option A) × Network W) (a : A)
      → ((next : Network W) → (rest next).0 ≡ ok (some a) → P a)
      → (unless_cancelled o status_of c req run p rest).0 ≡ ok (some a)
      → P a
  unless_cancelled-fine (none, next) rest a h q = h next q
  unless_cancelled-fine (some e, next) rest a h q = absurd (ground arith)

  judge-fine :
      (k : ℕ) (p : Result HttpError A × Network W)
      (rest : HttpError → Network W → Result HttpError (Option A) × Network W) (a : A)
      → (p.0 ≡ ok a → P a)
      → ((e : HttpError) (next : Network W) → (rest e next).0 ≡ ok (some a) → P a)
      → (judge o status_of c req run k p rest).0 ≡ ok (some a)
      → P a
  judge-fine k (ok res, mid) rest a h later q = h (cc)
  judge-fine k (err e, mid) rest a h later q =
      elim (Bool-cases (is_retryable_http_error o.quote e)) [
        | inr final ↦ absurd (let x = rw final at q in ground arith)
        | inl again ↦ unless_cancelled-fine _ (rest e) a (later e) (rw again at q)
      ]

  attempts-fine :
      (left k : ℕ) (last : Option HttpError) (net : Network W) (a : A)
      → (attempts o status_of c req run left k last net).0 ≡ ok (some a)
      → P a
  unfolding attempts
  attempts-fine zero k none net a q = absurd (ground arith)
  attempts-fine zero k (some e) net a q = absurd (ground arith)
  attempts-fine (suc left) k last net a q =
      judge-fine k (run net) _ a (fine net a)
        (λ e next q'. attempts-fine left (k + 1) (some e) next a q') q

module _ {W D : Type 0} (o : Outside W D) (sizes : ℕ → ℕ) (rounds : ℕ) where
  redirects-final :
      (c : HttpClient) (req : HttpRequest) (net : Network W) (res : HttpResponse)
      → (do_with_redirects o sizes rounds c req net).0 ≡ ok res
      → is_final o sizes rounds res.status_code res.headers ≡ true
  unfolding do_with_redirects
  redirects-final c req net res q =
      follow-final o sizes rounds c (suc (pos_part c.max_redirects)) req net res q

  -- An answer that Do returns is none that it would follow: its status is no redirect, or it has no
  -- Location.
  pub do_request-final :
      (c : HttpClient) (req : HttpRequest) (net : Network W) (res : HttpResponse)
      → (do_request o sizes rounds (some c) (some req) net).0 ≡ ok (some res)
      → (is_redirect_status res.status_code ≡ false)
        ⊎ (get_header res.headers (codes "Location") ≡ [])
  unfolding do_request all_attempts
  do_request-final c req net res q =
      let final =
        attempts-fine o (response_code o sizes rounds) c req
          (do_with_redirects o sizes rounds c req)
          (λ a. is_final o sizes rounds a.status_code a.headers ≡ true) (redirects-final c req)
          (rounds_up_to c.max_retries) 0 none net res q in
      is_final-cases o sizes rounds res.status_code res.headers final
