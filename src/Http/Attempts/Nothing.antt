-- ===== src/Http/Attempts/Nothing.antt =====
-- When Do returns neither a response nor an error.
use deskaone_sdk.Shared.{ℕ, zero, suc, ◌+◌, ◌≡◌, ◌≢◌, refl, arith, true}
use deskaone_sdk.Shared.{Bool-cases, inl, inr, ◌↔◌}
use deskaone_sdk.Shared.{Option, none, some, Result, ok, err}
use deskaone_sdk.Shared.Int.{ℤ, pos, negsuc, ltb_ℤ}
use deskaone_sdk.Http.{HttpRequest, HttpError, is_retryable_http_error}
use deskaone_sdk.Http.Exchange.{HttpClient, Outside, Act}
use deskaone_sdk.Http.Client.{Network, do_with_redirects}
use deskaone_sdk.Http.Attempts.{
  rounds_up_to, judge, unless_cancelled, attempts, all_attempts, do_request, response_code,
}

module _ {W D A : Type 0} (o : Outside W D) (status_of : A → ℤ) (c : HttpClient) (req : HttpRequest)
    (run : Act (Network W) A) where
  unless_cancelled-ne :
      (p : Option HttpError × Network W)
      (rest : Network W → Result HttpError (Option A) × Network W)
      → ((next : Network W) → (rest next).0 ≢ ok none)
      → (unless_cancelled o status_of c req run p rest).0 ≢ ok none
  unless_cancelled-ne (none, next) rest h = h next
  unless_cancelled-ne (some e, next) rest h = λ q. cc

  judge-ne :
      (k : ℕ) (p : Result HttpError A × Network W)
      (rest : HttpError → Network W → Result HttpError (Option A) × Network W)
      → ((e : HttpError) (next : Network W) → (rest e next).0 ≢ ok none)
      → (judge o status_of c req run k p rest).0 ≢ ok none
  judge-ne k (ok res, mid) rest h = λ q. cc
  judge-ne k (err e, mid) rest h = elim (Bool-cases (is_retryable_http_error o.quote e)) [
    | inr final ↦ rw final (λ q. cc)
    | inl again ↦ rw again (unless_cancelled-ne _ (rest e) (h e))
  ]

  attempts-ne :
      (left k : ℕ) (e : HttpError) (net : Network W)
      → (attempts o status_of c req run left k (some e) net).0 ≢ ok none
  unfolding attempts
  attempts-ne zero k e net = λ q. cc
  attempts-ne (suc left) k e net =
      judge-ne k (run net) _ (λ x next. attempts-ne left (k + 1) x next)

  all_attempts-none_iff :
      (retries : ℤ) (net : Network W)
      → ((attempts o status_of c req run (rounds_up_to retries) 0 none net).0 ≡ ok none)
        ↔ (ltb_ℤ retries (pos 0) ≡ true)
  unfolding attempts
  all_attempts-none_iff (negsuc n) net = (λ q. ground arith, λ q. refl)
  all_attempts-none_iff (pos n) net = (
    λ q. absurd (judge-ne 0 (run net) _ (λ x next. attempts-ne n 1 x next) q),
    λ q. absurd (ground arith),
  )

module _ {W D : Type 0} (o : Outside W D) (sizes : ℕ → ℕ) (rounds : ℕ) where
  -- Do returns neither a response nor an error exactly where MaxRetries is negative.
  pub do_request-none_iff :
      (c : HttpClient) (req : HttpRequest) (net : Network W)
      → ((do_request o sizes rounds (some c) (some req) net).0 ≡ ok none)
        ↔ (ltb_ℤ c.max_retries (pos 0) ≡ true)
  unfolding do_request all_attempts
  do_request-none_iff c req net =
      all_attempts-none_iff o (response_code o sizes rounds) c req
        (do_with_redirects o sizes rounds c req) c.max_retries net
