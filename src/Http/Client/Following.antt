-- ===== src/Http/Client/Following.antt =====
-- The answer that ends the redirects.
use deskaone_sdk.Shared.{ℕ, zero, suc, ◌≡◌, refl, sym, true, false, Bool-cases, inl, inr, arith}
use deskaone_sdk.Shared.{ok, Result-cases, List, [], ◌∷◌, ◌⊎◌}
use deskaone_sdk.Shared.Int.{ℤ}
use deskaone_sdk.Shared.Text.{codes, is_empty_text}
use deskaone_sdk.Http.{
  Headers, is_redirect_status, HttpRequest, HttpResponse, get_header, next_redirect_request,
}
use deskaone_sdk.Http.Exchange.{HttpClient, Outside}
use deskaone_sdk.Http.Client.{Network, do_once, follow, is_final, resolve_redirect_url}

empty_of_is_empty : (s : List ℕ) → is_empty_text s ≡ true → s ≡ []
empty_of_is_empty [] h = refl
empty_of_is_empty (b ∷ s) h = absurd (ground arith)

module _ {W D : Type 0} (o : Outside W D) (sizes : ℕ → ℕ) (rounds : ℕ) where
  -- Where the loop gives an answer, it is one that the redirects end with.
  pub follow-final :
      (c : HttpClient) (n : ℕ) (req : HttpRequest) (net : Network W) (res : HttpResponse)
      → (follow o sizes rounds c n req net).0 ≡ ok res
      → is_final o sizes rounds res.status_code res.headers ≡ true
  unfolding follow
  follow-final c zero req net res h = absurd (ground arith)
  follow-final c (suc left) req net res h =
      elim (Result-cases (do_once o sizes rounds c req net).0) [
        | inr (e, q) ↦ absurd (let g = rw q at h in ground arith)
        | inl (got, q) ↦
            (let g = rw q at h in
              elim (Bool-cases (is_final o sizes rounds got.status_code got.headers)) [
                | inl final ↦
                    (let e : ok got ≡ ok res = rw final at g in
                      let same : got ≡ res = cc in rw (sym same) final)
                | inr moved ↦
                    (let g' = rw moved at g in
                      elim (Result-cases (
                        resolve_redirect_url o sizes rounds req.url
                          (get_header got.headers (codes "Location")))) [
                            | inr (e, q') ↦ absurd (let x = rw q' at g' in ground arith)
                            | inl (url, q') ↦
                                follow-final c left (next_redirect_request req url got.status_code)
                                  (do_once o sizes rounds c req net).1 res (rw q' at g')
                          ])
              ])
      ]

  pub is_final-cases :
      (code : ℤ) (headers : Headers)
      → is_final o sizes rounds code headers ≡ true
      → (is_redirect_status code ≡ false) ⊎ (get_header headers (codes "Location") ≡ [])
  unfolding is_final
  is_final-cases code headers h = elim (Bool-cases (is_redirect_status code)) [
    | inr e ↦ inl e
    | inl e ↦ inr (empty_of_is_empty (get_header headers (codes "Location")) (rw e at h))
  ]
