-- ===== src/Http/Redirects.antt =====
-- The request behind a redirect, and the answers that end the redirects.
use deskaone_sdk.Shared.{ℕ, ◌≡◌, refl, ◌∙◌, sym, arith, true, false}
use deskaone_sdk.Shared.{List, [], ◌∷◌, Bool-cases, inl, inr}
use deskaone_sdk.Shared.{All, Bool, if◌then◌else◌}
use deskaone_sdk.Shared.Int.{ℤ, pos, negsuc}
use deskaone_sdk.Shared.{◌⊎◌, ◌↔◌}
use deskaone_sdk.Shared.Text.{codes, text_eq→eq, text_eq_refl, trim_space, text_eq, to_upper}
use deskaone_sdk.Shared.Words.{equal_fold, fold_from}
use deskaone_sdk.Http.{
  Headers, HttpRequest, names, has_header, get_header, remove_header, turns_into_get, without_body,
  next_redirect_request,
}

-- A name that matches two keys shows that they are the same but for case.
names_same :
    (key other k : List ℕ) → names key k ≡ true → names other k ≡ true → equal_fold key other ≡ true
unfolding names equal_fold
names_same key other k p q =
    let e = text_eq→eq (fold_from 0 (trim_space k)) (fold_from 0 key) p in
    let e' = text_eq→eq (fold_from 0 (trim_space k)) (fold_from 0 other) q in
    let e'' : fold_from 0 key ≡ fold_from 0 other = sym e ∙ e' in
    rw e'' (text_eq_refl (fold_from 0 other))

has_header-remove_header :
    (headers : Headers) (key : List ℕ) → has_header (remove_header headers key) key ≡ false
unfolding has_header remove_header
has_header-remove_header [] key = refl
has_header-remove_header ((k, v) ∷ headers) key =
    ground (arith, has_header-remove_header headers key)

-- Taking one name away leaves the values of all others.
get_header-remove_header :
    (headers : Headers) (key other : List ℕ)
    → equal_fold key other ≡ false
    → get_header (remove_header headers key) other ≡ get_header headers other
unfolding get_header remove_header
get_header-remove_header [] key other h = refl
get_header-remove_header ((k, v) ∷ headers) key other h =
    ground (arith, get_header-remove_header headers key other, names_same key other k)

-- Taking a name away brings no other.
has_header-remove_other :
    (headers : Headers) (key other : List ℕ)
    → has_header headers other ≡ false
    → has_header (remove_header headers key) other ≡ false
unfolding has_header remove_header
has_header-remove_other [] key other h = refl
has_header-remove_other ((k, v) ∷ headers) key other h =
    ground (arith, has_header-remove_other headers key other)

-- The headers that are taken away, where the request becomes a GET and where it does not.
abbrev pub dropped : Bool → List (List ℕ)
dropped true = codes "Host" ∷ codes "Content-Length" ∷ codes "Content-Type" ∷ []
dropped false = codes "Host" ∷ []

-- How `next` follows `req`: `got` is whether it has become a GET, and `name` a header that stays.
pub record Redirected (got : Bool) (req : HttpRequest) (next_url name : List ℕ) (next : HttpRequest)
    : Type 0 where
  pub url : next.url ≡ next_url
  pub method : next.method ≡ (if got then codes "GET" else req.method)
  pub body : next.body ≡ (if got then [] else req.body)
  pub gone : All (λ key. has_header next.headers key ≡ false) (dropped got)
  pub kept : get_header next.headers name ≡ get_header req.headers name

-- The redirects that are followed by a GET without a body: 303, and 301 or 302 of a POST, whose case
-- and surrounding space do not count.
abbrev pub BecomesGet : ℤ → List ℕ → Type 0
BecomesGet code method =
    (code ≡ pos 303)
    ⊎ (((code ≡ pos 301) ⊎ (code ≡ pos 302)) × (to_upper (trim_space method) ≡ codes "POST"))

is_post : (m : List ℕ) → (text_eq m (codes "POST") ≡ true) ↔ (m ≡ codes "POST")
is_post m = (λ h. text_eq→eq m (codes "POST") h, λ e. rw e (text_eq_refl (codes "POST")))

turns_into_get_iff :
    (code : ℤ) (method : List ℕ) → (turns_into_get code method ≡ true) ↔ BecomesGet code method
unfolding turns_into_get
turns_into_get_iff (pos n) method = ground (arith, is_post (to_upper (trim_space method)))
turns_into_get_iff (negsuc n) method = ground arith

next_redirect_request-turned :
    (req : HttpRequest) (next_url : List ℕ) (code : ℤ) (name : List ℕ)
    → All (λ key. equal_fold key name ≡ false) (dropped (turns_into_get code req.method))
    → Redirected
        (turns_into_get code req.method)
        req
        next_url
        name
        (next_redirect_request req next_url code)
unfolding next_redirect_request without_body
next_redirect_request-turned req next_url code name h =
    elim (Bool-cases (turns_into_get code req.method)) [
      | inr keeps ↦
          (let others = rw keeps at h in
            rw keeps (record {
              url = refl;
              method = refl;
              body = refl;
              gone = (has_header-remove_header req.headers (codes "Host"), tt);
              kept = get_header-remove_header req.headers (codes "Host") name others.0;
            }))
      | inl drops ↦
          (let others = rw drops at h in
            let one = remove_header req.headers (codes "Content-Length") in
            let two = remove_header one (codes "Content-Type") in
            rw drops (record {
              url = refl;
              method = refl;
              body = refl;
              gone = (
                has_header-remove_header two (codes "Host"),
                (
                  has_header-remove_other two (codes "Host") (codes "Content-Length") (
                      has_header-remove_other one (codes "Content-Type") (codes "Content-Length")
                        (has_header-remove_header req.headers (codes "Content-Length"))),
                  (
                    has_header-remove_other two (codes "Host") (codes "Content-Type")
                        (has_header-remove_header one (codes "Content-Type")),
                    tt,
                  ),
                ),
              );
              kept =
                  get_header-remove_header two (codes "Host") name others.0
                  ∙ get_header-remove_header one (codes "Content-Type") name others.1.1.0
                  ∙ get_header-remove_header req.headers (codes "Content-Length") name others.1.0;
            }))
    ]

-- The request behind a redirect goes to the new address and has no Host header. A 303, and a 301 or 302
-- of a POST, makes it a GET with no body and none of the headers of a body; every other redirect keeps
-- method and body. The headers but for these, in the first case `name` and in the second `other`, keep
-- their values, also on another host.
pub next_redirect_request-Redirected :
    (req : HttpRequest) (next_url : List ℕ) (code : ℤ) (name other : List ℕ)
    → All (λ key. equal_fold key name ≡ false) (dropped true)
    → All (λ key. equal_fold key other ≡ false) (dropped false)
    → (BecomesGet code req.method
        × Redirected true req next_url name (next_redirect_request req next_url code))
      ⊎ (¬ BecomesGet code req.method
          × Redirected false req next_url other (next_redirect_request req next_url code))
next_redirect_request-Redirected req next_url code name other h h' =
    let (turns, back) = turns_into_get_iff code req.method in
    elim (Bool-cases (turns_into_get code req.method)) [
      | inl e ↦
          (let next = next_redirect_request-turned req next_url code name (rw e h) in
            inl (turns e, rw e at next))
      | inr e ↦
          (let next = next_redirect_request-turned req next_url code other (rw e h') in
            inr (λ g. absurd (let x = back g in ground arith), rw e at next))
    ]
