-- ===== src/Http/Attempts/Trace.antt =====
-- The attempts as the debug function sees them.
use mathlib.Core.Path.{subst}
use deskaone_sdk.Shared.{ℕ, zero, suc, ◌+◌, ◌≤◌, ◌<◌, ◌≡◌, refl, ◌∙◌, sym, arith, true, false}
use deskaone_sdk.Shared.{List, [], ◌∷◌, ◌++◌, length, Bool-cases, inl, inr, append_assoc, ◌⊎◌}
use deskaone_sdk.Shared.{Option, none, some, Result, ok, err, Result-cases, ap, ◌&&◌}
use deskaone_sdk.Shared.Int.{ℤ, pos, ltb_ℤ, pos_part}
use deskaone_sdk.Http.{HttpRequest, HttpResponse, HttpError, is_retryable_http_error}
use deskaone_sdk.Http.Exchange.{HttpClient, HttpDebugInfo, Outside, Act}
use deskaone_sdk.Http.Client.{Network, do_with_redirects}
use deskaone_sdk.Http.Client.Closing.{follow-Accounts}
use deskaone_sdk.Http.Attempts.{
  rounds_up_to, judge, debug, debug_info, pause, unless_cancelled, attempts, all_attempts,
  do_request, response_code,
}

do_with_redirects-silent :
    {W D : Type 0} (o : Outside W D) (sizes : ℕ → ℕ) (rounds : ℕ) (c : HttpClient)
    (req : HttpRequest) (net : Network W)
    → (do_with_redirects o sizes rounds c req net).1.debugged ≡ net.debugged
unfolding do_with_redirects
do_with_redirects-silent o sizes rounds c req net =
    (follow-Accounts o sizes rounds c (suc (pos_part c.max_redirects)) req net).silent

module _ {W D A : Type 0} (o : Outside W D) (status_of : A → ℤ) (c : HttpClient) (req : HttpRequest)
    (run : Act (Network W) A) where
  -- The error of an attempt that may be made again.
  abbrev pub Retryable : Option HttpError → Type 0
  Retryable none = ⊥
  Retryable (some e) = is_retryable_http_error o.quote e ≡ true

  -- What the last attempt, as it was reported, has to do with the result: the response is its own;
  -- an error is its own, and it could not be tried again or was attempt `total`; or it could, there was
  -- an attempt left, and the wait behind it ended with the context: the error is that of the wait, and
  -- the wait was the last that happened.
  abbrev pub Ends : ℕ → Result HttpError (Option A) × Network W → HttpDebugInfo → Type 0
  Ends total (ok none, net) i = ⊥
  Ends total (ok (some a), net) i = (i.error ≡ none) × (i.status_code ≡ status_of a)
  Ends total (err e, net) i =
      ((i.error ≡ some e) × ((is_retryable_http_error o.quote e ≡ false) ⊎ (i.attempt ≡ total)))
      ⊎ (Retryable i.error
          × (i.attempt < total)
          × (c.has_retry_delay ≡ true)
          × (w : W) × (o.wait w ≡ (some e, net.world)))

  -- The reports of attempts `k + 1` and on: one at least, numbered, of this request, each but the last
  -- with an error that may be tried again.
  abbrev pub IsRun : ℕ → Result HttpError (Option A) × Network W → ℕ → List HttpDebugInfo → Type 0
  IsRun total r k [] = ⊥
  IsRun total r k (i ∷ []) = (i.attempt ≡ k + 1) × (i.url ≡ req.url) × Ends total r i
  IsRun total r k (i ∷ j ∷ log) =
      (i.attempt ≡ k + 1) × (i.url ≡ req.url) × Retryable i.error × IsRun total r (k + 1) (j ∷ log)

  cons-IsRun :
      (total : ℕ) (r : Result HttpError (Option A) × Network W) (k : ℕ) (i : HttpDebugInfo)
      (log : List HttpDebugInfo)
      → i.attempt ≡ k + 1
      → i.url ≡ req.url
      → Retryable i.error
      → IsRun total r (k + 1) log
      → IsRun total r k (i ∷ log)
  cons-IsRun total r k i [] a u e h = absurd h
  cons-IsRun total r k i (j ∷ log) a u e h = (a, u, e, h)

  -- The reports that a call has added to those of `net`.
  pub record Reports (total k left : ℕ) (net : Network W)
      (out : Result HttpError (Option A) × Network W) : Type 0 where
    pub log : List HttpDebugInfo
    pub debugged : out.1.debugged ≡ net.debugged ++ log
    pub is_run : IsRun total out k log
    pub bounded : length log ≤ left

  module _ (has_debug : c.has_debug ≡ true)
      (silent : (net : Network W) → (run net).1.debugged ≡ net.debugged) where
    debug-debugged :
        (k : ℕ) (r : Result HttpError A) (net : Network W)
        → (debug o status_of c req run k r net).debugged
          ≡ net.debugged ++ (debug_info o status_of c req run k r ∷ [])
    debug-debugged k r net = rw has_debug refl

    one-Reports :
        (total k left : ℕ) (net mid : Network W) (r : Result HttpError A)
        (out : Result HttpError (Option A) × Network W)
        → mid.debugged ≡ net.debugged
        → out.1.debugged ≡ (debug o status_of c req run k r mid).debugged
        → Ends total out (debug_info o status_of c req run k r)
        → Reports total k (suc left) net out
    one-Reports total k left net mid r out same e h = record {
      log = debug_info o status_of c req run k r ∷ [];
      debugged =
          e
          ∙ debug-debugged k r mid
          ∙ ap (λ d. d ++ (debug_info o status_of c req run k r ∷ [])) same;
      is_run = (refl, refl, h);
      bounded = omega arith;
    }

    more-Reports :
        (total k left : ℕ) (net mid next : Network W) (x : HttpError)
        (out : Result HttpError (Option A) × Network W)
        → mid.debugged ≡ net.debugged
        → next.debugged ≡ (debug o status_of c req run k (err x) mid).debugged
        → is_retryable_http_error o.quote x ≡ true
        → Reports total (k + 1) left next out
        → Reports total k (suc left) net out
    more-Reports total k left net mid next x out same e again h =
        let i = debug_info o status_of c req run k (err x) in
        record {
          log = i ∷ h.log;
          debugged =
              h.debugged
              ∙ ap (λ d. d ++ h.log)
                  (e ∙ debug-debugged k (err x) mid ∙ ap (λ d. d ++ (i ∷ [])) same)
              ∙ append_assoc net.debugged (i ∷ []) h.log;
          is_run = cons-IsRun total out k i h.log refl refl again h.is_run;
          bounded = omega (arith, h.bounded);
        }

    pause-debugged :
        (k : ℕ) (net : Network W) → (pause o status_of c req run k net).1.debugged ≡ net.debugged
    pause-debugged k net = elim (Bool-cases (ltb_ℤ (pos k) c.max_retries && c.has_retry_delay)) [
      | inl e ↦ rw e refl
      | inr e ↦ rw e refl
    ]

    -- The wait behind attempt `k + 1`, which is not the last, was cancelled with `x`.
    abbrev Cancelled : ℕ → ℕ → HttpError → Network W → Type 0
    Cancelled total k x next =
        (k + 1 < total) × (c.has_retry_delay ≡ true) × (w : W) × (o.wait w ≡ (some x, next.world))

    pause-Cancelled :
        (total k : ℕ) (net next : Network W) (x : HttpError)
        → (n : ℕ) × (c.max_retries ≡ pos n) × (total ≡ suc n)
        → pause o status_of c req run k net ≡ (some x, next)
        → Cancelled total k x next
    pause-Cancelled total k net next x whole h =
        elim (Bool-cases (ltb_ℤ (pos k) c.max_retries && c.has_retry_delay)) [
          | inl e ↦
              (let h' = rw e at h in
                (
                  ground (arith, whole, e),
                  ground (arith, e),
                  net.world,
                  ap (λ (q : Option HttpError × Network W). (q.0, q.1.world)) h',
                ))
          | inr e ↦ absurd (
              let h' = rw e at h in
              let g = ap (λ (q : Option HttpError × Network W). q.0) h' in ground arith)
        ]

    -- What follows a failure that may be tried again: the result of a cancelled wait, or `rest`.
    waited-Reports :
        (total k left : ℕ) (net mid : Network W) (x : HttpError) (p : Option HttpError × Network W)
        (rest : Network W → Result HttpError (Option A) × Network W)
        → mid.debugged ≡ net.debugged
        → is_retryable_http_error o.quote x ≡ true
        → p.1.debugged ≡ (debug o status_of c req run k (err x) mid).debugged
        → ((y : HttpError) (next : Network W) → p ≡ (some y, next) → Cancelled total k y next)
        → ((next : Network W)
            → next.debugged ≡ (debug o status_of c req run k (err x) mid).debugged
            → Reports total k (suc left) net (rest next))
        → Reports total k (suc left) net (unless_cancelled o status_of c req run p rest)
    waited-Reports total k left net mid x (none, next) rest same again e delay later = later next e
    waited-Reports total k left net mid x (some y, next) rest same again e delay later =
        one-Reports total k left net mid (err x) (err y, next) same e
          (let (more, set, w, cancelled) = delay y next refl in
            inr (again, more, set, w, cancelled))

    judge-Reports :
        (total k left : ℕ) (net : Network W)
        (rest : HttpError → Network W → Result HttpError (Option A) × Network W)
        → (n : ℕ) × (c.max_retries ≡ pos n) × (total ≡ suc n)
        → ((x : HttpError) (next : Network W)
            → is_retryable_http_error o.quote x ≡ true
            → next.debugged ≡ (debug o status_of c req run k (err x) (run net).1).debugged
            → Reports total k (suc left) net (rest x next))
        → Reports total k (suc left) net (judge o status_of c req run k (run net) rest)
    judge-Reports total k left net rest whole later =
        let mid = (run net).1 in
        let same : mid.debugged ≡ net.debugged = silent net in
        elim (Result-cases (run net).0) [
          | inl (res, q) ↦
              rw q (
                one-Reports total k left net mid (ok res) (ok (some res), _) same refl (refl, refl))
          | inr (e, q) ↦ rw q (elim (Bool-cases (is_retryable_http_error o.quote e)) [
            | inr final ↦ rw final (
                one-Reports total k left net mid (err e) (err e, _) same refl
                  (inl (refl, inl final)))
            | inl again ↦ rw again (
                waited-Reports total k left net mid e
                  (pause o status_of c req run k (debug o status_of c req run k (err e) mid))
                  (rest e) same again (pause-debugged k (debug o status_of c req run k (err e) mid))
                  (λ y next h.
                    pause-Cancelled total k (debug o status_of c req run k (err e) mid) next y whole
                      h)
                  (λ next told. later e next again told))
          ])
        ]

    attempts-Reports :
        (left k total : ℕ) (last : Option HttpError) (net : Network W)
        → total ≡ k + suc left
        → (n : ℕ) × (c.max_retries ≡ pos n) × (total ≡ suc n)
        → Reports total k (suc left) net (attempts o status_of c req run (suc left) k last net)
    unfolding attempts
    attempts-Reports zero k total last net e whole =
        judge-Reports total k 0 net (λ x next. (err x, next)) whole
          (λ x next again told.
            one-Reports total k 0 net (run net).1 (err x) (err x, next) (silent net) told
              (inl (refl, inr (omega (arith, e)))))
    attempts-Reports (suc left) k total last net e whole =
        judge-Reports total k (suc left) net
          (λ x next. attempts o status_of c req run (suc left) (k + 1) (some x) next) whole
          (λ x next again told.
            more-Reports total k (suc left) net (run net).1 next x
              (attempts o status_of c req run (suc left) (k + 1) (some x) next) (silent net) told
              again (attempts-Reports left (k + 1) total (some x) next (omega (arith, e)) whole))

module _ {W D : Type 0} (o : Outside W D) (sizes : ℕ → ℕ) (rounds : ℕ) where
  -- Where MaxRetries is not negative and there is a debug function, Do makes from one to MaxRetries + 1
  -- attempts, which the debug function sees in order, numbered from 1, all but the last with an error
  -- that may be tried again. Its result is that of the last attempt: the response; or the error, which
  -- may not be tried again unless the attempts are used up; or the attempts are not used up, there is a
  -- delay between them, and the error is the one that the wait for it ended with.
  pub do_request-Reports :
      (c : HttpClient) (req : HttpRequest) (net : Network W) (n : ℕ)
      → c.has_debug ≡ true
      → c.max_retries ≡ pos n
      → Reports o
          (response_code o sizes rounds)
          c
          req
          (do_with_redirects o sizes rounds c req)
          (suc n)
          0
          (suc n)
          net
          (do_request o sizes rounds (some c) (some req) net)
  unfolding do_request all_attempts
  do_request-Reports c req net n debugged e =
      let run : Act (Network W) HttpResponse = do_with_redirects o sizes rounds c req in
      subst
        (λ m.
          Reports o (response_code o sizes rounds) c req run (suc n) 0 (suc n) net
            (attempts o (response_code o sizes rounds) c req run m 0 none net))
        (sym (ap rounds_up_to e))
        (attempts-Reports o (response_code o sizes rounds) c req run debugged
          (λ before. do_with_redirects-silent o sizes rounds c req before) n 0 (suc n) none net
          (omega arith) (n, e, refl))
