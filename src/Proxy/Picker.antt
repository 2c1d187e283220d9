-- ===== src/Proxy/Picker.antt =====
-- proxy/proxy_picker.go: the pickers as functions of what they keep between calls.
use deskaone_sdk.Shared.{
  ℕ, zero, suc, ◌+◌, ◌-◌, ◌%◌, ◌^◌, ◌<◌, ◌≡◌, refl, ap, ap₂, sym, append_assoc, ◌∙◌, arith,
}
use deskaone_sdk.Shared.{Option, none, some, List, [], ◌∷◌, ◌++◌, map, Result, ok, err}
use deskaone_sdk.Shared.{length, length-append}
use native.Mathlib.Nat.{mod-eq_of_lt, mod-add-mod}
use deskaone_sdk.Proxy.{ProxyConfig}

pub data PickError : Type 0 where
  no_proxy_available index_out_of_range : PickError

-- A list of pointers: `none` is the nil pointer. An index outside the list would be a panic.
abbrev pub at_index : List (Option ProxyConfig) → ℕ → Result PickError (Option ProxyConfig)
at_index [] i = err index_out_of_range
at_index (p ∷ ps) zero = ok p
at_index (p ∷ ps) (suc i) = at_index ps i

-- `NewRoundRobinProxyPicker`: a call on the counter, which is a uint64.
pub round_robin : List (Option ProxyConfig) → ℕ → Result PickError (Option ProxyConfig) × ℕ
round_robin [] index = (err no_proxy_available, index)
round_robin (p ∷ ps) index =
    let next = (index + 1) % 2 ^ 64 in
    let i = (next + 2 ^ 64 - 1) % 2 ^ 64 in (at_index (p ∷ ps) (i % length (p ∷ ps)), next)

-- `NewRandomProxyPicker`: `draw` is what `rng.Intn(n)` returns for the number of proxies.
pub random_pick : (ℕ → ℕ) → List (Option ProxyConfig) → Result PickError (Option ProxyConfig)
random_pick draw [] = err no_proxy_available
random_pick draw (p ∷ ps) = at_index (p ∷ ps) (draw (length (p ∷ ps)))

-- `NewSingleProxyPicker`.
pub single_pick : Option ProxyConfig → Result PickError (Option ProxyConfig)
single_pick none = err no_proxy_available
single_pick (some p) = ok (some p)

-- `n` calls in a row.
pub rounds : List (Option ProxyConfig) → ℕ → ℕ → List (Result PickError (Option ProxyConfig)) × ℕ
rounds ps zero index = ([], index)
rounds ps (suc n) index =
    let (r, next) = round_robin ps index in let (rs, last) = rounds ps n next in (r ∷ rs, last)

at_index-append :
    (front : List (Option ProxyConfig)) (p : Option ProxyConfig) (ps : List (Option ProxyConfig))
    → at_index (front ++ (p ∷ ps)) (length front) ≡ ok p
at_index-append [] p ps = refl
at_index-append (q ∷ front) p ps = at_index-append front p ps

-- One call, below the last value of the counter.
round_robin-at_index :
    (ps : List (Option ProxyConfig)) (index : ℕ)
    → 0 < length ps
    → index + 1 < 2 ^ 64
    → round_robin ps index ≡ (at_index ps (index % length ps), index + 1)
unfolding round_robin
round_robin-at_index [] index some' small = absurd (omega arith)
round_robin-at_index (p ∷ ps) index some' small =
    let same : ((index + 1) % 2 ^ 64 + 2 ^ 64 - 1) % 2 ^ 64 ≡ index = omega arith in
    let next : (index + 1) % 2 ^ 64 ≡ index + 1 = omega arith in
    ap₂ (λ i n. (at_index (p ∷ ps) (i % length (p ∷ ps)), n)) same next

-- Where the counter stands behind `front` in a round that began at `start`.
place : (start k n : ℕ) → start % n ≡ 0 → k < n → (start + k) % n ≡ k
place start k n at below =
    sym (mod-add-mod start n k)
    ∙ ap (λ m. (m + k) % n) at
    ∙ ap (λ m. m % n) (omega arith)
    ∙ mod-eq_of_lt below

rest_of_round :
    (front ps : List (Option ProxyConfig)) (start : ℕ)
    → start % length (front ++ ps) ≡ 0
    → start + length (front ++ ps) < 2 ^ 64
    → rounds (front ++ ps) (length ps) (start + length front)
      ≡ (map ok ps, start + length (front ++ ps))
unfolding rounds
rest_of_round front [] start at small = ap (λ n. ([], n)) (omega (arith, length-append front []))
rest_of_round front (p ∷ ps) start at small =
    let all = front ++ (p ∷ ps) in
    let len = length-append front (p ∷ ps) in
    let shift : (front ++ (p ∷ [])) ++ ps ≡ all = append_assoc front (p ∷ []) ps in
    let one =
      round_robin-at_index all (start + length front) (omega arith) (omega arith)
      ∙ ap (λ i. (at_index all i, start + length front + 1))
          (place start (length front) (length all) at (omega arith))
      ∙ ap (λ r. (r, start + length front + 1)) (at_index-append front p ps) in
    let count = length-append front (p ∷ []) in
    let ih = rest_of_round (front ++ (p ∷ [])) ps start (rw shift at) (rw shift small) in
    let ih' : rounds all (length ps) (start + length front + 1) ≡ (map ok ps, start + length all) =
      ap₂ (λ qs i. rounds qs (length ps) i) (sym shift) (omega arith)
      ∙ ih
      ∙ ap (λ (qs : List (Option ProxyConfig)). (map ok ps, start + length qs)) shift in
    ap (λ r. (r.0 ∷ (rounds all (length ps) r.1).0, (rounds all (length ps) r.1).1)) one
    ∙ ap (λ q. (ok p ∷ q.0, q.1)) ih'

-- From a counter that stands at the start of a round, a round of calls gives every proxy once, in
-- the order of the list, and ends at the start of the next round, until the counter wraps.
pub rounds-each_once :
    (ps : List (Option ProxyConfig)) (start : ℕ)
    → start % length ps ≡ 0
    → start + length ps < 2 ^ 64
    → rounds ps (length ps) start ≡ (map ok ps, start + length ps)
rounds-each_once ps start at small =
    ap (rounds ps (length ps)) (omega arith) ∙ rest_of_round [] ps start at small
