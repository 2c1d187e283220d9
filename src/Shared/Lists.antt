-- ===== src/Shared/Lists.antt =====
-- Lists measured and indexed by native numbers, under the library's names, and Go's `copy`.
use Prim.Native.Nat.{ℕ, zero, suc, ◌+◌, ◌-◌, ◌≤◌, min}
use mathlib.Core.Path.{◌≡◌, refl, sym, ap, ◌∙◌}
use mathlib.Core.List.{List, [], ◌∷◌, ◌++◌}
use mathlib.Core.Option.{Option, none, some}
use native.Mathlib.Nat.{suc-add}
use native.Mathlib.Omega.{arith}

module _ {ℓ} {A : Type ℓ} where
  abbrev pub length : List A → ℕ
  length [] = 0
  length (x ∷ xs) = suc (length xs)

  abbrev pub get_elem? : List A → ℕ → Option A
  get_elem? [] i = none
  get_elem? (x ∷ xs) zero = some x
  get_elem? (x ∷ xs) (suc i) = get_elem? xs i

  abbrev pub get_or : List A → ℕ → A → A
  get_or [] i d = d
  get_or (x ∷ xs) zero d = x
  get_or (x ∷ xs) (suc i) d = get_or xs i d

  abbrev pub take : ℕ → List A → List A
  take zero xs = []
  take (suc n) [] = []
  take (suc n) (x ∷ xs) = x ∷ take n xs

  abbrev pub drop : ℕ → List A → List A
  drop zero xs = xs
  drop (suc n) [] = []
  drop (suc n) (x ∷ xs) = drop n xs

  abbrev pub replicate : ℕ → A → List A
  replicate zero a = []
  replicate (suc n) a = a ∷ replicate n a

  -- `copy(dst, src)`: as many elements as both have.
  abbrev pub copy : List A → List A → List A
  copy [] src = []
  copy (d ∷ ds) [] = d ∷ ds
  copy (d ∷ ds) (s ∷ ss) = s ∷ copy ds ss

  -- `copy(dst[i:], src)`.
  abbrev pub copy_at : ℕ → List A → List A → List A
  copy_at zero dst src = copy dst src
  copy_at (suc i) [] src = []
  copy_at (suc i) (d ∷ ds) src = d ∷ copy_at i ds src

  abbrev pub All {κ} : (A → Type κ) → List A → Type κ
  All P [] = Unit {κ}
  All P (x ∷ xs) = P x × All P xs

module _ {ℓ} {A : Type ℓ} where
  pub length-append : (xs ys : List A) → length (xs ++ ys) ≡ length xs + length ys
  length-append [] ys = omega arith
  length-append (x ∷ xs) ys = omega (arith, length-append xs ys)

  pub take-append-drop : (n : ℕ) (xs : List A) → take n xs ++ drop n xs ≡ xs
  take-append-drop zero xs = refl
  take-append-drop (suc n) [] = refl
  take-append-drop (suc n) (x ∷ xs) = rw (take-append-drop n xs)

  pub length-take : (n : ℕ) (xs : List A) → length (take n xs) ≡ min n (length xs)
  length-take zero xs = omega arith
  length-take (suc n) [] = omega arith
  length-take (suc n) (x ∷ xs) = omega (arith, length-take n xs)

  pub length-drop : (n : ℕ) (xs : List A) → length (drop n xs) ≡ length xs - n
  length-drop zero xs = omega arith
  length-drop (suc n) [] = omega arith
  length-drop (suc n) (x ∷ xs) = omega (arith, length-drop n xs)

  pub length-replicate : (n : ℕ) (a : A) → length (replicate n a) ≡ n
  length-replicate zero a = refl
  length-replicate (suc n) a = ap suc (length-replicate n a)

  pub drop-replicate : (n m : ℕ) (a : A) → drop n (replicate m a) ≡ replicate (m - n) a
  drop-replicate zero m a = ap (λ k. replicate k a) (omega arith)
  drop-replicate (suc n) zero a = let e : 0 ≡ 0 - suc n = omega arith in ap (λ k. replicate k a) e
  drop-replicate (suc n) (suc m) a = drop-replicate n m a ∙ ap (λ k. replicate k a) (omega arith)

  pub take-append_exact : (xs ys : List A) → take (length xs) (xs ++ ys) ≡ xs
  take-append_exact [] ys = refl
  take-append_exact (x ∷ xs) ys = rw (take-append_exact xs ys)

  pub drop-append_exact : (xs ys : List A) → drop (length xs) (xs ++ ys) ≡ ys
  drop-append_exact [] ys = refl
  drop-append_exact (x ∷ xs) ys = drop-append_exact xs ys

  -- A split at the seam of two lists, whose place is known by an equation.
  pub take_at : (k : ℕ) (xs ys : List A) → length xs ≡ k → take k (xs ++ ys) ≡ xs
  take_at k xs ys e = ap (λ n. take n (xs ++ ys)) (sym e) ∙ take-append_exact xs ys

  pub drop_at : (k : ℕ) (xs ys : List A) → length xs ≡ k → drop k (xs ++ ys) ≡ ys
  drop_at k xs ys e = ap (λ n. drop n (xs ++ ys)) (sym e) ∙ drop-append_exact xs ys

  pub take-all : (n : ℕ) (xs : List A) → length xs ≤ n → take n xs ≡ xs
  take-all zero [] h = refl
  take-all zero (x ∷ xs) h = absurd (omega arith)
  take-all (suc n) [] h = refl
  take-all (suc n) (x ∷ xs) h = rw (take-all n xs (omega arith))

  pub take-nil : (n : ℕ) → [] ≡ take {A = A} n []
  take-nil zero = refl
  take-nil (suc n) = refl

  pub drop-all : (n : ℕ) (xs : List A) → length xs ≤ n → drop n xs ≡ []
  drop-all zero [] h = refl
  drop-all zero (x ∷ xs) h = absurd (omega arith)
  drop-all (suc n) [] h = refl
  drop-all (suc n) (x ∷ xs) h = drop-all n xs (omega arith)

  pub length-copy : (ds ss : List A) → length (copy ds ss) ≡ length ds
  length-copy [] ss = refl
  length-copy (d ∷ ds) [] = refl
  length-copy (d ∷ ds) (s ∷ ss) = ap suc (length-copy ds ss)

  pub length-copy_at : (i : ℕ) (ds ss : List A) → length (copy_at i ds ss) ≡ length ds
  length-copy_at zero ds ss = length-copy ds ss
  length-copy_at (suc i) [] ss = refl
  length-copy_at (suc i) (d ∷ ds) ss = ap suc (length-copy_at i ds ss)

  -- Where the source fits, it replaces a prefix.
  pub copy-eq : (ds ss : List A) → length ss ≤ length ds → copy ds ss ≡ ss ++ drop (length ss) ds
  copy-eq [] [] h = refl
  copy-eq [] (s ∷ ss) h = absurd (omega arith)
  copy-eq (d ∷ ds) [] h = refl
  copy-eq (d ∷ ds) (s ∷ ss) h = rw (copy-eq ds ss (omega arith))

  pub copy_at-eq :
      (i : ℕ) (ds ss : List A)
      → i + length ss ≤ length ds
      → copy_at i ds ss ≡ take i ds ++ (ss ++ drop (i + length ss) ds)
  copy_at-eq zero ds ss h = copy-eq ds ss (omega arith) ∙ ap (λ k. ss ++ drop k ds) (omega arith)
  copy_at-eq (suc i) [] ss h = absurd (omega arith)
  copy_at-eq (suc i) (d ∷ ds) ss h =
      rw (suc-add) (ap (λ k. d ∷ k) (copy_at-eq i ds ss (omega arith)))

module _ {ℓ} {A : Type ℓ} where
  pub take-append_le : (n : ℕ) (xs ys : List A) → n ≤ length xs → take n (xs ++ ys) ≡ take n xs
  take-append_le zero xs ys h = refl
  take-append_le (suc n) [] ys h = absurd (omega arith)
  take-append_le (suc n) (x ∷ xs) ys h = rw (take-append_le n xs ys (omega arith))

  pub take-append_ge :
      (n : ℕ) (xs ys : List A) → length xs ≤ n → take n (xs ++ ys) ≡ xs ++ take (n - length xs) ys
  take-append_ge n [] ys h = ap (λ k. take k ys) (omega arith)
  take-append_ge zero (x ∷ xs) ys h = absurd (omega arith)
  take-append_ge (suc n) (x ∷ xs) ys h =
      ap (λ k. x ∷ k)
        (take-append_ge n xs ys (omega arith) ∙ ap (λ k. xs ++ take k ys) (omega arith))

  pub drop-append_le :
      (n : ℕ) (xs ys : List A) → n ≤ length xs → drop n (xs ++ ys) ≡ drop n xs ++ ys
  drop-append_le zero xs ys h = refl
  drop-append_le (suc n) [] ys h = absurd (omega arith)
  drop-append_le (suc n) (x ∷ xs) ys h = drop-append_le n xs ys (omega arith)

  pub drop-take : (a b : ℕ) (xs : List A) → drop a (take b xs) ≡ take (b - a) (drop a xs)
  drop-take zero b xs = ap (λ k. take k xs) (omega arith)
  drop-take (suc a) zero xs =
      let e : 0 ≡ 0 - suc a = omega arith in ap (λ k. take k (drop (suc a) xs)) e
  drop-take (suc a) (suc b) [] = take-nil (suc b - suc a)
  drop-take (suc a) (suc b) (x ∷ xs) = drop-take a b xs ∙ ap (λ k. take k (drop a xs)) (omega arith)

  pub take-take_le : (a b : ℕ) (xs : List A) → a ≤ b → take a (take b xs) ≡ take a xs
  take-take_le zero b xs h = refl
  take-take_le (suc a) zero xs h = absurd (omega arith)
  take-take_le (suc a) (suc b) [] h = refl
  take-take_le (suc a) (suc b) (x ∷ xs) h = rw (take-take_le a b xs (omega arith))

  pub drop-drop : (a b : ℕ) (xs : List A) → drop a (drop b xs) ≡ drop (b + a) xs
  drop-drop a zero xs = ap (λ k. drop k xs) (omega arith)
  drop-drop a (suc b) [] = drop-all a [] (omega arith) ∙ sym (drop-all (suc b + a) [] (omega arith))
  drop-drop a (suc b) (x ∷ xs) = rw suc-add (drop-drop a b xs)

module _ {ℓ κ} {A : Type ℓ} (P : A → Type κ) where
  pub All-append : (xs ys : List A) → All P xs → All P ys → All P (xs ++ ys)
  All-append [] ys hx hy = hy
  All-append (x ∷ xs) ys hx hy = (hx.0, All-append xs ys hx.1 hy)

  pub All-take : (n : ℕ) (xs : List A) → All P xs → All P (take n xs)
  All-take zero xs h = tt
  All-take (suc n) [] h = tt
  All-take (suc n) (x ∷ xs) h = (h.0, All-take n xs h.1)

  pub All-drop : (n : ℕ) (xs : List A) → All P xs → All P (drop n xs)
  All-drop zero xs h = h
  All-drop (suc n) [] h = tt
  All-drop (suc n) (x ∷ xs) h = All-drop n xs h.1
