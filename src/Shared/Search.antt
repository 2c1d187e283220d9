-- ===== src/Shared/Search.antt =====
-- Where a text is found in a prefix, and in the whole.
use mathlib.Core.Option
use deskaone_sdk.Shared.{ℕ, suc, ◌+◌, ◌≤◌, ◌≡◌, refl, ap, ◌∙◌, sym, arith}
use deskaone_sdk.Shared.{true, false, Bool-cases, Option-cases, inl, inr}
use deskaone_sdk.Shared.{some, List, [], ◌∷◌, ◌++◌, length}
use deskaone_sdk.Shared.Text.{has_prefix, index_of}

has_prefix-length : (d s : List ℕ) → has_prefix d s ≡ true → length d ≤ length s
unfolding has_prefix
has_prefix-length [] s h = omega arith
has_prefix-length (x ∷ d) [] h = absurd (ground arith)
has_prefix-length (x ∷ d) (b ∷ s) h = ground (arith, has_prefix-length d s)

-- Inside a text long enough for it a prefix is seen whatever follows.
has_prefix-append : (d s q : List ℕ) → length d ≤ length s → has_prefix d (s ++ q) ≡ has_prefix d s
unfolding has_prefix
has_prefix-append [] s q h = refl
has_prefix-append (x ∷ d) [] q h = absurd (omega arith)
has_prefix-append (x ∷ d) (b ∷ s) q h = rw (has_prefix-append d s q (omega arith)) refl

index_of_nil : (s : List ℕ) → index_of [] s ≡ some 0
unfolding index_of has_prefix
index_of_nil [] = refl
index_of_nil (b ∷ s) = refl

-- How a text is found behind its first byte.
found :
    (d : List ℕ) (b : ℕ) (s : List ℕ) (i : ℕ)
    → has_prefix d (b ∷ s) ≡ false
    → index_of d (b ∷ s) ≡ some i
    → (j : ℕ) × (i ≡ suc j) × (index_of d s ≡ some j)
unfolding index_of
found d b s i e h = elim (Option-cases (index_of d s)) [
  | inl none' ↦ absurd (ground arith)
  | inr (j, at) ↦ (j, ground arith, at)
]

at_front :
    (d : List ℕ) (b : ℕ) (s : List ℕ) (i : ℕ)
    → has_prefix d (b ∷ s) ≡ true
    → index_of d (b ∷ s) ≡ some i
    → i ≡ 0
unfolding index_of
at_front d b s i e h = ground arith

-- A text that is found ends inside.
pub index_of-inside : (d s : List ℕ) (i : ℕ) → index_of d s ≡ some i → i + length d ≤ length s
unfolding index_of
index_of-inside [] [] i h = ground arith
index_of-inside (x ∷ d) [] i h = absurd (ground arith)
index_of-inside d (b ∷ s) i h = elim (Bool-cases (has_prefix d (b ∷ s))) [
  | inl e ↦ omega (arith, at_front d b s i e h, has_prefix-length d (b ∷ s) e)
  | inr e ↦ (let (j, same, at) = found d b s i e h in omega (arith, same, index_of-inside d s j at))
]

-- What is found in a prefix is what is found in the whole.
pub index_of-append :
    (d s q : List ℕ) (i : ℕ) → index_of d s ≡ some i → index_of d (s ++ q) ≡ some i
unfolding index_of
index_of-append [] [] [] i h = h
index_of-append [] [] (b ∷ q) i h = index_of_nil (b ∷ q) ∙ sym (index_of_nil []) ∙ h
index_of-append (x ∷ d) [] q i h = absurd (ground arith)
index_of-append d (b ∷ s) q i h = elim (Bool-cases (has_prefix d (b ∷ s))) [
  | inl e ↦
      rw (has_prefix-append d (b ∷ s) q (has_prefix-length d (b ∷ s) e), e)
        (ap some (sym (at_front d b s i e h)))
  | inr e ↦
      (let (j, same, at) = found d b s i e h in
        let long = index_of-inside d s j at in
        rw (has_prefix-append d (b ∷ s) q (omega arith), e)
          (ap (Option.map suc) (index_of-append d s q j at) ∙ ap some (sym same)))
]

-- What is found in the whole, and ends in a prefix, is found in the prefix.
pub index_of-prefix :
    (d s q : List ℕ) (i : ℕ)
    → index_of d (s ++ q) ≡ some i
    → i + length d ≤ length s
    → index_of d s ≡ some i
unfolding index_of
index_of-prefix [] [] [] i h inside = h
index_of-prefix [] [] (b ∷ q) i h inside = index_of_nil [] ∙ sym (index_of_nil (b ∷ q)) ∙ h
index_of-prefix (x ∷ d) [] q i h inside = absurd (omega arith)
index_of-prefix d (b ∷ s) q i h inside = elim (Bool-cases (has_prefix d (b ∷ s ++ q))) [
  | inl e ↦
      let zero' = at_front d b (s ++ q) i e h in
      rw (sym (has_prefix-append d (b ∷ s) q (omega arith)), e) (ap some (sym zero'))
  | inr e ↦
      (let (j, same, at) = found d b (s ++ q) i e h in
        rw (sym (has_prefix-append d (b ∷ s) q (omega arith)), e)
          (ap (Option.map suc) (index_of-prefix d s q j at (omega arith)) ∙ ap some (sym same)))
]
