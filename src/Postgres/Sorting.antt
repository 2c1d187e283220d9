-- ===== src/Postgres/Sorting.antt =====
-- sortMigrations sorts.
use mathlib.Core.List.{reverse, reverse-cons, Perm, reverse_perm, perm_middle, append-nil}
use mathlib.Core.List.Perm
use mathlib.Core.Path.{subst}
use deskaone_sdk.Shared.{ℕ, ◌≤◌, sym, arith, Bool-cases, inl, inr, ltb}
use deskaone_sdk.Shared.{List, [], ◌∷◌, ◌++◌, All, All-append}
use deskaone_sdk.Postgres.{Migration, insert_back, sort_onto, sort_migrations}

-- Versions in order, from the lowest and from the highest.
abbrev pub IsSorted : List Migration → Type 0
IsSorted [] = Unit {0}
IsSorted (m ∷ ms) = All (λ k. m.version ≤ k.version) ms × IsSorted ms

abbrev IsReversed : List Migration → Type 0
IsReversed [] = Unit {0}
IsReversed (m ∷ ms) = All (λ k. k.version ≤ m.version) ms × IsReversed ms

below :
    (v w : ℕ) (ms : List Migration)
    → v ≤ w
    → All (λ k. k.version ≤ v) ms
    → All (λ k. k.version ≤ w) ms
below v w [] h a = tt
below v w (m ∷ ms) h a = (omega (arith, a.0), below v w ms h a.1)

insert_back-below :
    (v : ℕ) (m : Migration) (done : List Migration)
    → m.version ≤ v
    → All (λ k. k.version ≤ v) done
    → All (λ k. k.version ≤ v) (insert_back m done)
unfolding insert_back
insert_back-below v m [] h a = (h, tt)
insert_back-below v m (l ∷ rest) h a = elim (Bool-cases (ltb m.version l.version)) [
  | inl e ↦ rw e (a.0, insert_back-below v m rest h a.1)
  | inr e ↦ rw e (h, a)
]

insert_back-IsReversed :
    (m : Migration) (done : List Migration) → IsReversed done → IsReversed (insert_back m done)
unfolding insert_back
insert_back-IsReversed m [] h = (tt, tt)
insert_back-IsReversed m (l ∷ rest) h = elim (Bool-cases (ltb m.version l.version)) [
  | inl e ↦
      rw e
        (insert_back-below l.version m rest (ground arith) h.0, insert_back-IsReversed m rest h.1)
  | inr e ↦ rw e ((ground arith, below l.version m.version rest (ground arith) h.0), h)
]

insert_back-Perm : (m : Migration) (done : List Migration) → Perm (insert_back m done) (m ∷ done)
unfolding insert_back
insert_back-Perm m [] = Perm.refl _
insert_back-Perm m (l ∷ rest) = elim (Bool-cases (ltb m.version l.version)) [
  | inl e ↦ rw e (Perm.trans (Perm.cons l (insert_back-Perm m rest)) (Perm.swap m l rest))
  | inr e ↦ rw e (Perm.refl _)
]

sort_onto-IsReversed : (done ms : List Migration) → IsReversed done → IsReversed (sort_onto done ms)
unfolding sort_onto
sort_onto-IsReversed done [] h = h
sort_onto-IsReversed done (m ∷ ms) h =
    sort_onto-IsReversed (insert_back m done) ms (insert_back-IsReversed m done h)

sort_onto-Perm : (done ms : List Migration) → Perm (sort_onto done ms) (ms ++ done)
unfolding sort_onto
sort_onto-Perm done [] = Perm.refl done
sort_onto-Perm done (m ∷ ms) =
    Perm.trans (sort_onto-Perm (insert_back m done) ms)
      (Perm.trans (Perm.append (Perm.refl ms) (insert_back-Perm m done)) (perm_middle ms done))

append_one-IsSorted :
    (ms : List Migration) (m : Migration)
    → IsSorted ms
    → All (λ k. k.version ≤ m.version) ms
    → IsSorted (ms ++ (m ∷ []))
append_one-IsSorted [] m h a = (tt, tt)
append_one-IsSorted (k ∷ ms) m h a = (
  All-append (λ l. k.version ≤ l.version) ms (m ∷ []) h.0 (a.0, tt),
  append_one-IsSorted ms m h.1 a.1,
)

All-reverse : (P : Migration → Type 0) (ms : List Migration) → All P ms → All P (reverse ms)
All-reverse P [] h = tt
All-reverse P (m ∷ ms) h =
    subst (All P) (sym (reverse-cons m ms))
      (All-append P (reverse ms) (m ∷ []) (All-reverse P ms h.1) (h.0, tt))

reverse-IsSorted : (ms : List Migration) → IsReversed ms → IsSorted (reverse ms)
reverse-IsSorted [] h = tt
reverse-IsSorted (m ∷ ms) h = subst IsSorted (sym (reverse-cons m ms)) (
    append_one-IsSorted (reverse ms) m (reverse-IsSorted ms h.1)
      (All-reverse (λ k. k.version ≤ m.version) ms h.0))

-- The result is in the order of the versions, and holds the migrations that were given, each as
-- often.
pub sort_migrations-IsSorted :
    (ms : List Migration) → IsSorted (sort_migrations ms) × Perm (sort_migrations ms) ms
unfolding sort_migrations
sort_migrations-IsSorted ms = (
  reverse-IsSorted (sort_onto [] ms) (sort_onto-IsReversed [] ms tt),
  Perm.trans (reverse_perm (sort_onto [] ms))
      (subst (Perm (sort_onto [] ms)) (append-nil ms) (sort_onto-Perm [] ms)),
)
