-- ===== src/Storage/Panics.antt =====
-- When Initialize panics.
use deskaone_sdk.Shared.{
  ℕ, ◌%◌, ◌<◌, ◌≤◌, ◌≡◌, ◌≢◌, ◌⊎◌, ◌↔◌, refl, ap, ◌∙◌, sym, arith, true, false, Bool,
}
use deskaone_sdk.Shared.{Option, none, some, List, Result, ok, err, length, not}
use deskaone_sdk.Shared.{
  Bool-cases, inl, inr, ltb, ◌==◌, length-drop, Option-cases, ◌&&◌, drop, take,
}
use deskaone_sdk.Storage.{
  Storage, StorageError, panicked, pkcs7_unpad, save, save_marshalled, decrypt_blob, parse,
  initialize, initialize_from, or_backup, from_backup, or_start_empty, start_empty, write_file,
}

abbrev is_panicked : StorageError → Bool
is_panicked panicked = true
is_panicked _ = false

abbrev is_panic : {A : Type 0} → Result StorageError A → Bool
is_panic (err e) = is_panicked e
is_panic (ok a) = false

is_panicked_iff : (e : StorageError) → is_panicked e ≡ true → e ≡ panicked
is_panicked_iff panicked h = refl
is_panicked_iff StorageError.invalid_size h = absurd (ground arith)
is_panicked_iff StorageError.invalid_padding h = absurd (ground arith)
is_panicked_iff StorageError.invalid_blob h = absurd (ground arith)
is_panicked_iff StorageError.invalid_json h = absurd (ground arith)
is_panicked_iff StorageError.unreadable h = absurd (ground arith)
is_panicked_iff StorageError.unwritable h = absurd (ground arith)

is_panic_iff : {A : Type 0} → (r : Result StorageError A) → (is_panic r ≡ true) ↔ (r ≡ err panicked)
is_panic_iff (err e) = (λ h. ap err (is_panicked_iff e h), λ h. ap is_panic h)
is_panic_iff (ok a) = (λ h. absurd (ground arith), λ h. absurd (ground arith))

-- A file that is long enough to be read, and does not end with a block.
abbrev pub IsCut : List ℕ → Type 0
IsCut blob = (16 < length blob) × (length blob % 16 ≢ 0)

-- A backup that is missing, or ends with a block, or is too short to be read.
abbrev pub IsWhole : Option (List ℕ) → Type 0
IsWhole none = Unit {0}
IsWhole (some blob) = (length blob ≤ 16) ⊎ (length blob % 16 ≡ 0)

pkcs7_unpad_calm : (b : List ℕ) → is_panic (pkcs7_unpad b 16) ≡ false
unfolding pkcs7_unpad
pkcs7_unpad_calm b = ground arith

module _ {Value : Type 0} (encrypt decrypt : List ℕ → List ℕ → List ℕ)
    (marshal : List (List ℕ × Value) → Option (List ℕ))
    (unmarshal : List ℕ → Option (List (List ℕ × Value))) where
  parse_calm :
      (r : Result StorageError (List ℕ))
      → is_panic r ≡ false
      → is_panic (parse encrypt decrypt marshal unmarshal r) ≡ false
  parse_calm (err e) h = h
  parse_calm (ok plain) h =
      elim (unmarshal plain)
        as (λ o.
          is_panic (elim o [ none ↦ err StorageError.invalid_json | some obj ↦ ok obj ]) ≡ false) [
            | none ↦ refl
            | some obj ↦ refl
          ]

  -- The calls of the cipher panic on what is no full block behind the first.
  decrypt_blob_lem :
      (blob : List ℕ)
      → is_panic (decrypt_blob encrypt decrypt marshal unmarshal blob)
        ≡ (not (ltb (length blob) 16) && not (length (drop 16 blob) % 16 == 0))
  unfolding decrypt_blob
  decrypt_blob_lem blob = ground (
    arith,
    parse_calm (pkcs7_unpad (decrypt (take 16 blob) (drop 16 blob)) 16)
        (pkcs7_unpad_calm (decrypt (take 16 blob) (drop 16 blob))),
  )

  write_file_calm : (blob : List ℕ) (s : Storage Value) → is_panic (write_file blob s).0 ≡ false
  write_file_calm blob s = elim (Bool-cases s.can_write) [ inl e ↦ rw e refl | inr e ↦ rw e refl ]

  save_calm : (s : Storage Value) → is_panic (save encrypt decrypt marshal unmarshal s).0 ≡ false
  unfolding save save_marshalled
  save_calm s = elim (Option-cases (marshal s.store)) [
    | inl e ↦ rw e refl
    | inr (raw, e) ↦ rw e (write_file_calm _ _)
  ]

  start_empty_calm :
      (s : Storage Value) → is_panic (start_empty encrypt decrypt marshal unmarshal s).0 ≡ false
  unfolding start_empty
  start_empty_calm s = save_calm _

  or_start_empty_lem :
      (r : Result StorageError (List (List ℕ × Value))) (s : Storage Value)
      → is_panic r ≡ false
      → is_panic (or_start_empty encrypt decrypt marshal unmarshal r s).0 ≡ false
  or_start_empty_lem (ok obj) s h = refl
  or_start_empty_lem (err panicked) s h = absurd (ground arith)
  or_start_empty_lem (err StorageError.invalid_size) s h = start_empty_calm s
  or_start_empty_lem (err StorageError.invalid_padding) s h = start_empty_calm s
  or_start_empty_lem (err StorageError.invalid_blob) s h = start_empty_calm s
  or_start_empty_lem (err StorageError.invalid_json) s h = start_empty_calm s
  or_start_empty_lem (err StorageError.unreadable) s h = start_empty_calm s
  or_start_empty_lem (err StorageError.unwritable) s h = start_empty_calm s

  from_backup_calm :
      (backup : Option (List ℕ)) (s : Storage Value)
      → IsWhole backup
      → is_panic (from_backup encrypt decrypt marshal unmarshal backup s).0 ≡ false
  from_backup_calm none s h = start_empty_calm s
  from_backup_calm (some blob) s h =
      or_start_empty_lem (decrypt_blob encrypt decrypt marshal unmarshal blob) s
        (ground (arith, decrypt_blob_lem blob, length-drop 16 blob, h))

  or_backup_lem :
      (r : Result StorageError (List (List ℕ × Value))) (s : Storage Value)
      → IsWhole s.backup
      → is_panic (or_backup encrypt decrypt marshal unmarshal r s).0 ≡ is_panic r
  or_backup_lem (ok obj) s h = refl
  or_backup_lem (err panicked) s h = refl
  or_backup_lem (err StorageError.invalid_size) s h = from_backup_calm s.backup s h
  or_backup_lem (err StorageError.invalid_padding) s h = from_backup_calm s.backup s h
  or_backup_lem (err StorageError.invalid_blob) s h = from_backup_calm s.backup s h
  or_backup_lem (err StorageError.invalid_json) s h = from_backup_calm s.backup s h
  or_backup_lem (err StorageError.unreadable) s h = from_backup_calm s.backup s h
  or_backup_lem (err StorageError.unwritable) s h = from_backup_calm s.backup s h

  initialize_from_lem :
      (blob : List ℕ) (s : Storage Value)
      → IsWhole s.backup
      → (is_panic (initialize_from encrypt decrypt marshal unmarshal (some blob) s).0 ≡ true)
        ↔ IsCut blob
  initialize_from_lem blob s h = ground (
    arith,
    or_backup_lem (decrypt_blob encrypt decrypt marshal unmarshal blob) s h,
    decrypt_blob_lem blob,
    length-drop 16 blob,
    start_empty_calm s,
  )

  -- With a backup that is missing, or ends with a block, or is at most a block long, Initialize panics on
  -- a file exactly where the file is longer than a block and does not end with one. No other file makes it
  -- panic, whatever the file holds, whatever JSON makes of it, and whether or not the disk can be written.
  pub initialize_panics_iff :
      (s : Storage Value) (blob : List ℕ)
      → s.file ≡ some blob
      → IsWhole s.backup
      → ((initialize encrypt decrypt marshal unmarshal s).0 ≡ err panicked) ↔ IsCut blob
  unfolding initialize
  initialize_panics_iff s blob e h =
      let r = (initialize_from encrypt decrypt marshal unmarshal (some blob) s).0 in
      let same = ap (λ o. (initialize_from encrypt decrypt marshal unmarshal o s).0) e in
      let (to, back) = initialize_from_lem blob s h in
      let (up, down) = is_panic_iff r in
      (λ p. to (down (sym same ∙ p)), λ cut. same ∙ up (back cut))
