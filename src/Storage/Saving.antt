-- ===== src/Storage/Saving.antt =====
-- What is saved is read back.
use deskaone_sdk.Shared.{ℕ, ◌%◌, ◌≡◌, refl, ap, ◌∙◌, arith, true, ltb, lt→ltb}
use deskaone_sdk.Shared.{Option, none, some, List, ◌++◌, ok, length, if◌then◌else◌}
use deskaone_sdk.Shared.{length-append, take_at, drop_at}
use deskaone_sdk.Storage.{Storage, block_size, pkcs7_pad, pkcs7_unpad, next_iv, later_ivs}
use deskaone_sdk.Storage.{
  save, save_marshalled, decrypt_blob, parse, initialize, initialize_from, or_backup, start_empty,
}
use deskaone_sdk.Storage.Padding.{pkcs7_unpad-pad, length-pkcs7_pad, pkcs7_pad_nonempty}

-- The backup behind a save: the file that was there.
abbrev pub kept : Option (List ℕ) → Option (List ℕ) → Option (List ℕ)
kept none backup = backup
kept (some old) backup = some old

-- What the cipher in CBC mode promises: full blocks are encrypted to as many bytes and decrypted to what
-- they were.
pub record Codec (encrypt decrypt : List ℕ → List ℕ → List ℕ) : Type 0 where
  pub same_length : (iv b : List ℕ) → length b % 16 ≡ 0 → length (encrypt iv b) ≡ length b
  pub decrypts : (iv b : List ℕ) → length b % 16 ≡ 0 → decrypt iv (encrypt iv b) ≡ b

module _ {Value : Type 0} (encrypt decrypt : List ℕ → List ℕ → List ℕ)
    (marshal : List (List ℕ × Value) → Option (List ℕ))
    (unmarshal : List ℕ → Option (List (List ℕ × Value))) (codec : Codec encrypt decrypt) where
  -- The storage behind a save of the JSON text `raw`.
  abbrev pub saved : List ℕ → Storage Value → Storage Value
  saved raw s = record s {
    file = some (next_iv s.ivs ++ encrypt (next_iv s.ivs) (pkcs7_pad raw block_size));
    backup = kept s.file s.backup;
    ivs = later_ivs s.ivs;
  }

  long_enough :
      (iv raw : List ℕ)
      → length iv ≡ 16
      → ltb 16 (length (iv ++ encrypt iv (pkcs7_pad raw block_size))) ≡ true
  long_enough iv raw len =
      let size = codec.same_length iv (pkcs7_pad raw block_size) (length-pkcs7_pad raw) in
      lt→ltb 16 _ (
        omega (
          arith,
          length-append iv (encrypt iv (pkcs7_pad raw block_size)),
          size,
          pkcs7_pad_nonempty raw,
        ))

  written :
      (s : Storage Value) (raw : List ℕ) (old : Option (List ℕ))
      → s.file ≡ old
      → s.can_write ≡ true
      → save_marshalled encrypt decrypt marshal unmarshal (some raw) s ≡ (ok tt, saved raw s)
  unfolding save_marshalled
  written s raw none e w = ground (arith, e, w)
  written s raw (some old) e w = ground (arith, e, w)

  decrypt_blob-saved :
      (iv raw : List ℕ) (store : List (List ℕ × Value))
      → length iv ≡ 16
      → unmarshal raw ≡ some store
      → decrypt_blob encrypt decrypt marshal unmarshal (iv ++ encrypt iv (pkcs7_pad raw block_size))
        ≡ ok store
  unfolding decrypt_blob
  decrypt_blob-saved iv raw store len m =
      let pad = pkcs7_pad raw block_size in
      let body = encrypt iv pad in
      let full = length-pkcs7_pad raw in
      let size = codec.same_length iv pad full in
      let total = length-append iv body in
      let plain : pkcs7_unpad (decrypt iv body) block_size ≡ ok raw =
        ap (λ k. pkcs7_unpad k block_size) (codec.decrypts iv pad full) ∙ pkcs7_unpad-pad raw in
      let parsed : parse encrypt decrypt marshal unmarshal (ok raw) ≡ ok store =
        rw (m, parse) refl in
      rw (take_at 16 iv body len, drop_at 16 iv body len)
        (rw plain (rw parsed (ground (arith, total, size))))

  save-saved :
      (s : Storage Value) (raw : List ℕ)
      → marshal s.store ≡ some raw
      → s.can_write ≡ true
      → save encrypt decrypt marshal unmarshal s ≡ (ok tt, saved raw s)
  unfolding save
  save-saved s raw m w =
      ap (λ o. save_marshalled encrypt decrypt marshal unmarshal o s) m
      ∙ written s raw s.file refl w

  -- Save succeeds and keeps the file that was there as the backup; and a storage that is started on the
  -- new file, whatever it held before, gets the map that JSON makes of the very text that was saved.
  -- That map need not be the one that was saved: JSON may give other values for numbers, say. The random
  -- bytes are sixteen, the map has a JSON text, JSON can read it, and the disk takes the files.
  pub initialize-save :
      (s r : Storage Value) (raw : List ℕ) (back : List (List ℕ × Value))
      → marshal s.store ≡ some raw
      → unmarshal raw ≡ some back
      → length (next_iv s.ivs) ≡ 16
      → s.can_write ≡ true
      → r.file ≡ (saved raw s).file
      → (save encrypt decrypt marshal unmarshal s ≡ (ok tt, saved raw s))
        × (initialize encrypt decrypt marshal unmarshal r ≡ (ok tt, record r { store = back }))
  unfolding initialize
  initialize-save s r raw back m um len w e =
      let iv = next_iv s.ivs in
      let body = encrypt iv (pkcs7_pad raw block_size) in
      let long = long_enough iv raw len in
      (
        save-saved s raw m w,
        ap (λ o. initialize_from encrypt decrypt marshal unmarshal o r) e
            ∙ ap
                (λ b.
                  if b
                  then or_backup encrypt decrypt marshal unmarshal
                      (decrypt_blob encrypt decrypt marshal unmarshal (iv ++ body)) r
                  else start_empty encrypt decrypt marshal unmarshal r)
                long
            ∙ ap (λ q. or_backup encrypt decrypt marshal unmarshal q r)
                (decrypt_blob-saved iv raw back len um),
      )
