-- ===== src/Storage.antt =====
-- storage/storage.go: a map that is kept, encrypted, in a file with a backup. JSON and the cipher are
-- parameters; the two files and what random bytes come next are part of the state.
pub mod Padding
pub mod Saving
pub mod Panics
mod Tests
use deskaone_sdk.Shared.{
  ℕ, zero, suc, ◌+◌, ◌-◌, ◌%◌, Bool, true, false, not, ◌||◌, Option, none, some,
}
use deskaone_sdk.Shared.{
  List, [], ◌∷◌, ◌++◌, Result, ok, err, length, take, drop, replicate, get_or,
}
use deskaone_sdk.Shared.{leb, ltb, ◌==◌, if◌then◌else◌}
use deskaone_sdk.Shared.Text.{text_eq}

-- `panicked` is no error value: a call in the cipher has panicked.
pub data StorageError : Type 0 where
  invalid_size invalid_padding invalid_blob invalid_json unreadable unwritable panicked :
      StorageError

abbrev pub block_size : ℕ
block_size = 16

pub pkcs7_pad : List ℕ → ℕ → List ℕ
pkcs7_pad b size = let p = size - length b % size in b ++ replicate p (p % 256)

-- `b[len(b)-1-i] != byte(p)` for the last `n` bytes, one of them.
pub all_equal : ℕ → List ℕ → Bool
all_equal p [] = true
all_equal p (b ∷ bs) = let rest = all_equal p bs in if b == p then rest else false

pub pkcs7_unpad : List ℕ → ℕ → Result StorageError (List ℕ)
pkcs7_unpad b size =
    let n = length b in
    let p = get_or b (n - 1) 0 in
    if (n == 0) || not (n % size == 0)
    then err invalid_size
    else if (p == 0) || (ltb size p || ltb n p)
    then err invalid_padding
    else if not (all_equal p (drop (n - p) b))
    then err invalid_padding
    else ok (take (n - p) b)

-- A map[string]any as its entries, a later one before an earlier one of the same key.
module _ {Value : Type 0} where
  abbrev pub lookup : List ℕ → List (List ℕ × Value) → Option Value
  lookup k [] = none
  lookup k ((j, v) ∷ s) = if text_eq j k then some v else lookup k s

  pub delete : List ℕ → List (List ℕ × Value) → List (List ℕ × Value)
  delete k [] = []
  delete k ((j, v) ∷ s) = let rest = delete k s in if text_eq j k then rest else (j, v) ∷ rest

  pub insert : List ℕ → Value → List (List ℕ × Value) → List (List ℕ × Value)
  insert k v s = (k, v) ∷ delete k s

pub record Storage (Value : Type 0) : Type 0 where
  pub store : List (List ℕ × Value)
  pub file : Option (List ℕ)
  pub backup : Option (List ℕ)
  pub ivs : List (List ℕ)
  pub can_write : Bool

-- `io.ReadFull(rand.Reader, iv)` into sixteen bytes.
abbrev pub next_iv : List (List ℕ) → List ℕ
next_iv [] = replicate 16 0
next_iv (iv ∷ ivs) = iv

abbrev pub later_ivs : List (List ℕ) → List (List ℕ)
later_ivs [] = []
later_ivs (iv ∷ ivs) = ivs

abbrev pub write_backup : {Value : Type 0} → Option (List ℕ) → Storage Value → Storage Value
write_backup none s = s
write_backup (some old) s = if s.can_write then record s { backup = some old } else s

abbrev pub write_file :
    {Value : Type 0} → List ℕ → Storage Value → Result StorageError (Unit {0}) × Storage Value
write_file blob s =
    if s.can_write then (ok tt, record s { file = some blob }) else (err unwritable, s)

-- CBC over the blocks of the text with the storage's key, and JSON.
module _ {Value : Type 0} (encrypt decrypt : List ℕ → List ℕ → List ℕ)
    (marshal : List (List ℕ × Value) → Option (List ℕ))
    (unmarshal : List ℕ → Option (List (List ℕ × Value))) where
  pub save_marshalled :
      Option (List ℕ) → Storage Value → Result StorageError (Unit {0}) × Storage Value
  save_marshalled none s = (err invalid_json, s)
  save_marshalled (some raw) s =
      let iv = next_iv s.ivs in
      write_file (iv ++ encrypt iv (pkcs7_pad raw block_size))
        (write_backup s.file (record s { ivs = later_ivs s.ivs }))

  pub save : Storage Value → Result StorageError (Unit {0}) × Storage Value
  save s = save_marshalled (marshal s.store) s

  abbrev pub parse : Result StorageError (List ℕ) → Result StorageError (List (List ℕ × Value))
  parse (err e) = err e
  parse (ok plain) = elim (unmarshal plain) [ none ↦ err invalid_json | some obj ↦ ok obj ]

  -- `decryptToStore`: the map that the blob holds. CryptBlocks panics unless it is given full blocks.
  pub decrypt_blob : List ℕ → Result StorageError (List (List ℕ × Value))
  decrypt_blob blob =
      let body = drop 16 blob in
      if ltb (length blob) 16
      then err invalid_blob
      else if not (length body % block_size == 0)
      then err panicked
      else parse (pkcs7_unpad (decrypt (take 16 blob) body) block_size)

  abbrev pub loaded :
      Result StorageError (List (List ℕ × Value))
      → Storage Value
      → Result StorageError (Unit {0}) × Storage Value
  loaded (ok obj) s = (ok tt, record s { store = obj })
  loaded (err e) s = (err e, s)

  pub start_empty : Storage Value → Result StorageError (Unit {0}) × Storage Value
  start_empty s = save (record s { store = [] })

  -- The backup, where the file did not give a map; a panic ends the call.
  abbrev pub or_start_empty :
      Result StorageError (List (List ℕ × Value))
      → Storage Value
      → Result StorageError (Unit {0}) × Storage Value
  or_start_empty (ok obj) s = (ok tt, record s { store = obj })
  or_start_empty (err panicked) s = (err panicked, s)
  or_start_empty (err e) s = start_empty s

  abbrev pub from_backup :
      Option (List ℕ) → Storage Value → Result StorageError (Unit {0}) × Storage Value
  from_backup none s = start_empty s
  from_backup (some blob) s = or_start_empty (decrypt_blob blob) s

  abbrev pub or_backup :
      Result StorageError (List (List ℕ × Value))
      → Storage Value
      → Result StorageError (Unit {0}) × Storage Value
  or_backup (ok obj) s = (ok tt, record s { store = obj })
  or_backup (err panicked) s = (err panicked, s)
  or_backup (err e) s = from_backup s.backup s

  abbrev pub initialize_from :
      Option (List ℕ) → Storage Value → Result StorageError (Unit {0}) × Storage Value
  initialize_from none s = start_empty s
  initialize_from (some blob) s =
      if ltb 16 (length blob) then or_backup (decrypt_blob blob) s else start_empty s

  pub initialize : Storage Value → Result StorageError (Unit {0}) × Storage Value
  initialize s = initialize_from s.file s

  pub set : List ℕ → Value → Storage Value → Result StorageError (Unit {0}) × Storage Value
  set key value s = save (record s { store = insert key value s.store })

  abbrev pub delete_if :
      Option Value → List ℕ → Storage Value → Result StorageError (Unit {0}) × Storage Value
  delete_if none key s = (ok tt, s)
  delete_if (some v) key s = save (record s { store = delete key s.store })

  pub remove : List ℕ → Storage Value → Result StorageError (Unit {0}) × Storage Value
  remove key s = delete_if (lookup key s.store) key s

  pub clear : Storage Value → Result StorageError (Unit {0}) × Storage Value
  clear s = start_empty s

  abbrev pub then_save :
      Result StorageError (Unit {0}) × Storage Value
      → Result StorageError (Unit {0}) × Storage Value
  then_save (ok u, s) = save s
  then_save (err e, s) = (err e, s)

  abbrev pub restore_from :
      Option (List ℕ) → Storage Value → Result StorageError (Unit {0}) × Storage Value
  restore_from none s = (err unreadable, s)
  restore_from (some blob) s = then_save (loaded (decrypt_blob blob) s)

  pub restore_from_backup : Storage Value → Result StorageError (Unit {0}) × Storage Value
  restore_from_backup s = restore_from s.backup s

  pub import_json : List ℕ → Storage Value → Result StorageError (Unit {0}) × Storage Value
  import_json bytes s = elim (unmarshal bytes) [
    | none ↦ (err invalid_json, s)
    | some obj ↦ save (record s { store = obj })
  ]

pub get : {Value : Type 0} → List ℕ → Storage Value → Option Value
get key s = lookup key s.store
