-- ===== src/Storage/Tests.antt =====
-- The storage on small inputs, with a cipher that changes nothing and texts for maps of one number.
use deskaone_sdk.Shared.{
  ℕ, ◌≡◌, refl, true, Option, none, some, List, [], ◌∷◌, ◌++◌, ok, err, replicate,
}
use deskaone_sdk.Shared.Text.{codes}
use deskaone_sdk.Storage.{Storage, pkcs7_pad, pkcs7_unpad, all_equal, save, initialize, panicked}
use deskaone_sdk.Storage.{invalid_padding}
use deskaone_sdk.Storage.Padding.{pkcs7_unpad-pad}
use deskaone_sdk.Storage.Panics.{IsCut, initialize_panics_iff}
use deskaone_sdk.Shared.{◌↔◌, inr}
use deskaone_sdk.Storage.Saving.{Codec, saved, initialize-save}

abbrev plain : List ℕ → List ℕ → List ℕ
plain iv b = b

abbrev marshal : List (List ℕ × ℕ) → Option (List ℕ)
marshal [] = none
marshal ((k, v) ∷ []) = some (v ∷ k)
marshal ((k, v) ∷ e ∷ s) = none

abbrev unmarshal : List ℕ → Option (List (List ℕ × ℕ))
unmarshal [] = none
unmarshal (v ∷ k) = some ((k, v) ∷ [])

codec : Codec plain plain
codec = record { same_length = λ iv b full. refl; decrypts = λ iv b full. refl }

wrong_padding : pkcs7_unpad (replicate 15 7 ++ (2 ∷ [])) 16 ≡ err invalid_padding
unfolding pkcs7_unpad all_equal
wrong_padding = refl

pkcs7_unpad-pad_example : pkcs7_unpad (pkcs7_pad (1 ∷ 2 ∷ 3 ∷ []) 16) 16 ≡ ok (1 ∷ 2 ∷ 3 ∷ [])
pkcs7_unpad-pad_example = pkcs7_unpad-pad (1 ∷ 2 ∷ 3 ∷ [])

abbrev kept_number : Storage ℕ
kept_number = record {
  store = (codes "port", 80) ∷ [];
  file = some (codes "old");
  backup = none;
  ivs = replicate 16 9 ∷ [];
  can_write = true;
}

abbrev started : Storage ℕ
started = record {
  store = [];
  file = (saved plain plain marshal unmarshal codec (80 ∷ codes "port") kept_number).file;
  backup = none;
  ivs = [];
  can_write = true;
}

initialize-save_example :
    (save plain plain marshal unmarshal kept_number
      ≡ (ok tt, saved plain plain marshal unmarshal codec (80 ∷ codes "port") kept_number))
    × (initialize plain plain marshal unmarshal started
        ≡ (ok tt, record started { store = kept_number.store }))
initialize-save_example =
    initialize-save plain plain marshal unmarshal codec kept_number started (80 ∷ codes "port")
      kept_number.store refl refl refl refl refl

-- A file that is cut in its second block, and a backup of two full ones.
abbrev cut : Storage ℕ
cut = record kept_number { file = some (replicate 20 0); backup = some (replicate 32 16) }

initialize_panics_iff_example :
    ((initialize plain plain marshal unmarshal cut).0 ≡ err panicked) ↔ IsCut (replicate 20 0)
initialize_panics_iff_example =
    initialize_panics_iff plain plain marshal unmarshal cut (replicate 20 0) refl (inr refl)
