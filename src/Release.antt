-- ===== src/Release.antt =====
-- core/internal/release/verify.go: the trusted keys and the check of a release. ed25519.Verify is a
-- parameter; it panics on a key that is not 32 bytes long, which is an `err` here.
pub mod Keys
pub mod Checked
mod Tests
use caelo.Base.{
  ℕ, Bool, true, false, not, Option, none, some, List, [], ◌∷◌, ◌++◌, if◌then◌else◌, Result, ok,
  err, ◌>>=◌, ◌==◌, length,
}
use caelo.Base.Text.{Text}
use caelo.Base.Codec.{base64_decode}

-- ed25519.PublicKeySize, ed25519.SignatureSize
abbrev pub public_key_size : ℕ
public_key_size = 32

abbrev pub signature_size : ℕ
signature_size = 64

abbrev pub Key : Type 0
Key = List ℕ

pub data KeysError : Type 0 where
  not_base64 : Text → KeysError
  wrong_size : Text → ℕ → KeysError
  no_keys : KeysError

-- One round of the loop in ParseTrusted.
unfoldable pub read_key : Text → Result KeysError Key
unfolding base64_decode
read_key value = elim (base64_decode value) [
  | none ↦ err (not_base64 value)
  | some raw ↦
      if not (length raw == public_key_size) then err (wrong_size value (length raw)) else ok raw
]

unfoldable pub read_keys : List Key → List Text → Result KeysError (List Key)
unfolding read_key
read_keys keys [] = ok keys
read_keys keys (value ∷ values) = do raw ← read_key value; read_keys (keys ++ raw ∷ []) values

unfoldable pub refuse_empty : List Key → Result KeysError (List Key)
refuse_empty [] = err no_keys
refuse_empty (key ∷ keys) = ok (key ∷ keys)

unfoldable pub parse_trusted : List Text → Result KeysError (List Key)
unfolding read_keys refuse_empty
parse_trusted encoded = do keys ← read_keys [] encoded; refuse_empty keys

-- What a check ends in, but for a panic.
pub data Verdict : Type 0 where
  trusted : Verdict
  untrusted : Verdict

pub data FileVerdict : Type 0 where
  unreadable : Text → FileVerdict
  verdict : Verdict → FileVerdict

-- ed25519.Verify(key, message, signature)
pub record Ed25519 : Type 0 where
  pub accepts : Key → List ℕ → List ℕ → Result Text Bool

module _ (e : Ed25519) where
  -- The loop over the keys, which goes on after a key that accepted.
  unfoldable pub try_keys : List ℕ → List ℕ → Bool → List Key → Result Text Bool
  try_keys message raw accepted [] = ok accepted
  try_keys message raw accepted (key ∷ keys) = do
    fits ← e.accepts key message raw
    try_keys message raw (if fits then true else accepted) keys

  unfoldable pub check_keys : List ℕ → List ℕ → List Key → Result Text Verdict
  unfolding try_keys
  check_keys message raw keys = do
    accepted ← try_keys message raw false keys
    ok (if not accepted then untrusted else trusted)

  unfoldable pub verify : List ℕ → Text → List Key → Result Text Verdict
  unfolding check_keys base64_decode
  verify message signature keys = elim (base64_decode signature) [
    | none ↦ ok untrusted
    | some raw ↦
        if not (length raw == signature_size) then ok untrusted else check_keys message raw keys
  ]

  -- VerifyFile; opening and reading the file is the argument.
  unfoldable pub verify_file :
      (Text → Result Text (List ℕ)) → Text → Text → List Key → Result Text FileVerdict
  unfolding verify
  verify_file read path signature keys = elim (read path) [
    | err why ↦ ok (unreadable why)
    | ok contents ↦ verify contents signature keys >>= λ v. ok (verdict v)
  ]
