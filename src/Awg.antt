-- ===== src/Awg.antt =====
-- core/internal/awg/config.go: an AmneziaWG configuration, and how its settings are
-- written into it. `Conf` reads a `.conf`, `Uapi` writes the form that the device takes.
pub mod Conf
pub mod Uapi
pub mod Clean
pub mod Parsed
pub mod Lines
pub mod Endpoint
mod Tests
use caelo.Base.{
  ℕ, suc, ◌+◌, Bool, true, false, not, ◌&&◌, ◌||◌, Option, none, some, List, [], ◌∷◌, ◌++◌, map,
  reverse, ◌==◌, if◌then◌else◌, Result, ok, err, ◌>>=◌, ◌>>◌, length,
}
use caelo.Base.Codec.{base64_decode, hex_encode, parse_int}
use caelo.Base.Int.{ℤ, pos, is_positive, itoa}
use caelo.Base.Map
use caelo.Base.Text.{
  Text, codes, is_empty, text_eq, text_key, trim_space, to_lower, has_prefix, has_suffix, split,
  cut,
}
use Prim.Native.String.{String}

pub data Err : Type 0 where
  bad_base64 : Err
  wrong_length : ℕ → Err
  bad_address : Text → Err
  bad_number : Err
  outside_section : Text → Err
  not_a_setting : Text → Err
  missing : Text → Err
  labelled : Text → Err → Err
  at_line : ℕ → Err → Err
  said : Text → Err

abbrev pub Go : Type 0 → Type 0
Go A = Result Err A

-- fmt.Errorf("label: %w", err)
abbrev pub label : {A : Type 0} → Text → Go A → Go A
label what (ok a) = ok a
label what (err e) = err (labelled what e)

pub record Peer : Type 0 where
  pub public_key : Text
  pub preshared_key : Text
  pub endpoint : Text
  pub allowed_ips : List Text
  pub keepalive : ℤ

pub record Config (A : Type 0) : Type 0 where
  pub private_key : Text
  pub addresses : List A
  pub mtu : ℤ
  pub dns : List A
  pub obfuscation : List (Text × Text)
  pub peer : Peer

abbrev pub legacy_keys : List Text
legacy_keys = map codes (
    "jc" ∷ "jmin" ∷ "jmax" ∷ "s1" ∷ "s2" ∷ "s3" ∷ "s4" ∷ "h1" ∷ "h2" ∷ "h3" ∷ "h4" ∷ "i1" ∷ "i2"
    ∷ "i3" ∷ "i4" ∷ "i5" ∷ [])

-- uapiNames, in the order in which IPC writes the parameters of 3.1.
abbrev pub uapi_names : List (Text × Text)
uapi_names =
    (codes "headerprotectionkey", codes "header_protection_key")
    ∷ (codes "contentpaddingaddition", codes "content_padding_addition")
    ∷ (codes "rekeyaftertime", codes "rekey_after_time")
    ∷ (codes "rekeytimeout", codes "rekey_timeout")
    ∷ (codes "rejectaftertime", codes "reject_after_time")
    ∷ (codes "keepalivetimeout", codes "keepalive_timeout")
    ∷ (codes "maxhandshakeattempts", codes "max_handshake_attempts")
    ∷ (codes "randomtrailers", codes "random_trailers")
    ∷ (codes "disablecookies", codes "disable_cookies")
    ∷ []

-- The keys that IPC goes through, in its order; obfuscationKeys as a set.
abbrev pub obfuscation_keys : List Text
obfuscation_keys = legacy_keys ++ map (λ e. e.0) uapi_names

unfoldable pub is_one_of : Text → List Text → Bool
is_one_of s [] = false
is_one_of s (t ∷ l) = text_eq s t || is_one_of s l

-- keyToHex
unfoldable pub key_to_hex : Text → Go Text
unfolding base64_decode hex_encode
key_to_hex value = elim (base64_decode value) [
  | none ↦ err bad_base64
  | some raw ↦ if length raw == 32 then ok (hex_encode raw) else err (wrong_length (length raw))
]

-- Config.SetObfuscation
unfoldable pub set_obfuscation : {A : Type 0} → Text → Text → Config A → Go (Config A)
unfolding key_to_hex
set_obfuscation key value c =
    if text_eq key (codes "headerprotectionkey")
    then (do
      hex_key ← label (codes "HeaderProtectionKey") (key_to_hex value)
      ok (record c { obfuscation = Map.insert key hex_key c.obfuscation }))
    else ok (record c { obfuscation = Map.insert key value c.obfuscation })

-- The parts of a comma-separated value, trimmed, without the empty ones.
unfoldable pub trimmed_parts : List Text → List Text
trimmed_parts [] = []
trimmed_parts (p ∷ ps) =
    let t = trim_space p in if is_empty t then trimmed_parts ps else t ∷ trimmed_parts ps

unfoldable pub list_parts : Text → List Text
unfolding trimmed_parts
list_parts value = trimmed_parts (split b',' value)

-- Peer.set; an unknown key is ignored.
unfoldable pub set_peer : Text → Text → Peer → Go Peer
unfolding key_to_hex list_parts parse_int
set_peer key value p =
    if text_eq key (codes "publickey")
    then (do
      hex_key ← label (codes "PublicKey") (key_to_hex value)
      ok (record p { public_key = hex_key }))
    else if text_eq key (codes "presharedkey")
    then (do
      hex_key ← label (codes "PresharedKey") (key_to_hex value)
      ok (record p { preshared_key = hex_key }))
    else if text_eq key (codes "endpoint")
    then ok (record p { endpoint = value })
    else if text_eq key (codes "allowedips")
    then ok (record p { allowed_ips = p.allowed_ips ++ list_parts value })
    else if text_eq key (codes "persistentkeepalive")
    then elim (parse_int value) [
      | none ↦ err (labelled (codes "PersistentKeepalive") bad_number)
      | some seconds ↦ ok (record p { keepalive = seconds })
    ]
    else ok p
