-- ===== src/Awg/Parsed/Settings.antt =====
-- What the settings of a configuration put into it has no line end in it.
use caelo.Base.{
  inl, inr, Option, none, some, List, [], ◌∷◌, ◌==◌, if-both, Option-cases, ok, err, ◌>>=◌, length,
  All, All-append,
}
use caelo.Base.Codec.{base64_decode, parse_int}
use caelo.Base.Int.{ℤ}
use caelo.Base.Map
use caelo.Base.Text.{Text, codes, is_empty, text_eq, text_key, trim_space}
use caelo.Awg.{
  Go, labelled, bad_number, label, Peer, Config, key_to_hex, set_obfuscation, trimmed_parts,
  list_parts, set_peer,
}
use caelo.Awg.Clean.{Clean, split_line-Clean, trim_space-Clean, hex_encode-Clean}

-- Every text of a configuration that IPC writes is free of line ends.
pub record IsClean {A : Type 0} (c : Config A) : Type 0 where
  pub private_key : Clean c.private_key
  pub obfuscation : All (λ (e : Text × Text). Clean e.1) c.obfuscation
  pub public_key : Clean c.peer.public_key
  pub preshared_key : Clean c.peer.preshared_key
  pub endpoint : Clean c.peer.endpoint
  pub allowed_ips : All Clean c.peer.allowed_ips

-- A failing call, or one that ends in a value with the property.
abbrev pub OnOk : {A : Type 0} → (A → Type 0) → Go A → Type 0
OnOk P (ok a) = P a
OnOk P (err e) = Unit {0}

pub OnOk-bind :
    {A B : Type 0} (P : A → Type 0) (Q : B → Type 0) (m : Go A) (f : A → Go B)
    → OnOk P m
    → ((a : A) → P a → OnOk Q (f a))
    → OnOk Q (m >>= f)
OnOk-bind P Q (ok a) f h k = k a h
OnOk-bind P Q (err e) f h k = tt

pub OnOk-label : {A : Type 0} (P : A → Type 0) (l : Text) (m : Go A) → OnOk P m → OnOk P (label l m)
OnOk-label P l (ok a) h = h
OnOk-label P l (err e) h = tt

pub key_to_hex-Clean : (value : Text) → OnOk Clean (key_to_hex value)
unfolding key_to_hex
key_to_hex-Clean value = elim (Option-cases (base64_decode value)) [
  | inl e ↦ rw (e, key_to_hex) tt
  | inr (raw, e) ↦
      rw (e, key_to_hex)
        (if-both (OnOk Clean) (length raw == 32) (λ _. hex_encode-Clean raw) (λ _. tt))
]

insert-Clean :
    (k v : Text) (m : List (Text × Text))
    → Clean v
    → All (λ (e : Text × Text). Clean e.1) m
    → All (λ (e : Text × Text). Clean e.1) (Map.insert k v m)
unfolding Map.insert
insert-Clean k v [] h a = (h, tt)
insert-Clean k v ((j, w) ∷ m) h a =
    if-both (All (λ (e : Text × Text). Clean e.1)) (text_eq j k) (λ _. (h, a.1))
      (λ _. (a.0, insert-Clean k v m h a.1))

with_obfuscation :
    {A : Type 0} (c : Config A) (key value : Text)
    → IsClean c
    → Clean value
    → IsClean (record c { obfuscation = Map.insert key value c.obfuscation })
with_obfuscation c key value v h = record {
  private_key = v.private_key;
  obfuscation = insert-Clean key value c.obfuscation h v.obfuscation;
  public_key = v.public_key;
  preshared_key = v.preshared_key;
  endpoint = v.endpoint;
  allowed_ips = v.allowed_ips;
}

pub set_obfuscation-Clean :
    {A : Type 0} (key value : Text) (c : Config A)
    → IsClean c
    → Clean value
    → OnOk IsClean (set_obfuscation key value c)
unfolding set_obfuscation
set_obfuscation-Clean key value c v h =
    if-both (OnOk IsClean) (text_eq key (codes "headerprotectionkey"))
      (λ _.
        OnOk-bind Clean IsClean _ _
          (OnOk-label Clean (codes "HeaderProtectionKey") _ (key_to_hex-Clean value))
          (λ hex_key k. with_obfuscation c key hex_key v k))
      (λ _. with_obfuscation c key value v h)

trimmed_parts-Clean : (l : List Text) → All Clean l → All Clean (trimmed_parts l)
unfolding trimmed_parts
trimmed_parts-Clean [] h = tt
trimmed_parts-Clean (p ∷ ps) h =
    if-both (All Clean) (is_empty (trim_space p)) (λ _. trimmed_parts-Clean ps h.1)
      (λ _. (trim_space-Clean p h.0, trimmed_parts-Clean ps h.1))

list_parts-Clean : (value : Text) → Clean value → All Clean (list_parts value)
unfolding list_parts
list_parts-Clean value h = trimmed_parts-Clean _ (split_line-Clean b',' value h)

pub record PeerIsClean (p : Peer) : Type 0 where
  pub public_key : Clean p.public_key
  pub preshared_key : Clean p.preshared_key
  pub endpoint : Clean p.endpoint
  pub allowed_ips : All Clean p.allowed_ips

set_keepalive-Clean :
    (o : Option ℤ) (p : Peer)
    → PeerIsClean p
    → OnOk PeerIsClean (elim o [
      | none ↦ err (labelled (codes "PersistentKeepalive") bad_number)
      | some seconds ↦ ok (record p { keepalive = seconds })
    ])
set_keepalive-Clean none p v = tt
set_keepalive-Clean (some n) p v = record {
  public_key = v.public_key;
  preshared_key = v.preshared_key;
  endpoint = v.endpoint;
  allowed_ips = v.allowed_ips;
}

pub set_peer-Clean :
    (key value : Text) (p : Peer)
    → Clean value
    → PeerIsClean p
    → OnOk PeerIsClean (set_peer key value p)
unfolding set_peer
set_peer-Clean key value p h v =
    if-both (OnOk PeerIsClean) (text_eq key (codes "publickey"))
      (λ _.
        OnOk-bind Clean PeerIsClean _ _
          (OnOk-label Clean (codes "PublicKey") _ (key_to_hex-Clean value))
          (λ k c. record {
            public_key = c;
            preshared_key = v.preshared_key;
            endpoint = v.endpoint;
            allowed_ips = v.allowed_ips;
          }))
      λ _.
        if-both (OnOk PeerIsClean) (text_eq key (codes "presharedkey"))
          (λ _.
            OnOk-bind Clean PeerIsClean _ _
              (OnOk-label Clean (codes "PresharedKey") _ (key_to_hex-Clean value))
              (λ k c. record {
                public_key = v.public_key;
                preshared_key = c;
                endpoint = v.endpoint;
                allowed_ips = v.allowed_ips;
              }))
          λ _.
            if-both (OnOk PeerIsClean) (text_eq key (codes "endpoint"))
              (λ _. record {
                public_key = v.public_key;
                preshared_key = v.preshared_key;
                endpoint = h;
                allowed_ips = v.allowed_ips;
              })
              λ _.
                if-both (OnOk PeerIsClean) (text_eq key (codes "allowedips"))
                  (λ _. record {
                    public_key = v.public_key;
                    preshared_key = v.preshared_key;
                    endpoint = v.endpoint;
                    allowed_ips =
                        All-append Clean p.allowed_ips _ v.allowed_ips (list_parts-Clean value h);
                  })
                  λ _.
                    if-both (OnOk PeerIsClean) (text_eq key (codes "persistentkeepalive"))
                      (λ _. set_keepalive-Clean (parse_int value) p v) (λ _. v)

-- A change that leaves alone what IPC writes as text, but for the key.
pub same_texts :
    {A : Type 0} (c : Config A) (key : Text) (addresses dns : List A) (mtu : ℤ)
    → Clean key
    → IsClean c
    → IsClean (record c { private_key = key; addresses = addresses; dns = dns; mtu = mtu })
same_texts c key addresses dns mtu h v = record {
  private_key = h;
  obfuscation = v.obfuscation;
  public_key = v.public_key;
  preshared_key = v.preshared_key;
  endpoint = v.endpoint;
  allowed_ips = v.allowed_ips;
}

-- Addresses are not texts that IPC writes.
pub with_addresses :
    {A : Type 0} (m : Go (List A)) (f : List A → Config A)
    → ((a : List A) → IsClean (f a))
    → OnOk IsClean (m >>= λ a. ok (f a))
with_addresses (ok a) f h = h a
with_addresses (err e) f h = tt

pub set_mtu-Clean :
    {A : Type 0} (o : Option ℤ) (c : Config A)
    → IsClean c
    → OnOk IsClean (elim o [
      | none ↦ err (labelled (codes "MTU") bad_number)
      | some mtu ↦ ok (record c { mtu = mtu })
    ])
set_mtu-Clean none c v = tt
set_mtu-Clean (some n) c v = same_texts c c.private_key c.addresses c.dns n v.private_key v
