-- ===== src/Awg/Endpoint/Accepted.antt =====
-- What every accepted endpoint has, and what reaches the device of it.
use caelo.Base.{
  ℕ, ◌*◌, ◌<◌, ◌≡◌, ◌∙◌, refl, ap, subst, inl, inr, true, not, ◌&&◌, ◌||◌, List, [], ◌∷◌, arith,
  if◌then◌else◌, if-both, Option-cases, ok, err, length, ◌==◌, ==_iff,
}
use caelo.Base.Codec.{base64_decode, hex_encode}
use caelo.Base.Int.{ℤ, pos, is_positive, is_zero}
use caelo.Base.Text.{Text, codes, is_empty, text_eq, text_key}
use caelo.Awg.{Go, label, Peer, Config, obfuscation_keys, key_to_hex, set_obfuscation}
use caelo.Awg.Conf.{Netip}
use caelo.Awg.Endpoint.{
  EndpointPeer, Endpoint, optional_key, set_scalars, read_peer, parse_all, read_endpoint, one_peer,
  endpoint_config,
}
use caelo.Awg.Parsed.{OnOk, OnOk-bind, OnOk-label}

abbrev pub Any : {A : Type 0} → A → Type 0
Any a = Unit {0}

pub OnOk-Any : {A : Type 0} (m : Go A) → OnOk Any m
OnOk-Any (ok a) = tt
OnOk-Any (err e) = tt

length-hex_encode : (raw : List ℕ) → length (hex_encode raw) ≡ 2 * length raw
unfolding hex_encode
length-hex_encode [] = refl
length-hex_encode (x ∷ raw) = omega (arith, length-hex_encode raw)

-- 32 bytes in hexadecimal.
abbrev pub IsHexKey : Text → Type 0
IsHexKey s = length s ≡ 64

key_to_hex-IsHexKey : (value : Text) → OnOk IsHexKey (key_to_hex value)
unfolding key_to_hex
key_to_hex-IsHexKey value = elim (Option-cases (base64_decode value)) [
  | inl e ↦ rw (e, key_to_hex) tt
  | inr (raw, e) ↦
      rw (e, key_to_hex)
        (if-both (OnOk IsHexKey) (length raw == 32)
          (λ h. length-hex_encode raw ∙ ap (λ k. 2 * k) ((==_iff (length raw) 32).0 h)) (λ _. tt))
]

-- What a device needs: two keys, an address, a destination and a packet size.
pub record IsComplete {A : Type 0} (c : Config A) : Type 0 where
  pub private_key : IsHexKey c.private_key
  pub public_key : IsHexKey c.peer.public_key
  pub addressed : 0 < length c.addresses
  pub allowed : 0 < length c.peer.allowed_ips
  pub mtu : is_positive c.mtu ≡ true

pub record PeerIsComplete (p : Peer) : Type 0 where
  pub public_key : IsHexKey p.public_key
  pub allowed : 0 < length p.allowed_ips

with_map :
    {A : Type 0} (c : Config A) (m : List (Text × Text))
    → IsComplete c
    → IsComplete (record c { obfuscation = m })
with_map c m v = record {
  private_key = v.private_key;
  public_key = v.public_key;
  addressed = v.addressed;
  allowed = v.allowed;
  mtu = v.mtu;
}

set_obfuscation-IsComplete :
    {A : Type 0} (key value : Text) (c : Config A)
    → IsComplete c
    → OnOk IsComplete (set_obfuscation key value c)
unfolding set_obfuscation
set_obfuscation-IsComplete key value c v =
    if-both (OnOk IsComplete) (text_eq key (codes "headerprotectionkey"))
      (λ _.
        OnOk-bind {A = Text} Any IsComplete (label (codes "HeaderProtectionKey") (key_to_hex value))
          _ (OnOk-Any (label (codes "HeaderProtectionKey") (key_to_hex value)))
          (λ hex_key _. with_map c _ v))
      (λ _. with_map c _ v)

set_scalars-IsComplete :
    {A : Type 0} (scalar : Text → Text) (keys : List Text) (c : Config A)
    → IsComplete c
    → OnOk IsComplete (set_scalars scalar keys c)
unfolding set_scalars
set_scalars-IsComplete scalar [] c v = v
set_scalars-IsComplete scalar (key ∷ keys) c v =
    if-both (OnOk IsComplete) (is_empty (scalar key)) (λ _. set_scalars-IsComplete scalar keys c v)
      (λ _.
        OnOk-bind IsComplete IsComplete _ _ (set_obfuscation-IsComplete key (scalar key) c v)
          (λ c' v'. set_scalars-IsComplete scalar keys c' v'))

some_allowed : (l : List Text) → 0 < length (if length l == 0 then codes "0.0.0.0/0" ∷ [] else l)
some_allowed [] = omega arith
some_allowed (a ∷ l) = ground arith

read_peer-IsComplete : (peer : EndpointPeer) → OnOk PeerIsComplete (read_peer peer)
unfolding read_peer
read_peer-IsComplete peer =
    OnOk-bind IsHexKey PeerIsComplete _ _
      (OnOk-label IsHexKey (codes "public_key") _ (key_to_hex-IsHexKey peer.public_key))
      λ key k.
        OnOk-bind Any PeerIsComplete _ _ (OnOk-Any (optional_key peer.pre_shared_key))
          λ preshared _.
            if-both (OnOk PeerIsComplete) (is_empty peer.address || is_zero peer.port) (λ _. tt)
              (λ _. record { public_key = k; allowed = some_allowed peer.allowed_ips })

chosen_mtu : (mtu : ℤ) → is_positive (if is_positive mtu then mtu else pos 1420) ≡ true
chosen_mtu mtu = ground arith

module _ (n : Netip) where
  read_endpoint-IsComplete :
      (e : Endpoint) (peer : EndpointPeer) → OnOk IsComplete (read_endpoint n e peer)
  unfolding read_endpoint
  read_endpoint-IsComplete e peer =
      OnOk-bind IsHexKey IsComplete _ _
        (OnOk-label IsHexKey (codes "private_key") _ (key_to_hex-IsHexKey e.private_key))
        λ key k.
          OnOk-bind Any IsComplete _ _ (OnOk-Any (parse_all n (codes "address") e.address))
            λ addresses _.
              if-both (OnOk IsComplete) (length addresses == 0) (λ _. tt)
                λ some_address.
                  OnOk-bind Any IsComplete _ _ (OnOk-Any (parse_all n (codes "dns") e.dns)) λ dns _.
                    OnOk-bind PeerIsComplete IsComplete _ _ (read_peer-IsComplete peer) λ p q.
                      set_scalars-IsComplete e.scalar obfuscation_keys _ (record {
                        private_key = k;
                        public_key = q.public_key;
                        addressed = ground arith;
                        allowed = q.allowed;
                        mtu = chosen_mtu e.mtu;
                      })

  one_peer-IsComplete :
      (e : Endpoint) (peers : List EndpointPeer)
      → OnOk (λ c. IsComplete c × (length peers ≡ 1)) (one_peer n e peers)
  unfolding one_peer
  one_peer-IsComplete e [] = tt
  one_peer-IsComplete e (peer ∷ []) =
      with_length (read_endpoint n e peer) (read_endpoint-IsComplete e peer)
    where
      with_length :
          (r : Go (Config n.Addr))
          → OnOk IsComplete r
          → OnOk (λ c. IsComplete c × (length (peer ∷ []) ≡ 1)) r
      with_length (ok c) v = (v, refl)
      with_length (err e) v = tt
  one_peer-IsComplete e (peer ∷ other ∷ peers) = tt

  accepted : (e : Endpoint) → OnOk (λ c. IsComplete c × (length e.peers ≡ 1)) (endpoint_config n e)
  unfolding endpoint_config
  accepted e =
      if-both (OnOk (λ c. IsComplete c × (length e.peers ≡ 1)))
        (not (is_empty e.type) && not (text_eq e.type (codes "amneziawg"))) (λ _. tt)
        (λ _. one_peer-IsComplete e e.peers)

  -- Every endpoint that is accepted has one peer and gives a configuration with two keys of 32
  -- bytes, at least one address of its own, at least one allowed network and a positive MTU.
  pub endpoint_config-IsComplete :
      (e : Endpoint) (c : Config n.Addr)
      → endpoint_config n e ≡ ok c
      → IsComplete c × (length e.peers ≡ 1)
  endpoint_config-IsComplete e c h =
      subst (OnOk (λ c. IsComplete c × (length e.peers ≡ 1))) h (accepted e)
