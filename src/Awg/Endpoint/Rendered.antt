-- ===== src/Awg/Endpoint/Rendered.antt =====
-- What reaches the device of an endpoint whose texts have no line end in them.
use caelo.Base.{
  ◌≡◌, subst, not, ◌&&◌, ◌||◌, List, [], ◌∷◌, ◌++◌, map, arith, if-both, ok, length, ◌==◌, All,
  All-append,
}
use caelo.Base.Int.{ℤ, is_zero, itoa}
use caelo.Base.Text.{Text, codes, is_empty, text_eq, contains_rune, has_prefix, split}
use caelo.Awg.{Config, obfuscation_keys}
use caelo.Awg.Clean.{Clean, NotEnd, itoa-Clean}
use caelo.Awg.Conf.{Netip}
use caelo.Awg.Endpoint.{
  EndpointPeer, Endpoint, join_host_port, optional_key, set_scalars, read_peer, parse_all,
  read_endpoint, one_peer, endpoint_config,
}
use caelo.Awg.Endpoint.Accepted.{Any, OnOk-Any}
use caelo.Awg.Lines.{line_of, clean-lines}
use caelo.Awg.Parsed.{
  IsClean, PeerIsClean, OnOk, OnOk-bind, OnOk-label, key_to_hex-Clean, set_obfuscation-Clean,
}
use caelo.Awg.Uapi.{settings, ipc}

abbrev pub PeerFits : EndpointPeer → Type 0
PeerFits peer = Clean peer.address × All Clean peer.allowed_ips

-- The texts that reach the device as they came: the obfuscation fields, and the peers' addresses
-- and allowed networks.
abbrev pub Fits : Endpoint → Type 0
Fits e = All PeerFits e.peers × ((key : Text) → Clean (e.scalar key))

join_host_port-Clean : (host : Text) (port : ℤ) → Clean host → Clean (join_host_port host port)
unfolding join_host_port
join_host_port-Clean host port h =
    if-both Clean (contains_rune b':' host && not (has_prefix host (codes "[")))
      (λ _.
        All-append NotEnd (codes "[" ++ host ++ codes "]:") (itoa port)
          (All-append NotEnd (codes "[" ++ host) (codes "]:")
            (All-append NotEnd (codes "[") host (omega arith) h) (omega arith))
          (itoa-Clean port))
      (λ _.
        All-append NotEnd (host ++ codes ":") (itoa port)
          (All-append NotEnd host (codes ":") h (omega arith)) (itoa-Clean port))

optional_key-Clean : (key : Text) → OnOk Clean (optional_key key)
unfolding optional_key
optional_key-Clean key =
    if-both (OnOk Clean) (is_empty key) (λ _. tt)
      (λ _. OnOk-label Clean (codes "pre_shared_key") _ (key_to_hex-Clean key))

set_scalars-Clean :
    {A : Type 0} (scalar : Text → Text) (keys : List Text) (c : Config A)
    → ((key : Text) → Clean (scalar key))
    → IsClean c
    → OnOk IsClean (set_scalars scalar keys c)
unfolding set_scalars
set_scalars-Clean scalar [] c h v = v
set_scalars-Clean scalar (key ∷ keys) c h v =
    if-both (OnOk IsClean) (is_empty (scalar key)) (λ _. set_scalars-Clean scalar keys c h v)
      (λ _.
        OnOk-bind IsClean IsClean _ _ (set_obfuscation-Clean key (scalar key) c v (h key))
          (λ c' v'. set_scalars-Clean scalar keys c' h v'))

read_peer-Clean : (peer : EndpointPeer) → PeerFits peer → OnOk PeerIsClean (read_peer peer)
unfolding read_peer
read_peer-Clean peer f =
    OnOk-bind Clean PeerIsClean _ _
      (OnOk-label Clean (codes "public_key") _ (key_to_hex-Clean peer.public_key))
      λ key k.
        OnOk-bind Clean PeerIsClean _ _ (optional_key-Clean peer.pre_shared_key) λ preshared p.
          if-both (OnOk PeerIsClean) (is_empty peer.address || is_zero peer.port) (λ _. tt)
            (λ _. record {
              public_key = k;
              preshared_key = p;
              endpoint = join_host_port-Clean peer.address peer.port f.0;
              allowed_ips =
                  if-both (All Clean) (length peer.allowed_ips == 0) (λ _. omega arith) (λ _. f.1);
            })

module _ (n : Netip) where
  read_endpoint-Clean :
      (e : Endpoint) (peer : EndpointPeer)
      → PeerFits peer
      → ((key : Text) → Clean (e.scalar key))
      → OnOk IsClean (read_endpoint n e peer)
  unfolding read_endpoint
  read_endpoint-Clean e peer f h =
      OnOk-bind Clean IsClean _ _
        (OnOk-label Clean (codes "private_key") _ (key_to_hex-Clean e.private_key))
        λ key k.
          OnOk-bind Any IsClean _ _ (OnOk-Any (parse_all n (codes "address") e.address))
            λ addresses _.
              if-both (OnOk IsClean) (length addresses == 0) (λ _. tt)
                λ _. OnOk-bind Any IsClean _ _ (OnOk-Any (parse_all n (codes "dns") e.dns)) λ dns _.
                  OnOk-bind PeerIsClean IsClean _ _ (read_peer-Clean peer f) λ p q.
                    set_scalars-Clean e.scalar obfuscation_keys _ h (record {
                      private_key = k;
                      obfuscation = tt;
                      public_key = q.public_key;
                      preshared_key = q.preshared_key;
                      endpoint = q.endpoint;
                      allowed_ips = q.allowed_ips;
                    })

  one_peer-Clean :
      (e : Endpoint) (peers : List EndpointPeer)
      → All PeerFits peers
      → ((key : Text) → Clean (e.scalar key))
      → OnOk IsClean (one_peer n e peers)
  unfolding one_peer
  one_peer-Clean e [] f h = tt
  one_peer-Clean e (peer ∷ []) f h = read_endpoint-Clean e peer f.0 h
  one_peer-Clean e (peer ∷ other ∷ peers) f h = tt

  endpoint_config-Clean : (e : Endpoint) → Fits e → OnOk IsClean (endpoint_config n e)
  unfolding endpoint_config
  endpoint_config-Clean e (f, h) =
      if-both (OnOk IsClean) (not (is_empty e.type) && not (text_eq e.type (codes "amneziawg")))
        (λ _. tt) (λ _. one_peer-Clean e e.peers f h)

  -- An accepted endpoint, none of whose obfuscation fields, peer addresses and allowed networks
  -- has a line end in it, is rendered as exactly one line for each setting, and the empty rest.
  pub endpoint-lines :
      (e : Endpoint) (c : Config n.Addr)
      → Fits e
      → endpoint_config n e ≡ ok c
      → split 10 (ipc c) ≡ map line_of (settings c) ++ [] ∷ []
  endpoint-lines e c f h = clean-lines c (subst (OnOk IsClean) h (endpoint_config-Clean e f))
