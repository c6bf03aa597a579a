-- ===== src/Awg/Parsed.antt =====
-- What `ParseConfig` puts into a configuration has no line end in it.
pub mod Settings
use caelo.Base.{
  ℕ, ◌+◌, inl, inr, ◌&&◌, ◌||◌, Option, none, some, List, [], ◌∷◌, ◌++◌, ◌==◌, if-both,
  Option-cases, ok, err, ◌>>=◌, length, All, All-append,
}
use caelo.Base.Codec.{base64_decode, parse_int}
use caelo.Base.Int.{ℤ}
use caelo.Base.Map
use caelo.Base.Text.{
  Text, codes, is_empty, text_eq, text_key, trim_space, to_lower, has_prefix, has_suffix, split,
  cut,
}
use caelo.Awg.{
  Go, labelled, not_a_setting, bad_number, label, Peer, Config, obfuscation_keys, is_one_of,
  key_to_hex, set_obfuscation, trimmed_parts, list_parts, set_peer,
}
use caelo.Awg.Conf.{
  Netip, at_number, parse_addr_list, set_interface, set_in, read_line, read_lines, default_config,
  check_config, parse_config,
}
use caelo.Awg.Clean.{
  Clean, split-Clean, split_line-Clean, trim_space-Clean, CleanParts, cut-Clean, hex_encode-Clean,
}
pub use Settings.*

module _ (n : Netip) where
  set_interface-Clean :
      (key value : Text) (c : Config n.Addr)
      → Clean value
      → IsClean c
      → OnOk IsClean (set_interface n key value c)
  unfolding set_interface
  set_interface-Clean key value c h v =
      if-both (OnOk IsClean) (is_one_of key obfuscation_keys)
        (λ _. set_obfuscation-Clean key value c v h)
        λ _.
          if-both (OnOk IsClean) (text_eq key (codes "privatekey"))
            (λ _.
              OnOk-bind Clean IsClean _ _
                (OnOk-label Clean (codes "PrivateKey") _ (key_to_hex-Clean value))
                (λ k e. same_texts c k c.addresses c.dns c.mtu e v))
            λ _.
              if-both (OnOk IsClean) (text_eq key (codes "address"))
                (λ _.
                  with_addresses (label (codes "Address") (parse_addr_list n value)) _ (λ a.
                    same_texts c c.private_key (c.addresses ++ a) c.dns c.mtu v.private_key v))
                λ _.
                  if-both (OnOk IsClean) (text_eq key (codes "dns"))
                    (λ _. with_addresses (label (codes "DNS") (parse_addr_list n value)) _ (λ a.
                      same_texts c c.private_key c.addresses (c.dns ++ a) c.mtu v.private_key v))
                    λ _.
                      if-both (OnOk IsClean) (text_eq key (codes "mtu"))
                        (λ _. set_mtu-Clean (parse_int value) c v) (λ _. v)

  set_in-Clean :
      (section key value : Text) (c : Config n.Addr)
      → Clean value
      → IsClean c
      → OnOk IsClean (set_in n section key value c)
  unfolding set_in
  set_in-Clean section key value c h v =
      if-both (OnOk IsClean) (text_eq section (codes "interface"))
        (λ _. set_interface-Clean key value c h v)
        λ _.
          if-both (OnOk IsClean) (text_eq section (codes "peer"))
            (λ _.
              OnOk-bind PeerIsClean IsClean _ _
                (set_peer-Clean key value c.peer h (record {
                  public_key = v.public_key;
                  preshared_key = v.preshared_key;
                  endpoint = v.endpoint;
                  allowed_ips = v.allowed_ips;
                }))
                (λ p w. record {
                  private_key = v.private_key;
                  obfuscation = v.obfuscation;
                  public_key = w.public_key;
                  preshared_key = w.preshared_key;
                  endpoint = w.endpoint;
                  allowed_ips = w.allowed_ips;
                }))
            (λ _. tt)

  -- The section and the configuration, of which only the latter matters.
  abbrev StateIsClean : Text × Config n.Addr → Type 0
  StateIsClean st = IsClean st.1

  read_setting-Clean :
      (section line : Text) (c : Config n.Addr) (o : Option (Text × Text))
      → CleanParts o
      → IsClean c
      → OnOk StateIsClean (elim o [
        | none ↦ err (not_a_setting line)
        | some (key, value) ↦ do
          c' ← set_in n section (to_lower (trim_space key)) (trim_space value) c
          ok (section, c')
      ])
  read_setting-Clean section line c none h v = tt
  read_setting-Clean section line c (some (key, value)) h v =
      OnOk-bind IsClean StateIsClean
        (set_in n section (to_lower (trim_space key)) (trim_space value) c) _
        (set_in-Clean section _ _ c (trim_space-Clean value h.1) v) (λ c' w. w)

  read_line-Clean :
      (line : Text) (st : Text × Config n.Addr)
      → Clean line
      → StateIsClean st
      → OnOk StateIsClean (read_line n line st)
  unfolding read_line
  read_line-Clean line (section, c) h v =
      if-both (OnOk StateIsClean)
        (is_empty line || has_prefix line (codes "#") || has_prefix line (codes ";")) (λ _. v)
        λ _.
          if-both (OnOk StateIsClean) (has_prefix line (codes "[") && has_suffix line (codes "]"))
            (λ _. v)
            (λ _. read_setting-Clean section line c (cut b'=' line) (cut-Clean b'=' line h) v)

  OnOk-at_number :
      {A : Type 0} (P : A → Type 0) (number : ℕ) (m : Go A) → OnOk P m → OnOk P (at_number number m)
  OnOk-at_number P number (ok a) h = h
  OnOk-at_number P number (err e) h = tt

  read_lines-Clean :
      (number : ℕ) (lines : List Text) (st : Text × Config n.Addr)
      → All Clean lines
      → StateIsClean st
      → OnOk StateIsClean (read_lines n number lines st)
  unfolding read_lines
  read_lines-Clean number [] st h v = v
  read_lines-Clean number (raw ∷ lines) st h v =
      OnOk-bind StateIsClean StateIsClean (at_number number (read_line n (trim_space raw) st)) _
        (OnOk-at_number StateIsClean number _
          (read_line-Clean (trim_space raw) st (trim_space-Clean raw h.0) v))
        (λ st' w. read_lines-Clean (number + 1) lines st' h.1 w)

  default_config-Clean : IsClean (default_config n)
  default_config-Clean = record {
    private_key = tt;
    obfuscation = tt;
    public_key = tt;
    preshared_key = tt;
    endpoint = tt;
    allowed_ips = tt;
  }

  check_config-Clean : (c : Config n.Addr) → IsClean c → OnOk IsClean (check_config n c)
  unfolding check_config
  check_config-Clean c v =
      if-both (OnOk IsClean) (is_empty c.private_key) (λ _. tt)
        λ _.
          if-both (OnOk IsClean) (is_empty c.peer.public_key) (λ _. tt)
            λ _. if-both (OnOk IsClean) (length c.addresses == 0) (λ _. tt) (λ _. v)

  pub parse_config-Clean : (text : Text) → OnOk IsClean (parse_config n text)
  unfolding parse_config
  parse_config-Clean text =
      OnOk-bind StateIsClean IsClean (read_lines n 1 (split 10 text) ([], default_config n)) _
        (read_lines-Clean 1 (split 10 text) ([], default_config n) (split-Clean text)
          default_config-Clean)
        (λ st w. check_config-Clean st.1 w)
