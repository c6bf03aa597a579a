-- ===== src/Awg/Conf.antt =====
-- core/internal/awg/config.go: `ParseConfig`. netip.ParsePrefix and netip.ParseAddr are the
-- parameter `Netip`, whose type of addresses a configuration carries.
use caelo.Base.{
  ℕ, ◌+◌, Bool, ◌&&◌, ◌||◌, Option, none, some, List, [], ◌∷◌, ◌++◌, reverse, ◌==◌, if◌then◌else◌,
  ok, err, ◌>>=◌, length,
}
use caelo.Base.Codec.{parse_int}
use caelo.Base.Int.{pos}
use caelo.Base.Text.{
  Text, codes, is_empty, text_eq, trim_space, to_lower, has_prefix, has_suffix, split, cut,
}
use caelo.Awg.{
  Go, bad_address, bad_number, outside_section, not_a_setting, missing, labelled, at_line, label,
  Config, obfuscation_keys, is_one_of, key_to_hex, set_obfuscation, list_parts, set_peer,
}

-- strings.Trim(line, "[]")
abbrev pub is_bracket : ℕ → Bool
is_bracket c = c == b'[' || c == b']'

unfoldable pub trim_brackets : Text → Text
trim_brackets [] = []
trim_brackets (c ∷ s) = if is_bracket c then trim_brackets s else c ∷ s

unfoldable pub section_name : Text → Text
unfolding trim_brackets
section_name line = reverse (trim_brackets (reverse (trim_brackets line)))

-- fmt.Errorf("line %d: %w", number, err)
abbrev pub at_number : {A : Type 0} → ℕ → Go A → Go A
at_number number (ok a) = ok a
at_number number (err e) = err (at_line number e)

-- What net/netip makes of a text: the address of a prefix, and an address.
pub record Netip : Type 1 where
  pub Addr : Type 0
  pub parse_prefix : Text → Option Addr
  pub parse_addr : Text → Option Addr

module _ (n : Netip) where
  open n use {Addr, parse_prefix, parse_addr}

  -- The loop of parseAddrList, over parts that are trimmed and not empty.
  pub parse_addrs : List Text → Go (List Addr)
  parse_addrs [] = ok []
  parse_addrs (part ∷ parts) =
      let rest = parse_addrs parts in
      elim (parse_prefix part) [
        | some addr ↦ do more ← rest; ok (addr ∷ more)
        | none ↦ elim (parse_addr part) [
          | some addr ↦ do more ← rest; ok (addr ∷ more)
          | none ↦ err (bad_address part)
        ]
      ]

  -- parseAddrList
  unfoldable pub parse_addr_list : Text → Go (List Addr)
  unfolding parse_addrs list_parts
  parse_addr_list value = parse_addrs (list_parts value)

  -- Config.setInterface; an unknown key is ignored.
  unfoldable pub set_interface : Text → Text → Config Addr → Go (Config Addr)
  unfolding is_one_of set_obfuscation key_to_hex parse_addr_list parse_int
  set_interface key value c =
      if is_one_of key obfuscation_keys
      then set_obfuscation key value c
      else if text_eq key (codes "privatekey")
      then (do
        hex_key ← label (codes "PrivateKey") (key_to_hex value)
        ok (record c { private_key = hex_key }))
      else if text_eq key (codes "address")
      then (do
        addrs ← label (codes "Address") (parse_addr_list value)
        ok (record c { addresses = c.addresses ++ addrs }))
      else if text_eq key (codes "dns")
      then (do
        addrs ← label (codes "DNS") (parse_addr_list value)
        ok (record c { dns = c.dns ++ addrs }))
      else if text_eq key (codes "mtu")
      then elim (parse_int value) [
        | none ↦ err (labelled (codes "MTU") bad_number)
        | some mtu ↦ ok (record c { mtu = mtu })
      ]
      else ok c

  -- One setting, in the section that it stands in.
  unfoldable pub set_in : Text → Text → Text → Config Addr → Go (Config Addr)
  unfolding set_interface set_peer
  set_in section key value c =
      if text_eq section (codes "interface")
      then set_interface key value c
      else if text_eq section (codes "peer")
      then (do p ← set_peer key value c.peer; ok (record c { peer = p }))
      else err (outside_section key)

  -- What one line, trimmed, does to the section and the configuration.
  unfoldable pub read_line : Text → Text × Config Addr → Go (Text × Config Addr)
  unfolding set_in section_name
  read_line line (section, c) =
      if is_empty line || has_prefix line (codes "#") || has_prefix line (codes ";")
      then ok (section, c)
      else if has_prefix line (codes "[") && has_suffix line (codes "]")
      then ok (to_lower (section_name line), c)
      else elim (cut b'=' line) [
        | none ↦ err (not_a_setting line)
        | some (key, value) ↦ do
          c' ← set_in section (to_lower (trim_space key)) (trim_space value) c
          ok (section, c')
      ]

  -- The loop over the lines; a failure carries its line's number, from 1.
  unfoldable pub read_lines : ℕ → List Text → Text × Config Addr → Go (Text × Config Addr)
  unfolding read_line
  read_lines number [] st = ok st
  read_lines number (raw ∷ lines) st = do
    st' ← at_number number (read_line (trim_space raw) st)
    read_lines (number + 1) lines st'

  abbrev pub default_config : Config Addr
  default_config = record {
    private_key = [];
    addresses = [];
    mtu = pos 1420;
    dns = [];
    obfuscation = [];
    peer = record {
      public_key = [];
      preshared_key = [];
      endpoint = [];
      allowed_ips = [];
      keepalive = pos 0;
    };
  }

  -- The checks at the end of ParseConfig.
  unfoldable pub check_config : Config Addr → Go (Config Addr)
  check_config c =
      if is_empty c.private_key
      then err (missing (codes "PrivateKey"))
      else if is_empty c.peer.public_key
      then err (missing (codes "PublicKey"))
      else if length c.addresses == 0
      then err (missing (codes "Address"))
      else ok c

  -- ParseConfig
  unfoldable pub parse_config : Text → Go (Config Addr)
  unfolding read_lines check_config
  parse_config text = do
    (section, c) ← read_lines 1 (split 10 text) ([], default_config)
    check_config c
