-- ===== src/Tcp.antt =====
-- core/internal/rtt/rtt.go, `parseTCP`: what the meter reads of an IPv4 or IPv6 packet. A packet
-- is a list of bytes. An index or a slice expression out of range is a run-time panic in Go; here
-- it is `err out_of_range`, so that the absence of panics is a statement about the code.
pub mod Total
pub mod Headers
mod Tests
use Prim.Native.Nat.{bit_and}
use caelo.Base.{
  ℕ, ◌+◌, ◌-◌, ◌*◌, ◌/◌, ◌%◌, Bool, not, ◌&&◌, ◌||◌, Option, none, some, List, [], ◌∷◌, ltb, leb,
  ◌==◌, if◌then◌else◌, Result, ok, err, ◌>>=◌, length, get_elem?, take, drop,
}

pub data Fault : Type 0 where
  out_of_range : Fault

abbrev pub Go : Type 0 → Type 0
Go A = Result Fault A

-- b[i]
unfoldable pub byte_at : List ℕ → ℕ → Go ℕ
byte_at b i = elim (get_elem? b i) [ none ↦ err out_of_range | some x ↦ ok x ]

-- b[lo:hi]
unfoldable pub slice : List ℕ → ℕ → ℕ → Go (List ℕ)
slice b lo hi =
    if leb lo hi && leb hi (length b) then ok (take (hi - lo) (drop lo b)) else err out_of_range

-- [n]byte(b)
unfoldable pub array : ℕ → List ℕ → Go (List ℕ)
array n b = if ltb (length b) n then err out_of_range else ok (take n b)

-- binary.BigEndian.Uint16(b)
unfoldable pub be16 : List ℕ → Go ℕ
be16 (x ∷ y ∷ _) = ok (x * 256 + y)
be16 _ = err out_of_range

-- binary.BigEndian.Uint32(b)
unfoldable pub be32 : List ℕ → Go ℕ
be32 (x ∷ y ∷ z ∷ w ∷ _) = ok (((x * 256 + y) * 256 + z) * 256 + w)
be32 _ = err out_of_range

unfoldable pub u16_at : List ℕ → ℕ → Go ℕ
u16_at b i = do s ← slice b i (i + 2); be16 s

unfoldable pub u32_at : List ℕ → ℕ → Go ℕ
u32_at b i = do s ← slice b i (i + 4); be32 s

unfoldable pub array_at : List ℕ → ℕ → ℕ → Go (List ℕ)
array_at b i n = do s ← slice b i (i + n); array n s

-- netip.Addr, as `AddrFrom4` and `AddrFrom16` make it.
pub data Addr : Type 0 where
  v4 : List ℕ → Addr
  v6 : List ℕ → Addr

pub record Flow : Type 0 where
  pub local : Addr
  pub remote : Addr
  pub local_port : ℕ
  pub remote_port : ℕ

-- The results of `parseTCP` where `ok` is true; `none` of them is `ok` false.
pub record Tcp : Type 0 where
  pub flow : Flow
  pub flags : ℕ
  pub seq : ℕ
  pub ack : ℕ

abbrev pub flag_syn : ℕ
flag_syn = 0x02

abbrev pub flag_ack : ℕ
flag_ack = 0x10

-- flags&(flagSYN|flagACK), the two bits that the meter looks at.
unfoldable pub syn_ack_bits : ℕ → ℕ
syn_ack_bits flags = bit_and flags 0x12

-- From `if len(segment) < 20` on.
pub parse_segment : Addr → Addr → List ℕ → Go (Option Tcp)
parse_segment local remote segment = if ltb (length segment) 20 then ok none else do
  local_port ← u16_at segment 0
  remote_port ← u16_at segment 2
  seq ← u32_at segment 4
  ack ← u32_at segment 8
  flags ← byte_at segment 13
  ok (
      some (record {
        flow = record {
          local = local;
          remote = remote;
          local_port = local_port;
          remote_port = remote_port;
        };
        flags = flags;
        seq = seq;
        ack = ack;
      }))

-- case 4, past its checks: the end of the packet is the header's word for it where that fits.
pub v4_segment : List ℕ → ℕ → ℕ → Go (Option Tcp)
v4_segment p ihl total = do
  let end = if ltb (length p) total || ltb total ihl then length p else total
  local ← array_at p 12 4
  remote ← array_at p 16 4
  segment ← slice p ihl end
  parse_segment (v4 local) (v4 remote) segment

-- Not TCP, or a fragment other than the first: no header to read.
pub v4_checks : List ℕ → ℕ → ℕ → ℕ → ℕ → Go (Option Tcp)
v4_checks p ihl total protocol fragment =
    if ltb ihl 20 || ltb (length p) ihl || not (protocol == 6) || not (fragment % 0x2000 == 0)
    then ok none
    else v4_segment p ihl total

-- case 4
pub parse_v4 : List ℕ → ℕ → Go (Option Tcp)
parse_v4 p first = if ltb (length p) 20 then ok none else do
  total ← u16_at p 2
  protocol ← byte_at p 9
  fragment ← u16_at p 6
  v4_checks p (first % 16 * 4) total protocol fragment

pub v6_segment : List ℕ → Go (Option Tcp)
v6_segment p = do
  local ← array_at p 8 16
  remote ← array_at p 24 16
  segment ← slice p 40 (length p)
  parse_segment (v6 local) (v6 remote) segment

pub v6_checks : List ℕ → ℕ → Go (Option Tcp)
v6_checks p next = if not (next == 6) then ok none else v6_segment p

-- case 6
pub parse_v6 : List ℕ → Go (Option Tcp)
parse_v6 p = if ltb (length p) 40 then ok none else do next ← byte_at p 6; v6_checks p next

-- switch p[0] >> 4
pub by_version : List ℕ → ℕ → Go (Option Tcp)
by_version p first =
    if first / 16 == 4 then parse_v4 p first else if first / 16 == 6 then parse_v6 p else ok none

pub parse_tcp : List ℕ → Go (Option Tcp)
parse_tcp p = if ltb (length p) 1 then ok none else do first ← byte_at p 0; by_version p first
