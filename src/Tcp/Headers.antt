-- ===== src/Tcp/Headers.antt =====
-- `parseTCP` against packets laid out as RFC 791, RFC 8200 and RFC 9293 lay them out.
use native.Mathlib.Nat.{zero-add, suc-add}
use caelo.Base.{
  ℕ, zero, suc, ◌+◌, ◌-◌, ◌*◌, ◌/◌, ◌%◌, ◌≤◌, ◌<◌, ◌≡◌, refl, Bool, true, false, Option, some, List,
  [], ◌∷◌, ◌++◌, arith, ok, length, take, drop, length-drop, length-append, ap, sym, ◌==◌, ◌∙◌,
}
use caelo.Tcp.{
  slice, be16, be32, u16_at, u32_at, array_at, byte_at, array, Addr, v4, v6, Tcp, parse_segment,
  v4_segment, v4_checks, parse_v4, v6_segment, v6_checks, parse_v6, by_version, parse_tcp,
}

-- The numbers of a TCP header that the meter uses, as a sender has them.
pub record Sent : Type 0 where
  pub source_port : ℕ
  pub target_port : ℕ
  pub seq : ℕ
  pub ack : ℕ
  pub flags : ℕ

-- A TCP header and what follows it: the data offset, the window, the checksum and the urgent
-- pointer are the bytes `o`, `w1` to `w6`, of any value.
abbrev pub segment_bytes : Sent → ℕ → ℕ → ℕ → ℕ → ℕ → ℕ → ℕ → List ℕ → List ℕ
segment_bytes s o w1 w2 w3 w4 w5 w6 payload =
    (s.source_port / 256)
    ∷ (s.source_port % 256)
    ∷ (s.target_port / 256)
    ∷ (s.target_port % 256)
    ∷ (s.seq / 0x1000000)
    ∷ (s.seq / 0x10000 % 256)
    ∷ (s.seq / 256 % 256)
    ∷ (s.seq % 256)
    ∷ (s.ack / 0x1000000)
    ∷ (s.ack / 0x10000 % 256)
    ∷ (s.ack / 256 % 256)
    ∷ (s.ack % 256)
    ∷ o
    ∷ s.flags
    ∷ w1
    ∷ w2
    ∷ w3
    ∷ w4
    ∷ w5
    ∷ w6
    ∷ payload

take-all : {A : Type 0} (n : ℕ) (xs : List A) → length xs ≤ n → take n xs ≡ xs
take-all zero [] h = refl
take-all zero (x ∷ xs) h = elim h [ ]
take-all (suc n) [] h = refl
take-all (suc n) (x ∷ xs) h = caelo.Base.ap (λ t. x ∷ t) (take-all n xs (omega arith))

slice_to_end : (b : List ℕ) (lo : ℕ) → lo ≤ length b → slice b lo (length b) ≡ ok (drop lo b)
unfolding slice
slice_to_end b lo h =
    ground (arith, take-all (length b - lo) (drop lo b) (omega (arith, length-drop lo b)))

-- What `parseTCP` makes of a segment between two addresses.
abbrev pub read_as : Addr → Addr → Sent → Tcp
read_as local remote s = record {
  flow = record {
    local = local;
    remote = remote;
    local_port = s.source_port;
    remote_port = s.target_port;
  };
  flags = s.flags;
  seq = s.seq;
  ack = s.ack;
}

parse_segment-segment_bytes :
    (l r : caelo.Tcp.Addr) (s : Sent) (o w1 w2 w3 w4 w5 w6 : ℕ) (payload : List ℕ)
    → parse_segment l r (segment_bytes s o w1 w2 w3 w4 w5 w6 payload) ≡ ok (some (read_as l r s))
unfolding parse_segment u16_at u32_at byte_at slice be16 be32
parse_segment-segment_bytes l r s o w1 w2 w3 w4 w5 w6 payload = ground arith

drop-append : {A : Type 0} (n : ℕ) (xs ys : List A) → length xs ≡ n → drop n (xs ++ ys) ≡ ys
drop-append zero [] ys h = refl
drop-append zero (x ∷ xs) ys h = absurd (omega arith)
drop-append (suc n) [] ys h = absurd (omega arith)
drop-append (suc n) (x ∷ xs) ys h = drop-append n xs ys (omega arith)

drop-nil : {A : Type 0} (n : ℕ) → drop {A = A} n [] ≡ []
drop-nil zero = refl
drop-nil (suc n) = refl

drop-add : {A : Type 0} (n m : ℕ) (xs : List A) → drop (n + m) xs ≡ drop m (drop n xs)
drop-add zero m xs = rw zero-add
drop-add {A} (suc n) m [] = rw (drop-nil {A = A} (suc n + m)) (sym (drop-nil m))
drop-add (suc n) m (x ∷ xs) = rw suc-add (drop-add n m xs)

-- The four bytes of an IPv4 address, and the sixteen of an IPv6 one in four groups.
pub record Quad : Type 0 where
  pub a : ℕ
  pub b : ℕ
  pub c : ℕ
  pub d : ℕ

abbrev pub quad_bytes : Quad → List ℕ → List ℕ
quad_bytes q more = q.a ∷ q.b ∷ q.c ∷ q.d ∷ more

-- An IPv4 packet: version 4, `k` words of options, the total length, the identification `i1 i2`,
-- the flags and fragment offset, the time to live, protocol 6, the header checksum `c1 c2`.
abbrev pub ipv4_bytes : ℕ → ℕ → ℕ → ℕ → ℕ → ℕ → ℕ → ℕ → ℕ → Quad → Quad → List ℕ → List ℕ → List ℕ
ipv4_bytes k tos total i1 i2 fragment ttl c1 c2 source target options segment =
    (69 + k)
    ∷ tos
    ∷ (total / 256)
    ∷ (total % 256)
    ∷ i1
    ∷ i2
    ∷ (fragment / 256)
    ∷ (fragment % 256)
    ∷ ttl
    ∷ 6
    ∷ c1
    ∷ c2
    ∷ quad_bytes source (quad_bytes target (options ++ segment))

module _ (k tos total i1 i2 fragment ttl c1 c2 : ℕ) (source target : Quad)
    (options segment : List ℕ) where
  abbrev packet : List ℕ
  packet = ipv4_bytes k tos total i1 i2 fragment ttl c1 c2 source target options segment

  drop_header : length options ≡ 4 * k → drop (20 + 4 * k) packet ≡ segment
  drop_header h = rw (drop-add 20 (4 * k) packet) (drop-append (4 * k) options segment h)

  ipv4_segment : length options ≡ 4 * k → slice packet (20 + 4 * k) (length packet) ≡ ok segment
  ipv4_segment h =
      rw (slice_to_end packet (20 + 4 * k) (omega (arith, length-append options segment)))
        (ap ok (drop_header h))

  ipv4_addresses :
      (array_at packet 12 4 ≡ ok (quad_bytes source []))
      × (array_at packet 16 4 ≡ ok (quad_bytes target []))
  unfolding array_at slice array
  ipv4_addresses = ground arith

  ipv4_fields :
      (u16_at packet 2 ≡ ok total) × (u16_at packet 6 ≡ ok fragment) × (byte_at packet 9 ≡ ok 6)
  unfolding u16_at slice be16 byte_at
  ipv4_fields = ground arith

  ipv4_reaches : k ≤ 10 → parse_tcp packet ≡ v4_checks packet ((69 + k) % 16 * 4) total 6 fragment
  unfolding parse_tcp by_version parse_v4 byte_at
  ipv4_reaches h =
      let version : ((69 + k) / 16 == 4) ≡ true = ground arith in
      rw version (ground (arith, ipv4_fields))

  ipv4_checked :
      length options ≡ 4 * k
      → fragment % 0x2000 ≡ 0
      → v4_checks packet (20 + 4 * k) total 6 fragment ≡ v4_segment packet (20 + 4 * k) total
  unfolding v4_checks
  ipv4_checked h z = ground (arith, length-append options segment)

  ipv4_whole :
      length options ≡ 4 * k
      → total ≡ length packet
      → v4_segment packet (20 + 4 * k) total
        ≡ parse_segment (v4 (quad_bytes source [])) (v4 (quad_bytes target [])) segment
  unfolding v4_segment
  ipv4_whole h w = ground (arith, ipv4_addresses, ipv4_segment h)

  -- An IPv4 packet with any options, whole and not a later fragment, that carries a TCP segment
  -- is read as that segment, between the two addresses.
  pub parse_ipv4 :
      (s : Sent) (o w1 w2 w3 w4 w5 w6 : ℕ) (payload : List ℕ)
      → segment ≡ segment_bytes s o w1 w2 w3 w4 w5 w6 payload
      → k ≤ 10
      → length options ≡ 4 * k
      → total ≡ length packet
      → fragment % 0x2000 ≡ 0
      → parse_tcp packet
        ≡ ok (some (read_as (v4 (quad_bytes source [])) (v4 (quad_bytes target [])) s))
  parse_ipv4 s o w1 w2 w3 w4 w5 w6 payload e small fits whole first =
      let ihl : (69 + k) % 16 * 4 ≡ 20 + 4 * k = omega arith in
      ipv4_reaches small
      ∙ ap (λ h. v4_checks packet h total 6 fragment) ihl
      ∙ ipv4_checked fits first
      ∙ ipv4_whole fits whole
      ∙ ap (parse_segment _ _) e
      ∙ parse_segment-segment_bytes _ _ s o w1 w2 w3 w4 w5 w6 payload

-- The sixteen bytes of an IPv6 address.
abbrev pub sixteen_bytes : Quad → Quad → Quad → Quad → List ℕ → List ℕ
sixteen_bytes a b c d more = quad_bytes a (quad_bytes b (quad_bytes c (quad_bytes d more)))

-- An IPv6 packet whose next header is TCP: version 6, traffic class and flow label `x1 x2 x3`,
-- the payload length `l1 l2`, the hop limit.
abbrev pub ipv6_bytes :
    ℕ → ℕ → ℕ → ℕ → ℕ → ℕ → ℕ → (List ℕ → List ℕ) → (List ℕ → List ℕ) → List ℕ → List ℕ
ipv6_bytes x0 x1 x2 x3 l1 l2 hop source target segment =
    (96 + x0) ∷ x1 ∷ x2 ∷ x3 ∷ l1 ∷ l2 ∷ 6 ∷ hop ∷ source (target segment)

module _ (x0 x1 x2 x3 l1 l2 hop : ℕ) (s1 s2 s3 s4 t1 t2 t3 t4 : Quad) (segment : List ℕ) where
  abbrev packet6 : List ℕ
  packet6 =
      ipv6_bytes x0 x1 x2 x3 l1 l2 hop (sixteen_bytes s1 s2 s3 s4) (sixteen_bytes t1 t2 t3 t4)
        segment

  ipv6_addresses :
      (array_at packet6 8 16 ≡ ok (sixteen_bytes s1 s2 s3 s4 []))
      × (array_at packet6 24 16 ≡ ok (sixteen_bytes t1 t2 t3 t4 []))
  unfolding array_at slice array
  ipv6_addresses = ground arith

  ipv6_segment : slice packet6 40 (length packet6) ≡ ok segment
  ipv6_segment = slice_to_end packet6 40 (omega arith)

  ipv6_reaches : x0 < 16 → parse_tcp packet6 ≡ v6_segment packet6
  unfolding parse_tcp by_version parse_v6 v6_checks byte_at
  ipv6_reaches h = let version : ((96 + x0) / 16) ≡ 6 = omega arith in rw version (ground arith)

  ipv6_whole :
      v6_segment packet6
      ≡ parse_segment
          (v6 (sixteen_bytes s1 s2 s3 s4 []))
          (v6 (sixteen_bytes t1 t2 t3 t4 []))
          segment
  unfolding v6_segment
  ipv6_whole = ground (arith, ipv6_addresses, ipv6_segment)

  -- An IPv6 packet whose first next header is TCP is read as the segment that it carries, between
  -- the two addresses.
  pub parse_ipv6 :
      (s : Sent) (o w1 w2 w3 w4 w5 w6 : ℕ) (payload : List ℕ)
      → segment ≡ segment_bytes s o w1 w2 w3 w4 w5 w6 payload
      → x0 < 16
      → parse_tcp packet6
        ≡ ok (
            some
              (read_as (v6 (sixteen_bytes s1 s2 s3 s4 [])) (v6 (sixteen_bytes t1 t2 t3 t4 [])) s))
  parse_ipv6 s o w1 w2 w3 w4 w5 w6 payload e h =
      ipv6_reaches h
      ∙ ipv6_whole
      ∙ ap (parse_segment _ _) e
      ∙ parse_segment-segment_bytes _ _ s o w1 w2 w3 w4 w5 w6 payload
