-- ===== src/Tcp/Total.antt =====
-- `parseTCP` reads only inside the packet that it is given.
use caelo.Base.{
  ℕ, ◌+◌, ◌-◌, ◌*◌, ◌/◌, ◌%◌, ◌≤◌, ◌<◌, ◌≡◌, refl, Bool, true, false, Option, List, [], ◌∷◌, arith,
  not, ◌||◌, ◌==◌, ltb, if◌then◌else◌, ok, ◌>>=◌, length, take, drop, length-take, length-drop,
  get_elem?-lt,
}
use caelo.Tcp.{
  Go, byte_at, slice, array, be16, be32, u16_at, u32_at, array_at, Addr, Tcp, parse_segment,
  v4_segment, v4_checks, parse_v4, v6_segment, v6_checks, parse_v6, by_version, parse_tcp,
}

-- The call returns a value.
pub data Returns {A : Type 0} : Go A → Type 0 where
  value : (a : A) → Returns (ok a)

Returns-then :
    {A B : Type 0} {m : Go A} (f : A → Go B)
    → Returns m
    → ((a : A) → Returns (f a))
    → Returns (m >>= f)
Returns-then f (value a) k = k a

Returns-if :
    {A : Type 0} (b : Bool) {m n : Go A}
    → (b ≡ true → Returns m)
    → (b ≡ false → Returns n)
    → Returns (if b then m else n)
Returns-if true f g = f refl
Returns-if false f g = g refl

byte_at-Returns : (b : List ℕ) (i : ℕ) → i < length b → Returns (byte_at b i)
unfolding byte_at
byte_at-Returns b i h = let (x, e) = get_elem?-lt b i h in rw (e, byte_at) (value x)

pub slice-eq :
    (b : List ℕ) (lo hi : ℕ)
    → lo ≤ hi
    → hi ≤ length b
    → slice b lo hi ≡ ok (take (hi - lo) (drop lo b))
unfolding slice
slice-eq b lo hi h k = ground arith

slice-Returns : (b : List ℕ) (lo hi : ℕ) → lo ≤ hi → hi ≤ length b → Returns (slice b lo hi)
slice-Returns b lo hi h k = rw (slice-eq b lo hi h k) (value _)

length-slice :
    (b : List ℕ) (lo n : ℕ) → lo + n ≤ length b → length (take (lo + n - lo) (drop lo b)) ≡ n
length-slice b lo n h = omega (arith, length-take (lo + n - lo) (drop lo b), length-drop lo b)

array-Returns : (n : ℕ) (s : List ℕ) → length s ≡ n → Returns (array n s)
unfolding array
array-Returns n s h = let e : ltb (length s) n ≡ false = ground arith in rw e (value _)

be16-Returns : (s : List ℕ) → length s ≡ 2 → Returns (be16 s)
unfolding be16
be16-Returns [] h = absurd (omega arith)
be16-Returns (x ∷ []) h = absurd (omega arith)
be16-Returns (x ∷ y ∷ s) h = value _

be32-Returns : (s : List ℕ) → length s ≡ 4 → Returns (be32 s)
unfolding be32
be32-Returns [] h = absurd (omega arith)
be32-Returns (x ∷ []) h = absurd (omega arith)
be32-Returns (x ∷ y ∷ []) h = absurd (omega arith)
be32-Returns (x ∷ y ∷ z ∷ []) h = absurd (omega arith)
be32-Returns (x ∷ y ∷ z ∷ w ∷ s) h = value _

-- A fixed number of bytes, taken and converted.
taken-Returns :
    {A : Type 0} (f : List ℕ → Go A) (b : List ℕ) (lo n : ℕ)
    → ((s : List ℕ) → length s ≡ n → Returns (f s))
    → lo + n ≤ length b
    → Returns (slice b lo (lo + n) >>= f)
taken-Returns f b lo n k h =
    rw (slice-eq b lo (lo + n) (omega arith) h) (k _ (length-slice b lo n h))

u16_at-Returns : (b : List ℕ) (i : ℕ) → i + 2 ≤ length b → Returns (u16_at b i)
unfolding u16_at
u16_at-Returns b i h = taken-Returns be16 b i 2 be16-Returns h

u32_at-Returns : (b : List ℕ) (i : ℕ) → i + 4 ≤ length b → Returns (u32_at b i)
unfolding u32_at
u32_at-Returns b i h = taken-Returns be32 b i 4 be32-Returns h

array_at-Returns : (b : List ℕ) (i n : ℕ) → i + n ≤ length b → Returns (array_at b i n)
unfolding array_at
array_at-Returns b i n h = taken-Returns (array n) b i n (array-Returns n) h

parse_segment-Returns : (l r : Addr) (s : List ℕ) → Returns (parse_segment l r s)
unfolding parse_segment
parse_segment-Returns l r s =
    Returns-if (ltb (length s) 20) (λ _. value _)
      λ h.
        let long : 20 ≤ length s = ground arith in
        Returns-then _ (u16_at-Returns s 0 (omega arith)) λ _.
          Returns-then _ (u16_at-Returns s 2 (omega arith)) λ _.
            Returns-then _ (u32_at-Returns s 4 (omega arith)) λ _.
              Returns-then _ (u32_at-Returns s 8 (omega arith))
                λ _. Returns-then _ (byte_at-Returns s 13 (omega arith)) λ _. value _

v4_segment-Returns :
    (p : List ℕ) (ihl total : ℕ) → 20 ≤ length p → ihl ≤ length p → Returns (v4_segment p ihl total)
unfolding v4_segment
v4_segment-Returns p ihl total h k = Returns-then _ (array_at-Returns p 12 4 (omega arith)) λ _.
    Returns-then _ (array_at-Returns p 16 4 (omega arith)) λ _.
      Returns-then _ (slice-Returns p ihl _ (ground arith) (ground arith))
        λ segment. parse_segment-Returns _ _ segment

v4_checks-Returns :
    (p : List ℕ) (ihl total protocol fragment : ℕ)
    → 20 ≤ length p
    → Returns (v4_checks p ihl total protocol fragment)
unfolding v4_checks
v4_checks-Returns p ihl total protocol fragment h =
    Returns-if
      (ltb ihl 20 || ltb (length p) ihl || not (protocol == 6) || not (fragment % 0x2000 == 0))
      (λ _. value _) λ fits. v4_segment-Returns p ihl total h (ground arith)

parse_v4-Returns : (p : List ℕ) (first : ℕ) → Returns (parse_v4 p first)
unfolding parse_v4
parse_v4-Returns p first =
    Returns-if (ltb (length p) 20) (λ _. value _)
      λ h.
        let long : 20 ≤ length p = ground arith in
        Returns-then _ (u16_at-Returns p 2 (omega arith)) λ total.
          Returns-then _ (byte_at-Returns p 9 (omega arith)) λ protocol.
            Returns-then _ (u16_at-Returns p 6 (omega arith))
              λ fragment. v4_checks-Returns p (first % 16 * 4) total protocol fragment long

v6_checks-Returns : (p : List ℕ) (next : ℕ) → 40 ≤ length p → Returns (v6_checks p next)
unfolding v6_checks v6_segment
v6_checks-Returns p next h =
    Returns-if (not (next == 6)) (λ _. value _)
      λ _. Returns-then _ (array_at-Returns p 8 16 (omega arith)) λ _.
        Returns-then _ (array_at-Returns p 24 16 (omega arith)) λ _.
          Returns-then _ (slice-Returns p 40 (length p) h (omega arith))
            λ segment. parse_segment-Returns _ _ segment

parse_v6-Returns : (p : List ℕ) → Returns (parse_v6 p)
unfolding parse_v6
parse_v6-Returns p =
    Returns-if (ltb (length p) 40) (λ _. value _)
      λ h.
        let long : 40 ≤ length p = ground arith in
        Returns-then _ (byte_at-Returns p 6 (omega arith)) λ next. v6_checks-Returns p next long

by_version-Returns : (p : List ℕ) (first : ℕ) → Returns (by_version p first)
unfolding by_version
by_version-Returns p first =
    Returns-if (first / 16 == 4) (λ _. parse_v4-Returns p first)
      λ _. Returns-if (first / 16 == 6) (λ _. parse_v6-Returns p) λ _. value _

parse_tcp-Returns : (p : List ℕ) → Returns (parse_tcp p)
unfolding parse_tcp
parse_tcp-Returns p =
    Returns-if (ltb (length p) 1) (λ _. value _)
      λ h.
        let long : 1 ≤ length p = ground arith in
        Returns-then _ (byte_at-Returns p 0 long) λ first. by_version-Returns p first

Returns-inv : {A : Type 0} {m : Go A} → Returns m → (a : A) × (m ≡ ok a)
Returns-inv (value a) = (a, refl)

-- Whatever bytes it is shown, of any number, `parseTCP` returns: no index and no slice expression
-- in it is out of range.
pub parse_tcp_returns : (p : List ℕ) → (r : Option Tcp) × (parse_tcp p ≡ ok r)
parse_tcp_returns p = Returns-inv (parse_tcp-Returns p)
