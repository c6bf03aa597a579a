-- ===== src/System/Windows/Chosen.antt =====
-- core/internal/system/network_windows.go: which default route Snapshot takes.
use caelo.Base.{
  ℕ, Bool, true, false, Option, none, some, List, [], ◌∷◌, ◌++◌, Result, ok, err, ltb, ◌≡◌, refl,
  ap, ◌<◌, ◌≤◌, ◌⊎◌, inl, inr, All, arith, ◌≢◌, if◌then◌else◌,
}
use caelo.Base.Text.{Text, codes}
use caelo.System.Windows.{
  Row, IpHelper, State, cost, consider, no_metric, state_of, wrapped, said, Problem,
}

module _ (h : IpHelper) (w : h.World) where
  abbrev AtLeast : ℕ → Option ℕ → Type 0
  AtLeast t none = Unit {0}
  AtLeast t (some c) = t ≤ c

  abbrev Above : ℕ → Option ℕ → Type 0
  Above t none = Unit {0}
  Above t (some c) = t < c

  -- Among the rows that are not skipped, `row` is the first of least total, and below `best`.
  pub record IsFirst (rows : List (Row h.Addr)) (best : ℕ) (row : Row h.Addr) (t : ℕ) : Type 0 where
    pub before : List (Row h.Addr)
    pub after : List (Row h.Addr)
    pub split : rows ≡ before ++ row ∷ after
    pub total : cost h w row ≡ some t
    pub below : t < best
    pub least : All (λ r. Above t (cost h w r)) before
    pub ties : All (λ r. AtLeast t (cost h w r)) after

  -- No row that is not skipped is below `best`.
  abbrev pub IsNone : ℕ → List (Row h.Addr) → Type 0
  IsNone best rows = All (λ r. AtLeast best (cost h w r)) rows

  abbrev Chosen : List (Row h.Addr) → ℕ × State h → ℕ × State h → Type 0
  Chosen rows (best, state) found =
      (IsNone best rows × (found ≡ (best, state)))
      ⊎ ((row : Row h.Addr) × (t : ℕ) × IsFirst rows best row t × (found ≡ (t, state_of h row)))

  skipped :
      (row : Row h.Addr) (rows : List (Row h.Addr)) (x found : ℕ × State h)
      → ((t : ℕ) → t < x.0 → Above t (cost h w row))
      → AtLeast x.0 (cost h w row)
      → Chosen rows x found
      → Chosen (row ∷ rows) x found
  skipped row rows x found above low (inl (n, e)) = inl ((low, n), e)
  skipped row rows x found above low (inr (r, t, f, e)) = inr (
    r,
    t,
    record {
      before = row ∷ f.before;
      after = f.after;
      split = ap (λ l. row ∷ l) f.split;
      total = f.total;
      below = f.below;
      least = (above t f.below, f.least);
      ties = f.ties;
    },
    e,
  )

  taken :
      (row : Row h.Addr) (rows : List (Row h.Addr)) (best c : ℕ) (state : State h)
      (found : ℕ × State h)
      → cost h w row ≡ some c
      → c < best
      → Chosen rows (c, state_of h row) found
      → Chosen (row ∷ rows) (best, state) found
  taken row rows best c state found k lt (inl (n, e)) = inr (
    row,
    c,
    record { before = []; after = rows; split = refl; total = k; below = lt; least = tt; ties = n },
    e,
  )
  taken row rows best c state found k lt (inr (r, t, f, e)) = inr (
    r,
    t,
    record {
      before = row ∷ f.before;
      after = f.after;
      split = ap (λ l. row ∷ l) f.split;
      total = f.total;
      below = let b = f.below in omega arith;
      least = (rw k f.below, f.least);
      ties = f.ties;
    },
    e,
  )

  compared :
      (row : Row h.Addr) (rows : List (Row h.Addr)) (best c : ℕ) (state : State h)
      (found : ℕ × State h) (b : Bool)
      → cost h w row ≡ some c
      → ltb c best ≡ b
      → Chosen rows (if b then (c, state_of h row) else (best, state)) found
      → Chosen (row ∷ rows) (best, state) found
  compared row rows best c state found true k lt r =
      taken row rows best c state found k (ground arith) r
  compared row rows best c state found false k ge r =
      skipped row rows (best, state) found (λ t lt. rw k (ground arith)) (rw k (ground arith)) r

  step :
      (row : Row h.Addr) (rows : List (Row h.Addr)) (x found : ℕ × State h) (o : Option ℕ)
      → cost h w row ≡ o
      → Chosen rows (consider h row o x) found
      → Chosen (row ∷ rows) x found
  unfolding consider
  step row rows x found none k r = skipped row rows x found (λ t lt. rw k tt) (rw k tt) r
  step row rows (best, state) found (some c) k r =
      compared row rows best c state found (ltb c best) k refl r

  abbrev Ends : List (Row h.Addr) → Result Problem (State h) → Type 0
  Ends rows (ok state) =
      (row : Row h.Addr) × (t : ℕ) × IsFirst rows no_metric row t
      × (state ≡ state_of h row)
      × (row.next_hop ≢ none)
  Ends rows (err e) =
      (e ≡ said (codes "no default route: this machine is not on a network"))
      × (IsNone no_metric rows
          ⊎ ((row : Row h.Addr) × (t : ℕ) × IsFirst rows no_metric row t × (row.next_hop ≡ none)))

  -- What Snapshot says of the table that it read.
  abbrev pub IsLeast : Result Text (List (Row h.Addr)) → Result Problem (State h) → Type 0
  IsLeast (err why) r = r ≡ err (wrapped (codes "reading the routing table") why)
  IsLeast (ok rows) r = Ends rows r
