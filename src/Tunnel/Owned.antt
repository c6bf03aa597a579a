-- ===== src/Tunnel/Owned.antt =====
-- core/internal/tunnel/session.go: who holds a running device, in every interleaving of the calls.
use caelo.Base.{
  ℕ, ◌+◌, Bool, false, not, ◌&&◌, ◌||◌, ◌==◌, ==_iff, Option, none, some, List, [], ◌∷◌, ◌++◌, ◌≡◌,
  refl, sym, ap, subst, ◌∙◌, if◌then◌else◌, arith, Bool-cases, inl, inr,
}
use caelo.Base.Text.{Text}
use caelo.Awg
use caelo.Userspace.{Userspace, Tracked}
use caelo.Tunnel.{Session, new, swap, close_if, cleared}
use caelo.Tunnel.Steps.{
  Job, swapping, closing, State, at, Step, Steps, builds, fails, swaps, closes, disconnects, done,
  next,
}
use caelo.Tunnel.Replaced.{holds, IsBuild, build-IsBuild}

-- 1 for the device that is there.
abbrev pub held : Option ℕ → ℕ → ℕ
held none d = 0
held (some dev) d = if d == dev then 1 else 0

abbrev pub one_if : Bool → ℕ
one_if b = if b then 1 else 0

-- A device that did not run is opened and held once more, and one that is held is closed and let go.
opened_count :
    (d dev : ℕ) (before after : Bool) (n m : ℕ)
    → (d ≡ dev → before ≡ false)
    → after ≡ (d == dev || before)
    → one_if before ≡ n + m
    → one_if after ≡ n + (one_if (d == dev) + m)
opened_count d dev before after n m fresh a h = elim (Bool-cases (d == dev)) [
  | inl e ↦ let none = fresh ((==_iff d dev).0 e) in ground arith
  | inr e ↦ ground arith
]

closed_count :
    (d dev : ℕ) (before after : Bool) (n l r : ℕ)
    → after ≡ (not (d == dev) && before)
    → one_if before ≡ n + (l + (one_if (d == dev) + r))
    → one_if after ≡ n + (l + r)
closed_count d dev before after n l r a h = ground arith

module _ (u : Userspace) where
  abbrev pub in_job : Job u → ℕ → ℕ
  in_job (swapping b) d = held (some b.device) d
  in_job (closing o) d = held o d

  abbrev pub in_jobs : List (Job u) → ℕ → ℕ
  in_jobs [] d = 0
  in_jobs (job ∷ jobs) d = in_job job d + in_jobs jobs d

  in_jobs-append : (l r : List (Job u)) (d : ℕ) → in_jobs (l ++ r) d ≡ in_jobs l d + in_jobs r d
  in_jobs-append [] r d = omega arith
  in_jobs-append (job ∷ l) r d = omega (arith, in_jobs-append l r d)

  module _ (t : Tracked u) where
    -- Every device that runs is held once, by the session or by one call that is not done, and none
    -- that does not run is held.
    abbrev pub IsOwned : State u → Type 0
    IsOwned s = (d : ℕ) → one_if (t.is_open d s.world) ≡ held s.session.device d + in_jobs s.jobs d

    module _ (read_conf : Text → Awg.Go (Awg.Config u.Addr)) where
      Step-IsOwned : {s s' : State u} → Step u read_conf s s' → IsOwned s → IsOwned s'
      unfolding swap close_if cleared
      Step-IsOwned (builds text s w w' jobs b e) h d =
          let o = subst (IsBuild u t w) e (build-IsBuild u t read_conf text w) in
          opened_count d b.device (t.is_open d w) (t.is_open d w') (held s.device d)
            (in_jobs jobs d) (λ same. subst (λ x. t.is_open x w ≡ false) (sym same) o.0) (o.1 d)
            (h d)
      Step-IsOwned (fails text s w w' jobs e k) h d =
          let o = subst (IsBuild u t w) k (build-IsBuild u t read_conf text w) in rw (o d) (h d)
      Step-IsOwned (swaps s w l r b now) h d = omega (
        arith,
        h d,
        in_jobs-append l (swapping b ∷ r) d,
        in_jobs-append l (closing s.device ∷ r) d,
      )
      Step-IsOwned (closes s w l r none) h d =
          omega (arith, h d, in_jobs-append l (closing none ∷ r) d, in_jobs-append l r d)
      Step-IsOwned (closes s w l r (some dev)) h d =
          closed_count d dev (t.is_open d w) (t.is_open d (u.close_device dev w)) (held s.device d)
            (in_jobs l d) (in_jobs r d) (t.close_stops dev w d)
            (h d ∙ ap (λ x. held s.device d + x) (in_jobs-append l (closing (some dev) ∷ r) d))
          ∙ ap (λ x. held s.device d + x) (sym (in_jobs-append l r d))
      Step-IsOwned (disconnects s w jobs) h d = omega (arith, h d)

      -- In every interleaving of calls of Connect and Disconnect, from a state that is in order: a device
      -- runs exactly while it is held, and it is held once, by the session or by one call that has
      -- yet to put it in the session or to close it.
      pub Steps-IsOwned : {s s' : State u} → Steps u read_conf s s' → IsOwned s → IsOwned s'
      Steps-IsOwned (done s) h = h
      Steps-IsOwned (next s s' s'' first rest) h = Steps-IsOwned rest (Step-IsOwned first h)

      only-held : (o : Option ℕ) (b : Bool) (d : ℕ) → one_if b ≡ held o d + 0 → b ≡ holds u t o d
      only-held none b d h = ground arith
      only-held (some dev) b d h = ground arith

      -- Once every call of Connect and Disconnect is done, in whatever way they interleaved, from a new
      -- session with nothing running: the session's device runs, and no other does.
      pub Steps-quiet :
          (w w' : u.World) (s : Session u)
          → ((d : ℕ) → t.is_open d w ≡ false)
          → Steps u read_conf (at u (new u) w []) (at u s w' [])
          → (d : ℕ) → t.is_open d w' ≡ holds u t s.device d
      Steps-quiet w w' s off steps d =
          only-held s.device (t.is_open d w') d (Steps-IsOwned steps (λ e. rw (off e) refl) d)
