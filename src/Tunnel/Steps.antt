-- ===== src/Tunnel/Steps.antt =====
-- core/internal/tunnel/session.go: calls of Connect and Disconnect in any interleaving. What is done
-- under the mutex is one step; a build and a Close, which are not under it, are steps of their own.
use caelo.Base.{ℕ, Option, List, [], ◌∷◌, ◌++◌, ◌≡◌, refl, Result, ok, err}
use caelo.Base.Text.{Text}
use caelo.Awg
use caelo.Userspace.{Userspace}
use caelo.Tunnel.{
  Failure, Session, Built, build, swap, close_if, settle, connect, cleared, disconnect,
}

module _ (u : Userspace) where
  -- A call that is not done: Connect with a device built and not yet swapped in, or any call that has
  -- yet to close what it took out of the session.
  pub data Job : Type 0 where
    swapping : Built u → Job
    closing : Option ℕ → Job

  pub record State : Type 0 where
    pub session : Session u
    pub world : u.World
    pub jobs : List Job

  abbrev pub at : Session u → u.World → List Job → State
  at s w jobs = record { session = s; world = w; jobs = jobs }

  module _ (read_conf : Text → Awg.Go (Awg.Config u.Addr)) where
    pub data Step : State → State → Type 0 where
      builds :
          (text : Text) (s : Session u) (w w' : u.World) (jobs : List Job) (b : Built u)
          → build u read_conf text w ≡ (ok b, w')
          → Step (at s w jobs) (at s w' (swapping b ∷ jobs))
      fails :
          (text : Text) (s : Session u) (w w' : u.World) (jobs : List Job) (e : Failure)
          → build u read_conf text w ≡ (err e, w')
          → Step (at s w jobs) (at s w' jobs)
      swaps :
          (s : Session u) (w : u.World) (l r : List Job) (b : Built u) (now : ℕ)
          → Step (at s w (l ++ swapping b ∷ r)) (at (swap u b now s) w (l ++ closing s.device ∷ r))
      closes :
          (s : Session u) (w : u.World) (l r : List Job) (o : Option ℕ)
          → Step (at s w (l ++ closing o ∷ r)) (at s (close_if u o w) (l ++ r))
      disconnects :
          (s : Session u) (w : u.World) (jobs : List Job)
          → Step (at s w jobs) (at (cleared u s) w (closing s.device ∷ jobs))

    pub data Steps : State → State → Type 0 where
      done : (s : State) → Steps s s
      next : (s s' s'' : State) → Step s s' → Steps s' s'' → Steps s s''

    -- A Connect that no other call comes between.
    settle-Steps :
        (text : Text) (s : Session u) (w w' : u.World) (r : Result Failure (Built u))
        → build u read_conf text w ≡ (r, w')
        → let (answer, s', w'') = settle u r s w' in Steps (at s w []) (at s' w'' [])
    unfolding settle
    settle-Steps text s w w' (err e) k = next _ _ _ (fails text s w w' [] e k) (done (at s w' []))
    settle-Steps text s w w' (ok b) k = next _ _ _ (builds text s w w' [] b k) (
        next _ _ _ (swaps s w' [] [] b (u.clock w'))
          (next _ _ _ (closes (swap u b (u.clock w') s) w' [] [] s.device) (done _)))

    -- Connect, run by itself from its start to its return, is a run of these steps, and so is
    -- Disconnect: the steps leave out nothing that the methods do to the session and the devices.
    pub calls-Steps :
        (text : Text) (s : Session u) (w : u.World)
        → (let (answer, s', w') = connect u read_conf text s w in Steps (at s w []) (at s' w' []))
          × (let (s', w') = disconnect u s w in Steps (at s w []) (at s' w' []))
    unfolding connect disconnect
    calls-Steps text s w = (
      settle-Steps text s w (build u read_conf text w).1 (build u read_conf text w).0 refl,
      next _ _ _ (disconnects s w []) (next _ _ _ (closes (cleared u s) w [] [] s.device) (done _)),
    )
