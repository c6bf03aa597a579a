-- ===== src/Service/Descriptors.antt =====
-- core/cmd/caelo-service/listen_linux.go: which descriptors `listen` leaves open, however it ends.
use caelo.Base.{
  ℕ, Bool, true, false, not, ◌&&◌, ◌||◌, ◌==◌, Option, none, some, ◌≡◌, refl, sym, ap, subst, ◌∙◌,
  ◌++◌, if◌then◌else◌, Result, ok, err, ltb, Result-cases, Option-cases, Bool-cases, inl, inr,
}
use caelo.Base.Effect.{wrap, act, map_err, continue, ◌>>=◌}
use caelo.Base.Effect.Using.{Opens, Closes, closed_again}
use caelo.Base.Text.{Text, codes}
use caelo.Service.{
  Unix, Problem, wrapped, listen_fd_start, passed, adopt, activated, restrict, make_listener,
  make_socket, listen,
}

-- What the operating system says of descriptors: a listener that is given is a new one, closing one
-- closes that one, and nothing else opens or closes any.
pub record Descriptors (x : Unix) : Type 0 where
  pub is_open : ℕ → x.World → Bool
  pub mkdir_keeps : (p : Text) (w : x.World) (d : ℕ) → is_open d (x.mkdir_all p w).1 ≡ is_open d w
  pub remove_keeps : (p : Text) (w : x.World) (d : ℕ) → is_open d (x.remove p w) ≡ is_open d w
  pub chmod_keeps : (p : Text) (w : x.World) (d : ℕ) → is_open d (x.chmod p w).1 ≡ is_open d w
  pub exec_keeps : (h : ℕ) (w : x.World) (d : ℕ) → is_open d (x.close_on_exec h w) ≡ is_open d w
  pub listen_opens : (p : Text) (w : x.World) → Opens is_open w (x.listen_unix p w)
  pub file_opens : (h : ℕ) (w : x.World) → Opens is_open w (x.file_listener h w)
  pub closes : Closes is_open x.close

-- The descriptor that systemd passed is closed once the listener is a copy of it.
abbrev pub without_passed : ℕ → Bool → Bool
without_passed d b = not (d == listen_fd_start) && b

module _ (x : Unix) (t : Descriptors x) where
  -- How listen ends, by the number of sockets that it takes as passed. With none it makes its own. With
  -- one it hands over a copy. With more it gives up. Where it fails, nothing is open that was not open
  -- before.
  abbrev pub Given : Option ℕ → x.World → Result Problem ℕ × Bool × x.World → Type 0
  Given none w (r, given, w') = (given ≡ false) × Opens t.is_open w (r, w')
  Given (some n) w (ok l, given, w') =
      (given ≡ true)
      × (ltb 1 n ≡ false)
      × (t.is_open l w ≡ false)
      × ((d : ℕ) → t.is_open d w' ≡ without_passed d (d == l || t.is_open d w))
  Given (some n) w (err e, given, w') =
      (given ≡ true)
      × ((d : ℕ)
          → t.is_open d w' ≡ (if ltb 1 n then t.is_open d w else without_passed d (t.is_open d w)))

  restrict-Opens :
      (path : Text) (l : ℕ) (w v : x.World)
      → Opens t.is_open {E = Problem} w (ok l, v)
      → Opens t.is_open w (restrict x path l v)
  unfolding restrict
  restrict-Opens path l w v (fresh, o) = elim (Result-cases (x.chmod path v).0) [
    | inl (u, e) ↦ rw (restrict, e) (fresh, λ d. t.chmod_keeps path v d ∙ o d)
    | inr (why, e) ↦
        rw (restrict, e)
          (λ d.
            closed_again l d (t.is_open d w) (t.is_open d v) (t.is_open d (x.chmod path v).1)
              (t.is_open d (x.close l (x.chmod path v).1))
              (λ k. subst (λ z. t.is_open z w ≡ false) (sym k) fresh) (o d) (t.chmod_keeps path v d)
              (t.closes l (x.chmod path v).1 d))
  ]

  -- What was opened later was opened before, if nothing changed between.
  Opens-from :
      {E : Type 0} (w w1 : x.World) (r : Result E ℕ × x.World)
      → ((d : ℕ) → t.is_open d w1 ≡ t.is_open d w)
      → Opens t.is_open w1 r
      → Opens t.is_open w r
  Opens-from w w1 (ok l, w') same (fresh, o) =
      (sym (same l) ∙ fresh, λ d. o d ∙ ap (λ b. d == l || b) (same d))
  Opens-from w w1 (err e, w') same o = λ d. o d ∙ same d

  listened :
      (path : Text) (w : x.World) (r : Result Text ℕ × x.World)
      → Opens t.is_open w r
      → Opens t.is_open w
          (continue (map_err (wrapped (codes "listening on " ++ path)) r.0) (restrict x path) r.1)
  listened path w (ok l, w') o = restrict-Opens path l w w' o
  listened path w (err e, w') o = o

  make_listener-Opens : (path : Text) (w : x.World) → Opens t.is_open w (make_listener x path w)
  unfolding make_listener wrap act ◌>>=◌
  make_listener-Opens path w = Opens-from w (x.remove path w) _ (t.remove_keeps path w) (
      listened path (x.remove path w) (x.listen_unix path (x.remove path w))
        (t.listen_opens path (x.remove path w)))

  make_socket-Opens : (path : Text) (w : x.World) → Opens t.is_open w (make_socket x path w)
  unfolding make_socket wrap ◌>>=◌
  make_socket-Opens path w = after (x.mkdir_all (x.dir path) w).0 _ (t.mkdir_keeps (x.dir path) w)
    where
      after :
          (r : Result Text (Unit {0})) (w1 : x.World)
          → ((d : ℕ) → t.is_open d w1 ≡ t.is_open d w)
          → Opens t.is_open w (
              continue
                (map_err (wrapped (codes "creating the socket directory")) r)
                (λ _. make_listener x path)
                w1)
      after (ok _) w1 same =
          Opens-from w w1 (make_listener x path w1) same (make_listener-Opens path w1)
      after (err e) w1 same = same

  -- What a copy of the passed socket leaves open.
  abbrev Adopted : x.World → Result Problem ℕ × x.World → Type 0
  Adopted w (ok l, w') =
      (t.is_open l w ≡ false)
      × ((d : ℕ) → t.is_open d w' ≡ without_passed d (d == l || t.is_open d w))
  Adopted w (err e, w') = (d : ℕ) → t.is_open d w' ≡ without_passed d (t.is_open d w)

  copied :
      (w w1 : x.World) (r : Result Text ℕ × x.World)
      → ((d : ℕ) → t.is_open d w1 ≡ t.is_open d w)
      → Opens t.is_open w1 r
      → Adopted w (
        map_err (wrapped (codes "adopting the socket systemd passed")) r.0,
        x.close listen_fd_start r.1,
      )
  copied w w1 (ok l, w') same (fresh, o) = (
    sym (same l) ∙ fresh,
    λ d.
        t.closes listen_fd_start w' d
        ∙ ap (without_passed d) (o d ∙ ap (λ b. d == l || b) (same d)),
  )
  copied w w1 (err e, w') same o =
      λ d. t.closes listen_fd_start w' d ∙ ap (without_passed d) (o d ∙ same d)

  adopt-Adopted : (w : x.World) → Adopted w (adopt x w)
  unfolding adopt
  adopt-Adopted w =
      copied w (x.close_on_exec listen_fd_start w) _ (t.exec_keeps listen_fd_start w)
        (t.file_opens listen_fd_start (x.close_on_exec listen_fd_start w))

  one_passed :
      (n : ℕ) (w : x.World) (r : Result Problem ℕ × x.World)
      → ltb 1 n ≡ false
      → Adopted w r
      → Given (some n) w (r.0, true, r.1)
  one_passed n w (ok l, w') k (fresh, o) = (refl, k, fresh, o)
  one_passed n w (err e, w') k o = (refl, λ d. rw k (o d))

  -- How listen ends, by its own reading of what systemd passed.
  pub listen-Given : (path : Text) (w : x.World) → Given (passed x) w (listen x path w)
  unfolding listen activated
  listen-Given path w = elim (Option-cases (passed x)) [
    | inl k ↦ rw (listen, activated, k) (refl, make_socket-Opens path w)
    | inr (n, k) ↦ elim (Bool-cases (ltb 1 n)) [
      | inl more ↦ rw (listen, activated, k, more) (refl, λ d. rw more refl)
      | inr one ↦ rw (listen, activated, k, one) (one_passed n w (adopt x w) one (adopt-Adopted w))
    ]
  ]
