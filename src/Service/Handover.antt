-- ===== src/Service/Handover.antt =====
-- core/cmd/caelo-service/listen_linux.go: what `listen` does with what systemd says in the environment.
use caelo.Base.{
  ℕ, Bool, true, false, subst, Option, none, some, ◌≡◌, ◌≤◌, ◌⊎◌, refl, sym, ap, ◌∙◌, Result,
  Option-cases, Bool-cases, inl, inr, arith, ltb, if◌then◌else◌,
}
use caelo.Base.Codec.{parse_int}
use caelo.Base.Int.{ℤ, pos, negsuc}
use caelo.Base.Text.{Text, codes}
use caelo.Service.{Unix, Problem, is_pid, is_for_us, at_least_one, passed, listen}
use caelo.Service.Descriptors.{Descriptors, Given, listen-Given}

abbrev is_that_pid : ℕ → Option ℤ → Bool
is_that_pid p none = false
is_that_pid p (some n) = is_pid n p

is_that_pid_then : (p : ℕ) (o : Option ℤ) → is_that_pid p o ≡ true → o ≡ some (pos p)
is_that_pid_then p none h = cc
is_that_pid_then p (some (pos n)) h = let same : n ≡ p = ground arith in ap (λ k. some (pos k)) same
is_that_pid_then p (some (negsuc n)) h = cc

module _ (x : Unix) where
  abbrev sockets : Option ℤ → Option ℕ
  sockets none = none
  sockets (some n) = at_least_one x n

  sockets_then : (o : Option ℤ) (n : ℕ) → sockets o ≡ some n → (o ≡ some (pos n)) × (1 ≤ n)
  sockets_then none n h = cc
  sockets_then (some (pos k)) n h = elim (Bool-cases (ltb k 1)) [
    | inl e ↦ ground arith
    | inr e ↦ ground arith
  ]
  sockets_then (some (negsuc k)) n h = cc

  sockets_of : (n : ℕ) → 1 ≤ n → sockets (some (pos n)) ≡ some n
  sockets_of n h = ground arith

  -- systemd passed so many sockets to this process: LISTEN_PID is its number, and not that of a parent
  -- from which it has the variables, and LISTEN_FDS is the number of sockets.
  abbrev pub IsPassed : ℕ → Type 0
  IsPassed n =
      (parse_int (x.getenv (codes "LISTEN_PID")) ≡ some (pos x.pid))
      × (parse_int (x.getenv (codes "LISTEN_FDS")) ≡ some (pos n))
      × (1 ≤ n)

  is_for_us_is : is_for_us x ≡ is_that_pid x.pid (parse_int (x.getenv (codes "LISTEN_PID")))
  unfolding is_for_us
  is_for_us_is = elim (Option-cases (parse_int (x.getenv (codes "LISTEN_PID")))) [
    | inl e ↦ rw (is_for_us, e) refl
    | inr (n, e) ↦ rw (is_for_us, e) refl
  ]

  passed_is :
      passed x ≡ (if is_for_us x then sockets (parse_int (x.getenv (codes "LISTEN_FDS"))) else none)
  unfolding passed
  passed_is = elim (Bool-cases (is_for_us x)) [
    | inl k ↦ elim (Option-cases (parse_int (x.getenv (codes "LISTEN_FDS")))) [
      | inl e ↦ rw (passed, k, e) refl
      | inr (n, e) ↦ rw (passed, k, e) refl
    ]
    | inr k ↦ rw (passed, k) refl
  ]

  passed-IsPassed : (n : ℕ) → passed x ≡ some n → IsPassed n
  passed-IsPassed n h = elim (Bool-cases (is_for_us x)) [
    | inl k ↦
        let read : sockets (parse_int (x.getenv (codes "LISTEN_FDS"))) ≡ some n =
          sym (passed_is ∙ rw k refl) ∙ h in
        let (fds, some_there) = sockets_then (parse_int (x.getenv (codes "LISTEN_FDS"))) n read in
        (
          is_that_pid_then x.pid (parse_int (x.getenv (codes "LISTEN_PID"))) (sym is_for_us_is ∙ k),
          fds,
          some_there,
        )
    | inr k ↦ let clash : ◌≡◌ {A = Option ℕ} none (some n) = sym (passed_is ∙ rw k refl) ∙ h in cc
  ]

  IsPassed-passed : (n : ℕ) → IsPassed n → passed x ≡ some n
  IsPassed-passed n (pid, fds, some_there) =
      let ours : is_for_us x ≡ true = is_for_us_is ∙ rw pid (ground arith) in
      passed_is ∙ rw (ours, fds) (sockets_of n some_there)

module _ (x : Unix) (t : Descriptors x) where
  -- How listen ends, by what systemd passed to this process.
  abbrev pub IsListening : x.World → Result Problem ℕ × Bool × x.World → Type 0
  IsListening w r =
      ((n : ℕ) × IsPassed x n × Given x t (some n) w r)
      ⊎ (((n : ℕ) → ¬ IsPassed x n) × Given x t none w r)

  -- Where LISTEN_PID is the number of this process and LISTEN_FDS is at least one, listen takes the
  -- socket: with one it hands over a copy and closes the passed descriptor, and with more it gives up.
  -- Otherwise it makes its own and says so. A listener that it returns was not open before and is open
  -- beside what was; where it fails, nothing is open that was not open before.
  pub listen-IsListening : (path : Text) (w : x.World) → IsListening w (listen x path w)
  listen-IsListening path w = elim (Option-cases (passed x)) [
    | inl k ↦ inr (
      (λ n h. let clash : ◌≡◌ {A = Option ℕ} none (some n) = sym k ∙ IsPassed-passed x n h in cc),
      subst (λ o. Given x t o w (listen x path w)) k (listen-Given x t path w),
    )
    | inr (n, k) ↦ inl (
      n,
      passed-IsPassed x n k,
      subst (λ o. Given x t o w (listen x path w)) k (listen-Given x t path w),
    )
  ]
