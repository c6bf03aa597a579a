-- ===== src/Probe/Whole.antt =====
-- core/internal/probe/probe.go: a body is taken whole or refused.
use caelo.Base.{
  ℕ, ◌≤◌, ◌<◌, subst, ◌+◌, true, false, none, List, ◌≡◌, refl, sym, ap, ◌∙◌, ◌↔◌, inl, inr, Result,
  ok, err, ltb, leb, length, take, length-take, Bool-cases, Option-cases, arith,
}
use caelo.Base.Text.{Text, codes}
use caelo.Userspace.{Reader, Reply}
use caelo.Probe.{max_body, Failure, wrapped, read_limited, accept_body, read_reply}

-- The bytes are the whole body: it ended, it is at most as long as the limit, and it was closed.
abbrev pub IsWhole : Reply → List ℕ → Type 0
IsWhole reply body =
    (reply.body.bytes ≡ body)
    × (reply.body.failure ≡ none)
    × (length body ≤ max_body)
    × (reply.close_error ≡ none)

read_limited-fits :
    (n : ℕ) (r : Reader)
    → length r.bytes ≤ n
    → r.failure ≡ none
    → read_limited (n + 1) r ≡ ok r.bytes
unfolding read_limited
read_limited-fits n r h k =
    let fits : leb (n + 1) (length r.bytes) ≡ false = ground arith in
    rw (read_limited, fits, k) refl

read_limited-long :
    (n : ℕ) (r : Reader)
    → n < length r.bytes
    → (body : List ℕ) × (read_limited (n + 1) r ≡ ok body) × (length body ≡ n + 1)
unfolding read_limited
read_limited-long n r h =
    let long : leb (n + 1) (length r.bytes) ≡ true = ground arith in
    (take (n + 1) r.bytes, rw (read_limited, long) refl, omega (arith, length-take (n + 1) r.bytes))

read_limited-short :
    (n : ℕ) (r : Reader) (read : List ℕ)
    → read_limited (n + 1) r ≡ ok read
    → length read ≤ n
    → (r.bytes ≡ read) × (r.failure ≡ none)
unfolding read_limited
read_limited-short n r read h small = elim (Bool-cases (leb (n + 1) (length r.bytes))) [
  | inl long ↦
      let (body, e, size) = read_limited-long n r (ground arith) in
      let same : body ≡ read = cc in let clash : ⊥ = omega (arith, ap length same) in elim clash [ ]
  | inr fits ↦ elim (Option-cases r.failure) [
    | inl k ↦
        let e : ◌≡◌ {A = Result Text (List ℕ)} (ok r.bytes) (ok read) =
          rw (read_limited, fits, k) at h in
        (cc, k)
    | inr (why, k) ↦
        let bad : ◌≡◌ {A = Result Text (List ℕ)} (err why) (ok read) =
          rw (read_limited, fits, k) at h in
        cc
  ]
]

accept_body_iff :
    (url : Text) (reply : Reply) (read body : List ℕ)
    → (accept_body url reply read ≡ ok body)
      ↔ ((read ≡ body) × (length read ≤ max_body) × (reply.close_error ≡ none))
unfolding accept_body
accept_body_iff url reply read body = elim (Bool-cases (ltb max_body (length read))) [
  | inl large ↦
      rw (accept_body, large) (λ h. cc, λ h. let small : ⊥ = ground arith in elim small [ ])
  | inr small ↦ elim (Option-cases reply.close_error) [
    | inl k ↦
        rw (accept_body, small, k)
          (λ h. (let e : read ≡ body = cc in e, ground arith, refl), λ h. cc)
    | inr (why, k) ↦ rw (accept_body, small, k) (λ h. cc, λ h. cc)
  ]
]

module _ (url : Text) (reply : Reply) (body : List ℕ) where
  sound_of :
      (r : Result Text (List ℕ))
      → read_limited (max_body + 1) reply.body ≡ r
      → read_reply url reply ≡ ok body
      → IsWhole reply body
  unfolding read_reply
  sound_of (err why) k h =
      let bad : ◌≡◌ {A = Result Failure (List ℕ)} (err (wrapped (codes "reading response") why))
          (ok body) =
        rw (read_reply, k) at h in
      cc
  sound_of (ok read) k h =
      let (same, fits, closed) =
        (accept_body_iff url reply read body).0 (rw (read_reply, k) at h) in
      let (bytes, ended) = read_limited-short max_body reply.body read k fits in
      (bytes ∙ same, ended, subst (λ b. length b ≤ max_body) same fits, closed)

  -- A response is accepted exactly with its whole body, when the body ended by itself, has at most
  -- 256 KiB and was closed without an error: what is longer is refused, not cut.
  pub read_reply_iff : (read_reply url reply ≡ ok body) ↔ IsWhole reply body
  unfolding read_reply
  read_reply_iff = (
    sound_of (read_limited (max_body + 1) reply.body) refl,
    λ h.
        rw
          (
            read_reply,
            read_limited-fits max_body reply.body (subst (λ b. length b ≤ max_body) (sym h.0) h.2)
                h.1,
          )
          ((accept_body_iff url reply reply.body.bytes body).1
            (h.0, subst (λ b. length b ≤ max_body) (sym h.0) h.2, h.3)),
  )
