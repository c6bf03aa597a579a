-- ===== src/Idler/Exit.antt =====
-- What holds of the service at every moment, and when it may end by itself.
use caelo.Base.{ℕ, ◌+◌, ◌-◌, ◌≤◌, ◌<◌, ◌≡◌, ◌⊎◌, ◌∙◌, inl, inr, refl, true, false, arith}
use caelo.Idler.{
  Watcher, waiting, checking, returned, stopping, Service, begin, fire, busy, idle, Step, accepts,
  counts, serves, closes, expires, fires, wakes, finds_up, keeps, finds_down, Reach, here, next,
}

zero_or_more : (n : ℕ) → (n ≡ 0) ⊎ (0 < n)
zero_or_more n = omega arith

-- The hold that the watcher took after it found the tunnel up.
abbrev pub own_hold : Watcher → ℕ
own_hold returned = 1
own_hold _ = 0

pub record IsSound (s : Service) : Type 0 where
  pub holds : s.holders ≡ s.opened + own_hold s.watcher
  pub one_token : s.tokens ≤ 1
  pub fired_token : s.watcher ≡ waiting → s.fired ≡ true → 0 < s.tokens
  pub will_wake :
      s.watcher ≡ waiting → s.opened ≡ 0 → (s.armed ≡ true) ⊎ (0 < s.firing) ⊎ (0 < s.tokens)

begin-IsSound : IsSound begin
unfolding begin
begin-IsSound = ground arith

pub Step-IsSound : {s t : Service} → Step s t → IsSound s → IsSound t
unfolding fire busy idle
Step-IsSound (accepts s h) v = ground (arith, v)
Step-IsSound (counts s h) v = ground arith
Step-IsSound (serves s up h) v = ground (arith, v)
Step-IsSound (closes s h) v = ground arith
Step-IsSound (expires s h) v = ground arith
Step-IsSound (fires s h k) v = ground arith
Step-IsSound (wakes s h k) v = ground arith
Step-IsSound (finds_up s h k) v = ground arith
Step-IsSound (keeps s h) v = ground arith
Step-IsSound (finds_down s h k) v = ground arith

pub Reach-IsSound : {s t : Service} → IsSound s → Reach s t → IsSound t
Reach-IsSound v here = v
Reach-IsSound v (next r st) = Step-IsSound st (Reach-IsSound v r)

-- At every moment since the service began: the idler's count is the number of the connections that are
-- being served, from their `busy` to their `idle`, and the hold of a watcher that found the tunnel up
-- and called `busy`, while a connection that was accepted and not yet counted is not in it; the channel
-- has at most one token; and while the watcher waits and no connection is being served, the timer runs,
-- or a call of `fire` is on its way, or a token lies in the channel, so that no wake-up is lost.
pub reached-IsSound : {s : Service} → Reach begin s → IsSound s
reached-IsSound r = Reach-IsSound begin-IsSound r

Reach-trans : {s t u : Service} → Reach s t → Reach t u → Reach s u
Reach-trans r here = r
Reach-trans r (next q st) = next (Reach-trans r q) st

-- The service ends by itself from `s`, with as many connections served, and with the one that waits to
-- be counted, if there is one.
abbrev pub Ends : Service → Type 0
Ends s =
    (t : Service) × Reach s t
    × (t.watcher ≡ stopping)
    × (t.opened ≡ s.opened)
    × (t.accepted ≡ s.accepted)

Ends-after :
    (s t : Service) → Reach s t → t.opened ≡ s.opened → t.accepted ≡ s.accepted → Ends t → Ends s
Ends-after s t r e f (u, q, stops, same, waits) = (u, Reach-trans r q, stops, same ∙ e, waits ∙ f)

Ends-from_token : (s : Service) → s.watcher ≡ waiting → 0 < s.tokens → s.up ≡ false → Ends s
Ends-from_token s w k d =
    let held = record s { tokens = s.tokens - 1; watcher = checking } in
    (
      record held { watcher = stopping },
      next (next here (wakes s w k)) (finds_down held refl d),
      refl,
      refl,
      refl,
    )

Ends-from_firing :
    (s : Service)
    → s.watcher ≡ waiting
    → s.holders ≡ 0
    → s.fired ≡ false
    → s.tokens ≡ 0
    → s.up ≡ false
    → 0 < s.firing
    → Ends s
unfolding fire
Ends-from_firing s w h f k d p =
    Ends-after s (fire (record s { firing = s.firing - 1 }))
      (next here (fires s p (inr (inr (omega arith))))) (ground arith) (ground arith)
      (Ends-from_token _ (ground arith) (ground arith) (ground arith))

Ends-from_timer :
    (s : Service)
    → s.watcher ≡ waiting
    → s.holders ≡ 0
    → s.fired ≡ false
    → s.tokens ≡ 0
    → s.up ≡ false
    → s.armed ≡ true
    → Ends s
Ends-from_timer s w h f k d a =
    Ends-after s (record s { armed = false; firing = s.firing + 1 }) (next here (expires s a)) refl
      refl (Ends-from_firing _ w h f k d (omega arith))

Ends-without_token :
    (s : Service)
    → IsSound s
    → s.watcher ≡ waiting
    → s.opened ≡ 0
    → s.up ≡ false
    → s.tokens ≡ 0
    → Ends s
Ends-without_token s v w o d k =
    let none_held : s.holders ≡ 0 = ground arith in
    let unfired : s.fired ≡ false = ground arith in
    elim (v.will_wake w o) [
      | inl a ↦ Ends-from_timer s w none_held unfired k d a
      | inr (inl p) ↦ Ends-from_firing s w none_held unfired k d p
      | inr (inr t) ↦ Ends-from_token s w t d
    ]

-- From every moment at which no connection is being served, the tunnel is down and the watcher still
-- waits, the service can come to its own end with none served then. A connection that is accepted and
-- not yet counted does not keep it from that, and is still there at the end.
pub quiet-Ends :
    {s : Service} → Reach begin s → s.watcher ≡ waiting → s.opened ≡ 0 → s.up ≡ false → Ends s
quiet-Ends {s} r w o d = elim (zero_or_more s.tokens) [
  | inl k ↦ Ends-without_token s (reached-IsSound r) w o d k
  | inr k ↦ Ends-from_token s w k d
]
