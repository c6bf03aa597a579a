-- ===== src/Idler/Race.antt =====
-- The moment between the watcher's test and its end.
use caelo.Base.{◌+◌, ◌≡◌, refl, true, false, Bool-cases, inl, inr}
use caelo.Idler.{checking, stopping, Service, busy, accepts, counts, finds_down, Reach, here, next}

-- What the service comes to: its own end with one connection more.
abbrev pub EndsConnected : Service → Type 0
EndsConnected s =
    (t : Service) × Reach s t
    × (t.watcher ≡ stopping)
    × (t.opened ≡ s.opened + 1)
    × (t.holders ≡ s.holders + 1)

counted_first :
    (s : Service) → s.watcher ≡ checking → s.up ≡ false → s.accepted ≡ true → EndsConnected s
unfolding busy
counted_first s w d a =
    let t = busy (record s { accepted = false; opened = s.opened + 1 }) in
    (
      record t { watcher = stopping },
      next (next here (counts s a)) (finds_down t w d),
      refl,
      refl,
      refl,
    )

accepted_first :
    (s : Service) → s.watcher ≡ checking → s.up ≡ false → s.accepted ≡ false → EndsConnected s
unfolding busy
accepted_first s w d a =
    let held = record s { accepted = true } in
    let t = busy (record s { accepted = false; opened = s.opened + 1 }) in
    (
      record t { watcher = stopping },
      next (next (next here (accepts s a)) (counts held refl)) (finds_down t w d),
      refl,
      refl,
      refl,
    )

-- Wherever the watcher is about to test a tunnel that is down, a connection can be counted first,
-- which is accepted then if none waits for that, and the service ends all the same, while that
-- connection is counted and being served.
pub ends_while_connected :
    (s : Service)
    → s.watcher ≡ checking
    → s.up ≡ false
    → (t : Service) × Reach s t
      × (t.watcher ≡ stopping)
      × (t.opened ≡ s.opened + 1)
      × (t.holders ≡ s.holders + 1)
ends_while_connected s w d = elim (Bool-cases s.accepted) [
  | inl a ↦ counted_first s w d a
  | inr a ↦ accepted_first s w d a
]
