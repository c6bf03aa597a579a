-- ===== src/System/Darwin/Removed.antt =====
-- core/internal/system/network_darwin.go: what is known of route(8) and ifconfig(8), and what
-- Restore removes.
use caelo.Base.{
  Bool, false, Option, none, some, List, [], ◌∷◌, ◌++◌, ◌≡◌, ◌≢◌, refl, sym, ◌∙◌, if-both, subst,
  ok, Result-cases, Bool-cases, inl, inr, ◌⊎◌,
}
use caelo.Base.Text.{Text, codes, text_eq, text_eq_iff}
use caelo.System.{Config}
use caelo.System.Darwin.{
  Command, inet, set_dns, v6_automatic, add_host, add_net, delete_net, delete_host, State, Mac,
  attempt, delete_halves, restore_dns, restore_v6, restore, report, has_any,
}

-- The destination of a command that changes the routes. Giving an interface its address adds a host
-- route to that address.
abbrev pub destination : Command → Option Text
destination (inet i a) = some a
destination (add_host h g) = some h
destination (add_net n i) = some n
destination (delete_net n i) = some n
destination (delete_host h) = some h
destination _ = none

-- What route(8) and ifconfig(8) say: a command changes at most the route to its own destination, and
-- after a delete without an error there is none.
pub record Routed (m : Mac) : Type 0 where
  pub has_route : Text → m.World → Bool
  pub others_keep :
      (c : Command) (w : m.World) (d : Text)
      → destination c ≢ some d
      → has_route d (m.exec c w).1 ≡ has_route d w
  pub deletes_net :
      (n i : Text) (w : m.World) (out : Text)
      → (m.exec (delete_net n i) w).0 ≡ ok out
      → has_route n (m.exec (delete_net n i) w).1 ≡ false
  pub deletes_host :
      (h : Text) (w : m.World) (out : Text)
      → (m.exec (delete_host h) w).0 ≡ ok out
      → has_route h (m.exec (delete_host h) w).1 ≡ false

abbrev pub first_half : Text
first_half = codes "0.0.0.0/1"

abbrev pub second_half : Text
second_half = codes "128.0.0.0/1"

module _ (m : Mac) (r : Routed m) where
  pub attempt-world :
      (what : Text) (c : Command) (x : List Text × m.World)
      → (attempt m what c x).1 ≡ (m.exec c x.1).1
  unfolding attempt
  attempt-world what c (problems, w) = elim (Result-cases (m.exec c w).0) [
    | inl (out, h) ↦ rw (attempt, h) refl
    | inr (why, h) ↦ rw (attempt, h) refl
  ]

  grown : (l : List Text) (t : Text) → l ++ t ∷ [] ≢ []
  grown [] t k = cc
  grown (x ∷ l) t k = cc

  -- Without a problem, there was none before, and the command went well.
  attempted :
      (what : Text) (c : Command) (x : List Text × m.World)
      → (attempt m what c x).0 ≡ []
      → (x.0 ≡ []) × (out : Text) × ((m.exec c x.1).0 ≡ ok out)
  unfolding attempt
  attempted what c (problems, w) k = elim (Result-cases (m.exec c w).0) [
    | inl (out, e) ↦ (rw (attempt, e) at k, out, e)
    | inr (why, e) ↦ elim (grown problems (what ++ codes ": " ++ why) (rw (attempt, e) at k)) [ ]
  ]

  deleted :
      (what n i : Text) (x : List Text × m.World)
      → (attempt m what (delete_net n i) x).0 ≡ []
      → r.has_route n (attempt m what (delete_net n i) x).1 ≡ false
  deleted what n i x q =
      let (before, out, e) = attempted what (delete_net n i) x q in
      rw (attempt-world what (delete_net n i) x) (r.deletes_net n i x.1 out e)

  deleted_host :
      (what n : Text) (x : List Text × m.World)
      → (attempt m what (delete_host n) x).0 ≡ []
      → r.has_route n (attempt m what (delete_host n) x).1 ≡ false
  deleted_host what n x q =
      let (before, out, e) = attempted what (delete_host n) x q in
      rw (attempt-world what (delete_host n) x) (r.deletes_host n x.1 out e)

  module _ (d : Text) where
    abbrev pub Gone : m.World → Type 0
    Gone w = r.has_route d w ≡ false

    plain :
        (what : Text) (c : Command) (x : List Text × m.World)
        → destination c ≡ none
        → Gone x.1
        → Gone (attempt m what c x).1
    plain what c x e h = subst Gone (sym (attempt-world what c x)) (
        r.others_keep c x.1 d
          (λ k. let clash : ◌≡◌ {A = Option Text} none (some d) = sym e ∙ k in cc)
        ∙ h)

    apart : (n : Text) → text_eq n d ≡ false → some n ≢ some d
    apart n e k = let same : n ≡ d = cc in let equal = (text_eq_iff n d).1 same in cc

    -- What was deleted stays deleted.
    net-Gone :
        (what n i : Text) (x : List Text × m.World)
        → (attempt m what (delete_net n i) x).0 ≡ []
        → Gone x.1
        → Gone (attempt m what (delete_net n i) x).1
    net-Gone what n i x q h = elim (Bool-cases (text_eq n d)) [
      | inl e ↦
          subst (λ y. r.has_route y (attempt m what (delete_net n i) x).1 ≡ false)
            ((text_eq_iff n d).0 e) (deleted what n i x q)
      | inr e ↦
          subst Gone (sym (attempt-world what (delete_net n i) x))
            (r.others_keep (delete_net n i) x.1 d (apart n e) ∙ h)
    ]

    host-Gone :
        (what n : Text) (x : List Text × m.World)
        → (attempt m what (delete_host n) x).0 ≡ []
        → Gone x.1
        → Gone (attempt m what (delete_host n) x).1
    host-Gone what n x q h = elim (Bool-cases (text_eq n d)) [
      | inl e ↦
          subst (λ y. r.has_route y (attempt m what (delete_host n) x).1 ≡ false)
            ((text_eq_iff n d).0 e) (deleted_host what n x q)
      | inr e ↦
          subst Gone (sym (attempt-world what (delete_host n) x))
            (r.others_keep (delete_host n) x.1 d (apart n e) ∙ h)
    ]

    dns-Gone : (state : State) (x : List Text × m.World) → Gone x.1 → Gone (restore_dns m state x).1
    unfolding restore_dns
    dns-Gone state x h =
        if-both (λ (y : List Text × m.World). Gone y.1) (has_any state.previous_dns)
          (λ _.
            plain (codes "restoring DNS") (set_dns state.network_service state.previous_dns) x refl
              h)
          (λ _.
            plain (codes "clearing DNS") (set_dns state.network_service (codes "Empty" ∷ [])) x refl
              h)

    finish-Gone :
        (state : State) (x : List Text × m.World)
        → Gone x.1
        → Gone (restore_v6 m state (restore_dns m state x)).1
    unfolding restore_v6
    finish-Gone state x h =
        if-both (λ (y : List Text × m.World). Gone y.1) state.ipv6_was_enabled
          (λ _.
            plain (codes "re-enabling IPv6") (v6_automatic state.network_service)
              (restore_dns m state x) refl (dns-Gone state x h))
          (λ _. dns-Gone state x h)

  -- The destinations that Apply adds routes to with route(8).
  abbrev pub IsOurs : Config → Text → Type 0
  IsOurs cfg d = (d ≡ first_half) ⊎ ((d ≡ second_half) ⊎ (d ≡ cfg.endpoint_host))

  abbrev pub first_removed : Config → m.World → List Text × m.World
  first_removed cfg w =
      attempt m (codes "removing route " ++ first_half) (delete_net first_half cfg.interface)
        ([], w)

  abbrev pub second_removed : Config → m.World → List Text × m.World
  second_removed cfg w =
      attempt m (codes "removing route " ++ second_half) (delete_net second_half cfg.interface)
        (first_removed cfg w)

  abbrev pub pin_removed : Config → m.World → List Text × m.World
  pin_removed cfg w =
      attempt m (codes "removing the endpoint route") (delete_host cfg.endpoint_host)
        (second_removed cfg w)

  dns_silent : (state : State) (x : List Text × m.World) → (restore_dns m state x).0 ≡ [] → x.0 ≡ []
  unfolding restore_dns
  dns_silent state x =
      if-both (λ (y : List Text × m.World). y.0 ≡ [] → x.0 ≡ []) (has_any state.previous_dns)
        (λ _ q.
          (attempted (codes "restoring DNS") (set_dns state.network_service state.previous_dns) x
            q).0)
        (λ _ q.
          (attempted (codes "clearing DNS") (set_dns state.network_service (codes "Empty" ∷ [])) x
            q).0)

  v6_silent : (state : State) (x : List Text × m.World) → (restore_v6 m state x).0 ≡ [] → x.0 ≡ []
  unfolding restore_v6
  v6_silent state x =
      if-both (λ (y : List Text × m.World). y.0 ≡ [] → x.0 ≡ []) state.ipv6_was_enabled
        (λ _ q. (attempted (codes "re-enabling IPv6") (v6_automatic state.network_service) x q).0)
        (λ _ q. q)

  reported : (l : List Text) → report m l ≡ ok tt → l ≡ []
  reported [] e = refl
  reported (p ∷ l) e = cc

  -- Restore without an error had no problem with the routes.
  removed_silent :
      (state : State) (cfg : Config) (w : m.World)
      → (restore m state cfg w).0 ≡ ok tt
      → (pin_removed cfg w).0 ≡ []
  unfolding restore delete_halves
  removed_silent state cfg w k =
      dns_silent state (pin_removed cfg w)
        (v6_silent state (restore_dns m state (pin_removed cfg w)) (reported _ k))

  removed-ours :
      (cfg : Config) (w : m.World) (d : Text)
      → (pin_removed cfg w).0 ≡ []
      → IsOurs cfg d
      → Gone d (pin_removed cfg w).1
  removed-ours cfg w d q o =
      let pin = codes "removing the endpoint route" in
      let second = codes "removing route " ++ second_half in
      let first = codes "removing route " ++ first_half in
      let (q2, _, _) = attempted pin (delete_host cfg.endpoint_host) (second_removed cfg w) q in
      let (q1, _, _) =
        attempted second (delete_net second_half cfg.interface) (first_removed cfg w) q2 in
      let pinned : Gone d (second_removed cfg w).1 → Gone d (pin_removed cfg w).1 =
        host-Gone d pin cfg.endpoint_host (second_removed cfg w) q in
      elim o [
        | inl e ↦ pinned (
            net-Gone d second second_half cfg.interface (first_removed cfg w) q2 (
              subst (λ x. Gone x (first_removed cfg w).1) (sym e)
                (deleted first first_half cfg.interface ([], w) q1)))
        | inr (inl e) ↦ pinned (
            subst (λ x. Gone x (second_removed cfg w).1) (sym e)
              (deleted second second_half cfg.interface (first_removed cfg w) q2))
        | inr (inr e) ↦
            subst (λ x. Gone x (pin_removed cfg w).1) (sym e)
              (deleted_host pin cfg.endpoint_host (second_removed cfg w) q)
      ]

  -- Restore without an error leaves no route to a destination of ours.
  pub restore_ours :
      (state : State) (cfg : Config) (w : m.World) (d : Text)
      → (restore m state cfg w).0 ≡ ok tt
      → IsOurs cfg d
      → Gone d (restore m state cfg w).1
  unfolding restore delete_halves
  restore_ours state cfg w d k o =
      finish-Gone d state (pin_removed cfg w)
        (removed-ours cfg w d (removed_silent state cfg w k) o)
