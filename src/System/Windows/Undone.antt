-- ===== src/System/Windows/Undone.antt =====
-- core/internal/system/network_windows.go: what Apply and Restore together leave of the routes of the
-- machine's other adapters.
use caelo.Base.{
  false, List, [], ◌∷◌, ◌++◌, Result, ok, err, ◌≡◌, ◌≢◌, refl, sym, ap, subst, ◌∙◌, inl, inr,
  Result-cases,
}
use caelo.Base.Effect.{Effect}
use caelo.Base.Text.{Text, codes}
use caelo.System.Windows.{inet, IpHelper, Config, State, apply, note, unpin, undo, restore, report}
use caelo.System.Windows.Routing.{
  Route, Routing, pin, dns_flushed, IsOther, apply-Same, restore-Same, unpin-Same,
}

module _ (h : IpHelper) (r : Routing h) where
  grown : (l : List Text) (t : Text) → l ++ t ∷ [] ≢ []
  grown [] t k = cc
  grown (x ∷ l) t k = cc

  noted :
      (what : Text) (m : Effect h.World Text (Unit {0})) (x : List Text × h.World)
      → (note h what m x).0 ≡ []
      → (x.0 ≡ []) × ((m x.1).0 ≡ ok tt)
  unfolding note
  noted what m (problems, w) k = elim (Result-cases (m w).0) [
    | inl (u, e) ↦ (rw (note, e) at k, e)
    | inr (why, e) ↦ elim (grown problems (what ++ codes ": " ++ why) (rw (note, e) at k)) [ ]
  ]

  -- Without a problem, what Restore began with went well.
  began :
      (state : State h) (cfg : Config) (w : h.World)
      → (restore h state cfg w).0 ≡ ok tt
      → (unpin h state (h.parse_addr cfg.endpoint_host) ([], w)).0 ≡ []
  unfolding restore undo
  began state cfg w k =
      (noted (codes "clearing the tunnel's DNS") (h.flush_dns cfg.handle inet)
        (unpin h state (h.parse_addr cfg.endpoint_host) ([], w))
        (noted (codes "clearing the tunnel's routes") (h.flush_routes cfg.handle inet)
          (dns_flushed h r state cfg w) (silent _ k)).0).0
    where
      silent : (l : List Text) → report h l ≡ ok tt → l ≡ []
      silent [] e = refl
      silent (p ∷ l) e = cc

  unpinned :
      (state : State h) (res : Result Text h.Addr) (e : h.Addr) (w : h.World)
      → res ≡ ok e
      → (unpin h state res ([], w)).0 ≡ []
      → r.has_route (pin h r state e) (unpin h state res ([], w)).1 ≡ false
  unfolding unpin note
  unpinned state (err why) e w k q = cc
  unpinned state (ok a) e w k q =
      let same : a ≡ e = cc in
      subst (λ x. r.has_route (pin h r state x) (unpin h state (ok a) ([], w)).1 ≡ false) same
        (r.deleted (pin h r state a) w
          (noted (codes "removing the endpoint route")
            (h.delete_route state.default_interface (record { address = a; bits = 32 })
              state.next_hop)
            ([], w) q).1)

  -- The pin is not there before Apply, where the endpoint is an address.
  abbrev pub Unpinned : State h → Result Text h.Addr → h.World → Type 0
  Unpinned state (err _) w = Unit {0}
  Unpinned state (ok e) w = r.has_route (pin h r state e) w ≡ false

  -- Where the endpoint's route was not there before, Restore without an error after Apply, however
  -- Apply ended, leaves every adapter but the tunnel's with the routes that it had.
  pub apply-restore :
      (state : State h) (cfg : Config) (w : h.World)
      → Unpinned state (h.parse_addr cfg.endpoint_host) w
      → (restore h state cfg (apply h state cfg w).1).0 ≡ ok tt
      → (y : Route h) → cfg.handle ≢ y.luid
      → r.has_route y (restore h state cfg (apply h state cfg w).1).1 ≡ r.has_route y w
  apply-restore state cfg w before fine y apart = elim (Result-cases parsed) [
    | inr (why, k) ↦ kept (λ e q. let clash = sym k ∙ q in cc)
    | inl (e, k) ↦ elim (r.decide (pin h r state e) y) [
      | inr other ↦ kept (λ a q.
          let same : e ≡ a = let both = sym k ∙ q in cc in
          subst (λ x. pin h r state x ≢ y) same other)
      | inl same ↦
          let gone = unpinned state parsed e after k (began state cfg after fine) in
          subst (λ x. r.has_route x (restore h state cfg after).1 ≡ r.has_route x w) same
            (restore-Same h r cfg (pin h r state e) false
                (λ q. apart (q ∙ ap (λ (x : Route h). x.luid) same)) state after gone
              ∙ sym (subst (λ res. Unpinned state res w) k before))
    ]
  ]
    where
      parsed : Result Text h.Addr
      parsed = h.parse_addr cfg.endpoint_host

      after : h.World
      after = (apply h state cfg w).1

      kept :
          IsOther h r cfg y (r.has_route y w) apart state
          → r.has_route y (restore h state cfg (apply h state cfg w).1).1 ≡ r.has_route y w
      kept other =
          let b = r.has_route y w in
          restore-Same h r cfg y b apart state after (
            unpin-Same h r cfg y b apart state parsed after other
              ((apply-Same h r cfg y b apart state other).from w refl))
