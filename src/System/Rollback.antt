-- ===== src/System/Rollback.antt =====
-- What a failed or finished tunnel leaves of the machine's routes.
use caelo.Base.{
  ◌≡◌, ◌⊎◌, inl, inr, refl, sym, ◌∙◌, ap, Bool, true, false, ◌&&◌, Option, none, some, List, [],
  ◌∷◌, arith, if◌then◌else◌,
}
use caelo.Base.Effect.{wrap}
use caelo.Base.Effect.Keeps.{Keeps}
use caelo.Base.Text.{Text, text_eq, text_eq_iff}
use caelo.System.{
  Host, State, Config, run, v6_halves, apply, restore_dns, note, remove_halves, unblock_v6, restore,
}
use caelo.System.Commands.{route_dev, route_del_dev, route_del, unreachable_del}
use caelo.System.Routes.{Routing, cleared, OnRoutes}
use caelo.System.Kept.{first_half, second_half, pin, apply-Kept, restore_dns-Kept}

abbrev pub IsHalf : Text → Type 0
IsHalf x = (x ≡ first_half) ⊎ (x ≡ second_half)

-- What Restore makes of the route to a prefix.
abbrev pub undone : Config → Text → Option Text → Option Text
undone cfg x r =
    if text_eq (pin cfg) x
    then none
    else let r1 = if text_eq first_half x then cleared cfg.interface r else r in
      if text_eq second_half x then cleared cfg.interface r1 else r1

undo_bits :
    (dev : Text) (p f s : Bool) (r b : Option Text)
    → text_eq dev dev ≡ true
    → (p ≡ true → b ≡ none)
    → (f ≡ true → b ≡ none)
    → (s ≡ true → b ≡ none)
    → (r ≡ b) ⊎ (((f ≡ true) ⊎ (s ≡ true)) × (r ≡ some dev)) ⊎ (p ≡ true)
    → (if p
        then none
        else let r1 = if f then cleared dev r else r in if s then cleared dev r1 else r1)
      ≡ b
undo_bits dev true f s r b e hp hf hs t = sym (hp refl)
undo_bits dev false true true r b e hp hf hs t = ground (arith, hf refl)
undo_bits dev false true false r b e hp hf hs t = ground (arith, hf refl)
undo_bits dev false false true r b e hp hf hs t = ground (arith, hs refl)
undo_bits dev false false false r b e hp hf hs t = ground arith

module _ (h : Host) (g : Routing h) where
  unblock_v6-route :
      (l : List Text) (w : h.World) (x : Text) → g.route_to (unblock_v6 h l w) x ≡ g.route_to w x
  unfolding unblock_v6 run wrap
  unblock_v6-route [] w x = refl
  unblock_v6-route (half ∷ l) w x =
      unblock_v6-route l (h.exec (unreachable_del half) w).1 x
      ∙ g.others_keep (unreachable_del half) w x refl

  restore_dns-route :
      (state : State) (cfg : Config) (w : h.World) (x : Text)
      → g.route_to (restore_dns h state cfg w).1 x ≡ g.route_to w x
  restore_dns-route state cfg w x =
      ((restore_dns-Kept h g (λ y r. r ≡ g.route_to w y) state cfg).from w
          (record { at = λ y. refl })).at
        x

  abbrev without_halves : Config → h.World → h.World
  without_halves cfg w =
      (h.exec (route_del_dev second_half cfg.interface)
        (h.exec (route_del_dev first_half cfg.interface) w).1).1

  restore_world :
      (state : State) (cfg : Config) (w : h.World)
      → (restore h state cfg w).1
        ≡ (restore_dns h state cfg
            (unblock_v6 h v6_halves (h.exec (route_del (pin cfg)) (without_halves cfg w)).1)).1
  unfolding restore note remove_halves run wrap
  restore_world state cfg w = refl

  -- Whatever else happens, Restore takes the endpoint's route away, and the two halves where they
  -- lead into the tunnel; every other route stays.
  pub restore-route :
      (state : State) (cfg : Config) (w : h.World) (x : Text)
      → g.route_to (restore h state cfg w).1 x ≡ undone cfg x (g.route_to w x)
  restore-route state cfg w x =
      let w1 = (h.exec (route_del_dev first_half cfg.interface) w).1 in
      let w2 = without_halves cfg w in
      let w3 = (h.exec (route_del (pin cfg)) w2).1 in
      ap (λ v. g.route_to v x) (restore_world state cfg w)
      ∙ restore_dns-route state cfg (unblock_v6 h v6_halves w3) x
      ∙ unblock_v6-route v6_halves w3 x
      ∙ g.del_clears (pin cfg) w2 x
      ∙ ground (
        arith,
        g.del_dev_clears second_half cfg.interface w1 x,
        g.del_dev_clears first_half cfg.interface w x,
      )

  -- The route to a prefix is as it was, or is ours.
  abbrev Tracks : (Text → Option Text) → Config → Text → Option Text → Type 0
  Tracks before cfg x r = (r ≡ before x) ⊎ (IsHalf x × (r ≡ some cfg.interface)) ⊎ (x ≡ pin cfg)

  pinned-Tracks :
      (before : Text → Option Text) (cfg : Config) (b : Bool) (x dev : Text) (r : Option Text)
      → Tracks before cfg x r
      → Tracks before cfg x (if b && text_eq (pin cfg) x then some dev else r)
  pinned-Tracks before cfg b x dev r t = ground (arith, text_eq_iff (pin cfg) x)

  half-Tracks :
      (before : Text → Option Text) (cfg : Config) (b : Bool) (half x : Text) (r : Option Text)
      → IsHalf half
      → Tracks before cfg x r
      → Tracks before cfg x (if b && text_eq half x then some cfg.interface else r)
  half-Tracks before cfg b half x r i t = ground (arith, text_eq_iff half x)

  half-Keeps :
      (before : Text → Option Text) (cfg : Config) (half : Text)
      → IsHalf half
      → Keeps (OnRoutes h g (Tracks before cfg)) (h.exec (route_dev half cfg.interface))
  half-Keeps before cfg half i = record {
    from = λ w p. record {
      at = λ x.
          rw (g.dev_adds half cfg.interface w x) (half-Tracks before cfg _ half x _ i (p.at x));
    };
  }

  apply-Tracks :
      (before : Text → Option Text) (state : State) (cfg : Config)
      → Keeps (OnRoutes h g (Tracks before cfg)) (apply h state cfg)
  apply-Tracks before state cfg =
      apply-Kept h g (Tracks before cfg) state cfg
        (record {
          from = λ w p. record {
            at = λ x.
                rw (g.via_adds (pin cfg) state.default_gateway state.default_interface w x)
                  (pinned-Tracks before cfg _ x state.default_interface _ (p.at x));
          };
        })
        (half-Keeps before cfg first_half (inl refl)) (half-Keeps before cfg second_half (inr refl))

  undone-Tracks :
      (before : Text → Option Text) (cfg : Config) (x : Text) (r : Option Text)
      → before first_half ≡ none
      → before second_half ≡ none
      → before (pin cfg) ≡ none
      → Tracks before cfg x r
      → undone cfg x r ≡ before x
  undone-Tracks before cfg x r a b c t =
      let at = λ (y : Text) (e : text_eq y x ≡ true). ap before ((text_eq_iff y x).0 e) in
      undo_bits cfg.interface (text_eq (pin cfg) x) (text_eq first_half x) (text_eq second_half x) r
        (before x) ((text_eq_iff cfg.interface cfg.interface).1 refl)
        (λ e. sym (at (pin cfg) e) ∙ c) (λ e. sym (at first_half e) ∙ a)
        (λ e. sym (at second_half e) ∙ b)
        (ground
          (arith, text_eq_iff (pin cfg) x, text_eq_iff first_half x, text_eq_iff second_half x))

  -- On a machine that has no route to the two halves nor to the endpoint, Restore after Apply, in
  -- whatever way Apply ended and wherever it stopped, leaves every IPv4 route as it was before.
  pub apply_restored :
      (state : State) (cfg : Config) (w : h.World)
      → g.route_to w first_half ≡ none
      → g.route_to w second_half ≡ none
      → g.route_to w (pin cfg) ≡ none
      → (x : Text) → g.route_to (restore h state cfg (apply h state cfg w).1).1 x ≡ g.route_to w x
  apply_restored state cfg w a b c x =
      let before = g.route_to w in
      let tracked = (apply-Tracks before state cfg).from w (record { at = λ y. inl refl }) in
      restore-route state cfg (apply h state cfg w).1 x
      ∙ undone-Tracks before cfg x _ a b c (tracked.at x)

  -- A route to the endpoint that was there before is lost: whatever Apply did, after Restore there
  -- is none.
  pub pin_lost :
      (state : State) (cfg : Config) (w : h.World)
      → g.route_to (restore h state cfg (apply h state cfg w).1).1 (pin cfg) ≡ none
  pin_lost state cfg w =
      restore-route state cfg (apply h state cfg w).1 (pin cfg)
      ∙ ground (arith, text_eq_iff (pin cfg) (pin cfg))
