-- ===== src/Service/Scm/Closed.antt =====
-- core/cmd/caelo-service/service_windows.go: the handles of `install` and `uninstall`.
use caelo.Base.{
  ℕ, Bool, false, not, List, [], ◌∷◌, ◌≡◌, refl, sym, subst, ◌∙◌, Result, ok, err, if-both,
}
use caelo.Base.Effect.{Effect, wrap, map_err}
use caelo.Base.Effect.Keeps.{Keeps, Keeps-bind, Keeps-lift, Keeps-wrap}
use caelo.Base.Effect.Using.{Same, Opens, Closes, Keeps-using, closed_again}
use caelo.Base.Text.{Text, codes, text_eq}
use caelo.Service.Scm.{
  Manager, Problem, State, Trigger, service_name, set_pipe_trigger, add_trigger, create,
  unless_installed, install_with, open_manager, install, stop_if, stop_first, stop_and_delete,
  uninstall_with, uninstall, platform_command, is_stopped, wrapped,
}

-- A handle that is given is a new one, closing one closes that one, and the other calls open and
-- close none.
pub record Handles (m : Manager) : Type 0 where
  pub is_open : ℕ → m.World → Bool
  pub connect_opens : (w : m.World) → Opens is_open w (m.connect w)
  pub disconnect_closes : Closes is_open m.disconnect
  pub service_opens :
      (h : ℕ) (name : Text) (w : m.World) → Opens is_open w (m.open_service h name w)
  pub create_opens :
      (h : ℕ) (name path : Text) (w : m.World) → Opens is_open w (m.create_service h name path w)
  pub closes : Closes is_open m.close
  pub query_keeps : (h : ℕ) (w : m.World) (d : ℕ) → is_open d (m.query h w).1 ≡ is_open d w
  pub control_keeps : (h : ℕ) (w : m.World) (d : ℕ) → is_open d (m.control_stop h w).1 ≡ is_open d w
  pub delete_keeps : (h : ℕ) (w : m.World) (d : ℕ) → is_open d (m.delete h w).1 ≡ is_open d w
  pub change_keeps :
      (h level : ℕ) (t : Trigger) (w : m.World) (d : ℕ)
      → is_open d (m.change_config h level t w).1 ≡ is_open d w

module _ (m : Manager) (t : Handles m) where
  abbrev Kept : {E A : Type 0} → Effect m.World E A → Type 0
  Kept c = (d : ℕ) (b : Bool) → Keeps (Same t.is_open d b) c

  Opens-wrapped :
      {D E : Type 0} (f : D → E) (w : m.World) (r : Result D ℕ × m.World)
      → Opens t.is_open w r
      → Opens t.is_open w (map_err f r.0, r.1)
  Opens-wrapped f w (ok h, w') o = o
  Opens-wrapped f w (err e, w') o = o

  Opens-wrap :
      {D E : Type 0} (f : D → E) (acquire : Effect m.World D ℕ)
      → ((w : m.World) → Opens t.is_open w (acquire w))
      → (w : m.World) → Opens t.is_open w (wrap f acquire w)
  unfolding wrap
  Opens-wrap f acquire o w = Opens-wrapped f w (acquire w) (o w)

  change-Kept : (h level : ℕ) (trigger : Trigger) → Kept (m.change_config h level trigger)
  change-Kept h level trigger d b = record { from = λ w k. t.change_keeps h level trigger w d ∙ k }

  add_trigger-Kept : (service : ℕ) → Kept (add_trigger m service)
  unfolding add_trigger set_pipe_trigger
  add_trigger-Kept service d b =
      Keeps-wrap _ _
        (Keeps-bind (Same t.is_open d b) _ _ (Keeps-lift _) (λ name. change-Kept service _ _ d b))

  create-Kept : (path : Text) (manager : ℕ) → Kept (create m path manager)
  unfolding create
  create-Kept path manager =
      Keeps-using t.is_open _ m.close (add_trigger m)
        (Opens-wrap _ _ (t.create_opens manager service_name path)) t.closes add_trigger-Kept

  unless_installed-same :
      (path : Text) (manager : ℕ) (w : m.World) (r : Result Text ℕ × m.World)
      → Opens t.is_open w r
      → (d : ℕ) → t.is_open d (unless_installed m path manager r.0 r.1).1 ≡ t.is_open d w
  unless_installed-same path manager w (ok h, w') (fresh, o) d =
      closed_again h d (t.is_open d w) (t.is_open d w') (t.is_open d w')
        (t.is_open d (m.close h w')) (λ e. subst (λ x. t.is_open x w ≡ false) (sym e) fresh) (o d)
        refl (t.closes h w' d)
  unless_installed-same path manager w (err e, w') o d =
      (create-Kept path manager d (t.is_open d w')).from w' refl ∙ o d

  install_with-Kept : (path : Text) (manager : ℕ) → Kept (install_with m path manager)
  unfolding install_with
  install_with-Kept path manager d b = record {
    from = λ w k.
        unless_installed-same path manager w (m.open_service manager service_name w)
          (t.service_opens manager service_name w) d
        ∙ k;
  }

  manager-Opens : (w : m.World) → Opens t.is_open w (open_manager m w)
  unfolding open_manager
  manager-Opens = Opens-wrap _ _ t.connect_opens

  install-Kept : Kept (install m)
  unfolding install
  install-Kept d b = Keeps-bind (Same t.is_open d b) _ _ (Keeps-lift _) (λ path.
      Keeps-using t.is_open (open_manager m) m.disconnect (install_with m path) manager-Opens
        t.disconnect_closes (install_with-Kept path) d b)

  control-Kept : (h : ℕ) → Kept (m.control_stop h)
  control-Kept h d b = record { from = λ w k. t.control_keeps h w d ∙ k }

  delete-Kept : (h : ℕ) → Kept (m.delete h)
  delete-Kept h d b = record { from = λ w k. t.delete_keeps h w d ∙ k }

  stop_if-Kept : (r : Result Text State) (h : ℕ) → Kept (stop_if m r h)
  stop_if-Kept (ok state) h d b = record {
    from = λ w k.
        if-both (λ (r : Result Problem (Unit {0}) × m.World). t.is_open d r.1 ≡ b)
          (not (is_stopped state))
          (λ _.
            (Keeps-wrap (wrapped (codes "stopping the service")) (m.control_stop h)
                (control-Kept h d b)).from
              w k)
          (λ _. k);
  }
  stop_if-Kept (err e) h d b = record { from = λ w k. k }

  stop_and_delete-Kept : (service : ℕ) → Kept (stop_and_delete m service)
  unfolding stop_and_delete stop_first
  stop_and_delete-Kept service d b =
      Keeps-bind (Same t.is_open d b) _ _
        (record {
          from = λ w k.
              (stop_if-Kept (m.query service w).0 service d b).from (m.query service w).1
                (t.query_keeps service w d ∙ k);
        })
        (λ _. Keeps-wrap _ _ (delete-Kept service d b))

  uninstall-Kept : Kept (uninstall m)
  unfolding uninstall uninstall_with
  uninstall-Kept =
      Keeps-using t.is_open (open_manager m) m.disconnect (uninstall_with m) manager-Opens
        t.disconnect_closes
        (λ manager.
          Keeps-using t.is_open _ m.close (stop_and_delete m)
            (Opens-wrap _ _ (t.service_opens manager service_name)) t.closes stop_and_delete-Kept)

  -- However a command line of `caelo-service` ends, install and uninstall included, the handles of the
  -- manager and of its services that are open are those that were open before.
  pub platform_command_closes :
      (args : List Text) (w : m.World) (d : ℕ)
      → t.is_open d (platform_command m args w).2 ≡ t.is_open d w
  unfolding platform_command
  platform_command_closes [] w d = refl
  platform_command_closes (_ ∷ []) w d = refl
  platform_command_closes (_ ∷ command ∷ _) w d =
      if-both (λ (r : Bool × Result Problem (Unit {0}) × m.World). t.is_open d r.2 ≡ t.is_open d w)
        (text_eq command (codes "install")) (λ _. (install-Kept d (t.is_open d w)).from w refl)
        (λ _.
          if-both
            (λ (r : Bool × Result Problem (Unit {0}) × m.World). t.is_open d r.2 ≡ t.is_open d w)
            (text_eq command (codes "uninstall"))
            (λ _. (uninstall-Kept d (t.is_open d w)).from w refl) (λ _. refl))
