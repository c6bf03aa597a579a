-- ===== src/Service/Scm/Tests.antt =====
-- A manager that can be evaluated: its world is the list of the open handles. Each theorem there.
use caelo.Base.{
  ℕ, suc, ◌+◌, Bool, true, false, none, some, List, [], ◌∷◌, ◌++◌, map, ◌≡◌, refl, Result, ok, err,
  arith,
}
use caelo.Base.Text.{Text, codes}
use caelo.Userspace.Sandbox.{total, listed, without, listed-above, listed-without}
use caelo.Service.Scm.{
  Manager, running, install, uninstall, platform_command, pipe_trigger, said, wrapped, service_name,
}
use caelo.Service.Scm.Closed.{Handles, platform_command_closes}

abbrev fresh : List ℕ → Result Text ℕ × List ℕ
fresh w = (ok (suc (total w)), suc (total w) ∷ w)

-- The service is there and runs, and cannot be deleted.
abbrev manager : Manager
manager = record {
  World = List ℕ;
  executable = ok (codes "caelo-service.exe");
  utf16 = λ t. ok (t ++ 0 ∷ []);
  connect = fresh;
  disconnect = without;
  open_service = λ h name w. fresh w;
  create_service = λ h name path w. fresh w;
  close = without;
  query = λ h w. (ok running, w);
  control_stop = λ h w. (ok tt, w);
  delete = λ h w. (err (codes "marked"), w);
  change_config = λ h level t w. (err (codes "denied"), w);
}

-- The same, with no service of the name.
abbrev empty_manager : Manager
empty_manager = record manager { open_service = λ h name w. (err (codes "none"), w) }

manager_handles : Handles manager
manager_handles = record {
  is_open = listed;
  connect_opens = λ w. (listed-above (suc (total w)) w (omega arith), λ d. refl);
  disconnect_closes = λ h w d. listed-without d h w;
  service_opens = λ h name w. (listed-above (suc (total w)) w (omega arith), λ d. refl);
  create_opens = λ h name path w. (listed-above (suc (total w)) w (omega arith), λ d. refl);
  closes = λ h w d. listed-without d h w;
  query_keeps = λ h w d. refl;
  control_keeps = λ h w d. refl;
  delete_keeps = λ h w d. refl;
  change_keeps = λ h level t w d. refl;
}

installed_twice :
    install manager (7 ∷ []) ≡ (err (said (service_name ++ codes " is already installed")), 7 ∷ [])
unfolding install caelo.Base.Effect.◌>>=◌
installed_twice = refl

not_on_demand :
    (install empty_manager []).0
    ≡ err
        (wrapped (codes "the service was installed but will not start on demand") (codes "denied"))
unfolding install caelo.Base.Effect.◌>>=◌
not_on_demand = refl

not_installed :
    uninstall empty_manager [] ≡ (err (said (service_name ++ codes " is not installed")), [])
unfolding uninstall
not_installed = refl

size : (pipe_trigger (codes "caelo" ++ 0 ∷ [])).data_size ≡ 12
unfolding pipe_trigger
size = refl

platform_command_closes_example :
    listed 7 (platform_command manager (codes "caelo-service" ∷ codes "uninstall" ∷ []) (7 ∷ [])).2
    ≡ true
unfolding platform_command manager_handles
platform_command_closes_example =
    platform_command_closes manager manager_handles (codes "caelo-service" ∷ codes "uninstall" ∷ [])
      (7 ∷ []) 7
