-- ===== src/Service/Scm.antt =====
-- core/cmd/caelo-service/service_windows.go: the service as the Service Control Manager sees it.
-- `Manager` is what the code calls of it (svc and mgr of x/sys/windows); a handle of the manager or
-- of a service is a number.
pub mod Closed
pub mod Stopped
mod Tests
use caelo.Base.{
  ℕ, Bool, true, false, not, ◌||◌, Option, none, some, List, [], ◌∷◌, ◌++◌, if◌then◌else◌, Result,
  ok, err, length, ◌*◌, ◌%◌, ◌^◌,
}
use caelo.Base.Effect.{Effect, wrap, act, map_err, pure, fail, lift, ◌>>=◌, ◌>>◌}
use caelo.Base.Effect.Using.{using}
use caelo.Base.Text.{Text, codes, text_eq}

abbrev pub service_name : Text
service_name = codes "Caelo"

-- windows.GUID
pub record Guid : Type 0 where
  pub data1 : ℕ
  pub data2 : ℕ
  pub data3 : ℕ
  pub data4 : List ℕ

abbrev pub named_pipe_event : Guid
named_pipe_event = record {
  data1 = 0x1f81d131;
  data2 = 0x3fac;
  data3 = 0x4537;
  data4 = 0x9e ∷ 0x0c ∷ 0x7e ∷ 0x7b ∷ 0x0c ∷ 0x2f ∷ 0x4b ∷ 0x55 ∷ [];
}

-- serviceTrigger, with its one data item; `data` is the units of the UTF-16 string.
pub record Trigger : Type 0 where
  pub trigger_type : ℕ
  pub action : ℕ
  pub subtype : Guid
  pub data_type : ℕ
  pub data_size : ℕ
  pub data_units : List ℕ

-- serviceConfigTriggerInfo
abbrev pub config_trigger_info : ℕ
config_trigger_info = 8

abbrev pub pipe_trigger_name : Text
pipe_trigger_name = codes "caelo"

-- The trigger of setPipeTrigger, of the UTF-16 name with its terminator.
unfoldable pub pipe_trigger : List ℕ → Trigger
pipe_trigger name = record {
  trigger_type = 6;
  action = 1;
  subtype = named_pipe_event;
  data_type = 2;
  data_size = (length name * 2) % 2 ^ 32;
  data_units = name;
}

-- svc.State
pub data State : Type 0 where
  stopped : State
  start_pending : State
  stop_pending : State
  running : State
  other_state : ℕ → State

abbrev pub is_stopped : State → Bool
is_stopped stopped = true
is_stopped _ = false

pub record Manager : Type 1 where
  pub World : Type 0
  pub executable : Result Text Text
  pub utf16 : Text → Result Text (List ℕ)
  pub connect : Effect World Text ℕ
  pub disconnect : ℕ → World → World
  pub open_service : ℕ → Text → Effect World Text ℕ
  -- CreateService for the executable, to be started on demand
  pub create_service : ℕ → Text → Text → Effect World Text ℕ
  pub close : ℕ → World → World
  pub query : ℕ → Effect World Text State
  -- Control(svc.Stop)
  pub control_stop : ℕ → Effect World Text (Unit {0})
  pub delete : ℕ → Effect World Text (Unit {0})
  pub change_config : ℕ → ℕ → Trigger → Effect World Text (Unit {0})

pub data Problem : Type 0 where
  said : Text → Problem
  plain : Text → Problem
  wrapped : Text → Text → Problem

-- svc.ChangeRequest, as Execute tells them apart.
pub data Request : Type 0 where
  interrogate : State → Request
  stop : Request
  shutdown : Request
  other_request : Request

-- What Execute does: it reports a state, sets the work going, stops everything.
pub data Action : Type 0 where
  report : State → Action
  start_work : Action
  stop_everything : Text → Action

-- The loop of Execute over the requests.
unfoldable pub answer : List Request → List Action
answer [] = []
answer (interrogate current ∷ requests) = report current ∷ answer requests
answer (stop ∷ requests) =
    report stop_pending ∷ stop_everything (codes "the service was stopped") ∷ []
answer (shutdown ∷ requests) =
    report stop_pending ∷ stop_everything (codes "the service was stopped") ∷ []
answer (other_request ∷ requests) = answer requests

-- Execute
unfoldable pub execute : List Request → List Action
unfolding answer
execute requests = report start_pending ∷ start_work ∷ report running ∷ answer requests

module _ (m : Manager) where
  open m use {
    World, executable, utf16, connect, disconnect, open_service, create_service, close, query,
    control_stop, delete, change_config,
  }

  abbrev pub M : Type 0 → Type 0
  M A = Effect World Problem A

  -- setPipeTrigger
  unfoldable pub set_pipe_trigger : ℕ → Effect World Text (Unit {0})
  unfolding lift pipe_trigger
  set_pipe_trigger service = do
    name ← lift (utf16 pipe_trigger_name)
    change_config service config_trigger_info (pipe_trigger name)

  -- install, with the service that was made; it is left installed if the trigger cannot be set.
  unfoldable pub add_trigger : ℕ → M (Unit {0})
  unfolding wrap set_pipe_trigger
  add_trigger service =
      wrap (wrapped (codes "the service was installed but will not start on demand"))
        (set_pipe_trigger service)

  -- install, with the manager open and no service of the name.
  unfoldable pub create : Text → ℕ → M (Unit {0})
  unfolding using wrap add_trigger
  create path manager =
      using
        (wrap (wrapped (codes "creating the service")) (create_service manager service_name path))
        close add_trigger

  -- install, with what opening a service of the name gave.
  abbrev pub unless_installed : Text → ℕ → Result Text ℕ → World → Result Problem (Unit {0}) × World
  unless_installed path manager (ok existing) w =
      (err (said (service_name ++ codes " is already installed")), close existing w)
  unless_installed path manager (err _) w = create path manager w

  unfoldable pub install_with : Text → ℕ → M (Unit {0})
  unfolding create
  install_with path manager w =
      let (r, w') = open_service manager service_name w in unless_installed path manager r w'

  -- mgr.Connect, with what its failure is called.
  unfoldable pub open_manager : M ℕ
  unfolding wrap
  open_manager =
      wrap (wrapped (codes "opening the service manager (this needs Administrator)")) connect

  -- install
  unfoldable pub install : M (Unit {0})
  unfolding using lift open_manager install_with
  install = do
    path ← lift (map_err plain executable)
    using open_manager disconnect (install_with path)

  -- Stop, where the service is known to be anything but stopped.
  abbrev pub stop_if : Result Text State → ℕ → M (Unit {0})
  stop_if (ok state) service w =
      if not (is_stopped state)
      then wrap (wrapped (codes "stopping the service")) (control_stop service) w
      else (ok tt, w)
  stop_if (err _) service w = (ok tt, w)

  unfoldable pub stop_first : ℕ → M (Unit {0})
  unfolding wrap
  stop_first service w = let (r, w') = query service w in stop_if r service w'

  -- uninstall, with the service open.
  unfoldable pub stop_and_delete : ℕ → M (Unit {0})
  unfolding stop_first wrap
  stop_and_delete service = do stop_first service; wrap plain (delete service)

  unfoldable pub uninstall_with : ℕ → M (Unit {0})
  unfolding using wrap stop_and_delete
  uninstall_with manager =
      using
        (wrap (λ _. said (service_name ++ codes " is not installed"))
          (open_service manager service_name))
        close stop_and_delete

  -- uninstall
  unfoldable pub uninstall : M (Unit {0})
  unfolding using open_manager uninstall_with
  uninstall = using open_manager disconnect uninstall_with

  -- platformCommand: whether the arguments were a command, and what it ended in.
  unfoldable pub platform_command : List Text → World → Bool × Result Problem (Unit {0}) × World
  unfolding install uninstall text_eq
  platform_command (_ ∷ command ∷ _) w =
      let (r1, w1) = install w in
      let (r2, w2) = uninstall w in
      if text_eq command (codes "install")
      then (true, r1, w1)
      else if text_eq command (codes "uninstall")
      then (true, r2, w2)
      else (false, ok tt, w)
  platform_command _ w = (false, ok tt, w)
