-- ===== src/Systunnel/Started.antt =====
-- What is behind a tunnel that Start brought up.
use caelo.Base.{◌≡◌, refl, Bool, true, false, some, Result, ok, err, if◌then◌else◌}
use caelo.Base.Effect.{map_err}
use caelo.Base.Effect.Gives.{OnOk, Gives, Gives-any, Gives-bind}
use caelo.Base.Text.{Text, codes}
use caelo.Rtt
use caelo.System
use caelo.System.{Host, apply, snapshot}
use caelo.Systunnel.{
  Machine, Conf, Controller, Failure, M, parse, read_config, on_error, or_undo, network_of,
  wait_answer, must_answer, restored, connect, bring_up, said, reading, World, protocol_of,
}

module _ (m : Machine) where
  -- A tunnel of a configuration that was read from the text, over a device that the server
  -- answered, with the machine's former state and a new meter beside it.
  pub record IsStarted (text : Text) (c : Controller m) : Type 0 where
    pub conf : Conf m
    pub device : m.Device
    pub state : System.State
    pub before : World m
    pub parsed : parse m text ≡ ok conf
    pub has_device : c.device ≡ some device
    pub has_state : c.state ≡ some state
    pub has_meter : c.meter ≡ some Rtt.new
    pub answered : (wait_answer m device before).0 ≡ true
    pub is_up : c.status.up ≡ true
    pub endpoint : c.status.endpoint ≡ conf.peer.endpoint
    pub protocol : c.status.protocol ≡ protocol_of m conf
    pub interface : c.status.interface ≡ c.network.interface

  -- Some wait for the device's peer was answered.
  abbrev pub Answered : m.Device → Type 0
  Answered dev = (w : World m) × ((wait_answer m dev w).0 ≡ true)

  abbrev after_wait : (dev : m.Device) (b : Bool) → Result (Failure m) (Unit {0})
  after_wait dev b =
      if b then ok tt else err (said (codes "the server did not answer the handshake"))

  must_answer-Gives : (dev : m.Device) → Gives (λ _. Answered dev) (must_answer m dev)
  unfolding must_answer
  must_answer-Gives dev = record { from = λ w. answers dev w (wait_answer m dev w).0 refl }
    where
      answers :
          (dev : m.Device) (w : World m) (b : Bool)
          → (wait_answer m dev w).0 ≡ b
          → OnOk (λ _. Answered dev) (after_wait dev b)
      answers dev w true e = (w, e)
      answers dev w false e = tt

  on_error-Gives :
      {A : Type 0} {P : A → Type 0} (undo : World m → World m) (call : M m A)
      → Gives P call
      → Gives P (on_error m undo call)
  unfolding on_error
  on_error-Gives {A} {P} undo call k = record { from = λ w. kept (call w).0 (call w).1 (k.from w) }
    where
      kept : (r : Result (Failure m) A) (w : World m) → OnOk P r → OnOk P (or_undo m undo r w).0
      kept (ok a) w p = p
      kept (err e) w p = tt

  read_config-Gives : (text : Text) → Gives (λ conf. parse m text ≡ ok conf) (read_config m text)
  unfolding read_config
  read_config-Gives text = record { from = λ w. read (parse m text) refl }
    where
      read :
          (r : Result _ (Conf m))
          → parse m text ≡ r
          → OnOk {E = Failure m} (λ conf. parse m text ≡ ok conf) (map_err reading r)
      read (ok conf) e = e
      read (err e) _ = tt

  connect-Gives :
      (conf : Conf m) (dev : m.Device) (state : System.State) (network : System.Config)
      → Gives (λ _. Answered dev) (connect m conf dev state network)
  unfolding connect
  connect-Gives conf dev state network = on_error-Gives (m.close_device dev) _ (
      Gives-bind _ _ (Gives-any _) λ _ _. Gives-bind _ _ (Gives-any _) λ _ _.
        on_error-Gives (restored m state network) _
          (Gives-bind _ _ (Gives-any _) λ _ _. must_answer-Gives dev))

  pub bring_up-Gives : (text : Text) → Gives (IsStarted text) (bring_up m text)
  unfolding bring_up
  bring_up-Gives text = Gives-bind _ _ (read_config-Gives text) λ conf parsed.
      Gives-bind _ _ (Gives-any _) λ endpoint_host _. Gives-bind _ _ (Gives-any _) λ state _.
        Gives-bind _ _ (Gives-any _) λ (name, dev) _.
          Gives-bind _ _ (connect-Gives conf dev state (network_of m conf name endpoint_host))
            λ _ (before, answered). record {
              from = λ w. record {
                conf = conf;
                device = dev;
                state = state;
                before = before;
                parsed = parsed;
                has_device = refl;
                has_state = refl;
                has_meter = refl;
                answered = answered;
                is_up = refl;
                endpoint = refl;
                protocol = refl;
                interface = refl;
              };
            }
