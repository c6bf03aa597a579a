-- ===== src/Ipc/Answers.antt =====
-- What the service answers, and when it touches the tunnel.
use caelo.Base.{
  ◌≡◌, refl, Bool, true, false, not, Option, none, some, Result, ok, err, if◌then◌else◌, if-both,
}
use caelo.Base.Text.{Text, text_eq}
use caelo.Systunnel.{Machine, Status, Controller, World, Failure, start}
use caelo.Systunnel.Calls.{status-Reports}
use caelo.Systunnel.Sound.{
  IsSound, IsDown, IsDown-IsSound, stop-IsDown, Outcome, Outcome-IsSound, start-Outcome,
}
use caelo.Systunnel.Started.{IsStarted}
use caelo.Ipc.{
  Request, command_connect, command_disconnect, command_status, command_version, Complaint, Reply,
  from_status, start_reply, speaks, dispatch, handle, serve, older_application, older_service,
  refusal, is_older,
}

module _ (m : Machine) (core amneziawg : Text) where
  abbrev pub After : Type 0
  After = Reply m core amneziawg × Controller m × World m

  abbrev Keeps : After → Type 0
  Keeps (r, c, w) = IsSound m c

  dispatch-IsSound :
      (r : Request) (c : Controller m) (w : World m)
      → IsSound m c
      → Keeps (dispatch m core amneziawg r c w)
  unfolding dispatch
  dispatch-IsSound r c w v =
      if-both Keeps (text_eq r.command command_status) (λ _. (status-Reports m c w v).1)
        λ _.
          if-both Keeps (text_eq r.command command_connect)
            (λ _.
              Outcome-IsSound m r.config (start m r.config c w).0 (start m r.config c w).1
                (start-Outcome m r.config c w v))
            λ _.
              if-both Keeps (text_eq r.command command_disconnect)
                (λ _. IsDown-IsSound m _ (stop-IsDown m c w v)) (λ _. v)

  -- Whatever line arrives, one that does not decode included, the controller stays sound.
  pub serve-IsSound :
      (line : Option Request) (c : Controller m) (w : World m)
      → IsSound m c
      → let (r, c', w') = serve m core amneziawg line c w in IsSound m c'
  unfolding serve handle
  serve-IsSound none c w v = v
  serve-IsSound (some r) c w v =
      if-both Keeps (text_eq r.command command_version) (λ _. v)
        λ _.
          if-both Keeps (not (speaks m core amneziawg r.protocol)) (λ _. v)
            (λ _. dispatch-IsSound r c w v)

  -- A refusal, with the controller and the world as they are.
  abbrev pub refused : Complaint m core amneziawg → Controller m → World m → After
  refused e c w = (refusal m core amneziawg e, c, w)

  refused-if :
      (b : Bool) (c : Controller m) (w : World m)
      → let r =
          if b
          then refusal m core amneziawg older_application
          else refusal m core amneziawg older_service in
        ◌≡◌ {A = After} (r, c, w) (refused (if b then older_application else older_service) c w)
  refused-if true c w = refl
  refused-if false c w = refl

  -- A request of another protocol version, except for the version itself, is refused with a
  -- complaint about the older side, and neither the tunnel nor the machine is touched.
  pub mismatch_refused :
      (r : Request) (c : Controller m) (w : World m)
      → text_eq r.command command_version ≡ false
      → speaks m core amneziawg r.protocol ≡ false
      → handle m core amneziawg r c w
        ≡ refused
            (if is_older m core amneziawg r.protocol then older_application else older_service)
            c
            w
  unfolding handle
  mismatch_refused r c w other strange =
      rw (other, strange) (refused-if (is_older m core amneziawg r.protocol) c w)

  -- What an answer to a connect says: that the tunnel of the configuration sent is up, with its
  -- endpoint and protocol, or why it is not.
  abbrev pub Connected : Text → Reply m core amneziawg → Controller m → Type 0
  Connected text r c = elim r.error [
    | none ↦
        IsStarted m text c
        × (r.ok ≡ true)
        × (r.up ≡ true)
        × (r.endpoint ≡ c.status.endpoint)
        × (r.protocol ≡ c.status.protocol)
    | some e ↦ IsDown m c × (r.ok ≡ false) × (r.up ≡ false)
  ]

  start_reply-Connected :
      (text : Text) (s : Result (Failure m) Status) (c : Controller m)
      → Outcome m text s c
      → Connected text (start_reply m core amneziawg s) c
  unfolding from_status
  start_reply-Connected text (ok s) c o = (o.0, refl, rw o.1 o.0.is_up, rw o.1 refl, rw o.1 refl)
  start_reply-Connected text (err e) c o = (o, refl, refl)

  -- A connect of this protocol version is answered OK exactly with a tunnel that was brought up
  -- from the configuration sent and whose server answered; with an error, no tunnel is left up.
  pub connect-Connected :
      (r : Request) (c : Controller m) (w : World m)
      → IsSound m c
      → r.command ≡ command_connect
      → speaks m core amneziawg r.protocol ≡ true
      → let (reply, c', w') = handle m core amneziawg r c w in Connected r.config reply c'
  unfolding handle dispatch text_eq
  connect-Connected r c w v e s =
      rw (e, s)
        (start_reply-Connected r.config (start m r.config c w).0 (start m r.config c w).1
          (start-Outcome m r.config c w v))
