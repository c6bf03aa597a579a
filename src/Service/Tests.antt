-- ===== src/Service/Tests.antt =====
-- An operating system that can be evaluated: its world is the list of the open descriptors. The service
-- on it, and its theorem.
use caelo.Base.{
  ℕ, suc, ◌+◌, Bool, true, false, none, some, List, [], ◌∷◌, ◌≡◌, refl, Result, ok, err, arith,
  if◌then◌else◌, length, ◌==◌,
}
use caelo.Base.Text.{codes, text_eq}
use caelo.Systunnel.{new}
use caelo.Systunnel.Calls.{new-IsSound}
use caelo.Systunnel.Sandbox.{computer}
use caelo.Systunnel.Sound.{IsDown}
use caelo.Userspace.Sandbox.{total, listed, without, listed-above, listed-without}
use caelo.Service.{Unix, Conn, describe, listen, shutdown, serve, must_be_privileged, said, wrapped}
use caelo.Service.Descriptors.{Descriptors}
use caelo.Service.Ended.{shutdown-IsDown, left}
use caelo.Service.Handover.{IsListening, listen-IsListening}

-- Without systemd, on a machine where the path "bad" takes no permissions.
abbrev by_hand : Unix
by_hand = record {
  World = List ℕ;
  getenv = λ name. [];
  pid = 41;
  euid = 0;
  dir = λ path. path;
  mkdir_all = λ path w. (ok tt, w);
  remove = λ path w. w;
  listen_unix = λ path w. (ok (suc (total w)), suc (total w) ∷ w);
  chmod = λ path w. (if text_eq path (codes "bad") then err (codes "no") else ok tt, w);
  close_on_exec = λ h w. w;
  file_listener = λ h w. (ok (suc (total w)), suc (total w) ∷ w);
  close = without;
}

-- systemd passes one socket to process 41.
abbrev by_systemd : Unix
by_systemd = record by_hand {
  getenv = λ name. if text_eq name (codes "LISTEN_PID") then codes "41" else codes "1";
}

-- It passes two.
abbrev by_two : Unix
by_two = record by_hand {
  getenv = λ name. if text_eq name (codes "LISTEN_PID") then codes "41" else codes "2";
}

systemd_descriptors : Descriptors by_systemd
systemd_descriptors = record {
  is_open = listed;
  mkdir_keeps = λ p w d. refl;
  remove_keeps = λ p w d. refl;
  chmod_keeps = λ p w d. refl;
  exec_keeps = λ h w d. refl;
  listen_opens = λ p w. (listed-above (suc (total w)) w (omega arith), λ d. refl);
  file_opens = λ h w. (listed-above (suc (total w)) w (omega arith), λ d. refl);
  closes = λ h w d. listed-without d h w;
}

-- It passed one to the parent of process 41, which has the parent's variables.
abbrev by_parent : Unix
by_parent = record by_hand {
  getenv = λ name. if text_eq name (codes "LISTEN_PID") then codes "40" else codes "1";
}

not_handed_over : listen by_parent (codes "s") (3 ∷ []) ≡ (ok 4, false, 4 ∷ 3 ∷ [])
unfolding listen caelo.Base.Effect.◌>>=◌ text_eq
not_handed_over = refl

made_here : listen by_hand (codes "s") (2 ∷ []) ≡ (ok 3, false, 3 ∷ 2 ∷ [])
unfolding listen caelo.Base.Effect.◌>>=◌ text_eq
made_here = refl

not_restricted :
    listen by_hand (codes "bad") (2 ∷ [])
    ≡ (err (wrapped (codes "setting socket permissions") (codes "no")), false, 2 ∷ [])
unfolding listen caelo.Base.Effect.◌>>=◌ text_eq
not_restricted = refl

handed_over : listen by_systemd (codes "s") (3 ∷ []) ≡ (ok 4, true, 4 ∷ [])
unfolding listen text_eq
handed_over = refl

two_passed :
    listen by_two (codes "s") (3 ∷ [])
    ≡ (err (said (codes "systemd passed 2 sockets; this program serves one")), true, 3 ∷ [])
unfolding listen text_eq
two_passed = refl

is_root : must_be_privileged by_hand ≡ ok tt
unfolding must_be_privileged
is_root = refl

abbrev stranger : Conn
stranger = record { is_unix = false; syscall_conn = ok tt; control = err [] }

no_reply :
    serve by_hand computer [] [] stranger (some none) (new computer) 0 ≡ (none, new computer, 0)
unfolding serve
no_reply = refl

described : describe (codes "s") true ≡ codes "s (handed over by systemd)"
unfolding describe
described = refl

listen-IsListening_example :
    IsListening by_systemd systemd_descriptors (3 ∷ []) (listen by_systemd (codes "s") (3 ∷ []))
listen-IsListening_example = listen-IsListening by_systemd systemd_descriptors (codes "s") (3 ∷ [])

shutdown-IsDown_example :
    (let (c', w', v'') =
        shutdown by_systemd computer (new computer) 0 4 (codes "s") true (4 ∷ []) in
      IsDown computer c'
      × ((d : ℕ)
          → listed d v'' ≡ left by_systemd systemd_descriptors computer true d (listed d (3 ∷ []))))
unfolding shutdown systemd_descriptors
shutdown-IsDown_example =
    shutdown-IsDown by_systemd systemd_descriptors computer (new computer) 0 (codes "s") (3 ∷ [])
      (4 ∷ []) 4 true (new-IsSound computer) handed_over
