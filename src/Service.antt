-- ===== src/Service.antt =====
-- core/cmd/caelo-service: the listening socket on Linux (listen_linux.go), who is on the other end of a
-- connection, and the end of the process (shutdown of main.go). `Unix` is what the code calls of the
-- operating system. Listeners and files are their descriptors.
pub mod Descriptors
pub mod Ended
pub mod Handover
pub mod Scm
mod Tests
use caelo.Base.{
  ℕ, Bool, true, false, not, ◌&&◌, ◌||◌, Option, none, some, List, [], ◌∷◌, ◌++◌, if◌then◌else◌,
  Result, ok, err, ltb, leb, ◌==◌,
}
use caelo.Base.Codec.{parse_int}
use caelo.Base.Effect.{Effect, wrap, act, map_err, pure, fail, ◌>>=◌, ◌>>◌}
use caelo.Base.Int.{ℤ, pos, negsuc, itoa}
use caelo.Base.Text.{Text, codes}
use caelo.System as System
use caelo.Systunnel as Systunnel
use caelo.Systunnel.{Machine, Controller}
use caelo.Ipc as Ipc
use caelo.Ipc.{Request}

pub record Unix : Type 1 where
  pub World : Type 0
  -- os.Getenv, os.Getpid, os.Geteuid, filepath.Dir
  pub getenv : Text → Text
  pub pid : ℕ
  pub euid : ℕ
  pub dir : Text → Text
  pub mkdir_all : Text → Effect World Text (Unit {0})
  -- os.Remove, whose error the code passes over
  pub remove : Text → World → World
  pub listen_unix : Text → Effect World Text ℕ
  -- os.Chmod(path, 0o600)
  pub chmod : Text → Effect World Text (Unit {0})
  pub close_on_exec : ℕ → World → World
  pub file_listener : ℕ → Effect World Text ℕ
  pub close : ℕ → World → World

pub data Problem : Type 0 where
  said : Text → Problem
  wrapped : Text → Text → Problem
  plain : Text → Problem

abbrev pub listen_fd_start : ℕ
listen_fd_start = 3

-- n == p, of an int and a process id
abbrev pub is_pid : ℤ → ℕ → Bool
is_pid (pos n) p = n == p
is_pid (negsuc n) p = false

-- What SO_PEERCRED says.
pub record Cred : Type 0 where
  pub uid : ℕ
  pub pid : ℕ

-- A connection as authorise sees it: whether it is a unix socket, and what the two calls give.
pub record Conn : Type 0 where
  pub is_unix : Bool
  pub syscall_conn : Result Text (Unit {0})
  pub control : Result Text (Result Text Cred)

-- authorise, and what it hands to logPeer.
unfoldable pub authorise : Conn → Result Problem Cred
authorise conn =
    if not conn.is_unix then err (said (codes "not a unix socket")) else elim conn.syscall_conn [
      | err why ↦ err (plain why)
      | ok _ ↦ elim conn.control [
        | err why ↦ err (plain why)
        | ok (err why) ↦ err (wrapped (codes "establishing who is connected") why)
        | ok (ok cred) ↦ ok cred
      ]
    ]

-- describe
unfoldable pub describe : Text → Bool → Text
describe path activated =
    if activated
    then path ++ codes " (handed over by systemd)"
    else path ++ codes " (created here, root only)"

module _ (x : Unix) where
  open x use {
    World, getenv, pid, euid, dir, mkdir_all, remove, listen_unix, chmod, close_on_exec,
    file_listener, close,
  }

  abbrev pub M : Type 0 → Type 0
  M A = Effect World Problem A

  -- mustBePrivileged
  unfoldable pub must_be_privileged : Result Problem (Unit {0})
  must_be_privileged =
      if not (euid == 0)
      then err (said (codes "must run as root: this program exists to do what the app may not"))
      else ok tt

  -- LISTEN_PID is that of this process.
  unfoldable pub is_for_us : Bool
  unfolding parse_int
  is_for_us = elim (parse_int (getenv (codes "LISTEN_PID"))) [
    | none ↦ false
    | some n ↦ is_pid n pid
  ]

  abbrev pub at_least_one : ℤ → Option ℕ
  at_least_one (pos n) = if ltb n 1 then none else some n
  at_least_one (negsuc n) = none

  -- How many sockets systemd passed to this process, where it passed any.
  unfoldable pub passed : Option ℕ
  unfolding is_for_us parse_int
  passed =
      if not is_for_us
      then none
      else elim (parse_int (getenv (codes "LISTEN_FDS"))) [ none ↦ none | some n ↦ at_least_one n ]

  -- activated, with one socket passed.
  unfoldable pub adopt : M ℕ
  adopt w =
      let (r, w') = file_listener listen_fd_start (close_on_exec listen_fd_start w) in
      (map_err (wrapped (codes "adopting the socket systemd passed")) r, close listen_fd_start w')

  -- activated: the listener or the error, where systemd passed a socket.
  unfoldable pub activated : World → Option (Result Problem ℕ) × World
  unfolding adopt passed itoa
  activated w = elim passed [
    | none ↦ (none, w)
    | some count ↦
        let (r, w') = adopt w in
        if ltb 1 count
        then (
          some (
              err (
                said (
                  codes "systemd passed "
                  ++ itoa (pos count)
                  ++ codes " sockets; this program serves one"))),
          w,
        )
        else (some r, w')
  ]

  -- The listener, closed where its permissions cannot be set.
  unfoldable pub restrict : Text → ℕ → M ℕ
  restrict path l w =
      let (r, w') = chmod path w in
      elim r [
        | ok _ ↦ (ok l, w')
        | err why ↦ (err (wrapped (codes "setting socket permissions") why), close l w')
      ]

  -- The same, with the directory there.
  unfoldable pub make_listener : Text → M ℕ
  unfolding restrict wrap act
  make_listener path = do
    act (λ w. (tt, remove path w))
    l ← wrap (wrapped (codes "listening on " ++ path)) (listen_unix path)
    restrict path l

  -- listen, where systemd passed nothing.
  unfoldable pub make_socket : Text → M ℕ
  unfolding make_listener wrap
  make_socket path = do
    wrap (wrapped (codes "creating the socket directory")) (mkdir_all (dir path))
    make_listener path

  abbrev pub or_make : Text → Option (Result Problem ℕ) → World → Result Problem ℕ × Bool × World
  or_make path (some r) w = (r, true, w)
  or_make path none w = let (r, w') = make_socket path w in (r, false, w')

  -- listen: the listener, and whether systemd provided it.
  unfoldable pub listen : Text → World → Result Problem ℕ × Bool × World
  unfolding activated make_socket
  listen path w = let (r, w') = activated w in or_make path r w'

  -- The descriptors and the socket's file, as shutdown leaves them.
  unfoldable pub close_socket : ℕ → Text → Bool → World → World
  close_socket l path activated w = if not activated then remove path (close l w) else close l w

  module _ (m : Machine) where
    -- shutdown, up to os.Exit.
    unfoldable pub shutdown :
        Controller m
        → Systunnel.World m
        → ℕ
        → Text
        → Bool
        → World
        → Controller m × Systunnel.World m × World
    unfolding close_socket
    shutdown c w l path activated v =
        let (up, c1, w1) = Systunnel.status m c w in
        let (problems, c2, w2) = Systunnel.stop m c1 w1 in (c2, w2, close_socket l path activated v)

    -- serve: the reply, where there is one, to a connection with what its first line decodes to.
    unfoldable pub serve :
        (core amneziawg : Text)
        → Conn
        → Option (Option Request)
        → Controller m
        → Systunnel.World m
        → Option (Ipc.Reply m core amneziawg) × Controller m × Systunnel.World m
    unfolding authorise
    serve core amneziawg conn line c w = elim (authorise conn) [
      | err why ↦ (none, c, w)
      | ok cred ↦ elim line [
        | none ↦ (none, c, w)
        | some request ↦
            let (reply, c', w') = Ipc.serve m core amneziawg request c w in (some reply, c', w')
      ]
    ]
