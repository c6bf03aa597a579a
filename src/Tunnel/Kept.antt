-- ===== src/Tunnel/Kept.antt =====
-- core/internal/tunnel/session.go: what Connect, Disconnect and Check keep of the world, if the calls
-- that they make keep it.
use caelo.Base.{ℕ, Option, none, some, Result, ok, err, List}
use caelo.Base.Effect.Keeps.{Keeps, keeps_rules}
use caelo.Base.Int.{ℤ}
use caelo.Base.Text.{Text}
use caelo.Awg
use caelo.Userspace.{Userspace}
use caelo.Userspace.Kept.{Steady, Lived}
use caelo.Tunnel.{
  Failure, Session, Built, or_close, start_device, configure, build_from, make_device, build,
  close_if, settle, connect, disconnect, check, check_through,
}

module _ (u : Userspace) (P : u.World → Type 0) where
  module _ (k : Steady u P) where
    request-P : (net : u.Net) (timeout : ℤ) (r : u.Request) → Keeps P (u.do_request net timeout r)
    request-P = k.request

    set-P : (dev : ℕ) (t : Text) → Keeps P (u.ipc_set dev t)
    set-P = k.set

    up-P : (dev : ℕ) → Keeps P (u.device_up dev)
    up-P = k.up

    tun-P : (a b : List u.Addr) (mtu : ℤ) → Keeps P (u.create_net_tun a b mtu)
    tun-P = k.tun

    check_through-Keeps :
        (net : u.Net) (url : Text) (timeout : ℤ) → Keeps P (check_through u net url timeout)
    unfolding check_through
    check_through-Keeps net url timeout = search (keeps_rules, request-P) depth 14

    pub check-Keeps : (s : Session u) (url : Text) (timeout : ℤ) → Keeps P (check u s url timeout)
    unfolding check
    check-Keeps s url timeout = by_net s.net
      where
        by_net : (net : Option u.Net) → Keeps P (check u (record s { net = net }) url timeout)
        by_net none = search keeps_rules
        by_net (some net) = check_through-Keeps net _ _

    start_device-Keeps : (cfg : Awg.Config u.Addr) (dev : ℕ) → Keeps P (start_device u cfg dev)
    unfolding start_device
    start_device-Keeps cfg dev = search (keeps_rules, set-P, up-P)

  module _ (k : Lived u P) where
    tun-Lived : (a b : List u.Addr) (mtu : ℤ) → Keeps P (u.create_net_tun a b mtu)
    tun-Lived = k.steady.tun

    closed :
        (dev : ℕ) (r : Result Failure (Unit {0})) (w : u.World) → P w → P (or_close u dev r w).1
    closed dev (ok _) w p = p
    closed dev (err e) w p = k.closed dev w p

    make_device-Keeps : (cfg : Awg.Config u.Addr) (net : u.Net) → Keeps P (make_device u cfg net)
    unfolding make_device configure
    make_device-Keeps cfg net = record {
      from = λ w p.
          let (dev, w1) = u.new_device net w in
          let (r, w2) = start_device u cfg dev w1 in
          closed dev r w2 ((start_device-Keeps k.steady cfg dev).from w1 (k.made net w p));
    }

    build-Keeps :
        (read_conf : Text → Awg.Go (Awg.Config u.Addr)) (text : Text)
        → Keeps P (build u read_conf text)
    unfolding build build_from
    build-Keeps read_conf text = search (keeps_rules, tun-Lived, make_device-Keeps) depth 12

    close_if-Keeps : (o : Option ℕ) (w : u.World) → P w → P (close_if u o w)
    unfolding close_if
    close_if-Keeps none w p = p
    close_if-Keeps (some dev) w p = k.closed dev w p

    settle-Keeps :
        (r : Result Failure (Built u)) (s : Session u) (w : u.World) → P w → P (settle u r s w).2
    unfolding settle
    settle-Keeps (err e) s w p = p
    settle-Keeps (ok b) s w p = close_if-Keeps s.device w p

    pub connect-Keeps :
        (read_conf : Text → Awg.Go (Awg.Config u.Addr)) (text : Text) (s : Session u) (w : u.World)
        → P w
        → P (connect u read_conf text s w).2
    unfolding connect
    connect-Keeps read_conf text s w p =
        let (r, w') = build u read_conf text w in
        settle-Keeps r s w' ((build-Keeps read_conf text).from w p)

    pub disconnect-Keeps : (s : Session u) (w : u.World) → P w → P (disconnect u s w).1
    unfolding disconnect
    disconnect-Keeps s w p = close_if-Keeps s.device w p
