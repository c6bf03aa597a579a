-- ===== src/Idler/Tests.antt =====
-- Runs of the service.
use caelo.Base.{◌≡◌, refl, inr, true, false, arith}
use caelo.Idler.{
  Service, begin, fire, busy, idle, checking, returned, stopping, accepts, counts, serves, closes,
  expires, fires, wakes, finds_up, keeps, finds_down, Reach, here, next,
}
use caelo.Idler.Exit.{IsSound, Ends, reached-IsSound, quiet-Ends}
use caelo.Idler.Race.{ends_while_connected}
use caelo.Idler.Resident.{IsResident, up_once-IsResident}

-- The timer ends, its call of `fire` sends, and the watcher receives.
abbrev woken : Service
woken = record {
  holders = 0;
  fired = true;
  armed = false;
  firing = 0;
  tokens = 0;
  watcher = checking;
  accepted = false;
  opened = 0;
  up = false;
}

woken_reached : Reach begin woken
unfolding begin fire
woken_reached =
    next (next (next here (expires begin refl)) (fires _ (omega arith) (inr (inr (omega arith)))))
      (wakes _ refl (omega arith))

-- A connection raises the tunnel and stays; the watcher finds the tunnel up.
abbrev kept_up : Service
kept_up = record {
  holders = 2;
  fired = false;
  armed = false;
  firing = 0;
  tokens = 0;
  watcher = returned;
  accepted = false;
  opened = 1;
  up = true;
}

kept_up_reached : Reach begin kept_up
unfolding begin fire busy
kept_up_reached =
    next
      (next
        (next (next (next woken_reached (accepts woken refl)) (counts _ refl))
          (serves _ true (omega arith)))
        (finds_up _ refl refl))
      (keeps _ refl)

-- And then the tunnel goes down and the connection closes.
abbrev left_alone : Service
left_alone = record {
  holders = 1;
  fired = false;
  armed = false;
  firing = 0;
  tokens = 0;
  watcher = returned;
  accepted = false;
  opened = 0;
  up = false;
}

left_alone_reached : Reach kept_up left_alone
unfolding idle
left_alone_reached = next (next here (serves kept_up false (omega arith))) (closes _ (omega arith))

-- A connection is accepted, and the service ends before it is counted.
abbrev cut_off : Service
cut_off = record {
  holders = 0;
  fired = true;
  armed = false;
  firing = 0;
  tokens = 0;
  watcher = stopping;
  accepted = true;
  opened = 0;
  up = false;
}

cut_off_reached : Reach begin cut_off
unfolding begin fire
cut_off_reached =
    next
      (next
        (next (next (next here (accepts begin refl)) (expires _ refl))
          (fires _ (omega arith) (inr (inr (omega arith)))))
        (wakes _ refl (omega arith)))
      (finds_down _ refl refl)

-- The watcher finds the tunnel up, and a call of `fire` comes in before its `busy`: the tunnel's
-- connection has closed by then.
abbrev fired_between : Service
fired_between = record {
  holders = 1;
  fired = false;
  armed = false;
  firing = 0;
  tokens = 1;
  watcher = returned;
  accepted = false;
  opened = 0;
  up = true;
}

fired_between_reached : Reach begin fired_between
unfolding begin fire busy idle
fired_between_reached =
    next
      (next
        (next
          (next
            (next
              (next (next (next woken_reached (accepts woken refl)) (counts _ refl))
                (serves _ true (omega arith)))
              (finds_up _ refl refl))
            (closes _ (omega arith)))
          (expires _ refl))
        (fires _ (omega arith) (inr (inr (omega arith)))))
      (keeps _ refl)

reached-IsSound_example : IsSound fired_between
reached-IsSound_example = reached-IsSound {s = fired_between} fired_between_reached

quiet-Ends_example : Ends begin
unfolding begin
quiet-Ends_example = quiet-Ends {s = begin} here refl refl refl

up_once-IsResident_example : IsResident 0 left_alone
up_once-IsResident_example =
    up_once-IsResident {s = kept_up} {t = left_alone} kept_up_reached refl left_alone_reached

ends_while_connected_example :
    (t : Service) × Reach woken t × (t.watcher ≡ stopping) × (t.opened ≡ 1) × (t.holders ≡ 1)
ends_while_connected_example = ends_while_connected woken refl refl
