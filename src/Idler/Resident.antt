-- ===== src/Idler/Resident.antt =====
-- A tunnel that is up when the idle time has passed keeps the service for good.
use caelo.Base.{ℕ, ◌≤◌, ◌<◌, ◌≡◌, arith}
use caelo.Idler.{
  returned, Service, begin, fire, busy, idle, Step, accepts, counts, serves, closes, expires, fires,
  wakes, finds_up, keeps, finds_down, Reach, here, next,
}
use caelo.Idler.Exit.{IsSound, Reach-IsSound, reached-IsSound}

-- The watcher is back from its one wait, and no call of `fire` can send any more.
pub record IsResident (limit : ℕ) (s : Service) : Type 0 where
  pub back : s.watcher ≡ returned
  pub held : 0 < s.holders
  pub silent : s.tokens ≤ limit

Step-IsResident :
    {s t : Service} {limit : ℕ} → Step s t → IsSound s → IsResident limit s → IsResident limit t
unfolding fire busy idle
Step-IsResident (accepts s h) v r = ground (arith, r)
Step-IsResident (counts s h) v r = ground arith
Step-IsResident (serves s up h) v r = ground (arith, r)
Step-IsResident (closes s h) v r = ground arith
Step-IsResident (expires s h) v r = ground arith
Step-IsResident (fires s h k) v r = ground arith
Step-IsResident (wakes s h k) v r = ground arith
Step-IsResident (finds_up s h k) v r = ground arith
Step-IsResident (keeps s h) v r = ground arith
Step-IsResident (finds_down s h k) v r = ground arith

Reach-IsResident :
    {s t : Service} {limit : ℕ} → IsSound s → IsResident limit s → Reach s t → IsResident limit t
Reach-IsResident v r here = r
Reach-IsResident v r (next q st) = Step-IsResident st (Reach-IsSound v q) (Reach-IsResident v r q)

-- Once the watcher has found the tunnel up and called `busy` for it, the service never ends by itself again: whatever
-- happens later, the tunnel going down and the last connection closing included, the watcher is
-- gone, the idler keeps a hold that nothing gives back, and `fire` adds no token to the channel.
pub up_once-IsResident :
    {s t : Service} → Reach begin s → s.watcher ≡ returned → Reach s t → IsResident s.tokens t
up_once-IsResident {s} r w q =
    let v = reached-IsSound r in
    Reach-IsResident v (record { back = w; held = ground (arith, v.holds); silent = omega arith }) q
