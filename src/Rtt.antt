-- ===== src/Rtt.antt =====
-- core/internal/rtt/rtt.go, the meter: round trips taken from the TCP handshakes that cross the
-- tunnel. Times are nanoseconds on a clock that starts before the process. A duration is a
-- difference with `-`, which stops at 0: the code compares durations only with bounds of at least
-- 0, where a negative one and 0 fall on the same side. The mutex makes each method one step.
pub mod Bounds
pub mod Latency
pub mod Karn
pub mod Device
mod Tests
use caelo.Base.{
  ℕ, ◌+◌, ◌-◌, ◌*◌, ◌/◌, ◌%◌, ◌^◌, min, max, ◌≡◌, ◌↔◌, Bool, true, false, not, ◌&&◌, ◌||◌, Option,
  none, some, List, [], ◌∷◌, ◌++◌, arith, ltb, leb, ◌==◌, if◌then◌else◌, ok, ◌>>=◌, length, keep,
  rest,
}
use caelo.Base.Map
use caelo.Base.Map.{Key}
use caelo.Base.Text.{text_eq, text_eq_iff}
use caelo.Tcp.{Go, Addr, v4, v6, Flow, Tcp, syn_ack_bits, flag_syn, flag_ack, parse_tcp}

abbrev pub second : ℕ
second = 1_000_000_000

abbrev pub window : ℕ
window = 10 * second

abbrev pub pending_for : ℕ
pending_for = 5 * second

abbrev pub max_pending : ℕ
max_pending = 512

abbrev pub max_samples : ℕ
max_samples = 256

-- `==` on the keys of the map.
pub addr_eq : Addr → Addr → Bool
addr_eq (v4 a) (v4 b) = text_eq a b
addr_eq (v6 a) (v6 b) = text_eq a b
addr_eq _ _ = false

pub flow_eq : Flow → Flow → Bool
flow_eq f g =
    addr_eq f.local g.local
    && addr_eq f.remote g.remote
    && f.local_port == g.local_port
    && f.remote_port == g.remote_port

addr_eq_iff : (a b : Addr) → (addr_eq a b ≡ true) ↔ (a ≡ b)
unfolding addr_eq
addr_eq_iff (v4 a) (v4 b) = ground (arith, text_eq_iff a b)
addr_eq_iff (v4 a) (v6 b) = ground arith
addr_eq_iff (v6 a) (v4 b) = ground arith
addr_eq_iff (v6 a) (v6 b) = ground (arith, text_eq_iff a b)

pub flow_eq_iff : (f g : Flow) → (flow_eq f g ≡ true) ↔ (f ≡ g)
unfolding flow_eq
flow_eq_iff f g = ground (arith, addr_eq_iff f.local g.local, addr_eq_iff f.remote g.remote)

instance abbrev pub flow_key : Key Flow
flow_key = record { beq = flow_eq; beq_iff = flow_eq_iff }

pub record Syn : Type 0 where
  pub at : ℕ
  pub seq : ℕ
  pub again : Bool

pub record Sample : Type 0 where
  pub at : ℕ
  pub rtt : ℕ

pub record Meter : Type 0 where
  pub pending : List (Flow × Syn)
  pub samples : List Sample
  pub last : ℕ
  pub seen : Bool

unfoldable pub new : Meter
new = record { pending = []; samples = []; last = 0; seen = false }

-- The loop `least = min(least, s.rtt)`.
pub least_from : ℕ → List Sample → ℕ
least_from least [] = least
least_from least (s ∷ more) = least_from (min least s.rtt) more

-- `m.last` after the samples are filtered: the figure that expiring samples gave.
pub held : List Sample → List Sample → ℕ → ℕ
held [] (s ∷ more) last = least_from s.rtt more
held _ _ last = last

abbrev pub is_fresh : ℕ → Sample → Bool
is_fresh now s = leb (now - s.at) window

abbrev pub is_awaited : ℕ → Flow × Syn → Bool
is_awaited now e = not (ltb pending_for (now - e.1.at))

-- expireLocked
pub expire : ℕ → Meter → Meter
expire now m =
    let fresh = keep (is_fresh now) m.samples in
    record m {
      samples = fresh;
      last = held fresh m.samples m.last;
      pending = keep (is_awaited now) m.pending;
    }

-- The end of `Latency`, over the samples that are left.
pub report : List Sample → Meter → (ℕ × Bool) × Meter
report [] m = ((m.last, true), m)
report (s ∷ more) m =
    let least = least_from s.rtt more in ((least, true), record m { last = least })

-- Latency
pub latency : ℕ → Meter → (ℕ × Bool) × Meter
latency now m =
    if not m.seen then ((0, false), m) else let m' = expire now m in report m'.samples m'

-- Forget
unfoldable pub forget : Meter → Meter
forget m = record m { samples = []; seen = false; last = 0 }

abbrev pub millisecond : ℕ
millisecond = 1_000_000

-- Milliseconds; a nil Meter is `none`.
unfoldable pub milliseconds : ℕ → Option Meter → ℕ × Option Meter
milliseconds now none = (0, none)
milliseconds now (some m) =
    let (figure, m') = latency now m in
    ((if figure.1 then max (figure.0 / millisecond) 1 else 0), some m')

-- Outbound, for a flow that has no SYN waiting.
pub first_syn : ℕ → Flow → ℕ → Meter → Meter
first_syn now f seq m =
    let add = λ (m : Meter). record m {
      pending = Map.insert f (record { at = now; seq = seq; again = false }) m.pending;
    } in
    if leb max_pending (length m.pending)
    then (let m' = expire now m in if leb max_pending (length m'.pending) then m' else add m')
    else add m

-- Outbound, with what the map holds for the flow.
pub syn_out : ℕ → Flow → ℕ → Option Syn → Meter → Meter
syn_out now f seq (some earlier) m = record m {
  pending = Map.insert f (record earlier { again = true }) m.pending;
}
syn_out now f seq none m = first_syn now f seq m

-- Outbound, after `parseTCP`.
pub tcp_out : ℕ → Option Tcp → Meter → Meter
tcp_out now none m = m
tcp_out now (some t) m =
    if syn_ack_bits t.flags == flag_syn
    then syn_out now t.flow t.seq (Map.lookup t.flow m.pending) m
    else m

-- Outbound
pub outbound : ℕ → List ℕ → Meter → Go Meter
outbound now packet m = do t ← parse_tcp packet; ok (tcp_out now t m)

-- sent.seq+1 on uint32
abbrev pub next_seq : ℕ → ℕ
next_seq seq = (seq + 1) % 2 ^ 32

abbrev pub room : List Sample → List Sample
room samples = if length samples == max_samples then rest samples else samples

-- Inbound, once the SYN that is answered is off the map.
pub answered : ℕ → Syn → ℕ → Meter → Meter
answered now sent ack m =
    if sent.again || not (ack == next_seq sent.seq)
    then m
    else let rtt = now - sent.at in
      if leb rtt 0 || ltb pending_for rtt
      then m
      else record m { samples = room m.samples ++ record { at = now; rtt = rtt } ∷ []; seen = true }

pub syn_ack_in : ℕ → Flow → ℕ → Option Syn → Meter → Meter
syn_ack_in now f ack none m = m
syn_ack_in now f ack (some sent) m =
    answered now sent ack (record m { pending = Map.remove f m.pending })

-- Coming back, the remote end is the source.
abbrev pub turned : Flow → Flow
turned f = record {
  local = f.remote;
  remote = f.local;
  local_port = f.remote_port;
  remote_port = f.local_port;
}

-- Inbound, after `parseTCP`.
pub tcp_in : ℕ → Option Tcp → Meter → Meter
tcp_in now none m = m
tcp_in now (some t) m =
    if syn_ack_bits t.flags == flag_syn + flag_ack
    then syn_ack_in now (turned t.flow) t.ack (Map.lookup (turned t.flow) m.pending) m
    else m

-- Inbound
pub inbound : ℕ → List ℕ → Meter → Go Meter
inbound now packet m = do t ← parse_tcp packet; ok (tcp_in now t m)

-- What the program does to a meter, one call after another.
pub data Event : Type 0 where
  sent : ℕ → List ℕ → Event
  received : ℕ → List ℕ → Event
  asked : ℕ → Event
  forgotten : Event

pub step : Event → Meter → Go Meter
step (sent now packet) m = outbound now packet m
step (received now packet) m = inbound now packet m
step (asked now) m = ok (latency now m).1
step forgotten m = ok (forget m)

pub run : List Event → Meter → Go Meter
run [] m = ok m
run (e ∷ es) m = step e m >>= run es
