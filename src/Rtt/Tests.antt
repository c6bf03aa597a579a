-- ===== src/Rtt/Tests.antt =====
-- A meter and the packets that it is tried on.
use caelo.Base.{ℕ, ◌≡◌, ◌≢◌, refl, ◌++◌, true, false, none, some, List, [], ◌∷◌, arith, keep}
use caelo.Base.Map
use caelo.Base.Text.{text_eq}
use caelo.Tcp.{v4, Flow, Tcp, syn_ack_bits}
use caelo.Rtt.{
  Meter, new, room, least_from, held, expire, report, latency, forget, sent, received, asked,
  forgotten, run, flow_key, flow_eq, addr_eq, tcp_in, tcp_out,
}
use caelo.Rtt.Bounds.{IsValid, Keeps, new-IsValid, run-IsValid}
use caelo.Rtt.Karn.{SameFigures, retransmitted_not_counted, handshake_counted, forget_keeps_waiting}
use caelo.Rtt.Latency.{fresh, IsLeast, latency-IsLeast}

-- 10.0.0.2 port 40000 to 1.2.3.4 port 443, and back.
abbrev syn_packet : List ℕ
syn_packet =
    0x45 ∷ 0 ∷ 0 ∷ 40 ∷ 0 ∷ 0 ∷ 0x40 ∷ 0 ∷ 64 ∷ 6 ∷ 0 ∷ 0 ∷ 10 ∷ 0 ∷ 0 ∷ 2 ∷ 1 ∷ 2 ∷ 3 ∷ 4 ∷ 156
    ∷ 64 ∷ 1 ∷ 187 ∷ 0 ∷ 0 ∷ 0 ∷ 7 ∷ 0 ∷ 0 ∷ 0 ∷ 0 ∷ 80 ∷ 2 ∷ 0 ∷ 0 ∷ 0 ∷ 0 ∷ 0 ∷ 0 ∷ []

abbrev reply_packet : List ℕ
reply_packet =
    0x45 ∷ 0 ∷ 0 ∷ 40 ∷ 0 ∷ 0 ∷ 0x40 ∷ 0 ∷ 64 ∷ 6 ∷ 0 ∷ 0 ∷ 1 ∷ 2 ∷ 3 ∷ 4 ∷ 10 ∷ 0 ∷ 0 ∷ 2 ∷ 1 ∷ 187
    ∷ 156 ∷ 64 ∷ 0 ∷ 0 ∷ 0 ∷ 9 ∷ 0 ∷ 0 ∷ 0 ∷ 8 ∷ 80 ∷ 18 ∷ 0 ∷ 0 ∷ 0 ∷ 0 ∷ 0 ∷ 0 ∷ []

abbrev flow : Flow
flow = record {
  local = v4 (10 ∷ 0 ∷ 0 ∷ 2 ∷ []);
  remote = v4 (1 ∷ 2 ∷ 3 ∷ 4 ∷ []);
  local_port = 40000;
  remote_port = 443;
}

abbrev syn : Tcp
syn = record { flow = flow; seq = 7; ack = 0; flags = 2 }

abbrev reply : Tcp
reply = record {
  flow = record {
    local = v4 (1 ∷ 2 ∷ 3 ∷ 4 ∷ []);
    remote = v4 (10 ∷ 0 ∷ 0 ∷ 2 ∷ []);
    local_port = 443;
    remote_port = 40000;
  };
  seq = 9;
  ack = 8;
  flags = 18;
}

-- Round trips of 30 and 20 milliseconds, one second apart.
abbrev measured : Meter
measured = record {
  pending = [];
  samples =
      record { at = 1_000_000_000; rtt = 30_000_000 }
      ∷ record { at = 2_000_000_000; rtt = 20_000_000 }
      ∷ [];
  last = 0;
  seen = true;
}

measured-IsValid : IsValid measured
measured-IsValid = record {
  pending_bounded = omega arith;
  samples_bounded = omega arith;
  samples_good = omega arith;
  unseen = λ e. ground arith;
  held_good = λ e h. ground arith;
}

abbrev waiting_once : Meter
waiting_once = record {
  pending = (flow, record { at = 1; seq = 7; again = false }) ∷ [];
  samples = [];
  last = 0;
  seen = false;
}

measured-fresh : fresh 3_000_000_000 measured ≡ measured.samples
unfolding keep
measured-fresh = refl

measured_some : fresh 3_000_000_000 measured ≢ []
unfolding keep
measured_some e = ground arith

all_stale : fresh 30_000_000_000 (latency 3_000_000_000 measured).1 ≡ []
unfolding keep latency expire report held least_from
all_stale = refl

flow_waits : Map.lookup flow waiting_once.pending ≡ some (record { at = 1; seq = 7; again = false })
unfolding Map.lookup flow_eq addr_eq text_eq
flow_waits = refl

none_waits : Map.lookup flow measured.pending ≡ none
unfolding Map.lookup
none_waits = refl

run-IsValid_example : Keeps (
    run
      (sent 1 syn_packet
        ∷ received 20_000_001 reply_packet
        ∷ asked 30_000_000
        ∷ forgotten
        ∷ received 40_000_000 (0x45 ∷ [])
        ∷ [])
      new)
run-IsValid_example =
    run-IsValid
      (sent 1 syn_packet
        ∷ received 20_000_001 reply_packet
        ∷ asked 30_000_000
        ∷ forgotten
        ∷ received 40_000_000 (0x45 ∷ [])
        ∷ [])
      new new-IsValid

latency-IsLeast_example :
    ((latency 3_000_000_000 measured).0.1 ≡ true)
    × IsLeast (latency 3_000_000_000 measured).0.0 (fresh 3_000_000_000 measured)
latency-IsLeast_example = latency-IsLeast 3_000_000_000 measured refl measured_some

retransmitted_not_counted_example :
    SameFigures (tcp_in 9 (some reply) (tcp_out 5 (some syn) waiting_once)) waiting_once
unfolding syn_ack_bits
retransmitted_not_counted_example =
    retransmitted_not_counted flow syn reply 5 9 waiting_once
      (record { at = 1; seq = 7; again = false }) (refl, refl) (refl, refl) flow_waits

handshake_counted_example :
    let m' = tcp_in 4_020_000_000 (some reply) (tcp_out 4_000_000_000 (some syn) measured) in
    (m'.samples ≡ room measured.samples ++ record { at = 4_020_000_000; rtt = 20_000_000 } ∷ [])
    × (m'.seen ≡ true)
    × (Map.lookup flow m'.pending ≡ none)
unfolding syn_ack_bits
handshake_counted_example =
    handshake_counted flow syn reply 4_000_000_000 4_020_000_000 (refl, refl) (refl, refl) measured
      none_waits (omega arith) refl (omega arith) (omega arith)

forget_keeps_waiting_example :
    (tcp_in 4_020_000_000 (some reply) (forget (tcp_out 4_000_000_000 (some syn) measured))).samples
    ≡ record { at = 4_020_000_000; rtt = 20_000_000 } ∷ []
unfolding syn_ack_bits
forget_keeps_waiting_example =
    forget_keeps_waiting flow syn reply 4_000_000_000 4_020_000_000 (refl, refl) (refl, refl)
      measured none_waits (omega arith) refl (omega arith) (omega arith)
