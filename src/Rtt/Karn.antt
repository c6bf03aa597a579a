-- ===== src/Rtt/Karn.antt =====
-- Which answers count: a SYN sent once, answered once, by its own acknowledgement, in time.
use caelo.Base.{
  ℕ, ◌+◌, ◌-◌, ◌≤◌, ◌<◌, ◌≡◌, inl, inr, refl, ◌∙◌, ap, true, false, none, some, [], ◌∷◌, ◌++◌,
  arith, leb, Option-cases, length,
}
use caelo.Base.Map
use caelo.Tcp.{Flow, Tcp, syn_ack_bits, flag_syn, flag_ack}
use caelo.Rtt.{
  flow_key, flow_eq_iff, pending_for, max_pending, Syn, Meter, first_syn, syn_out, tcp_out,
  next_seq, room, answered, syn_ack_in, turned, tcp_in, forget,
}

-- A TCP segment of flow `f` that opens a connection, and one that answers it.
abbrev pub Opens : Flow → Tcp → Type 0
Opens f t = (t.flow ≡ f) × (syn_ack_bits t.flags ≡ flag_syn)

abbrev pub Answers : Flow → Tcp → Type 0
Answers f t = (turned t.flow ≡ f) × (syn_ack_bits t.flags ≡ flag_syn + flag_ack)

tcp_out-Opens :
    (now : ℕ) (f : Flow) (t : Tcp) (m : Meter)
    → Opens f t
    → tcp_out now (some t) m ≡ syn_out now f t.seq (Map.lookup f m.pending) m
unfolding tcp_out
tcp_out-Opens now f t m (e, o) = rw (← e) (ground arith)

tcp_in-Answers :
    (now : ℕ) (f : Flow) (t : Tcp) (m : Meter)
    → Answers f t
    → tcp_in now (some t) m ≡ syn_ack_in now f t.ack (Map.lookup f m.pending) m
unfolding tcp_in
tcp_in-Answers now f t m (e, o) = rw (← e) (ground arith)

-- What a meter has measured, without what it is waiting for.
abbrev pub SameFigures : Meter → Meter → Type 0
SameFigures m n = (m.samples ≡ n.samples) × (m.last ≡ n.last) × (m.seen ≡ n.seen)

syn_ack_in_again :
    (now : ℕ) (f : Flow) (ack : ℕ) (s : Syn) (m : Meter)
    → s.again ≡ true
    → SameFigures (syn_ack_in now f ack (some s) m) m
unfolding syn_ack_in answered
syn_ack_in_again now f ack s m h = ground arith

-- Karn's rule: where a SYN is sent again while the first one waits for its answer, an answer to
-- that flow, at any time and with any acknowledgement, measures nothing.
pub retransmitted_not_counted :
    (f : Flow) (syn reply : Tcp) (sent got : ℕ) (m : Meter) (earlier : Syn)
    → Opens f syn
    → Answers f reply
    → Map.lookup f m.pending ≡ some earlier
    → SameFigures (tcp_in got (some reply) (tcp_out sent (some syn) m)) m
unfolding syn_out
retransmitted_not_counted f syn reply sent got m earlier o a e =
    rw (tcp_out-Opens sent f syn m o, e)
      (rw
        (
          tcp_in-Answers got f reply (syn_out sent f syn.seq (some earlier) m) a,
          Map.lookup-insert_self f (record earlier { again = true }) m.pending,
        )
        (syn_ack_in_again got f reply.ack (record earlier { again = true }) _ refl))

-- The meter once a SYN waits.
abbrev waiting : Flow → ℕ → ℕ → Meter → Meter
waiting f sent seq m = record m {
  pending = Map.insert f (record { at = sent; seq = seq; again = false }) m.pending;
}

first_syn_room :
    (now : ℕ) (f : Flow) (seq : ℕ) (m : Meter)
    → length m.pending < max_pending
    → first_syn now f seq m ≡ waiting f now seq m
unfolding first_syn
first_syn_room now f seq m h =
    let e : leb max_pending (length m.pending) ≡ false = ground arith in rw e

abbrev sampled : ℕ → ℕ → Meter → Meter
sampled got rtt m = record m {
  samples = room m.samples ++ record { at = got; rtt = rtt } ∷ [];
  seen = true;
}

answered_ok :
    (sent got seq : ℕ) (m : Meter)
    → sent < got
    → got - sent ≤ pending_for
    → answered got (record { at = sent; seq = seq; again = false }) (next_seq seq) m
      ≡ sampled got (got - sent) m
unfolding answered
answered_ok sent got seq m h k = ground arith

syn_ack_in_lem :
    (now : ℕ) (f : Flow) (ack : ℕ) (s : Syn) (m : Meter)
    → syn_ack_in now f ack (some s) m
      ≡ answered now s ack (record m { pending = Map.remove f m.pending })
unfolding syn_ack_in
syn_ack_in_lem now f ack s m = refl

module _ (f : Flow) (syn reply : Tcp) (sent got : ℕ) (opens : Opens f syn)
    (answers : Answers f reply) where
  -- The SYN goes on the map.
  syn_waits :
      (m : Meter)
      → Map.lookup f m.pending ≡ none
      → length m.pending < max_pending
      → tcp_out sent (some syn) m ≡ waiting f sent syn.seq m
  unfolding syn_out
  syn_waits m absent free =
      tcp_out-Opens sent f syn m opens
      ∙ ap (λ o. syn_out sent f syn.seq o m) absent
      ∙ first_syn_room sent f syn.seq m free

  -- And its answer takes it off.
  reply_counts :
      (m : Meter)
      → Map.lookup f m.pending ≡ some (record { at = sent; seq = syn.seq; again = false })
      → reply.ack ≡ next_seq syn.seq
      → sent < got
      → got - sent ≤ pending_for
      → tcp_in got (some reply) m
        ≡ sampled got (got - sent) (record m { pending = Map.remove f m.pending })
  reply_counts m waits acks later soon =
      tcp_in-Answers got f reply m answers
      ∙ ap (λ o. syn_ack_in got f reply.ack o m) waits
      ∙ syn_ack_in_lem got f reply.ack _ m
      ∙ ap
          (λ a.
            answered got (record { at = sent; seq = syn.seq; again = false }) a
              (record m { pending = Map.remove f m.pending }))
          acks
      ∙ answered_ok sent got syn.seq (record m { pending = Map.remove f m.pending }) later soon

  -- A connection opened and answered by the next sequence number (modulo 2^32), later and within
  -- 5 seconds, on a flow that was not waiting and with room on the map, adds one sample: the time
  -- between the two. The oldest sample goes if there were 256, and the flow waits no longer.
  pub handshake_counted :
      (m : Meter)
      → Map.lookup f m.pending ≡ none
      → length m.pending < max_pending
      → reply.ack ≡ next_seq syn.seq
      → sent < got
      → got - sent ≤ pending_for
      → let m' = tcp_in got (some reply) (tcp_out sent (some syn) m) in
        (m'.samples ≡ room m.samples ++ record { at = got; rtt = got - sent } ∷ [])
        × (m'.seen ≡ true)
        × (Map.lookup f m'.pending ≡ none)
  handshake_counted m absent free acks later soon = rw (syn_waits m absent free) (
      rw
        (reply_counts (waiting f sent syn.seq m) (Map.lookup-insert_self f _ m.pending) acks later
          soon)
        (refl, refl, rw (Map.lookup-remove, (flow_eq_iff f f).1 refl)))

  -- `Forget` drops what was measured and not what is waited for: a connection opened before it
  -- and answered after it is the one sample that follows.
  pub forget_keeps_waiting :
      (m : Meter)
      → Map.lookup f m.pending ≡ none
      → length m.pending < max_pending
      → reply.ack ≡ next_seq syn.seq
      → sent < got
      → got - sent ≤ pending_for
      → (tcp_in got (some reply) (forget (tcp_out sent (some syn) m))).samples
        ≡ record { at = got; rtt = got - sent } ∷ []
  unfolding forget
  forget_keeps_waiting m absent free acks later soon = rw (syn_waits m absent free) (
      rw (
        reply_counts (forget (waiting f sent syn.seq m)) (Map.lookup-insert_self f _ m.pending) acks
          later soon))

reply_again :
    (f : Flow) (reply : Tcp) (now : ℕ) (m : Meter)
    → Answers f reply
    → Map.lookup f m.pending ≡ none
    → tcp_in now (some reply) m ≡ m
unfolding syn_ack_in
reply_again f reply now m a absent =
    tcp_in-Answers now f reply m a ∙ ap (λ o. syn_ack_in now f reply.ack o m) absent

-- No answer waits any more after one came.
pending-answered :
    (now : ℕ) (s : Syn) (ack : ℕ) (m : Meter) → (answered now s ack m).pending ≡ m.pending
unfolding answered
pending-answered now s ack m = ground arith

absent-tcp_in :
    (f : Flow) (reply : Tcp) (now : ℕ) (m : Meter)
    → Answers f reply
    → Map.lookup f (tcp_in now (some reply) m).pending ≡ none
unfolding syn_ack_in
absent-tcp_in f reply now m a = elim (Option-cases (Map.lookup f m.pending)) [
  | inl e ↦ rw (tcp_in-Answers now f reply m a, e) e
  | inr (s, e) ↦
      rw (tcp_in-Answers now f reply m a, e)
        (rw (pending-answered now s reply.ack (record m { pending = Map.remove f m.pending }))
          (rw (Map.lookup-remove, (flow_eq_iff f f).1 refl)))
]

-- A repeated answer changes nothing, however late it is and whatever the first one did.
pub answered_once :
    (f : Flow) (reply : Tcp) (got later : ℕ) (m : Meter)
    → Answers f reply
    → let m' = tcp_in got (some reply) m in tcp_in later (some reply) m' ≡ m'
answered_once f reply got later m a = reply_again f reply later _ a (absent-tcp_in f reply got m a)
