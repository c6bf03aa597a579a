-- ===== src/Rtt/Bounds.antt =====
-- What the meter remembers is bounded, and every figure in it is a round trip that it may report.
use caelo.Base.{
  ℕ, ◌+◌, ◌-◌, ◌≤◌, ◌<◌, min, ◌≡◌, inl, inr, refl, Bool, true, false, not, ◌||◌, Option, none, some,
  List, [], ◌∷◌, ◌++◌, arith, ltb, leb, ◌==◌, ok, if-both, append-ne-nil, Bool-cases, Option-cases,
  ◌∙◌, length, keep-nil, sym, subst, All, All-append, All-rest, All-keep, length-keep,
  length-append, length-rest,
}
use caelo.Base.Map
use caelo.Tcp.{Flow, Tcp, Go, syn_ack_bits, flag_syn, flag_ack}
use caelo.Tcp.Total.{parse_tcp_returns}
use caelo.Rtt.{
  flow_key, pending_for, max_pending, max_samples, Syn, Sample, Meter, new, least_from, held,
  is_fresh, is_awaited, expire, report, latency, forget, milliseconds, first_syn, syn_out, tcp_out,
  outbound, next_seq, room, answered, syn_ack_in, turned, tcp_in, inbound, Event, sent, received,
  asked, forgotten, step, run,
}

abbrev pub IsFigure : ℕ → Type 0
IsFigure r = (0 < r) × (r ≤ pending_for)

abbrev pub IsGood : Sample → Type 0
IsGood s = IsFigure s.rtt

pub record IsValid (m : Meter) : Type 0 where
  pub pending_bounded : length m.pending ≤ max_pending
  pub samples_bounded : length m.samples ≤ max_samples
  pub samples_good : All IsGood m.samples
  pub unseen : m.seen ≡ false → m.samples ≡ []
  pub held_good : m.seen ≡ true → m.samples ≡ [] → IsFigure m.last

pub new-IsValid : IsValid new
unfolding new
new-IsValid = ground arith

pub least_from-IsFigure :
    (r : ℕ) (l : List Sample) → IsFigure r → All IsGood l → IsFigure (least_from r l)
unfolding least_from
least_from-IsFigure r [] h k = h
least_from-IsFigure r (s ∷ l) h k = least_from-IsFigure (min r s.rtt) l (omega arith) k.1

held-IsFigure :
    (kept l : List Sample) (last : ℕ)
    → All IsGood l
    → (l ≡ [] → IsFigure last)
    → kept ≡ []
    → IsFigure (held kept l last)
unfolding held
held-IsFigure [] [] last h k e = k refl
held-IsFigure [] (s ∷ l) last h k e = least_from-IsFigure s.rtt l h.0 h.1
held-IsFigure (t ∷ kept) l last h k e = cc

pub expire-IsValid : (now : ℕ) (m : Meter) → IsValid m → IsValid (expire now m)
unfolding expire
expire-IsValid now m v = record {
  pending_bounded = omega (arith, length-keep (is_awaited now) m.pending, v.pending_bounded);
  samples_bounded = omega (arith, length-keep (is_fresh now) m.samples, v.samples_bounded);
  samples_good = All-keep IsGood (is_fresh now) m.samples v.samples_good;
  unseen = λ h. keep-nil (is_fresh now) m.samples (v.unseen h);
  held_good = λ h e. held-IsFigure _ m.samples m.last v.samples_good (v.held_good h) e;
}

report-IsValid :
    (l : List Sample) (m : Meter)
    → l ≡ m.samples
    → IsValid m
    → m.seen ≡ true
    → IsValid (report l m).1 × IsFigure (report l m).0.0 × ((report l m).0.1 ≡ true)
unfolding report
report-IsValid [] m e v h = (v, v.held_good h (sym e), refl)
report-IsValid (s ∷ l) m e v h =
    let good : All IsGood (s ∷ l) = subst (All IsGood) (sym e) v.samples_good in
    (
      record {
        pending_bounded = v.pending_bounded;
        samples_bounded = v.samples_bounded;
        samples_good = v.samples_good;
        unseen = v.unseen;
        held_good = λ _ none_left. cc;
      },
      least_from-IsFigure s.rtt l good.0 good.1,
      refl,
    )

seen-expire : (now : ℕ) (m : Meter) → (expire now m).seen ≡ m.seen
unfolding expire
seen-expire now m = refl

report_expired :
    (now : ℕ) (m : Meter)
    → IsValid m
    → m.seen ≡ true
    → let r = report (expire now m).samples (expire now m) in
      IsValid r.1 × IsFigure r.0.0 × (r.0.1 ≡ true)
report_expired now m v h =
    report-IsValid _ (expire now m) refl (expire-IsValid now m v) (seen-expire now m ∙ h)

latency_unseen : (now : ℕ) (m : Meter) → m.seen ≡ false → latency now m ≡ ((0, false), m)
unfolding latency
latency_unseen now m h = ground arith

latency_seen :
    (now : ℕ) (m : Meter)
    → m.seen ≡ true
    → latency now m ≡ report (expire now m).samples (expire now m)
unfolding latency
latency_seen now m h = ground arith

pub latency-IsValid : (now : ℕ) (m : Meter) → IsValid m → IsValid (latency now m).1
latency-IsValid now m v = elim (Bool-cases m.seen) [
  | inl h ↦ rw (latency_seen now m h) (report_expired now m v h).0
  | inr h ↦ rw (latency_unseen now m h) v
]

-- What `Latency` may report, and what a status may carry, before and after the first round trip.
abbrev pub IsReport : Bool → ℕ → Type 0
IsReport true figure = IsFigure figure
IsReport false figure = figure ≡ 0

abbrev pub IsMilliseconds : Bool → ℕ → Type 0
IsMilliseconds true ms = (1 ≤ ms) × (ms ≤ 5000)
IsMilliseconds false ms = ms ≡ 0

IsReport-true : {b : Bool} {figure : ℕ} → b ≡ true → IsFigure figure → IsReport b figure
IsReport-true e f = rw e f

IsReport-false : {b : Bool} → b ≡ false → IsReport b 0
IsReport-false e = rw e refl

-- A valid meter reports nothing until the first round trip, and from then on always a figure that
-- is more than 0 and at most 5 seconds, whether it is fresh or held; it stays valid.
pub latency_reported :
    (now : ℕ) (m : Meter)
    → IsValid m
    → let (figure, m') = latency now m in
      IsValid m' × (figure.1 ≡ m.seen) × IsReport m.seen figure.0
latency_reported now m v = elim (Bool-cases m.seen) [
  | inl h ↦
      rw (latency_seen now m h)
        (let r = report_expired now m v h in (r.0, r.2 ∙ sym h, IsReport-true h r.1))
  | inr h ↦ rw (latency_unseen now m h) (v, sym h, IsReport-false h)
]

-- What a status carries of a valid meter: 0 while nothing was measured, and else from 1 to 5000
-- milliseconds.
pub milliseconds_range :
    (now : ℕ) (m : Meter) → IsValid m → IsMilliseconds m.seen (milliseconds now (some m)).0
unfolding milliseconds
milliseconds_range now m v = elim (Bool-cases m.seen) [
  | inl h ↦ rw h (ground (arith, latency_reported now m v))
  | inr h ↦ rw h (ground (arith, latency_reported now m v))
]

pub forget-IsValid : (m : Meter) → IsValid m → IsValid (forget m)
unfolding forget
forget-IsValid m v = ground (arith, v.pending_bounded)

-- What a valid meter needs of a changed map.
with_pending :
    (m : Meter) (p : List (Flow × Syn))
    → IsValid m
    → length p ≤ max_pending
    → IsValid (record m { pending = p })
with_pending m p v h = record {
  pending_bounded = h;
  samples_bounded = v.samples_bounded;
  samples_good = v.samples_good;
  unseen = v.unseen;
  held_good = v.held_good;
}

add_syn :
    (m : Meter) (f : Flow) (s : Syn)
    → IsValid m
    → length m.pending < max_pending
    → IsValid (record m { pending = Map.insert f s m.pending })
add_syn m f s v h = with_pending m _ v (omega (arith, Map.length-insert f s m.pending))

first_syn-IsValid :
    (now : ℕ) (f : Flow) (seq : ℕ) (m : Meter) → IsValid m → IsValid (first_syn now f seq m)
unfolding first_syn
first_syn-IsValid now f seq m v =
    if-both IsValid (leb max_pending (length m.pending))
      (λ _.
        if-both IsValid (leb max_pending (length (expire now m).pending))
          (λ _. expire-IsValid now m v)
          (λ h. add_syn (expire now m) f _ (expire-IsValid now m v) (ground arith)))
      (λ h. add_syn m f _ v (ground arith))

syn_out-IsValid :
    (now : ℕ) (f : Flow) (seq : ℕ) (m : Meter)
    → IsValid m
    → IsValid (syn_out now f seq (Map.lookup f m.pending) m)
unfolding syn_out
syn_out-IsValid now f seq m v = elim (Option-cases (Map.lookup f m.pending)) [
  | inl e ↦ rw e (first_syn-IsValid now f seq m v)
  | inr (s, e) ↦ rw e (
      with_pending m _ v (
        omega (
          arith,
          Map.length-insert_present f (record s { again = true }) s m.pending e,
          v.pending_bounded,
        )))
]

tcp_out-IsValid : (now : ℕ) (t : Option Tcp) (m : Meter) → IsValid m → IsValid (tcp_out now t m)
unfolding tcp_out
tcp_out-IsValid now none m v = v
tcp_out-IsValid now (some t) m v =
    if-both IsValid _ (λ _. syn_out-IsValid now t.flow t.seq m v) (λ _. v)

length-room : (l : List Sample) → length l ≤ max_samples → length (room l) + 1 ≤ max_samples
length-room l h = ground (arith, length-rest l)

room-IsGood : (l : List Sample) → All IsGood l → All IsGood (room l)
room-IsGood l h = if-both (All IsGood) _ (λ _. All-rest IsGood l h) (λ _. h)

counted-IsValid :
    (now rtt : ℕ) (m : Meter)
    → IsValid m
    → IsFigure rtt
    → IsValid
        (record m { samples = room m.samples ++ record { at = now; rtt = rtt } ∷ []; seen = true })
counted-IsValid now rtt m v h = record {
  pending_bounded = v.pending_bounded;
  samples_bounded = omega (
    arith,
    length-append (room m.samples) (record { at = now; rtt = rtt } ∷ []),
    length-room m.samples v.samples_bounded,
  );
  samples_good =
      All-append IsGood (room m.samples) _ (room-IsGood m.samples v.samples_good) (h, tt);
  unseen = λ e. cc;
  held_good = λ _ e. absurd (append-ne-nil (room m.samples) _ e);
}

answered-IsValid :
    (now : ℕ) (s : Syn) (ack : ℕ) (m : Meter) → IsValid m → IsValid (answered now s ack m)
unfolding answered
answered-IsValid now s ack m v =
    if-both IsValid (s.again || not (ack == next_seq s.seq)) (λ _. v)
      λ _.
        if-both IsValid (leb (now - s.at) 0 || ltb pending_for (now - s.at)) (λ _. v)
          λ h. counted-IsValid now (now - s.at) m v (ground arith)

syn_ack_in-IsValid :
    (now : ℕ) (f : Flow) (ack : ℕ) (o : Option Syn) (m : Meter)
    → IsValid m
    → IsValid (syn_ack_in now f ack o m)
unfolding syn_ack_in
syn_ack_in-IsValid now f ack none m v = v
syn_ack_in-IsValid now f ack (some s) m v =
    answered-IsValid now s ack _
      (with_pending m _ v (omega (arith, Map.length-remove f m.pending, v.pending_bounded)))

tcp_in-IsValid : (now : ℕ) (t : Option Tcp) (m : Meter) → IsValid m → IsValid (tcp_in now t m)
unfolding tcp_in
tcp_in-IsValid now none m v = v
tcp_in-IsValid now (some t) m v =
    if-both IsValid (syn_ack_bits t.flags == flag_syn + flag_ack)
      (λ _. syn_ack_in-IsValid now (turned t.flow) t.ack _ m v) (λ _. v)

-- The call returns, with a valid meter.
abbrev pub Keeps : Go Meter → Type 0
Keeps r = (m : Meter) × (r ≡ ok m) × IsValid m

pub outbound-IsValid :
    (now : ℕ) (packet : List ℕ) (m : Meter) → IsValid m → Keeps (outbound now packet m)
unfolding outbound
outbound-IsValid now packet m v =
    let (t, e) = parse_tcp_returns packet in rw e (tcp_out now t m, refl, tcp_out-IsValid now t m v)

pub inbound-IsValid :
    (now : ℕ) (packet : List ℕ) (m : Meter) → IsValid m → Keeps (inbound now packet m)
unfolding inbound
inbound-IsValid now packet m v =
    let (t, e) = parse_tcp_returns packet in rw e (tcp_in now t m, refl, tcp_in-IsValid now t m v)

pub step-IsValid : (e : Event) (m : Meter) → IsValid m → Keeps (step e m)
unfolding step
step-IsValid (sent now packet) m v = outbound-IsValid now packet m v
step-IsValid (received now packet) m v = inbound-IsValid now packet m v
step-IsValid (asked now) m v = ((latency now m).1, refl, latency-IsValid now m v)
step-IsValid forgotten m v = (forget m, refl, forget-IsValid m v)

-- From a valid meter, any sequence of packets seen, of any bytes and at any times, of questions
-- and of resets is worked through without a panic and leaves a valid meter: at most 512 flows
-- waiting, at most 256 samples, each sample more than 0 and at most 5 seconds.
pub run-IsValid : (es : List Event) (m : Meter) → IsValid m → Keeps (run es m)
unfolding run
run-IsValid [] m v = (m, refl, v)
run-IsValid (e ∷ es) m v =
    let (m', stepped, v') = step-IsValid e m v in rw stepped (run-IsValid es m' v')
