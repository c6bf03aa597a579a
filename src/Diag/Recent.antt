-- ===== src/Diag/Recent.antt =====
-- The lines kept are the most recent ones of everything recorded.
use caelo.Base.{
  ℕ, zero, suc, ◌-◌, ◌≤◌, ◌<◌, ◌≡◌, refl, sym, ap, ◌∙◌, inl, inr, Bool, true, false, List, [], ◌∷◌,
  ◌++◌, arith, ltb, ◌==◌, if◌then◌else◌, Bool-cases, length, drop, rest, length-drop, length-append,
}
use caelo.Base.Text.{Text}
use caelo.Diag.{
  capacity, Ring, logf, verbosef, set_verbose, clear, lines, Call, log, chatter, switch, forget,
  run,
}

-- The last `capacity` lines of a history.
abbrev pub recent : List Text → List Text
recent h = drop (length h - capacity) h

-- Everything recorded since the last Clear, by the same calls: `on` says whether chatter counts.
unfoldable pub history : Bool → List Text → List Call → List Text
history on h [] = h
history on h (log line ∷ cs) = history on (h ++ line ∷ []) cs
history on h (chatter line ∷ cs) = history on (if on then h ++ line ∷ [] else h) cs
history on h (switch to line ∷ cs) = history to (h ++ line ∷ []) cs
history on h (forget ∷ cs) = history on [] cs

rest-drop : (n : ℕ) (xs : List Text) → rest (drop n xs) ≡ drop (suc n) xs
rest-drop zero [] = refl
rest-drop zero (x ∷ xs) = refl
rest-drop (suc n) [] = refl
rest-drop (suc n) (x ∷ xs) = rest-drop n xs

drop-append_le : (n : ℕ) (xs ys : List Text) → n ≤ length xs → drop n (xs ++ ys) ≡ drop n xs ++ ys
drop-append_le zero xs ys h = refl
drop-append_le (suc n) [] ys h = absurd (omega arith)
drop-append_le (suc n) (x ∷ xs) ys h = drop-append_le n xs ys (omega arith)

length-recent : (h : List Text) → capacity ≤ length h → length (recent h) ≡ capacity
length-recent h k = omega (arith, length-drop (length h - capacity) h)

recent_short : (h : List Text) → length h ≤ capacity → recent h ≡ h
recent_short h k = let e : length h - capacity ≡ 0 = omega arith in rw e

-- One more line, below the capacity and at it.
recent-append_short :
    (h : List Text) (line : Text)
    → length h < capacity
    → (if length (recent h) == capacity then rest (recent h) else recent h) ++ line ∷ []
      ≡ recent (h ++ line ∷ [])
recent-append_short h line k =
    rw
      (
        recent_short h (omega arith),
        recent_short (h ++ line ∷ []) (omega (arith, length-append h (line ∷ []))),
      )
      (let test : (length h == capacity) ≡ false = ground arith in rw test)

recent-append_full :
    (h : List Text) (line : Text)
    → capacity ≤ length h
    → (if length (recent h) == capacity then rest (recent h) else recent h) ++ line ∷ []
      ≡ recent (h ++ line ∷ [])
recent-append_full h line k =
    let test : (length (recent h) == capacity) ≡ true = ground (arith, length-recent h k) in
    let one : length (h ++ line ∷ []) - capacity ≡ suc (length h - capacity) =
      omega (arith, length-append h (line ∷ [])) in
    ap (λ (b : Bool). (if b then rest (recent h) else recent h) ++ line ∷ []) test
    ∙ ap (λ (l : List Text). l ++ line ∷ []) (rest-drop (length h - capacity) h)
    ∙ sym (drop-append_le (suc (length h - capacity)) h (line ∷ []) (omega arith))
    ∙ ap (λ n. drop n (h ++ line ∷ [])) (sym one)

recent-append :
    (h : List Text) (line : Text)
    → (if length (recent h) == capacity then rest (recent h) else recent h) ++ line ∷ []
      ≡ recent (h ++ line ∷ [])
recent-append h line = elim (Bool-cases (ltb (length h) capacity)) [
  | inl k ↦ recent-append_short h line (ground arith)
  | inr k ↦ recent-append_full h line (ground arith)
]

-- Each switch of verbose logging happens while fewer than `capacity` lines are in the history.
abbrev pub SwitchesFit : Bool → List Text → List Call → Type 0
SwitchesFit on h [] = Unit {0}
SwitchesFit on h (log line ∷ cs) = SwitchesFit on (h ++ line ∷ []) cs
SwitchesFit on h (chatter line ∷ cs) = SwitchesFit on (if on then h ++ line ∷ [] else h) cs
SwitchesFit on h (switch to line ∷ cs) = (length h < capacity) × SwitchesFit to (h ++ line ∷ []) cs
SwitchesFit on h (forget ∷ cs) = SwitchesFit on [] cs

-- A ring that holds the recent lines of a history.
abbrev pub Holds : Ring → Bool → List Text → Type 0
Holds s on h = (s.lines ≡ recent h) × (s.verbose ≡ on)

logf-Holds :
    (s : Ring) (on : Bool) (h : List Text) (line : Text)
    → Holds s on h
    → Holds (logf line s) on (h ++ line ∷ [])
unfolding logf
logf-Holds s on h line (e, v) = (
  ap (λ (l : List Text). (if length l == capacity then rest l else l) ++ line ∷ []) e
      ∙ recent-append h line,
  v,
)

verbosef_on : (line : Text) (s : Ring) → s.verbose ≡ true → verbosef line s ≡ logf line s
unfolding verbosef
verbosef_on line s v = ground arith

verbosef_off : (line : Text) (s : Ring) → s.verbose ≡ false → verbosef line s ≡ s
unfolding verbosef
verbosef_off line s v = ground arith

verbosef-Holds :
    (s : Ring) (on : Bool) (h : List Text) (line : Text)
    → Holds s on h
    → Holds (verbosef line s) on (if on then h ++ line ∷ [] else h)
verbosef-Holds s true h line (e, v) = rw (verbosef_on line s v) (logf-Holds s true h line (e, v))
verbosef-Holds s false h line (e, v) = rw (verbosef_off line s v) (e, v)

set_verbose-Holds :
    (s : Ring) (on to : Bool) (h : List Text) (line : Text)
    → length h < capacity
    → Holds s on h
    → Holds (set_verbose to line s) to (h ++ line ∷ [])
unfolding set_verbose
set_verbose-Holds s on to h line k (e, v) = (
  ap (λ (l : List Text). l ++ line ∷ []) (e ∙ recent_short h (omega arith))
      ∙ sym (recent_short (h ++ line ∷ []) (omega (arith, length-append h (line ∷ [])))),
  refl,
)

-- After any calls, as long as verbose logging is switched only while the log is not full, the log
-- is exactly the last 400 lines recorded since the last Clear, oldest first; chatter is recorded
-- exactly while verbose logging is on.
pub run-recent :
    (cs : List Call) (s : Ring) (on : Bool) (h : List Text)
    → Holds s on h
    → SwitchesFit on h cs
    → lines (run cs s) ≡ recent (history on h cs)
unfolding run history clear
run-recent [] s on h (e, v) k = e
run-recent (log line ∷ cs) s on h v k =
    run-recent cs (logf line s) on (h ++ line ∷ []) (logf-Holds s on h line v) k
run-recent (chatter line ∷ cs) s on h v k =
    run-recent cs (verbosef line s) on _ (verbosef-Holds s on h line v) k
run-recent (switch to line ∷ cs) s on h v k =
    run-recent cs (set_verbose to line s) to _ (set_verbose-Holds s on to h line k.0 v) k.1
run-recent (forget ∷ cs) s on h v k = run-recent cs (clear s) on [] (refl, v.1) k
