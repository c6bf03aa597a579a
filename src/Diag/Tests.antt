-- ===== src/Diag/Tests.antt =====
-- A log that is written to, cleared and filled.
use caelo.Base.{
  ℕ, zero, suc, ◌≡◌, refl, true, false, List, [], ◌∷◌, ◌++◌, arith, Bool, not, ◌&&◌, All,
}
use caelo.Base.Text.{Text, codes}
use caelo.Diag.{Ring, empty, Call, log, chatter, switch, forget, lines, run}
use caelo.Diag.Redact.{is_base64, is_hex, is_blank, labelled, redact, stamped}
use caelo.Diag.Leak.{bare_key_kept, hex_tail_kept}
use caelo.Diag.Hidden.{NotBlank}
use caelo.Diag.Recent.{recent, history, run-recent}
use caelo.Diag.Redact.{is_base64}
use caelo.Diag.Redact.{is_blank}
use caelo.Diag.Redact.{is_hex}
use caelo.Diag.Redact.{labelled}

abbrev session : List Call
session =
    log (codes "old")
    ∷ forget
    ∷ log (codes "up")
    ∷ chatter (codes "dropped")
    ∷ switch true (codes "verbose logging on")
    ∷ chatter (codes "kept")
    ∷ []

kept_lines :
    recent (history false [] session) ≡ codes "up" ∷ codes "verbose logging on" ∷ codes "kept" ∷ []
unfolding history
kept_lines = refl

run-recent_example : lines (run session empty) ≡ recent (history false [] session)
unfolding empty
run-recent_example = run-recent session empty false [] (refl, refl) (omega arith, tt)

abbrev repeated : ℕ → List Text
repeated zero = []
repeated (suc n) = codes "line" ∷ repeated n

abbrev full : Ring
full = record { lines = repeated 400; verbose = false }

-- A private key of 32 bytes in base64, less its "=".
abbrev digits : Text
digits = codes "yAnz5TF+lXXJte14tji3zlMNq+hd2rYUIgJBgB3fBm"

abbrev last : ℕ
last = b'k'

abbrev hex_digits : Text
hex_digits = codes "c809f3e53177e9775c9b5ee2d6d8b7ce530dabe85d"

abbrev hex_rest : Text
hex_rest = codes "b614220241801ddf0669"

labels_hide :
    redact (codes "set Private Key : abc, done") ≡ codes "set Private Key :<redacted> done"
unfolding redact
labels_hide = refl

bare_stays :
    stamped (codes "12:00:00.000") (codes "peer " ++ digits ++ last ∷ codes "= up")
    ≡ codes "12:00:00.000  peer " ++ digits ++ last ∷ codes "=<redacted> up"
unfolding stamped
bare_stays = refl

abbrev every : (ℕ → Bool) → Text → Bool
every p [] = true
every p (c ∷ s) = p c && every p s

every-All : (p : ℕ → Bool) (s : Text) → every p s ≡ true → All (λ c. p c ≡ true) s
every-All p [] h = tt
every-All p (c ∷ s) h = (ground arith, every-All p s (ground arith))

abbrev is_there : ℕ → Bool
is_there c = not (is_blank c)

there : (s : Text) → All (λ c. is_there c ≡ true) s → All NotBlank s
there [] h = tt
there (c ∷ s) h = (ground arith, there s h.1)

bare_key_kept_example : redact (digits ++ last ∷ codes "=") ≡ digits ++ last ∷ codes "=<redacted>"
unfolding is_base64 labelled
bare_key_kept_example = bare_key_kept digits last refl (every-All is_base64 digits refl) refl refl

hex_tail_kept_example :
    redact (hex_digits ++ b'7' ∷ b'9' ∷ hex_rest) ≡ codes "<redacted>" ++ hex_rest
unfolding is_hex
hex_tail_kept_example =
    hex_tail_kept hex_digits b'7' b'9' hex_rest refl refl (every-All is_hex hex_digits refl) refl
      refl (every-All is_hex hex_rest refl)
