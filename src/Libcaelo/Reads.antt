-- ===== src/Libcaelo/Reads.antt =====
-- core/libcaelo/libcaelo.go: reading an answer, and what is known of encoding/json.
use caelo.Base.{Bool, true, false, Option, none, some, [], ◌∷◌, ◌≡◌, refl, ap, ◌∙◌, Result, ok, err}
use caelo.Base.Map
use caelo.Base.Text.{Text, codes, text_eq, text_key}
use caelo.Diag.{Ring}
use caelo.Release.Checked.{IsTotal}
use caelo.Userspace.{Userspace}
use caelo.Answer.{
  Json, flag, text, Object, Problem, Outside, marshal, failure, failure_text, accepted, success,
  answer,
}
use caelo.Libcaelo.{plain_ok}

abbrev pub mapped : (Json → Json) → Option Json → Option Json
mapped f none = none
mapped f (some v) = some (f v)

-- What is known of encoding/json: what was encoded is read back, key by key; `rounded` is what a
-- number becomes on the way. What was kept as the log is the log. ed25519.Verify is total on keys
-- of 32 bytes.
pub record Lawful (u : Userspace) (o : Outside u) : Type 0 where
  pub rounded : Json → Json
  pub rounded_flag : (b : Bool) → rounded (flag b) ≡ flag b
  pub rounded_text : (t : Text) → rounded (text t) ≡ text t
  pub read_back :
      (v : Object)
      → (t : Text) × (o.encode v ≡ ok t)
        × (p : Object) × (o.decode t ≡ ok p)
        × ((k : Text) → Map.lookup k p ≡ mapped rounded (Map.lookup k v))
  pub log_with : (r : Ring) (w : u.World) → u.log (u.with_log r w) ≡ r
  pub total : IsTotal o.ed25519

module _ (u : Userspace) (o : Outside u) (law : Lawful u o) where
  -- The answer is an object with this value at this key.
  abbrev pub Reads : Text → Text → Json → Type 0
  Reads a k v = (p : Object) × (o.decode a ≡ ok p) × (Map.lookup k p ≡ some v)

  marshal-Reads :
      (v : Object) (k : Text) (j : Json)
      → Map.lookup k v ≡ some j
      → law.rounded j ≡ j
      → Reads (marshal u o v) k j
  unfolding marshal
  marshal-Reads v k j found same =
      let (t, e, p, d, l) = law.read_back v in
      rw (marshal, e) (p, d, l k ∙ ap (mapped law.rounded) found ∙ ap some same)

  pub flag-Reads :
      (v : Object) (k : Text) (b : Bool)
      → Map.lookup k v ≡ some (flag b)
      → Reads (marshal u o v) k (flag b)
  flag-Reads v k b found = marshal-Reads v k (flag b) found (law.rounded_flag b)

  pub text-Reads :
      (v : Object) (k t : Text) → Map.lookup k v ≡ some (text t) → Reads (marshal u o v) k (text t)
  text-Reads v k t found = marshal-Reads v k (text t) found (law.rounded_text t)

  abbrev pub key_ok : Text
  key_ok = codes "ok"

  -- A call that did what it was asked, or else why not.
  abbrev pub IsTold : Option Problem → Text → Type 0
  IsTold none a = Reads a key_ok (flag true)
  IsTold (some e) a = Reads a key_ok (flag false) × Reads a (codes "error") (text (o.error_text e))

  abbrev pub refused : {E A : Type 0} → (E → Problem) → Result E A → Option Problem
  refused problem (ok a) = none
  refused problem (err e) = some (problem e)

  pub failure-IsTold : (e : Problem) → IsTold (some e) (failure u o e)
  unfolding failure failure_text Map.lookup text_eq
  failure-IsTold e =
      let v : Object = (key_ok, flag false) ∷ (codes "error", text (o.error_text e)) ∷ [] in
      (flag-Reads v key_ok false refl, text-Reads v (codes "error") (o.error_text e) refl)

  success-IsTold : (v : Object) → IsTold none (success u o v)
  unfolding success accepted
  success-IsTold v =
      let (t, e, p, d, l) = law.read_back v in
      rw (success, e, d)
        (flag-Reads (Map.insert key_ok (flag true) p) key_ok true
          (Map.lookup-insert_self key_ok (flag true) p))

  pub answer-IsTold :
      {E A : Type 0} (problem : E → Problem) (object : A → Object) (r : Result E A)
      → IsTold (refused problem r) (answer u o problem object r)
  answer-IsTold problem object (ok a) = success-IsTold (object a)
  answer-IsTold problem object (err e) = failure-IsTold (problem e)

  pub done-IsTold : IsTold none (marshal u o (plain_ok u o))
  unfolding Map.lookup text_eq
  done-IsTold = flag-Reads (plain_ok u o) key_ok true refl
