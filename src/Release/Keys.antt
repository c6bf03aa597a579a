-- ===== src/Release/Keys.antt =====
-- core/internal/release/verify.go: what ParseTrusted makes of its texts.
use mathlib.Core.List.{append_assoc, append-nil}
use caelo.Base.{
  some, List, [], ◌∷◌, ◌++◌, ◌≡◌, refl, sym, ap, subst, ◌∙◌, ◌↔◌, ◌<◌, inl, inr, Result, ok, err,
  ◌==◌, ==_iff, length, arith, Bool-cases, Option-cases, Result-cases,
}
use caelo.Base.Text.{Text}
use caelo.Base.Codec.{base64_decode}
use caelo.Release.{
  Key, KeysError, public_key_size, read_key, read_keys, refuse_empty, parse_trusted,
}

-- The bytes that a text stands for, 32 of them.
abbrev pub IsKeyOf : Text → Key → Type 0
IsKeyOf value key = (base64_decode value ≡ some key) × (length key ≡ public_key_size)

-- The texts stand for these keys, in their order.
abbrev pub Encodes : List Text → List Key → Type 0
Encodes [] [] = Unit {0}
Encodes (value ∷ values) (key ∷ keys) = IsKeyOf value key × Encodes values keys
Encodes _ _ = ⊥

read_key_iff : (value : Text) (key : Key) → (read_key value ≡ ok key) ↔ IsKeyOf value key
unfolding read_key
read_key_iff value key = elim (Option-cases (base64_decode value)) [
  | inl h ↦ rw (read_key, h) (λ k. cc, λ k. cc)
  | inr (raw, h) ↦ elim (Bool-cases (length raw == public_key_size)) [
    | inl s ↦
        rw (read_key, h, s)
          (
            λ k.
                let e : raw ≡ key = cc in
                (cc, ap length (sym e) ∙ (==_iff (length raw) public_key_size).0 s),
            λ k. cc,
          )
    | inr s ↦
        rw (read_key, h, s)
          (
            λ k. cc,
            λ k.
                let e : raw ≡ key = cc in
                let size = (==_iff (length raw) public_key_size).1 (ap length e ∙ k.1) in cc,
          )
  ]
]

read_keys_sound :
    (done : List Key) (values : List Text) (out : List Key)
    → read_keys done values ≡ ok out
    → (keys : List Key) × Encodes values keys × (out ≡ done ++ keys)
unfolding read_keys
read_keys_sound done [] out h = let e : done ≡ out = cc in ([], tt, sym e ∙ sym (append-nil done))
read_keys_sound done (value ∷ values) out h = elim (Result-cases (read_key value)) [
  | inl (raw, k) ↦
      let (keys, encodes, e) =
        read_keys_sound (done ++ raw ∷ []) values out (rw (read_keys, k) at h) in
      (raw ∷ keys, ((read_key_iff value raw).0 k, encodes), e ∙ append_assoc done (raw ∷ []) keys)
  | inr (e, k) ↦
      let bad : ◌≡◌ {A = Result KeysError (List Key)} (err e) (ok out) = rw (read_keys, k) at h in
      cc
]

read_keys_complete :
    (done : List Key) (values : List Text) (keys : List Key)
    → Encodes values keys
    → read_keys done values ≡ ok (done ++ keys)
unfolding read_keys
read_keys_complete done [] [] h = ap ok (sym (append-nil done))
read_keys_complete done [] (key ∷ keys) h = elim h [ ]
read_keys_complete done (value ∷ values) [] h = elim h [ ]
read_keys_complete done (value ∷ values) (key ∷ keys) h =
    rw (read_keys, (read_key_iff value key).1 h.0)
      (read_keys_complete (done ++ key ∷ []) values keys h.1
        ∙ ap ok (append_assoc done (key ∷ []) keys))

refuse_empty-ok :
    (out keys : List Key) → refuse_empty out ≡ ok keys → (out ≡ keys) × (0 < length keys)
unfolding refuse_empty
refuse_empty-ok [] keys h = cc
refuse_empty-ok (key ∷ out) keys h =
    let e : key ∷ out ≡ keys = cc in (e, subst (λ l. 0 < length l) e (omega arith))

-- ParseTrusted gives a set of keys exactly when the set is not empty and the texts stand for these
-- keys in their order: base64 of 32 bytes each.
pub parse_trusted_iff :
    (encoded : List Text) (keys : List Key)
    → (parse_trusted encoded ≡ ok keys) ↔ (Encodes encoded keys × (0 < length keys))
unfolding parse_trusted refuse_empty
parse_trusted_iff encoded keys = (sound, complete keys)
  where
    sound : parse_trusted encoded ≡ ok keys → Encodes encoded keys × (0 < length keys)
    sound h = elim (Result-cases (read_keys [] encoded)) [
      | inl (out, k) ↦
          let (same, some_key) = refuse_empty-ok out keys (rw (parse_trusted, k) at h) in
          let (read, encodes, e) = read_keys_sound [] encoded out k in
          (subst (Encodes encoded) (sym e ∙ same) encodes, some_key)
      | inr (e, k) ↦
          let bad : ◌≡◌ {A = Result KeysError (List Key)} (err e) (ok keys) =
            rw (parse_trusted, k) at h in
          cc
    ]

    complete :
        (keys : List Key)
        → Encodes encoded keys × (0 < length keys)
        → parse_trusted encoded ≡ ok keys
    complete [] h = let none_left : ⊥ = omega (arith, h.1) in elim none_left [ ]
    complete (key ∷ keys) h =
        rw (parse_trusted, read_keys_complete [] encoded (key ∷ keys) h.0) refl
