-- ===== src/Release/Checked.antt =====
-- core/internal/release/verify.go: when a file is trusted.
use caelo.Base.{
  ℕ, Bool, true, false, not, none, some, List, [], ◌∷◌, ◌≡◌, refl, sym, ap, subst, ◌∙◌, ◌↔◌, ◌⊎◌,
  inl, inr, if◌then◌else◌, Result, ok, err, ◌==◌, ==_iff, length, All, Bool-cases, Option-cases,
}
use caelo.Base.Text.{Text}
use caelo.Base.Codec.{base64_decode}
use caelo.Release.{
  Key, public_key_size, signature_size, parse_trusted, Verdict, trusted, untrusted, Ed25519,
  try_keys, check_keys, verify,
}
use caelo.Release.Keys.{Encodes, parse_trusted_iff}

abbrev HasSize : Key → Type 0
HasSize key = length key ≡ public_key_size

encoded_sizes : (encoded : List Text) (keys : List Key) → Encodes encoded keys → All HasSize keys
encoded_sizes [] [] h = tt
encoded_sizes [] (key ∷ keys) h = elim h [ ]
encoded_sizes (value ∷ values) [] h = elim h [ ]
encoded_sizes (value ∷ values) (key ∷ keys) h = (h.0.1, encoded_sizes values keys h.1)

module _ (e : Ed25519) where
  -- ed25519.Verify panics only on a key of another size.
  abbrev pub IsTotal : Type 0
  IsTotal =
      (key : Key) (message raw : List ℕ)
      → length key ≡ public_key_size
      → (b : Bool) × (e.accepts key message raw ≡ ok b)

  -- Some key of the list accepts.
  abbrev pub Accepted : List ℕ → List ℕ → List Key → Type 0
  Accepted message raw [] = ⊥
  Accepted message raw (key ∷ keys) =
      (e.accepts key message raw ≡ ok true) ⊎ Accepted message raw keys

  -- The text is base64 of a signature of 64 bytes that some key accepts.
  abbrev pub IsSigned : List ℕ → Text → List Key → Type 0
  IsSigned message signature keys =
      (raw : List ℕ) × (base64_decode signature ≡ some raw)
      × (length raw ≡ signature_size)
      × Accepted message raw keys

  -- Trusted, and signed; or untrusted, and not signed. Not a panic.
  abbrev pub IsChecked : List ℕ → Text → List Key → Result Text Verdict → Type 0
  IsChecked message signature keys (ok trusted) = IsSigned message signature keys
  IsChecked message signature keys (ok untrusted) = ¬ IsSigned message signature keys
  IsChecked message signature keys (err panic) = ⊥

  module _ (total : IsTotal) (message raw : List ℕ) where
    -- One more key on the list, by what it answers.
    one_more :
        (b accepted out : Bool) (key : Key) (keys : List Key)
        → e.accepts key message raw ≡ ok b
        → (out ≡ true) ↔ (((if b then true else accepted) ≡ true) ⊎ Accepted message raw keys)
        → (out ≡ true) ↔ ((accepted ≡ true) ⊎ Accepted message raw (key ∷ keys))
    one_more true accepted out key keys k i = (λ _. inr (inl k), λ _. i.1 (inl refl))
    one_more false accepted out key keys k i = (
      λ h. elim (i.0 h) [ inl a ↦ inl a | inr a ↦ inr (inr a) ],
      λ h. elim h [
        | inl a ↦ i.1 (inl a)
        | inr a ↦ elim a [ inl c ↦ let clash : true ≡ false = cc in cc | inr c ↦ i.1 (inr c) ]
      ],
    )

    try_keys-ok :
        (accepted : Bool) (keys : List Key)
        → All HasSize keys
        → (out : Bool) × (try_keys e message raw accepted keys ≡ ok out)
          × ((out ≡ true) ↔ ((accepted ≡ true) ⊎ Accepted message raw keys))
    unfolding try_keys
    try_keys-ok accepted [] h =
        (accepted, refl, (λ k. inl k, λ k. elim k [ inl a ↦ a | inr a ↦ elim a [ ] ]))
    try_keys-ok accepted (key ∷ keys) h =
        let (b, k) = total key message raw h.0 in
        let (out, tried, i) = try_keys-ok (if b then true else accepted) keys h.1 in
        (out, rw (try_keys, k) tried, one_more b accepted out key keys k i)

  -- The verdict of the loop.
  verdict_of :
      (total : IsTotal) (message raw : List ℕ) (signature : Text) (keys : List Key)
      → base64_decode signature ≡ some raw
      → length raw ≡ signature_size
      → All HasSize keys
      → IsChecked message signature keys (check_keys e message raw keys)
  unfolding check_keys
  verdict_of total message raw signature keys k size h =
      let (out, tried, i) = try_keys-ok total message raw false keys h in
      rw (check_keys, tried) (by_out out i)
    where
      by_out :
          (out : Bool)
          → (out ≡ true) ↔ ((false ≡ true) ⊎ Accepted message raw keys)
          → IsChecked message signature keys (ok (if not out then untrusted else trusted))
      by_out true i =
          (raw, k, size, elim (i.0 refl) [ inl a ↦ let clash : false ≡ true = a in cc | inr a ↦ a ])
      by_out false i = λ s.
          let same : s.0 ≡ raw = cc in
          let clash = i.1 (inr (subst (λ x. Accepted message x keys) same s.3)) in cc

  -- With keys that ParseTrusted gave, Verify does not panic, and it trusts a message exactly when
  -- the signature is base64 of 64 bytes that one of the keys accepts, ed25519.Verify being total on
  -- keys of 32 bytes.
  pub verify-IsChecked :
      (total : IsTotal) (encoded : List Text) (keys : List Key) (message : List ℕ)
      (signature : Text)
      → parse_trusted encoded ≡ ok keys
      → IsChecked message signature keys (verify e message signature keys)
  unfolding verify
  verify-IsChecked total encoded keys message signature h =
      elim (Option-cases (base64_decode signature)) [
        | inl k ↦ rw (verify, k) (λ s. let clash : none ≡ some s.0 = sym k ∙ s.1 in cc)
        | inr (raw, k) ↦ elim (Bool-cases (length raw == signature_size)) [
          | inl z ↦
              rw (verify, k, z)
                (verdict_of total message raw signature keys k
                  ((==_iff (length raw) signature_size).0 z)
                  (encoded_sizes encoded keys ((parse_trusted_iff encoded keys).0 h).0))
          | inr z ↦
              rw (verify, k, z)
                (λ s.
                  let same : s.0 ≡ raw = cc in
                  let size = (==_iff (length raw) signature_size).1 (ap length (sym same) ∙ s.2) in
                  cc)
        ]
      ]
