-- ===== src/Libcaelo/Verified.antt =====
-- core/libcaelo/libcaelo.go: the answer of caelo_verify_release.
use caelo.Base.{
  ℕ, none, some, List, ◌≡◌, refl, sym, subst, Result, ok, err, Result-cases, inl, inr, ◌⊎◌,
}
use caelo.Base.Text.{Text, text_key}
use caelo.Release.{
  Key, unreadable, verdict, trusted, untrusted, parse_trusted, verify, verify_file, Verdict,
}
use caelo.Release.Checked.{IsSigned, IsChecked, verify-IsChecked}
use caelo.Userspace.{Userspace}
use caelo.Answer.{Problem, of_json, of_keys, of_file, Outside, failure}
use caelo.Libcaelo.{State, verified, caelo_verify_release}
use caelo.Libcaelo.Reads.{Lawful, IsTold, failure-IsTold, done-IsTold}

module _ (u : Userspace) (o : Outside u) (law : Lawful u o) where
  -- The keys of the call are read, and one of them signed the file at the path.
  abbrev pub IsRelease : Text → Text → Text → State u o → Type 0
  IsRelease path signature keys s =
      (encoded : List Text) × (o.decode_keys keys ≡ ok encoded)
      × (ks : List Key) × (parse_trusted encoded ≡ ok ks)
      × (contents : List ℕ) × (o.read_file path s.world ≡ ok contents)
      × IsSigned o.ed25519 contents signature ks

  abbrev pub IsVerified : Type 0 → Text → Type 0
  IsVerified P a = (P × IsTold u o law none a) ⊎ ((e : Problem) × (¬ P) × IsTold u o law (some e) a)

  abbrev pub IsVerdict : Type 0 → Result Text Text → Type 0
  IsVerdict P (ok a) = IsVerified P a
  IsVerdict P (err panic) = ⊥

  module _ (path signature keys : Text) (s : State u o) where
    abbrev Release : Type 0
    Release = IsRelease path signature keys s

    by_answer :
        (r : Result Text Text) (a : Text) → r ≡ ok a → IsVerified Release a → IsVerdict Release r
    by_answer r a e v = subst (IsVerdict Release) (sym e) v

    -- What the call reads is determined, so there is no other release than the one it looks at.
    unsigned :
        (encoded : List Text) (ks : List Key) (contents : List ℕ)
        → o.decode_keys keys ≡ ok encoded
        → parse_trusted encoded ≡ ok ks
        → o.read_file path s.world ≡ ok contents
        → ¬ IsSigned o.ed25519 contents signature ks
        → ¬ Release
    unsigned encoded ks contents k1 k2 k3 h (encoded', j1, ks', j2, contents', j3, signed) =
        let same : encoded' ≡ encoded = cc in
        let same_keys : ks' ≡ ks = cc in
        let same_contents : contents' ≡ contents = cc in
        h (
          subst (λ c. IsSigned o.ed25519 c signature ks) same_contents
            (subst (λ l. IsSigned o.ed25519 contents' signature l) same_keys signed))

    refused-Says : (e : Problem) → ¬ Release → IsVerified Release (failure u o e)
    refused-Says e no_release = inr (e, no_release, failure-IsTold u o law e)

    verdict-Says :
        (encoded : List Text) (ks : List Key) (contents : List ℕ) (r : Result Text Verdict)
        → o.decode_keys keys ≡ ok encoded
        → parse_trusted encoded ≡ ok ks
        → o.read_file path s.world ≡ ok contents
        → IsChecked o.ed25519 contents signature ks r
        → verify o.ed25519 contents signature ks ≡ r
        → IsVerdict Release (caelo_verify_release u o path signature keys s)
    unfolding caelo_verify_release verify_file
    verdict-Says encoded ks contents (ok trusted) k1 k2 k3 h k4 =
        by_answer _ (verified u o (verdict trusted))
          (rw (caelo_verify_release, k1, k2, verify_file, k3, k4) refl)
          (inl ((encoded, k1, ks, k2, contents, k3, h), done-IsTold u o law))
    verdict-Says encoded ks contents (ok untrusted) k1 k2 k3 h k4 =
        by_answer _ (failure u o (of_file (verdict untrusted)))
          (rw (caelo_verify_release, k1, k2, verify_file, k3, k4) refl)
          (refused-Says (of_file (verdict untrusted)) (unsigned encoded ks contents k1 k2 k3 h))
    verdict-Says encoded ks contents (err panic) k1 k2 k3 h k4 = elim h [ ]

    file-Says :
        (encoded : List Text) (ks : List Key)
        → o.decode_keys keys ≡ ok encoded
        → parse_trusted encoded ≡ ok ks
        → IsVerdict Release (caelo_verify_release u o path signature keys s)
    unfolding caelo_verify_release verify_file
    file-Says encoded ks k1 k2 = elim (Result-cases (o.read_file path s.world)) [
      | inl (contents, k3) ↦
          verdict-Says encoded ks contents (verify o.ed25519 contents signature ks) k1 k2 k3
            (verify-IsChecked o.ed25519 law.total encoded ks contents signature k2) refl
      | inr (why, k3) ↦
          by_answer _ (failure u o (of_file (unreadable why)))
            (rw (caelo_verify_release, k1, k2, verify_file, k3) refl)
            (refused-Says (of_file (unreadable why))
              (λ r. let (encoded', j1, ks', j2, contents', j3, signed) = r in cc))
    ]

    keys-Says :
        (encoded : List Text)
        → o.decode_keys keys ≡ ok encoded
        → IsVerdict Release (caelo_verify_release u o path signature keys s)
    unfolding caelo_verify_release
    keys-Says encoded k1 = elim (Result-cases (parse_trusted encoded)) [
      | inl (ks, k2) ↦ file-Says encoded ks k1 k2
      | inr (e, k2) ↦
          by_answer _ (failure u o (of_keys e)) (rw (caelo_verify_release, k1, k2) refl) (
            refused-Says (of_keys e) (λ r.
              let (encoded', j1, ks', j2, contents', j3, signed) = r in
              let same : encoded' ≡ encoded = cc in cc))
    ]

    pub verify_release-Says : IsVerdict Release (caelo_verify_release u o path signature keys s)
    unfolding caelo_verify_release
    verify_release-Says = elim (Result-cases (o.decode_keys keys)) [
      | inl (encoded, k1) ↦ keys-Says encoded k1
      | inr (why, k1) ↦
          by_answer _ (failure u o (of_json why)) (rw (caelo_verify_release, k1) refl) (
            refused-Says (of_json why)
              (λ r. let (encoded', j1, ks', j2, contents', j3, signed) = r in cc))
    ]
