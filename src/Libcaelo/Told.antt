-- ===== src/Libcaelo/Told.antt =====
-- core/libcaelo/libcaelo.go: what the application reads in an answer.
use caelo.Base.{
  true, false, not, none, some, [], ◌∷◌, refl, ap, Result, ok, err, Result-cases, inl, inr,
}
use caelo.Base.Int.{ℤ, is_zero}
use caelo.Base.Map
use caelo.Base.Text.{Text, codes, text_eq, text_key}
use caelo.Diag as Diag
use caelo.Diag.{Ring}
use caelo.Probe as Probe
use caelo.Tunnel as Tunnel
use caelo.Userspace.{Userspace}
use caelo.Answer.{
  flag, text, texts, Object, of_tunnel, of_probe, of_conf, Outside, amneziawg, info_object,
  reachability_object, found_object,
}
use caelo.Libcaelo.{
  milliseconds, State, options, probe, description, caelo_connect, caelo_version, caelo_check,
  caelo_probe, caelo_measure_latency, caelo_disconnect, caelo_status, caelo_describe, caelo_log,
  caelo_set_verbose, caelo_clear_log, Call, version_of, connect, check, probe_one, measure_one,
  disconnect, status, describe, read_log, set_verbose, clear_log, verify_release, call,
}
use caelo.Libcaelo.Reads.{
  Lawful, Reads, IsTold, refused, failure-IsTold, flag-Reads, text-Reads, answer-IsTold,
  done-IsTold, key_ok,
}
use caelo.Libcaelo.Verified.{IsRelease, IsVerified, verify_release-Says}

module _ (u : Userspace) (o : Outside u) (law : Lawful u o) where
  -- What an answer says of its call, made in the state.
  abbrev pub Says : Call u o → State u o → Text → Type 0
  Says version_of s a =
      Reads u o law a (codes "core") (text o.version)
      × Reads u o law a (codes "amneziawg") (text (amneziawg o.build_info))
  Says (connect conf) s a =
      IsTold u o law
        (refused u o law of_tunnel (Tunnel.connect u o.read_conf conf s.session s.world).0) a
  Says (check url timeout) s a =
      IsTold u o law
        (refused u o law of_tunnel (Tunnel.check u s.session url (milliseconds timeout) s.world).0)
        a
  Says (probe_one conf url timeout) s a =
      IsTold u o law
        (refused u o law of_probe
          (Probe.run u o.time_exit o.round_trip o.read_conf conf
            (options u o url timeout false s.world) s.world).0)
        a
  Says (measure_one conf url timeout) s a =
      IsTold u o law
        (refused u o law of_probe
          (Probe.run u o.time_exit o.round_trip o.read_conf conf
            (options u o url timeout true s.world) s.world).0)
        a
  Says disconnect s a = IsTold u o law none a
  Says status s a =
      IsTold u o law none a
      × Reads u o law a (codes "up") (flag (Tunnel.up u s.session).0)
      × Reads u o law a (codes "endpoint") (text (Tunnel.up u s.session).1)
  Says (describe conf) s a = IsTold u o law (refused u o law of_conf (o.read_conf conf)) a
  Says read_log s a =
      IsTold u o law none a
      × Reads u o law a (codes "verbose") (flag (Diag.verbose (u.log s.world)))
  Says (set_verbose on) s a =
      IsTold u o law none a × Reads u o law a (codes "verbose") (flag (not (is_zero on)))
  Says clear_log s a = IsTold u o law none a
  Says (verify_release path signature keys) s a =
      IsVerified u o law (IsRelease u o law path signature keys s) a

  -- An answer, and no panic.
  abbrev pub IsAnswer : Call u o → State u o → Result Text Text → Type 0
  IsAnswer c s (ok a) = Says c s a
  IsAnswer c s (err panic) = ⊥

  version-Says : (s : State u o) → Says version_of s (caelo_version u o)
  unfolding caelo_version Map.lookup text_eq
  version-Says s =
      let v : Object =
        (codes "core", text o.version) ∷ (codes "amneziawg", text (amneziawg o.build_info)) ∷ [] in
      (
        text-Reads u o law v (codes "core") o.version refl,
        text-Reads u o law v (codes "amneziawg") (amneziawg o.build_info) refl,
      )

  status-Says : (s : State u o) → Says status s (caelo_status u o s)
  unfolding caelo_status Map.lookup text_eq
  status-Says s =
      let v : Object =
        (key_ok u o law, flag true)
        ∷ (codes "up", flag (Tunnel.up u s.session).0)
        ∷ (codes "endpoint", text (Tunnel.up u s.session).1)
        ∷ [] in
      (
        flag-Reads u o law v (key_ok u o law) true refl,
        flag-Reads u o law v (codes "up") (Tunnel.up u s.session).0 refl,
        text-Reads u o law v (codes "endpoint") (Tunnel.up u s.session).1 refl,
      )

  describe-Says : (conf : Text) (s : State u o) → Says (describe conf) s (caelo_describe u o conf)
  unfolding caelo_describe description Map.lookup text_eq
  describe-Says conf s = elim (Result-cases (o.read_conf conf)) [
    | inl (cfg, k) ↦
        rw (caelo_describe, k) (flag-Reads u o law (description u o cfg) (key_ok u o law) true refl)
    | inr (e, k) ↦ rw (caelo_describe, k) (failure-IsTold u o law (of_conf e))
  ]

  log-Says : (s : State u o) → Says read_log s (caelo_log u o s)
  unfolding caelo_log Map.lookup text_eq
  log-Says s =
      let v : Object =
        (key_ok u o law, flag true)
        ∷ (codes "verbose", flag (Diag.verbose (u.log s.world)))
        ∷ (codes "lines", texts (Diag.lines (u.log s.world)))
        ∷ [] in
      (
        flag-Reads u o law v (key_ok u o law) true refl,
        flag-Reads u o law v (codes "verbose") (Diag.verbose (u.log s.world)) refl,
      )

  set_verbose-Says :
      (on : ℤ) (s : State u o) → Says (set_verbose on) s (caelo_set_verbose u o on s).0
  unfolding caelo_set_verbose Map.lookup text_eq Diag.set_verbose
  set_verbose-Says on s =
      let b = not (is_zero on) in
      let w' = (caelo_set_verbose u o on s).1.world in
      let v : Object =
        (key_ok u o law, flag true) ∷ (codes "verbose", flag (Diag.verbose (u.log w'))) ∷ [] in
      (
        flag-Reads u o law v (key_ok u o law) true refl,
        flag-Reads u o law v (codes "verbose") b
            (ap (λ (r : Ring). some (flag r.verbose)) (law.log_with _ s.world)),
      )

  -- Every call returns a text that decodes to an object, and none panics. Its "ok" is true where the
  -- operation behind it succeeded, and else false, with the error's text at "error"; that of
  -- caelo_verify_release is true exactly where one of the keys signed the file. caelo_version says
  -- the two versions instead; caelo_status also says whether a tunnel is up and to which endpoint,
  -- and the calls on the log whether it is verbose.
  pub call-IsAnswer : (c : Call u o) (s : State u o) → IsAnswer c s (call u o c s).0
  unfolding call caelo_connect caelo_check caelo_probe caelo_measure_latency caelo_disconnect
      caelo_clear_log probe
  call-IsAnswer version_of s = version-Says s
  call-IsAnswer (connect conf) s = answer-IsTold u o law of_tunnel info_object _
  call-IsAnswer (check url timeout) s = answer-IsTold u o law of_tunnel reachability_object _
  call-IsAnswer (probe_one conf url timeout) s = answer-IsTold u o law of_probe found_object _
  call-IsAnswer (measure_one conf url timeout) s = answer-IsTold u o law of_probe found_object _
  call-IsAnswer disconnect s = done-IsTold u o law
  call-IsAnswer status s = status-Says s
  call-IsAnswer (describe conf) s = describe-Says conf s
  call-IsAnswer read_log s = log-Says s
  call-IsAnswer (set_verbose on) s = set_verbose-Says on s
  call-IsAnswer clear_log s = done-IsTold u o law
  call-IsAnswer (verify_release path signature keys) s =
      verify_release-Says u o law path signature keys s
