-- ===== src/System/Darwin/Tests.antt =====
-- A machine that can be evaluated: its world is the destinations of its routes. Snapshot on it, and the
-- theorem at a concrete configuration.
use caelo.Base.{
  Bool, true, false, ◌||◌, some, List, [], ◌∷◌, ◌≡◌, ◌≢◌, refl, sym, ap, ◌∙◌, Result, ok, err,
  if◌then◌else◌, Bool-cases, inl, inr,
}
use caelo.Base.Int.{pos}
use caelo.Base.Text.{Text, codes, text_eq, text_eq_iff}
use caelo.System.{Config}
use caelo.System.Darwin.{
  Command, get_default, inet, mtu, add_host, add_net, delete_net, delete_host, list_services,
  get_dns, get_info, set_dns, v6_off, v6_automatic, argv, State, Mac, snapshot, apply, restore,
}
use caelo.System.Darwin.Removed.{destination, Routed, first_half, second_half}
use caelo.Base.Effect.{◌>>=◌}

abbrev routed : Text → List Text → Bool
routed d [] = false
routed d (n ∷ l) = text_eq n d || routed d l

abbrev without : Text → List Text → List Text
without d [] = []
without d (n ∷ l) = let l' = without d l in if text_eq n d then l' else n ∷ l'

-- What a delete says.
abbrev found : Bool → Result Text Text
found true = ok []
found false = err (codes "not in table")

abbrev execute : Command → List Text → Result Text Text × List Text
execute get_default w = (ok (codes "  gateway: 10.0.0.1\n  interface: en0\n"), w)
execute list_services w = (ok (codes "(1) Wi-Fi\n(Hardware Port: Wi-Fi, Device: en0)\n"), w)
execute (get_dns s) w = (ok (codes "9.9.9.9\n"), w)
execute (get_info s) w = (ok (codes "IPv6: Automatic\n"), w)
execute (inet i a) w = (ok [], a ∷ w)
execute (add_host h g) w = (ok [], h ∷ w)
execute (add_net n i) w = (ok [], n ∷ w)
execute (delete_net n i) w = (found (routed n w), without n w)
execute (delete_host h) w = (found (routed h w), without h w)
execute _ w = (ok [], w)

abbrev machine : Mac
machine = record { World = List Text; exec = execute; is_ip = λ s. true }

routed-without : (d : Text) (l : List Text) → routed d (without d l) ≡ false
routed-without d [] = refl
routed-without d (n ∷ l) = elim (Bool-cases (text_eq n d)) [
  | inl e ↦ rw e (routed-without d l)
  | inr e ↦ rw (e, e) (routed-without d l)
]

routed-without_other :
    (d n : Text) (l : List Text) → some n ≢ some d → routed d (without n l) ≡ routed d l
routed-without_other d n [] k = refl
routed-without_other d n (x ∷ l) k = elim (Bool-cases (text_eq x n)) [
  | inl e ↦ elim (Bool-cases (text_eq x d)) [
    | inl f ↦
        let one = (text_eq_iff x n).0 e in
        let two = (text_eq_iff x d).0 f in
        let same : some n ≡ some d = ap some (sym one ∙ two) in elim (k same) [ ]
    | inr f ↦ rw (e, f) (routed-without_other d n l k)
  ]
  | inr e ↦ rw e (ap (λ b. text_eq x d || b) (routed-without_other d n l k))
]

routed-cons : (d n : Text) (l : List Text) → some n ≢ some d → routed d (n ∷ l) ≡ routed d l
routed-cons d n l k = elim (Bool-cases (text_eq n d)) [
  | inl e ↦ elim (k (ap some ((text_eq_iff n d).0 e))) [ ]
  | inr e ↦ rw e refl
]

others_same :
    (c : Command) (w : List Text) (d : Text)
    → destination c ≢ some d
    → routed d (execute c w).1 ≡ routed d w
others_same (add_host h g) w d k = routed-cons d h w k
others_same (add_net n i) w d k = routed-cons d n w k
others_same (delete_net n i) w d k = routed-without_other d n w k
others_same (delete_host h) w d k = routed-without_other d h w k
others_same get_default w d k = refl
others_same (inet i a) w d k = routed-cons d a w k
others_same (mtu i n) w d k = refl
others_same list_services w d k = refl
others_same (get_dns s) w d k = refl
others_same (get_info s) w d k = refl
others_same (set_dns s l) w d k = refl
others_same (v6_off s) w d k = refl
others_same (v6_automatic s) w d k = refl

machine_routed : Routed machine
machine_routed = record {
  has_route = routed;
  others_keep = others_same;
  deletes_net = λ n i w out e. routed-without n w;
  deletes_host = λ h w out e. routed-without h w;
}

abbrev before : State
before = record {
  default_gateway = codes "10.0.0.1";
  default_interface = codes "en0";
  network_service = codes "Wi-Fi";
  previous_dns = codes "9.9.9.9" ∷ [];
  ipv6_was_enabled = true;
}

abbrev cfg : Config
cfg = record {
  interface = codes "utun4";
  address = codes "10.8.0.2";
  mtu = pos 1280;
  endpoint_host = codes "198.51.100.2";
  dns = [];
}

snapshot_read : snapshot machine [] ≡ (ok before, [])
unfolding snapshot ◌>>=◌
snapshot_read = refl

applied :
    apply machine before cfg []
    ≡ (ok tt, second_half ∷ first_half ∷ codes "198.51.100.2" ∷ codes "10.8.0.2" ∷ [])
unfolding apply ◌>>=◌
applied = refl

restored :
    (restore machine before cfg (second_half ∷ codes "192.0.2.0/24" ∷ [])).1
    ≡ codes "192.0.2.0/24" ∷ []
unfolding restore text_eq
restored = refl

words :
    argv (add_host (codes "a") (codes "b"))
    ≡ codes "route" ∷ codes "-n" ∷ codes "add" ∷ codes "-host" ∷ codes "a" ∷ codes "b" ∷ []
unfolding argv
words = refl
