-- ===== src/Subscription/Tests.antt =====
-- A small store, runs of the server on it, and each theorem at a concrete input.
use mathlib.Core.List.Perm
use caelo.Base.{
  ℕ, false, Option, none, some, List, [], ◌∷◌, ◌++◌, map, ◌≡◌, ◌≢◌, ap, arith, refl, Result, ok,
  All,
}
use caelo.Base.Int.{pos, negsuc}
use caelo.Base.Text.{Text, codes, text_eq}
use caelo.Subscription.{
  Endpoint, Time, Subscriber, Config, Store, undefined_node, short_token, no_endpoint, take_loaded,
  reload, count,
}
use caelo.Subscription.Http.{Request, state, document}
use caelo.Subscription.Serve.{plain_answer, caelo_answer, userinfo, serve}
use caelo.Subscription.State.{state_answer, route}
use caelo.Subscription.Answers.{IsFromFile, answers_agree}
use caelo.Subscription.Refused.{refused_alike}
use caelo.Subscription.Version.{version-forgets_order, version_of}
use caelo.Base.Map.{lookup}
use caelo.Base.Text.{cut_suffix}
use caelo.Base.Text.{trim_prefix}
use caelo.Subscription.Serve.{has_expired}

abbrev never : Time
never = record { unix = negsuc 62135596799; nanosecond = 0 }

abbrev noon : Time
noon = record { unix = pos 1700000000; nanosecond = 0 }

abbrev later : Time
later = record { unix = pos 1700000000; nanosecond = 1 }

abbrev token : Text
token = codes "0123456789abcdef01234567"

abbrev oslo : Endpoint
oslo = record no_endpoint { tag = codes "O" }

abbrev riga : Endpoint
riga = record no_endpoint { tag = codes "R" }

abbrev anna : Subscriber
anna = record {
  expires = noon;
  quota_bytes = pos 10;
  used_bytes = pos 7;
  nodes = codes "b" ∷ codes "a" ∷ [];
}

abbrev ben : Subscriber
ben = record anna { expires = never; nodes = codes "a" ∷ codes "b" ∷ [] }

abbrev file : Config
file = record {
  update_interval_hours = pos 12;
  subscribers = (token, anna) ∷ [];
  nodes = (codes "a", oslo) ∷ (codes "b", riga) ∷ [];
  meta = (codes "a", record { country = codes "NO"; description = []; maintenance = false }) ∷ [];
}

abbrev blank : Config
blank = record { update_interval_hours = pos 0; subscribers = []; nodes = []; meta = [] }

abbrev fresh : Store
fresh = record { path = codes "nodes.json"; loaded = blank }

abbrev serving : Store
serving = record fresh { loaded = file }

abbrev ask : Text → Request
ask path = record { method = codes "GET"; path = path; header = [] }

-- json.Marshal and sha256.Sum256 that can be evaluated.
abbrev tag_of : Endpoint → Option Text
tag_of e = some e.tag

abbrev bytes_of : Text → List ℕ
bytes_of s = s

abbrev always : Text → Result Text Text
always path = ok []

abbrev decoded : Text → Result Text Config
decoded raw = ok file

reload_takes : reload always decoded fresh ≡ (serving, none)
unfolding reload text_eq
reload_takes = refl

count_one : count serving ≡ 1
unfolding count
count_one = refl

missing_refused :
    take_loaded (record file { nodes = [] }) fresh ≡ (fresh, some (undefined_node (codes "b")))
unfolding take_loaded text_eq
missing_refused = refl

short_refused :
    take_loaded (record file { subscribers = (codes "é", anna) ∷ [] }) fresh
    ≡ (fresh, some (short_token 2))
unfolding take_loaded text_eq
short_refused = refl

userinfo_read : userinfo anna ≡ codes "upload=0; download=7; total=10; expire=1700000000"
unfolding userinfo
userinfo_read = refl

userinfo_never : userinfo ben ≡ codes "upload=0; download=7; total=10; expire=0"
unfolding userinfo
userinfo_never = refl

served :
    (serve noon serving (ask (codes "/sub/" ++ token))).body ≡ document (plain_answer file anna)
unfolding serve text_eq
served = refl

served_header :
    (serve noon serving (ask (codes "/sub/" ++ token))).header
    ≡ (codes "Cache-Control", codes "no-store")
      ∷ (codes "Subscription-Userinfo", userinfo anna)
      ∷ (codes "Profile-Update-Interval", codes "12")
      ∷ (codes "Content-Type", codes "application/json")
      ∷ []
unfolding serve text_eq
served_header = refl

expired : (serve later serving (ask (codes "/sub/" ++ token))).status ≡ 404
unfolding serve text_eq
expired = refl

stated :
    (route tag_of bytes_of noon serving (ask (codes "/sub/" ++ token ++ codes "/state"))).body
    ≡ state (codes "613a34660a623a35") (
        record { id = codes "b"; version = codes "52"; server = codes "R" }
        ∷ record { id = codes "a"; version = codes "4f"; server = codes "O" }
        ∷ [])
unfolding route text_eq
stated = refl

answers_agree_example :
    (map (λ n. n.id) (caelo_answer file anna).nodes ≡ anna.nodes)
    × All (IsFromFile file) (caelo_answer file anna).nodes
    × ((plain_answer file anna).endpoints ≡ map (λ n. n.endpoint) (caelo_answer file anna).nodes)
unfolding lookup text_eq
answers_agree_example = answers_agree file anna ((riga, refl), ((oslo, refl), tt))

refused_alike_example :
    route tag_of bytes_of later serving (ask (codes "/sub/" ++ token))
    ≡ route tag_of bytes_of noon fresh (ask (codes "/sub/" ++ token))
unfolding lookup text_eq cut_suffix trim_prefix has_expired
refused_alike_example =
    refused_alike tag_of bytes_of (ask (codes "/sub/" ++ token)) later noon serving fresh refl refl

abbrev first_rune : List Text → ℕ
first_rune ((c ∷ s) ∷ l) = c
first_rune _ = 0

other_names : anna.nodes ≢ ben.nodes
other_names h = let clash : ◌≡◌ {A = ℕ} b'b' b'a' = ap first_rune h in omega arith

version-forgets_order_example :
    (version_of (state_answer tag_of bytes_of file anna []).body
      ≡ version_of (state_answer tag_of bytes_of file ben []).body)
    × (caelo_answer file anna ≢ caelo_answer file ben)
unfolding lookup text_eq
version-forgets_order_example =
    version-forgets_order tag_of bytes_of file anna ben [] ((riga, refl), ((oslo, refl), tt))
      ((oslo, refl), ((riga, refl), tt)) (Perm.swap (codes "a") (codes "b") []) other_names
