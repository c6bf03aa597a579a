-- ===== src/Awg/Lines.antt =====
-- `Config.IPC` writes one line for each setting of a configuration that came from a `.conf`, and
-- the same text for every map with the same entries.
use caelo.Base.{
  ◌≡◌, refl, ap, subst, ◌∙◌, Bool, true, false, not, Option, none, some, List, [], ◌∷◌, ◌++◌, map,
  arith, ◌==◌, if◌then◌else◌, if-both, ok, All, All-append,
}
use caelo.Base.Int.{is_positive, itoa}
use caelo.Base.Map
use caelo.Base.Text.{
  Text, codes, is_empty, text_eq, text_key, trim_space, to_lower, split, cons_to_head,
}
use caelo.Awg.{Config, obfuscation_keys, is_one_of}
use caelo.Awg.Conf.{Netip, parse_config}
use caelo.Awg.Uapi.{
  uapi_value, uapi_name, on_words, off_words, flag_keys, uapi_flag, write_if, setting_if,
  obfuscation_settings, settings, render, ipc,
}
use caelo.Awg.Clean.{NotEnd, Clean, itoa-Clean}
use caelo.Awg.Parsed.{IsClean, OnOk, parse_config-Clean}

-- name=value
abbrev pub line_of : Text × Text → Text
line_of e = e.0 ++ b'=' ∷ e.1

abbrev pub CleanSetting : Text × Text → Type 0
CleanSetting e = Clean e.0 × Clean e.1

pub split-line : (a s : Text) → Clean a → split 10 (a ++ 10 ∷ s) ≡ a ∷ split 10 s
unfolding split
split-line [] s h = refl
split-line (d ∷ a) s h =
    let other : (d == 10) ≡ false = ground arith in
    rw other (ap (cons_to_head d) (split-line a s h.1))

split-render :
    (l : List (Text × Text)) → All CleanSetting l → split 10 (render l) ≡ map line_of l ++ [] ∷ []
unfolding render
split-render [] h = unfold split in refl
split-render (e ∷ l) h =
    split-line (line_of e) (render l) (All-append NotEnd e.0 _ h.0.0 (omega arith, h.0.1))
    ∙ ap (λ (m : List Text). line_of e ∷ m) (split-render l h.1)

setting_if-Clean :
    (b : Bool) (name value : Text) (more : List (Text × Text))
    → CleanSetting (name, value)
    → All CleanSetting more
    → All CleanSetting (setting_if b name value more)
setting_if-Clean true name value more h k = (h, k)
setting_if-Clean false name value more h k = k

if-Clean : (b : Bool) (x y : Text) → Clean x → Clean y → Clean (if b then x else y)
if-Clean true x y h k = h
if-Clean false x y h k = k

uapi_flag-Clean : (flag value : Text) → Clean value → Clean (uapi_flag flag value)
unfolding uapi_flag
uapi_flag-Clean flag value h =
    let off = if-Clean (is_one_of flag off_words) (codes "false") value (omega arith) h in
    if-Clean (is_one_of flag on_words) (codes "true")
      (if is_one_of flag off_words then codes "false" else value) (omega arith) off

uapi_value-Clean : (key value : Text) → Clean value → Clean (uapi_value key value)
unfolding uapi_value
uapi_value-Clean key value h =
    if-Clean (not (is_one_of key flag_keys)) value (uapi_flag (to_lower (trim_space value)) value) h
      (uapi_flag-Clean (to_lower (trim_space value)) value h)

-- A value that may be missing.
abbrev CleanIf : Option Text → Type 0
CleanIf none = Unit {0}
CleanIf (some v) = Clean v

lookup-Clean :
    (k : Text) (m : List (Text × Text))
    → All (λ (e : Text × Text). Clean e.1) m
    → CleanIf (Map.lookup k m)
unfolding Map.lookup
lookup-Clean k [] h = tt
lookup-Clean k ((j, w) ∷ m) h = if-both CleanIf (text_eq j k) (λ _. h.0) (λ _. lookup-Clean k m h.1)

names-Clean : All (λ key. Clean (uapi_name key)) obfuscation_keys
unfolding uapi_name Map.lookup text_eq
names-Clean = omega arith

write_if-Clean :
    (key : Text) (o : Option Text) (more : List (Text × Text))
    → Clean (uapi_name key)
    → CleanIf o
    → All CleanSetting more
    → All CleanSetting (write_if key o more)
unfolding write_if
write_if-Clean key none more a b h = h
write_if-Clean key (some value) more a b h = ((a, uapi_value-Clean key value b), h)

obfuscation_settings-Clean :
    {A : Type 0} (c : Config A) (keys : List Text)
    → IsClean c
    → All (λ key. Clean (uapi_name key)) keys
    → All CleanSetting (obfuscation_settings c keys)
unfolding obfuscation_settings
obfuscation_settings-Clean c [] v h = tt
obfuscation_settings-Clean c (key ∷ keys) v h =
    write_if-Clean key (Map.lookup key c.obfuscation) _ h.0
      (lookup-Clean key c.obfuscation v.obfuscation) (obfuscation_settings-Clean c keys v h.1)

allowed-Clean :
    (l : List Text)
    → All Clean l
    → All CleanSetting (map (λ allowed. (codes "allowed_ip", allowed)) l)
allowed-Clean [] h = tt
allowed-Clean (a ∷ l) h = ((omega arith, h.0), allowed-Clean l h.1)

settings-Clean : {A : Type 0} (c : Config A) → IsClean c → All CleanSetting (settings c)
unfolding settings
settings-Clean c v =
    let p = c.peer in
    (
      (omega arith, v.private_key),
      All-append CleanSetting _ _ (obfuscation_settings-Clean c obfuscation_keys v names-Clean) (
        (omega arith, v.public_key),
        setting_if-Clean (not (is_empty p.preshared_key)) (codes "preshared_key") p.preshared_key _
            (omega arith, v.preshared_key)
            (setting_if-Clean (not (is_empty p.endpoint)) (codes "endpoint") p.endpoint _
              (omega arith, v.endpoint)
              (All-append CleanSetting _ _ (allowed-Clean p.allowed_ips v.allowed_ips) (
                setting_if-Clean (is_positive p.keepalive) (codes "persistent_keepalive_interval")
                  (itoa p.keepalive) [] (omega arith, itoa-Clean p.keepalive) tt))),
      ),
    )

pub clean-lines :
    {A : Type 0} (c : Config A) → IsClean c → split 10 (ipc c) ≡ map line_of (settings c) ++ [] ∷ []
unfolding ipc
clean-lines c v = split-render (settings c) (settings-Clean c v)

-- Whatever a `.conf` holds, the text that IPC makes of it, split into lines, is exactly one line
-- `name=value` for each setting, in their order, and the empty rest: no value of a file can begin
-- a line of its own and so pass for a setting.
pub ipc-lines :
    (n : Netip) (text : Text) (c : Config n.Addr)
    → parse_config n text ≡ ok c
    → split 10 (ipc c) ≡ map line_of (settings c) ++ [] ∷ []
ipc-lines n text c e = clean-lines c (subst (OnOk IsClean) e (parse_config-Clean n text))

obfuscation_settings-lookup :
    {A : Type 0} (c d : Config A) (keys : List Text)
    → ((key : Text) → Map.lookup key c.obfuscation ≡ Map.lookup key d.obfuscation)
    → obfuscation_settings c keys ≡ obfuscation_settings d keys
unfolding obfuscation_settings
obfuscation_settings-lookup c d [] h = refl
obfuscation_settings-lookup c d (key ∷ keys) h =
    ap (λ o. write_if key o (obfuscation_settings c keys)) (h key)
    ∙ ap (write_if key (Map.lookup key d.obfuscation)) (obfuscation_settings-lookup c d keys h)

-- Two configurations with the same key and peer, whose obfuscation maps answer every lookup alike,
-- render to the same text, in whatever order their parameters were set.
pub ipc_reproducible :
    {A : Type 0} (c d : Config A)
    → c.private_key ≡ d.private_key
    → c.peer ≡ d.peer
    → ((key : Text) → Map.lookup key c.obfuscation ≡ Map.lookup key d.obfuscation)
    → ipc c ≡ ipc d
unfolding ipc settings
ipc_reproducible c d k p h =
    let e = obfuscation_settings-lookup c d obfuscation_keys h in rw (k, p, e)
