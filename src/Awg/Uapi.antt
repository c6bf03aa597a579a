-- ===== src/Awg/Uapi.antt =====
-- core/internal/awg/config.go: `Config.IPC`, the UAPI form that the device takes.
use caelo.Base.{Bool, not, Option, none, some, List, [], ◌∷◌, ◌++◌, map, if◌then◌else◌}
use caelo.Base.Int.{is_positive, itoa}
use caelo.Base.Map
use caelo.Base.Text.{Text, codes, is_empty, text_key, trim_space, to_lower}
use caelo.Awg.{Config, uapi_names, obfuscation_keys, is_one_of}

abbrev pub on_words : List Text
on_words = codes "on" ∷ codes "true" ∷ codes "1" ∷ codes "yes" ∷ []

abbrev pub off_words : List Text
off_words = codes "off" ∷ codes "false" ∷ codes "0" ∷ codes "no" ∷ []

-- The switch of uapiValue, on the value trimmed and in lower case.
unfoldable pub uapi_flag : Text → Text → Text
unfolding is_one_of
uapi_flag flag value =
    if is_one_of flag on_words
    then codes "true"
    else if is_one_of flag off_words
    then codes "false"
    else value

abbrev pub flag_keys : List Text
flag_keys = codes "randomtrailers" ∷ codes "disablecookies" ∷ []

-- uapiValue
unfoldable pub uapi_value : Text → Text → Text
unfolding uapi_flag is_one_of
uapi_value key value =
    if not (is_one_of key flag_keys) then value else uapi_flag (to_lower (trim_space value)) value

-- The device's name for a parameter.
unfoldable pub uapi_name : Text → Text
uapi_name key = elim (Map.lookup key uapi_names) [ none ↦ key | some name ↦ name ]

-- The settings that IPC writes, in its order, each a name and a value.
abbrev pub setting_if : Bool → Text → Text → List (Text × Text) → List (Text × Text)
setting_if b name value more = if b then (name, value) ∷ more else more

-- if value, ok := c.Obfuscation[key]; ok
unfoldable pub write_if : Text → Option Text → List (Text × Text) → List (Text × Text)
unfolding uapi_value uapi_name
write_if key none more = more
write_if key (some value) more = (uapi_name key, uapi_value key value) ∷ more

unfoldable pub obfuscation_settings : {A : Type 0} → Config A → List Text → List (Text × Text)
unfolding write_if
obfuscation_settings c [] = []
obfuscation_settings c (key ∷ keys) =
    write_if key (Map.lookup key c.obfuscation) (obfuscation_settings c keys)

unfoldable pub settings : {A : Type 0} → Config A → List (Text × Text)
unfolding obfuscation_settings itoa
settings c =
    let p = c.peer in
    (codes "private_key", c.private_key)
    ∷ (obfuscation_settings c obfuscation_keys
        ++ (codes "public_key", p.public_key)
          ∷ setting_if (not (is_empty p.preshared_key)) (codes "preshared_key") p.preshared_key (
              setting_if (not (is_empty p.endpoint)) (codes "endpoint") p.endpoint (
                map (λ allowed. (codes "allowed_ip", allowed)) p.allowed_ips
                ++ setting_if (is_positive p.keepalive) (codes "persistent_keepalive_interval")
                    (itoa p.keepalive) [])))

-- fmt.Fprintf(&b, "%s=%s\n", name, value), for each setting.
unfoldable pub render : List (Text × Text) → Text
render [] = []
render ((name, value) ∷ more) = name ++ b'=' ∷ value ++ 10 ∷ render more

-- Config.IPC
unfoldable pub ipc : {A : Type 0} → Config A → Text
unfolding settings render
ipc c = render (settings c)
