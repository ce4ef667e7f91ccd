-- ===== src/Config/Settings.antt =====
-- config/defaults.go: `setDefaults`, `processOpts` and `associateExportedVariables`.
use rout.Base.{
  ℕ, ◌≡◌, ◌∙◌, refl, Bool, true, false, List, [], ◌∷◌, ◌++◌, Option, none, some, Bytes,
  Bytes-discrete, lookup, text, All, if◌then◌else◌,
}
use rout.Networking.{has_prefix}

-- A default value.
pub data Value : Type 0 where
  bool : Bool → Value
  string : Bytes → Value
  strings : List Bytes → Value
  int : ℕ → Value

-- What is called of github.com/spf13/viper, whose state is of type `S`; a section that the table of
-- defaults does not have is `none`, a nil map.
pub record Viper {ℓ} (S : Type ℓ) : Type ℓ where
  pub set_default : Bytes → Option (List (Bytes × Value)) → S → S
  pub safe_write_config_as : Bytes → S → Option Bytes
  pub get_bool : Bytes → S → Bool
  pub get_string : Bytes → S → Bytes
  pub get_string_slice : Bytes → S → List Bytes

-- The map `Opt`.
abbrev pub defaults : List (Bytes × List (Bytes × Value))
defaults =
    (
      text "logger",
      (text "debug", bool true)
          ∷ (text "trace", bool false)
          ∷ (text "directory", string (text "/var/logging/Rout5"))
          ∷ (text "nocolor", bool false)
          ∷ (text "use_date_filename", bool true)
          ∷ [],
    )
    ∷ (
      text "admin",
      (text "ssh_bind", string (text "0.0.0.0:2222"))
          ∷ (text "web_bind", string (text "0.0.0.0:8080"))
          ∷ [],
    )
    ∷ (text "dhcp", (text "lease_time_seconds", int 3600) ∷ [])
    ∷ (
      text "interfaces",
      (text "wan_ifnames", strings (text "eth0" ∷ []))
          ∷ (text "lan_ifnames", strings (text "eth1" ∷ []))
          ∷ [],
    )
    ∷ (text "data", (text "directory", string (text "/rout5")) ∷ [])
    ∷ []

abbrev pub config_sections : List Bytes
config_sections = text "logger" ∷ text "http" ∷ text "interfaces" ∷ text "data" ∷ []

-- How `setDefaults` ends: it returns, or the process exits with a code.
pub data SetUp {ℓ} (S : Type ℓ) : Type ℓ where
  ready : S → SetUp S
  exits : ℕ → SetUp S

-- The exported variables that are read from the settings.
pub record Exported : Type 0 where
  pub preferred_wan : List Bytes
  pub preferred_lan : List Bytes
  pub admin_http : List Bytes
  pub admin_ssh : List Bytes
  pub data_directory : Bytes
  pub no_color : Bool
  pub debug : Bool
  pub trace : Bool

pub data Level : Type 0 where
  debug_level trace_level info_level : Level

module _ {ℓ} {S : Type ℓ} (viper : Viper S) where
  -- The loop over the sections.
  unfoldable pub set_sections : List Bytes → S → S
  set_sections [] s = s
  set_sections (def ∷ rest) s =
      set_sections rest (viper.set_default def (lookup Bytes-discrete def defaults) s)

  unfoldable pub set_defaults : Bool → S → SetUp S
  set_defaults gen_config s =
      let set = set_sections config_sections s in
      let written : SetUp S = elim (viper.safe_write_config_as (text "./config.toml") set) [
        | some e ↦ exits 1
        | none ↦ exits 0
      ] in
      if gen_config then written else ready set

  unfoldable pub process_opts : S → Exported
  process_opts s = record {
    preferred_wan = viper.get_string_slice (text "interfaces.wan_ifnames") s;
    preferred_lan = viper.get_string_slice (text "interfaces.lan_ifnames") s;
    admin_http = viper.get_string_slice (text "admin.web_bind") s;
    admin_ssh = viper.get_string_slice (text "admin.ssh_bind") s;
    data_directory = viper.get_string (text "data.directory") s;
    no_color = viper.get_bool (text "logger.nocolor") s;
    debug = viper.get_bool (text "logger.debug") s;
    trace = viper.get_bool (text "logger.trace") s;
  }

  unfoldable pub associate_exported_variables : S → Exported × Level
  associate_exported_variables s =
      let v = process_opts s in
      (v, if v.debug then debug_level else if v.trace then trace_level else info_level)

  -- The default of a section changes no list of another section.
  abbrev pub Separate : Type ℓ
  Separate =
      (section key : Bytes) (o : Option (List (Bytes × Value))) (s : S)
      → has_prefix key (section ++ text ".") ≡ false
      → viper.get_string_slice key (viper.set_default section o s) ≡ viper.get_string_slice key s

  set_sections-keeps :
      (sections : List Bytes) (key : Bytes) (s : S)
      → Separate
      → All (λ d. has_prefix key (d ++ text ".") ≡ false) sections
      → viper.get_string_slice key (set_sections sections s) ≡ viper.get_string_slice key s
  unfolding set_sections
  set_sections-keeps [] key s separate apart = refl
  set_sections-keeps (d ∷ rest) key s separate (here, apart) =
      set_sections-keeps rest key (viper.set_default d (lookup Bytes-discrete d defaults) s)
        separate apart
      ∙ separate d key (lookup Bytes-discrete d defaults) s here

  -- The defaults that the table has for the administrator's addresses are never set: `setDefaults` leaves
  -- both as they were.
  admin_without_default :
      (s : S)
      → Separate
      → ((process_opts (set_sections config_sections s)).admin_http ≡ (process_opts s).admin_http)
        × ((process_opts (set_sections config_sections s)).admin_ssh ≡ (process_opts s).admin_ssh)
  unfolding process_opts has_prefix
  admin_without_default s separate = (
    set_sections-keeps config_sections (text "admin.web_bind") s separate
        (refl, (refl, (refl, (refl, tt)))),
    set_sections-keeps config_sections (text "admin.ssh_bind") s separate
        (refl, (refl, (refl, (refl, tt)))),
  )
