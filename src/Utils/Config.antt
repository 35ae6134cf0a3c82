-- ===== src/Utils/Config.antt =====
-- src/utils/config.h and config.cpp: the options of a create request. The path is the one of the POSIX
-- build. `none` is an exception of nlohmann::json.
use waterproof_wrapper.Base.{
  ℕ, List, [], ◌∷◌, Option, none, some, Text, codes, text_eq, if◌then◌else◌, ◌>>=◌,
}
use waterproof_wrapper.Utils.Exceptions.{Thrown, parse_error, json_error}
use waterproof_wrapper.Json.{Json}

abbrev pub port : ℕ
port = 51613

pub record Config : Type 0 where
  pub sertop_path : Text
  pub sertop_args : List Text

abbrev pub default_config : Config
default_config = record {
  sertop_path = codes "/opt/waterproof/vendor/opam/default/bin/sertop";
  sertop_args = codes "--implicit" ∷ [];
}

-- A configuration, or what its constructor throws.
pub data Configured : Type 0 where
  configured : Config → Configured
  config_threw : Thrown → Configured

module _ (j : Json) where
  open j use {Value, parse, at, get_text, get_texts}

  -- `path` and `args` of the options; an empty path leaves the default.
  abbrev pub from_options : Value → Option Config
  from_options v = do
    path ← at v (codes "path")
    entered_path ← get_text path
    args ← at v (codes "args")
    sertop_args ← get_texts args
    some (record {
      sertop_path = if text_eq entered_path [] then default_config.sertop_path else entered_path;
      sertop_args = sertop_args;
    })

  abbrev pub or_thrown : Option Config → Configured
  or_thrown none = config_threw json_error
  or_thrown (some c) = configured c

  abbrev pub parsed_options : Option Value → Configured
  parsed_options none = config_threw parse_error
  parsed_options (some v) = or_thrown (from_options v)

  unfoldable pub config : Text → Configured
  config raw_create_options =
      if text_eq raw_create_options []
      then configured default_config
      else parsed_options (parse raw_create_options)
