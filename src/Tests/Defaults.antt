-- ===== src/Tests/Defaults.antt =====
-- The configuration without a file.
use patchbin.Base.{none, [], ◌∷◌, codes, ok, err, Error, ◌≡◌, refl}
use patchbin.Base.Number.{pos}
use patchbin.Base.Space.{trim_space}
use patchbin.Keys.{Keyring, get_authorized_keys}
use patchbin.Config.{GitCfg, new_git_cfg}

abbrev nothing_loaded : GitCfg
nothing_loaded = record {
  data_dir = [];
  url = codes "host";
  host = [];
  ssh_port = codes "22";
  web_port = [];
  prom_port = [];
  admins_str = [];
  admins = [];
  theme = [];
  time_format = [];
  desc = [];
  rate_limit_count = pos 0;
  rate_limit_interval = [];
  max_stdin_bytes = pos 0;
}

abbrev no_keys : Keyring
no_keys = record { parse_authorized_key = λ s. none; admins = [] }

defaults_are_filled :
    new_git_cfg no_keys ok nothing_loaded
    ≡ ok (record nothing_loaded {
      data_dir = codes "./data";
      host = codes "0.0.0.0";
      web_port = codes "3000";
      theme = codes "dracula";
      time_format = codes "2006-01-02T15:04:05Z07:00";
      rate_limit_count = pos 10;
      rate_limit_interval = codes "1m";
      max_stdin_bytes = pos 5_242_880;
    })
unfolding new_git_cfg
defaults_are_filled = refl

-- A comment among the keys is passed over, a key that is not parsed is not.
bad_key_is_a_panic :
    new_git_cfg no_keys ok (record nothing_loaded { admins_str = codes "# me" ∷ codes "key" ∷ [] })
    ≡ err Error.panic
unfolding new_git_cfg get_authorized_keys trim_space
bad_key_is_a_panic = refl
