-- ===== src/Config.antt =====
-- cfg.go: the configuration that koanf has loaded, with its defaults filled in. `filepath.Abs` is an
-- argument.
pub mod Filled
use patchbin.Base.{
  ℕ, zero, ◌*◌, Str, Bool, true, false, List, [], ◌∷◌, codes, Result, ok, err, Error, ◌>>=◌,
  trim_prefix,
}
use patchbin.Base.Number.{ℤ, pos}
use patchbin.Keys.{Keyring, get_authorized_keys}

-- The keys of the administrators as they are written, and as they are parsed.
pub record GitCfg : Type 0 where
  pub data_dir : Str
  pub url : Str
  pub host : Str
  pub ssh_port : Str
  pub web_port : Str
  pub prom_port : Str
  pub admins_str : List Str
  pub admins : List Str
  pub theme : Str
  pub time_format : Str
  pub desc : Str
  pub rate_limit_count : ℤ
  pub rate_limit_interval : Str
  pub max_stdin_bytes : ℤ

abbrev pub or_text : Str → Str → Str
or_text [] default = default
or_text (c ∷ s) default = c ∷ s

abbrev pub or_number : ℤ → ℕ → ℤ
or_number (pos zero) default = pos default
or_number n default = n

-- A key that is not parsed is a panic; without any administrator nothing is parsed.
abbrev pub parsed_admins : List Str × Bool → Result (List Str)
parsed_admins (keys, true) = ok keys
parsed_admins (keys, false) = err Error.panic

abbrev pub admins_of : Keyring → GitCfg → List Str → Result (List Str)
admins_of keyring cfg [] = ok cfg.admins
admins_of keyring cfg (key ∷ keys) = parsed_admins (get_authorized_keys keyring (key ∷ keys))

abbrev pub path_or_panic : Result Str → Result Str
path_or_panic (ok path) = ok path
path_or_panic (err e) = err Error.panic

-- `loaded` is what the configuration file and the environment say.
unfoldable pub new_git_cfg : Keyring → (Str → Result Str) → GitCfg → Result GitCfg
new_git_cfg keyring abs loaded = do
  admins ← admins_of keyring loaded loaded.admins_str
  path ← path_or_panic (abs (or_text loaded.data_dir (codes "./data")))
  ok (record loaded {
    admins = admins;
    data_dir = path;
    host = or_text loaded.host (codes "0.0.0.0");
    ssh_port = or_text loaded.ssh_port (codes "2222");
    web_port = or_text loaded.web_port (codes "3000");
    theme = or_text loaded.theme (codes "dracula");
    time_format = or_text loaded.time_format (codes "2006-01-02T15:04:05Z07:00");
    rate_limit_count = or_number loaded.rate_limit_count 10;
    rate_limit_interval = or_text loaded.rate_limit_interval (codes "1m");
    max_stdin_bytes = or_number loaded.max_stdin_bytes (5 * 1_048_576);
  })

-- koanf, with what it holds: a TOML file and the variables of the environment with a prefix are loaded
-- on top, and the fields are read out.
pub record Koanf (K : Type 0) : Type 0 where
  pub load_file : Str → K → Result K
  pub load_env : Str → (Str → Str) → K → Result K
  pub unmarshal : K → Result GitCfg

abbrev pub or_panic {ℓ} : {A : Type ℓ} → Result A → Result A
or_panic (ok a) = ok a
or_panic (err e) = err Error.panic

-- The key of a variable of the environment; `to_lower` is `strings.ToLower`.
abbrev pub env_keyword : (Str → Str) → Str → Str
env_keyword to_lower s = to_lower (trim_prefix s (codes "GITPR_"))

module _ {K : Type 0} (koanf : Koanf K) (abs : Str → Result Str) where
  unfoldable pub load_config_file : Str → K → Result K
  load_config_file path k = do full ← path_or_panic (abs path); or_panic (koanf.load_file full k)

  -- `NewGitCfg`, from what koanf holds.
  unfoldable pub read_git_cfg : Keyring → (Str → Str) → K → Result GitCfg
  unfolding new_git_cfg
  read_git_cfg keyring to_lower k = do
    k' ← or_panic (koanf.load_env (codes "GITPR_") (env_keyword to_lower) k)
    loaded ← or_panic (koanf.unmarshal k')
    new_git_cfg keyring abs loaded
