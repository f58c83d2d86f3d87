-- ===== src/Config/Filled.antt =====
-- What a configuration that cfg.go has read must have.
use patchbin.Base.{
  codes, ℕ, zero, suc, Str, [], ◌∷◌, Result, ok, err, >>=-eq-ok, ◌≡◌, ◌≢◌, ap, subst,
}
use patchbin.Base.Number.{ℤ, pos, negsuc}
use patchbin.Keys.{Keyring}
use patchbin.Config.{
  GitCfg, Koanf, or_text, or_number, admins_of, path_or_panic, or_panic, env_keyword, new_git_cfg,
  read_git_cfg,
}

-- A configuration that is read is complete: the texts with a default are filled, and the numbers are
-- not zero.
pub record IsComplete (cfg : GitCfg) : Type 0 where
  pub host : cfg.host ≢ []
  pub ssh_port : cfg.ssh_port ≢ []
  pub web_port : cfg.web_port ≢ []
  pub theme : cfg.theme ≢ []
  pub time_format : cfg.time_format ≢ []
  pub rate_limit_interval : cfg.rate_limit_interval ≢ []
  pub rate_limit_count : cfg.rate_limit_count ≢ pos 0
  pub max_stdin_bytes : cfg.max_stdin_bytes ≢ pos 0

or_text-filled : (s default : Str) → default ≢ [] → or_text s default ≢ []
or_text-filled [] default h = h
or_text-filled (c ∷ s) default h = λ e. cc

or_number-filled : (n : ℤ) (default : ℕ) → pos default ≢ pos 0 → or_number n default ≢ pos 0
or_number-filled (pos zero) default h = h
or_number-filled (pos (suc n)) default h = λ e. cc e
or_number-filled (negsuc n) default h = λ e. cc e

ok-injective : {cfg cfg' : GitCfg} → ◌≡◌ {A = Result GitCfg} (ok cfg) (ok cfg') → cfg ≡ cfg'
ok-injective {cfg} e = ap (λ (r : Result GitCfg). elim r [ ok c ↦ c | err x ↦ cfg ]) e

new_git_cfg-IsComplete :
    (keyring : Keyring) (abs : Str → Result Str) (loaded cfg : GitCfg)
    → new_git_cfg keyring abs loaded ≡ ok cfg
    → IsComplete cfg
unfolding new_git_cfg
new_git_cfg-IsComplete keyring abs loaded cfg h =
    let (admins, _, rest) = >>=-eq-ok (admins_of keyring loaded loaded.admins_str) _ h in
    let (path, _, last) = >>=-eq-ok (path_or_panic (abs (or_text loaded.data_dir _))) _ rest in
    subst IsComplete (ok-injective last) (record {
      host = or_text-filled loaded.host _ (λ e. cc);
      ssh_port = or_text-filled loaded.ssh_port _ (λ e. cc);
      web_port = or_text-filled loaded.web_port _ (λ e. cc);
      theme = or_text-filled loaded.theme _ (λ e. cc);
      time_format = or_text-filled loaded.time_format _ (λ e. cc);
      rate_limit_interval = or_text-filled loaded.rate_limit_interval _ (λ e. cc);
      rate_limit_count = or_number-filled loaded.rate_limit_count _ (λ e. cc e);
      max_stdin_bytes = or_number-filled loaded.max_stdin_bytes _ (λ e. cc e);
    })

-- Whatever the file and the environment say, a configuration that is read is complete.
read_git_cfg-IsComplete :
    {K : Type 0} (koanf : Koanf K) (abs : Str → Result Str) (keyring : Keyring)
    (to_lower : Str → Str) (k : K) (cfg : GitCfg)
    → read_git_cfg koanf abs keyring to_lower k ≡ ok cfg
    → IsComplete cfg
unfolding read_git_cfg
read_git_cfg-IsComplete koanf abs keyring to_lower k cfg h =
    let (k', _, rest) =
      >>=-eq-ok (or_panic (koanf.load_env (codes "GITPR_") (env_keyword to_lower) k)) _ h in
    let (loaded, _, last) = >>=-eq-ok (or_panic (koanf.unmarshal k')) _ rest in
    new_git_cfg-IsComplete keyring abs loaded cfg last
