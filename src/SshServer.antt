-- ===== src/SshServer.antt =====
-- ssh.go: the start of the SSH server. `time.ParseDuration` (of an interval that is not negative), the
-- paths of path/filepath and the library's server are arguments.
use patchbin.Base.{
  ℕ, Str, Bool, codes, if◌then◌else◌, Result, ok, err, Error, ◌≡◌, ap, sym, subst, inl, inr, refl,
  Bool-cases,
}
use patchbin.Base.Number.{ℤ, pos, negsuc}
use patchbin.Config.{GitCfg}
use patchbin.RateLimit.{RateLimiter, new_rate_limiter}
use patchbin.Store.Upgrade.{DbFile, Engine, IsUpgraded, sqlite_open}
use patchbin.Store.Upgraded.{sqlite_open-IsUpgraded}

-- What the library's server is made of: the address, the port of the metrics, the file of its key, and
-- the limiter of the backend.
pub record SshServer : Type 0 where
  pub host : Str
  pub ssh_port : Str
  pub prom_port : Str
  pub key_path : Str
  pub limiter : RateLimiter

-- A cap below zero lets nothing through, as 0 does.
abbrev pub cap_of : ℤ → ℕ
cap_of (pos n) = n
cap_of (negsuc n) = 0

module _ {T : Type 0} (engine : Engine T) (join_path : Str → Str → Str)
    (parse_duration : Str → Result ℕ) (listens : SshServer → Bool) (cfg : GitCfg) where
  abbrev pub new_server : ℕ → SshServer
  new_server interval = record {
    host = cfg.host;
    ssh_port = cfg.ssh_port;
    prom_port = cfg.prom_port;
    key_path = join_path cfg.data_dir (codes "term_info_ed25519");
    limiter = new_rate_limiter (cap_of cfg.rate_limit_count) interval;
  }

  -- The program ends if the library has no server to give.
  abbrev pub with_interval : DbFile T → Result ℕ → Result SshServer × DbFile T
  with_interval f (err e) = (err Error.panic, f)
  with_interval f (ok interval) =
      if listens (new_server interval)
      then (ok (new_server interval), f)
      else (err Error.io_error, f)

  abbrev pub with_database : Result (Unit {0}) × DbFile T → Result SshServer × DbFile T
  with_database (err e, f) = (err Error.panic, f)
  with_database (ok _, f) = with_interval f (parse_duration cfg.rate_limit_interval)

  unfoldable pub git_ssh_server : DbFile T → Result SshServer × DbFile T
  git_ssh_server f = with_database (sqlite_open engine f)

  with_interval-ok :
      (f : DbFile T) (r : Result ℕ) (server : SshServer) (f' : DbFile T)
      → with_interval f r ≡ (ok server, f')
      → (interval : ℕ) × (r ≡ ok interval) × (server ≡ new_server interval) × (f ≡ f')
  with_interval-ok f (err e) server f' h =
      absurd (cc (ap (λ (p : Result SshServer × DbFile T). p.0) h))
  with_interval-ok f (ok interval) server f' h = elim (Bool-cases (listens (new_server interval))) [
    | inl started ↦
        let h' = rw started at h in
        let same : ◌≡◌ {A = Result SshServer} (ok (new_server interval)) (ok server) =
          ap (λ (p : Result SshServer × DbFile T). p.0) h' in
        (
          interval,
          refl,
          ap (λ (r : Result SshServer). elim r [ ok s ↦ s | err e ↦ new_server interval ])
              (sym same),
          ap (λ (p : Result SshServer × DbFile T). p.1) h',
        )
    | inr refused ↦ absurd (cc (ap (λ (p : Result SshServer × DbFile T). p.0) (rw refused at h)))
  ]

  -- A server that starts has a database that is upgraded, by the scripts that it lacked, and a limiter
  -- of the configured cap and interval that has counted nothing yet.
  git_ssh_server-starts :
      (f : DbFile T) (server : SshServer) (f' : DbFile T)
      → git_ssh_server f ≡ (ok server, f')
      → IsUpgraded engine f (ok tt, f')
        × ((interval : ℕ) × (parse_duration cfg.rate_limit_interval ≡ ok interval)
            × (server ≡ new_server interval))
  unfolding git_ssh_server
  git_ssh_server-starts f server f' h =
      opened (sqlite_open engine f) (sqlite_open-IsUpgraded engine f) h
    where
      opened :
          (r : Result (Unit {0}) × DbFile T)
          → IsUpgraded engine f r
          → with_database r ≡ (ok server, f')
          → IsUpgraded engine f (ok tt, f')
            × ((interval : ℕ) × (parse_duration cfg.rate_limit_interval ≡ ok interval)
                × (server ≡ new_server interval))
      opened (err e, g) upgraded h = absurd (cc (ap (λ (p : Result SshServer × DbFile T). p.0) h))
      opened (ok _, g) upgraded h =
          let (interval, parsed, is, same) =
            with_interval-ok g (parse_duration cfg.rate_limit_interval) server f' h in
          (subst (λ d. IsUpgraded engine f (ok tt, d)) same upgraded, (interval, parsed, is))
