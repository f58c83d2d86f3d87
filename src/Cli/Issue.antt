-- ===== src/Cli/Issue.antt =====
-- The command `issue` of cli.go.
use patchbin.Base.{
  ℕ, Str, Bool, true, false, List, [], ◌∷◌, codes, str_eq, Result, ok, err, Error, ◌>>=◌,
  if◌then◌else◌, Option, none, some,
}
use patchbin.Base.Space.{trim_space}
use patchbin.Base.Search.{join, cut_first}
use patchbin.RateLimit.{RateLimiter, allow}
use patchbin.Target.{Target, parse_target}
use patchbin.Store.{User, Db, Driver}
use patchbin.Mbox.{newline}
use patchbin.Pr.Users.{upsert_user_by_pubkey}
use patchbin.Pr.Submit.{submit_issue}
use patchbin.Cli.{Server, read_stdin_limited, created}

-- The title and the body of the arguments behind the target; `title` is the flag.
unfoldable pub issue_words : Str → List Str → Str × Str
issue_words title [] = (title, [])
issue_words title (word ∷ rest) =
    if str_eq title []
    then (word, join rest (codes " "))
    else (title, join (word ∷ rest) (codes " "))

-- Standard input is read where no argument gives a body.
unfoldable pub issue_body : ℕ → Result Str → Str → Result Str
issue_body max_bytes stdin [] = do body ← read_stdin_limited max_bytes stdin; ok (trim_space body)
issue_body max_bytes stdin (c ∷ body) = ok (c ∷ body)

-- Without a title, the first line of the body is one.
abbrev pub title_line : Str × Option Str → Str × Str
title_line (line, none) = (line, [])
title_line (line, some rest) = (line, trim_space rest)

unfoldable pub issue_title : Str → Str → Result (Str × Str)
issue_title [] [] = err Error.missing_title
issue_title [] (c ∷ body) = ok (title_line (cut_first newline (c ∷ body)))
issue_title (c ∷ title) body = ok (c ∷ title, body)

unfoldable pub issue_text : ℕ → Result Str → Str → List Str → Result (Str × Str)
unfolding issue_words issue_body issue_title
issue_text max_bytes stdin flag rest = do
  body ← issue_body max_bytes stdin (issue_words flag rest).1
  issue_title (issue_words flag rest).0 body

module _ (drv : Driver) where
  abbrev pub issue_with : User → Target → Db → Result (Str × Str) → Result (Unit {0}) × Db
  issue_with user target db (err e) = (err e, db)
  issue_with user target db (ok (title, body)) =
      created drv (submit_issue drv user.id target.repo target.slug title body db)

  abbrev pub issue_to :
      ℕ → Result Str → Str → List Str → User → Db → Result Target → Result (Unit {0}) × Db
  issue_to max_bytes stdin flag rest user db (err e) = (err e, db)
  issue_to max_bytes stdin flag rest user db (ok target) =
      issue_with user target db (issue_text max_bytes stdin flag rest)

  -- The user is there before the arguments are read.
  abbrev pub issue_as : ℕ → Result Str → Str → List Str → Result User × Db → Result (Unit {0}) × Db
  issue_as max_bytes stdin flag args (err e, db) = (err e, db)
  issue_as max_bytes stdin flag [] (ok user, db) = (err Error.missing_target, db)
  issue_as max_bytes stdin flag (first ∷ rest) (ok user, db) =
      issue_to max_bytes stdin flag rest user db (parse_target first)

  abbrev pub issue_if_allowed :
      ℕ → Result Str → Str → Str → List Str → Db → Bool × RateLimiter → Result (Unit {0}) × Server
  issue_if_allowed max_bytes stdin pubkey flag args db (false, limiter) =
      (err Error.rate_limited, record { limiter = limiter; db = db })
  issue_if_allowed max_bytes stdin pubkey flag args db (true, limiter) =
      let (result, db') =
        issue_as max_bytes stdin flag args (upsert_user_by_pubkey drv pubkey db) in
      (result, record { limiter = limiter; db = db' })

  -- The whole command, at the time `now`; `flag` is the value of `--title`.
  unfoldable pub open_issue :
      ℕ → ℕ → Result Str → Str → Str → List Str → Server → Result (Unit {0}) × Server
  open_issue max_bytes now stdin pubkey flag args s =
      issue_if_allowed max_bytes stdin pubkey flag args s.db (allow now s.limiter)
