-- ===== src/Tests.antt =====
-- The data of the tests: a quiet driver, a strict one, and a small database.
pub mod Requests
pub mod Texts
pub mod Limits
pub mod Commands
pub mod Summaries
pub mod Sessions
pub mod Pages
pub mod Detail
pub mod Defaults
pub mod Routes
use patchbin.Base.{ℕ, Str, Bool, true, false, List, [], ◌∷◌, codes, Result, ok, ◌≤◌, arith}
use patchbin.Store.{User, PatchRequest, PatchText, Patchset, Db, Driver, empty_db}

-- No statement fails, no foreign key is enforced, and the clock stands still.
abbrev pub quiet : Driver
quiet = record { foreign_keys = false; fails = λ _ _. false; now = λ _ _. 0 }

abbrev pub strict : Driver
strict = record { foreign_keys = true; fails = λ _ _. false; now = λ _ _. 0 }

abbrev pub patch_text : Str → PatchText
patch_text title = record {
  author_name = codes "ann";
  author_email = [];
  author_date = 0;
  title = title;
  body = [];
  body_appendix = [];
  commit_sha = [];
  content_sha = title;
  base_commit_sha = record { string = []; valid = false };
  raw_text = codes "From ";
}

abbrev pub owner : User
owner = record { id = 1; pubkey = codes "key"; name = codes "key"; created_at = 0; updated_at = 0 }

abbrev pub request : PatchRequest
request = record {
  id = 1;
  user_id = 1;
  repo_name = codes "pico";
  slug = codes "fix";
  name = codes "a";
  text = [];
  created_at = 0;
  updated_at = 0;
  last_activity = 0;
}

abbrev pub patchset : Patchset
patchset = record { id = 1; user_id = 1; patch_request_id = 1; created_at = 0 }

-- One user with one request and one patchset.
abbrev pub small_db : Db
small_db = record empty_db {
  users = owner ∷ [];
  requests = request ∷ [];
  patchsets = patchset ∷ [];
  last_user = 1;
  last_request = 1;
  last_patchset = 1;
}
