-- ===== src/Pr/Users.antt =====
-- The users of pr.go: `UpsertUserByPubkey` and `createUser`. These statements run on their own,
-- outside a transaction.
use patchbin.Base.{ℕ, Str, [], ◌==◌, str_eq, Result, ok, err, Error, fail_if, ◌>>◌}
use patchbin.Store.{User, Db, Driver}
use patchbin.Store.Statements.{add_user}
use patchbin.Pr.Queries.{get_user_by_id, get_user_by_pubkey}

-- `SELECT * FROM app_users WHERE id=?` after the row has been inserted.
abbrev pub read_user : Driver → Db → Result (ℕ × Db) → Result User × Db
read_user drv db (err e) = (err e, db)
read_user drv db (ok (id, db')) =
    ((do fail_if (id == 0) Error.not_created; get_user_by_id drv id db'), db')

unfoldable pub create_user : Driver → Str → Db → Result User × Db
create_user drv pubkey db =
    read_user drv db (do fail_if (str_eq pubkey []) Error.empty_pubkey; add_user drv pubkey db)

abbrev pub or_create : Driver → Str → Db → Result User → Result User × Db
or_create drv pubkey db (ok user) = (ok user, db)
or_create drv pubkey db (err e) = create_user drv pubkey db

unfoldable pub upsert_user_by_pubkey : Driver → Str → Db → Result User × Db
upsert_user_by_pubkey drv pubkey db = or_create drv pubkey db (get_user_by_pubkey drv pubkey db)
