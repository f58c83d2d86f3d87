-- ===== src/Keys.antt =====
-- backend.go, the handler of ssh.go that lets a key in, and GetAuthorizedKeys of util.go. The keys of
-- golang.org/x/crypto/ssh are the argument `Keyring`.
use patchbin.Base.{
  Str, Bool, true, false, Option, none, some, List, [], ◌∷◌, ◌++◌, codes, take, str_eq, any_row,
  has_prefix, Result, if◌then◌else◌,
}
use patchbin.Base.Space.{trim_space}
use patchbin.Store.{Db, Driver}
use patchbin.Pr.Queries.{is_banned}
use patchbin.CoverLetter.{Layouts}

-- What ssh.ParseAuthorizedKey reads, as the bytes of `Marshal`; none for an error. `admins` are those
-- of the configuration.
pub record Keyring : Type 0 where
  pub parse_authorized_key : Str → Option Str
  pub admins : List Str

unfoldable pub key_for_key_text : Str → Str → Str
key_for_key_text key_type encoded = key_type ++ (codes " " ++ encoded)

unfoldable pub is_admin : Keyring → Str → Bool
is_admin keyring key = any_row (str_eq key) keyring.admins

-- The first four bytes of the digest, as hexadecimal digits.
unfoldable pub compute_user_name : Layouts → Str → Str
compute_user_name layouts pubkey = take 8 (layouts.sha256_hex pubkey)

-- The keys up to the first that is not parsed, and whether there was one.
unfoldable pub get_authorized_keys : Keyring → List Str → List Str × Bool
get_authorized_keys keyring [] = ([], true)
get_authorized_keys keyring (pubkey ∷ pubkeys) =
    let (keys, fine) = get_authorized_keys keyring pubkeys in
    if str_eq (trim_space pubkey) []
    then (keys, fine)
    else if has_prefix pubkey (codes "#")
    then (keys, fine)
    else elim (keyring.parse_authorized_key pubkey) [
      | none ↦ ([], false)
      | some key ↦ (key ∷ keys, fine)
    ]

-- A connection is refused for the key, or for an address equal to the name of the SSH user.
unfoldable pub auth_handler : Driver → Str → Str → Db → Result (Unit {0})
auth_handler drv pubkey user_name db = is_banned drv pubkey user_name db
