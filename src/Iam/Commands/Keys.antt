-- ===== src/Iam/Commands/Keys.antt =====
-- An issued API key (internal/iam/app/command/apikeys.go) authenticates with its permissions.
use nvelope.Common.Action.Triple.{Triple}
use nvelope.Common.Database.{Db}
use nvelope.Iam.Store.{Tables, Env}
use nvelope.Iam.Store.Accounts.{key_hash_is}
use nvelope.Iam.Roles.{ApiKey}
use nvelope.Iam.Permissions.{parse_permissions, dedupe_permissions, Permission}
use nvelope.Common.{String, List, ◌≡◌, select_first, none, some}
use nvelope.Common.Action.{ok}

-- What a new key holds.
record IsNewKey (hash : String) (perms : List Permission) (k : ApiKey) : Type 0 where
  hashed : k.token_hash ≡ hash
  granted : k.permissions ≡ dedupe_permissions perms
  live : k.revoked_at ≡ none

-- The key that a token finds.
record Finds (t : Tables) (hash id : String) (perms : List Permission) : Type 0 where
  key : ApiKey
  stored : select_first (key_hash_is hash) t.api_keys ≡ some key
  named : key.id ≡ id
  allowed : key.permissions ≡ perms
  unrevoked : key.revoked_at ≡ none

-- The permissions that were asked for, and the key that the returned token finds.
record Issued (env : Env) (permissions : List String) (issued : String × String) (t : Tables)
    : Type 0 where
  perms : List Permission
  parsed : parse_permissions permissions ≡ ok perms
  finds : Finds t (env.hash issued.1) issued.0 (dedupe_permissions perms)

abbrev Anything : Db Tables → Type 0
Anything w = Unit
