-- ===== src/Tests/Auth.antt =====
-- AuthSvr at concrete inputs: a user registers and comes back. The digest is the text itself.
use swift_chat_system.Common.{◌≡◌, refl, Option, true, some, []}
use swift_chat_system.Common.Int.{pos}
use swift_chat_system.Common.Text.{Text, codes, text_eq}
use swift_chat_system.ErrorCode.{user_already_exists}
use swift_chat_system.Json.Codec.{codec, codec-IsLawful}
use swift_chat_system.Storage.{commit}
use swift_chat_system.Storage.Memory.{memory, memory-IsLawful, no_entries}
use swift_chat_system.Utils.Strings.{all_of}
use swift_chat_system.Auth.Store
use swift_chat_system.Auth.Service.{
  register, register_error, verify_credentials, hash_password, validate_username, validate_password,
}
use swift_chat_system.Auth.Accounts.{here}
use swift_chat_system.Auth.Kept.{register_kept}

abbrev digest : Text → Option Text
digest t = some t

abbrev alice : Text
alice = codes "alice"

abbrev password : Text
password = codes "password"

abbrev registered : memory.State
registered = (register memory codec digest no_entries alice password [] [] [] (codes "1") (pos 5)).0

register_succeeds :
    (register memory codec digest no_entries alice password [] [] [] (codes "1") (pos 5)).1.success
    ≡ true
unfolding memory codec no_entries commit register validate_username validate_password all_of
    Store.username_exists Store.create
register_succeeds = refl

register_kept_example :
    ((verify_credentials memory codec digest registered alice password).user_id
      ≡ (register memory codec digest no_entries alice password [] [] []
          (codes "1")
          (pos 5)).1.user_id)
    × ((verify_credentials memory codec digest registered alice (codes "other")).success
        ≡ text_eq (hash_password digest (codes "other")) (hash_password digest password))
    × (register memory codec digest registered alice
          (codes "longenough")
          []
          []
          []
          (codes "2")
          (pos 6)
        ≡ (registered, register_error (codes "Username already exists") user_already_exists))
unfolding memory no_entries validate_password
register_kept_example =
    register_kept memory codec digest memory-IsLawful codec-IsLawful alice password (codes "other")
      [] [] [] (codes "1") (pos 5) (codes "longenough") [] [] [] (codes "2") (pos 6) (λ k. refl)
      here refl register_succeeds here refl
