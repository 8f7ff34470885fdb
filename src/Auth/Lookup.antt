-- ===== src/Auth/Lookup.antt =====
-- What the two indexes of the user store have after Create, and after Update where the name stays.
use swift_chat_system.Common.{◌≡◌, refl, true, false, ◌&&◌, some, [], ◌∷◌, arith, if◌then◌else◌}
use swift_chat_system.Common.Text.{Text, codes, text_eq, is_empty, text_eq_iff}
use swift_chat_system.Common.Text.Fields.{text_eq-append_left}
use swift_chat_system.Json.{Json}
use swift_chat_system.Json
use swift_chat_system.Storage.{Db, IsLawful, put, after, get-commit}
use swift_chat_system.Auth.Store.{
  UserData, as_read, key_user, key_username, user_batch, create, get_by_id, update_found, update,
  serialize_user, deserialize-serialize_user,
}

text_eq-key_user : (i j : Text) → text_eq (key_user i) (key_user j) ≡ text_eq i j
unfolding key_user
text_eq-key_user i j = text_eq-append_left (codes "user:") i j

text_eq-key_username : (m n : Text) → text_eq (key_username m) (key_username n) ≡ text_eq m n
unfolding key_username
text_eq-key_username m n = text_eq-append_left (codes "username:") m n

apart :
    (i n : Text)
    → (text_eq (key_user i) (key_username n) ≡ false)
      × (text_eq (key_username n) (key_user i) ≡ false)
unfolding key_user key_username text_eq
apart i n = (refl, refl)

module _ (D : Db) (J : Json) (law : IsLawful D) (json_law : Json.IsLawful J) where
  pub get_by_id-create :
      (s : D.State) (x : UserData) (j : Text)
      → is_empty x.user_id ≡ false
      → get_by_id D J (create D J s x).0 j ≡ (
          if (create D J s x).1 && text_eq x.user_id j then some (as_read x) else get_by_id D J s j)
  unfolding create get_by_id after
  get_by_id-create s x j given = ground (
    arith,
    get-commit D law s (user_batch D J x) (key_user j),
    text_eq-key_user x.user_id j,
    apart j x.username,
    text_eq_iff x.user_id j,
    deserialize-serialize_user J json_law x,
  )

  pub index-create :
      (s : D.State) (x : UserData) (n : Text)
      → D.get (create D J s x).0 (key_username n) ≡ (
          if (create D J s x).1 && text_eq x.username n
          then some x.user_id
          else D.get s (key_username n))
  unfolding create after
  index-create s x n = ground (
    arith,
    get-commit D law s (user_batch D J x) (key_username n),
    text_eq-key_username x.username n,
    apart x.user_id n,
  )

  -- Update of a user whose name stays writes the user and nothing else.
  pub get_by_id-update :
      (s : D.State) (x old : UserData) (j : Text)
      → get_by_id D J s x.user_id ≡ some old
      → text_eq old.username x.username ≡ true
      → get_by_id D J (update D J s x).0 j ≡ (
          if (update D J s x).1 && text_eq x.user_id j then some (as_read x) else get_by_id D J s j)
  unfolding update update_found get_by_id after
  get_by_id-update s x old j found same = ground (
    arith,
    get-commit D law s (put (key_user x.user_id) (serialize_user J x) ∷ []) (key_user j),
    text_eq-key_user x.user_id j,
    text_eq_iff x.user_id j,
    deserialize-serialize_user J json_law x,
  )

  pub index-update :
      (s : D.State) (x old : UserData) (n : Text)
      → get_by_id D J s x.user_id ≡ some old
      → text_eq old.username x.username ≡ true
      → D.get (update D J s x).0 (key_username n) ≡ D.get s (key_username n)
  unfolding update update_found after
  index-update s x old n found same = ground (
    arith,
    get-commit D law s (put (key_user x.user_id) (serialize_user J x) ∷ []) (key_username n),
    apart x.user_id n,
  )
