-- ===== src/Friend/Keys.antt =====
-- The keys of friend_store.cpp, and when two of them are the same.
use swift_chat_system.Common.{◌≡◌, refl, false, ◌&&◌, ◌++◌, [], ◌∙◌}
use swift_chat_system.Common.Text.{Text, codes, text_eq, starts_with}
use swift_chat_system.Common.Text.Fields.{
  IsColonFree, join, text_eq-append_left, starts_with-append_left, text_eq-join, starts_with-join,
}

unfoldable pub key_friend : Text → Text → Text
key_friend user_id friend_id = codes "friend:" ++ join user_id friend_id

unfoldable pub key_friend_req : Text → Text
key_friend_req request_id = codes "friend_req:" ++ request_id

unfoldable pub key_friend_req_to : Text → Text → Text
key_friend_req_to to_user_id request_id = codes "friend_req_to:" ++ join to_user_id request_id

unfoldable pub key_friend_req_from : Text → Text → Text
key_friend_req_from from_user_id request_id =
    codes "friend_req_from:" ++ join from_user_id request_id

unfoldable pub key_friend_group : Text → Text → Text
key_friend_group user_id group_id = codes "friend_group:" ++ join user_id group_id

unfoldable pub key_block : Text → Text → Text
key_block user_id target_id = codes "block:" ++ join user_id target_id

unfoldable pub prefix_friend : Text → Text
prefix_friend user_id = codes "friend:" ++ join user_id []

unfoldable pub prefix_friend_req_to : Text → Text
prefix_friend_req_to to_user_id = codes "friend_req_to:" ++ join to_user_id []

unfoldable pub prefix_friend_req_from : Text → Text
prefix_friend_req_from from_user_id = codes "friend_req_from:" ++ join from_user_id []

unfoldable pub prefix_friend_group : Text → Text
prefix_friend_group user_id = codes "friend_group:" ++ join user_id []

unfoldable pub prefix_block : Text → Text
prefix_block user_id = codes "block:" ++ join user_id []

pub text_eq-key_friend :
    (a b c d : Text)
    → IsColonFree a
    → IsColonFree c
    → text_eq (key_friend a b) (key_friend c d) ≡ (text_eq a c && text_eq b d)
unfolding key_friend
text_eq-key_friend a b c d h k =
    text_eq-append_left (codes "friend:") (join a b) (join c d) ∙ text_eq-join a b c d h k

pub text_eq-key_friend_req_to :
    (a b c d : Text)
    → IsColonFree a
    → IsColonFree c
    → text_eq (key_friend_req_to a b) (key_friend_req_to c d) ≡ (text_eq a c && text_eq b d)
unfolding key_friend_req_to
text_eq-key_friend_req_to a b c d h k =
    text_eq-append_left (codes "friend_req_to:") (join a b) (join c d) ∙ text_eq-join a b c d h k

pub text_eq-key_block :
    (a b c d : Text)
    → IsColonFree a
    → IsColonFree c
    → text_eq (key_block a b) (key_block c d) ≡ (text_eq a c && text_eq b d)
unfolding key_block
text_eq-key_block a b c d h k =
    text_eq-append_left (codes "block:") (join a b) (join c d) ∙ text_eq-join a b c d h k

pub text_eq-key_friend_req :
    (a b : Text) → text_eq (key_friend_req a) (key_friend_req b) ≡ text_eq a b
unfolding key_friend_req
text_eq-key_friend_req a b = text_eq-append_left (codes "friend_req:") a b

pub starts_with-key_friend_req_to :
    (a c d : Text)
    → IsColonFree a
    → IsColonFree c
    → starts_with (prefix_friend_req_to a) (key_friend_req_to c d) ≡ text_eq a c
unfolding prefix_friend_req_to key_friend_req_to
starts_with-key_friend_req_to a c d h k =
    starts_with-append_left (codes "friend_req_to:") (join a []) (join c d)
    ∙ starts_with-join a c d h k

pub text_eq-friend_req :
    (a b i : Text)
    → (text_eq (key_friend a b) (key_friend_req i) ≡ false)
      × (text_eq (key_friend_req i) (key_friend a b) ≡ false)
unfolding key_friend key_friend_req text_eq
text_eq-friend_req a b i = (refl, refl)
