-- ===== src/Auth/Kept.antt =====
-- The calls of AuthServiceCore keep every account.
use swift_chat_system.Common.{
  ◌≡◌, refl, sym, ◌∙◌, true, false, Option, none, [], ◌∷◌, arith, Option-cases, inl, inr,
}
use swift_chat_system.Common.Int.{ℤ}
use swift_chat_system.Common.Text.{Text, codes, text_eq, is_empty, text_eq_iff, text_eq_refl}
use swift_chat_system.ErrorCode.{user_already_exists}
use swift_chat_system.Json.{Json}
use swift_chat_system.Json
use swift_chat_system.Storage.{Db, IsLawful}
use swift_chat_system.Auth.Store.{
  UserData, key_user, key_username, username_exists, get_by_id, get_by_username,
}
use swift_chat_system.Auth.Service.{
  register_error, generate_user_id, hash_password, new_user, register, verify_found,
  verify_credentials, profile_found, update_profile, or_else, validate_username, validate_password,
}
use swift_chat_system.Auth.Lookup.{get_by_id-create, index-create, get_by_id-update, index-update}
use swift_chat_system.Auth.Accounts.{
  credentials, IsAccount, IsOwn, Step, registered, updated, Reach, here, next,
}

module _ (D : Db) (J : Json) (law : IsLawful D) (json_law : Json.IsLawful J) where
  -- UpdateProfile leaves the index of names and the credentials as they were.
  update_profile-index :
      (s : D.State) (i nickname avatar_url signature : Text) (now : ℤ) (n : Text)
      → IsOwn D J s
      → D.get (update_profile D J s i nickname avatar_url signature now).0 (key_username n)
        ≡ D.get s (key_username n)
  unfolding update_profile profile_found
  update_profile-index s i nickname avatar_url signature now n own =
      elim (Option-cases (get_by_id D J s i)) [
        | inl absent ↦ rw absent refl
        | inr (u, found) ↦
            let x : UserData = record u {
              nickname = or_else nickname u.nickname;
              avatar_url = or_else avatar_url u.avatar_url;
              signature = or_else signature u.signature;
              updated_at = now;
            } in
            ground
              (arith, own i u found, index-update D J law json_law s x u n, text_eq_refl u.username)
      ]

  update_profile-credentials :
      (s : D.State) (i nickname avatar_url signature : Text) (now : ℤ) (j : Text)
      → IsOwn D J s
      → credentials (get_by_id D J (update_profile D J s i nickname avatar_url signature now).0 j)
        ≡ credentials (get_by_id D J s j)
  unfolding update_profile profile_found
  update_profile-credentials s i nickname avatar_url signature now j own =
      elim (Option-cases (get_by_id D J s i)) [
        | inl absent ↦ rw absent refl
        | inr (u, found) ↦
            let x : UserData = record u {
              nickname = or_else nickname u.nickname;
              avatar_url = or_else avatar_url u.avatar_url;
              signature = or_else signature u.signature;
              updated_at = now;
            } in
            ground (
              arith,
              own i u found,
              get_by_id-update D J law json_law s x u j,
              text_eq_refl u.username,
              text_eq_iff u.user_id j,
            )
      ]

module _ (D : Db) (J : Json) (digest : Text → Option Text) (law : IsLawful D)
    (json_law : Json.IsLawful J) where
  -- An account lets in its password, as its user, and no other password of another digest.
  verify_credentials-IsAccount :
      (s : D.State) (n i p q : Text)
      → IsAccount D J s n i (hash_password digest p)
      → ((verify_credentials D J digest s n q).success
          ≡ text_eq (hash_password digest q) (hash_password digest p))
        × ((verify_credentials D J digest s n p).user_id ≡ i)
  unfolding verify_credentials verify_found get_by_username
  verify_credentials-IsAccount s n i p q a = elim (Option-cases (get_by_id D J s i)) [
    | inl absent ↦ absurd (ground arith)
    | inr (u, found) ↦ (ground arith, ground (arith, text_eq_refl (hash_password digest p)))
  ]

  Step-IsOwn : {s t : D.State} → IsOwn D J s → Step D J digest s t → IsOwn D J t
  unfolding register
  Step-IsOwn {s} own (registered n p nickname email url random now fresh) j v found = ground (
    arith,
    get_by_id-create D J law json_law s
        (new_user digest (generate_user_id random) n p nickname url now) j,
    text_eq_iff (generate_user_id random) j,
    own j v,
  )
  Step-IsOwn {s} own (updated i nickname url signature now) j v found =
      elim (Option-cases (get_by_id D J s j)) [
        | inl absent ↦ absurd (
            ground (
              arith,
              update_profile-credentials D J law json_law s i nickname url signature now j own,
            ))
        | inr (w, before) ↦ ground (
          arith,
          update_profile-credentials D J law json_law s i nickname url signature now j own,
          own j w before,
        )
      ]

  get_by_id-fresh :
      (s : D.State) (i : Text) → D.get s (key_user i) ≡ none → get_by_id D J s i ≡ none
  unfolding get_by_id
  get_by_id-fresh s i fresh = ground arith

  Step-IsAccount :
      {s t : D.State} (n i h : Text)
      → IsOwn D J s
      → IsAccount D J s n i h
      → Step D J digest s t
      → IsAccount D J t n i h
  unfolding register username_exists
  Step-IsAccount {s} n i h own a (registered m p nickname email url random now fresh) =
      let id = generate_user_id random in
      let x = new_user digest id m p nickname url now in
      let absent = get_by_id-fresh s id fresh in
      record {
        named = a.named;
        indexed =
            ground
              (arith, a.named, a.indexed, index-create D J law json_law s x n, text_eq_iff m n);
        stored =
            ground (arith, a.stored, get_by_id-create D J law json_law s x i, text_eq_iff id i);
      }
  Step-IsAccount {s} n i h own a (updated j nickname url signature now) = record {
    named = a.named;
    indexed =
        update_profile-index D J law json_law s j nickname url signature now n own ∙ a.indexed;
    stored =
        update_profile-credentials D J law json_law s j nickname url signature now i own ∙ a.stored;
  }

  Reach-IsOwn : {s t : D.State} → IsOwn D J s → Reach D J digest s t → IsOwn D J t
  Reach-IsOwn own here = own
  Reach-IsOwn own (next r st) = Step-IsOwn (Reach-IsOwn own r) st

  Reach-IsAccount :
      {s t : D.State} (n i h : Text)
      → IsOwn D J s
      → IsAccount D J s n i h
      → Reach D J digest s t
      → IsAccount D J t n i h
  Reach-IsAccount n i h own a here = a
  Reach-IsAccount n i h own a (next r st) =
      Step-IsAccount n i h (Reach-IsOwn own r) (Reach-IsAccount n i h own a r) st

  validate_username-named : (n : Text) → validate_username n ≡ true → is_empty n ≡ false
  unfolding validate_username
  validate_username-named [] h = cc
  validate_username-named (c ∷ n) h = refl

  register-IsAccount :
      (s : D.State) (n p nickname email url random : Text) (now : ℤ)
      → let c = register D J digest s n p nickname email url random now in
        c.1.success ≡ true
        → IsAccount D J
            (register D J digest s n p nickname email url random now).0
            n
            (generate_user_id random)
            (hash_password digest p)
  unfolding register
  register-IsAccount s n p nickname email url random now done =
      let id = generate_user_id random in
      let x = new_user digest id n p nickname url now in
      record {
        named = ground (arith, validate_username-named n);
        indexed = ground (arith, index-create D J law json_law s x n, text_eq_refl n);
        stored = ground (arith, get_by_id-create D J law json_law s x id, text_eq_refl id);
      }

  empty-IsOwn : (s : D.State) → ((k : Text) → D.get s k ≡ none) → IsOwn D J s
  unfolding get_by_id
  empty-IsOwn s empty i u found = absurd (ground (arith, empty (key_user i)))

  register_success :
      (s : D.State) (n p nickname email url random : Text) (now : ℤ)
      → let c = register D J digest s n p nickname email url random now in
        c.1.success ≡ true
        → (validate_username n ≡ true)
          × ((register D J digest s n p nickname email url random now).1.user_id
              ≡ generate_user_id random)
  unfolding register
  register_success s n p nickname email url random now done = (ground arith, ground arith)

  register_taken :
      (s : D.State) (n i h p nickname email url random : Text) (now : ℤ)
      → IsAccount D J s n i h
      → validate_username n ≡ true
      → validate_password p ≡ true
      → register D J digest s n p nickname email url random now
        ≡ (s, register_error (codes "Username already exists") user_already_exists)
  unfolding register username_exists
  register_taken s n i h p nickname email url random now a valid strong =
      rw (valid, strong, a.named, a.indexed)

  -- From an empty database, after any calls and a registration that succeeded, and after any further
  -- calls, where an identifier that is drawn is never a taken one: the name and the password give the
  -- identifier that the registration answered, any password is accepted exactly if its digest is
  -- the same, and a registration of the name with a password that is long enough is refused and
  -- changes nothing.
  pub register_kept :
      {e s u : D.State} (n p q nickname email url random : Text) (now : ℤ)
      (password nickname' email' url' random' : Text) (now' : ℤ)
      → ((k : Text) → D.get e k ≡ none)
      → Reach D J digest e s
      → D.get s (key_user (generate_user_id random)) ≡ none
      → let c = register D J digest s n p nickname email url random now in
        c.1.success ≡ true
        → Reach D J digest (register D J digest s n p nickname email url random now).0 u
        → validate_password password ≡ true
        → ((verify_credentials D J digest u n p).user_id
            ≡ (register D J digest s n p nickname email url random now).1.user_id)
          × ((verify_credentials D J digest u n q).success
              ≡ text_eq (hash_password digest q) (hash_password digest p))
          × (register D J digest u n password nickname' email' url' random' now'
              ≡ (u, register_error (codes "Username already exists") user_already_exists))
  register_kept {e} {s} {u} n p q nickname email url random now password nickname' email' url'
        random' now' empty before fresh done after' strong =
      let id = generate_user_id random in
      let c = register D J digest s n p nickname email url random now in
      let own = empty-IsOwn e empty in
      let (valid, answered) = register_success s n p nickname email url random now done in
      let own' =
        Step-IsOwn (Reach-IsOwn own before) (registered n p nickname email url random now fresh) in
      let a =
        Reach-IsAccount n id (hash_password digest p) own'
          (register-IsAccount s n p nickname email url random now done) after' in
      let v = verify_credentials-IsAccount u n id p q a in
      (
        (verify_credentials-IsAccount u n id p p a).1 ∙ sym answered,
        v.0,
        register_taken u n id (hash_password digest p) password nickname' email' url' random' now' a
            valid strong,
      )
