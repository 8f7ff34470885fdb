-- ===== src/Chat/Messages/Offline.antt =====
-- A message that was queued for a user who is away is delivered.
use mathlib.Core.List.{append_assoc}
use swift_chat_system.Common.{
  ◌≡◌, refl, sym, ap, ◌∙◌, ◌⊎◌, inl, inr, ℕ, ◌+◌, ◌-◌, ◌≤◌, Bool, true, false, some, List, [], ◌∷◌,
  ◌++◌, if◌then◌else◌, arith, length, take, drop, leb, drop-append_length, length-append,
  past_guard, Bool-cases, Option-cases, suc,
}
use swift_chat_system.Common.Int.{ℤ, pos, leb_ℤ, pos_part}
use swift_chat_system.Common.Text.{
  Text, codes, text_eq, is_empty, text_eq_iff, text_eq_refl, starts_with, starts_with-append,
}
use swift_chat_system.Json.{Json}
use swift_chat_system.Json
use swift_chat_system.Storage.{Db, IsLawful, put, after, get-commit}
use swift_chat_system.Storage.Order.{Entries, lookup}
use swift_chat_system.Chat.Data.{MessageData}
use swift_chat_system.Chat.Keys.{key_offline, prefix_offline, parse_key, rev_ts, reverse_ts, digits}
use swift_chat_system.Chat.Messages.{
  Page, last_page, get_by_id, queue_found, add_to_offline, pull, pull_offline,
}
use swift_chat_system.Chat.Messages.Lookup.{get_by_id-add_to_offline}

drop-append_plus : (p k : Text) (n : ℕ) → drop (length p + n) (p ++ k) ≡ drop n k
drop-append_plus [] k n = let e : 0 + n ≡ n = omega arith in ap (λ m. drop m k) e
drop-append_plus (x ∷ p) k n =
    let e : suc (length p) + n ≡ suc (length p + n) = omega arith in
    ap (λ m. drop m (x ∷ (p ++ k))) e ∙ drop-append_plus p k n

append-prefix_offline :
    (u : Text) (t : ℤ) (i : Text)
    → key_offline u t i ≡ prefix_offline u ++ (rev_ts t ++ (codes ":" ++ i))
unfolding key_offline prefix_offline
append-prefix_offline u t i = simp append_assoc

digits_long :
    (n : ℕ) (i : Text)
    → (take 13 (digits 13 n ++ (58 ∷ i)) ≡ digits 13 n)
      × (drop 14 (digits 13 n ++ (58 ∷ i)) ≡ i)
      × (length (digits 13 n ++ (58 ∷ i)) ≡ 14 + length i)
unfolding digits
digits_long n i = (refl, refl, ground arith)

nonempty-length : (i : Text) → is_empty i ≡ false → 1 ≤ length i
nonempty-length [] h = cc
nonempty-length (c ∷ i) h = ground arith

parse_key-append :
    (p : Text) (n : ℕ) (i : Text)
    → is_empty i ≡ false
    → parse_key (p ++ (digits 13 n ++ (58 ∷ i))) p ≡ (digits 13 n, i)
unfolding parse_key
parse_key-append p n i given =
    let rest = digits 13 n ++ (58 ∷ i) in
    let (digits_of, behind, long) = digits_long n i in
    let fits : leb (length (p ++ rest)) (length p + 13 + 1) ≡ false =
      ground (arith, length-append p rest, nonempty-length i given) in
    rw (fits, drop-append_length p rest, drop-append_plus p rest 14, digits_of, behind) refl

-- The key of a queued message is read as it was made.
parse_key-key_offline :
    (u : Text) (t : ℤ) (i : Text)
    → is_empty i ≡ false
    → parse_key (key_offline u t i) (prefix_offline u) ≡ (rev_ts t, i)
unfolding rev_ts
parse_key-key_offline u t i given =
    ap (λ k. parse_key k (prefix_offline u)) (append-prefix_offline u t i)
    ∙ parse_key-append (prefix_offline u) (reverse_ts t) i given

-- The message is one of the list.
abbrev pub Among : MessageData → List MessageData → Type 0
Among m [] = ⊥
Among m (x ∷ xs) = (x ≡ m) ⊎ Among m xs

last_page-Among :
    (m : MessageData) (rev : Text) (es : Entries) → Among m (last_page m rev es).messages
last_page-Among m rev [] = inl refl
last_page-Among m rev (_ ∷ _) = inl refl

page-Among :
    (full : Bool) (m : MessageData) (rev : Text) (es : Entries) (rest : Page)
    → Among m
        (if full then last_page m rev es else record rest { messages = m ∷ rest.messages }).messages
page-Among true m rev es rest = last_page-Among m rev es
page-Among false m rev es rest = inl refl

lookup-length : (k v : Text) (es : Entries) → lookup k es ≡ some v → 1 ≤ length es
unfolding lookup
lookup-length k v [] found = cc
lookup-length k v (e ∷ es) found = ground arith

module _ (D : Db) (J : Json) where
  -- Without a cursor, and with room for all, the loop comes to every message of the queue.
  pull-Among :
      (s : D.State) (prefix cursor : Text) (room : ℕ) (es : Entries) (key v rev i : Text)
      (m : MessageData)
      → length es ≤ room
      → lookup key es ≡ some v
      → parse_key key prefix ≡ (rev, i)
      → get_by_id D J s i ≡ some m
      → Among m (pull D J s prefix cursor room false es).messages
  unfolding pull lookup
  pull-Among s prefix cursor room [] key v rev i m fits found parsed stored = cc
  pull-Among s prefix cursor room ((j, w) ∷ es) key v rev i m fits found parsed stored =
      elim (Bool-cases (text_eq j key)) [
        | inl hit ↦
            let at : (parse_key j prefix).1 ≡ i =
              ap (λ k. (parse_key k prefix).1) ((text_eq_iff j key).0 hit)
              ∙ ap (λ (x : Text × Text). x.1) parsed in
            let here = ap (get_by_id D J s) at ∙ stored in
            rw here (page-Among (leb room 1) m _ es _)
        | inr miss ↦
            let later : lookup key es ≡ some v = past_guard (text_eq j key) _ _ _ miss found in
            let some_left = lookup-length key v es later in
            elim (Option-cases (get_by_id D J s (parse_key j prefix).1)) [
              | inl gone ↦ rw gone (
                  pull-Among s prefix cursor room es key v rev i m (ground arith) later parsed
                    stored)
              | inr (x, other) ↦
                  let room_left : leb room 1 ≡ false = ground arith in
                  rw (other, room_left)
                    (inr (
                      pull-Among s prefix cursor (room - 1) es key v rev i m (ground arith) later
                        parsed stored))
            ]
      ]

module _ (D : Db) (J : Json) (law : IsLawful D) (json_law : Json.IsLawful J) where
  queued :
      (s t : D.State) (u i : Text) (m : MessageData)
      → get_by_id D J s i ≡ some m
      → add_to_offline D J s u i ≡ (t, true)
      → (is_empty u ≡ false)
        × (is_empty i ≡ false)
        × (D.get t (key_offline u m.timestamp i) ≡ some [])
  unfolding add_to_offline queue_found after
  queued s t u i m found e = (
    ground arith,
    ground arith,
    ground (
      arith,
      get-commit D law s (put (key_offline u m.timestamp i) [] ∷ []) (key_offline u m.timestamp i),
      text_eq_refl (key_offline u m.timestamp i),
    ),
  )

  -- A message that AddToOffline queued for a user is in the first page that PullOffline returns to
  -- the user, if the page has room for the whole queue.
  pub add_to_offline-Among :
      (s t : D.State) (u i : Text) (m : MessageData) (limit : ℤ)
      → get_by_id D J s i ≡ some m
      → add_to_offline D J s u i ≡ (t, true)
      → leb_ℤ limit (pos 0) ≡ false
      → length (D.scan t (prefix_offline u)) ≤ pos_part limit
      → Among m (pull_offline D J t u [] limit).messages
  unfolding pull_offline
  add_to_offline-Among s t u i m limit found e positive fits =
      let (user, id, there) = queued s t u i m found e in
      let key = key_offline u m.timestamp i in
      let prefix = prefix_offline u in
      let under : starts_with prefix key ≡ true =
        ap (starts_with prefix) (append-prefix_offline u m.timestamp i)
        ∙ starts_with-append prefix (rev_ts m.timestamp ++ (codes ":" ++ i)) in
      let scanned : lookup key (D.scan t prefix) ≡ some [] =
        ground (arith, law.lookup-scan t prefix key) in
      let stored : get_by_id D J t i ≡ some m =
        ap (λ (x : D.State × Bool). get_by_id D J x.0 i) (sym e)
        ∙ get_by_id-add_to_offline D J law json_law s u i i
        ∙ found in
      rw (user, positive)
        (pull-Among D J t prefix [] (pos_part limit) (D.scan t prefix) key [] (rev_ts m.timestamp) i
          m fits scanned (parse_key-key_offline u m.timestamp i id) stored)
