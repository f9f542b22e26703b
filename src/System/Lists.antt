-- ===== src/System/Lists.antt =====
-- addChatToChatList and deleteChatFromList of Shark_2_0_CLI/src/core/user/user_chat_list.cpp on the
-- addresses of the chats, and the searches of chat_system.cpp. An expired entry of a chat list
-- keeps the identity of its chat, which is that of no living chat.
use chat_bot.Base.{
  ℕ, ◌≡◌, refl, subst, ==_iff, inl, inr, Bool-cases, Bool, true, false, ◌||◌, ◌&&◌, List, [], ◌∷◌,
  ◌++◌, arith, ltb, ◌==◌, if◌then◌else◌,
}
use chat_bot.Wire.Reader.{Bytes}
use chat_bot.Chat.Parts.{has}

-- For a chat that is alive.
unfoldable pub add_to_list : ℕ → List ℕ → List ℕ
add_to_list chat chats = if has chat chats then chats else chats ++ chat ∷ []

-- The first entry of the same owner is erased.
unfoldable pub delete_from_list : ℕ → List ℕ → List ℕ
delete_from_list chat [] = []
delete_from_list chat (item ∷ items) =
    let later = delete_from_list chat items in if item == chat then items else item ∷ later

-- std::set::erase
unfoldable pub remove_id : ℕ → List ℕ → List ℕ
remove_id id [] = []
remove_id id (i ∷ is) = let later = remove_id id is in if i == id then is else i ∷ later

-- The key of std::map::rbegin, from a key of the map on.
unfoldable pub max_key : ℕ → List (ℕ × ℕ) → ℕ
max_key k [] = k
max_key k (e ∷ es) = max_key (if ltb k e.0 then e.0 else k) es

-- std::string::find of a text: whether the text stands anywhere.
unfoldable pub starts_with : Bytes → Bytes → Bool
starts_with [] s = true
starts_with (c ∷ cs) [] = false
starts_with (c ∷ cs) (d ∷ ds) = c == d && starts_with cs ds

unfoldable pub contains : Bytes → Bytes → Bool
contains text [] = starts_with text []
contains text (d ∷ ds) = starts_with text (d ∷ ds) || contains text ds

pub has-append : (a b : ℕ) (xs : List ℕ) → has a (xs ++ b ∷ []) ≡ (has a xs || b == a)
unfolding has
has-append a b [] = ground arith
has-append a b (x ∷ xs) = ground (arith, has-append a b xs)

pub has-add_to_list :
    (chat other : ℕ) (xs : List ℕ)
    → has other (add_to_list chat xs) ≡ (has other xs || chat == other)
unfolding add_to_list
has-add_to_list chat other xs = elim (Bool-cases (has chat xs)) [
  | inl there ↦ rw there (elim (Bool-cases (chat == other)) [
    | inl equal ↦
        let listed : has other xs ≡ true =
          subst (λ c. has c xs ≡ true) ((==_iff chat other).0 equal) there in
        ground (arith, listed)
    | inr differ ↦ ground (arith, differ)
  ])
  | inr absent ↦ rw absent (has-append other chat xs)
]

pub add_to_list_idem :
    (chat : ℕ) (xs : List ℕ) → add_to_list chat (add_to_list chat xs) ≡ add_to_list chat xs
unfolding add_to_list
add_to_list_idem chat xs = ground (arith, has-append chat chat xs)

pub delete_from_list_absent :
    (chat : ℕ) (xs : List ℕ) → has chat xs ≡ false → delete_from_list chat xs ≡ xs
unfolding delete_from_list has
delete_from_list_absent chat [] h = refl
delete_from_list_absent chat (x ∷ xs) h = ground (arith, delete_from_list_absent chat xs)

delete_from_list-append :
    (chat : ℕ) (xs : List ℕ) → has chat xs ≡ false → delete_from_list chat (xs ++ chat ∷ []) ≡ xs
unfolding delete_from_list has
delete_from_list-append chat [] h = ground arith
delete_from_list-append chat (x ∷ xs) h = ground (arith, delete_from_list-append chat xs)

pub delete_from_list-add_to_list :
    (chat : ℕ) (xs : List ℕ)
    → has chat xs ≡ false
    → delete_from_list chat (add_to_list chat xs) ≡ xs
unfolding add_to_list
delete_from_list-add_to_list chat xs h = rw h (delete_from_list-append chat xs h)
