-- ===== src/Server/Faults.antt =====
-- Calls of Shark_2_0_CLI/src/server/server_session.cpp that throw nothing, but may be undefined.
use chat_bot.Base.{◌≡◌, refl, Option, none, some, List, [], ◌∷◌}
use chat_bot.Wire.Reader.{Outcome, ok, throw, fault}
use chat_bot.Chat.Parts.{bytes_key, nat_key}
use chat_bot.Server.{◌>>=◌}
use chat_bot.Server.Dto.{StructDto, PacketDto, as_message_chat}
use chat_bot.Server.Replies.{packet_0, packet_1}

-- The call is undefined, or what it returns has the property.
abbrev pub FaultsOr {ℓ} : {A : Type ℓ} → (A → Type 0) → Outcome A → Type 0
FaultsOr P (ok a) = P a
FaultsOr P (throw e) = ⊥
FaultsOr P fault = Unit

pub FaultsOr-bind {ℓ κ} :
    {A : Type ℓ} {B : Type κ} (P : A → Type 0) (R : B → Type 0) (m : Outcome A) (f : A → Outcome B)
    → FaultsOr P m
    → ((a : A) → P a → FaultsOr R (f a))
    → FaultsOr R (m >>= f)
FaultsOr-bind P R (ok a) f h rest = rest a h
FaultsOr-bind P R (throw e) f h rest = absurd h
FaultsOr-bind P R fault f h rest = tt

pub never-FaultsOr {ℓ} : {A : Type ℓ} (m : Outcome A) → FaultsOr (λ a. ⊥) m → m ≡ fault
never-FaultsOr (ok a) h = absurd h
never-FaultsOr (throw e) h = absurd h
never-FaultsOr fault h = refl

packet_0-FaultsOr : (packets : List PacketDto) → FaultsOr (λ p. Unit) (packet_0 packets)
unfolding packet_0
packet_0-FaultsOr [] = tt
packet_0-FaultsOr (p ∷ ps) = tt

pub packet_1-FaultsOr : (packets : List PacketDto) → FaultsOr (λ p. Unit) (packet_1 packets)
unfolding packet_1
packet_1-FaultsOr [] = tt
packet_1-FaultsOr (p ∷ ps) = packet_0-FaultsOr ps

pub as_message_chat-FaultsOr :
    (pointer : Option StructDto) → FaultsOr (λ dto. Unit) (as_message_chat pointer)
unfolding as_message_chat
as_message_chat-FaultsOr none = tt
as_message_chat-FaultsOr (some (StructDto.message dto)) = tt
as_message_chat-FaultsOr (some (StructDto.message_chat dto)) = tt
as_message_chat-FaultsOr (some (StructDto.chat dto)) = tt
as_message_chat-FaultsOr (some (StructDto.user dto)) = tt
as_message_chat-FaultsOr (some (StructDto.user_login dto)) = tt
as_message_chat-FaultsOr (some (StructDto.user_login_password dto)) = tt
as_message_chat-FaultsOr (some (StructDto.responce dto)) = tt
