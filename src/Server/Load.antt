-- ===== src/Server/Load.antt =====
-- How many messages a request to Shark_2_0_CLI/src/server/server_session.cpp may add, and that each
-- handler adds no more.
use chat_bot.Base.{
  ℕ, suc, ◌+◌, ◌-◌, ◌^◌, ◌≤◌, ◌<◌, inl, inr, none, some, not, List, [], ◌∷◌, arith, ◌==◌,
  Bool-cases, Option, length,
}
use chat_bot.Wire.ClassType
use chat_bot.Wire.Reader.{Outcome}
use chat_bot.Chat.Parts.{nat_key}
use chat_bot.Server.{Server, deref, lock_chat}
use chat_bot.Server.RequestType
use chat_bot.Server.Dto.{
  StructDto, PacketDto, UserDto, as_user, as_message, as_chat, as_message_chat,
}
use chat_bot.Server.Create.{
  create_user_srv, create_new_chat_srv, create_new_message_srv, create_new_message_chat_srv,
}
use chat_bot.Server.Replies.{Handled, packet_0, packet_1}
use chat_bot.Server.Objects.{
  create_user, first_message_id, create_messages, create_chat, create_message,
  processing_create_objects,
}
use chat_bot.Server.Ends.{Ensures, Ensures-bind, Ensures-any, Ensures-if, Returns-Ensures}
use chat_bot.Server.Sound.{create_user_srv-IsSound}
use chat_bot.Server.Messages.{
  IsRoomy-le, IsReady, create_new_message_srv-IsReady, create_new_message_chat_srv-IsReady,
}
use chat_bot.Server.Chats.{create_new_chat_srv-IsReady}

unfoldable pub struct_load : Option StructDto → ℕ
struct_load none = 0
struct_load (some (StructDto.message dto)) = 1
struct_load (some (StructDto.message_chat dto)) = length dto.messages
struct_load (some _) = 0

-- The messages of all packets.
unfoldable pub load : List PacketDto → ℕ
load [] = 0
load (p ∷ ps) = struct_load p.struct_dto_ptr + load ps

pub IsReady-le : (n k : ℕ) (s : Server) → k ≤ n → IsReady n s → IsReady k s
IsReady-le n k s le (sound, roomy) = (sound, IsRoomy-le n k s.chat_heap le roomy)

-- A handler leaves the server ready for n messages.
abbrev pub LeavesReady : ℕ → Outcome (Handled × Server) → Type 0
LeavesReady n = Ensures (λ r. IsReady n r.1)

create_user_srv-IsReady :
    (n : ℕ) (dto : UserDto) (s : Server) → IsReady n s → IsReady n (create_user_srv dto s)
unfolding create_user_srv
create_user_srv-IsReady n dto s (sound, roomy) = (create_user_srv-IsSound dto s sound, roomy)

pub create_user-LeavesReady :
    (n : ℕ) (packets : List PacketDto) (s : Server)
    → IsReady n s
    → LeavesReady n (create_user packets s)
unfolding create_user
create_user-LeavesReady n [] s ready = ready
create_user-LeavesReady n (packet ∷ packets) s ready =
    let P : Handled × Server → Type 0 = λ r. IsReady n r.1 in
    Ensures-if P (not (packet.struct_dto_class_type == ClassType.user)) _ _ ready (
      Ensures-any _ (as_user packet.struct_dto_ptr) _
        (λ dto. create_user_srv-IsReady n dto s ready))

packet_0-load :
    (packets : List PacketDto)
    → Ensures (λ p. struct_load p.struct_dto_ptr ≤ load packets) (packet_0 packets)
unfolding load packet_0
packet_0-load [] = tt
packet_0-load (p ∷ ps) = omega arith

packet_1-load :
    (packets : List PacketDto)
    → Ensures (λ p. struct_load p.struct_dto_ptr ≤ load packets) (packet_1 packets)
unfolding load packet_1 packet_0
packet_1-load [] = tt
packet_1-load (p ∷ []) = tt
packet_1-load (p ∷ q ∷ ps) = omega arith

as_message-load :
    (pointer : Option StructDto) → Ensures (λ dto. 1 ≤ struct_load pointer) (as_message pointer)
unfolding as_message struct_load
as_message-load none = tt
as_message-load (some (StructDto.message dto)) = omega arith
as_message-load (some (StructDto.message_chat dto)) = tt
as_message-load (some (StructDto.chat dto)) = tt
as_message-load (some (StructDto.user dto)) = tt
as_message-load (some (StructDto.user_login dto)) = tt
as_message-load (some (StructDto.user_login_password dto)) = tt
as_message-load (some (StructDto.responce dto)) = tt

as_message_chat-load :
    (pointer : Option StructDto)
    → Ensures (λ dto. length dto.messages ≤ struct_load pointer) (as_message_chat pointer)
unfolding as_message_chat struct_load
as_message_chat-load none = tt
as_message_chat-load (some (StructDto.message dto)) = tt
as_message_chat-load (some (StructDto.message_chat dto)) = omega arith
as_message_chat-load (some (StructDto.chat dto)) = tt
as_message_chat-load (some (StructDto.user dto)) = tt
as_message_chat-load (some (StructDto.user_login dto)) = tt
as_message_chat-load (some (StructDto.user_login_password dto)) = tt
as_message_chat-load (some (StructDto.responce dto)) = tt

create_messages-LeavesReady :
    (n id address : ℕ) (packets : List PacketDto) (s : Server)
    → load packets + n < 2 ^ 64 - 1
    → IsReady (load packets + n) s
    → LeavesReady n (create_messages id address packets s)
unfolding create_messages
create_messages-LeavesReady n id address packets s small ready =
    Ensures-bind _ _ (packet_1 packets) _ (packet_1-load packets) (λ packet fits.
      Ensures-bind _ _ (as_message_chat packet.struct_dto_ptr) _
        (as_message_chat-load packet.struct_dto_ptr)
        (λ dto length_fits.
          Ensures-bind (IsReady n) _ (create_new_message_chat_srv id dto.messages s) _
            (Returns-Ensures (IsReady n) (create_new_message_chat_srv id dto.messages s) (
              create_new_message_chat_srv-IsReady n id dto.messages s
                (omega (arith, fits, length_fits, small))
                (IsReady-le (load packets + n) (length dto.messages + n) s
                  (omega (arith, fits, length_fits)) ready)))
            (λ after left.
              Ensures-any _ (deref (lock_chat address after)) _
                (λ chat. Ensures-any _ (first_message_id chat) _ (λ first. left)))))

create_chat-LeavesReady :
    (n : ℕ) (packets : List PacketDto) (s : Server)
    → load packets + n < 2 ^ 64 - 1
    → IsReady (load packets + n) s
    → LeavesReady n (create_chat packets s)
unfolding create_chat
create_chat-LeavesReady n packets s small (sound, roomy) =
    let s' = record s { next_address = s.next_address + 1 } in
    let ready' : IsReady (load packets + n) s' = (
      record {
        consistent = sound.consistent;
        alive = sound.alive;
        listed = sound.listed;
        server = sound.server;
      },
      roomy,
    ) in
    Ensures-any _ (packet_0 packets) _ (λ packet.
      Ensures-any _ (as_chat packet.struct_dto_ptr) _ (λ dto.
        Ensures-bind (λ r. IsReady (load packets + n) r.1) _
          (create_new_chat_srv s.next_address dto s') _
          (Returns-Ensures (λ r. IsReady (load packets + n) r.1)
            (create_new_chat_srv s.next_address dto s')
            (create_new_chat_srv-IsReady (load packets + n) s.next_address dto s' small ready'))
          (λ r left. elim (Bool-cases (r.0 == 0)) [
            | inl failed ↦ rw failed (IsReady-le (load packets + n) n r.1 (omega arith) left)
            | inr made ↦
                rw made (create_messages-LeavesReady n r.0 s.next_address packets r.1 small left)
          ])))

create_message-LeavesReady :
    (n : ℕ) (packets : List PacketDto) (s : Server)
    → load packets + n < 2 ^ 64 - 1
    → IsReady (load packets + n) s
    → LeavesReady n (create_message packets s)
unfolding create_message
create_message-LeavesReady n packets s small ready =
    Ensures-bind _ _ (packet_0 packets) _ (packet_0-load packets) (λ packet fits.
      Ensures-bind _ _ (as_message packet.struct_dto_ptr) _ (as_message-load packet.struct_dto_ptr)
        (λ dto counted.
          Ensures-bind (λ r. IsReady n r.1) _ (create_new_message_srv dto s) _
            (Returns-Ensures (λ r. IsReady n r.1) (create_new_message_srv dto s)
              (create_new_message_srv-IsReady n dto s (omega (arith, fits, counted, small))
                (IsReady-le (load packets + n) (suc n) s (omega (arith, fits, counted)) ready)))
            (λ r left. elim (Bool-cases (r.0 == 0)) [
              | inl failed ↦ rw failed left
              | inr made ↦ rw made left
            ])))

-- The objects that a request creates leave the server ready for n messages more, where it was ready
-- for those of the request besides.
pub processing_create_objects-LeavesReady :
    (n request_type : ℕ) (packets : List PacketDto) (s : Server)
    → load packets + n < 2 ^ 64 - 1
    → IsReady (load packets + n) s
    → LeavesReady n (processing_create_objects request_type packets s)
unfolding processing_create_objects
processing_create_objects-LeavesReady n t packets s small ready =
    let P : Handled × Server → Type 0 = λ r. IsReady n r.1 in
    let less = IsReady-le (load packets + n) n s (omega arith) ready in
    Ensures-if P (t == RequestType.create_user) _ _ (create_user-LeavesReady n packets s less) (
      Ensures-if P (t == RequestType.create_chat) _ _
        (create_chat-LeavesReady n packets s small ready)
        (Ensures-if P (t == RequestType.create_message) _ _
          (create_message-LeavesReady n packets s small ready) less))
