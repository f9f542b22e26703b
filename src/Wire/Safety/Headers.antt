-- ===== src/Wire/Safety/Headers.antt =====
-- What deSerializeFromBinary does on any buffer, by the class in its header.
use chat_bot.Base.{
  ℕ, ◌≤◌, ◌<◌, ◌≡◌, ◌≢◌, ◌↔◌, ◌⊎◌, inl, inr, subst, sym, ap, ◌∙◌, arith, le→ltb, lt→ltb, length,
}
use native.Mathlib.Decide.{dec_lt}
use chat_bot.Wire.Host.{Host}
use chat_bot.Wire.Reader.{
  Exception, wrong_packet_size, unsupported_deserialize_type, Outcome, ok, throw, fault, Bytes,
  Reader, fail,
}
use chat_bot.Wire.Dto.{StructDto, responce, user_login, user_login_password, user}
use chat_bot.Wire.ClassType
use chat_bot.Wire.Decode.{wrap, read_struct, read_header, after_header, deserialize_from_binary}
use chat_bot.Wire.Safety.Rules.{
  Safe, Takes, Takes-bind, Takes-pure, Takes-u32, Safe-bind, Safe-pure,
}
use chat_bot.Wire.Safety.Account.{
  Safe-responce, Safe-user_login, Safe-user_login_password, Safe-user,
}
use chat_bot.Wire.Safety.Bounds.{
  Overruns, Overruns-first, Overruns-chat, Overruns-message, Overruns-message_chat,
}

Safe-wrap : {A : Type 0} {m : Reader A} (f : A → StructDto) → Safe 0 m → Safe 0 (wrap m f)
unfolding wrap
Safe-wrap f h = Safe-bind 0 _ h λ a. Safe-pure _

Safe-fail : {A : Type 0} (e : Exception) → Safe {A = A} 0 (fail e)
unfolding fail
Safe-fail e = record { run = λ bytes enough p. cc }

same_rest :
    {A : Type 0} {o : Outcome (A × Bytes)} {a b : A} {rest more : Bytes}
    → o ≡ ok (a, rest)
    → o ≡ ok (b, more)
    → rest ≡ more
same_rest e k = cc

class_cases : (c : ℕ) → 2 < c → (c ≡ 3) ⊎ ((c ≡ 4) ⊎ ((c ≡ 5) ⊎ ((c ≡ 6) ⊎ (6 < c))))
class_cases c h = grind arith

small_cases : (c : ℕ) → c ≤ 2 → (c ≡ 0) ⊎ ((c ≡ 1) ⊎ (c ≡ 2))
small_cases c h = grind arith

module _ (host : Host) where
  pub Takes-header : Takes 12 (read_header host)
  unfolding read_header
  Takes-header = Takes-bind 4 8 _ (Takes-u32 host) λ request.
      Takes-bind 4 4 _ (Takes-u32 host)
        λ class_type. Takes-bind 4 0 _ (Takes-u32 host) λ direction. Takes-pure _

module _ (host : Host) (unset : ℕ) where
  read_struct_unknown :
      (c : ℕ) → 6 < c → read_struct host unset c ≡ fail unsupported_deserialize_type
  unfolding read_struct
  read_struct_unknown c h = ground arith

  Safe-struct : (c : ℕ) → 2 < c → Safe 0 (read_struct host unset c)
  unfolding read_struct
  Safe-struct c h = elim (class_cases c h) [
    | inl e ↦ rw e (Safe-wrap user (Safe-user host))
    | inr (inl e) ↦ rw e (Safe-wrap user_login (Safe-user_login host))
    | inr (inr (inl e)) ↦ rw e (Safe-wrap user_login_password (Safe-user_login_password host))
    | inr (inr (inr (inl e))) ↦ rw e (Safe-wrap responce (Safe-responce host))
    | inr (inr (inr (inr more))) ↦ subst (Safe 0) (sym (read_struct_unknown c more)) (Safe-fail _)
  ]

  Overruns-struct : (c : ℕ) → c ≤ 2 → Overruns 8 (read_struct host unset c)
  unfolding read_struct wrap
  Overruns-struct c h = elim (small_cases c h) [
    | inl e ↦ rw e (Overruns-first 8 _ (Overruns-message host))
    | inr (inl e) ↦ rw e (Overruns-first 8 _ (Overruns-message_chat host unset))
    | inr (inr e) ↦ rw e (Overruns-first 8 _ (Overruns-chat host))
  ]

  from_header :
      (buffer : Bytes) {request class_type direction : ℕ} {rest : Bytes}
      → 13 ≤ length buffer
      → read_header host buffer ≡ ok ((request, class_type, direction), rest)
      → deserialize_from_binary host unset buffer
        ≡ after_header host unset (ok ((request, class_type, direction), rest))
  unfolding deserialize_from_binary
  from_header buffer long e = rw (le→ltb _ 13 long, e)

  too_short :
      (buffer : Bytes)
      → length buffer < 13
      → deserialize_from_binary host unset buffer ≡ throw wrong_packet_size
  unfolding deserialize_from_binary
  too_short buffer short = rw (lt→ltb _ 13 short)

  after_header-ne-fault :
      (request class_type direction : ℕ) (rest : Bytes)
      → read_struct host unset class_type rest ≢ fault
      → after_header host unset (ok ((request, class_type, direction), rest)) ≢ fault
  unfolding after_header
  after_header-ne-fault request class_type direction rest h = ground (arith, h)

  after_header-fault :
      (request class_type direction : ℕ) (rest : Bytes)
      → read_struct host unset class_type rest ≡ fault
      → after_header host unset (ok ((request, class_type, direction), rest)) ≡ fault
  unfolding after_header
  after_header-fault request class_type direction rest e = rw (e, after_header)

  after_header-ne-throw :
      (request class_type direction : ℕ) (rest : Bytes) (x : Exception)
      → after_header host unset (ok ((request, class_type, direction), rest)) ≢ throw x
  unfolding after_header
  after_header-ne-throw request class_type direction rest x = ground arith

  -- deSerializeFromBinary reads within the bounds of every buffer whose header names a class
  -- above chatDTO: userDTO, userLoginDTO, userLoginPasswordDTO, responceDTO or an unknown one.
  pub deserialize_within_bounds :
      (buffer : Bytes) (request class_type direction : ℕ) (rest : Bytes)
      → read_header host buffer ≡ ok ((request, class_type, direction), rest)
      → ClassType.chat < class_type
      → deserialize_from_binary host unset buffer ≢ fault
  deserialize_within_bounds buffer request class_type direction rest e h =
      elim (dec_lt (length buffer) 13) [
        | yes short ↦ rw (too_short buffer short) (λ p. cc)
        | no long ↦ rw (from_header buffer (omega arith) e) (
            after_header-ne-fault request class_type direction rest
              ((Safe-struct class_type h).run rest (omega arith)))
      ]

  -- Of a buffer of 13 to 19 bytes whose header names messageDTO, messageChatDTO or chatDTO,
  -- deSerializeFromBinary reads elements past the end, which has no defined behaviour.
  pub deserialize_overruns :
      (buffer : Bytes) (request class_type direction : ℕ) (rest : Bytes)
      → read_header host buffer ≡ ok ((request, class_type, direction), rest)
      → class_type ≤ ClassType.chat
      → 13 ≤ length buffer
      → length buffer < 20
      → deserialize_from_binary host unset buffer ≡ fault
  deserialize_overruns buffer request class_type direction rest e h long short =
      let (a, more, e', size) = (Takes-header host).run buffer (omega arith) in
      rw (from_header buffer long e) (
        after_header-fault request class_type direction rest
          ((Overruns-struct class_type h).run rest (omega (arith, ap length (same_rest e e')))))

  -- deSerializeFromBinary throws on the buffers below 13 bytes, and on no other: an exception
  -- inside a longer packet is caught.
  pub deserialize-eq-throw :
      (buffer : Bytes)
      → ((x : Exception) × (deserialize_from_binary host unset buffer ≡ throw x))
        ↔ (length buffer < 13)
  deserialize-eq-throw buffer = (throws, λ short. (wrong_packet_size, too_short buffer short))
    where
      throws :
          ((x : Exception) × (deserialize_from_binary host unset buffer ≡ throw x))
          → length buffer < 13
      throws (x, p) = elim (dec_lt (length buffer) 13) [
        | yes short ↦ short
        | no long ↦
            let (a, rest, e, size) = (Takes-header host).run buffer (omega arith) in
            absurd (
              after_header-ne-throw a.0 a.1 a.2 rest x
                (sym (from_header buffer (omega arith) e) ∙ p))
      ]
