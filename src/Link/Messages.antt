-- ===== src/Link/Messages.antt =====
-- The numbers of protocol/schema/protocol.json: no two messages and no two errors have the same one.
use rsmicro.Prelude.{◌≡◌, refl, some}
use rsmicro.Link.Ids.{Message, message_id, messages, LinkError, error_id, errors, named}

-- The numbers are distinct: a table gives back the message or the error that has a number.
named-message_id : (m : Message) → named message_id messages (message_id m) ≡ some m
unfolding named message_id
named-message_id Message.hello = refl
named-message_id _ = refl

named-error_id : (e : LinkError) → named error_id errors (error_id e) ≡ some e
unfolding named error_id
named-error_id LinkError.bad_frame = refl
named-error_id _ = refl
