-- ===== src/Matrix/Event.antt =====
-- The fields of mautrix's `event.Event` that the package reads, and what it takes from mautrix and
-- from the session when it turns an event into a message.
use arko.Base.{ℕ, String, Option}
use arko.Models.{User}

pub data EventType : Type 0 where
  encrypted message reaction sticker redaction other : EventType

-- `body` is the content's text where the content parses as a message, `redacted_because` the reason
-- of the redaction that the server names for the event, and `reason` that of a redaction event.
-- Timestamps are milliseconds.
pub record Event : Type 0 where
  pub id : String
  pub sender : String
  pub room_id : String
  pub type : EventType
  pub timestamp : ℕ
  pub body : Option String
  pub reason : String
  pub transaction_id : String
  pub redacted_because : Option String
  pub redacts : String

-- `GetUserProfile`, as the session answers it at the time, and `id.UserID.Localpart`.
pub record Env : Type 0 where
  pub profile : String → User
  pub localpart : String → String
