-- ===== src/Models.antt =====
-- internal/models/models.go: the data that the parts exchange. An instant is a number of
-- nanoseconds from an origin before every instant of a run.
pub mod Order
pub mod Sorted
use arko.Base.{ℕ, String, Bool, List, has_prefix}

pub data UserStatus : Type 0 where
  online offline away : UserStatus

pub data ChannelType : Type 0 where
  text voice : ChannelType

pub record User : Type 0 where
  pub id : String
  pub name : String
  pub avatar : String
  pub status : UserStatus
  pub homeserver : String
  pub e2ee : Bool

pub record Space : Type 0 where
  pub id : String
  pub name : String
  pub avatar : String
  pub status : String
  pub address : String
  pub nickname : String

pub record Channel : Type 0 where
  pub id : String
  pub name : String
  pub type : ChannelType
  pub space_id : String
  pub topic : String
  pub e2ee : Bool

pub record SpaceDetail : Type 0 where
  pub id : String
  pub name : String
  pub avatar : String
  pub address : String
  pub invite_url : String
  pub channels : List Channel
  pub users : List User

pub record Reaction : Type 0 where
  pub emoji : String
  pub count : ℕ
  pub has_current_user : Bool

pub data AttachmentType : Type 0 where
  file image : AttachmentType

pub record Attachment : Type 0 where
  pub type : AttachmentType
  pub name : String
  pub size : String
  pub url : String
  pub file_type : String
  pub alt_text : String

pub record Embed : Type 0 where
  pub title : String
  pub description : String
  pub url : String
  pub image_url : String
  pub site_name : String

pub record Message : Type 0 where
  pub id : String
  pub content : String
  pub author : User
  pub timestamp : ℕ
  pub nonce : String
  pub room_id : String
  pub reactions : List Reaction
  pub thread_count : ℕ
  pub thread_participants : List User
  pub last_thread_reply : ℕ
  pub attachments : List Attachment
  pub embeds : List Embed
  pub undecryptable : Bool
  pub redacted : Bool
  pub is_pinned : Bool
  pub is_system : Bool
  pub system_icon : String

unfoldable pub is_pending : Message → Bool
is_pending m = has_prefix m.id "pending-"

unfoldable pub is_decrypting : Message → Bool
is_decrypting m = has_prefix m.id "decrypting-"
