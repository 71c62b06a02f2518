-- ===== src/Messaging/Defs.antt =====
-- apps/messaging/models.py: its tables, and what the app calls outside of them.
use unified_communication_ba.Common.{ℕ, Bool, Option, List, Text}
use unified_communication_ba.Json.{Json}
use unified_communication_ba.Models.{Did, UserDid}
use unified_communication_ba.Contacts.{ContactNumber}
use unified_communication_ba.Outbox.{OutboxEvent}

pub record Conversation : Type 0 where
  pub id : ℕ
  pub tenant : ℕ
  pub did : ℕ
  pub is_group : Bool
  pub last_message_at : Option ℕ
  pub created_at : ℕ

pub record Participant : Type 0 where
  pub conversation : ℕ
  pub phone_number : Text
  pub contact_id : Option ℕ

pub data MessageDirection : Type 0 where
  inbound outbound : MessageDirection

pub data MessageStatus : Type 0 where
  queued sent delivered failed received : MessageStatus

pub record Message : Type 0 where
  pub id : ℕ
  pub conversation : ℕ
  pub tenant : ℕ
  pub did : ℕ
  pub user : Option ℕ
  pub direction : MessageDirection
  pub from_number : Text
  pub body : Text
  pub telnyx_message_id : Option Text
  pub status : MessageStatus
  pub error_code : Option Text
  pub error_detail : Option Text
  pub sent_at : Option ℕ
  pub delivered_at : Option ℕ
  pub created_at : ℕ

-- The conversations and their participants, and the id that the next conversation gets.
pub record Threads : Type 0 where
  pub conversations : List Conversation
  pub participants : List Participant
  pub next_id : ℕ

-- `MessageMedia`
pub record Media : Type 0 where
  pub id : ℕ
  pub message : ℕ
  pub source_url : Text
  pub file_path : Text
  pub content_type : Text
  pub size_bytes : ℕ

-- `ConversationRead`
pub record ReadState : Type 0 where
  pub conversation : ℕ
  pub user : ℕ
  pub last_read_at : ℕ

-- The tables that sending and receiving write; the ids of their new rows are taken from one counter.
pub record Store : Type 0 where
  pub threads : Threads
  pub messages : List Message
  pub media : List Media
  pub read_states : List ReadState
  pub events : List OutboxEvent
  pub next_id : ℕ

-- The tables that they only read.
pub record Directory : Type 0 where
  pub dids : List Did
  pub user_dids : List UserDid
  pub contacts : List ContactNumber

-- What `client.get(url)` gives: an answer, an `httpx.HTTPError`, or another exception.
pub data Fetched : Type 0 where
  answer : Option Text → ℕ → Fetched
  http_error : Fetched
  raises : Fetched

-- The clock, the text of a UUID, that of a time, Python's `str` of a list or a dict, and the download of a
-- URL with its Content-Type header and the length of its content.
pub record Outside : Type 0 where
  pub now : ℕ
  pub uuid_text : ℕ → Text
  pub time_text : ℕ → Text
  pub repr : Json → Text
  pub fetch : Text → Fetched
