-- ===== src/Blackboard.antt =====
-- internal/ipc/blackboard.go: the topics that agents publish to and poll.
--
-- `b.mu` is held over each operation, so an operation is a function on the blackboard. Sizes and
-- counters are Go's `int`: a size is an integer, and the counters only ever add what is not negative,
-- so they are natural numbers; a sum past 63 bits is out of the model.
pub mod Delivery
mod Tests
use os_complete.Base.{
  ℕ, suc, ◌+◌, String, List, [], ◌∷◌, ◌++◌, Option, none, some, lookup_or, insert, ite, dec_str,
  length, drop, ℤ, pos, negsuc, leb, if◌then◌else◌,
}
use os_complete.Events.{Clock, later}

pub record PublishRequest : Type 0 where
  pub topic : String
  pub publisher : String
  pub page_id : String
  pub size_bytes : ℤ
  pub ipc_mode : String

pub record Message : Type 0 where
  pub id : String
  pub topic : String
  pub publisher : String
  pub page_id : String
  pub size_bytes : ℕ
  pub ipc_mode : String
  pub content : String
  pub created_at : ℕ

pub record Metric : Type 0 where
  pub evidence_mode : String
  pub topic : String
  pub total_messages : ℕ
  pub delivered_messages : ℕ
  pub topic_depth : ℕ
  pub avoided_copy_bytes : ℕ
  pub ipc_mode : String

pub record Blackboard : Type 0 where
  pub topics : List (String × List Message)
  pub offsets : List (String × List (String × ℕ))
  pub total : ℕ
  pub avoided_copy : ℕ

unfoldable pub new_blackboard : Blackboard
new_blackboard = record { topics = []; offsets = []; total = 0; avoided_copy = 0 }

-- `b.topics[topic]`, and `b.offsets[topic][subscriber]`.
unfoldable pub messages_of : String → Blackboard → List Message
messages_of topic b = lookup_or dec_str [] topic b.topics

unfoldable pub offset_of : String → String → Blackboard → ℕ
offset_of topic subscriber b = lookup_or dec_str 0 subscriber (lookup_or dec_str [] topic b.offsets)

metric_locked : String → ℕ → ℕ → Blackboard → Metric
unfolding messages_of
metric_locked topic delivered avoided b = record {
  evidence_mode = "real-partial";
  topic = topic;
  total_messages = b.total;
  delivered_messages = delivered;
  topic_depth = length (messages_of topic b);
  avoided_copy_bytes = avoided;
  ipc_mode = "";
}

-- A negative size counts as 0, and an empty mode stands for "page-reference".
unfoldable pub size_of : ℤ → ℕ
size_of (pos n) = n
size_of (negsuc n) = 0

unfoldable pub mode_of : String → String
mode_of mode = ite (dec_str mode "") "page-reference" mode

unfoldable pub new_message : Clock → PublishRequest → Message
unfolding size_of mode_of
new_message now req = record {
  id = (now 0).formatted;
  topic = req.topic;
  publisher = req.publisher;
  page_id = req.page_id;
  size_bytes = size_of req.size_bytes;
  ipc_mode = mode_of req.ipc_mode;
  content = "";
  created_at = (now 1).unix_milli;
}

unfoldable pub publish : Clock → PublishRequest → Blackboard → Blackboard × Metric
unfolding new_message messages_of metric_locked
publish now req b =
    let b' = record b {
      topics =
          insert dec_str req.topic (messages_of req.topic b ++ new_message now req ∷ []) b.topics;
      total = b.total + 1;
      avoided_copy = b.avoided_copy + size_of req.size_bytes;
    } in
    (
      b',
      record (metric_locked req.topic 0 (size_of req.size_bytes) b') {
        ipc_mode = mode_of req.ipc_mode;
      },
    )

-- The sum of the sizes, and the mode of the last message.
unfoldable pub total_size : List Message → ℕ
total_size [] = 0
total_size (message ∷ rest) = message.size_bytes + total_size rest

last_mode : String → List Message → String
last_mode mode [] = mode
last_mode mode (message ∷ rest) = last_mode message.ipc_mode rest

unfoldable pub poll : String → String → Blackboard → Blackboard × List Message × Metric
unfolding messages_of offset_of metric_locked total_size last_mode
poll topic subscriber b =
    let messages = messages_of topic b in
    let start = offset_of topic subscriber b in
    let start' = if leb start (length messages) then start else length messages in
    let delivered = drop start' messages in
    let b' = record b {
      offsets =
          insert dec_str topic
            (insert dec_str subscriber (length messages) (lookup_or dec_str [] topic b.offsets))
            b.offsets;
    } in
    let metric = metric_locked topic (length delivered) (total_size delivered) b' in
    (b', delivered, record metric { ipc_mode = last_mode metric.ipc_mode delivered })

unfoldable pub metrics : Blackboard → Metric
metrics b = record {
  evidence_mode = "real-partial";
  topic = "";
  total_messages = b.total;
  delivered_messages = 0;
  topic_depth = b.total;
  avoided_copy_bytes = b.avoided_copy;
  ipc_mode = "";
}
