-- ===== src/Conversations.antt =====
-- The chat continuity of internal/conversationstate/store.go: the records of conversations, which
-- conversation is active for a channel and an owner, and the reads and writes of their files. An
-- operation takes the files and returns them with the result that the caller sees: what was written
-- before an error stays written.
pub mod Calls
pub mod Change
pub mod Edits
pub mod Switch
pub mod Tidy
pub mod Timeline
use Prim.Native.String.{len}
use Prim.Native.Char.{code}
use agent_chun_su.Base.{
  ℕ, suc, ◌+◌, Bool, true, false, List, [], ◌∷◌, ◌++◌, Option, none, some, String, ◌==◌, ◌&&◌, ◌||◌,
  ltb, leb, str_eq, not, if◌then◌else◌,
}
use agent_chun_su.Table.{find_by, update_where}
use agent_chun_su.Store.Model.{Error, Result, ok, err, message}
use agent_chun_su.Store.Txn.{◌>>=◌, ◌>>◌, refuse_if, or_fail}

-- conversation.Event.
pub record ChatEvent : Type 0 where
  pub role : String
  pub content : String

pub record HostReference : Type 0 where
  pub id : ℕ
  pub kind : String
  pub summary : String
  pub at_revision : ℕ

pub record Conversation : Type 0 where
  pub id : ℕ
  pub channel : String
  pub owner : String
  pub revision : ℕ
  pub archived : Bool
  pub turn_state : String
  pub messages : List ChatEvent
  pub message_revisions : List ℕ
  pub host_events : List HostReference
  pub job_ids : List ℕ
  pub pending_decisions : List ℕ
  pub processed_events : List ℕ

pub record Binding : Type 0 where
  pub channel : String
  pub owner : String
  pub active : ℕ

-- A file below `conversations/items` or `conversations/bindings`, by its name.
pub record Stored (A : Type 0) : Type 0 where
  pub name : ℕ
  pub value : A

pub record Chats : Type 0 where
  pub items : List (Stored Conversation)
  pub bindings : List (Stored Binding)

-- The limits, the number of bytes that encoding/json prints for a conversation, SHA-256 of a channel
-- and an owner as a number, and the id that files.ID draws.
pub record ChatEnv : Type 0 where
  pub max_source_bytes : ℕ
  pub max_evidence_bytes : ℕ
  pub encoded_bytes : Conversation → ℕ
  pub binding_hash : String → String → ℕ
  pub fresh : ℕ

-- An operation on the files.
abbrev pub Action : Type 0 → Type 0
Action A = Chats → Chats × Result A

abbrev pub go_on : {A B : Type 0} → (A → Action B) → Chats × Result A → Chats × Result B
go_on next (cs, ok a) = next a cs
go_on next (cs, err e) = (cs, err e)

infixl 5 ◌then_do◌
abbrev pub ◌then_do◌ : {A B : Type 0} → Action A → (A → Action B) → Action B
◌then_do◌ m next cs = go_on next (m cs)

abbrev pub stored_key : {A : Type 0} → Stored A → ℕ
stored_key f = f.name

abbrev pub is_named : {A : Type 0} → ℕ → Stored A → Bool
is_named n f = f.name == n

abbrev pub stored : {A : Type 0} → ℕ → A → Stored A
stored n a = record { name = n; value = a }

abbrev pub set_stored : {A : Type 0} → A → Stored A → Stored A
set_stored a f = record f { value = a }

-- files.Write: a new file by a link, which never overwrites, or by a rename over what is there.
unfoldable pub put_file : {A : Type 0} → ℕ → A → Bool → List (Stored A) → Result (List (Stored A))
put_file n a replace fs = elim (find_by stored_key n fs) [
  | none ↦ ok (fs ++ (stored n a ∷ []))
  | some f ↦
      if replace
      then ok (update_where (is_named n) (set_stored a) fs)
      else err (message "file exists")
]

abbrev pub missing : Error
missing = message "file does not exist"

-- ErrRevision.
abbrev pub err_revision : Error
err_revision =
    message
      "conversation changed while the reply was running; inspect the current conversation before retrying"

-- files.ValidID: 0 stands for every text that it refuses.
unfoldable pub valid_id : ℕ → Bool
valid_id id = not (id == 0)

-- The file of a conversation has one byte more than its JSON: write ends it with a newline.
unfoldable pub file_bytes : ChatEnv → Conversation → ℕ
file_bytes env c = env.encoded_bytes c + 1

-- files.Read of the file of a conversation, and its decoding.
unfoldable pub load_item : ChatEnv → ℕ → Chats → Result Conversation
unfolding file_bytes
load_item env id cs = do
  refuse_if (env.max_evidence_bytes == 0) (message "read limit must be positive")
  f ← or_fail (find_by stored_key id cs.items) missing
  refuse_if (ltb env.max_evidence_bytes (file_bytes env f.value))
      (message "file exceeds configured byte limit")
  ok f.value

unfoldable pub read : ChatEnv → ℕ → Chats → Result Conversation
unfolding valid_id load_item
read env id cs = do
  refuse_if (not (valid_id id)) (message "invalid conversation ID")
  c ← load_item env id cs
  refuse_if (not (c.id == id) || c.revision == 0) (message "invalid conversation record")
  ok c

-- The action that reads.
abbrev pub reading : {A : Type 0} → (Chats → Result A) → Action A
reading look cs = (cs, look cs)

abbrev pub with_items : Chats → Result (List (Stored Conversation)) → Chats × Result (Unit {0})
with_items cs (ok items) = (record cs { items = items }, ok tt)
with_items cs (err e) = (cs, err e)

abbrev pub with_bindings : Chats → Result (List (Stored Binding)) → Chats × Result (Unit {0})
with_bindings cs (ok bindings) = (record cs { bindings = bindings }, ok tt)
with_bindings cs (err e) = (cs, err e)

unfoldable pub checked_write :
    ChatEnv → Conversation → Bool → Chats → Result (List (Stored Conversation))
unfolding valid_id put_file
checked_write env c replace cs = do
  refuse_if (not (valid_id c.id)) (message "invalid conversation ID")
  refuse_if (ltb env.max_evidence_bytes (env.encoded_bytes c))
      (message "conversation storage limit reached; start a new conversation")
  put_file c.id c replace cs.items

unfoldable pub write : ChatEnv → Conversation → Bool → Action (Unit {0})
unfolding checked_write
write env c replace cs = with_items cs (checked_write env c replace cs)

unfoldable pub write_binding : ℕ → Binding → Bool → Action (Unit {0})
unfolding put_file
write_binding n b replace cs = with_bindings cs (put_file n b replace cs.bindings)

-- Store.Load.
unfoldable pub load : ChatEnv → ℕ → Chats → Result Conversation
unfolding read
load env id cs = read env id cs

-- strings.ContainsAny(v, "\x00\n\r").
unfoldable has_control : String → Bool
has_control String.[] = false
has_control (String.◌∷◌ c s) = code c == 0 || (code c == 10 || (code c == 13 || has_control s))

unfoldable pub binding_name : ChatEnv → String → String → Result ℕ
unfolding has_control
binding_name env channel owner =
    if str_eq channel ""
      || str_eq owner ""
      || ltb 512 (len channel + len owner)
      || has_control channel
      || has_control owner
    then err (message "invalid conversation binding")
    else ok (env.binding_hash channel owner)

-- Store.binding.
unfoldable pub active_binding : ℕ → Chats → Result Binding
unfolding valid_id
active_binding n cs = do
  f ← or_fail (find_by stored_key n cs.bindings) missing
  refuse_if (not (valid_id f.value.active)) (message "invalid conversation binding")
  ok f.value

-- The conversation that Ensure and Reset start.
unfoldable pub new_conversation : ℕ → String → String → Conversation
new_conversation id channel owner = record {
  id = id;
  channel = channel;
  owner = owner;
  revision = 1;
  archived = false;
  turn_state = "idle";
  messages = [];
  message_revisions = [];
  host_events = [];
  job_ids = [];
  pending_decisions = [];
  processed_events = [];
}
