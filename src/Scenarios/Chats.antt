-- ===== src/Scenarios/Chats.antt =====
-- A conversation of one owner: changes at a revision, a reset, and the dialogue for a reply.
use agent_chun_su.Base.{◌+◌, ℕ, ◌≡◌, refl, true, false, List, [], ◌∷◌, map, arith}
use agent_chun_su.Table.{find_by, exists, update_where}
use agent_chun_su.Store.Model.{ok, Error, err, message}
use agent_chun_su.Conversations.{
  Conversation, Chats, ChatEnv, HostReference, stored, load, new_conversation,
}
use agent_chun_su.Conversations.Switch.{bound, reset_locked}
use agent_chun_su.Conversations.Switch.Active.{IsActive, IsArchived, reset_locked-IsActive}
use agent_chun_su.Conversations.Edits.{said, turned, linked, ingested, IsStored}
use agent_chun_su.Conversations.Calls.{
  ChatCall, call_ensure, call_request, call_reset, call_select, perform_all, request_change,
}
use agent_chun_su.Conversations.Calls.Kept.{AllBound, perform_all-AllBound}
use agent_chun_su.Conversations.Calls.Once.{request_change-once}
use agent_chun_su.Conversations.Calls.Loaded.{request_change-unreadable}
use agent_chun_su.Conversations.Tidy.{AllTidy, IsTidy, perform_all-AllTidy}
use agent_chun_su.Conversations.Timeline.{history}
use agent_chun_su.Conversations.Timeline.Ordered.{
  IsMerged, message_entries, host_entry, history-IsMerged,
}

abbrev chat_env : ℕ → ℕ → ChatEnv
chat_env bytes fresh = record {
  max_source_bytes = 100;
  max_evidence_bytes = 1000;
  encoded_bytes = λ c. bytes;
  binding_hash = λ channel owner. 7;
  fresh = fresh;
}

-- The JSON of a conversation takes 999 bytes at its first revision, and a byte more at its second.
abbrev full_env : ChatEnv
full_env = record (chat_env 0 12) { encoded_bytes = λ c. c.revision + 998 }

abbrev first_chat : Conversation
first_chat = record {
  id = 11;
  channel = "telegram";
  owner = "owner";
  revision = 1;
  archived = false;
  turn_state = "idle";
  messages = [];
  message_revisions = [];
  host_events = [];
  job_ids = [];
  pending_decisions = [];
  processed_events = [];
}

abbrev chats : Chats
chats = record {
  items = stored 11 first_chat ∷ [];
  bindings = stored 7 (bound "telegram" "owner" 11) ∷ [];
}

abbrev linked_chat : Conversation
linked_chat = record first_chat { revision = 2; job_ids = 5 ∷ [] }

abbrev linked_chats : Chats
linked_chats = record chats { items = stored 11 linked_chat ∷ [] }

abbrev job_done : HostReference
job_done = record { id = 90; kind = "job"; summary = "done"; at_revision = 0 }

abbrev calls : List (ChatEnv × ChatCall)
calls =
    (chat_env 500 12, call_request 11 2 (said "user" "hello" "running"))
    ∷ (chat_env 500 12, call_request 11 3 (ingested job_done))
    ∷ (chat_env 500 12, call_ensure "telegram" "owner")
    ∷ (chat_env 500 12, call_reset "telegram" "owner" 7 (bound "telegram" "owner" 11))
    ∷ (chat_env 500 13, call_select "telegram" "owner" 11 7 (bound "telegram" "owner" 12))
    ∷ []

abbrev talked_chat : Conversation
talked_chat = record linked_chat {
  revision = 4;
  messages = record { role = "user"; content = "hello" } ∷ [];
  message_revisions = 3 ∷ [];
  host_events = record job_done { at_revision = 4 } ∷ [];
  processed_events = 90 ∷ [];
  turn_state = "running";
}

request_change-once_example :
    (e : Error) × (request_change
        (chat_env 500 12)
        11
        1
        (turned "idle")
        (perform_all calls linked_chats)
      ≡ (perform_all calls linked_chats, err e))
unfolding request_change find_by exists update_where
request_change-once_example =
    request_change-once (chat_env 500 12) (chat_env 500 12) 11 1 (linked 5) (turned "idle") calls
      chats linked_chats linked_chat refl

perform_all-AllBound_example : AllBound (perform_all calls linked_chats)
unfolding find_by
perform_all-AllBound_example =
    perform_all-AllBound calls linked_chats ((linked_chat, ((refl, refl), refl, refl)), tt)

linked_chat-IsTidy : IsTidy linked_chat
linked_chat-IsTidy = record {
  stamped = refl;
  messages_ascend = (tt, tt);
  events_ascend = (tt, tt);
  events_processed = refl;
  events_apart = tt;
  jobs_apart = (tt, tt);
}

perform_all-AllTidy_example : AllTidy (perform_all calls linked_chats)
perform_all-AllTidy_example = perform_all-AllTidy calls linked_chats (linked_chat-IsTidy, tt)

talked_chat-IsTidy : IsTidy talked_chat
talked_chat-IsTidy = record {
  stamped = refl;
  messages_ascend = ((tt, tt), (omega arith, tt));
  events_ascend = ((tt, tt), (omega arith, tt));
  events_processed = refl;
  events_apart = (tt, tt);
  jobs_apart = (tt, tt);
}

-- The dialogue, message first.
talked_history :
    history talked_chat
    ≡ record { role = "user"; content = "hello" }
      ∷ record { role = "host"; content = "job: done" }
      ∷ []
unfolding history
talked_history = refl

history-IsMerged_example :
    IsMerged
      (message_entries talked_chat.messages talked_chat.message_revisions)
      (map host_entry talked_chat.host_events)
      (history talked_chat)
history-IsMerged_example = history-IsMerged talked_chat talked_chat-IsTidy

abbrev reset_chats : Chats
reset_chats = record {
  items =
      stored 11 (record linked_chat { archived = true; revision = 3 })
      ∷ stored 12 (record first_chat { id = 12 })
      ∷ [];
  bindings = stored 7 (bound "telegram" "owner" 12) ∷ [];
}

reset_locked-IsActive_example :
    (prior : Conversation) × IsStored 11 prior linked_chats
    × (record first_chat { id = 12 } ≡ new_conversation 12 "telegram" "owner")
    × (IsActive 7 (record first_chat { id = 12 }) reset_chats × IsArchived prior reset_chats)
unfolding reset_locked find_by update_where
reset_locked-IsActive_example =
    reset_locked-IsActive (chat_env 500 12) "telegram" "owner" 7 (bound "telegram" "owner" 11)
      linked_chats reset_chats (record first_chat { id = 12 }) refl

request_change-unreadable_example :
    (request_change full_env 11 1 (linked 5) chats
      ≡ ((request_change full_env 11 1 (linked 5) chats).0, ok linked_chat))
    × (load full_env 11 (request_change full_env 11 1 (linked 5) chats).0
        ≡ err (message "file exceeds configured byte limit"))
unfolding request_change find_by exists update_where
request_change-unreadable_example =
    request_change-unreadable full_env 11 1 (linked 5) chats first_chat refl refl refl
