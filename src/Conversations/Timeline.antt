-- ===== src/Conversations/Timeline.antt =====
-- The dialogue that a reply is generated from: History of internal/conversationstate/store.go, which
-- merges the messages and the host's events by revision.
pub mod Ordered
use Prim.Native.String.{◌++◌ as str_append}
use agent_chun_su.Base.{
  ℕ, suc, ◌+◌, Bool, true, false, List, [], ◌∷◌, ◌++◌, map, String, ◌==◌, ltb, not, if◌then◌else◌,
}
use agent_chun_su.Table.{length}
use agent_chun_su.Conversations.{ChatEvent, HostReference, Conversation}

abbrev pub host_message : HostReference → ChatEvent
host_message e = record { role = "host"; content = str_append e.kind (str_append ": " e.summary) }

-- The loop while one message is first: the events up to it, the message, and then the rest.
unfoldable pub merge_message :
    ChatEvent → ℕ → (List HostReference → List ChatEvent) → List HostReference → List ChatEvent
merge_message m r rest [] = m ∷ rest []
merge_message m r rest (e ∷ es) =
    let later = merge_message m r rest es in
    if ltb r e.at_revision then m ∷ rest (e ∷ es) else host_message e ∷ later

-- The messages with their revisions; as many as both lists have.
unfoldable pub merge : List ChatEvent → List ℕ → List HostReference → List ChatEvent
unfolding merge_message
merge [] rs es = map host_message es
merge (m ∷ ms) [] es = map host_message es
merge (m ∷ ms) (r ∷ rs) es = merge_message m r (merge ms rs) es

unfoldable pub history : Conversation → List ChatEvent
unfolding merge
history c =
    if not (length c.message_revisions == length c.messages)
    then c.messages ++ map host_message c.host_events
    else merge c.messages c.message_revisions c.host_events
