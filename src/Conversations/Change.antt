-- ===== src/Conversations/Change.antt =====
-- The changes of one conversation: GuardAction, Change, Append, Mark, LinkJob and IngestEvent of
-- internal/conversationstate/store.go. Each runs under the leases that the code holds, so that no
-- other operation runs between its reads and its write.
use Prim.Native.String.{len}
use Prim.Native.Char.{code}
use agent_chun_su.Base.{
  ℕ, suc, Bool, true, List, [], ◌∷◌, ◌++◌, String, ◌==◌, ◌&&◌, ◌||◌, ltb, leb, str_eq, not,
  if◌then◌else◌,
}
use agent_chun_su.Table.{exists}
use agent_chun_su.Store.Model.{Result, ok, message}
use agent_chun_su.Store.Txn.{◌>>=◌, ◌>>◌, refuse_if}
use agent_chun_su.Conversations.{
  HostReference, Conversation, Chats, ChatEnv, Action, ◌then_do◌, reading, read, write, load,
  err_revision, valid_id,
}

-- The conversation that an operation meant to change.
unfoldable pub current_at : ChatEnv → ℕ → ℕ → Chats → Result Conversation
unfolding read
current_at env id revision cs = do
  c ← read env id cs
  refuse_if (not (c.revision == revision) || c.archived) err_revision
  ok c

unfoldable pub guard_action : {A : Type 0} → ChatEnv → ℕ → ℕ → Action A → Action A
unfolding valid_id load
guard_action env id revision action =
    reading (λ cs. do
      refuse_if (not (valid_id id)) (message "invalid conversation ID")
      c ← load env id cs
      refuse_if (not (c.revision == revision) || c.archived) err_revision)
    then_do λ u. action

abbrev pub next_revision : Conversation → Conversation
next_revision c = record c { revision = suc c.revision }

unfoldable pub save_next : ChatEnv → Conversation → Action Conversation
unfolding write
save_next env c = write env c true then_do λ u. reading (λ cs. ok c)

unfoldable pub change_with :
    ChatEnv → ℕ → ℕ → (Conversation → Result Conversation) → Action Conversation
unfolding current_at save_next
change_with env id revision change =
    reading (λ cs. current_at env id revision cs >>= change) then_do λ c.
    save_next env (next_revision c)

-- unicode.IsSpace.
unfoldable is_space : ℕ → Bool
is_space n =
    (leb 9 n && leb n 13)
    || n == 32
    || n == 133
    || n == 160
    || n == 5760
    || (leb 8192 n && leb n 8202)
    || n == 8232
    || n == 8233
    || n == 8239
    || n == 8287
    || n == 12288

-- strings.TrimSpace(s) == "".
unfoldable pub is_blank : String → Bool
unfolding is_space
is_blank String.[] = true
is_blank (String.◌∷◌ c s) = is_space (code c) && is_blank s

abbrev pub add_message : String → String → String → Conversation → Conversation
add_message role content turn_state c = record c {
  messages = c.messages ++ (record { role = role; content = content } ∷ []);
  message_revisions = c.message_revisions ++ (suc c.revision ∷ []);
  turn_state = turn_state;
}

unfoldable pub check_message : ChatEnv → String → String → Result (Unit {0})
unfolding is_blank
check_message env role content = do
  refuse_if (not (str_eq role "user" || str_eq role "assistant"))
      (message "only ordinary dialogue can be retained")
  refuse_if (is_blank content || ltb env.max_source_bytes (len content))
      (message "conversation message exceeds configured limit")

-- Store.Append.
unfoldable pub append_message : ChatEnv → ℕ → ℕ → String → String → String → Action Conversation
unfolding change_with check_message
append_message env id revision role content turn_state =
    reading (λ cs. check_message env role content) then_do λ u.
    change_with env id revision (λ c. ok (add_message role content turn_state c))

abbrev pub set_turn : String → Conversation → Conversation
set_turn state c = record c { turn_state = state }

unfoldable pub check_turn : String → Result (Unit {0})
check_turn state =
    refuse_if (not (str_eq state "idle" || str_eq state "running" || str_eq state "uncertain"))
      (message "invalid turn state")

-- Store.Mark.
unfoldable pub mark_turn : ChatEnv → ℕ → ℕ → String → Action Conversation
unfolding change_with check_turn
mark_turn env id revision state = reading (λ cs. check_turn state) then_do λ u.
    change_with env id revision (λ c. ok (set_turn state c))

-- slices.Contains.
unfoldable pub contains : List ℕ → ℕ → Bool
contains ks k = exists (λ j. j == k) ks

unfoldable pub link : ℕ → Conversation → Conversation
unfolding contains
link job c = if contains c.job_ids job then c else record c { job_ids = c.job_ids ++ (job ∷ []) }

unfoldable pub check_job : ℕ → Result (Unit {0})
unfolding valid_id
check_job job = refuse_if (not (valid_id job)) (message "invalid job ID")

unfoldable pub link_job : ChatEnv → ℕ → ℕ → ℕ → Action Conversation
unfolding change_with link check_job
link_job env id revision job =
    reading (λ cs. check_job job) then_do λ u. change_with env id revision (λ c. ok (link job c))

unfoldable pub ingest : HostReference → Conversation → Conversation
unfolding contains
ingest event c = if contains c.processed_events event.id then c else record c {
  processed_events = c.processed_events ++ (event.id ∷ []);
  host_events = c.host_events ++ (record event { at_revision = suc c.revision } ∷ []);
}

unfoldable pub check_event : ChatEnv → HostReference → Result (Unit {0})
unfolding valid_id
check_event env event =
    refuse_if
      (not (valid_id event.id)
        || str_eq event.kind ""
        || ltb env.max_source_bytes (len event.summary))
      (message "invalid host event")

unfoldable pub ingest_event : ChatEnv → ℕ → ℕ → HostReference → Action Conversation
unfolding change_with ingest check_event
ingest_event env id revision event = reading (λ cs. check_event env event) then_do λ u.
    change_with env id revision (λ c. ok (ingest event c))
