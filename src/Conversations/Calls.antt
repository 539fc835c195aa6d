-- ===== src/Conversations/Calls.antt =====
-- Any use of the operations of internal/conversationstate/store.go is a sequence of edits.
pub mod Kept
pub mod Loaded
pub mod Once
use agent_chun_su.Base.{ℕ, ◌≡◌, refl, List, [], ◌∷◌, String}
use agent_chun_su.Store.Model.{Result, ok, err}
use agent_chun_su.Conversations.{Action, reading, ◌then_do◌, Conversation, Binding, Chats, ChatEnv}
use agent_chun_su.Conversations.Change.{
  change_with, check_message, check_turn, check_job, check_event, append_message, mark_turn,
  link_job, ingest_event,
}
use agent_chun_su.Conversations.Switch.{ensure, reset_locked, select_locked}
use agent_chun_su.Conversations.Edits.{
  Update, said, turned, linked, ingested, apply_update, OneWrite, Edits, stay, edit,
}
use agent_chun_su.Conversations.Edits.Switching.{ensure-Edits, reset-Edits, select-Edits}
use agent_chun_su.Conversations.Edits.Parts.{change-Edits}

-- A request to change a conversation that was seen at a revision.
unfoldable pub request_change : ChatEnv → ℕ → ℕ → Update → Action Conversation
unfolding append_message mark_turn link_job ingest_event
request_change env id revision (said role content state) =
    append_message env id revision role content state
request_change env id revision (turned state) = mark_turn env id revision state
request_change env id revision (linked job) = link_job env id revision job
request_change env id revision (ingested event) = ingest_event env id revision event

-- A call of an operation, whatever its arguments.
pub data ChatCall : Type 0 where
  call_ensure : String → String → ChatCall
  call_request : ℕ → ℕ → Update → ChatCall
  call_reset : String → String → ℕ → Binding → ChatCall
  call_select : String → String → ℕ → ℕ → Binding → ChatCall

-- Reset and Select under their locks, with what they saw before.
unfoldable pub perform : ChatEnv → ChatCall → Chats → Chats
unfolding ensure request_change reset_locked select_locked
perform env (call_ensure channel owner) cs = (ensure env channel owner cs).0
perform env (call_request id revision u) cs = (request_change env id revision u cs).0
perform env (call_reset channel owner n seen) cs = (reset_locked env channel owner n seen cs).0
perform env (call_select channel owner id n seen) cs =
    (select_locked env channel owner id n seen cs).0

unfoldable pub perform_all : List (ChatEnv × ChatCall) → Chats → Chats
unfolding perform
perform_all [] cs = cs
perform_all ((env, call) ∷ calls) cs = perform_all calls (perform env call cs)

-- What request checks before it reads the conversation.
abbrev pub check_update : ChatEnv → Update → Result (Unit {0})
check_update env (said role content state) = check_message env role content
check_update env (turned state) = check_turn state
check_update env (linked job) = check_job job
check_update env (ingested event) = check_event env event

abbrev pub change_call : ChatEnv → ℕ → ℕ → Update → Action Conversation
change_call env id revision u = change_with env id revision (λ c. ok (apply_update u c))

abbrev pub check_then : Result (Unit {0}) → Action Conversation → Action Conversation
check_then r m = reading (λ d. r) then_do λ u. m

pub request_change-eq :
    (env : ChatEnv) (id revision : ℕ) (u : Update) (cs : Chats)
    → request_change env id revision u cs
      ≡ check_then (check_update env u) (change_call env id revision u) cs
unfolding request_change append_message mark_turn link_job ingest_event
request_change-eq env id revision (said role content state) cs = refl
request_change-eq env id revision (turned state) cs = refl
request_change-eq env id revision (linked job) cs = refl
request_change-eq env id revision (ingested event) cs = refl

-- A check in front of an operation.
checked-Edits :
    (r : Result (Unit {0})) (m : Action Conversation) (cs : Chats)
    → Edits cs (m cs).0
    → Edits cs (check_then r m cs).0
checked-Edits (ok u) m cs h = h
checked-Edits (err e) m cs h = stay cs

edits-keep {κ} :
    (P : Chats → Chats → Type κ)
    → ((cs mid cs' : Chats) → OneWrite cs mid → P mid cs' → P cs cs')
    → (cs mid cs' : Chats) → Edits cs mid
    → P mid cs'
    → P cs cs'
edits-keep P step cs mid cs' (stay _) h = h
edits-keep P step cs mid cs' (edit _ next _ e es) h =
    step cs next cs' e (edits-keep P step next mid cs' es h)

-- A call is a sequence of edits, also where it fails.
pub perform-Edits : (env : ChatEnv) (call : ChatCall) (cs : Chats) → Edits cs (perform env call cs)
unfolding perform
perform-Edits env (call_ensure channel owner) cs = ensure-Edits env channel owner cs
perform-Edits env (call_request id revision u) cs =
    rw (request_change-eq env id revision u cs, perform)
      (checked-Edits (check_update env u) (change_call env id revision u) cs
        (change-Edits env id revision u cs))
perform-Edits env (call_reset channel owner n seen) cs = reset-Edits env channel owner n seen cs
perform-Edits env (call_select channel owner id n seen) cs =
    select-Edits env channel owner id n seen cs

-- What every edit keeps, every sequence of calls keeps.
pub perform_all-keeps {κ} :
    (P : Chats → Chats → Type κ)
    → ((cs : Chats) → P cs cs)
    → ((cs mid cs' : Chats) → OneWrite cs mid → P mid cs' → P cs cs')
    → (calls : List (ChatEnv × ChatCall)) (cs : Chats) → P cs (perform_all calls cs)
unfolding perform_all
perform_all-keeps P rest step [] cs = rest cs
perform_all-keeps P rest step ((env, call) ∷ calls) cs =
    edits-keep P step cs _ _ (perform-Edits env call cs) (perform_all-keeps P rest step calls _)
