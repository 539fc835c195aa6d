-- ===== src/Conversations/Switch.antt =====
-- Which conversation is active for a channel and an owner: Ensure, Reset and Select of
-- internal/conversationstate/store.go. Reset and Select read the binding before they hold the locks,
-- and again under them: the locked part takes what the first read saw.
pub mod Active
use agent_chun_su.Base.{
  ℕ, suc, Bool, true, false, none, some, String, ◌==◌, ◌||◌, str_eq, not, if◌then◌else◌,
}
use agent_chun_su.Table.{find_by}
use agent_chun_su.Store.Model.{Result, ok, err, message}
use agent_chun_su.Store.Txn.{◌>>=◌, ◌>>◌, refuse_if, or_fail}
use agent_chun_su.Conversations.{
  Conversation, Binding, Chats, ChatEnv, Action, ◌then_do◌, reading, read, write, write_binding,
  stored_key, missing, err_revision, binding_name, active_binding, new_conversation, valid_id,
}

abbrev pub other_party : String → String → String → String → Bool
other_party channel owner channel' owner' =
    not (str_eq channel channel') || not (str_eq owner owner')

abbrev pub bound : String → String → ℕ → Binding
bound channel owner id = record { channel = channel; owner = owner; active = id }

-- The binding that is there, and its active conversation.
unfoldable pub current : ChatEnv → String → String → Binding → Chats → Result Conversation
unfolding read
current env channel owner b cs = do
  refuse_if (other_party b.channel b.owner channel owner) (message "conversation binding mismatch")
  c ← read env b.active cs
  refuse_if (c.archived || other_party c.channel c.owner channel owner)
      (message "active conversation identity mismatch")
  ok c

unfoldable pub start : ChatEnv → ℕ → String → String → Action Conversation
unfolding new_conversation write write_binding
start env n channel owner = write env (new_conversation env.fresh channel owner) false then_do λ u.
    write_binding n (bound channel owner env.fresh) false then_do λ u.
    reading (λ cs. ok (new_conversation env.fresh channel owner))

unfoldable pub ensure_at : ChatEnv → String → String → ℕ → Action Conversation
unfolding current start
ensure_at env channel owner n cs = elim (find_by stored_key n cs.bindings) [
  | some f ↦ reading (current env channel owner f.value) cs
  | none ↦ start env n channel owner cs
]

unfoldable pub ensure : ChatEnv → String → String → Action Conversation
unfolding ensure_at binding_name
ensure env channel owner =
    reading (λ cs. binding_name env channel owner) then_do ensure_at env channel owner

-- The binding under the locks: it must be the one that was seen before.
unfoldable pub same_binding : String → String → Binding → ℕ → Chats → Result Binding
same_binding channel owner seen n cs = do
  f ← or_fail (find_by stored_key n cs.bindings) missing
  refuse_if (other_party f.value.channel f.value.owner channel owner)
      (message "conversation binding mismatch")
  refuse_if (not (f.value.active == seen.active)) err_revision
  ok f.value

abbrev pub archive : Conversation → Conversation
archive c = record c { archived = true; revision = suc c.revision }

abbrev pub restore : Conversation → Conversation
restore c = record c { archived = false; revision = suc c.revision }

unfoldable pub finish : ChatEnv → ℕ → Binding → Conversation → Conversation → Action Conversation
unfolding write write_binding
finish env n b next prior = write_binding n (record b { active = next.id }) true then_do λ u.
    write env (archive prior) true then_do λ u. reading (λ cs. ok next)

-- The new one is written and made active before the prior one is archived.
unfoldable pub replace_by :
    ChatEnv → ℕ → Binding → Conversation → Bool → Conversation → Action Conversation
unfolding write finish
replace_by env n b next replace prior =
    write env next replace then_do λ u. finish env n b next prior

unfoldable pub reset_locked : ChatEnv → String → String → ℕ → Binding → Action Conversation
unfolding same_binding replace_by read new_conversation
reset_locked env channel owner n seen = reading (same_binding channel owner seen n) then_do λ b.
    reading (read env b.active) then_do λ prior.
    replace_by env n b (new_conversation env.fresh channel owner) false prior

unfoldable pub preflight : ChatEnv → String → String → Chats → Result (ℕ × Binding)
unfolding binding_name active_binding
preflight env channel owner cs = do
  n ← binding_name env channel owner
  b ← active_binding n cs
  ok (n, b)

-- With no other operation between the two reads of the binding.
unfoldable pub reset : ChatEnv → String → String → Action Conversation
unfolding preflight reset_locked
reset env channel owner =
    reading (preflight env channel owner) then_do λ p. reset_locked env channel owner p.0 p.1

-- The selected conversation, and the one to archive for it.
unfoldable pub switch_to : ChatEnv → ℕ → Binding → ℕ → Conversation → Action Conversation
unfolding read replace_by
switch_to env n b id selected cs =
    if b.active == id
    then (cs, ok selected)
    else (reading (read env b.active) then_do λ prior.
          replace_by env n b (restore selected) true prior)
        cs

unfoldable pub selectable : ChatEnv → String → String → ℕ → Chats → Result Conversation
unfolding read
selectable env channel owner id cs = do
  c ← read env id cs
  refuse_if (other_party c.channel c.owner channel owner)
      (message "conversation does not belong to this channel and owner")
  ok c

unfoldable pub select_locked : ChatEnv → String → String → ℕ → ℕ → Binding → Action Conversation
unfolding selectable same_binding switch_to
select_locked env channel owner id n seen =
    reading (selectable env channel owner id) then_do λ selected.
    reading (same_binding channel owner seen n) then_do λ b. switch_to env n b id selected

unfoldable pub select_conversation : ChatEnv → String → String → ℕ → Action Conversation
unfolding preflight select_locked
select_conversation env channel owner id =
    reading (preflight env channel owner) then_do λ p. select_locked env channel owner id p.0 p.1
