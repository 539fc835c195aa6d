-- ===== src/Conversations/Calls/Once.antt =====
-- The optimistic guard: Change of internal/conversationstate/store.go at a revision.
use agent_chun_su.Base.{
  ℕ, suc, ◌<◌, ◌≡◌, refl, inl, inr, false, List, ◌∙◌, sym, subst, ap, some, arith,
}
use agent_chun_su.Table.{find_by, update_where}
use agent_chun_su.Store.Model.{Error, ok, err}
use agent_chun_su.Store.Txn.{Result-cases}
use agent_chun_su.Conversations.{
  Conversation, Chats, ChatEnv, stored, stored_key, is_named, set_stored, read, err_revision,
}
use agent_chun_su.Conversations.Change.{next_revision, change_with, current_at, save_next}
use agent_chun_su.Conversations.Edits.{
  Update, apply_update, updated, IsStored, write-saves, read-IsStored, Follows-same, IsStored-saved,
}
use agent_chun_su.Conversations.Edits.Parts.{current_at-IsStored}
use agent_chun_su.Conversations.Calls.{
  ChatCall, perform_all, request_change, request_change-eq, check_update, change_call,
}
use agent_chun_su.Conversations.Calls.Kept.{IsLater, perform_all-IsLater}

-- What a request that succeeds found and left.
abbrev pub Saved : ℕ → ℕ → Update → Chats → Chats → Conversation → Type 0
Saved id revision u cs cs' c =
    (d : Conversation) × IsStored id d cs
    × (d.archived ≡ false)
    × (d.revision ≡ revision)
    × (c ≡ next_revision (apply_update u d))
    × (cs' ≡ record cs { items = update_where (is_named id) (set_stored c) cs.items })

save_next-Saved :
    (env : ChatEnv) (id : ℕ) (d e : Conversation) (cs cs' : Chats) (c : Conversation)
    → IsStored id d cs
    → e.id ≡ id
    → save_next env e cs ≡ (cs', ok c)
    → (c ≡ e) × (cs' ≡ record cs { items = update_where (is_named id) (set_stored e) cs.items })
unfolding save_next
save_next-Saved env id d e cs cs' c there same h = elim (write-saves env id d e cs there same) [
  | inl w ↦ ground arith
  | inr (x, w) ↦ absurd (ground arith)
]

change_call-Saved :
    (env : ChatEnv) (id revision : ℕ) (u : Update) (cs cs' : Chats) (c : Conversation)
    → change_call env id revision u cs ≡ (cs', ok c)
    → Saved id revision u cs cs' c
unfolding change_with
change_call-Saved env id revision u cs cs' c h =
    elim (Result-cases (current_at env id revision cs)) [
      | inr (x, e) ↦ absurd (ground arith)
      | inl (d, e) ↦ found d (current_at-IsStored env id revision cs d e) (ground arith)
    ]
  where
    found :
        (d : Conversation)
        → IsStored id d cs × (d.archived ≡ false) × (d.revision ≡ revision)
        → save_next env (next_revision (apply_update u d)) cs ≡ (cs', ok c)
        → Saved id revision u cs cs' c
    found d there s = of_save (save_next-Saved env id d e cs cs' c there.0 same s)
      where
        e : Conversation
        e = next_revision (apply_update u d)

        same : e.id ≡ id
        same = (Follows-same d e (updated u there.1 refl)).0 ∙ there.0.1

        of_save :
            (c ≡ e)
              × (cs' ≡ record cs { items = update_where (is_named id) (set_stored e) cs.items })
            → Saved id revision u cs cs' c
        of_save (is, after) = (d, there.0, there.1, there.2, is, rw is after)

pub request_change-Saved :
    (env : ChatEnv) (id revision : ℕ) (u : Update) (cs cs' : Chats) (c : Conversation)
    → request_change env id revision u cs ≡ (cs', ok c)
    → Saved id revision u cs cs' c
request_change-Saved env id revision u cs cs' c h = elim (Result-cases (check_update env u)) [
  | inr (x, e) ↦ absurd (ground (arith, request_change-eq env id revision u cs))
  | inl (t, e) ↦
      change_call-Saved env id revision u cs cs' c
        (ground (arith, request_change-eq env id revision u cs))
]

-- What the conversation's file holds after it.
pub Saved-IsStored :
    (id revision : ℕ) (u : Update) (cs cs' : Chats) (c : Conversation)
    → Saved id revision u cs cs' c
    → IsStored id c cs' × (c.revision ≡ suc revision)
Saved-IsStored id revision u cs cs' c (d, there, live, at, is, after) = (
  subst (λ x. IsStored id c x) (sym after) (IsStored-saved id d c cs there (same.0 ∙ there.1)),
  same.3 ∙ ap suc at,
)
  where
    same :
        (c.id ≡ d.id)
        × (c.channel ≡ d.channel)
        × (c.owner ≡ d.owner)
        × (c.revision ≡ suc d.revision)
    same = Follows-same d c (updated u live is)

read-stale :
    (env : ChatEnv) (id revision : ℕ) (cs : Chats) (d : Conversation)
    → find_by stored_key id cs.items ≡ some (stored id d)
    → revision < d.revision
    → (e : Error) × (current_at env id revision cs ≡ err e)
unfolding current_at
read-stale env id revision cs d there newer = elim (Result-cases (read env id cs)) [
  | inr (x, e) ↦ (x, rw e refl)
  | inl (c, e) ↦ (err_revision, ground (arith, read-IsStored env id cs c))
]

change-stale :
    (env : ChatEnv) (id revision : ℕ) (u : Update) (cs : Chats) (d : Conversation)
    → find_by stored_key id cs.items ≡ some (stored id d)
    → revision < d.revision
    → (e : Error) × (request_change env id revision u cs ≡ (cs, err e))
unfolding change_with
change-stale env id revision u cs d there newer = elim (Result-cases (check_update env u)) [
  | inr (x, e) ↦ (x, ground (arith, request_change-eq env id revision u cs))
  | inl (t, e) ↦
      let (x, f) = read-stale env id revision cs d there newer in
      (x, ground (arith, request_change-eq env id revision u cs))
]

-- Of all changes of a conversation that were prepared at the same revision, at most one succeeds:
-- after an Append, Mark, LinkJob or IngestEvent at a revision has succeeded, and then any calls of
-- the operations, each further one at that revision is refused and changes nothing.
pub request_change-once :
    (env env' : ChatEnv) (id revision : ℕ) (u u' : Update) (calls : List (ChatEnv × ChatCall))
    (cs cs' : Chats) (c : Conversation)
    → request_change env id revision u cs ≡ (cs', ok c)
    → (e : Error) × (request_change env' id revision u' (perform_all calls cs')
        ≡ (perform_all calls cs', err e))
request_change-once env env' id revision u u' calls cs cs' c h =
    of_stored
      (Saved-IsStored id revision u cs cs' c (request_change-Saved env id revision u cs cs' c h))
  where
    of_later :
        c.revision ≡ suc revision
        → IsLater id c (perform_all calls cs')
        → (e : Error) × (request_change env' id revision u' (perform_all calls cs')
            ≡ (perform_all calls cs', err e))
    of_later next (d, found, same, newer, channel, owner) =
        change-stale env' id revision u' (perform_all calls cs') d found (omega arith)

    of_stored :
        IsStored id c cs' × (c.revision ≡ suc revision)
        → (e : Error) × (request_change env' id revision u' (perform_all calls cs')
            ≡ (perform_all calls cs', err e))
    of_stored (there, next) = of_later next (perform_all-IsLater calls cs' id c there.0)
