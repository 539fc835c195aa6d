-- ===== src/Conversations/Calls/Loaded.antt =====
-- What Load of internal/conversationstate/store.go reads after a change.
use agent_chun_su.Base.{ℕ, suc, ◌∙◌, refl, true, List, ◌≤◌, ◌≢◌, ◌≡◌, inl, inr, arith}
use agent_chun_su.Store.Model.{ok, err, message}
use agent_chun_su.Store.Txn.{Result-cases}
use agent_chun_su.Conversations.{
  Conversation, Chats, ChatEnv, read, load_item, load, file_bytes, valid_id, Stored, put_file,
  write, checked_write,
}
use agent_chun_su.Conversations.Change.{
  change_with, current_at, next_revision, save_next, link, ingest,
}
use agent_chun_su.Conversations.Edits.{
  Update, said, turned, linked, ingested, apply_update, IsStored,
}
use agent_chun_su.Conversations.Edits.Parts.{current_at-IsStored}
use agent_chun_su.Conversations.Calls.{request_change, request_change-eq, check_update}
use agent_chun_su.Conversations.Calls.Once.{request_change-Saved, Saved-IsStored}

read-valid :
    (env : ChatEnv) (id : ℕ) (cs : Chats) (d : Conversation)
    → read env id cs ≡ ok d
    → (id ≢ 0) × (env.max_evidence_bytes ≢ 0)
unfolding read load_item valid_id
read-valid env id cs d h = (ground arith, ground arith)

current_at-valid :
    (env : ChatEnv) (id revision : ℕ) (cs : Chats) (d : Conversation)
    → current_at env id revision cs ≡ ok d
    → (id ≢ 0) × (env.max_evidence_bytes ≢ 0)
unfolding current_at
current_at-valid env id revision cs d h = elim (Result-cases (read env id cs)) [
  | inr (x, e) ↦ absurd (ground arith)
  | inl (c, e) ↦ read-valid env id cs c e
]

request_change-valid :
    (env : ChatEnv) (id revision : ℕ) (u : Update) (cs cs' : Chats) (c : Conversation)
    → request_change env id revision u cs ≡ (cs', ok c)
    → (id ≢ 0) × (env.max_evidence_bytes ≢ 0)
unfolding change_with
request_change-valid env id revision u cs cs' c h = elim (Result-cases (check_update env u)) [
  | inr (x, e) ↦ absurd (ground (arith, request_change-eq env id revision u cs))
  | inl (t, e) ↦ elim (Result-cases (current_at env id revision cs)) [
    | inr (x, f) ↦ absurd (ground (arith, request_change-eq env id revision u cs))
    | inl (d, f) ↦ current_at-valid env id revision cs d f
  ]
]

load-stored :
    (env : ChatEnv) (id : ℕ) (cs : Chats) (c : Conversation)
    → IsStored id c cs
    → id ≢ 0
    → c.revision ≢ 0
    → file_bytes env c ≤ env.max_evidence_bytes
    → load env id cs ≡ ok c
unfolding load read load_item file_bytes valid_id
load-stored env id cs c there valid started fits = ground arith

load-too_long :
    (env : ChatEnv) (id : ℕ) (cs : Chats) (c : Conversation)
    → IsStored id c cs
    → id ≢ 0
    → env.max_evidence_bytes ≢ 0
    → env.encoded_bytes c ≡ env.max_evidence_bytes
    → load env id cs ≡ err (message "file exceeds configured byte limit")
unfolding load read load_item file_bytes valid_id
load-too_long env id cs c there valid positive full = ground arith

-- A conversation that Append, Mark, LinkJob or IngestEvent has changed reads back as returned, where
-- its file keeps the limit.
request_change-load :
    (env : ChatEnv) (id revision : ℕ) (u : Update) (cs cs' : Chats) (c : Conversation)
    → request_change env id revision u cs ≡ (cs', ok c)
    → file_bytes env c ≤ env.max_evidence_bytes
    → load env id cs' ≡ ok c
request_change-load env id revision u cs cs' c h fits =
    load-stored env id cs' c stored_after.0 (request_change-valid env id revision u cs cs' c h).0
      (λ z. absurd (omega (arith, stored_after.1))) fits
  where
    stored_after : IsStored id c cs' × (c.revision ≡ suc revision)
    stored_after =
        Saved-IsStored id revision u cs cs' c (request_change-Saved env id revision u cs cs' c h)

-- What the request makes of the conversation.
abbrev pub changed : Update → Conversation → Conversation
changed u d = next_revision (apply_update u d)

apply_update-id : (u : Update) (d : Conversation) → (apply_update u d).id ≡ d.id
unfolding link ingest
apply_update-id (said role content state) d = refl
apply_update-id (turned state) d = refl
apply_update-id (linked job) d = ground arith
apply_update-id (ingested event) d = ground arith

put_file-replaces :
    (id : ℕ) (c : Conversation) (items : List (Stored Conversation))
    → (items' : List (Stored Conversation)) × (put_file id c true items ≡ ok items')
unfolding put_file
put_file-replaces id c items = elim (Result-cases (put_file id c true items)) [
  | inl (items', e) ↦ (items', e)
  | inr (x, e) ↦ absurd (ground arith)
]

save_next-accepted :
    (env : ChatEnv) (c : Conversation) (cs : Chats)
    → valid_id c.id ≡ true
    → env.encoded_bytes c ≤ env.max_evidence_bytes
    → save_next env c cs ≡ ((save_next env c cs).0, ok c)
unfolding save_next write checked_write
save_next-accepted env c cs valid fits =
    let (items, put) = put_file-replaces c.id c cs.items in ground arith

is_valid : (id k : ℕ) → k ≡ id → id ≢ 0 → valid_id k ≡ true
unfolding valid_id
is_valid id k same real = ground arith

-- A request at the conversation's revision, whose checks pass, is accepted where the JSON of what it
-- makes is no longer than the limit.
request_change-accepted :
    (env : ChatEnv) (id revision : ℕ) (u : Update) (cs : Chats) (d : Conversation)
    → check_update env u ≡ ok tt
    → current_at env id revision cs ≡ ok d
    → valid_id (changed u d).id ≡ true
    → env.encoded_bytes (changed u d) ≤ env.max_evidence_bytes
    → request_change env id revision u cs
      ≡ ((request_change env id revision u cs).0, ok (changed u d))
unfolding change_with
request_change-accepted env id revision u cs d checked seen valid fits =
    let saved = save_next-accepted env (changed u d) cs valid fits in
    ground (arith, request_change-eq env id revision u cs)

-- A request to change a conversation at its revision, whose checks pass, is accepted where the JSON of
-- what it makes has just as many bytes as the limit, and Load then refuses the file, which has a
-- newline more.
pub request_change-unreadable :
    (env : ChatEnv) (id revision : ℕ) (u : Update) (cs : Chats) (d : Conversation)
    → check_update env u ≡ ok tt
    → current_at env id revision cs ≡ ok d
    → env.encoded_bytes (changed u d) ≡ env.max_evidence_bytes
    → (request_change env id revision u cs
        ≡ ((request_change env id revision u cs).0, ok (changed u d)))
      × (load env id (request_change env id revision u cs).0
          ≡ err (message "file exceeds configured byte limit"))
request_change-unreadable env id revision u cs d checked seen full =
    let cs' = (request_change env id revision u cs).0 in
    let its_id = apply_update-id u d ∙ (current_at-IsStored env id revision cs d seen).0.1 in
    let (real, positive) = current_at-valid env id revision cs d seen in
    let done =
      request_change-accepted env id revision u cs d checked seen (is_valid id _ its_id real)
        (omega arith) in
    let saved = request_change-Saved env id revision u cs cs' (changed u d) done in
    (
      done,
      load-too_long env id cs' (changed u d)
          (Saved-IsStored id revision u cs cs' (changed u d) saved).0 real positive full,
    )
