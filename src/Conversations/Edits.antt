-- ===== src/Conversations/Edits.antt =====
-- What the operations on conversations do to the files, one write at a time, whether they succeed or
-- fail on the way.
pub mod Parts
pub mod Switching
use agent_chun_su.Base.{
  ℕ, suc, ◌≡◌, ◌≢◌, refl, sym, subst, ◌⊎◌, inl, inr, true, false, List, [], ◌∷◌, ◌++◌, String, none,
  some, arith, Option-cases,
}
use mathlib.Core.Option
use agent_chun_su.Table.{find_by, update_where, when}
use agent_chun_su.Table.Laws.{
  find_by-key, find_by-append, find_by-append_none, find_by-update_where,
}
use agent_chun_su.Store.Model.{Error, Result, ok, err}
use agent_chun_su.Store.Txn.{Result-cases}
use agent_chun_su.Conversations.{
  Stored, HostReference, Conversation, Binding, Chats, ChatEnv, stored, stored_key, is_named,
  set_stored, put_file, read, load_item, write, checked_write, write_binding, new_conversation,
}
use agent_chun_su.Conversations.Change.{
  next_revision, add_message, set_turn, link, ingest, change_with, current_at, save_next,
  append_message, mark_turn, link_job, ingest_event,
}
use agent_chun_su.Conversations.Switch.{
  bound, archive, restore, start, ensure, ensure_at, current, replace_by, reset, reset_locked,
  select_conversation, select_locked, switch_to, same_binding,
}

-- The change that each operation on one conversation makes.
pub data Update : Type 0 where
  said : String → String → String → Update
  turned : String → Update
  linked : ℕ → Update
  ingested : HostReference → Update

abbrev pub apply_update : Update → Conversation → Conversation
apply_update (said role content state) c = add_message role content state c
apply_update (turned state) c = set_turn state c
apply_update (linked job) c = link job c
apply_update (ingested event) c = ingest event c

-- The version of a conversation that takes the place of another.
pub data Follows (c c' : Conversation) : Type 0 where
  updated : (u : Update) → c.archived ≡ false → c' ≡ next_revision (apply_update u c) → Follows c c'
  put_away : c' ≡ archive c → Follows c c'
  taken_up : c' ≡ restore c → Follows c c'

abbrev pub IsStored : ℕ → Conversation → Chats → Type 0
IsStored id c cs = (find_by stored_key id cs.items ≡ some (stored id c)) × (c.id ≡ id)

-- The binding is to a stored conversation of its channel and owner.
abbrev pub Names : Binding → Conversation → Chats → Type 0
Names b c cs = IsStored b.active c cs × (c.channel ≡ b.channel) × (c.owner ≡ b.owner)

pub data OneWrite (cs cs' : Chats) : Type 0 where
  opened :
      (id : ℕ) (channel owner : String)
      → find_by stored_key id cs.items ≡ none
      → cs'.items ≡ cs.items ++ (stored id (new_conversation id channel owner) ∷ [])
      → cs'.bindings ≡ cs.bindings
      → OneWrite cs cs'
  saved :
      (id : ℕ) (c c' : Conversation)
      → IsStored id c cs
      → Follows c c'
      → cs'.items ≡ update_where (is_named id) (set_stored c') cs.items
      → cs'.bindings ≡ cs.bindings
      → OneWrite cs cs'
  bound_first :
      (n : ℕ) (b : Binding) (c : Conversation)
      → Names b c cs
      → cs'.items ≡ cs.items
      → cs'.bindings ≡ cs.bindings ++ (stored n b ∷ [])
      → OneWrite cs cs'
  bound_again :
      (n : ℕ) (b : Binding) (c : Conversation)
      → Names b c cs
      → cs'.items ≡ cs.items
      → cs'.bindings ≡ update_where (is_named n) (set_stored b) cs.bindings
      → OneWrite cs cs'

-- A sequence of edits.
pub data Edits : Chats → Chats → Type 0 where
  stay : (cs : Chats) → Edits cs cs
  edit : (cs mid cs' : Chats) → OneWrite cs mid → Edits mid cs' → Edits cs cs'

pub read-IsStored :
    (env : ChatEnv) (id : ℕ) (cs : Chats) (c : Conversation)
    → read env id cs ≡ ok c
    → IsStored id c cs
unfolding read load_item
read-IsStored env id cs c h = elim (Option-cases (find_by stored_key id cs.items)) [
  | inl absent ↦ absurd (ground arith)
  | inr (f, found) ↦ (ground (arith, find_by-key stored_key id cs.items f), ground arith)
]

pub put_file-replaces :
    {A : Type 0} (n : ℕ) (a b : A) (fs : List (Stored A))
    → find_by stored_key n fs ≡ some (stored n b)
    → put_file n a true fs ≡ ok (update_where (is_named n) (set_stored a) fs)
unfolding put_file
put_file-replaces n a b fs h = ground arith

pub put_file-adds :
    {A : Type 0} (n : ℕ) (a : A) (fs fs' : List (Stored A))
    → put_file n a false fs ≡ ok fs'
    → (find_by stored_key n fs ≡ none) × (fs' ≡ fs ++ (stored n a ∷ []))
unfolding put_file
put_file-adds n a fs fs' h = elim (Option-cases (find_by stored_key n fs)) [
  | inl absent ↦ (absent, ground arith)
  | inr (f, found) ↦ absurd (ground arith)
]

-- An update, an archive and a restoration keep what identifies the conversation.
pub Follows-same :
    (c c' : Conversation)
    → Follows c c'
    → (c'.id ≡ c.id)
      × (c'.channel ≡ c.channel)
      × (c'.owner ≡ c.owner)
      × (c'.revision ≡ suc c.revision)
unfolding link ingest
Follows-same c c' (updated (said role content state) live e) = ground arith
Follows-same c c' (updated (turned state) live e) = ground arith
Follows-same c c' (updated (linked job) live e) = ground arith
Follows-same c c' (updated (ingested event) live e) = ground arith
Follows-same c c' (put_away e) = ground arith
Follows-same c c' (taken_up e) = ground arith

-- One write of the next version, which may fail.
pub write-saves :
    (env : ChatEnv) (id : ℕ) (c c' : Conversation) (cs : Chats)
    → IsStored id c cs
    → c'.id ≡ id
    → (write env c' true cs
        ≡ (record cs { items = update_where (is_named id) (set_stored c') cs.items }, ok tt))
      ⊎ ((e : Error) × (write env c' true cs ≡ (cs, err e)))
unfolding write checked_write
write-saves env id c c' cs h same = elim (Result-cases (checked_write env c' true cs)) [
  | inl (items, e) ↦ inl (ground (arith, put_file-replaces c'.id c' c cs.items))
  | inr (e, bad) ↦ inr (e, rw bad refl)
]

pub write-opens :
    (env : ChatEnv) (c : Conversation) (cs : Chats)
    → ((find_by stored_key c.id cs.items ≡ none)
        × (write env c false cs ≡ (record cs { items = cs.items ++ (stored c.id c ∷ []) }, ok tt)))
      ⊎ ((e : Error) × (write env c false cs ≡ (cs, err e)))
unfolding write checked_write
write-opens env c cs = elim (Result-cases (checked_write env c false cs)) [
  | inl (items, e) ↦ inl (ground (arith, put_file-adds c.id c cs.items items))
  | inr (e, bad) ↦ inr (e, rw bad refl)
]

-- A stored conversation after an INSERT and after an update of it or of another one.
pub IsStored-append :
    (id : ℕ) (c : Conversation) (f : Stored Conversation) (cs : Chats)
    → IsStored id c cs
    → IsStored c.id c (record cs { items = cs.items ++ (f ∷ []) })
IsStored-append id c f cs h =
    (ground (arith, find_by-append stored_key c.id cs.items (f ∷ []) (stored c.id c)), refl)

pub IsStored-new :
    (c : Conversation) (cs : Chats)
    → find_by stored_key c.id cs.items ≡ none
    → IsStored c.id c (record cs { items = cs.items ++ (stored c.id c ∷ []) })
unfolding find_by
IsStored-new c cs h =
    (ground (arith, find_by-append_none stored_key c.id cs.items (stored c.id c ∷ [])), refl)

pub IsStored-saved :
    (id : ℕ) (c c' : Conversation) (cs : Chats)
    → IsStored id c cs
    → c'.id ≡ id
    → IsStored id c' (record cs { items = update_where (is_named id) (set_stored c') cs.items })
IsStored-saved id c c' cs h same = (
  ground (
    arith,
    find_by-update_where stored_key (is_named id) (set_stored c') (λ f. refl) id cs.items,
  ),
  same,
)

pub IsStored-own : (id : ℕ) (c : Conversation) (cs : Chats) → IsStored id c cs → IsStored c.id c cs
IsStored-own id c cs h =
    (subst (λ k. find_by stored_key k cs.items ≡ some (stored k c)) (sym h.1) h.0, refl)

pub IsStored-other :
    (k id : ℕ) (c c' : Conversation) (cs : Chats)
    → IsStored k c cs
    → k ≢ id
    → IsStored c.id c (record cs { items = update_where (is_named id) (set_stored c') cs.items })
IsStored-other k id c c' cs h apart =
    IsStored-own k c (record cs { items = update_where (is_named id) (set_stored c') cs.items })
      (
        ground (
          arith,
          find_by-update_where stored_key (is_named id) (set_stored c') (λ f. refl) k cs.items,
        ),
        h.1,
      )
