-- ===== src/Conversations/Edits/Switching.antt =====
-- The edits that Ensure, Reset and Select make.
use agent_chun_su.Base.{
  ℕ, ◌≡◌, refl, inl, inr, [], ◌∷◌, ◌++◌, String, some, arith, Option-cases, ◌==◌, Bool-cases,
}
use agent_chun_su.Table.{find_by, update_where}
use agent_chun_su.Store.Model.{ok}
use agent_chun_su.Store.Txn.{Result-cases}
use agent_chun_su.Conversations.{
  binding_name, Conversation, Binding, Chats, ChatEnv, stored, stored_key, is_named, set_stored,
  read, new_conversation,
}
use agent_chun_su.Conversations.Switch.{
  restore, ensure, ensure_at, replace_by, reset_locked, select_locked, switch_to, selectable,
  same_binding,
}
use agent_chun_su.Conversations.Edits.{
  IsStored-append, IsStored-saved, IsStored-own, IsStored-other, taken_up, IsStored, opened, saved,
  Edits, stay, edit, write-saves, write-opens, read-IsStored,
}
use agent_chun_su.Conversations.Edits.Parts.{
  start-Edits, finish-Edits, same_binding-found, same_party, opened-found,
}

ensure_at-Edits :
    (env : ChatEnv) (channel owner : String) (n : ℕ) (cs : Chats)
    → Edits cs (ensure_at env channel owner n cs).0
unfolding ensure_at
ensure_at-Edits env channel owner n cs = elim (Option-cases (find_by stored_key n cs.bindings)) [
  | inl absent ↦ rw (absent, ensure_at) (start-Edits env n channel owner cs)
  | inr (f, found) ↦ rw (found, ensure_at) (stay cs)
]

pub ensure-Edits :
    (env : ChatEnv) (channel owner : String) (cs : Chats) → Edits cs (ensure env channel owner cs).0
unfolding ensure
ensure-Edits env channel owner cs = elim (Result-cases (binding_name env channel owner)) [
  | inr (x, e) ↦ rw e (stay cs)
  | inl (n, e) ↦ rw e (ensure_at-Edits env channel owner n cs)
]

pub reset-Edits :
    (env : ChatEnv) (channel owner : String) (n : ℕ) (seen : Binding) (cs : Chats)
    → Edits cs (reset_locked env channel owner n seen cs).0
unfolding reset_locked replace_by new_conversation
reset-Edits env channel owner n seen cs =
    elim (Result-cases (same_binding channel owner seen n cs)) [
      | inr (x, e) ↦ rw e (stay cs)
      | inl (b, e) ↦ elim (Result-cases (read env b.active cs)) [
        | inr (x, f) ↦ rw (e, f) (stay cs)
        | inl (prior, f) ↦ elim (write-opens env next cs) [
          | inr (x, g) ↦ rw (e, f, g) (stay cs)
          | inl (absent, g) ↦
              rw (e, f, g)
                (edit cs mid _ (opened env.fresh channel owner absent refl refl) (
                  finish-Edits env n b next prior mid
                    (same_binding-found channel owner seen b n cs e).0
                    (
                      (opened-found next cs.items absent, refl),
                      ground (arith, same_binding-found channel owner seen b n cs),
                      ground (arith, same_binding-found channel owner seen b n cs),
                    )
                    (IsStored-append b.active prior _ cs (read-IsStored env b.active cs prior f))))
        ]
      ]
    ]
  where
    next : Conversation
    next = new_conversation env.fresh channel owner

    mid : Chats
    mid = record cs { items = cs.items ++ (stored next.id next ∷ []) }

selectable-found :
    (env : ChatEnv) (channel owner : String) (id : ℕ) (c : Conversation) (cs : Chats)
    → selectable env channel owner id cs ≡ ok c
    → IsStored id c cs × (c.channel ≡ channel) × (c.owner ≡ owner)
unfolding selectable
selectable-found env channel owner id c cs h = elim (Result-cases (read env id cs)) [
  | inr (x, e) ↦ absurd (ground arith)
  | inl (d, e) ↦ (
    ground (arith, read-IsStored env id cs d),
    ground (arith, same_party d.channel d.owner channel owner),
    ground (arith, same_party d.channel d.owner channel owner),
  )
]

switch-Edits :
    (env : ChatEnv) (n id : ℕ) (b : Binding) (selected : Conversation) (cs : Chats)
    → find_by stored_key n cs.bindings ≡ some (stored n b)
    → IsStored id selected cs
    → selected.channel ≡ b.channel
    → selected.owner ≡ b.owner
    → Edits cs (switch_to env n b id selected cs).0
unfolding switch_to replace_by
switch-Edits env n id b selected cs found there channel owner = elim (Bool-cases (b.active == id)) [
  | inl same ↦ rw same (stay cs)
  | inr apart ↦ elim (Result-cases (read env b.active cs)) [
    | inr (x, e) ↦ rw (apart, e) (stay cs)
    | inl (prior, e) ↦ elim (write-saves env id selected next cs there there.1) [
      | inr (x, f) ↦ rw (apart, e, f) (stay cs)
      | inl f ↦
          rw (apart, e, f)
            (edit cs mid _ (saved id selected next there (taken_up refl) refl refl) (
              finish-Edits env n b next prior mid found
                (
                  IsStored-own id next mid (IsStored-saved id selected next cs there there.1),
                  channel,
                  owner,
                )
                (IsStored-other b.active id prior next cs (read-IsStored env b.active cs prior e)
                  (ground arith))))
    ]
  ]
]
  where
    next : Conversation
    next = restore selected

    mid : Chats
    mid = record cs { items = update_where (is_named id) (set_stored next) cs.items }

pub select-Edits :
    (env : ChatEnv) (channel owner : String) (id n : ℕ) (seen : Binding) (cs : Chats)
    → Edits cs (select_locked env channel owner id n seen cs).0
unfolding select_locked
select-Edits env channel owner id n seen cs =
    elim (Result-cases (selectable env channel owner id cs)) [
      | inr (x, e) ↦ rw e (stay cs)
      | inl (c, e) ↦ elim (Result-cases (same_binding channel owner seen n cs)) [
        | inr (x, f) ↦ rw (e, f) (stay cs)
        | inl (b, f) ↦
            rw (e, f)
              (switch-Edits env n id b c cs (same_binding-found channel owner seen b n cs f).0
                (selectable-found env channel owner id c cs e).0
                (ground (
                  arith,
                  selectable-found env channel owner id c cs,
                  same_binding-found channel owner seen b n cs,
                ))
                (ground (
                  arith,
                  selectable-found env channel owner id c cs,
                  same_binding-found channel owner seen b n cs,
                )))
      ]
    ]
