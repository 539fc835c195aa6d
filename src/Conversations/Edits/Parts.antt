-- ===== src/Conversations/Edits/Parts.antt =====
-- The edits that the parts of the operations on conversations make.
use agent_chun_su.Base.{
  ℕ, subst, ◌≡◌, refl, ◌⊎◌, inl, inr, true, false, List, [], ◌∷◌, ◌++◌, String, none, some, arith,
  Option-cases, eq_iff,
}
use agent_chun_su.Table.{find_by, update_where}
use agent_chun_su.Table.Laws.{find_by-key, find_by-append_none}
use agent_chun_su.Store.Model.{Error, ok, err}
use agent_chun_su.Store.Txn.{Result-cases}
use agent_chun_su.Conversations.{
  Stored, Conversation, Binding, Chats, ChatEnv, stored, stored_key, is_named, set_stored, put_file,
  read, write, write_binding, new_conversation,
}
use agent_chun_su.Conversations.Change.{change_with, current_at, save_next}
use agent_chun_su.Conversations.Switch.{bound, archive, start, finish, same_binding, other_party}
use agent_chun_su.Conversations.Edits.{
  Update, apply_update, Follows, updated, put_away, IsStored, OneWrite, opened, saved, bound_first,
  bound_again, Edits, stay, edit, write-saves, write-opens, put_file-replaces, put_file-adds,
  read-IsStored, Follows-same, Names,
}

pub single_edit : (cs cs' : Chats) → OneWrite cs cs' → Edits cs cs'
single_edit cs cs' e = edit cs cs' cs' e (stay cs')

-- The next version is saved, or nothing changes.
saves-Edits :
    (env : ChatEnv) (id : ℕ) (c c' : Conversation) (cs : Chats)
    → IsStored id c cs
    → Follows c c'
    → Edits cs (write env c' true cs).0
saves-Edits env id c c' cs h f =
    elim (write-saves env id c c' cs h (ground (arith, Follows-same c c' f))) [
      | inl e ↦ rw e (single_edit cs _ (saved id c c' h f refl refl))
      | inr (x, e) ↦ rw e (stay cs)
    ]

save_next-Edits :
    (env : ChatEnv) (id : ℕ) (c c' : Conversation) (cs : Chats)
    → IsStored id c cs
    → Follows c c'
    → Edits cs (save_next env c' cs).0
unfolding save_next
save_next-Edits env id c c' cs h f = subst (λ d. Edits cs d) same (saves-Edits env id c c' cs h f)
  where
    same : (write env c' true cs).0 ≡ (save_next env c' cs).0
    same = ground arith

pub current_at-IsStored :
    (env : ChatEnv) (id revision : ℕ) (cs : Chats) (c : Conversation)
    → current_at env id revision cs ≡ ok c
    → IsStored id c cs × (c.archived ≡ false) × (c.revision ≡ revision)
unfolding current_at
current_at-IsStored env id revision cs c h = elim (Result-cases (read env id cs)) [
  | inl (d, e) ↦ ground (arith, read-IsStored env id cs d)
  | inr (x, e) ↦ absurd (ground arith)
]

pub change-Edits :
    (env : ChatEnv) (id revision : ℕ) (u : Update) (cs : Chats)
    → Edits cs (change_with env id revision (λ c. ok (apply_update u c)) cs).0
unfolding change_with
change-Edits env id revision u cs = elim (Result-cases (current_at env id revision cs)) [
  | inr (x, e) ↦ rw e (stay cs)
  | inl (c, e) ↦ rw e (
      save_next-Edits env id c _ cs (current_at-IsStored env id revision cs c e).0
        (updated u (current_at-IsStored env id revision cs c e).1 refl))
]

-- The writes to a binding, which do not fail where the code calls them.
write_binding-first :
    (n : ℕ) (b : Binding) (cs : Chats)
    → (write_binding n b false cs
        ≡ (record cs { bindings = cs.bindings ++ (stored n b ∷ []) }, ok tt))
      ⊎ ((e : Error) × (write_binding n b false cs ≡ (cs, err e)))
unfolding write_binding
write_binding-first n b cs = elim (Result-cases (put_file n b false cs.bindings)) [
  | inl (bindings, e) ↦ inl (ground (arith, put_file-adds n b cs.bindings bindings))
  | inr (e, bad) ↦ inr (e, rw bad refl)
]

pub write_binding-again :
    (n : ℕ) (b b' : Binding) (cs : Chats)
    → find_by stored_key n cs.bindings ≡ some (stored n b)
    → write_binding n b' true cs
      ≡ (record cs { bindings = update_where (is_named n) (set_stored b') cs.bindings }, ok tt)
unfolding write_binding
write_binding-again n b b' cs h = rw (put_file-replaces n b' b cs.bindings h) refl

-- A file that is opened is found.
pub opened-found :
    (c : Conversation) (fs : List (Stored Conversation))
    → find_by stored_key c.id fs ≡ none
    → find_by stored_key c.id (fs ++ (stored c.id c ∷ [])) ≡ some (stored c.id c)
unfolding find_by
opened-found c fs h = ground (arith, find_by-append_none stored_key c.id fs (stored c.id c ∷ []))

pub start-Edits :
    (env : ChatEnv) (n : ℕ) (channel owner : String) (cs : Chats)
    → Edits cs (start env n channel owner cs).0
unfolding start new_conversation
start-Edits env n channel owner cs = elim (write-opens env c cs) [
  | inr (x, e) ↦ rw e (stay cs)
  | inl (absent, e) ↦ elim (write_binding-first n (bound channel owner env.fresh) mid) [
    | inr (x, f) ↦ rw (e, f) (single_edit cs mid (opened env.fresh channel owner absent refl refl))
    | inl f ↦
        rw (e, f)
          (edit cs mid _ (opened env.fresh channel owner absent refl refl) (
            single_edit mid _
              (bound_first n _ c ((opened-found c cs.items absent, refl), refl, refl) refl refl)))
  ]
]
  where
    c : Conversation
    c = new_conversation env.fresh channel owner

    mid : Chats
    mid = record cs { items = cs.items ++ (stored c.id c ∷ []) }

-- What is left to do once the next conversation is written.
pub finish-Edits :
    (env : ChatEnv) (n : ℕ) (b : Binding) (next prior : Conversation) (cs : Chats)
    → find_by stored_key n cs.bindings ≡ some (stored n b)
    → Names (record b { active = next.id }) next cs
    → IsStored prior.id prior cs
    → Edits cs (finish env n b next prior cs).0
unfolding finish
finish-Edits env n b next prior cs found names there =
    elim (write-saves env prior.id prior (archive prior) mid there refl) [
      | inl e ↦
          rw (write_binding-again n b b' cs found, e)
            (edit cs mid _ rebound
              (single_edit mid _ (saved prior.id prior _ there (put_away refl) refl refl)))
      | inr (x, e) ↦ rw (write_binding-again n b b' cs found, e) (single_edit cs mid rebound)
    ]
  where
    b' : Binding
    b' = record b { active = next.id }

    mid : Chats
    mid = record cs { bindings = update_where (is_named n) (set_stored b') cs.bindings }

    rebound : OneWrite cs mid
    rebound = bound_again n b' next names refl refl

pub same_party :
    (channel owner channel' owner' : String)
    → other_party channel owner channel' owner' ≡ false
    → (channel ≡ channel') × (owner ≡ owner')
same_party channel owner channel' owner' h =
    ((eq_iff channel channel').0 (ground arith), (eq_iff owner owner').0 (ground arith))

pub same_binding-found :
    (channel owner : String) (seen b : Binding) (n : ℕ) (cs : Chats)
    → same_binding channel owner seen n cs ≡ ok b
    → (find_by stored_key n cs.bindings ≡ some (stored n b))
      × (b.channel ≡ channel)
      × (b.owner ≡ owner)
      × (b.active ≡ seen.active)
unfolding same_binding
same_binding-found channel owner seen b n cs h =
    elim (Option-cases (find_by stored_key n cs.bindings)) [
      | inl absent ↦ absurd (ground arith)
      | inr (f, found) ↦ (
        ground (arith, find_by-key stored_key n cs.bindings f),
        ground (arith, same_party f.value.channel f.value.owner channel owner),
        ground (arith, same_party f.value.channel f.value.owner channel owner),
        ground arith,
      )
    ]
