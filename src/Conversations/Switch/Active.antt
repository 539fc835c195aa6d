-- ===== src/Conversations/Switch/Active.antt =====
-- What Reset leaves for a channel and an owner.
use agent_chun_su.Base.{
  ℕ, ◌≡◌, ◌≢◌, refl, sym, subst, inl, inr, false, [], ◌∷◌, ◌++◌, String, none, some, arith,
  Bool-cases,
}
use agent_chun_su.Table.{find_by, update_where}
use agent_chun_su.Table.Laws.{find_by-update_where}
use agent_chun_su.Store.Model.{Error, ok, err, message}
use agent_chun_su.Store.Txn.{Result-cases}
use agent_chun_su.Conversations.{
  Conversation, Binding, Chats, ChatEnv, stored, stored_key, is_named, set_stored, read,
  new_conversation, err_revision,
}
use agent_chun_su.Conversations.Switch.{
  other_party, archive, finish, replace_by, reset_locked, select_locked, selectable, same_binding,
}
use agent_chun_su.Conversations.Edits.{
  IsStored, IsStored-append, IsStored-new, IsStored-saved, IsStored-own, IsStored-other,
  write-saves, write-opens, read-IsStored,
}
use agent_chun_su.Conversations.Edits.Parts.{same_binding-found, write_binding-again}

-- The binding of that name is to the conversation, which is stored and not archived.
abbrev pub IsActive : ℕ → Conversation → Chats → Type 0
IsActive n c cs =
    (b : Binding) × (find_by stored_key n cs.bindings ≡ some (stored n b))
    × (b.active ≡ c.id)
    × IsStored c.id c cs
    × (c.archived ≡ false)

-- What a switch from one conversation to another leaves.
abbrev pub Switched : ℕ → Binding → Conversation → Conversation → Chats → Chats → Type 0
Switched n b prior next cs cs' =
    (cs' ≡ record {
      items = update_where (is_named prior.id) (set_stored (archive prior)) cs.items;
      bindings = update_where (is_named n) (set_stored (record b { active = next.id })) cs.bindings;
    })

finish-Switched :
    (env : ChatEnv) (n : ℕ) (b : Binding) (next prior c : Conversation) (cs cs' : Chats)
    → find_by stored_key n cs.bindings ≡ some (stored n b)
    → IsStored prior.id prior cs
    → finish env n b next prior cs ≡ (cs', ok c)
    → (c ≡ next) × Switched n b prior next cs cs'
unfolding finish
finish-Switched env n b next prior c cs cs' found there h =
    elim (write-saves env prior.id prior (archive prior) mid there refl) [
      | inl e ↦ ground (arith, write_binding-again n b b' cs found)
      | inr (x, e) ↦ absurd (ground (arith, write_binding-again n b b' cs found))
    ]
  where
    b' : Binding
    b' = record b { active = next.id }

    mid : Chats
    mid = record cs { bindings = update_where (is_named n) (set_stored b') cs.bindings }

new_conversation-live :
    (id : ℕ) (channel owner : String) → (new_conversation id channel owner).archived ≡ false
unfolding new_conversation
new_conversation-live id channel owner = refl

-- What a reset that succeeds did to the files.
abbrev Replaced : ℕ → Binding → Conversation → Conversation → Chats → Chats → Type 0
Replaced n b prior c cs cs' =
    (find_by stored_key c.id cs.items ≡ none)
    × Switched n b prior c (record cs { items = cs.items ++ (stored c.id c ∷ []) }) cs'

reset_locked-Replaced :
    (env : ChatEnv) (channel owner : String) (n : ℕ) (seen : Binding) (cs cs' : Chats)
    (c : Conversation)
    → reset_locked env channel owner n seen cs ≡ (cs', ok c)
    → (b : Binding) × (prior : Conversation) × (same_binding channel owner seen n cs ≡ ok b)
      × IsStored b.active prior cs
      × (c ≡ new_conversation env.fresh channel owner)
      × Replaced n b prior (new_conversation env.fresh channel owner) cs cs'
unfolding reset_locked replace_by new_conversation
reset_locked-Replaced env channel owner n seen cs cs' c h =
    elim (Result-cases (same_binding channel owner seen n cs)) [
      | inr (x, e) ↦ absurd (ground arith)
      | inl (b, e) ↦ elim (Result-cases (read env b.active cs)) [
        | inr (x, f) ↦ absurd (ground arith)
        | inl (prior, f) ↦ elim (write-opens env next cs) [
          | inr (x, g) ↦ absurd (ground arith)
          | inl (absent, g) ↦
              let done =
                finish-Switched env n b next prior c mid cs'
                  (same_binding-found channel owner seen b n cs e).0
                  (IsStored-append b.active prior (stored next.id next) cs
                    (read-IsStored env b.active cs prior f))
                  (ground arith) in
              (b, prior, e, read-IsStored env b.active cs prior f, done.0, (absent, done.1))
        ]
      ]
    ]
  where
    next : Conversation
    next = new_conversation env.fresh channel owner

    mid : Chats
    mid = record cs { items = cs.items ++ (stored next.id next ∷ []) }

-- The prior conversation is archived under its id, with all that it held.
abbrev pub IsArchived : Conversation → Chats → Type 0
IsArchived c cs = IsStored c.id (archive c) cs

Replaced-IsActive :
    (n : ℕ) (b : Binding) (prior c : Conversation) (cs cs' : Chats)
    → find_by stored_key n cs.bindings ≡ some (stored n b)
    → IsStored b.active prior cs
    → c.archived ≡ false
    → Replaced n b prior c cs cs'
    → IsActive n c cs' × IsArchived prior cs'
Replaced-IsActive n b prior c cs cs' found there live (absent, after) =
    subst (λ x. IsActive n c x × IsArchived prior x) (sym after)
      (
        (
          record b { active = c.id },
          ground (
            arith,
            find_by-update_where stored_key (is_named n) (set_stored (record b { active = c.id }))
                (λ f. refl) n cs.bindings,
          ),
          refl,
          IsStored-other c.id prior.id c (archive prior) mid (IsStored-new c cs absent) other,
          live,
        ),
        IsStored-saved prior.id prior (archive prior) mid
            (IsStored-append b.active prior (stored c.id c) cs there) refl,
      )
  where
    mid : Chats
    mid = record cs { items = cs.items ++ (stored c.id c ∷ []) }

    other : c.id ≢ prior.id
    other same = absurd (ground (arith, IsStored-own b.active prior cs there))

-- After a Reset that succeeds, the binding is to the new, empty conversation that it returns, which is
-- not archived, and the conversation that was active before is archived with all that it held.
pub reset_locked-IsActive :
    (env : ChatEnv) (channel owner : String) (n : ℕ) (seen : Binding) (cs cs' : Chats)
    (c : Conversation)
    → reset_locked env channel owner n seen cs ≡ (cs', ok c)
    → (prior : Conversation) × IsStored seen.active prior cs
      × (c ≡ new_conversation env.fresh channel owner)
      × (IsActive n c cs' × IsArchived prior cs')
reset_locked-IsActive env channel owner n seen cs cs' c h =
    let (b, prior, e, there, is, done) =
      reset_locked-Replaced env channel owner n seen cs cs' c h in
    let (found, party, owned, same) = same_binding-found channel owner seen b n cs e in
    (
      prior,
      subst (λ k. IsStored k prior cs) same there,
      is,
      subst (λ d. IsActive n d cs' × IsArchived prior cs') (sym is)
          (Replaced-IsActive n b prior (new_conversation env.fresh channel owner) cs cs' found there
            (new_conversation-live env.fresh channel owner) done),
    )

same_binding-raced :
    (channel owner : String) (seen b : Binding) (n : ℕ) (cs : Chats)
    → find_by stored_key n cs.bindings ≡ some (stored n b)
    → b.active ≢ seen.active
    → (e : Error) × (same_binding channel owner seen n cs ≡ err e)
unfolding same_binding
same_binding-raced channel owner seen b n cs found moved =
    elim (Bool-cases (other_party b.channel b.owner channel owner)) [
      | inl other ↦ (message "conversation binding mismatch", ground arith)
      | inr party ↦ (err_revision, ground arith)
    ]

-- A Reset or a Select that saw another active conversation than the one that is active under the
-- locks is refused and changes nothing.
switch-raced :
    (env : ChatEnv) (channel owner : String) (id n : ℕ) (seen b : Binding) (cs : Chats)
    → find_by stored_key n cs.bindings ≡ some (stored n b)
    → b.active ≢ seen.active
    → ((e : Error) × (reset_locked env channel owner n seen cs ≡ (cs, err e)))
      × ((e : Error) × (select_locked env channel owner id n seen cs ≡ (cs, err e)))
unfolding reset_locked select_locked
switch-raced env channel owner id n seen b cs found moved =
    let (x, e) = same_binding-raced channel owner seen b n cs found moved in
    (
      (x, rw e refl),
      elim (Result-cases (selectable env channel owner id cs)) [
        | inr (y, f) ↦ (y, rw f refl)
        | inl (c, f) ↦ (x, rw (f, e) refl)
      ],
    )
