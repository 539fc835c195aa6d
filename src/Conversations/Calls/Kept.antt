-- ===== src/Conversations/Calls/Kept.antt =====
-- What no operation on conversations loses, wherever it fails: the conversations, which only get
-- newer, and the bindings, each of which names a conversation of its channel and owner.
use agent_chun_su.Base.{
  ℕ, ◌≤◌, ◌≡◌, ◌≢◌, refl, ◌∙◌, inl, inr, List, some, arith, ℕ_discrete, Bool-cases,
}
use agent_chun_su.Table.{find_by, update_where, when, All}
use agent_chun_su.Table.Laws.{
  find_by-append, find_by-update_where, All-map, All-append, All-update_where,
}
use agent_chun_su.Conversations.{
  Stored, Conversation, Binding, Chats, ChatEnv, stored, stored_key, is_named, set_stored,
}
use agent_chun_su.Conversations.Edits.{
  IsStored, OneWrite, opened, saved, bound_first, bound_again, Follows-same, Names,
}
use agent_chun_su.Conversations.Calls.{ChatCall, perform_all, perform_all-keeps}

-- The conversation is there still, in the same or a later version.
abbrev pub IsLater : ℕ → Conversation → Chats → Type 0
IsLater id c cs =
    (c' : Conversation) × (find_by stored_key id cs.items ≡ some (stored id c'))
    × (c'.id ≡ c.id)
    × (c.revision ≤ c'.revision)
    × (c'.channel ≡ c.channel)
    × (c'.owner ≡ c.owner)

update-other :
    (fs : List (Stored Conversation)) (id k : ℕ) (c d : Conversation)
    → find_by stored_key id fs ≡ some (stored id c)
    → id ≢ k
    → find_by stored_key id (update_where (is_named k) (set_stored d) fs) ≡ some (stored id c)
update-other fs id k c d h miss =
    ground (arith, find_by-update_where stored_key (is_named k) (set_stored d) (λ f. refl) id fs)

update-same :
    (fs : List (Stored Conversation)) (id k : ℕ) (c d : Conversation)
    → find_by stored_key id fs ≡ some (stored id c)
    → id ≡ k
    → find_by stored_key id (update_where (is_named k) (set_stored d) fs) ≡ some (stored id d)
update-same fs id k c d h hit =
    ground (arith, find_by-update_where stored_key (is_named k) (set_stored d) (λ f. refl) id fs)

same_item :
    (cs : Chats) (id k : ℕ) (c d : Conversation)
    → find_by stored_key id cs.items ≡ some (stored id c)
    → IsStored k d cs
    → id ≡ k
    → c ≡ d
same_item cs id k c d h there hit = ground arith

edit-IsLater :
    (cs cs' : Chats) (id : ℕ) (c : Conversation)
    → OneWrite cs cs'
    → find_by stored_key id cs.items ≡ some (stored id c)
    → IsLater id c cs'
edit-IsLater cs cs' id c (opened k channel owner absent items bindings) h = (
  c,
  rw (items, find_by-append stored_key id cs.items _ (stored id c) h) refl,
  refl,
  omega arith,
  refl,
  refl,
)
edit-IsLater cs cs' id c (bound_first n b d names items bindings) h =
    (c, rw (items, h) refl, refl, omega arith, refl, refl)
edit-IsLater cs cs' id c (bound_again n b d names items bindings) h =
    (c, rw (items, h) refl, refl, omega arith, refl, refl)
edit-IsLater cs cs' id c (saved k d d' there f items bindings) h = elim (ℕ_discrete id k) [
  | Dec.no miss ↦
      (c, rw items (update-other cs.items id k c d' h miss), refl, omega arith, refl, refl)
  | Dec.yes hit ↦ (
    d',
    rw items (update-same cs.items id k c d' h hit),
    ground (arith, same_item cs id k c d, Follows-same d d' f),
    ground (arith, same_item cs id k c d, Follows-same d d' f),
    ground (arith, same_item cs id k c d, Follows-same d d' f),
    ground (arith, same_item cs id k c d, Follows-same d d' f),
  )
]

-- Each binding is to a conversation that is there, of its channel and owner.
abbrev pub AllBound : Chats → Type 0
AllBound cs = All (λ f. (c : Conversation) × Names f.value c cs) cs.bindings

IsLater-trans :
    (id : ℕ) (c : Conversation) (mid cs' : Chats)
    → IsLater id c mid
    → ((d : Conversation) → find_by stored_key id mid.items ≡ some (stored id d) → IsLater id d cs')
    → IsLater id c cs'
IsLater-trans id c mid cs' (d, found, same, newer, channel, owner) rest = onward (rest d found)
  where
    onward : IsLater id d cs' → IsLater id c cs'
    onward (e, found', same', newer', channel', owner') =
        (e, found', same' ∙ same, omega arith, channel' ∙ channel, owner' ∙ owner)

-- Under any calls of Ensure, Append, Mark, LinkJob, IngestEvent, Reset and Select, a conversation
-- stays: the same or a later revision of it, of its channel and owner, is found under its id.
pub perform_all-IsLater :
    (calls : List (ChatEnv × ChatCall)) (cs : Chats) (id : ℕ) (c : Conversation)
    → find_by stored_key id cs.items ≡ some (stored id c)
    → IsLater id c (perform_all calls cs)
perform_all-IsLater calls cs id c h =
    perform_all-keeps
      (λ cs cs'.
        (c : Conversation) → find_by stored_key id cs.items ≡ some (stored id c) → IsLater id c cs')
      (λ cs c h. (c, h, refl, omega arith, refl, refl))
      (λ cs mid cs' e rest c h. IsLater-trans id c mid cs' (edit-IsLater cs mid id c e h) rest)
      calls cs c h

Names-kept :
    (cs cs' : Chats) (b : Binding)
    → OneWrite cs cs'
    → (c : Conversation) × Names b c cs
    → (c : Conversation) × Names b c cs'
Names-kept cs cs' b e (c, names) = of_later (edit-IsLater cs cs' b.active c e names.0.0)
  where
    of_later : IsLater b.active c cs' → (c : Conversation) × Names b c cs'
    of_later (d, found, id, newer, channel, owner) =
        (d, ((found, id ∙ names.0.1), channel ∙ names.1, owner ∙ names.2))

edit-AllBound : (cs cs' : Chats) → OneWrite cs cs' → AllBound cs → AllBound cs'
edit-AllBound cs cs' e h =
    bindings_after e (All-map _ _ (λ f. Names-kept cs cs' f.value e) cs.bindings h)
  where
    Bound : Stored Binding → Type 0
    Bound f = (c : Conversation) × Names f.value c cs'

    same_items :
        (b : Binding) (d : Conversation)
        → Names b d cs
        → cs'.items ≡ cs.items
        → (c : Conversation) × Names b c cs'
    same_items b d names items = (d, ((rw items names.0.0, names.0.1), names.1, names.2))

    one :
        (n : ℕ) (b : Binding)
        → (c : Conversation) × Names b c cs'
        → (f : Stored Binding) → Bound f
        → Bound (when (is_named n) (set_stored b) f)
    one n b new f old = elim (Bool-cases (is_named n f)) [
      | inl hit ↦ rw hit new
      | inr miss ↦ rw miss old
    ]

    bindings_after : OneWrite cs cs' → All Bound cs.bindings → AllBound cs'
    bindings_after (opened k channel owner absent items bindings) q = rw bindings q
    bindings_after (saved k d d' there f items bindings) q = rw bindings q
    bindings_after (bound_first n b d names items bindings) q =
        rw bindings (All-append Bound cs.bindings _ q (same_items b d names items, tt))
    bindings_after (bound_again n b d names items bindings) q = rw bindings (
        All-update_where Bound Bound (is_named n) (set_stored b)
          (one n b (same_items b d names items)) cs.bindings q)

-- Under any calls of Ensure, Append, Mark, LinkJob, IngestEvent, Reset and Select, also those that
-- fail halfway, each binding is to a stored conversation of its channel and owner, if this holds at
-- the start.
pub perform_all-AllBound :
    (calls : List (ChatEnv × ChatCall)) (cs : Chats) → AllBound cs → AllBound (perform_all calls cs)
perform_all-AllBound calls cs h =
    perform_all-keeps (λ cs cs'. AllBound cs → AllBound cs') (λ cs h. h)
      (λ cs mid cs' e rest h. rest (edit-AllBound cs mid e h)) calls cs h
