-- ===== src/Conversations/Timeline/Ordered.antt =====
-- History merges without loss and in the order of the revisions.
use agent_chun_su.Base.{
  ℕ, ◌<◌, ◌≤◌, ◌≡◌, refl, subst, ap, inl, inr, List, [], ◌∷◌, map, arith, ltb, Bool-cases,
}
use agent_chun_su.Table.{All, Apart}
use agent_chun_su.Table.Laws.{All-map}
use agent_chun_su.Conversations.{ChatEvent, HostReference, Conversation}
use agent_chun_su.Conversations.Timeline.{host_message, merge_message, merge, history}
use agent_chun_su.Conversations.Tidy.{event_revision, IsTidy}

-- What was said, or what the host did, at a revision.
pub record Entry : Type 0 where
  pub at : ℕ
  pub event : ChatEvent

abbrev pub entry_event : Entry → ChatEvent
entry_event e = e.event

-- The third list has the rows of the first two, each in its order.
pub data Interleaves {ℓ} {A : Type ℓ} : List A → List A → List A → Type ℓ where
  both_end : Interleaves [] [] []
  take_left : (x : A) (xs ys zs : List A) → Interleaves xs ys zs → Interleaves (x ∷ xs) ys (x ∷ zs)
  take_right : (y : A) (xs ys zs : List A) → Interleaves xs ys zs → Interleaves xs (y ∷ ys) (y ∷ zs)

abbrev pub message_entries : List ChatEvent → List ℕ → List Entry
message_entries [] rs = []
message_entries (m ∷ ms) [] = []
message_entries (m ∷ ms) (r ∷ rs) = record { at = r; event = m } ∷ message_entries ms rs

abbrev pub host_entry : HostReference → Entry
host_entry e = record { at = e.at_revision; event = host_message e }

-- The entries are in the order of their revisions.
abbrev pub InOrder : List Entry → Type 0
InOrder zs = Apart (λ x y. x.at ≤ y.at) zs

-- The dialogue is a merge of the two lists in the order of the revisions.
abbrev pub IsMerged : List Entry → List Entry → List ChatEvent → Type 0
IsMerged xs ys dialogue =
    (zs : List Entry) × Interleaves xs ys zs × InOrder zs × (dialogue ≡ map entry_event zs)

Interleaves-All {ℓ κ} :
    {A : Type ℓ} (P : A → Type κ) (xs ys zs : List A)
    → Interleaves xs ys zs
    → All P xs
    → All P ys
    → All P zs
Interleaves-All P _ _ _ both_end h k = tt
Interleaves-All P _ _ _ (take_left x xs ys zs i) h k = (h.0, Interleaves-All P xs ys zs i h.1 k)
Interleaves-All P _ _ _ (take_right y xs ys zs i) h k = (k.0, Interleaves-All P xs ys zs i h k.1)

first_left :
    (x : Entry) (xs ys : List Entry) (ds : List ChatEvent)
    → All (λ y. x.at ≤ y.at) xs
    → All (λ y. x.at ≤ y.at) ys
    → IsMerged xs ys ds
    → IsMerged (x ∷ xs) ys (x.event ∷ ds)
first_left x xs ys ds h k (zs, i, sorted, same) = (
  x ∷ zs,
  take_left x xs ys zs i,
  (Interleaves-All _ xs ys zs i h k, sorted),
  ap (λ l. x.event ∷ l) same,
)

first_right :
    (y : Entry) (xs ys : List Entry) (ds : List ChatEvent)
    → All (λ x. y.at ≤ x.at) xs
    → All (λ x. y.at ≤ x.at) ys
    → IsMerged xs ys ds
    → IsMerged xs (y ∷ ys) (y.event ∷ ds)
first_right y xs ys ds h k (zs, i, sorted, same) = (
  y ∷ zs,
  take_right y xs ys zs i,
  (Interleaves-All _ xs ys zs i h k, sorted),
  ap (λ l. y.event ∷ l) same,
)

-- The host's events after the last message.
hosts-IsMerged :
    (es : List HostReference)
    → InOrder (map host_entry es)
    → IsMerged [] (map host_entry es) (map host_message es)
hosts-IsMerged [] h = ([], both_end, tt, refl)
hosts-IsMerged (e ∷ es) h = first_right (host_entry e) [] _ _ tt h.0 (hosts-IsMerged es h.1)

merge_message-IsMerged :
    (m : ChatEvent) (r : ℕ) (rest : List HostReference → List ChatEvent) (xs : List Entry)
    (es : List HostReference)
    → ((fs : List HostReference)
        → InOrder (map host_entry fs)
        → IsMerged xs (map host_entry fs) (rest fs))
    → All (λ x. r ≤ x.at) xs
    → InOrder (map host_entry es)
    → IsMerged (record { at = r; event = m } ∷ xs) (map host_entry es) (merge_message m r rest es)
unfolding merge_message
merge_message-IsMerged m r rest xs [] more later h = first_left _ xs [] _ later tt (more [] tt)
merge_message-IsMerged m r rest xs (e ∷ es) more later h = elim (Bool-cases (ltb r e.at_revision)) [
  | inl before ↦ rw before (
      first_left (record { at = r; event = m }) xs _ _ later
        (ground arith, All-map _ _ (λ y k. ground arith) _ h.0) (more (e ∷ es) h))
  | inr after ↦ rw after (
      first_right (host_entry e) _ _ _ (ground arith, All-map _ _ (λ y k. ground arith) xs later)
        h.0 (merge_message-IsMerged m r rest xs es more later h.1))
]

-- The messages, as many as there are, after a revision.
message_entries-later :
    (r : ℕ) (ms : List ChatEvent) (rs : List ℕ)
    → All (λ q. r < q) rs
    → All (λ x. r ≤ x.at) (message_entries ms rs)
message_entries-later r [] rs h = tt
message_entries-later r (m ∷ ms) [] h = tt
message_entries-later r (m ∷ ms) (q ∷ rs) h = (omega arith, message_entries-later r ms rs h.1)

merge-IsMerged :
    (ms : List ChatEvent) (rs : List ℕ) (es : List HostReference)
    → Apart (λ x y. x < y) rs
    → InOrder (map host_entry es)
    → IsMerged (message_entries ms rs) (map host_entry es) (merge ms rs es)
unfolding merge
merge-IsMerged [] rs es ascends h = hosts-IsMerged es h
merge-IsMerged (m ∷ ms) [] es ascends h = hosts-IsMerged es h
merge-IsMerged (m ∷ ms) (r ∷ rs) es ascends h =
    merge_message-IsMerged m r (merge ms rs) (message_entries ms rs) es
      (λ fs k. merge-IsMerged ms rs fs ascends.1 k) (message_entries-later r ms rs ascends.0) h

hosts-InOrder :
    (es : List HostReference)
    → Apart (λ x y. x < y) (map event_revision es)
    → InOrder (map host_entry es)
hosts-InOrder [] h = tt
hosts-InOrder (e ∷ es) h = (from_first e.at_revision es h.0, hosts-InOrder es h.1)
  where
    from_first :
        (r : ℕ) (es : List HostReference)
        → All (λ q. r < q) (map event_revision es)
        → All (λ x. r ≤ x.at) (map host_entry es)
    from_first r [] h = tt
    from_first r (e ∷ es) h = (omega arith, from_first r es h.1)

-- The dialogue that History gives of a tidy conversation is a merge of its messages and of its host
-- events: each of them once, in its order, and all in the order of their revisions.
pub history-IsMerged :
    (c : Conversation)
    → IsTidy c
    → IsMerged
        (message_entries c.messages c.message_revisions)
        (map host_entry c.host_events)
        (history c)
unfolding history
history-IsMerged c h =
    subst
      (λ d.
        IsMerged (message_entries c.messages c.message_revisions) (map host_entry c.host_events) d)
      taken
      (merge-IsMerged c.messages c.message_revisions c.host_events h.messages_ascend.0
        (hosts-InOrder c.host_events h.events_ascend.0))
  where
    taken : merge c.messages c.message_revisions c.host_events ≡ history c
    taken = ground (arith, h.stamped)
