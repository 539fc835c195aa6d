-- ===== src/Conversations/Tidy.antt =====
-- The invariant of a stored conversation: each message has its revision, what happened is in the
-- order of the revisions, and no job and no host event is listed twice.
use agent_chun_su.Base.{
  ℕ, suc, ◌<◌, ◌≤◌, ◌≡◌, ◌≢◌, refl, inl, inr, List, [], ◌∷◌, ◌++◌, map, arith, String, Bool-cases,
}
use agent_chun_su.Table.{when, All, Apart, length}
use agent_chun_su.Table.Laws.{All-map, All-append, All-update_where}
use agent_chun_su.Table.Apart.{All-found, Apart-append, length-append, map-append, absent-All}
use agent_chun_su.Conversations.{
  Stored, HostReference, Conversation, Chats, ChatEnv, stored, stored_key, is_named, set_stored,
  new_conversation,
}
use agent_chun_su.Conversations.Change.{
  contains, link, ingest, next_revision, add_message, set_turn,
}
use agent_chun_su.Conversations.Switch.{archive, restore}
use agent_chun_su.Conversations.Edits.{
  Follows, updated, put_away, taken_up, said, turned, linked, ingested, OneWrite, opened, saved,
  bound_first, bound_again,
}
use agent_chun_su.Conversations.Calls.{ChatCall, perform_all, perform_all-keeps}

abbrev pub event_id : HostReference → ℕ
event_id e = e.id

abbrev pub event_revision : HostReference → ℕ
event_revision e = e.at_revision

-- Numbers that ascend up to a bound.
abbrev pub AscendsTo : ℕ → List ℕ → Type 0
AscendsTo bound xs = Apart (λ x y. x < y) xs × All (λ x. x ≤ bound) xs

pub record IsTidy (c : Conversation) : Type 0 where
  pub stamped : length c.message_revisions ≡ length c.messages
  pub messages_ascend : AscendsTo c.revision c.message_revisions
  pub events_ascend : AscendsTo c.revision (map event_revision c.host_events)
  pub events_processed : map event_id c.host_events ≡ c.processed_events
  pub events_apart : Apart (λ x y. x ≢ y) c.processed_events
  pub jobs_apart : Apart (λ x y. x ≢ y) c.job_ids

abbrev pub AllTidy : Chats → Type 0
AllTidy cs = All (λ f. IsTidy f.value) cs.items

AscendsTo-suc : (bound : ℕ) (xs : List ℕ) → AscendsTo bound xs → AscendsTo (suc bound) xs
AscendsTo-suc bound xs h = (h.0, All-map _ _ (λ x below. omega arith) xs h.1)

AscendsTo-append :
    (bound : ℕ) (xs : List ℕ) → AscendsTo bound xs → AscendsTo (suc bound) (xs ++ (suc bound ∷ []))
AscendsTo-append bound xs h = (
  Apart-append _ xs (suc bound) h.0 (All-map _ _ (λ x below. omega arith) xs h.1),
  All-append _ xs (suc bound ∷ []) (All-map _ _ (λ x below. omega arith) xs h.1) (omega arith, tt),
)

-- A later revision of the same dialogue.
aged :
    (c c' : Conversation)
    → IsTidy c
    → c'.revision ≡ suc c.revision
    → c'.messages ≡ c.messages
    → c'.message_revisions ≡ c.message_revisions
    → c'.host_events ≡ c.host_events
    → c'.processed_events ≡ c.processed_events
    → c'.job_ids ≡ c.job_ids
    → IsTidy c'
aged c c' h revision messages stamps events processed jobs = record {
  stamped = rw (messages, stamps) h.stamped;
  messages_ascend =
      rw (revision, stamps) (AscendsTo-suc c.revision c.message_revisions h.messages_ascend);
  events_ascend =
      rw (revision, events)
        (AscendsTo-suc c.revision (map event_revision c.host_events) h.events_ascend);
  events_processed = rw (events, processed) h.events_processed;
  events_apart = rw processed h.events_apart;
  jobs_apart = rw jobs h.jobs_apart;
}

said-IsTidy :
    (role content state : String) (c : Conversation)
    → IsTidy c
    → IsTidy (next_revision (add_message role content state c))
said-IsTidy role content state c h = record {
  stamped =
      rw
        (
          length-append c.message_revisions (suc c.revision ∷ []),
          length-append c.messages (record { role = role; content = content } ∷ []),
        )
        (ground (arith, h.stamped));
  messages_ascend = AscendsTo-append c.revision c.message_revisions h.messages_ascend;
  events_ascend = AscendsTo-suc c.revision (map event_revision c.host_events) h.events_ascend;
  events_processed = h.events_processed;
  events_apart = h.events_apart;
  jobs_apart = h.jobs_apart;
}

linked-IsTidy : (job : ℕ) (c : Conversation) → IsTidy c → IsTidy (link job c)
unfolding link contains
linked-IsTidy job c h = elim (Bool-cases (contains c.job_ids job)) [
  | inl seen ↦ rw seen h
  | inr new ↦ rw new (record {
    stamped = h.stamped;
    messages_ascend = h.messages_ascend;
    events_ascend = h.events_ascend;
    events_processed = h.events_processed;
    events_apart = h.events_apart;
    jobs_apart = Apart-append _ c.job_ids job h.jobs_apart (absent-All job c.job_ids new);
  })
]

ingested-IsTidy :
    (event : HostReference) (c : Conversation) → IsTidy c → IsTidy (next_revision (ingest event c))
unfolding ingest contains
ingested-IsTidy event c h = elim (Bool-cases (contains c.processed_events event.id)) [
  | inl seen ↦ rw seen (aged c (next_revision c) h refl refl refl refl refl refl)
  | inr new ↦ rw new (record {
    stamped = h.stamped;
    messages_ascend = AscendsTo-suc c.revision c.message_revisions h.messages_ascend;
    events_ascend =
        rw (map-append event_revision c.host_events (stamped_event ∷ []))
          (AscendsTo-append c.revision (map event_revision c.host_events) h.events_ascend);
    events_processed =
        rw (map-append event_id c.host_events (stamped_event ∷ []), h.events_processed) refl;
    events_apart =
        Apart-append _ c.processed_events event.id h.events_apart
          (absent-All event.id c.processed_events new);
    jobs_apart = h.jobs_apart;
  })
]
  where
    stamped_event : HostReference
    stamped_event = record event { at_revision = suc c.revision }

Follows-IsTidy : (c c' : Conversation) → Follows c c' → IsTidy c → IsTidy c'
Follows-IsTidy c c' (put_away e) h = rw e (aged c (archive c) h refl refl refl refl refl refl)
Follows-IsTidy c c' (taken_up e) h = rw e (aged c (restore c) h refl refl refl refl refl refl)
Follows-IsTidy c c' (updated (said role content state) live e) h =
    rw e (said-IsTidy role content state c h)
Follows-IsTidy c c' (updated (turned state) live e) h =
    rw e (aged c (next_revision (set_turn state c)) h refl refl refl refl refl refl)
Follows-IsTidy c c' (updated (linked job) live e) h = rw e (
    aged (link job c) (next_revision (link job c)) (linked-IsTidy job c h) refl refl refl refl refl
      refl)
Follows-IsTidy c c' (updated (ingested event) live e) h = rw e (ingested-IsTidy event c h)

new-IsTidy : (id : ℕ) (channel owner : String) → IsTidy (new_conversation id channel owner)
unfolding new_conversation
new-IsTidy id channel owner = record {
  stamped = refl;
  messages_ascend = (tt, tt);
  events_ascend = (tt, tt);
  events_processed = refl;
  events_apart = tt;
  jobs_apart = tt;
}

edit-AllTidy : (cs cs' : Chats) → OneWrite cs cs' → AllTidy cs → AllTidy cs'
edit-AllTidy cs cs' (opened id channel owner absent items bindings) h =
    rw items (All-append _ cs.items _ h (new-IsTidy id channel owner, tt))
edit-AllTidy cs cs' (saved id c c' there f items bindings) h =
    rw items (All-update_where _ _ (is_named id) (set_stored c') replaced cs.items h)
  where
    replaced :
        (x : Stored Conversation)
        → IsTidy x.value
        → IsTidy (when (is_named id) (set_stored c') x).value
    replaced x old = elim (Bool-cases (is_named id x)) [
      | inl hit ↦ rw hit (
          Follows-IsTidy c c' f
            (All-found stored_key id (λ y. IsTidy y.value) cs.items (stored id c) there.0 h))
      | inr miss ↦ rw miss old
    ]
edit-AllTidy cs cs' (bound_first n b d names items bindings) h = rw items h
edit-AllTidy cs cs' (bound_again n b d names items bindings) h = rw items h

-- Under any calls of Ensure, Append, Mark, LinkJob, IngestEvent, Reset and Select, also those that
-- fail halfway, each stored conversation stays tidy, if all are at the start: each message has its
-- revision, the revisions of the messages and those of the host events strictly ascend up to the
-- conversation's, the host events are those processed, and no event and no job is listed twice.
pub perform_all-AllTidy :
    (calls : List (ChatEnv × ChatCall)) (cs : Chats) → AllTidy cs → AllTidy (perform_all calls cs)
perform_all-AllTidy calls cs h =
    perform_all-keeps (λ cs cs'. AllTidy cs → AllTidy cs') (λ cs h. h)
      (λ cs mid cs' e rest h. rest (edit-AllTidy cs mid e h)) calls cs h
