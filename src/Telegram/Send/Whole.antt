-- ===== src/Telegram/Send/Whole.antt =====
-- The messages of a reply of internal/telegram/client.go, put together again.
use agent_chun_su.Base.{
  ℕ, zero, suc, ◌+◌, ◌-◌, ◌*◌, ◌⊎◌, ◌≤◌, ◌≡◌, refl, sym, subst, ◌∙◌, ap, inl, inr, true, false,
  Bool-cases, none, ltb, List, [], ◌∷◌, ◌++◌, arith,
}
use agent_chun_su.Table.{length, take, drop}
use agent_chun_su.Table.Slices.{length-drop, length-take, take-append-drop, take-all, drop-all}
use agent_chun_su.Table.Apart.{length-append}
use agent_chun_su.Store.Model.{ok}
use agent_chun_su.Telegram.Send.{
  message_units, max_reply_units, backed_up, ascii_units, notice, limited, part_end, parts,
  send_parts, send,
}
use agent_chun_su.Telegram.Send.Pairs.{paired_from, paired-append, backed_up-cut}

-- The units of all messages, in order.
unfoldable pub joined : List (List ℕ) → List ℕ
joined [] = []
joined (p ∷ ps) = p ++ joined ps

-- The ids of some messages.
unfoldable pub ids_of : (List ℕ → ℕ) → List (List ℕ) → List ℕ
ids_of id [] = []
ids_of id (p ∷ ps) = id p ∷ ids_of id ps

-- The messages of a reply.
abbrev pub messages : List ℕ → List (List ℕ)
messages us = parts (length (limited us)) (limited us)

-- A message has a unit at least, and no more than the server takes.
unfoldable pub AllFit : List (List ℕ) → Type 0
AllFit [] = Unit
AllFit (p ∷ ps) = ((1 ≤ length p) × (length p ≤ message_units)) × AllFit ps

part_end-low : (u : ℕ) (us : List ℕ) → 1 ≤ part_end (u ∷ us)
unfolding part_end
part_end-low u us = ground arith

part_end-high : (us : List ℕ) → part_end us ≤ length us
unfolding part_end
part_end-high us = ground arith

part_end-fits : (us : List ℕ) → part_end us ≤ message_units
unfolding part_end
part_end-fits us = ground arith

-- What is left after a message is shorter.
left-shorter :
    (k u : ℕ) (us : List ℕ)
    → length (u ∷ us) ≤ suc k
    → length (drop (part_end (u ∷ us)) (u ∷ us)) ≤ k
left-shorter k u us h = omega (arith, length-drop (part_end (u ∷ us)) (u ∷ us), part_end-low u us)

parts-joined : (k : ℕ) (us : List ℕ) → length us ≤ k → joined (parts k us) ≡ us
unfolding parts joined
parts-joined zero [] h = refl
parts-joined zero (u ∷ us) h = absurd (omega arith)
parts-joined (suc k) [] h = refl
parts-joined (suc k) (u ∷ us) h =
    ap (λ l. take (part_end (u ∷ us)) (u ∷ us) ++ l)
      (parts-joined k (drop (part_end (u ∷ us)) (u ∷ us)) (left-shorter k u us h))
    ∙ take-append-drop (part_end (u ∷ us)) (u ∷ us)

parts-AllFit : (k : ℕ) (us : List ℕ) → AllFit (parts k us)
unfolding parts AllFit
parts-AllFit zero us = tt
parts-AllFit (suc k) [] = tt
parts-AllFit (suc k) (u ∷ us) = (
  (omega (arith, taken, part_end-low u us), omega (arith, taken, part_end-fits (u ∷ us))),
  parts-AllFit k (drop (part_end (u ∷ us)) (u ∷ us)),
)
  where
    taken : length (take (part_end (u ∷ us)) (u ∷ us)) ≡ part_end (u ∷ us)
    taken = length-take (part_end (u ∷ us)) (u ∷ us) (part_end-high (u ∷ us))

parts-none : (k : ℕ) (us : List ℕ) → length us ≡ 0 → parts k us ≡ []
unfolding parts
parts-none zero us h = refl
parts-none (suc k) [] h = refl
parts-none (suc k) (u ∷ us) h = absurd (omega arith)

-- A message that is not the last has 3999 units or more.
part_end-long : (us : List ℕ) → 3999 ≤ part_end us ⊎ part_end us ≡ length us
unfolding part_end
part_end-long us = ground arith

parts-few : (k : ℕ) (us : List ℕ) → 3999 * length (parts k us) ≤ length us + 3998
unfolding parts
parts-few zero us = omega arith
parts-few (suc k) [] = omega arith
parts-few (suc k) (u ∷ us) = elim (part_end-long (u ∷ us)) [
  | inl long ↦ omega (
    arith,
    long,
    part_end-high (u ∷ us),
    parts-few k (drop (part_end (u ∷ us)) (u ∷ us)),
    left-length,
  )
  | inr last ↦
      rw (parts-none k (drop (part_end (u ∷ us)) (u ∷ us)) (omega (arith, last, left-length)))
        (omega arith)
]
  where
    left : List ℕ
    left = drop (part_end (u ∷ us)) (u ∷ us)

    left-length : length left ≡ length (u ∷ us) - part_end (u ∷ us)
    left-length = length-drop (part_end (u ∷ us)) (u ∷ us)

unfoldable pub AllPaired : List (List ℕ) → Type 0
AllPaired [] = Unit
AllPaired (p ∷ ps) = (paired_from false p ≡ true) × AllPaired ps

self : (n : ℕ) → ltb n n ≡ false
self n = ground arith

-- All units are the last message.
all-Paired :
    (n : ℕ) (us : List ℕ)
    → n ≡ length us
    → paired_from false us ≡ true
    → (paired_from false (take n us) ≡ true) × (paired_from false (drop n us) ≡ true)
unfolding paired_from
all-Paired n us e p = rw e (
  subst (λ l. paired_from false l ≡ true) (sym (take-all us)) p,
  ap (paired_from false) (drop-all us),
)

part_end-Paired :
    (us : List ℕ)
    → paired_from false us ≡ true
    → (paired_from false (take (part_end us) us) ≡ true)
      × (paired_from false (drop (part_end us) us) ≡ true)
unfolding part_end
part_end-Paired us p = elim (Bool-cases (ltb (length us) message_units)) [
  | inl less ↦ rw (less, self (length us)) (all-Paired (length us) us refl p)
  | inr more ↦ elim (Bool-cases (ltb message_units (length us))) [
    | inl over ↦ rw (more, over) (backed_up-cut 3998 us p (ground arith))
    | inr full ↦ rw (more, full) (all-Paired message_units us (ground arith) p)
  ]
]

parts-AllPaired : (k : ℕ) (us : List ℕ) → paired_from false us ≡ true → AllPaired (parts k us)
unfolding parts AllPaired
parts-AllPaired zero us p = tt
parts-AllPaired (suc k) [] p = tt
parts-AllPaired (suc k) (u ∷ us) p = (
  (part_end-Paired (u ∷ us) p).0,
  parts-AllPaired k (drop (part_end (u ∷ us)) (u ∷ us)) (part_end-Paired (u ∷ us) p).1,
)

notice-Paired : paired_from false notice ≡ true
unfolding notice ascii_units paired_from
notice-Paired = refl

length-notice : length notice ≡ 53
unfolding notice ascii_units
length-notice = refl

limited-Paired : (us : List ℕ) → paired_from false us ≡ true → paired_from false (limited us) ≡ true
unfolding limited
limited-Paired us p = elim (Bool-cases (ltb max_reply_units (length us))) [
  | inr less ↦ rw less p
  | inl over ↦ rw over (
      paired-append false (take (backed_up us 11947) us) notice
        (backed_up-cut 11945 us p (ground arith)).0 notice-Paired)
]

length-limited : (us : List ℕ) → length (limited us) ≤ max_reply_units
unfolding limited
length-limited us = elim (Bool-cases (ltb max_reply_units (length us))) [
  | inr less ↦ rw less (ground arith)
  | inl over ↦ rw over (
      ground (
        arith,
        length-notice,
        length-append (take (backed_up us 11947) us) notice,
        length-take (backed_up us 11947) us,
      ))
]

pub length-messages : (us : List ℕ) → length (messages us) ≤ 4
length-messages us = omega (arith, parts-few (length (limited us)) (limited us), length-limited us)

-- Each message is answered with its own id, in the same chat.
send_parts-all :
    (chat : ℕ) (id : List ℕ → ℕ) (ps : List (List ℕ))
    → ((p : List ℕ) → 1 ≤ id p)
    → send_parts chat (λ p. ok (id p, chat)) ps ≡ (ids_of id ps, none)
unfolding send_parts ids_of
send_parts-all chat id [] real = refl
send_parts-all chat id (p ∷ ps) real = ground (arith, real p, send_parts-all chat id ps real)

-- Where the text has no lone surrogate and the server confirms each message with an id, Send returns
-- the ids of the messages in order and no error. The messages hold the units of the limited reply, of
-- which there are 12000 at most, in order and none besides; they are four at most, each has at least
-- one unit and at most 4000, and none begins or ends within a surrogate pair. The loop needs no more
-- rounds than there are units.
pub send-whole :
    (chat : ℕ) (id : List ℕ → ℕ) (us : List ℕ)
    → 1 ≤ chat
    → ((p : List ℕ) → 1 ≤ id p)
    → paired_from false us ≡ true
    → (send chat (λ p. ok (id p, chat)) us ≡ (ids_of id (messages us), none))
      × (joined (messages us) ≡ limited us)
      × (length (limited us) ≤ max_reply_units)
      × (length (messages us) ≤ 4)
      × AllFit (messages us)
      × AllPaired (messages us)
unfolding send
send-whole chat id us positive real paired = (
  ground (arith, send_parts-all chat id (messages us) real),
  parts-joined (length (limited us)) (limited us) (omega arith),
  length-limited us,
  length-messages us,
  parts-AllFit (length (limited us)) (limited us),
  parts-AllPaired (length (limited us)) (limited us) (limited-Paired us paired),
)
