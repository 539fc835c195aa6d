-- ===== src/Telegram/Send.antt =====
-- How Client.Send of internal/telegram/client.go divides a reply, as UTF-16 units, into messages.
pub mod Pairs
pub mod Whole
use Prim.Native.Char.{code}
use agent_chun_su.Base.{
  ℕ, zero, suc, ◌-◌, ◌*◌, Bool, List, [], ◌∷◌, ◌++◌, String, Option, none, some, ◌==◌, ◌&&◌, ◌||◌,
  ltb, leb, not, if◌then◌else◌,
}
use agent_chun_su.Table.{length, take, drop}
use agent_chun_su.Store.Model.{Error, Result, ok, err, message}

abbrev pub message_units : ℕ
message_units = 4000

abbrev pub max_reply_units : ℕ
max_reply_units = message_units * 3

-- A unit that begins a surrogate pair.
abbrev pub is_high : ℕ → Bool
is_high u = leb 55296 u && leb u 56319

-- units[n], which the code asks for within the bounds only.
unfoldable pub unit_at : List ℕ → ℕ → ℕ
unit_at [] n = 0
unit_at (u ∷ us) zero = u
unit_at (u ∷ us) (suc n) = unit_at us n

-- One unit earlier, where the cut would divide a pair.
abbrev pub backed_up : List ℕ → ℕ → ℕ
backed_up units n = if is_high (unit_at units (n - 1)) then n - 1 else n

-- utf16.Encode of a text in ASCII.
unfoldable pub ascii_units : String → List ℕ
ascii_units String.[] = []
ascii_units (String.◌∷◌ c s) = code c ∷ ascii_units s

unfoldable pub notice : List ℕ
unfolding ascii_units
notice = 10 ∷ ascii_units "[Reply limit reached. Send a follow-up to continue.]"

unfoldable pub limited : List ℕ → List ℕ
unfolding notice unit_at take
limited units =
    if ltb max_reply_units (length units)
    then take (backed_up units (max_reply_units - length notice)) units ++ notice
    else units

abbrev pub least_units : ℕ → ℕ
least_units n = if ltb n message_units then n else message_units

-- Where the next message ends.
unfoldable pub part_end : List ℕ → ℕ
unfolding unit_at
part_end units =
    if ltb (least_units (length units)) (length units)
    then backed_up units (least_units (length units))
    else least_units (length units)

-- The texts of the loop, at most as many as the first argument.
unfoldable pub parts : ℕ → List ℕ → List (List ℕ)
unfolding part_end take drop
parts zero units = []
parts (suc k) [] = []
parts (suc k) (u ∷ us) =
    take (part_end (u ∷ us)) (u ∷ us) ∷ parts k (drop (part_end (u ∷ us)) (u ∷ us))

-- What the server answers to a message: the message's id and its chat.
abbrev pub Answer : Type 0
Answer = Result (ℕ × ℕ)

-- The messages are sent until one is not confirmed; the result has the ids and the error, if any. An
-- answer is what the wait for the rate limit and then the call of the server come to.
unfoldable pub send_parts : ℕ → (List ℕ → Answer) → List (List ℕ) → List ℕ × Option Error
send_parts chat answer [] = ([], none)
send_parts chat answer (p ∷ ps) =
    let rest = send_parts chat answer ps in
    elim (answer p) [
      | err e ↦ ([], some e)
      | ok (id, of_chat) ↦
          if id == 0 || not (of_chat == chat)
          then ([], some (message "Telegram delivery identity was not confirmed"))
          else (id ∷ rest.0, rest.1)
    ]

unfoldable pub send : ℕ → (List ℕ → Answer) → List ℕ → List ℕ × Option Error
unfolding limited parts send_parts
send chat answer units =
    if chat == 0
    then ([], some (message "a paired private chat is required"))
    else send_parts chat answer (parts (length (limited units)) (limited units))
