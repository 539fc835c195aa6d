-- ===== src/Store/Resume/Replies.antt =====
-- Resume keeps the request and adds the owner's answer to it.
use text.Mathlib.TextPositions.{eq_refl}
use agent_chun_su.Base.{
  ℕ, ◌≡◌, refl, true, false, String, Option, some, arith, ◌&&◌, str_eq, eq_iff, Bool-cases,
  Option-cases, inl, inr, if◌then◌else◌,
}
use agent_chun_su.Table.{find_by, update_where}
use agent_chun_su.Store.Status.{is_running}
use agent_chun_su.Store.Model.{Job, Db, Env, ok, job_key}
use agent_chun_su.Store.Txn.{Result-cases}
use agent_chun_su.Store.Jobs.{job_is}
use agent_chun_su.Store.Jobs.Running.{Owned, idle-Owned}
use agent_chun_su.Store.Jobs.Keys.{Kept}
use agent_chun_su.Table.Laws.{Keyed-update_where}
use agent_chun_su.Store.Resume.{
  Json, Fields, Codec, get, put, append_item, reply, items_of, request_map, new_request,
  set_resumed, resume_txn, resume, can_resume, needs_answer, end, field, array,
}

pub get-put : (k : String) (v : Json) (fs : Fields) → get k (put k v fs) ≡ some v
unfolding get put
get-put k v end = ground (arith, eq_refl k)
get-put k v (field j w fs) = ground (arith, eq_refl k, get-put k v fs)

pub get-put_other :
    (k l : String) (v : Json) (fs : Fields) → str_eq k l ≡ false → get l (put k v fs) ≡ get l fs
unfolding get put
get-put_other k l v end e = ground arith
get-put_other k l v (field j w fs) e =
    ground (arith, eq_iff j k, eq_iff j l, eq_iff k l, get-put_other k l v fs e)

-- The request after an answer: what it held under the key of the answers, with this one at the end,
-- or as it was when the answer is empty.
abbrev answers_after : Env → Job → String → Fields → Option Json
answers_after env j answer fs =
    if str_eq answer ""
    then get "human_replies" fs
    else some (
        array (
          append_item (items_of (get "human_replies" fs)) (reply j.current_attempt answer env.now)))

-- What a resumption that succeeds finds and leaves.
pub record Resumed (env : Env) (c : Codec) (id : ℕ) (answer key : String) (db db' : Db) (j : Job)
    (fs : Fields) : Type 0 where
  found : find_by job_key id db.jobs ≡ some j
  stopped : can_resume j.status ≡ true
  answered : (needs_answer j.status && str_eq answer "") ≡ false
  request_was : request_map (c.unmarshal j.request) ≡ ok fs
  answers : get "human_replies" (new_request env j answer fs) ≡ answers_after env j answer fs
  others : get key (new_request env j answer fs) ≡ get key fs
  jobs_after :
      db'.jobs
      ≡ update_where (job_is id) (set_resumed env (c.marshal (new_request env j answer fs))) db.jobs
  attempts_after : db'.attempts ≡ db.attempts

resume_found :
    (env : Env) (c : Codec) (id : ℕ) (answer : String) (db : Db) (j : Job)
    → find_by job_key id db.jobs ≡ some j
    → Owned db
    → Owned (resume env c id answer db).0
unfolding resume resume_txn
resume_found env c id answer db j e h = elim (Result-cases (request_map (c.unmarshal j.request))) [
  | inr (x, e') ↦ ground arith
  | inl (fs, e') ↦ elim (Bool-cases (is_running j.status)) [
    | inl r ↦ ground arith
    | inr r ↦ ground (
      arith,
      idle-Owned id j (set_resumed env (c.marshal (new_request env j answer fs))) db.jobs
          db.attempts e r (λ k. refl) h,
    )
  ]
]

-- A resumption starts and stops no attempt: each running attempt stays the current one of a running
-- job.
pub resume-Owned :
    (env : Env) (c : Codec) (id : ℕ) (answer : String) (db : Db)
    → Owned db
    → Owned (resume env c id answer db).0
unfolding resume resume_txn
resume-Owned env c id answer db h = elim (Option-cases (find_by job_key id db.jobs)) [
  | inl e ↦ ground arith
  | inr (j, e) ↦ resume_found env c id answer db j e h
]

pub resume-Kept :
    (env : Env) (c : Codec) (id : ℕ) (answer : String) (db : Db)
    → Kept db
    → Kept (resume env c id answer db).0
unfolding resume resume_txn
resume-Kept env c id answer db h = elim (Option-cases (find_by job_key id db.jobs)) [
  | inl e ↦ ground arith
  | inr (j, e) ↦ elim (Result-cases (request_map (c.unmarshal j.request))) [
    | inr (x, e') ↦ ground arith
    | inl (fs, e') ↦ ground (
      arith,
      Keyed-update_where job_key (job_is id)
          (set_resumed env (c.marshal (new_request env j answer fs))) (λ k. refl) db.jobs h,
    )
  ]
]
