-- ===== src/Store/Resume.antt =====
-- internal/store/resume.go: an owner's explicit restart of a stopped job, with the answer kept in the
-- request. A request is JSON text; encoding/json is the parameter.
pub mod Replies
use agent_chun_su.Base.{
  ℕ, Bool, true, false, List, [], ◌∷◌, ◌++◌, String, Option, none, some, ◌==◌, ◌&&◌, str_eq, not,
  if◌then◌else◌,
}
use agent_chun_su.Table.{find_by, update_where}
use agent_chun_su.Store.Status.{JobStatus}
use agent_chun_su.Store.Model.{Job, Db, Env, Result, ok, err, no_rows, message, resumption, job_key}
use agent_chun_su.Store.Txn.{◌>>=◌, ◌>>◌, refuse_if, or_fail, exec}
use agent_chun_su.Store.Rows.{add_event}

-- The value that json.Unmarshal builds. `id_text` is the text of an id.
mutual
  pub data Json : Type 0 where
    null : Json
    boolean : Bool → Json
    number : ℕ → Json
    text : String → Json
    id_text : ℕ → Json
    array : Items → Json
    object : Fields → Json

  pub data Items : Type 0 where
    nil : Items
    item : Json → Items → Items

  pub data Fields : Type 0 where
    end : Fields
    field : String → Json → Fields → Fields

-- encoding/json: what a text stands for, and the text of an object.
pub record Codec : Type 0 where
  pub unmarshal : String → Option Json
  pub marshal : Fields → String

unfoldable pub get : String → Fields → Option Json
get k end = none
get k (field j v fs) = if str_eq j k then some v else get k fs

-- One answer: the attempt that it is for, the answer and the time.
abbrev pub reply : ℕ → String → ℕ → Json
reply attempt answer at = object (
    field "attempt_id" (id_text attempt)
      (field "answer" (text answer) (field "at" (number at) end)))

-- `m[k] = v`.
unfoldable pub put : String → Json → Fields → Fields
put k v end = field k v end
put k v (field j w fs) = if str_eq j k then field k v fs else field j w (put k v fs)

unfoldable pub append_item : Items → Json → Items
append_item nil v = item v nil
append_item (item w ws) v = item w (append_item ws v)

-- `replies, _ := request["human_replies"].([]any)`.
abbrev pub items_of : Option Json → Items
items_of (some (array vs)) = vs
items_of _ = nil

abbrev add_reply : Json → Fields → Fields
add_reply v fs = put "human_replies" (array (append_item (items_of (get "human_replies" fs)) v)) fs

-- json.Unmarshal into a map[string]any, and the empty map for `null`.
abbrev pub request_map : Option Json → Result Fields
request_map (some (object fs)) = ok fs
request_map (some null) = ok end
request_map _ = err (message "request is no JSON object")

-- The `switch` of Resume.
abbrev pub can_resume : JobStatus → Bool
can_resume JobStatus.waiting_input = true
can_resume JobStatus.failed = true
can_resume JobStatus.retry_wait = true
can_resume JobStatus.waiting_auth = true
can_resume JobStatus.cancelled = true
can_resume _ = false

abbrev pub needs_answer : JobStatus → Bool
needs_answer JobStatus.waiting_input = true
needs_answer _ = false

abbrev pub new_request : Env → Job → String → Fields → Fields
new_request env j answer fs =
    if str_eq answer "" then fs else add_reply (reply j.current_attempt answer env.now) fs

abbrev pub set_resumed : Env → String → Job → Job
set_resumed env request r = record r {
  status = JobStatus.queued;
  updated_at = env.now;
  not_before = 0;
  diagnostic = "";
  request = request;
}

resume_txn : Env → Codec → ℕ → String → Db → Result (Db × Unit {0})
resume_txn env c id answer db = do
  j ← or_fail (find_by job_key id db.jobs) no_rows
  refuse_if (needs_answer j.status && str_eq answer "")
      (message "this job needs an answer or a recovery-review note")
  refuse_if (not (can_resume j.status)) (message "job is not eligible for explicit resume")
  fs ← request_map (c.unmarshal j.request)
  let db1 = record db {
    jobs =
        update_where (λ r. r.id == id) (set_resumed env (c.marshal (new_request env j answer fs)))
          db.jobs;
  }
  ok (
    add_event env.now id j.current_attempt "job.resumed"
        (resumption j.status (not (str_eq answer ""))) db1,
    tt,
  )

unfoldable pub resume : Env → Codec → ℕ → String → Db → Db × Result (Unit {0})
unfolding resume_txn
resume env c id answer db = exec db (resume_txn env c id answer db)
