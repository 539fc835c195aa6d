-- ===== src/Retention/Admission.antt =====
-- The acquisition of a job is kept when its content goes, so that it is not queued again.

use agent_chun_su.Base.{
  ℕ, ◌≢◌, ◌≡◌, refl, sym, ◌∙◌, ap, inl, inr, false, String, Option, some, none, arith, ◌==◌,
  Option-cases, str_eq,
}
use agent_chun_su.Table.{find_by, update_where}
use agent_chun_su.Table.Laws.{exists-find_by}
use agent_chun_su.Store.Model.{Job, Env, err, ok, constraint, job_key}
use agent_chun_su.Store.Rows.{insert_job, job_clash}
use agent_chun_su.Store.Resume.{Json, Fields, Codec, get, request_map, end}
use agent_chun_su.Store.Resume.Replies.{get-put, get-put_other}
use agent_chun_su.Retention.Plans.{Plan, Operation, Vault, Limits, PlanCodec, read}
use agent_chun_su.Retention.{is_completed, keep, minimal, set_purged, apply}
use agent_chun_su.Retention.Purged.{apply-Finished, find-purged, started-found}

-- SQLite's json_extract on a request reads the field that encoding/json has, in a text that it decodes
-- and in one that it prints.
pub record Extracts (env : Env) (c : Codec) (id_of : Option Json → ℕ) : Type 0 where
  pub of_text :
      (text : String) (fs : Fields)
      → request_map (c.unmarshal text) ≡ ok fs
      → env.acquisition_of text ≡ id_of (get "acquisition_id" fs)
  pub of_fields :
      (fs : Fields) → env.acquisition_of (c.marshal fs) ≡ id_of (get "acquisition_id" fs)

get-keep : (k : String) (fs kept : Fields) → get k kept ≡ none → get k (keep k fs kept) ≡ get k fs
get-keep k fs kept fresh = elim (Option-cases (get k fs)) [
  | inl gone ↦ rw (gone, keep) fresh
  | inr (v, there) ↦ rw (there, keep) (get-put k v kept)
]

get-keep_other :
    (k l : String) (fs kept : Fields) → str_eq k l ≡ false → get l (keep k fs kept) ≡ get l kept
get-keep_other k l fs kept apart = elim (Option-cases (get k fs)) [
  | inl gone ↦ rw (gone, keep) refl
  | inr (v, there) ↦ rw (there, keep) (get-put_other k l v kept apart)
]

get-end : (k : String) → get k end ≡ none
unfolding get
get-end k = refl

get-minimal : (fs : Fields) → get "acquisition_id" (minimal fs) ≡ get "acquisition_id" fs
get-minimal fs = get-keep "acquisition_id" fs (keep "connection_id" fs (keep "origin" fs end)) (
    get-keep_other "connection_id" "acquisition_id" fs (keep "origin" fs end) refl
    ∙ get-keep_other "origin" "acquisition_id" fs end refl
    ∙ get-end "acquisition_id")

get-minimal_other :
    (k : String) (fs : Fields)
    → str_eq "acquisition_id" k ≡ false
    → str_eq "connection_id" k ≡ false
    → str_eq "origin" k ≡ false
    → get k (minimal fs) ≡ none
get-minimal_other k fs a b c =
    get-keep_other "acquisition_id" k fs (keep "connection_id" fs (keep "origin" fs end)) a
    ∙ get-keep_other "connection_id" k fs (keep "origin" fs end) b
    ∙ get-keep_other "origin" k fs end c
    ∙ get-end k

-- After an Apply that removes something and succeeds, a job with the acquisition of the job whose
-- content went is refused, where the request of that job names an acquisition.
pub apply-refuses_again :
    (env : Env) (c : Codec) (id_of : Option Json → ℕ) (pc : PlanCodec) (lim : Limits) (id : ℕ)
    (v v' : Vault) (op o : Operation) (p : Plan) (j k : Job)
    → Extracts env c id_of
    → read env pc lim id v ≡ ok (op, p)
    → is_completed op.status ≡ false
    → apply env c pc lim id v ≡ (v', ok o)
    → find_by job_key p.job_id v.home.db.jobs ≡ some j
    → env.acquisition_of j.request ≢ 0
    → env.acquisition_of k.request ≡ env.acquisition_of j.request
    → insert_job env k v'.home.db ≡ err constraint
unfolding insert_job job_clash
apply-refuses_again env c id_of pc lim id v v' op o p j k x opened still done found named same =
    let h = apply-Finished env c pc lim id v v' op o p opened still done in
    let request = c.marshal (minimal h.fields) in
    let (m, there) = started-found env lim op p h.job v h.begun h.found h.passed in
    let job_is : h.job ≡ j = ground (arith, found, h.found) in
    let kept : env.acquisition_of request ≡ env.acquisition_of j.request =
      x.of_fields (minimal h.fields)
      ∙ ap id_of (get-minimal h.fields)
      ∙ sym (x.of_text h.job.request h.fields h.decoded)
      ∙ ap (λ (r : Job). env.acquisition_of r.request) job_is in
    let now_there = find-purged env.now request p.job_id h.begun.home.db.jobs m there in
    rw h.left (
      ground (
        arith,
        kept,
        exists-find_by job_key p.job_id (job_clash env k)
            (update_where (λ (r : Job). r.id == p.job_id) (set_purged env.now request)
              h.begun.home.db.jobs)
            (set_purged env.now request m),
        now_there,
      ))
