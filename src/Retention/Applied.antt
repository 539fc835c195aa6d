-- ===== src/Retention/Applied.antt =====
-- A plan that was created can be applied.
use text.Mathlib.TextPositions.{eq_refl}
use agent_chun_su.Base.{
  ℕ, ◌+◌, ◌≢◌, ◌≡◌, ap, inl, inr, Bool, true, List, [], ◌∷◌, some, arith, Bool-cases,
}
use agent_chun_su.Table.{find_where, select, length, All}
use agent_chun_su.Table.Laws.{All-map}
use agent_chun_su.Store.Model.{File, FilePath, Env, ok}
use agent_chun_su.Store.Txn.{Result-cases}
use agent_chun_su.Store.Rows.{same_path}
use agent_chun_su.Retention.Inventory.{
  Entry, in_run, hash_file, walk, run_files, inventory, same_entry, all_in, same_entries,
}

-- The files of a home have different paths: each is found by its own.
unfoldable pub DistinctPaths : List File → Type 0
DistinctPaths disk =
    All (λ (f : File). find_where (λ (g : File). same_path g.path f.path) disk ≡ some f) disk

abbrev entry_of : Env → File → Entry
entry_of env f = record { digest = env.digest f.content; bytes = length f.content }

find_where-select :
    (p q : File → Bool) (xs : List File) (f : File)
    → find_where p xs ≡ some f
    → q f ≡ true
    → find_where p (select q xs) ≡ some f
unfolding find_where select
find_where-select p q [] f found there = absurd (ground arith)
find_where-select p q (x ∷ xs) f found there = elim (Bool-cases (p x)) [
  | inl e ↦ (let same : x ≡ f = ground arith in let kept : q x ≡ q f = ap q same in ground arith)
  | inr e ↦ ground (arith, find_where-select p q xs f)
]

-- The walk lists the entry of each file under its path.
walk-finds :
    (env : Env) (limit total : ℕ) (fs : List File) (es : List (FilePath × Entry)) (sum : ℕ)
    (path : FilePath) (f : File)
    → walk env limit total fs ≡ ok (es, sum)
    → find_where (λ (g : File). same_path g.path path) fs ≡ some f
    → find_where (λ (r : FilePath × Entry). same_path r.0 path) es ≡ some (f.path, entry_of env f)
unfolding walk hash_file find_where
walk-finds env limit total [] es sum path f walked found = absurd (ground arith)
walk-finds env limit total (g ∷ fs) es sum path f walked found =
    elim (Result-cases (walk env limit (total + length g.content) fs)) [
      | inr (e, bad) ↦ absurd (ground arith)
      | inl ((rest, t), good) ↦
          ground (arith, walk-finds env limit (total + length g.content) fs rest t path f good)
    ]

entry-itself : (e : Entry) → same_entry e e ≡ true
entry-itself e = ground (arith, eq_refl e.digest)

-- An entry list finds the entry of a file under the file's path.
abbrev Finds : Env → List (FilePath × Entry) → File → Type 0
Finds env es f =
    find_where (λ (r : FilePath × Entry). same_path r.0 f.path) es ≡ some (f.path, entry_of env f)

walk-all_in :
    (env : Env) (limit total : ℕ) (fs : List File) (es all : List (FilePath × Entry)) (sum : ℕ)
    → walk env limit total fs ≡ ok (es, sum)
    → All (Finds env all) fs
    → all_in all es ≡ true
unfolding walk hash_file all_in
walk-all_in env limit total [] es all sum walked h = ground arith
walk-all_in env limit total (g ∷ fs) es all sum walked h =
    elim (Result-cases (walk env limit (total + length g.content) fs)) [
      | inr (e, bad) ↦ absurd (ground arith)
      | inl ((rest, t), good) ↦ ground (
        arith,
        h.0,
        entry-itself (entry_of env g),
        walk-all_in env limit (total + length g.content) fs rest all t good h.1,
      )
    ]

All-of_select :
    (q : File → Bool) (P : File → Type 0) (xs : List File)
    → All (λ f. (q f ≡ true) → P f) xs
    → All P (select q xs)
unfolding select
All-of_select q P [] h = tt
All-of_select q P (x ∷ xs) h = elim (Bool-cases (q x)) [
  | inl e ↦ rw (e, select) (h.0 e, All-of_select q P xs h.1)
  | inr e ↦ rw (e, select) (All-of_select q P xs h.1)
]

-- The inventory of a run is the same as itself.
pub inventory-same :
    (env : Env) (job limit : ℕ) (disk : List File) (es : List (FilePath × Entry)) (sum : ℕ)
    → DistinctPaths disk
    → inventory env job limit disk ≡ ok (es, sum)
    → same_entries es es ≡ true
unfolding inventory DistinctPaths
inventory-same env job limit disk es sum apart h =
    let walked : walk env limit 0 (run_files job disk) ≡ ok (es, sum) = ground arith in
    let all : All (Finds env es) (run_files job disk) =
      All-of_select (λ f. in_run job f.path) (Finds env es) disk
        (All-map (λ (f : File). find_where (λ (g : File). same_path g.path f.path) disk ≡ some f)
          (λ (f : File). (in_run job f.path ≡ true) → Finds env es f)
          (λ f found there. walk-finds env limit 0 (run_files job disk) es sum f.path f walked (
            find_where-select (λ (g : File). same_path g.path f.path) (λ g. in_run job g.path) disk
              f found there))
          disk apart) in
    ground (arith, walk-all_in env limit 0 (run_files job disk) es es sum walked all)

pub inventory-named :
    (env : Env) (job limit : ℕ) (disk : List File) (x : List (FilePath × Entry) × ℕ)
    → inventory env job limit disk ≡ ok x
    → job ≢ 0
unfolding inventory
inventory-named env job limit disk x h = λ none_is. absurd (ground arith)
