-- ===== src/State/Disk.antt =====
-- The file system that the transaction store works on, and the calls of `os` that it makes. Each call
-- takes the next entry of `faults`, which says whether it fails; past the end of the list calls
-- succeed. A temporary file is known by its content alone: `os.CreateTemp` gives it a fresh name that
-- ends in ".tmp", and no other name of the directory does.
use tunwarden.Prelude.{
  ℕ, String, Bool, false, List, [], ◌∷◌, Option, none, some, if◌then◌else◌, ◌==◌,
}

pub data Call : Type 0 where
  mkdir create_temp chmod write sync close rename sync_dir read : Call

-- A content of `none` is that of a file that has been created and not written.
pub record Disk (B : Type 0) : Type 0 where
  pub files : List (String × Option B)
  pub temps : List (Option B)
  pub faults : List Bool
  pub reads : ℕ  -- readings of the clock so far

module _ {B : Type 0} where
  unfoldable pub lookup : String → List (String × Option B) → Option (Option B)
  lookup path [] = none
  lookup path ((name, content) ∷ rest) = if name == path then some content else lookup path rest

  unfoldable pub put : String → Option B → List (String × Option B) → List (String × Option B)
  put path content [] = (path, content) ∷ []
  put path content ((name, old) ∷ rest) =
      let kept = put path content rest in
      if name == path then (path, content) ∷ rest else (name, old) ∷ kept

  unfoldable pub faulty : Disk B → Bool
  faulty d = elim d.faults [ [] ↦ false | f ∷ rest ↦ f ]

  unfoldable pub next_call : Disk B → Disk B
  next_call d = elim d.faults [ [] ↦ d | f ∷ rest ↦ record d { faults = rest } ]

  abbrev drop_temp : List (Option B) → List (Option B)
  drop_temp [] = []
  drop_temp (t ∷ rest) = rest

  abbrev fill_temp : B → List (Option B) → List (Option B)
  fill_temp b [] = []
  fill_temp b (t ∷ rest) = some b ∷ rest

  -- `os.Remove(tmpPath)` with the error dropped
  unfoldable pub remove_temp : Disk B → Disk B
  unfolding faulty next_call
  remove_temp d =
      let d' = next_call d in if faulty d then d' else record d' { temps = drop_temp d'.temps }

  -- what a call that succeeds does to the disk
  unfoldable pub perform_create : Disk B → Disk B
  perform_create d = record d { temps = none ∷ d.temps }

  unfoldable pub perform_write : B → Disk B → Disk B
  perform_write b d = record d { temps = fill_temp b d.temps }

  move_temp : String → List (Option B) → Disk B → Disk B
  move_temp path [] d = d
  move_temp path (t ∷ rest) d = record d { files = put path t d.files; temps = rest }

  unfoldable pub perform_rename : String → Disk B → Disk B
  unfolding move_temp
  perform_rename path d = move_temp path d.temps d
