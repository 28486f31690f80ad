-- ===== src/State/Store/Effects.antt =====
-- The effects of the calls of `os` on the files and the temporary files of a disk.
use tunwarden.Prelude.{
  String, ◌≡◌, refl, ◌⊎◌, inl, inr, Option, some, List, [], ◌∷◌, arith, if◌then◌else◌, ◌==◌, eq_iff,
  ◌∙◌,
}
use tunwarden.State.Disk.{Disk, lookup, put, next_call, remove_temp, perform_write, perform_rename}

pub lookup-put :
    {B : Type 0} (path j : String) (c : Option B) (files : List (String × Option B))
    → lookup j (put path c files) ≡ (if path == j then some c else lookup j files)
unfolding lookup put
lookup-put path j c [] = refl
lookup-put path j c ((name, old) ∷ rest) =
    ground (arith, eq_iff name path, eq_iff path j, eq_iff name j, lookup-put path j c rest)

module _ {B : Type 0} (d : Disk B) where
  pub files-next_call : (next_call d).files ≡ d.files
  unfolding next_call
  files-next_call = ground arith

  pub temps-next_call : (next_call d).temps ≡ d.temps
  unfolding next_call
  temps-next_call = ground arith

  files-remove_temp : (remove_temp d).files ≡ d.files
  unfolding remove_temp
  files-remove_temp = ground arith

  temps-remove_temp :
      (t : Option B) (rest : List (Option B))
      → d.temps ≡ t ∷ rest
      → ((remove_temp d).temps ≡ rest) ⊎ ((remove_temp d).temps ≡ t ∷ rest)
  unfolding remove_temp
  temps-remove_temp t rest h = ground arith

module _ {B : Type 0} (files : List (String × Option B)) (temps : List (Option B)) where
  -- the files are as at the start, and one temporary file stands before those of the start
  abbrev pub Pending : Disk B → Type 0
  Pending d = (d.files ≡ files) × (t : Option B) × (d.temps ≡ t ∷ temps)

  abbrev pub Holding : Option B → Disk B → Type 0
  Holding t d = (d.files ≡ files) × (d.temps ≡ t ∷ temps)

  pub Holding-next : (t : Option B) (d : Disk B) → Holding t d → Holding t (next_call d)
  Holding-next t d (f, h) = (files-next_call d ∙ f, temps-next_call d ∙ h)

  pub Holding→Pending : (t : Option B) (d : Disk B) → Holding t d → Pending (next_call d)
  Holding→Pending t d (f, h) = (files-next_call d ∙ f, t, temps-next_call d ∙ h)

  -- no file has changed, and at most one temporary file is left behind
  abbrev pub Untouched : Disk B → Type 0
  Untouched d = (d.files ≡ files) × ((d.temps ≡ temps) ⊎ ((t : Option B) × (d.temps ≡ t ∷ temps)))

  pub Untouched-remove_temp : (d : Disk B) → Pending d → Untouched (remove_temp d)
  Untouched-remove_temp d (f, t, h) = (
    files-remove_temp d ∙ f,
    elim (temps-remove_temp d t temps h) [ inl gone ↦ inl gone | inr left ↦ inr (t, left) ],
  )

  pub Holding-write :
      (b : B) (t : Option B) (d : Disk B)
      → Holding t d
      → Holding (some b) (perform_write b (next_call d))
  unfolding perform_write
  Holding-write b t d h = let (f, k) = Holding-next t d h in (f, rw k refl)

  -- the new content stands at the path, and no temporary file is left
  abbrev pub Replaced : String → B → Disk B → Type 0
  Replaced path b d = (d.files ≡ put path (some b) files) × (d.temps ≡ temps)

  pub Replaced-rename :
      (path : String) (b : B) (d : Disk B)
      → Holding (some b) d
      → Replaced path b (perform_rename path (next_call d))
  unfolding perform_rename
  Replaced-rename path b d h = ground (arith, Holding-next (some b) d h)
