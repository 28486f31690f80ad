-- ===== src/State/Store/Saving.antt =====
-- What `Save` does to the disk, whichever of its calls fail.
use tunwarden.Prelude.{String, ◌≡◌, refl, ◌⊎◌, inl, inr, Option, none, some, List, ◌∷◌, ap, ◌∙◌}
use tunwarden.State.Transaction.{Transaction}
use tunwarden.State.Disk.{
  Disk, Call, chmod, write, sync, close, rename, mkdir, create_temp, sync_dir, next_call,
  perform_create, perform_write, perform_rename,
}
use tunwarden.State.Store.{
  Platform, StoreError, failed_call, write_file, replace_file, attempt, encoded, pure, lift,
  or_encoding, encoding, Op, ◌>>=◌,
}
use tunwarden.State.Store.Effects.{
  Pending, Holding, Holding-next, Holding→Pending, Untouched, Untouched-remove_temp, Holding-write,
  Replaced, Replaced-rename, files-next_call, temps-next_call,
}
use tunwarden.State.Store.Outcomes.{Ends, Ends-bind, Ends-attempt, Ends-removing_temp, Ends-errors}

module _ (p : Platform) (files : List (String × Option p.Bytes))
    (temps : List (Option p.Bytes)) where
  abbrev Pends : StoreError → Disk p.Bytes → Type 0
  Pends e d = Pending files temps d

  -- a call with no effect while a temporary file is open, and what follows it
  Ends-idle :
      (R : Unit {0} → Disk p.Bytes → Type 0) (call : Call) (t : Option p.Bytes)
      (m : Op p (Unit {0})) (d : Disk p.Bytes)
      → Holding files temps t d
      → ((d : Disk p.Bytes) → Holding files temps t d → Ends R Pends (m d))
      → Ends R Pends (◌>>=◌ p (attempt p call (λ d. d)) (λ _. m) d)
  Ends-idle R call t m d h k =
      Ends-bind p (λ _ d. Holding files temps t d) R Pends (attempt p call (λ d. d)) (λ _. m) d
        (Ends-attempt p (λ _ d. Holding files temps t d) Pends call (λ d. d) d
          (Holding→Pending files temps t d h) (Holding-next files temps t d h))
        (λ _. k)

  module _ (path : String) (b : p.Bytes) where
    abbrev Renamed : Unit {0} → Disk p.Bytes → Type 0
    Renamed _ d = Replaced files temps path b d

    rename-Ends :
        (d : Disk p.Bytes)
        → Holding files temps (some b) d
        → Ends Renamed Pends (attempt p rename (perform_rename path) d)
    rename-Ends d h =
        Ends-attempt p Renamed Pends rename (perform_rename path) d
          (Holding→Pending files temps (some b) d h) (Replaced-rename files temps path b d h)

    write-Ends :
        (m : Op p (Unit {0})) (d : Disk p.Bytes)
        → Holding files temps none d
        → ((d : Disk p.Bytes) → Holding files temps (some b) d → Ends Renamed Pends (m d))
        → Ends Renamed Pends (◌>>=◌ p (attempt p write (perform_write b)) (λ _. m) d)
    write-Ends m d h k =
        Ends-bind p (λ _ d. Holding files temps (some b) d) Renamed Pends
          (attempt p write (perform_write b)) (λ _. m) d
          (Ends-attempt p (λ _ d. Holding files temps (some b) d) Pends write (perform_write b) d
            (Holding→Pending files temps none d h) (Holding-write files temps b none d h))
          (λ _. k)

    replace_file-Ends :
        (d : Disk p.Bytes)
        → Holding files temps none d
        → Ends Renamed (λ e d. Untouched files temps d) (replace_file p path b d)
    unfolding replace_file
    replace_file-Ends d h =
        Ends-removing_temp p Renamed Pends (λ e d. Untouched files temps d) _ d
          (Ends-idle Renamed chmod none _ d h λ d h. write-Ends _ d h λ d h.
            Ends-idle Renamed sync (some b) _ d h
              λ d h. Ends-idle Renamed close (some b) _ d h rename-Ends)
          (λ e d. Untouched-remove_temp files temps d)

  -- how `Save` of a stamped transaction ends
  module _ (tx : Transaction) (path : String) where
    abbrev pub Saved : String → Disk p.Bytes → Type 0
    Saved at d =
        (at ≡ path) × (b : p.Bytes) × (p.encode tx ≡ some b) × Replaced files temps path b d

    abbrev pub NotSaved : StoreError → Disk p.Bytes → Type 0
    NotSaved e d =
        Untouched files temps d
        ⊎ ((e ≡ failed_call sync_dir)
            × (b : p.Bytes) × (p.encode tx ≡ some b)
            × Replaced files temps path b d)

    abbrev pub Same : Disk p.Bytes → Type 0
    Same d = (d.files ≡ files) × (d.temps ≡ temps)

    Same-next : (d : Disk p.Bytes) → Same d → Same (next_call d)
    Same-next d (f, t) = (files-next_call d ∙ f, temps-next_call d ∙ t)

    Same→NotSaved : (e : StoreError) (d : Disk p.Bytes) → Same d → NotSaved e d
    Same→NotSaved e d (f, t) = inl (f, inl t)

    or_encoding-Ends :
        (o : Option p.Bytes) (d : Disk p.Bytes)
        → p.encode tx ≡ o
        → Same d
        → Ends (λ b d. Same d × (p.encode tx ≡ some b)) NotSaved (or_encoding p o, d)
    unfolding or_encoding
    or_encoding-Ends none d e h = Same→NotSaved encoding d h
    or_encoding-Ends (some b) d e h = (h, e)

    encoded-Ends :
        (d : Disk p.Bytes)
        → Same d
        → Ends (λ b d. Same d × (p.encode tx ≡ some b)) NotSaved (lift p (encoded p tx) d)
    unfolding lift encoded
    encoded-Ends d h = or_encoding-Ends (p.encode tx) d refl h

    create-Ends :
        (d : Disk p.Bytes)
        → Same d
        → Ends (λ _ d. Holding files temps none d) NotSaved (attempt p create_temp perform_create d)
    unfolding perform_create
    create-Ends d h =
        let (f, t) = Same-next d h in
        Ends-attempt p (λ _ d. Holding files temps none d) NotSaved create_temp perform_create d
          (Same→NotSaved (failed_call create_temp) (next_call d) (f, t)) (f, ap (◌∷◌ none) t)

    module _ (b : p.Bytes) (e : p.encode tx ≡ some b) where
      Replaced-next :
          (d : Disk p.Bytes)
          → Replaced files temps path b d
          → Replaced files temps path b (next_call d)
      Replaced-next d (f, t) = (files-next_call d ∙ f, temps-next_call d ∙ t)

      finish-Ends :
          (d : Disk p.Bytes)
          → Replaced files temps path b d
          → Ends Saved NotSaved (◌>>=◌ p (attempt p sync_dir (λ d. d)) (λ _. pure p path) d)
      unfolding pure
      finish-Ends d h =
          Ends-bind p (λ _ d. Replaced files temps path b d) Saved NotSaved
            (attempt p sync_dir (λ d. d)) (λ _. pure p path) d
            (Ends-attempt p (λ _ d. Replaced files temps path b d) NotSaved sync_dir (λ d. d) d
              (inr (refl, b, e, Replaced-next d h)) (Replaced-next d h))
            (λ _ d h. (refl, b, e, h))

      replaced-Ends :
          (d : Disk p.Bytes)
          → Holding files temps none d
          → Ends Saved NotSaved (
              ◌>>=◌ p
                (replace_file p path b)
                (λ _. ◌>>=◌ p (attempt p sync_dir (λ d. d)) (λ _. pure p path))
                d)
      replaced-Ends d h =
          Ends-bind p (λ _ d. Replaced files temps path b d) Saved NotSaved (replace_file p path b)
            _ d
            (Ends-errors (λ _ d. Replaced files temps path b d) (λ e d. Untouched files temps d)
              NotSaved (λ e d u. inl u) _ (replace_file-Ends path b d h))
            (λ _. finish-Ends)

    pub write_file-Ends : (d : Disk p.Bytes) → Same d → Ends Saved NotSaved (write_file p path tx d)
    unfolding write_file
    write_file-Ends d h =
        Ends-bind p (λ _ d. Same d) Saved NotSaved _ _ d
          (Ends-attempt p (λ _ d. Same d) NotSaved mkdir (λ d. d) d
            (Same→NotSaved (failed_call mkdir) (next_call d) (Same-next d h)) (Same-next d h))
          λ _ d h.
            Ends-bind p (λ b d. Same d × (p.encode tx ≡ some b)) Saved NotSaved _ _ d
              (encoded-Ends d h)
              λ b d (h, e).
                Ends-bind p (λ _ d. Holding files temps none d) Saved NotSaved _ _ d
                  (create-Ends d h) (λ _. replaced-Ends b e)
