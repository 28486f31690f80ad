-- ===== src/Subscription/Workflow/Undone.antt =====
-- A workflow that fails leaves the files of both stores as they were.
use tunwarden.Prelude.{
  ◌≡◌, refl, ◌⊎◌, inl, inr, String, Bool, true, false, List, [], ◌∷◌, Option, none, some, any, ap,
  ◌∙◌, sym, ◌==◌, arith, if◌then◌else◌,
}
use tunwarden.Result.{Result, ok, err}
use tunwarden.State.Disk.{Disk, lookup, next_call}
use tunwarden.State.Store.Effects.{files-next_call}
use tunwarden.StoreJson.{sync_parent_directory}
use tunwarden.StoreJson.Atomic.{calling-ends}
use tunwarden.Profile.Provider.{Library}
use tunwarden.Profile.Contents.{StoreError, SubscriptionUpdateDiff}
use tunwarden.Profile.Store.{Codec, store_replace_subscription_profiles}
use tunwarden.Subscription.Source.{Url}
use tunwarden.Subscription.Sources.{
  SourceError, SourceCodec, source_write_failed, add_source, update_source,
}
use tunwarden.Subscription.Workflow.{
  SourceWorkflowRequest, Cause, source_cause, profile_cause, snapshot_failed, hook_failed,
  workflow_failed, WorkflowOutcome, plain_failure, rollback_source_workflow_state, snapshot_file,
  linked_source, after_update, updated, after_hook, hooked, after_replace, replace_profiles,
  no_profile_snapshot, profile_part, after_add, add_part, run_source_workflow,
}
use tunwarden.Subscription.Workflow.Restore.{Off, Off-same, Off-next, snapshots, restore_files-Off}
use tunwarden.Subscription.Workflow.Steps.{
  SourceStep, add_source-Step, update_source-Step, Step→Off, replace-Off,
}

-- The import ended with the error of its first step: the adding of the source to the disk `d` stored it, and
-- only the sync of the directory failed.
abbrev pub IsUnsyncedAdd :
    (String → Option Url)
    → {B : Type 0} → SourceCodec B
    → String
    → SourceWorkflowRequest B
    → Disk B
    → Cause
    → Type 0
IsUnsyncedAdd parse_url source_codec s r d c =
    (r.adds_source ≡ true)
    × ((add_source parse_url source_codec s r.prepared.source d).0
        ≡ err (source_write_failed sync_parent_directory))
    × (c ≡ source_cause (source_write_failed sync_parent_directory))

-- the hook leaves the files at other paths than these two as they are
abbrev pub KeepsOthers :
    String → String → {B : Type 0} → Option (Disk B → Option String × Disk B) → Type 0
KeepsOthers p s none = Unit
KeepsOthers p s (some hook) = (d : Disk _) → Off d.files (p ∷ s ∷ []) (hook d).1

if-case {ℓ} :
    {A : Type ℓ} (P : A → Type 0) (b : Bool) (x y : A)
    → (b ≡ true → P x)
    → (b ≡ false → P y)
    → P (if b then x else y)
if-case P true x y f g = f refl
if-case P false x y f g = g refl

module _ (l : Library) (parse_url : String → Option Url) {B : Type 0} (codec : Codec B)
    (source_codec : SourceCodec B) (p s : String) (r : SourceWorkflowRequest B)
    (files : List (String × Option B)) (start : Disk B) where
  abbrev Undone : WorkflowOutcome B → Type 0
  Undone (ok _, d) = Unit
  Undone (err (workflow_failed c es), d) =
      es ≡ [] → Off files [] d ⊎ IsUnsyncedAdd parse_url source_codec s r start c

  plain-Undone : (c : Cause) (d : Disk B) → Off files [] d → Undone (plain_failure c d)
  unfolding plain_failure
  plain-Undone c d off h = inl off

  rollback-Undone :
      (ps : List String) (c : Cause) (d : Disk B)
      → Off files ps d
      → Undone (rollback_source_workflow_state c (snapshots files ps) d)
  unfolding rollback_source_workflow_state
  rollback-Undone ps c d off h = inl (restore_files-Off files ps d off h)

  -- one more step, on files that are off already
  Off-then :
      (ps qs : List String) (d d' : Disk B)
      → Off files ps d
      → Off d.files qs d'
      → ((j : String) → any (λ i. i == j) ps ≡ false → any (λ i. i == j) qs ≡ false)
      → Off files ps d'
  Off-then ps qs d d' h k sub j e = k j (sub j e) ∙ h j e

  after_update-Undone :
      (diff : SubscriptionUpdateDiff) (x : Result SourceError (Unit {0}) × Disk B)
      → Off files (p ∷ s ∷ []) x.1
      → Undone
          (after_update l parse_url codec source_codec p s r (snapshots files (p ∷ s ∷ [])) diff x)
  unfolding after_update
  after_update-Undone diff (ok u, d) off = tt
  after_update-Undone diff (err e, d) off = rollback-Undone (p ∷ s ∷ []) (source_cause e) d off

  updated-Undone :
      (diff : SubscriptionUpdateDiff) (d : Disk B)
      → Off files (p ∷ s ∷ []) d
      → Undone (updated l parse_url codec source_codec p s r (snapshots files (p ∷ s ∷ [])) diff d)
  unfolding updated
  updated-Undone diff d off =
      let linked = linked_source l parse_url codec source_codec p s r in
      let x = update_source parse_url source_codec s linked d in
      after_update-Undone diff x (
        Off-then (p ∷ s ∷ []) (s ∷ []) d x.1 off
          (Step→Off parse_url source_codec s d.files x
            (update_source-Step parse_url source_codec s linked d))
          (λ j e. ground arith))

  after_hook-Undone :
      (diff : SubscriptionUpdateDiff) (x : Option String × Disk B)
      → Off files (p ∷ s ∷ []) x.1
      → Undone
          (after_hook l parse_url codec source_codec p s r (snapshots files (p ∷ s ∷ [])) diff x)
  unfolding after_hook
  after_hook-Undone diff (none, d) off = updated-Undone diff d off
  after_hook-Undone diff (some m, d) off = rollback-Undone (p ∷ s ∷ []) (hook_failed m) d off

  hooked-Undone :
      (diff : SubscriptionUpdateDiff) (hook : Option (Disk B → Option String × Disk B)) (d : Disk B)
      → KeepsOthers p s hook
      → Off files (p ∷ s ∷ []) d
      → Undone
          (hooked l parse_url codec source_codec p s r (snapshots files (p ∷ s ∷ [])) diff hook d)
  unfolding hooked
  hooked-Undone diff none d keeps off = updated-Undone diff d off
  hooked-Undone diff (some hook) d keeps off =
      after_hook-Undone diff (hook d)
        (Off-then (p ∷ s ∷ []) (p ∷ s ∷ []) d (hook d).1 off (keeps d) (λ j e. e))

  after_replace-Undone :
      KeepsOthers p s r.after_profile_apply
      → (x : SubscriptionUpdateDiff × (Result StoreError (Unit {0}) × Disk B))
      → Off files (p ∷ s ∷ []) x.1.1
      → (r.adds_source ≡ false → Off files (p ∷ []) x.1.1)
      → Undone (
          after_replace l parse_url codec source_codec p s r
            (s, lookup s files)
            (p, lookup p files)
            x)
  unfolding after_replace
  after_replace-Undone keeps (diff, (ok u, d)) off off' =
      hooked-Undone diff r.after_profile_apply d keeps off
  after_replace-Undone keeps (diff, (err e, d)) off off' =
      if-case (λ ss. Undone (rollback_source_workflow_state (profile_cause e) ss d)) r.adds_source
        (snapshots files (p ∷ s ∷ [])) (snapshots files (p ∷ []))
        (λ a. rollback-Undone (p ∷ s ∷ []) (profile_cause e) d off)
        (λ a. rollback-Undone (p ∷ []) (profile_cause e) d (off' a))

  replace_profiles-Undone :
      KeepsOthers p s r.after_profile_apply
      → (d : Disk B) → Off files (s ∷ []) d
      → (r.adds_source ≡ false → Off files [] d)
      → Undone (
          replace_profiles l parse_url codec source_codec p s r
            (s, lookup s files)
            (p, lookup p files)
            d)
  unfolding replace_profiles
  replace_profiles-Undone keeps d off off' =
      let x =
        store_replace_subscription_profiles l codec p r.previous_profile_ids r.prepared.profiles
          d in
      let k = replace-Off l codec p r.previous_profile_ids r.prepared.profiles d in
      after_replace-Undone keeps x
        (Off-then (p ∷ s ∷ []) (p ∷ []) d x.1.1 (λ j e. off j (ground arith)) k
          (λ j e. ground arith))
        (λ a. Off-then (p ∷ []) (p ∷ []) d x.1.1 (λ j e. off' a j refl) k (λ j e. e))

  no_profile_snapshot-Undone :
      (c : Cause) (d : Disk B)
      → Off files (s ∷ []) d
      → (r.adds_source ≡ false → Off files [] d)
      → Undone (no_profile_snapshot l parse_url codec source_codec p s r (s, lookup s files) c d)
  unfolding no_profile_snapshot
  no_profile_snapshot-Undone c d off off' =
      if-case Undone r.adds_source (rollback_source_workflow_state c (snapshots files (s ∷ [])) d)
        (plain_failure c d) (λ a. rollback-Undone (s ∷ []) c d off) (λ a. plain-Undone c d (off' a))

  module _ (distinct_paths : (s == p) ≡ false) (keeps : KeepsOthers p s r.after_profile_apply) where
    profile_part-Undone :
        (d : Disk B)
        → Off files (s ∷ []) d
        → (r.adds_source ≡ false → Off files [] d)
        → Undone (profile_part l parse_url codec source_codec p s r (s, lookup s files) d)
    unfolding profile_part snapshot_file
    profile_part-Undone d off off' =
        let d1 = next_call d in
        let off1 = Off-next files (s ∷ []) d off in
        let off1' = λ (a : r.adds_source ≡ false). Off-next files [] d (off' a) in
        let same : lookup p d1.files ≡ lookup p files = off1 p (ground arith) in
        calling-ends Undone (λ d. d)
          (no_profile_snapshot l parse_url codec source_codec p s r (s, lookup s files)
            (snapshot_failed p))
          (λ d.
            replace_profiles l parse_url codec source_codec p s r (s, lookup s files)
              (p, lookup p d.files) d)
          d (no_profile_snapshot-Undone (snapshot_failed p) d1 off1 off1')
          (rw same (replace_profiles-Undone keeps d1 off1 off1'))

    after_add-Undone :
        (x : Result SourceError (Unit {0}) × Disk B)
        → r.adds_source ≡ true
        → (add_source parse_url source_codec s r.prepared.source start).0 ≡ x.0
        → SourceStep parse_url source_codec s files x
        → Undone (after_add l parse_url codec source_codec p s r (s, lookup s files) x)
    unfolding after_add plain_failure
    after_add-Undone (ok u, d) a e h = profile_part-Undone d h (λ b. absurd cc)
    after_add-Undone (err e, d) a i (inl off) = λ h. inl off
    after_add-Undone (err e, d) a i (inr (q, off)) = λ h. inr (a, i ∙ ap err q, ap source_cause q)

    add_part-Undone :
        start.files ≡ files
        → Undone (add_part l parse_url codec source_codec p s r (s, lookup s files) start)
    unfolding add_part
    add_part-Undone f =
        let x = add_source parse_url source_codec s r.prepared.source start in
        if-case Undone r.adds_source
          (after_add l parse_url codec source_codec p s r (s, lookup s files) x)
          (profile_part l parse_url codec source_codec p s r (s, lookup s files) start)
          (λ a.
            after_add-Undone x a refl
              (rw (sym f) (add_source-Step parse_url source_codec s r.prepared.source start)))
          (λ a.
            profile_part-Undone start (Off-same files (s ∷ []) start f)
              (λ b. Off-same files [] start f))

    taken-Undone :
        (content : Option (Option B))
        → content ≡ lookup s files
        → start.files ≡ files
        → Undone (add_part l parse_url codec source_codec p s r (s, content) start)
    taken-Undone content e f = rw e (add_part-Undone f)

    run-Undone :
        (d : Disk B)
        → d.files ≡ files
        → next_call d ≡ start
        → Undone (run_source_workflow l parse_url codec source_codec p s r d)
    unfolding run_source_workflow snapshot_file
    run-Undone d f q =
        let f1 = files-next_call d ∙ f in
        let f2 : start.files ≡ files = ap (λ (e : Disk B). e.files) (sym q) ∙ f1 in
        calling-ends Undone (λ d. d) (plain_failure (snapshot_failed s))
          (λ d. add_part l parse_url codec source_codec p s r (s, lookup s d.files) d) d
          (plain-Undone (snapshot_failed s) (next_call d) (Off-same files [] (next_call d) f1))
          (rw q (taken-Undone (lookup s start.files) (ap (lookup s) f2) f2))

-- An import or an update of a subscription that fails, and whose error reports no failed restoring, leaves
-- every file of the disk as it was, the two stores' files among them, whichever calls failed; or it is an
-- import that ended with its first step, since the adding of the source stored it and then could not sync
-- the directory. The stores have two paths, and the hook, which may change both of their files, leaves the
-- others as they are.
pub failed_workflow_restores_files :
    (l : Library) (parse_url : String → Option Url) {B : Type 0} (codec : Codec B)
    (source_codec : SourceCodec B) (p s : String) (r : SourceWorkflowRequest B) (d d' : Disk B)
    (c : Cause) (j : String)
    → (s == p) ≡ false
    → KeepsOthers p s r.after_profile_apply
    → run_source_workflow l parse_url codec source_codec p s r d ≡ (err (workflow_failed c []), d')
    → (lookup j d'.files ≡ lookup j d.files)
      ⊎ IsUnsyncedAdd parse_url source_codec s r (next_call d) c
failed_workflow_restores_files l parse_url codec source_codec p s r d d' c j paths keeps h =
    let k = rw h at (
      run-Undone l parse_url codec source_codec p s r d.files (next_call d) paths keeps d refl
        refl) in
    elim (k refl) [ inl off ↦ inl (off j refl) | inr u ↦ inr u ]
