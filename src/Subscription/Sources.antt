-- ===== src/Subscription/Sources.antt =====
-- internal/sub/store.go and store_delete.go: `Store`, the file of the subscriptions. An error of the
-- writer keeps its operation, which is all that `subscriptionStoreWriteError` looks at.
use tunwarden.Prelude.{
  String, Bool, not, List, [], ◌∷◌, ◌++◌, Option, none, some, any, if◌then◌else◌, ◌==◌,
}
use tunwarden.Result.{Result, ok, err, ◌>>=◌, ◌>>◌, reject}
use tunwarden.Text.{text_ltb}
use tunwarden.State.Disk.{Disk, lookup}
use tunwarden.StoreJson.{calling, write_file, Operation}
use tunwarden.Subscription.Source.{Source, SourceMessage, Url, validate_source}

pub data SourceError : Type 0 where
  source_invalid : List SourceMessage → SourceError
  sources_unreadable sources_invalid_json sources_trailing : SourceError
  sources_schema : String → SourceError
  stored_source_invalid : String → List SourceMessage → SourceError
  stored_source_duplicate source_not_found source_exists : String → SourceError
  source_write_failed : Operation → SourceError

pub record SourceFile : Type 0 where
  pub sources_version : String
  pub sources : List Source

pub record SourceCodec (B : Type 0) : Type 0 where
  pub encode_sources : SourceFile → Option B
  pub decode_sources : B → Option (SourceFile × Bool)

insert_source : Source → List Source → List Source
unfolding text_ltb
insert_source s [] = s ∷ []
insert_source s (t ∷ ts) =
    let rest = insert_source s ts in if text_ltb t.id s.id then t ∷ rest else s ∷ t ∷ ts

unfoldable pub sort_sources : List Source → List Source
unfolding insert_source
sort_sources [] = []
sort_sources (s ∷ ss) = insert_source s (sort_sources ss)

abbrev has_source : String → List Source → Bool
has_source id ss = any (λ (s : Source). s.id == id) ss

find_source : String → List Source → Result SourceError Source
find_source id [] = err (source_not_found id)
find_source id (s ∷ ss) = let rest = find_source id ss in if s.id == id then ok s else rest

-- the first source of the id replaced
with_source : Source → List Source → List Source
with_source s [] = []
with_source s (t ∷ ts) = let rest = with_source s ts in if t.id == s.id then s ∷ ts else t ∷ rest

without_source : String → List Source → List Source
without_source id [] = []
without_source id (s ∷ ss) =
    let rest = without_source id ss in if s.id == id then rest else s ∷ rest

module _ (parse_url : String → Option Url) {B : Type 0} (codec : SourceCodec B)
    (path : String) where
  source_checked : Result (List SourceMessage) (Unit {0}) → Result SourceError (Unit {0})
  source_checked (ok u) = ok u
  source_checked (err ms) = err (source_invalid ms)

  stored_source_checked :
      String → Result (List SourceMessage) (Unit {0}) → Result SourceError (Unit {0})
  stored_source_checked id (ok u) = ok u
  stored_source_checked id (err ms) = err (stored_source_invalid id ms)

  check_sources : List String → List Source → Result SourceError (Unit {0})
  unfolding stored_source_checked validate_source
  check_sources seen [] = ok tt
  check_sources seen (s ∷ ss) = do
    stored_source_checked s.id (validate_source parse_url s)
    reject (any (λ i. i == s.id) seen) (stored_source_duplicate s.id)
    check_sources (s.id ∷ seen) ss

  decoded_sources : Option (SourceFile × Bool) → Result SourceError (List Source)
  unfolding check_sources
  decoded_sources none = err sources_invalid_json
  decoded_sources (some (file, at_end)) = do
    reject (not at_end) sources_trailing
    reject (not (file.sources_version == "v1")) (sources_schema file.sources_version)
    check_sources [] file.sources
    ok file.sources

  unfoldable pub parsed_sources : Option (Option B) → Result SourceError (List Source)
  unfolding decoded_sources
  parsed_sources none = ok []
  parsed_sources (some none) = err sources_invalid_json
  parsed_sources (some (some b)) = decoded_sources (codec.decode_sources b)

  unfoldable pub load_sources : Disk B → Result SourceError (List Source) × Disk B
  unfolding calling lookup parsed_sources
  load_sources =
      calling (λ d. d) (λ d. (err sources_unreadable, d))
        (λ d. (parsed_sources (lookup path d.files), d))

  unfoldable pub as_source_error :
      Result Operation (Unit {0}) × Disk B → Result SourceError (Unit {0}) × Disk B
  as_source_error (ok u, d) = (ok u, d)
  as_source_error (err op, d) = (err (source_write_failed op), d)

  unfoldable pub save_sources : List Source → Disk B → Result SourceError (Unit {0}) × Disk B
  unfolding write_file as_source_error
  save_sources ss d =
      as_source_error
        (write_file (codec.encode_sources (record { sources_version = "v1"; sources = ss })) path d)

  unfoldable pub save_changed :
      Result SourceError (List Source) × Disk B → Result SourceError (Unit {0}) × Disk B
  unfolding save_sources
  save_changed (ok ss, d) = save_sources ss d
  save_changed (err e, d) = (err e, d)

  -- what an operation makes of the loaded sources, saved
  unfoldable pub change_sources :
      (List Source → Result SourceError (List Source))
      → Disk B
      → Result SourceError (Unit {0}) × Disk B
  unfolding load_sources save_changed
  change_sources change d = let (r, d') = load_sources d in save_changed (r >>= change, d')

  unfoldable pub valid_first :
      Result SourceError (Unit {0})
      → (Disk B → Result SourceError (Unit {0}) × Disk B)
      → Disk B
      → Result SourceError (Unit {0}) × Disk B
  valid_first (ok u) op d = op d
  valid_first (err e) op d = (err e, d)

  added_source : Source → List Source → Result SourceError (List Source)
  unfolding sort_sources
  added_source s ss = do
    reject (has_source s.id ss) (source_exists s.id)
    ok (sort_sources (ss ++ s ∷ []))

  updated_source : Source → List Source → Result SourceError (List Source)
  unfolding sort_sources with_source
  updated_source s ss = do
    reject (not (has_source s.id ss)) (source_not_found s.id)
    ok (sort_sources (with_source s ss))

  deleted_source : String → List Source → Result SourceError (List Source)
  unfolding sort_sources without_source
  deleted_source id ss = do
    reject (not (has_source id ss)) (source_not_found id)
    ok (sort_sources (without_source id ss))

  unfoldable pub add_source : Source → Disk B → Result SourceError (Unit {0}) × Disk B
  unfolding valid_first source_checked validate_source change_sources added_source
  add_source s d =
      valid_first (source_checked (validate_source parse_url s)) (change_sources (added_source s)) d

  unfoldable pub update_source : Source → Disk B → Result SourceError (Unit {0}) × Disk B
  unfolding valid_first source_checked validate_source change_sources updated_source
  update_source s d =
      valid_first (source_checked (validate_source parse_url s)) (change_sources (updated_source s))
        d

  unfoldable pub delete_source : String → Disk B → Result SourceError (Unit {0}) × Disk B
  unfolding change_sources deleted_source
  delete_source id d = change_sources (deleted_source id) d

  unfoldable pub get_source : String → Disk B → Result SourceError Source × Disk B
  unfolding load_sources find_source
  get_source id d = let (r, d') = load_sources d in (r >>= find_source id, d')

  sorted_sources :
      Result SourceError (List Source) × Disk B → Result SourceError (List Source) × Disk B
  sorted_sources (ok ss, d) = (ok (sort_sources ss), d)
  sorted_sources (err e, d) = (err e, d)

  unfoldable pub list_sources : Disk B → Result SourceError (List Source) × Disk B
  unfolding load_sources sorted_sources
  list_sources d = sorted_sources (load_sources d)
