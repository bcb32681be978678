-- ===== src/Context/Evidence.antt =====
-- src/evidence.rs: a piece of evidence and whether it is fresh. The clock and the version that a
-- file has now are parameters; `Score` is `f32`.
use rust_claw_oc.Prelude.{
  ℕ, String, Bool, true, false, ◌||◌, Option, none, some, [], ◌∷◌, if◌then◌else◌, concat, str_eq,
}
use rust_claw_oc.Prelude.Decimal.{show}

pub record Evidence (Score : Type 0) : Type 0 where
  pub schema_version : ℕ
  pub evidence_id : String
  -- file, directory, web or memory
  pub source_kind : String
  pub source_path : String
  pub source_version : Option String
  pub retrieved_at : ℕ
  pub score : Score
  pub summary : String
  pub content : String

-- The time of the last change and the size of an existing file whose metadata can be read.
abbrev pub FileSystem : Type 0
FileSystem = String → Option (ℕ × ℕ)

abbrev pub is_file_kind : String → Bool
is_file_kind source_kind = str_eq source_kind "file" || str_eq source_kind "directory"

unfoldable pub file_version : FileSystem → String → Option String
file_version files path = elim (files path) [
  | none ↦ none
  | some (mtime, size) ↦ some (concat ("v1-" ∷ show mtime ∷ "-" ∷ show size ∷ []))
]

unfoldable pub generate_freshness : FileSystem → ℕ → String → String → Option String × ℕ
unfolding file_version
generate_freshness files now source_kind source_path =
    if is_file_kind source_kind then (file_version files source_path, now) else (none, now)

abbrev same_version : Option String → Option String → Bool
same_version none none = true
same_version none (some b) = false
same_version (some a) none = false
same_version (some a) (some b) = str_eq a b

module _ {Score : Type 0} where
  unfoldable pub new_evidence :
      FileSystem → ℕ → String → String → String → Score → String → String → Evidence Score
  unfolding generate_freshness
  new_evidence files now evidence_id source_kind source_path score summary content =
      let (version, retrieved_at) = generate_freshness files now source_kind source_path in
      record {
        schema_version = 1;
        evidence_id = evidence_id;
        source_kind = source_kind;
        source_path = source_path;
        source_version = version;
        retrieved_at = retrieved_at;
        score = score;
        summary = summary;
        content = content;
      }

  abbrev invalidated : Evidence Score → String
  invalidated ev = concat (
      "[Evidence '"
      ∷ ev.source_path
      ∷ "' automatically invalidated because the underlying "
      ∷ (if str_eq ev.source_kind "directory" then "directory" else "file")
      ∷ " was modified since retrieval]"
      ∷ [])

  -- The tombstone of evidence that is not fresh any more.
  unfoldable pub stale_tombstone : FileSystem → ℕ → Evidence Score → Option String
  unfolding generate_freshness
  stale_tombstone files now ev =
      let (version, _) = generate_freshness files now ev.source_kind ev.source_path in
      if is_file_kind ev.source_kind
      then if same_version version ev.source_version then none else some (invalidated ev)
      else none
