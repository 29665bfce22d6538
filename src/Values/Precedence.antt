-- ===== src/Values/Precedence.antt =====
-- Which of several value files has the last word (internal/controller/values.go, mergeHelmValues).
use patterns_operator.Prelude.{
  String, true, none, some, List, [], ◌∷◌, ◌++◌, ◌≡◌, refl, ◌∙◌, ◌⊎◌, inl, inr, All,
}
use patterns_operator.Errors.{Err, Result, ok, err, is_not_found}
use patterns_operator.Files.{text, Table, end, Files, find_field}
use patterns_operator.Library.{Library}
use patterns_operator.Values.{merge_from, merge_helm_values}

-- What Helm documents of CoalesceTables, for texts: the destination's value is kept, and what it lacks
-- is taken from the source.
pub record Coalesces (lib : Library) : Type 0 where
  pub keeps :
      (k s : String) (dst src : Table)
      → find_field k dst ≡ some (text s)
      → find_field k (lib.coalesce_tables dst src) ≡ some (text s)
  pub adds :
      (k s : String) (dst src : Table)
      → find_field k dst ≡ none
      → find_field k src ≡ some (text s)
      → find_field k (lib.coalesce_tables dst src) ≡ some (text s)

module _ (lib : Library) (files : Files) where
  abbrev pub IsAbsent : String → Type 0
  IsAbsent name = (x : Err) × (files.read_values_file name ≡ err x) × (is_not_found x ≡ true)

  -- The file is missing, or it can be read.
  abbrev pub IsReadable : String → Type 0
  IsReadable name = ((t : Table) × (files.read_values_file name ≡ ok t)) ⊎ IsAbsent name

  -- The file is missing, or it can be read and lacks the key.
  abbrev pub IsSilent : String → String → Type 0
  IsSilent k name =
      ((t : Table) × (files.read_values_file name ≡ ok t) × (find_field k t ≡ none)) ⊎ IsAbsent name

  abbrev Gives : Result Table → String → String → Type 0
  Gives r k s = (m : Table) × (r ≡ ok m) × (find_field k m ≡ some (text s))

  -- A file that is missing makes no difference.
  merge_from-absent :
      (merged : Table) (name : String) (names : List String)
      → IsAbsent name
      → merge_from lib files merged (name ∷ names) ≡ merge_from lib files merged names
  unfolding merge_from
  merge_from-absent merged name names (x, r, a) = rw (merge_from, r, a) refl

  merge_from-read :
      (merged t : Table) (name : String) (names : List String)
      → files.read_values_file name ≡ ok t
      → merge_from lib files merged (name ∷ names)
        ≡ merge_from lib files (lib.coalesce_tables t merged) names
  unfolding merge_from
  merge_from-read merged t name names r = rw (merge_from, r) refl

  -- What has been merged stays if the other files lack the key.
  merge_from-silent :
      Coalesces lib
      → (k s : String) (merged : Table) (names : List String) → find_field k merged ≡ some (text s)
      → All (IsSilent k) names
      → Gives (merge_from lib files merged names) k s
  unfolding merge_from
  merge_from-silent c k s merged [] has u = (merged, refl, has)
  merge_from-silent c k s merged (name ∷ names) has (inl (t, r, lacks), rest) =
      let (m, e, f) =
        merge_from-silent c k s (lib.coalesce_tables t merged) names (c.adds k s t merged lacks has)
          rest in
      (m, merge_from-read merged t name names r ∙ e, f)
  merge_from-silent c k s merged (name ∷ names) has (inr a, rest) =
      let (m, e, f) = merge_from-silent c k s merged names has rest in
      (m, merge_from-absent merged name names a ∙ e, f)

  module _ (c : Coalesces lib) (k s : String) (name : String) (values : Table)
      (after : List String) where
    merge_from-last :
        (merged : Table) (before : List String)
        → All IsReadable before
        → files.read_values_file name ≡ ok values
        → find_field k values ≡ some (text s)
        → All (IsSilent k) after
        → Gives (merge_from lib files merged (before ++ name ∷ after)) k s
    merge_from-last merged [] u r has silent =
        let (m, e, f) =
          merge_from-silent c k s (lib.coalesce_tables values merged) after
            (c.keeps k s values merged has) silent in
        (m, merge_from-read merged values name after r ∙ e, f)
    merge_from-last merged (b ∷ bs) (inl (t, q), rest) r has silent =
        let (m, e, f) = merge_from-last (lib.coalesce_tables t merged) bs rest r has silent in
        (m, merge_from-read merged t b (bs ++ name ∷ after) q ∙ e, f)
    merge_from-last merged (b ∷ bs) (inr a, rest) r has silent =
        let (m, e, f) = merge_from-last merged bs rest r has silent in
        (m, merge_from-absent merged b (bs ++ name ∷ after) a ∙ e, f)

    -- If CoalesceTables keeps what the destination has and adds what it lacks, the files before are
    -- missing or can be read, this file has a text under the key, and the files after are missing or
    -- can be read and lack the key, then `mergeHelmValues` succeeds and its table has that text.
    pub merge_helm_values-last_wins :
        (before : List String)
        → All IsReadable before
        → files.read_values_file name ≡ ok values
        → find_field k values ≡ some (text s)
        → All (IsSilent k) after
        → (m : Table) × (merge_helm_values lib files (before ++ name ∷ after) ≡ ok m)
          × (find_field k m ≡ some (text s))
    unfolding merge_helm_values
    merge_helm_values-last_wins before readable r has silent =
        merge_from-last end before readable r has silent
