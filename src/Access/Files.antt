-- ===== src/Access/Files.antt =====
-- `_validate_storage_key` and `_resolve_fmu_path` of fmu-runner/main.py. The file system is a
-- record of what the code asks of it; `os.path.normcase` is the identity of POSIX.
use lab_gateway.Prelude.{
  ℕ, Text, codes, nonempty, lower, text_eq, Option, none, some, Bool, false, not, ◌&&◌, ◌||◌, List,
  [], ◌∷◌, any_of, length, leb, ltb, reverse, starts_with, ◌==◌, if◌then◌else◌,
}
use lab_gateway.Prelude.Value.{Value, clean}

unfoldable pub is_ascii_alnum : ℕ → Bool
is_ascii_alnum c = (leb 48 c && leb c 57) || (leb 65 c && leb c 90) || (leb 97 c && leb c 122)

unfoldable pub is_key_char : ℕ → Bool
unfolding is_ascii_alnum
is_key_char c = is_ascii_alnum c || c == b'.' || c == b'_' || c == b':' || c == b'-'

-- `re.fullmatch(r"[A-Za-z0-9][A-Za-z0-9._:-]*", text)`
unfoldable pub matches_key : Text → Bool
unfolding is_ascii_alnum is_key_char
matches_key [] = false
matches_key (c ∷ s) = is_ascii_alnum c && not (any_of (λ d. not (is_key_char d)) s)

-- `_validate_storage_key`; `path_name` is `Path(text).name`, and `none` the 400
unfoldable pub validate_storage_key : (Text → Text) → Value → Option Text
unfolding clean matches_key text_eq
validate_storage_key path_name v =
    let s = clean v in
    if not (nonempty s)
      || ltb 255 (length s)
      || text_eq s (codes ".")
      || text_eq s (codes "..")
      || not (text_eq (path_name s) s)
      || not (matches_key s)
    then none
    else some (path_name s)

-- `str.endswith`
unfoldable pub ends_with : Text → Text → Bool
unfolding starts_with
ends_with s t = starts_with (reverse s) (reverse t)

-- an entry of a directory; `resolved` is `none` where `resolve(strict=True)` raises
pub record Entry (P : Type 0) : Type 0 where
  pub name : Text
  pub path : P
  pub resolved : Option P
  pub is_dir : Bool

pub record FileSystem (P : Type 0) : Type 0 where
  pub base : P
  pub base_is_dir : Bool
  -- `iterdir`, `none` where it raises OSError
  pub entries : P → Option (List (Entry P))
  pub is_within_base : P → Bool
  pub is_file : P → Bool

pub data Resolved (P : Type 0) : Type 0 where
  -- an HTTPException with this status
  refused : ℕ → Resolved P
  -- an exception that is not caught
  raised : Resolved P
  found : P → Resolved P

module _ {P : Type 0} (fs : FileSystem P) (name : Text) where
  -- the tests on one entry of a directory
  unfoldable pub match_entry : Entry P → Option P
  unfolding text_eq
  match_entry e = if not (text_eq e.name name) then none else elim e.resolved [
    | none ↦ none
    | some p ↦ if fs.is_within_base p && fs.is_file p then some p else none
  ]

  unfoldable pub first_match : List (Entry P) → Option P
  unfolding match_entry
  first_match [] = none
  first_match (e ∷ es) =
      let rest = first_match es in elim (match_entry e) [ some p ↦ some p | none ↦ rest ]

  -- `_trusted_match`
  unfoldable pub trusted_match : P → Option P
  unfolding first_match
  trusted_match dir = elim (fs.entries dir) [ none ↦ none | some es ↦ first_match es ]

  -- the loop over the provider directories
  unfoldable pub match_below : List (Entry P) → Option P
  unfolding trusted_match
  match_below [] = none
  match_below (e ∷ es) =
      let rest = match_below es in
      if e.is_dir then elim (trusted_match e.path) [ some p ↦ some p | none ↦ rest ] else rest

  abbrev found_or_404 : Option P → Resolved P
  found_or_404 none = refused 404
  found_or_404 (some p) = found p

  unfoldable pub search : Resolved P
  unfolding trusted_match match_below
  search = elim (trusted_match fs.base) [
    | some p ↦ found p
    | none ↦ elim (fs.entries fs.base) [ none ↦ raised | some es ↦ found_or_404 (match_below es) ]
  ]

-- `_resolve_fmu_path`
unfoldable pub resolve_fmu_path : {P : Type 0} → (Text → Text) → FileSystem P → Value → Resolved P
unfolding validate_storage_key ends_with lower search
resolve_fmu_path path_name fs v = elim (validate_storage_key path_name v) [
  | none ↦ refused 400
  | some name ↦
      if not (ends_with (lower name) (codes ".fmu"))
      then refused 400
      else if not fs.base_is_dir
      then refused 503
      else search fs name
]
