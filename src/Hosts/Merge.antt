-- ===== src/Hosts/Merge.antt =====
-- Merging the two catalogs, and replacing a host of the dynamic one.
use lab_gateway.Prelude.{
  ◌≤◌, ◌+◌, ◌≡◌, refl, ap, Text, lower, text_eq, text_eq_iff, text_eq_refl, nonempty, Option, none,
  some, ◌&&◌, List, [], ◌∷◌, length, arith, if◌then◌else◌,
}
use lab_gateway.Prelude.Table.{find, Distinct, text_key}
use lab_gateway.Hosts.{
  Host, CatalogEntry, object, scalar, clean_name, HostDict, dict_key, put, merge_entry,
  merge_source, merge_host_configs, objects, replace_host, upsert_dynamic_host,
}

pub find-put :
    (key k : Text) (h : Host) (d : HostDict)
    → find dict_key k (put key h d) ≡ (if text_eq key k then some (key, h) else find dict_key k d)
unfolding find put
find-put key k h [] = ground arith
find-put key k h ((j, g) ∷ d) =
    ground (arith, find-put key k h d, text_eq_iff j key, text_eq_iff j k, text_eq_iff key k)

pub Distinct-put :
    (key : Text) (h : Host) (d : HostDict) → Distinct dict_key d → Distinct dict_key (put key h d)
unfolding find put
Distinct-put key h [] u = (refl, tt)
Distinct-put key h ((j, g) ∷ d) (fresh, u) =
    ground (arith, Distinct-put key h d u, find-put key j h d, text_eq_iff j key, text_eq_iff key j)

-- the last host of that key in a list of entries, in the order of the loops
abbrev pub last_named : Text → List CatalogEntry → Option Host → Option Host
last_named key [] found = found
last_named key (scalar _ ∷ es) found = last_named key es found
last_named key (object h ∷ es) found =
    last_named key es
      (if nonempty (clean_name h) && text_eq (lower (clean_name h)) key then some h else found)

abbrev pub with_key : Text → Option Host → Option (Text × Host)
with_key key none = none
with_key key (some h) = some (key, h)

find-merge_source :
    (key : Text) (es : List CatalogEntry) (d : HostDict) (found : Option Host)
    → find dict_key key d ≡ with_key key found
    → find dict_key key (merge_source es d) ≡ with_key key (last_named key es found)
unfolding merge_source merge_entry
find-merge_source key [] d found e = e
find-merge_source key (scalar _ ∷ es) d found e = find-merge_source key es d found e
find-merge_source key (object h ∷ es) d found e = find-merge_source key es _ _ (
    ground
      (arith, e, find-put (lower (clean_name h)) key h d, text_eq_iff (lower (clean_name h)) key))

merge_source-Distinct :
    (es : List CatalogEntry) (d : HostDict)
    → Distinct dict_key d
    → Distinct dict_key (merge_source es d)
unfolding merge_source merge_entry
merge_source-Distinct [] d u = u
merge_source-Distinct (scalar _ ∷ es) d u = merge_source-Distinct es d u
merge_source-Distinct (object h ∷ es) d u =
    merge_source-Distinct es _ (ground (arith, Distinct-put (lower (clean_name h)) h d u))

-- The merged catalog has one host for each name, read without regard to case and surrounding
-- spaces: the last one of that name in the dynamic catalog, else the last one in the base.
merge_last_wins :
    (base dynamic : List CatalogEntry) (key : Text)
    → Distinct dict_key (merge_host_configs base dynamic)
      × (find dict_key key (merge_host_configs base dynamic)
          ≡ with_key key (last_named key dynamic (last_named key base none)))
unfolding merge_host_configs
merge_last_wins base dynamic key = (
  merge_source-Distinct dynamic _ (merge_source-Distinct base [] tt),
  find-merge_source key dynamic _ _ (find-merge_source key base [] none (unfold find in refl)),
)

abbrev pub folded_name : Host → Text
folded_name h = lower (clean_name h)

find-replace_host :
    (key k : Text) (new : Host) (hs : List Host)
    → folded_name new ≡ key
    → find folded_name k (replace_host key new hs)
      ≡ (if text_eq key k then some new else find folded_name k hs)
unfolding find replace_host
find-replace_host key k new [] e = rw e
find-replace_host key k new (h ∷ hs) e = ground (
  arith,
  find-replace_host key k new hs e,
  e,
  text_eq_iff (folded_name h) key,
  text_eq_iff (folded_name h) k,
  text_eq_iff key k,
)

replace_host_again :
    (key : Text) (new : Host) (hs : List Host)
    → folded_name new ≡ key
    → replace_host key new (replace_host key new hs) ≡ replace_host key new hs
unfolding replace_host
replace_host_again key new [] e = rw (e, text_eq_refl key)
replace_host_again key new (h ∷ hs) e =
    ground (arith, e, text_eq_refl key, replace_host_again key new hs e)

length-replace_host-le :
    (key : Text) (new : Host) (hs : List Host) → length (replace_host key new hs) ≤ length hs + 1
unfolding replace_host
length-replace_host-le key new [] = omega arith
length-replace_host-le key new (h ∷ hs) = ground (arith, length-replace_host-le key new hs)

-- what the dynamic file holds after the write
abbrev pub entries : List Host → List CatalogEntry
entries [] = []
entries (h ∷ hs) = object h ∷ entries hs

objects-entries : (hs : List Host) → objects (entries hs) ≡ hs
objects-entries [] = refl
objects-entries (h ∷ hs) = ap (◌∷◌ h) (objects-entries hs)

-- After an upsert the host is the one found under its name, every other name finds what it found
-- before, at most one host was added, and a second upsert of the host changes nothing.
pub upsert_lem :
    (new : Host) (es : List CatalogEntry) (k : Text)
    → (find folded_name k (upsert_dynamic_host new es)
        ≡ (if text_eq (folded_name new) k then some new else find folded_name k (objects es)))
      × (length (upsert_dynamic_host new es) ≤ length (objects es) + 1)
      × (upsert_dynamic_host new (entries (upsert_dynamic_host new es))
          ≡ upsert_dynamic_host new es)
unfolding upsert_dynamic_host
upsert_lem new es k = (
  find-replace_host (folded_name new) k new (objects es) refl,
  length-replace_host-le (folded_name new) new (objects es),
  rw (objects-entries (replace_host (folded_name new) new (objects es)))
      (replace_host_again (folded_name new) new (objects es) refl),
)
