-- ===== src/Links/Resolve.antt =====
-- A link that was created is found under the lab id.
use lab_gateway.Prelude.{
  Text, nonempty, strip, starts_with, text_eq, text_eq_iff, text_eq_refl, ◌≡◌, refl, sym, ap, ◌∙◌,
  subst, Option, none, some, Bool, true, false, [], ◌++◌, if◌then◌else◌, Bool-cases, inl, inr,
}
use lab_gateway.Prelude.Value.{Value, null, bool, int, list, other, text, clean, truthy}
use lab_gateway.Prelude.Strip.{strip-strip}
use lab_gateway.Links.{
  Link, stored, Directory, read, write, Body, text_or_empty, link_of, aas_link_path, write_link,
  create_with, create_aas_link, resolve_key, prefix, resolve_aas_id,
}

read-write : (name : Text) (l : Link) (d : Directory) → read name (write name l d) ≡ some (stored l)
read-write name l d = rw (text_eq_refl name) refl

or_empty : Option Text → Text
or_empty none = []
or_empty (some s) = s

empty-strip : (b : Bool) (a : Text) → (if b then none else some []) ≡ some a → strip a ≡ a
unfolding strip or_empty
empty-strip true a q = rw (← ap or_empty q) refl
empty-strip false a q = rw (← ap or_empty q) refl

strip-text_or_empty : (v : Value) (a : Text) → text_or_empty v ≡ some a → strip a ≡ a
unfolding text_or_empty or_empty
strip-text_or_empty (text s) a q = rw (← ap or_empty q) (strip-strip s)
strip-text_or_empty null a q = empty-strip (truthy null) a q
strip-text_or_empty (bool b) a q = empty-strip (truthy (bool b)) a q
strip-text_or_empty (int n) a q = empty-strip (truthy (int n)) a q
strip-text_or_empty (list t vs) a q = empty-strip (truthy (list t vs)) a q
strip-text_or_empty (other b t i) a q = empty-strip (truthy (other b t i)) a q

module _ (path_name : Text → Text) (is_within : Text → Bool) where
  resolve_aas_id-prefix :
      (key : Text) (d : Directory)
      → resolve_aas_id path_name is_within (prefix ++ key) d
        ≡ resolve_key path_name is_within (prefix ++ key) key d
  unfolding resolve_aas_id starts_with
  resolve_aas_id-prefix key d = refl

  resolve_key-write :
      (shell key name : Text) (l : Link) (d : Directory)
      → aas_link_path path_name is_within key ≡ some name
      → nonempty (strip l.aas_id) ≡ true
      → resolve_key path_name is_within shell key (write name l d) ≡ some (strip l.aas_id, true)
  unfolding resolve_key
  resolve_key-write shell key name l d p n = rw (resolve_key, p, read-write name l d, n) refl

  resolve_aas_id-write :
      (key name : Text) (l : Link) (d : Directory)
      → aas_link_path path_name is_within key ≡ some name
      → nonempty (strip l.aas_id) ≡ true
      → resolve_aas_id path_name is_within (prefix ++ key) (write name l d)
        ≡ some (strip l.aas_id, true)
  resolve_aas_id-write key name l d p n =
      resolve_aas_id-prefix key (write name l d) ∙ resolve_key-write _ key name l d p n

  write_link-resolves :
      (key lab name lab_name : Text) (l : Link) (d : Directory)
      → aas_link_path path_name is_within key ≡ some name
      → aas_link_path path_name is_within lab ≡ some lab_name
      → nonempty lab ≡ true
      → nonempty (strip l.aas_id) ≡ true
      → resolve_aas_id path_name is_within
          (prefix ++ lab)
          (write_link path_name is_within key lab l d (some name)).0
        ≡ some (strip l.aas_id, true)
  unfolding write_link
  write_link-resolves key lab name lab_name l d p q g n = elim (Bool-cases (text_eq lab key)) [
    | inr e ↦ rw (write_link, g, e, q) (resolve_aas_id-write lab lab_name l (write name l d) q n)
    | inl e ↦
        rw (write_link, g, e)
          (resolve_aas_id-write lab name l d
            (ap (aas_link_path path_name is_within) ((text_eq_iff lab key).0 e) ∙ p) n)
  ]

  with-resolves :
      (key : Text) (b : Body) (d : Directory) (a name lab_name : Text)
      → strip a ≡ a
      → nonempty a ≡ true
      → nonempty (clean b.lab_id) ≡ true
      → aas_link_path path_name is_within key ≡ some name
      → aas_link_path path_name is_within (clean b.lab_id) ≡ some lab_name
      → resolve_aas_id path_name is_within
          (prefix ++ clean b.lab_id)
          (create_with path_name is_within key b d (some a)).0
        ≡ some (a, true)
  unfolding link_of
  with-resolves key b d a name lab_name t n g p q =
      rw (n, p)
        (subst
          (λ x.
            resolve_aas_id path_name is_within (prefix ++ clean b.lab_id)
              (write_link path_name is_within key (clean b.lab_id) (link_of a b) d (some name)).0
            ≡ some (x, true))
          t (write_link-resolves key (clean b.lab_id) name lab_name (link_of a b) d p q g (rw t n)))

  -- Where `aasId` is a text with more than white space in it, `labId` is given, and the access key and
  -- the lab id are keys that `_aas_link_path` accepts, `create_aas_link` leaves a directory in which
  -- `resolve_aas_id` answers that `aasId`, stripped, as an override for the shell id of that lab.
  pub resolve_aas_id-create_aas_link :
      (key : Text) (b : Body) (d : Directory) (a name lab_name : Text)
      → text_or_empty b.aas_id ≡ some a
      → nonempty a ≡ true
      → nonempty (clean b.lab_id) ≡ true
      → aas_link_path path_name is_within key ≡ some name
      → aas_link_path path_name is_within (clean b.lab_id) ≡ some lab_name
      → resolve_aas_id path_name is_within
          (prefix ++ clean b.lab_id)
          (create_aas_link path_name is_within key (some b) d).0
        ≡ some (a, true)
  unfolding create_aas_link
  resolve_aas_id-create_aas_link key b d a name lab_name t n g p q =
      subst
        (λ o.
          resolve_aas_id path_name is_within (prefix ++ clean b.lab_id)
            (create_with path_name is_within key b d o).0
          ≡ some (a, true))
        (sym t) (with-resolves key b d a name lab_name (strip-text_or_empty b.aas_id a t) n g p q)
