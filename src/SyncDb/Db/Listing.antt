-- ===== src/SyncDb/Db/Listing.antt =====
-- `ORDER BY path`: the rows in the order of their paths, by code points as SQLite's BINARY collation
-- orders UTF-8 texts.
use Prim.Native.Char.{code}
use mathlib.Core.List.{Perm}
use mathlib.Core.List.Perm
use owncloud_sync_client.Common.{
  String, ◌≡◌, refl, Bool, true, false, inl, inr, List, [], ◌∷◌, arith, ltb, Bool-cases,
  if◌then◌else◌,
}
use owncloud_sync_client.Common.Dict.{Dict}
use owncloud_sync_client.SyncDb.Models.{JournalEntry}

-- Whether one path comes before another, or is equal to it.
unfoldable pub path_le : String → String → Bool
path_le String.[] t = true
path_le (String.◌∷◌ c s) String.[] = false
path_le (String.◌∷◌ c s) (String.◌∷◌ d t) =
    let rest = path_le s t in
    if ltb (code c) (code d) then true else if ltb (code d) (code c) then false else rest

insert_row : JournalEntry → List JournalEntry → List JournalEntry
insert_row r [] = r ∷ []
insert_row r (x ∷ xs) = if path_le r.path x.path then r ∷ x ∷ xs else x ∷ insert_row r xs

unfoldable pub sort_rows : List JournalEntry → List JournalEntry
unfolding insert_row
sort_rows [] = []
sort_rows (r ∷ rs) = insert_row r (sort_rows rs)

unfoldable pub values : Dict String JournalEntry → List JournalEntry
values [] = []
values ((k, v) ∷ d) = v ∷ values d

path_le_total : (s t : String) → path_le s t ≡ false → path_le t s ≡ true
unfolding path_le
path_le_total String.[] t h = absurd (cc h)
path_le_total (String.◌∷◌ c s) String.[] h = refl
path_le_total (String.◌∷◌ c s) (String.◌∷◌ d t) h = ground (arith, path_le_total s t)

-- Each row comes no later than the next.
abbrev pub IsOrdered : List JournalEntry → Type 0
IsOrdered [] = Unit
IsOrdered (x ∷ []) = Unit
IsOrdered (x ∷ y ∷ ys) = (path_le x.path y.path ≡ true) × IsOrdered (y ∷ ys)

insert_row-IsOrdered :
    (r : JournalEntry) (xs : List JournalEntry) → IsOrdered xs → IsOrdered (insert_row r xs)
unfolding insert_row
insert_row-IsOrdered r [] h = tt
insert_row-IsOrdered r (x ∷ []) h = ground (arith, path_le_total r.path x.path)
insert_row-IsOrdered r (x ∷ y ∷ ys) h =
    ground (arith, path_le_total r.path x.path, insert_row-IsOrdered r (y ∷ ys) h.1)

pub sort_rows-IsOrdered : (rs : List JournalEntry) → IsOrdered (sort_rows rs)
unfolding sort_rows
sort_rows-IsOrdered [] = tt
sort_rows-IsOrdered (r ∷ rs) = insert_row-IsOrdered r (sort_rows rs) (sort_rows-IsOrdered rs)

insert_row-perm : (r : JournalEntry) (xs : List JournalEntry) → Perm (insert_row r xs) (r ∷ xs)
unfolding insert_row
insert_row-perm r [] = Perm.refl (r ∷ [])
insert_row-perm r (x ∷ xs) = elim (Bool-cases (path_le r.path x.path)) [
  | inl e ↦ rw e (Perm.refl (r ∷ x ∷ xs))
  | inr e ↦ rw e (Perm.trans (Perm.cons x (insert_row-perm r xs)) (Perm.swap r x xs))
]

pub sort_rows-perm : (rs : List JournalEntry) → Perm (sort_rows rs) rs
unfolding sort_rows
sort_rows-perm [] = Perm.refl []
sort_rows-perm (r ∷ rs) =
    Perm.trans (insert_row-perm r (sort_rows rs)) (Perm.cons r (sort_rows-perm rs))
