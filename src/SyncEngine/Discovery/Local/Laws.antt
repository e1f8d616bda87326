-- ===== src/SyncEngine/Discovery/Local/Laws.antt =====
-- crates/sync-engine/src/discovery/local.rs: what the walk over a folder returns, against the
-- depth-first order of its tree.
use owncloud_sync_client.Common.{
  ◌≡◌, refl, sym, subst, ap, ◌∙◌, Bool, true, false, ◌&&◌, ◌⊎◌, inl, inr, List, [], ◌∷◌, ◌++◌,
  Result, ok, err, Bool-cases, Option, Option-cases, none, some, if◌then◌else◌,
}
use mathlib.Core.List.{append_assoc, append-nil, Perm, perm_middle, filter_map}
use mathlib.Core.List.Perm
use owncloud_sync_client.SyncEngine.Types.{IoError, SyncError, io, LocalEntry}
use owncloud_sync_client.SyncEngine.Discovery.Local.{
  Meta, or_epoch, Node, Listing, dir_entry, file_entry, read_listing, after, walk_subdirs, walk_dir,
  walk,
}

-- Whether every directory of the tree can be listed and every entry read.
abbrev pub readable : Listing → Bool
readable (Listing.denied e) = false
readable Listing.end = true
readable (Listing.next (Node.unreadable e) more) = false
readable (Listing.next (Node.dir m sub) more) = readable sub && readable more
readable (Listing.next (Node.file m) more) = readable more
readable (Listing.next (Node.special m) more) = readable more

-- The directories and the files of the tree, depth first.
abbrev pub preorder : Listing → List LocalEntry
preorder (Listing.denied e) = []
preorder Listing.end = []
preorder (Listing.next (Node.unreadable e) more) = preorder more
preorder (Listing.next (Node.dir m sub) more) = dir_entry m ∷ preorder sub ++ preorder more
preorder (Listing.next (Node.file m) more) = file_entry m ∷ preorder more
preorder (Listing.next (Node.special m) more) = preorder more

-- The entries of a listing itself.
level : Listing → List LocalEntry
level (Listing.denied e) = []
level Listing.end = []
level (Listing.next (Node.unreadable e) more) = level more
level (Listing.next (Node.dir m sub) more) = dir_entry m ∷ level more
level (Listing.next (Node.file m) more) = file_entry m ∷ level more
level (Listing.next (Node.special m) more) = level more

-- Those of the directories in it.
below : Listing → List LocalEntry
unfolding level
below (Listing.denied e) = []
below Listing.end = []
below (Listing.next (Node.unreadable e) more) = below more
below (Listing.next (Node.dir m sub) more) = (level sub ++ below sub) ++ below more
below (Listing.next (Node.file m) more) = below more
below (Listing.next (Node.special m) more) = below more

append_front-Perm : {A : Type 0} (xs ys zs : List A) → Perm (xs ++ (ys ++ zs)) (ys ++ (xs ++ zs))
append_front-Perm [] ys zs = Perm.refl (ys ++ zs)
append_front-Perm (x ∷ xs) ys zs =
    Perm.trans (Perm.cons x (append_front-Perm xs ys zs)) (Perm.symm (perm_middle ys (xs ++ zs)))

levels-Perm : (l : Listing) → Perm (level l ++ below l) (preorder l)
unfolding level below
levels-Perm (Listing.denied e) = Perm.nil
levels-Perm Listing.end = Perm.nil
levels-Perm (Listing.next (Node.unreadable e) more) = levels-Perm more
levels-Perm (Listing.next (Node.dir m sub) more) = Perm.cons (dir_entry m) (
    Perm.trans (append_front-Perm (level more) (level sub ++ below sub) (below more))
      (Perm.append (levels-Perm sub) (levels-Perm more)))
levels-Perm (Listing.next (Node.file m) more) = Perm.cons (file_entry m) (levels-Perm more)
levels-Perm (Listing.next (Node.special m) more) = levels-Perm more

and_true : (a b : Bool) → (a && b) ≡ true → (a ≡ true) × (b ≡ true)
and_true true b h = (refl, h)
and_true false b h = absurd (cc h)

read_listing-readable :
    (l : Listing) (acc : List LocalEntry)
    → readable l ≡ true
    → read_listing l acc ≡ ok (acc ++ level l)
unfolding read_listing level
read_listing-readable (Listing.denied e) acc h = absurd (cc h)
read_listing-readable Listing.end acc h = ap ok (sym (append-nil acc))
read_listing-readable (Listing.next (Node.unreadable e) more) acc h = absurd (cc h)
read_listing-readable (Listing.next (Node.dir m sub) more) acc h =
    read_listing-readable more (acc ++ dir_entry m ∷ [])
      (and_true (readable sub) (readable more) h).1
    ∙ ap ok (append_assoc acc (dir_entry m ∷ []) (level more))
read_listing-readable (Listing.next (Node.file m) more) acc h =
    read_listing-readable more (acc ++ file_entry m ∷ []) h
    ∙ ap ok (append_assoc acc (file_entry m ∷ []) (level more))
read_listing-readable (Listing.next (Node.special m) more) acc h = read_listing-readable more acc h

walk_subdirs-readable :
    (l : Listing) (acc : List LocalEntry)
    → readable l ≡ true
    → walk_subdirs l acc ≡ ok (acc ++ below l)
unfolding walk_subdirs below
walk_subdirs-readable (Listing.denied e) acc h = absurd (cc h)
walk_subdirs-readable Listing.end acc h = ap ok (sym (append-nil acc))
walk_subdirs-readable (Listing.next (Node.unreadable e) more) acc h = absurd (cc h)
walk_subdirs-readable (Listing.next (Node.dir m sub) more) acc h =
    let both = and_true (readable sub) (readable more) h in
    rw (read_listing-readable sub acc both.0, walk_subdirs-readable sub (acc ++ level sub) both.0)
      (walk_subdirs-readable more ((acc ++ level sub) ++ below sub) both.1
        ∙ ap ok (
            ap (λ xs. xs ++ below more) (append_assoc acc (level sub) (below sub))
            ∙ append_assoc acc (level sub ++ below sub) (below more)))
walk_subdirs-readable (Listing.next (Node.file m) more) acc h = walk_subdirs-readable more acc h
walk_subdirs-readable (Listing.next (Node.special m) more) acc h = walk_subdirs-readable more acc h

walk-readable :
    (root : Listing)
    → readable root ≡ true
    → (es : List LocalEntry) × (walk root ≡ ok es) × Perm es (preorder root)
unfolding walk walk_dir
walk-readable root h = (
  level root ++ below root,
  rw (read_listing-readable root [] h) (walk_subdirs-readable root (level root) h),
  levels-Perm root,
)

-- An entry that is not of a directory.
abbrev pub file_of : LocalEntry → Option LocalEntry
file_of e = if e.is_dir then none else some e

-- What the source's metadata say of a regular file.
abbrev pub regular : Meta → LocalEntry
regular m = record {
  path = m.path;
  mtime = or_epoch m.modified;
  size = m.len;
  inode = m.inode;
  is_virtual = false;
  is_dir = false;
}

-- The regular files of the tree, depth first.
abbrev pub files : Listing → List LocalEntry
files (Listing.denied e) = []
files Listing.end = []
files (Listing.next (Node.unreadable e) more) = files more
files (Listing.next (Node.dir m sub) more) = files sub ++ files more
files (Listing.next (Node.file m) more) = regular m ∷ files more
files (Listing.next (Node.special m) more) = files more

filter_map-file_append :
    (xs ys : List LocalEntry)
    → filter_map file_of (xs ++ ys) ≡ filter_map file_of xs ++ filter_map file_of ys
unfolding filter_map
filter_map-file_append [] ys = refl
filter_map-file_append (x ∷ xs) ys = elim (Option-cases (file_of x)) [
  | inl e ↦ rw e (filter_map-file_append xs ys)
  | inr (y, e) ↦ rw e (ap (λ es. y ∷ es) (filter_map-file_append xs ys))
]

filter_map-preorder : (l : Listing) → filter_map file_of (preorder l) ≡ files l
unfolding filter_map dir_entry file_entry
filter_map-preorder (Listing.denied e) = refl
filter_map-preorder Listing.end = refl
filter_map-preorder (Listing.next (Node.unreadable e) more) = filter_map-preorder more
filter_map-preorder (Listing.next (Node.dir m sub) more) =
    rw (filter_map-file_append (preorder sub) (preorder more))
      (rw (filter_map-preorder sub, filter_map-preorder more))
filter_map-preorder (Listing.next (Node.file m) more) =
    ap (λ es. regular m ∷ es) (filter_map-preorder more)
filter_map-preorder (Listing.next (Node.special m) more) = filter_map-preorder more

-- The walk over a tree in which every directory can be listed and every entry read returns entries, and
-- those that are not of directories are the regular files of the tree, at whatever depth, each as often
-- as it stands there, with its path, size and time.
pub walk-files :
    (root : Listing)
    → readable root ≡ true
    → (es : List LocalEntry) × (walk root ≡ ok es) × Perm (filter_map file_of es) (files root)
walk-files root h =
    let (es, done, same) = walk-readable root h in
    (
      es,
      done,
      subst (Perm (filter_map file_of es)) (filter_map-preorder root)
          (Perm.filter_map file_of same),
    )

abbrev pub IsIoError : Result (List LocalEntry) SyncError → Type 0
IsIoError r = (e : IoError) × (r ≡ err (io e))

after-first_fails :
    (r : Result (List LocalEntry) SyncError)
    (f : List LocalEntry → Result (List LocalEntry) SyncError)
    → IsIoError r
    → IsIoError (after r f)
after-first_fails r f (e, h) = rw h (e, refl)

after-second_fails :
    (r : Result (List LocalEntry) SyncError)
    (f : List LocalEntry → Result (List LocalEntry) SyncError)
    → IsIoError r ⊎ ((es : List LocalEntry) × (r ≡ ok es))
    → ((es : List LocalEntry) → IsIoError (f es))
    → IsIoError (after r f)
after-second_fails r f (inl h) k = after-first_fails r f h
after-second_fails r f (inr (es, h)) k = rw h (k es)

read_listing-cases :
    (l : Listing) (acc : List LocalEntry)
    → IsIoError (read_listing l acc) ⊎ ((es : List LocalEntry) × (read_listing l acc ≡ ok es))
unfolding read_listing
read_listing-cases (Listing.denied e) acc = inl (e, refl)
read_listing-cases Listing.end acc = inr (acc, refl)
read_listing-cases (Listing.next (Node.unreadable e) more) acc = inl (e, refl)
read_listing-cases (Listing.next (Node.dir m sub) more) acc =
    read_listing-cases more (acc ++ dir_entry m ∷ [])
read_listing-cases (Listing.next (Node.file m) more) acc =
    read_listing-cases more (acc ++ file_entry m ∷ [])
read_listing-cases (Listing.next (Node.special m) more) acc = read_listing-cases more acc

-- One of the two loops over a listing fails, whatever was collected before.
abbrev Fails : Listing → Type 0
Fails l =
    ((acc : List LocalEntry) → IsIoError (read_listing l acc))
    ⊎ ((acc : List LocalEntry) → IsIoError (walk_subdirs l acc))

Fails-walk_dir :
    (l : Listing)
    → Fails l
    → (acc : List LocalEntry) → IsIoError (after (read_listing l acc) (walk_subdirs l))
Fails-walk_dir l (inl h) acc = after-first_fails (read_listing l acc) (walk_subdirs l) (h acc)
Fails-walk_dir l (inr h) acc =
    after-second_fails (read_listing l acc) (walk_subdirs l) (read_listing-cases l acc) h

walk_dir-readable_cases :
    (l : Listing) (acc : List LocalEntry)
    → readable l ≡ true
    → (es : List LocalEntry) × (after (read_listing l acc) (walk_subdirs l) ≡ ok es)
walk_dir-readable_cases l acc h = (
  (acc ++ level l) ++ below l,
  rw (read_listing-readable l acc h) (walk_subdirs-readable l (acc ++ level l) h),
)

unreadable-Fails : (l : Listing) → readable l ≡ false → Fails l
unfolding read_listing walk_subdirs
unreadable-Fails (Listing.denied e) h = inl (λ acc. (e, refl))
unreadable-Fails Listing.end h = absurd (cc h)
unreadable-Fails (Listing.next (Node.unreadable e) more) h = inl (λ acc. (e, refl))
unreadable-Fails (Listing.next (Node.dir m sub) more) h = elim (Bool-cases (readable sub)) [
  | inl good ↦
      let h' : readable more ≡ false = rw good at h in
      elim (unreadable-Fails more h') [
        | inl k ↦ inl (λ acc. k (acc ++ dir_entry m ∷ []))
        | inr k ↦ inr (λ acc.
            after-second_fails (after (read_listing sub acc) (walk_subdirs sub)) (walk_subdirs more)
              (inr (walk_dir-readable_cases sub acc good)) k)
      ]
  | inr bad ↦ inr (λ acc.
      after-first_fails (after (read_listing sub acc) (walk_subdirs sub)) (walk_subdirs more)
        (Fails-walk_dir sub (unreadable-Fails sub bad) acc))
]
unreadable-Fails (Listing.next (Node.file m) more) h = elim (unreadable-Fails more h) [
  | inl k ↦ inl (λ acc. k (acc ++ file_entry m ∷ []))
  | inr k ↦ inr k
]
unreadable-Fails (Listing.next (Node.special m) more) h = unreadable-Fails more h

-- Where some directory of the tree cannot be listed, or some entry not read, at whatever depth, the
-- walk returns an I/O error and no entries.
pub walk-unreadable : (root : Listing) → readable root ≡ false → IsIoError (walk root)
unfolding walk walk_dir
walk-unreadable root h = Fails-walk_dir root (unreadable-Fails root h) []
