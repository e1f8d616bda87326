-- ===== src/SyncDb/Db/Laws.antt =====
-- What the statements of db.rs do to what a later query reads.
use mathlib.Core.List.{Mem, Memᴰ}
use mathlib.Core.List.Perm
use mathlib.Core.Logic.{∥∥₁_elim}
use owncloud_sync_client.Common.{
  String, ◌≡◌, refl, ap, subst, Result, ok-injective, String-set, ◌↔◌, Option, none, some, List, [],
  ◌∷◌, ok, ◌==◌, string_eq, arith, if◌then◌else◌,
}
use owncloud_sync_client.Common.Dict
use owncloud_sync_client.Common.Dict.{Dict, dict_laws}
use owncloud_sync_client.SyncDb.Models.{JournalEntry}
use owncloud_sync_client.SyncDb.Db.{
  SyncJournalDb, Fault, get_entry, inserted, upsert_entry, delete_entry, list_entries,
}
use owncloud_sync_client.SyncDb.Db.Listing.{
  IsOrdered, sort_rows, sort_rows-IsOrdered, sort_rows-perm, values,
}

pub inserted_lem : (e : JournalEntry) (found : Option JournalEntry) → inserted e found ≡ e
unfolding inserted
inserted_lem e none = refl
inserted_lem e (some row) = refl

get_entry-upsert_entry :
    (fault : Fault) (db : SyncJournalDb) (e : JournalEntry) (path : String)
    → get_entry none (upsert_entry fault db e).1 path ≡ elim fault [
      | none ↦ if path == e.path then ok (some e) else get_entry none db path
      | some reason ↦ get_entry none db path
    ]
unfolding get_entry upsert_entry
get_entry-upsert_entry none db e path =
    rw (inserted_lem e (Dict.get e.path db.metadata)) (simp dict_laws (ground arith))
get_entry-upsert_entry (some reason) db e path = refl

get_entry-delete_entry :
    (fault : Fault) (db : SyncJournalDb) (gone path : String)
    → get_entry none (delete_entry fault db gone).1 path ≡ elim fault [
      | none ↦ if path == gone then ok none else get_entry none db path
      | some reason ↦ get_entry none db path
    ]
unfolding get_entry delete_entry
get_entry-delete_entry none db gone path = simp dict_laws (ground arith)
get_entry-delete_entry (some reason) db gone path = refl

-- If the statement succeeded, a query after `upsert_entry` reads the new row at its path, with every
-- column of it, whether a row was in place or not, and a query after `delete_entry` finds no row at the
-- path. At any other path, or if the statement failed, it reads what it read before.
pub get_entry-written :
    (fault : Fault) (db : SyncJournalDb) (e : JournalEntry) (gone path : String)
    → (get_entry none (upsert_entry fault db e).1 path ≡ elim fault [
      | none ↦ if path == e.path then ok (some e) else get_entry none db path
      | some reason ↦ get_entry none db path
    ])
      × (get_entry none (delete_entry fault db gone).1 path ≡ elim fault [
        | none ↦ if path == gone then ok none else get_entry none db path
        | some reason ↦ get_entry none db path
      ])
get_entry-written fault db e gone path =
    (get_entry-upsert_entry fault db e path, get_entry-delete_entry fault db gone path)

-- Each row of `metadata` is stored under its own path, and no path is stored twice.
abbrev pub IsKeyed : Dict String JournalEntry → Type 0
IsKeyed [] = Unit
IsKeyed ((k, e) ∷ d) = (e.path ≡ k) × (Dict.get k d ≡ none) × IsKeyed d

insert-IsKeyed :
    (e : JournalEntry) (d : Dict String JournalEntry) → IsKeyed d → IsKeyed (Dict.insert e.path e d)
unfolding Dict.insert
insert-IsKeyed e [] h = (refl, Dict.get-nil e.path, tt)
insert-IsKeyed e ((k, x) ∷ d) h =
    ground (arith, insert-IsKeyed e d h.2, Dict.get-insert k e.path e d)

remove-IsKeyed :
    (path : String) (d : Dict String JournalEntry) → IsKeyed d → IsKeyed (Dict.remove path d)
unfolding Dict.remove
remove-IsKeyed path [] h = tt
remove-IsKeyed path ((k, x) ∷ d) h =
    ground (arith, remove-IsKeyed path d h.2, Dict.get-remove k path d)

pub upsert_entry-IsKeyed :
    (fault : Fault) (db : SyncJournalDb) (e : JournalEntry)
    → IsKeyed db.metadata
    → IsKeyed (upsert_entry fault db e).1.metadata
unfolding upsert_entry
upsert_entry-IsKeyed none db e h =
    rw (inserted_lem e (Dict.get e.path db.metadata)) (insert-IsKeyed e db.metadata h)
upsert_entry-IsKeyed (some reason) db e h = h

pub delete_entry-IsKeyed :
    (fault : Fault) (db : SyncJournalDb) (path : String)
    → IsKeyed db.metadata
    → IsKeyed (delete_entry fault db path).1.metadata
unfolding delete_entry
delete_entry-IsKeyed none db path h = remove-IsKeyed path db.metadata h
delete_entry-IsKeyed (some reason) db path h = h

-- Membership among the rows, as a query by path sees it.
get_of_mem-values :
    (d : Dict String JournalEntry) (e : JournalEntry)
    → IsKeyed d
    → Memᴰ e (values d)
    → Dict.get e.path d ≡ some e
unfolding values Dict.get
get_of_mem-values [] e h m = elim m [ ]
get_of_mem-values ((k, x) ∷ d) e h (Memᴰ.head p) =
    ground (arith, ap (λ (r : JournalEntry). r.path) p)
get_of_mem-values ((k, x) ∷ d) e h (Memᴰ.tail m) = ground (arith, get_of_mem-values d e h.2 m)

mem-values_of_get :
    (d : Dict String JournalEntry) (path : String) (e : JournalEntry)
    → Dict.get path d ≡ some e
    → Memᴰ e (values d)
unfolding values Dict.get
mem-values_of_get [] path e h = absurd (cc h)
mem-values_of_get ((k, x) ∷ d) path e h = elim (string_eq.dec path k) [
  | yes p ↦ Memᴰ.head (ground arith)
  | no n ↦ Memᴰ.tail (mem-values_of_get d path e (ground arith))
]

found-prop :
    (found : Option JournalEntry) (e : JournalEntry)
    → IsProp (◌≡◌ {A = Result (Option JournalEntry) String} (ok found) (ok (some e)))
found-prop found e = hlevel String-set

sorted-Lists :
    (d : Dict String JournalEntry) (e : JournalEntry)
    → IsKeyed d
    → Mem e (sort_rows (values d))
      ↔ (◌≡◌ {A = Result (Option JournalEntry) String} (ok (Dict.get e.path d)) (ok (some e)))
sorted-Lists d e keyed = (
  λ m.
      ∥∥₁_elim ((Perm.mem_iff (sort_rows-perm (values d))).0 m) (found-prop (Dict.get e.path d) e)
        (λ at. ap ok (get_of_mem-values d e keyed at)),
  λ found.
      (Perm.mem_iff (sort_rows-perm (values d))).1
        ∣ mem-values_of_get d e.path e (ok-injective found) ∣₁,
)

-- `list_entries`, when its query succeeds, gives the rows in the order of their paths, and gives
-- exactly the rows that `get_entry` finds at their own paths.
pub list_entries-get_entry :
    (db : SyncJournalDb) (rows : List JournalEntry)
    → IsKeyed db.metadata
    → list_entries none db ≡ ok rows
    → IsOrdered rows × ((e : JournalEntry) → Mem e rows ↔ (get_entry none db e.path ≡ ok (some e)))
unfolding list_entries get_entry
list_entries-get_entry db rows keyed listed =
    subst
      (λ (r : List JournalEntry).
        IsOrdered r × ((e : JournalEntry) → Mem e r ↔ (get_entry none db e.path ≡ ok (some e))))
      (ok-injective listed)
      (sort_rows-IsOrdered (values db.metadata), λ e. sorted-Lists db.metadata e keyed)
