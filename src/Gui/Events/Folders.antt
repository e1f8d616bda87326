-- ===== src/Gui/Events/Folders.antt =====
-- crates/gui/src/app.rs, `find_folder_mut`: the folder that it finds, and the change of one folder in place.
use owncloud_sync_client.Common.{
  ap, ◌∙◌, true, subst, sym, All, Option-cases, ◌≡◌, refl, Bool, Option, none, some, List, [], ◌∷◌,
  find, ◌==◌, number_eq, Bool-cases, inl, inr, arith, if◌then◌else◌,
}
use owncloud_sync_client.Common.Dict.{map_some}
use owncloud_sync_client.SyncEngine.Types.{Uuid}
use owncloud_sync_client.Gui.Model.{FolderView, AccountView}
use owncloud_sync_client.Gui.Events.{update_folder, update_first}

abbrev is_at : Uuid → FolderView → Bool
is_at id f = f.id == id

abbrev or_next : Option FolderView → Option FolderView → Option FolderView
or_next none o = o
or_next (some f) o = some f

-- `find_folder_mut`, read only.
abbrev pub find_folder : Uuid → List AccountView → Option FolderView
find_folder id [] = none
find_folder id (a ∷ more) = or_next (find (is_at id) a.folders) (find_folder id more)

module _ (id : Uuid) (g : FolderView → FolderView) where
  -- The list with the change in the first folder of that id, if there is one.
  replaced : List FolderView → List FolderView
  replaced [] = []
  replaced (f ∷ fs) = let rest = replaced fs in if is_at id f then g f ∷ fs else f ∷ rest

  update_first-missing :
      (fs : List FolderView) → find (is_at id) fs ≡ none → update_first (is_at id) g fs ≡ none
  unfolding update_first
  update_first-missing [] h = refl
  update_first-missing (f ∷ fs) h = elim (Bool-cases (is_at id f)) [
    | inl e ↦ absurd (let h' : ◌≡◌ {A = Option FolderView} (some f) none = rw e at h in cc h')
    | inr e ↦
        let h' : find (is_at id) fs ≡ none = rw e at h in rw (e, update_first-missing fs h') refl
  ]

  update_first-found :
      (fs : List FolderView) (f : FolderView)
      → find (is_at id) fs ≡ some f
      → update_first (is_at id) g fs ≡ some (replaced fs)
  unfolding update_first replaced
  update_first-found [] f h = absurd (cc h)
  update_first-found (x ∷ fs) f h = elim (Bool-cases (is_at id x)) [
    | inl e ↦ rw e refl
    | inr e ↦
        let h' : find (is_at id) fs ≡ some f = rw e at h in rw (e, update_first-found fs f h') refl
  ]

  module _ (j : Uuid) (same_id : (f : FolderView) → (g f).id ≡ f.id) where
    unfoldable pub changed : Option FolderView → Option FolderView
    changed o = if j == id then map_some g o else o

    find-replaced :
        (fs : List FolderView) → find (is_at j) (replaced fs) ≡ changed (find (is_at j) fs)
    unfolding replaced changed
    find-replaced [] = ground arith
    find-replaced (f ∷ fs) = ground (arith, find-replaced fs, same_id f)

    changed-or_next_missing :
        (o : Option FolderView) (fs : List FolderView)
        → find (is_at id) fs ≡ none
        → or_next (find (is_at j) fs) (changed o) ≡ changed (or_next (find (is_at j) fs) o)
    unfolding changed
    changed-or_next_missing o fs h = elim (Bool-cases (j == id)) [
      | inl e ↦
          let same : j ≡ id = ground arith in
          let h' : find (is_at j) fs ≡ none = subst (λ i. find (is_at i) fs ≡ none) (sym same) h in
          rw (e, h') refl
      | inr e ↦ rw e refl
    ]

    changed-or_next_found :
        (o : Option FolderView) (fs : List FolderView) (f : FolderView)
        → find (is_at id) fs ≡ some f
        → or_next (changed (find (is_at j) fs)) o ≡ changed (or_next (find (is_at j) fs) o)
    unfolding changed
    changed-or_next_found o fs f h = elim (Bool-cases (j == id)) [
      | inl e ↦
          let same : j ≡ id = ground arith in
          let h' : find (is_at j) fs ≡ some f =
            subst (λ i. find (is_at i) fs ≡ some f) (sym same) h in
          rw (e, h') refl
      | inr e ↦ rw e refl
    ]

    -- The folder that is found under an id after a change is the changed one for the id of the change,
    -- and the same as before for every other id.
    pub find_folder-update_folder :
        (accounts : List AccountView)
        → find_folder j (update_folder id g accounts) ≡ changed (find_folder j accounts)
    unfolding update_folder changed
    find_folder-update_folder [] = ground arith
    find_folder-update_folder (a ∷ more) = elim (Option-cases (find (is_at id) a.folders)) [
      | inl e ↦
          rw (update_first-missing a.folders e, find_folder-update_folder more)
            (changed-or_next_missing (find_folder j more) a.folders e)
      | inr (f, e) ↦
          rw (update_first-found a.folders f e, find-replaced a.folders)
            (changed-or_next_found (find_folder j more) a.folders f e)
    ]

module _ (P : FolderView → Type 0) (id : Uuid) (g : FolderView → FolderView)
    (keeps : (f : FolderView) → P f → P (g f)) where
  abbrev pub EveryFolder : List AccountView → Type 0
  EveryFolder accounts = All (λ (a : AccountView). All P a.folders) accounts

  replaced-All : (fs : List FolderView) → All P fs → All P (replaced id g fs)
  unfolding replaced
  replaced-All [] h = h
  replaced-All (f ∷ fs) h = elim (Bool-cases (is_at id f)) [
    | inl e ↦ rw e (keeps f h.0, h.1)
    | inr e ↦ rw e (h.0, replaced-All fs h.1)
  ]

  pub update_folder-EveryFolder :
      (accounts : List AccountView)
      → EveryFolder accounts
      → EveryFolder (update_folder id g accounts)
  unfolding update_folder
  update_folder-EveryFolder [] h = h
  update_folder-EveryFolder (a ∷ more) h = elim (Option-cases (find (is_at id) a.folders)) [
    | inl e ↦ rw (update_first-missing id g a.folders e) (h.0, update_folder-EveryFolder more h.1)
    | inr (f, e) ↦ rw (update_first-found id g a.folders f e) (replaced-All a.folders h.0, h.1)
  ]

module _ (id : Uuid) (g h : FolderView → FolderView)
    (same_id : (f : FolderView) → (h f).id ≡ f.id) where
  same_test : (f : FolderView) → is_at id (h f) ≡ is_at id f
  same_test f = ap (λ (i : Uuid). i == id) (same_id f)

  replaced-replaced :
      (fs : List FolderView) → replaced id g (replaced id h fs) ≡ replaced id (λ f. g (h f)) fs
  unfolding replaced
  replaced-replaced [] = refl
  replaced-replaced (f ∷ fs) = elim (Bool-cases (is_at id f)) [
    | inl e ↦ let e' : is_at id (h f) ≡ true = same_test f ∙ e in rw (e, e') refl
    | inr e ↦ rw (e, e, replaced-replaced fs) refl
  ]

  found-replaced :
      (fs : List FolderView) (f : FolderView)
      → find (is_at id) fs ≡ some f
      → find (is_at id) (replaced id h fs) ≡ some (h f)
  unfolding replaced
  found-replaced [] f e = absurd (cc e)
  found-replaced (x ∷ fs) f e = elim (Bool-cases (is_at id x)) [
    | inl t ↦
        let t' : is_at id (h x) ≡ true = same_test x ∙ t in
        let e' : some x ≡ some f = rw t at e in rw (t, t') (ap (map_some h) e')
    | inr t ↦ let e' : find (is_at id) fs ≡ some f = rw t at e in rw (t, t) (found-replaced fs f e')
  ]

  -- Two changes of one folder are one.
  pub update_folder-update_folder :
      (accounts : List AccountView)
      → update_folder id g (update_folder id h accounts) ≡ update_folder id (λ f. g (h f)) accounts
  unfolding update_folder
  update_folder-update_folder [] = refl
  update_folder-update_folder (a ∷ more) = elim (Option-cases (find (is_at id) a.folders)) [
    | inl e ↦
        rw
          (
            update_first-missing id h a.folders e,
            update_first-missing id g a.folders e,
            update_first-missing id (λ f. g (h f)) a.folders e,
            update_folder-update_folder more,
          )
          refl
    | inr (f, e) ↦
        rw
          (
            update_first-found id h a.folders f e,
            update_first-found id g (replaced id h a.folders) (h f) (found-replaced a.folders f e),
            update_first-found id (λ f. g (h f)) a.folders f e,
            replaced-replaced a.folders,
          )
          refl
  ]
