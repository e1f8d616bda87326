-- ===== src/SocketApi/StatusResolver/Roots.antt =====
-- crates/socket-api/src/status_resolver.rs: the synced folder of a path.
use owncloud_sync_client.Common.{
  ◌≤◌, ◌≡◌, refl, sym, true, none, some, List, [], ◌∷◌, All, Any, All-map, All-of_keep, Any-of_keep,
  subst, ltb→lt, keep, Bool, Option, ltb, inl, inr, arith, Bool-cases, Option-cases, number_eq,
  string_eq,
}
use owncloud_sync_client.SyncEngine.Types.{FilePath, Uuid}
use owncloud_sync_client.SocketApi.StatusResolver.{
  Paths, StatusResolver, find_folder_for_path, longest,
}

some-injective {ℓ} : {A : Type ℓ} {a b : A} → ◌≡◌ {A = Option A} (some a) (some b) → a ≡ b
some-injective h = cc h

some-none {ℓ} : {A : Type ℓ} {a : A} → ◌≡◌ {A = Option A} none (some a) → ⊥
some-none h = cc h

module _ (P : Paths) where
  longest-nil : (rs : List (FilePath × Uuid)) → longest P rs ≡ none → rs ≡ []
  unfolding longest
  longest-nil [] e = refl
  longest-nil (r ∷ rs) e = elim (Option-cases (longest P rs)) [
    | inl h ↦ absurd (ground (arith, e, h))
    | inr (best, h) ↦ absurd (ground (arith, e, h))
  ]

  abbrev NotLonger : FilePath × Uuid → FilePath × Uuid → Type 0
  NotLonger best r = P.len r.0 ≤ P.len best.0

  longest-extreme :
      (rs : List (FilePath × Uuid)) (best : FilePath × Uuid)
      → longest P rs ≡ some best
      → All (NotLonger best) rs × Any (λ (r : FilePath × Uuid). r ≡ best) rs
  unfolding longest
  longest-extreme [] best e = absurd (cc e)
  longest-extreme (r ∷ rs) best e = elim (Option-cases (longest P rs)) [
    | inl h ↦
        let same : r ≡ best = some-injective (rw h at e) in
        (
          (
            rw same (omega arith),
            subst (λ xs. All (NotLonger best) xs) (sym (longest-nil rs h)) tt,
          ),
          inl same,
        )
    | inr (b, h) ↦
        let rest = longest-extreme rs b h in
        elim (Bool-cases (ltb (P.len b.0) (P.len r.0))) [
          | inl longer ↦
              let same : r ≡ best = some-injective (rw (h, longer) at e) in
              (
                subst (λ (b' : FilePath × Uuid). All (NotLonger b') (r ∷ rs)) same
                    (
                      omega arith,
                      All-map {P = NotLonger b} {Q = NotLonger r}
                          (λ x le. omega (arith, le, ltb→lt (P.len b.0) (P.len r.0) longer)) rs
                          rest.0,
                    ),
                inl same,
              )
          | inr not_longer ↦
              let same : b ≡ best = some-injective (rw (h, not_longer) at e) in
              subst
                (λ (b' : FilePath × Uuid).
                  All (NotLonger b') (r ∷ rs) × Any (λ (x : FilePath × Uuid). x ≡ b') (r ∷ rs))
                same ((ground (arith, not_longer), rest.0), inr (rest.1))
        ]
  ]

-- The root found: it is a root of the folder, above the path, and no longer root is above the path.
pub data IsNearest (P : Paths) (s : StatusResolver) (path : FilePath) (id : Uuid) : Type 0 where
  nearest :
      (root : FilePath)
      → Any
          (λ (r : FilePath × Uuid). (P.starts_with path r.0 ≡ true) × (r ≡ (root, id)))
          s.folder_roots
      → All
          (λ (r : FilePath × Uuid). P.starts_with path r.0 ≡ true → P.len r.0 ≤ P.len root)
          s.folder_roots
      → IsNearest P s path id

-- The folder that `find_folder_for_path` gives has a root above the path, and there is no longer root
-- above the path: of nested folders, the inner one answers.
pub find_folder_for_path-IsNearest :
    (P : Paths) (s : StatusResolver) (path : FilePath) (id : Uuid)
    → find_folder_for_path P s path ≡ some id
    → IsNearest P s path id
unfolding find_folder_for_path
find_folder_for_path-IsNearest P s path id found =
    let test : FilePath × Uuid → Bool = λ r. P.starts_with path r.0 in
    elim (Option-cases (longest P (keep test s.folder_roots))) [
      | inl e ↦ absurd (some-none (rw e at found))
      | inr (best, e) ↦
          let same : best.1 ≡ id = some-injective (rw e at found) in
          let extreme = longest-extreme P (keep test s.folder_roots) best e in
          IsNearest.nearest best.0
            (subst
              (λ (i : Uuid).
                Any (λ (r : FilePath × Uuid). (test r ≡ true) × (r ≡ (best.0, i))) s.folder_roots)
              same (Any-of_keep (λ (r : FilePath × Uuid). r ≡ best) test s.folder_roots extreme.1))
            (All-of_keep _ test s.folder_roots extreme.0)
    ]
