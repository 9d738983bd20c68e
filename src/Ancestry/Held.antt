-- ===== src/Ancestry/Held.antt =====
-- What the constructor makes of its edges, and which edges it refuses.
use mathlib.Core.List.{List, [], ◌∷◌}
use text.Mathlib.TextEquality.{eq_iff}
use mathlib.Core.Bool.{◌&&◌, ◌||◌}
use mathlib.Core.Logic.{◌↔◌, ◌⊎◌, inl, inr}
use mathlib.Core.Path.{◌≡◌, refl}
use native.Mathlib.Omega.{arith}
use proven_loop.Shared.{
  Bool, true, false, not, String, String_eq, Pair_eq, ℕ_eq, Option_eq, ◌==◌, contains, any, all,
  Bool-cases, Option-cases,
}
use proven_loop.Shared.Assoc.{lookup, touch, lookup-insert, contains-touch}
use proven_loop.Shared.Result.{ok, err}
use proven_loop.Ancestry.{
  Parents, or_empty, CommitAncestryEdge, AncestryError, normal, checked, add_edge, add_edges,
  construct, is_empty,
}
use proven_loop.Ancestry.Lineage.{Parent}

abbrev holds : Parents → String → String → String → Bool
holds parents repo child parent = contains parent (or_empty (lookup (repo, child) parents))

Parent-iff-holds :
    (parents : Parents) (repo child parent : String)
    → Parent parents repo child parent ↔ (holds parents repo child parent ≡ true)
Parent-iff-holds parents repo child parent = (
  λ p. ground (arith, p.entry, p.member),
  λ h. elim (Option-cases (lookup (repo, child) parents)) [
    | inl missing ↦ absurd (ground arith)
    | inr (set, found) ↦ record { set = set; entry = found; member = ground arith }
  ],
)

-- The edge, normalised, leads from the child to the parent in the repository.
abbrev pub leads : String → String → String → CommitAncestryEdge → Bool
leads repo child parent e =
    (e.repo_id == repo) && ((e.child_commit == child) && (e.parent_commit == parent))

holds-add_edge :
    (parents : Parents) (e : CommitAncestryEdge) (repo child parent : String)
    → holds (add_edge parents e) repo child parent
      ≡ (leads repo child parent e || holds parents repo child parent)
unfolding add_edge
holds-add_edge parents e repo child parent = ground (
  arith,
  lookup-insert (e.repo_id, e.child_commit) (repo, child)
      (touch e.parent_commit (or_empty (lookup (e.repo_id, e.child_commit) parents))) parents,
  contains-touch e.parent_commit parent (or_empty (lookup (e.repo_id, e.child_commit) parents)),
  eq_iff e.repo_id repo,
  eq_iff e.child_commit child,
)

module _ (trim lower : String → String) where
  -- An edge that the constructor takes: after normalisation nothing is empty, no self edge.
  abbrev pub acceptable : CommitAncestryEdge → Bool
  acceptable edge =
      let e = normal trim lower edge in
      not (is_empty e.repo_id)
      && (not (is_empty e.parent_commit)
          && (not (is_empty e.child_commit) && not (e.parent_commit == e.child_commit)))

  checked-cases :
      (edge : CommitAncestryEdge)
      → ((checked trim lower edge ≡ ok (normal trim lower edge)) × (acceptable edge ≡ true))
        ⊎ ((error : AncestryError) × (checked trim lower edge ≡ err error)
            × (acceptable edge ≡ false))
  unfolding checked
  checked-cases edge =
      let e = normal trim lower edge in
      elim (Bool-cases
        (is_empty e.repo_id || (is_empty e.parent_commit || is_empty e.child_commit))) [
          | inl blank ↦ inr (AncestryError.empty_identifier, ground arith, ground arith)
          | inr named ↦ elim (Bool-cases (e.parent_commit == e.child_commit)) [
            | inl same ↦ inr (AncestryError.self_edge, ground arith, ground arith)
            | inr distinct ↦ inl (ground arith, ground arith)
          ]
        ]

  holds-add_edges :
      (parents result : Parents) (edges : List CommitAncestryEdge) (repo child parent : String)
      → add_edges trim lower parents edges ≡ ok result
      → holds result repo child parent ≡ (
          any (λ e. leads repo child parent (normal trim lower e)) edges
          || holds parents repo child parent)
  unfolding add_edges
  holds-add_edges parents result [] repo child parent h = ground arith
  holds-add_edges parents result (edge ∷ edges) repo child parent h = elim (checked-cases edge) [
    | inl (taken, fine) ↦ ground (
      arith,
      holds-add_edges (add_edge parents (normal trim lower edge)) result edges repo child parent
          (rw (taken, add_edges) at h),
      holds-add_edge parents (normal trim lower edge) repo child parent,
    )
    | inr (error, refused, bad) ↦ absurd (ground arith)
  ]

  add_edges-ok :
      (parents : Parents) (edges : List CommitAncestryEdge)
      → all acceptable edges ≡ true
      → (result : Parents) × (add_edges trim lower parents edges ≡ ok result)
  unfolding add_edges
  add_edges-ok parents [] h = (parents, refl)
  add_edges-ok parents (edge ∷ edges) h = elim (checked-cases edge) [
    | inl (taken, fine) ↦
        let (result, done) =
          add_edges-ok (add_edge parents (normal trim lower edge)) edges (ground arith) in
        (result, simp (add_edges, taken, done))
    | inr (error, refused, bad) ↦ absurd (ground arith)
  ]

-- Where every edge of a list has, after normalisation, non-empty identifiers and two distinct
-- commits, the constructor makes an index, and it gives a commit a parent in a repository exactly
-- where an edge of the list, normalised, says so.
pub construct-Parent :
    (trim lower : String → String) (edges : List CommitAncestryEdge)
    → all (acceptable trim lower) edges ≡ true
    → (parents : Parents) × (construct trim lower edges ≡ ok parents)
      × ((repo child parent : String)
          → Parent parents repo child parent
            ↔ (any (λ e. leads repo child parent (normal trim lower e)) edges ≡ true))
unfolding construct lookup
construct-Parent trim lower edges h =
    let (parents, built) = add_edges-ok trim lower [] edges h in
    (
      parents,
      built,
      λ repo child parent.
          let (there, back) = Parent-iff-holds parents repo child parent in
          let same = holds-add_edges trim lower [] parents edges repo child parent built in
          (λ p. ground (arith, there p, same), λ e. back (ground (arith, same))),
    )
