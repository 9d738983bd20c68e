-- ===== src/Ancestry/Lineage.antt =====
-- The independent description of ancestry: chains of parents, and what the index holds of its edges.
use mathlib.Core.List.{List}
use mathlib.Core.Option.{some}
use mathlib.Core.Path.{◌≡◌}
use proven_loop.Shared.{true, String, String_eq, Pair_eq, ℕ_eq, Option_eq, contains}
use proven_loop.Shared.Assoc.{lookup}
use proven_loop.Ancestry.{contains}
use proven_loop.Ancestry.{some}
use proven_loop.Ancestry.{◌≡◌}
use proven_loop.Ancestry.{lookup}
use proven_loop.Ancestry.{List}
use proven_loop.Ancestry.{String}
use proven_loop.Ancestry.{Parents}

-- The index of a repository names a commit among the parents of another.
pub record Parent (parents : Parents) (repo child parent : String) : Type 0 where
  pub set : List String
  pub entry : lookup (repo, child) parents ≡ some set
  pub member : contains parent set ≡ true

-- One or more steps from a commit to a parent.
pub data Line (parents : Parents) (repo : String) : String → String → Type 0 where
  direct :
      {child parent : String} → Parent parents repo child parent → Line parents repo child parent
  further :
      {child parent ancestor : String}
      → Parent parents repo child parent
      → Line parents repo parent ancestor
      → Line parents repo child ancestor

pub Line-append :
    {parents : Parents} {repo a b c : String}
    → Line parents repo a b
    → Parent parents repo b c
    → Line parents repo a c
Line-append (direct p) q = further p (direct q)
Line-append (further p l) q = further p (Line-append l q)
