-- ===== src/Files/Walk.antt =====
-- internal/service/file_service.go: the walk over the searched directory that its searches share, up
-- to the test of a file. A directory is a tree; fs.WalkDir calls back in the order of the names.
pub mod Collect
use xktmcp.Prelude.Text.{codes, Text}
use xktmcp.Prelude.{
  none, ◌++◌, some, [], Option, ◌∷◌, false, ◌==◌, Bool, if◌then◌else◌, List, nat_eq, list_eq, ℕ,
}

-- What entry.Info says of a regular file: if it succeeds, if the file is still regular, and the rest.
pub record Info : Type 0 where
  pub known : Bool
  pub regular : Bool
  pub size : ℕ
  pub mod_time : ℕ
  pub metadata : Text

-- A directory, each name with what it is; `unreadable` is a directory whose entries cannot be read.
mutual
  pub data Node : Type 0 where
    file : Info → Node
    directory : Nodes → Node
    unreadable : Node
    special : Node

  pub data Nodes : Type 0 where
    empty : Nodes
    entry : Text → Node → Nodes → Nodes

-- A call of the callback: for a regular file, for an error of the walk, or for something that it passes
-- over, such as what is hidden.
pub data Visit : Type 0 where
  found : Text → Text → Info → Visit
  broken : Text → Visit
  passed_over : Text → Visit

-- The path of an entry; the root is ".".
abbrev pub joined : Text → Text → Text
joined parent name = if parent == [] then name else parent ++ (47 ∷ name)

-- strings.HasPrefix(entry.Name(), ".")
abbrev pub is_hidden : Text → Bool
is_hidden [] = false
is_hidden (c ∷ name) = c == 46

-- The calls of the callback below a directory. It returns fs.SkipDir for a hidden directory, whose
-- entries are not visited.
unfoldable mutual
  pub visits_of : Text → Text → Node → List Visit
  visits_of path name (file info) = found path name info ∷ []
  visits_of path name (directory children) = passed_over path ∷ visits path children
  visits_of path name unreadable = passed_over path ∷ broken path ∷ []
  visits_of path name special = passed_over path ∷ []

  pub visits : Text → Nodes → List Visit
  visits parent empty = []
  visits parent (entry name node rest) =
      let here = visits_of (joined parent name) name node in
      let later = visits parent rest in
      if is_hidden name then passed_over (joined parent name) ∷ later else here ++ later

-- The calls of a walk from the root.
abbrev pub walk_calls : Nodes → List Visit
walk_calls root = passed_over (codes ".") ∷ visits [] root

-- What a callback returns: nil, errStopWalk or another error.
pub data Step {ℓ} (A : Type ℓ) : Type ℓ where
  more : A → Step A
  stop : A → Step A
  fail : Step A

-- The walk, with the callback on regular files. `canceled` says if ctx.Err() is set at a path.
module _ {ℓ} {A : Type ℓ} (canceled : Text → Bool) (visit : Text → Text → Info → A → Step A) where
  unfoldable pub call_back : Visit → A → Step A
  call_back (found path name info) items =
      if canceled path then fail else visit path name info items
  call_back (broken path) items = fail
  call_back (passed_over path) items = if canceled path then fail else more items

  -- `none` is the error of the walk.
  unfoldable pub walk : List Visit → A → Option A
  unfolding call_back
  walk [] items = some items
  walk (v ∷ vs) items = elim (call_back v items) [
    | more next ↦ walk vs next
    | stop next ↦ some next
    | fail ↦ none
  ]
