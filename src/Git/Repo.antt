-- ===== src/Git/Repo.antt =====
-- What the adapter takes from git, and what it relies on. (demo/src/git-atomic.js)
use Prim.Native.Nat.{ℕ}
use Prim.Native.Char.{code}
use Prim.Native.String.{count}
use capability_demo.Prelude.{
  ◌≡◌, ◌≢◌, Bool, true, not, ◌&&◌, ◌||◌, String, ◌==◌, concat, List, [], ◌∷◌, Option, none, some,
  leb, eqb, select, if◌then◌else◌,
}

is_hex : ℕ → Bool
is_hex c = (leb 48 c && leb c 57) || ((leb 97 c && leb c 102) || (leb 65 c && leb c 70))

all_hex : String → Bool
all_hex String.[] = true
all_hex (String.◌∷◌ c s) = is_hex (code c) && all_hex s

-- /^[0-9a-f]{40}$/i
unfoldable pub is_sha : String → Bool
unfolding all_hex is_hex
is_sha s = eqb (count s) 40 && all_hex s

-- MUST_NOT_EXIST: in a transaction it stands for "no value".
abbrev pub must_not_exist : String
must_not_exist = "0000000000000000000000000000000000000000"

-- One line `update <ref> <new> <old>` of the input of `git update-ref --stdin`. Refs and values
-- are taken to hold no space and no line end, so that git reads each line back as it was meant.
pub record RefUpdate : Type 0 where
  pub ref : String
  pub new_sha : String
  pub old : String

-- The git commands that the adapter runs on a repository.
pub record GitTool (Repo : Type 0) : Type 0 where
  -- git rev-parse --verify --quiet <ref>^{commit}: what it prints, if it succeeds
  pub rev_parse : Repo → String → Option String
  -- git reflog show <ref> --format=%gs: the lines that it prints, trimmed, if it succeeds
  pub reflog : Repo → String → Option (List String)
  -- git update-ref -m <message> --stdin; `none` where it fails
  pub update_refs : Repo → String → List RefUpdate → Option Repo
  -- git for-each-ref --format='%(refname) %(objectname)' <prefix>: the pairs, if it succeeds
  pub for_each_ref : Repo → String → Option (List (String × String))

-- The claim of a ledger ref and the move of a target ref, in one batch.
abbrev pub batch : String → String → String → String → List RefUpdate
batch ledger target new_sha old =
    record { ref = ledger; new_sha = new_sha; old = must_not_exist }
    ∷ record { ref = target; new_sha = new_sha; old = old }
    ∷ []

-- The value of a ref after an update: forty zeros delete it.
abbrev pub value_after : String → Option String
value_after new_sha = if new_sha == must_not_exist then none else some new_sha

module _ {Repo : Type 0} (git : GitTool Repo) where
  abbrev pub absent_or : String → Option String → String
  absent_or ref none = concat "absent:" ref
  absent_or ref (some sha) = if is_sha sha then sha else concat "absent:" ref

  -- The value of a ref, or the ABSENT marker.
  unfoldable pub read_ref : Repo → String → String
  read_ref repo ref = absent_or ref (git.rev_parse repo ref)

  full_lines : Option (List String) → List String
  full_lines none = []
  full_lines (some lines) = select (λ l. not (l == "")) lines

  unfoldable pub reflog_markers : Repo → String → List String
  unfolding full_lines
  reflog_markers repo ref = full_lines (git.reflog repo ref)

  -- A commit of the repository, in the form in which git prints it.
  abbrev pub IsCommit : Repo → String → Type 0
  IsCommit repo sha = git.rev_parse repo sha ≡ some sha

  -- The old value of an update holds: no such ref exists where the value is empty or forty zeros,
  -- else the ref is at that commit, if the value is one.
  abbrev pub HasOld : Repo → String → String → Type 0
  HasOld repo ref old =
      if old == "" || old == must_not_exist
      then git.rev_parse repo ref ≡ none
      else (IsCommit repo old → git.rev_parse repo ref ≡ some old)

  -- The documented behaviour of a batch of two updates that lands, of refs given by full names that
  -- no other ref shadows: the two are different, both old values hold, both refs are at the new
  -- value if it is a commit, and forty zeros delete both. It says nothing of when a batch lands.
  pub record IsTransactional : Type 0 where
    pub distinct :
        (r r' : Repo) (m l t n o : String) → git.update_refs r m (batch l t n o) ≡ some r' → l ≢ t
    pub claim_old :
        (r r' : Repo) (m l t n o : String)
        → git.update_refs r m (batch l t n o) ≡ some r'
        → git.rev_parse r l ≡ none
    pub target_old :
        (r r' : Repo) (m l t n o : String)
        → git.update_refs r m (batch l t n o) ≡ some r'
        → HasOld r t o
    pub claimed :
        (r r' : Repo) (m l t n o : String)
        → git.update_refs r m (batch l t n o) ≡ some r'
        → IsCommit r n
        → n ≢ must_not_exist
        → git.rev_parse r' l ≡ some n
    pub moved :
        (r r' : Repo) (m l t n o : String)
        → git.update_refs r m (batch l t n o) ≡ some r'
        → IsCommit r n
        → n ≢ must_not_exist
        → git.rev_parse r' t ≡ some n
    pub deleted :
        (r r' : Repo) (m l t o : String)
        → git.update_refs r m (batch l t must_not_exist o) ≡ some r'
        → (git.rev_parse r' l ≡ none) × (git.rev_parse r' t ≡ none)
