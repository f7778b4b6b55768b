-- ===== src/Shutdown.antt =====
-- internal/infra/shutdown/shutdown.go: the shutdown of the program's components, and the checks for
-- a termination file.
pub mod Order
use preoomkiller_controller.Common.{
  ℕ, zero, suc, String, Bool, true, false, ◌&&◌, Option, none, some, List, [], ◌∷◌, length,
  get_elem?,
}
use preoomkiller_controller.Common.Error.{Error, canceled, message, wrap, both}

-- `Shutdowner`: what its `Shutdown` answers, `none` for nil, and does to the world.
pub record Shutdowner (World : Type 0) : Type 0 where
  pub name : String
  pub shutdown : World → Option Error × World

-- `errors.Join(errs, err)` of an error that is not nil; the join of one error has its text and tree.
abbrev pub join : Option Error → Error → Error
join none e = wrap "" e
join (some errs) e = both errs e

-- The second loop of `GracefulShutdown`, over the channel of errors.
abbrev pub join_all : Option Error → List Error → Option Error
join_all errs [] = errs
join_all errs (e ∷ es) = join_all (some (join errs e)) es

-- `componentsShutdownErrors <- err` if there is an error; the channel holds as many as there are
-- components.
abbrev pub keep : Option Error → List Error → List Error
keep none es = es
keep (some e) es = e ∷ es

module _ {World : Type 0} where
  -- `none` is an index out of range, which the loop does not reach.
  call : Option (Shutdowner World) → World → Option Error × World
  call none w = (none, w)
  call (some c) w = c.shutdown w

  -- `for i := len(shutdowners) - 1; i >= 0; i--`, begun at `i - 1`: the errors in the order in which
  -- they are met.
  shutdown_down : ℕ → List (Shutdowner World) → World → List Error × World
  unfolding call
  shutdown_down zero cs w = ([], w)
  shutdown_down (suc i) cs w =
      let (answer, w') = call (get_elem? cs i) w in
      let (es, w'') = shutdown_down i cs w' in (keep answer es, w'')

  -- `GracefulShutdown`. The context of the components has a timeout, and is not cancelled with
  -- the caller's; how they act on it is theirs.
  unfoldable pub graceful_shutdown : List (Shutdowner World) → World → Option Error × World
  unfolding shutdown_down
  graceful_shutdown cs w = let (es, w') = shutdown_down (length cs) cs w in (join_all none es, w')

-- `err == nil` of `os.Stat`.
abbrev pub exists : Option Error → Bool
exists none = true
exists (some e) = false

-- `CheckTerminationFile`, from the answer of `os.Stat`: an error other than "not exist" is logged.
abbrev pub check_termination_file : Option Error → Bool
check_termination_file stat = exists stat

-- `CheckTermination`, from whether the context is done and the answer of `os.Stat`. On the branch where
-- the file exists `err` is nil, and `%w` prints that.
abbrev pub check_termination : Bool → Option Error → Option Error
check_termination true stat = some (wrap "termination context done before startup" canceled)
check_termination false none = some (message "termination file found: %!w(<nil>)")
check_termination false (some e) = none
