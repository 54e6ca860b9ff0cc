-- ===== src/CommandLine.antt =====
-- The command line of src/main.rs: `Command` and `parse_args`.
pub mod Options
use Prim.Native.Char.{code}
use Prim.Native.String.{String}
use text.Mathlib.Text.{◌==◌ as same_text}
use pg_walview.Prelude.{
  Bool, true, false, not, ◌&&◌, ◌||◌, Option, none, some, List, [], ◌∷◌, ◌==◌, if◌then◌else◌,
}

pub data Command : Type 0 where
  help : Command
  version : Command
  open_file : String → Command

-- `Result<Command, String>`: an error is told by what its message says.
pub data Parsed : Type 0 where
  accepted : Command → Parsed
  unknown_option : String → Parsed
  expected_one_file : Parsed
  no_file_given : Parsed

abbrev starts_with_dash : String → Bool
starts_with_dash String.[] = false
starts_with_dash (String.◌∷◌ c s) = code c == b'-'

unfoldable pub is_help : String → Bool
is_help arg = same_text arg "-h" || same_text arg "--help"

unfoldable pub is_version : String → Bool
is_version arg = same_text arg "-V" || same_text arg "--version"

-- The guard of the third arm. A lone dash is a file name.
unfoldable pub is_option : String → Bool
is_option arg = starts_with_dash arg && not (same_text arg "-")

abbrev with_path : Option String → Parsed
with_path none = no_file_given
with_path (some p) = accepted (open_file p)

-- The loop over the arguments, and the match behind it.
unfoldable pub parse_rest : Option String → List String → Parsed
parse_rest path [] = with_path path
parse_rest path (arg ∷ args) =
    let first = parse_rest (some arg) args in
    if is_help arg
    then accepted help
    else if is_version arg
    then accepted version
    else if is_option arg
    then unknown_option arg
    else elim path [ none ↦ first | some p ↦ expected_one_file ]

-- The program's name is skipped.
unfoldable pub parse_args : List String → Parsed
parse_args [] = parse_rest none []
parse_args (name ∷ args) = parse_rest none args
