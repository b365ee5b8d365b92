-- ===== src/Protocol/Parser.antt =====
-- server/protocol/parser.c: `parse_command`. A string is the list of its bytes up to the terminator, and
-- the pointer into it is the list of the bytes from there on.
pub mod Laws
use event_ticketing_platform.Base.{
  ℕ, zero, suc, ◌+◌, ◌-◌, Bool, true, false, ◌&&◌, ◌||◌, Option, none, some, List, [], ◌∷◌, leb,
  ◌==◌, if◌then◌else◌, take,
}
use event_ticketing_platform.Protocol.Commands.{rbac_parse_command_type}

-- MAX_CMD_LENGTH, MAX_CMD_ARGS and MAX_ARG_LEN.
abbrev pub max_cmd_length : ℕ
max_cmd_length = 1024

abbrev pub max_cmd_args : ℕ
max_cmd_args = 16

abbrev pub max_arg_len : ℕ
max_arg_len = 256

-- `argc` is the length of `args`.
pub record ParsedCommand : Type 0 where
  pub command : ℕ
  pub args : List (List ℕ)

-- `isspace` of the C locale.
unfoldable pub is_space : ℕ → Bool
is_space c = c == 32 || (leb 9 c && leb c 13)

abbrev pub is_newline : ℕ → Bool
is_newline c = c == 10 || c == 13

abbrev pub put_unless_last : Bool → ℕ → List ℕ → List ℕ
put_unless_last newline c (d ∷ ds) = c ∷ d ∷ ds
put_unless_last true c [] = []
put_unless_last false c [] = c ∷ []

-- The line feeds and carriage returns at the end are taken off.
unfoldable pub strip_end : List ℕ → List ℕ
strip_end [] = []
strip_end (c ∷ cs) = put_unless_last (is_newline c) c (strip_end cs)

unfoldable pub skip_space : List ℕ → List ℕ
unfolding is_space
skip_space [] = []
skip_space (c ∷ cs) = let rest = skip_space cs in if is_space c then rest else c ∷ cs

-- A token of at most `room` bytes, and what is left behind it.
unfoldable pub token : ℕ → List ℕ → List ℕ × List ℕ
unfolding is_space
token zero p = ([], p)
token (suc room) [] = ([], [])
token (suc room) (c ∷ cs) =
    let rest = token room cs in if is_space c then ([], c ∷ cs) else (c ∷ rest.0, rest.1)

-- The token at `p`, unless the line ends there, and the `rest` of the loop behind it.
abbrev pub split_from : (List ℕ → List (List ℕ)) → List ℕ → List (List ℕ)
split_from rest [] = []
split_from rest (c ∷ cs) = let arg = token (max_arg_len - 1) (c ∷ cs) in arg.0 ∷ rest arg.1

-- The loop that extracts the arguments, `room` being how many more there may be.
unfoldable pub split_args : ℕ → List ℕ → List (List ℕ)
unfolding skip_space token
split_args zero p = []
split_args (suc room) p = split_from (split_args room) (skip_space p)

abbrev pub parse_line : List ℕ → Option ParsedCommand
parse_line [] = none
parse_line (c ∷ cs) =
    let name = token (max_arg_len - 1) (c ∷ cs) in
    some
      (record { command = rbac_parse_command_type name.0; args = split_args max_cmd_args name.1 })

-- None is the return value -1.
unfoldable pub parse_command : List ℕ → Option ParsedCommand
unfolding strip_end skip_space token split_args
parse_command raw = parse_line (skip_space (strip_end (take (max_cmd_length - 1) raw)))
