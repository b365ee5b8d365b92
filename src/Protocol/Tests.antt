-- ===== src/Protocol/Tests.antt =====
-- The command line of a booking, and how it arrives.
use event_ticketing_platform.Base.{
  ℕ, ◌≤◌, ◌≡◌, ◌↔◌, refl, true, some, List, [], ◌∷◌, ◌++◌, arith, ltb, if◌then◌else◌, length,
}
use event_ticketing_platform.Protocol.Commands.{rbac_parse_command_type}
use event_ticketing_platform.Protocol.Parser.{ParsedCommand, is_space, parse_command, max_cmd_args}
use event_ticketing_platform.Protocol.Parser.Laws.{
  IsWord, AllWords, print_line, parse_command-print_line, parse_command-AllWords,
}
use event_ticketing_platform.Protocol.Lines.{
  ReadAnswer, interrupted, byte, line, too_long, read_command_line, WriteAnswer, retry, wrote,
  send_all,
}
use event_ticketing_platform.Protocol.Lines.Laws.{
  over, again, one, has_zero, read_command_line_lem, send_all_lem,
}

-- `book`, in lower case, and two arguments.
abbrev name : List ℕ
name = 98 ∷ 111 ∷ 111 ∷ 107 ∷ []

abbrev args : List (List ℕ)
args = (49 ∷ []) ∷ (50 ∷ 51 ∷ []) ∷ []

name-IsWord : IsWord name
unfolding is_space
name-IsWord = (omega arith, omega arith, (refl, (refl, (refl, (refl, tt)))))

args-AllWords : AllWords args
unfolding is_space
args-AllWords =
    ((omega arith, omega arith, (refl, tt)), ((omega arith, omega arith, (refl, (refl, tt))), tt))

book : rbac_parse_command_type name ≡ 8
unfolding rbac_parse_command_type
book = refl

parse_command-print_line_example :
    parse_command (print_line name args)
    ≡ some (record { command = rbac_parse_command_type name; args = args })
parse_command-print_line_example =
    parse_command-print_line name args name-IsWord args-AllWords (omega arith) (omega arith)

abbrev parsed : ParsedCommand
parsed = record { command = rbac_parse_command_type name; args = args }

parse_command-AllWords_example : AllWords parsed.args × (length parsed.args ≤ max_cmd_args)
parse_command-AllWords_example =
    parse_command-AllWords (print_line name args) parsed parse_command-print_line_example

abbrev arrives : List ReadAnswer
arrives = byte 104 ∷ interrupted ∷ byte 105 ∷ byte 10 ∷ []

read_command_line_lem_example :
    read_command_line 8 arrives
    ≡ some (
        if ltb 2 8
        then (if has_zero (104 ∷ 105 ∷ []) then too_long else line (104 ∷ 105 ∷ []))
        else too_long)
read_command_line_lem_example =
    read_command_line_lem 8 (104 ∷ 105 ∷ []) arrives (omega arith) (refl, (refl, tt))
      (one 104 (again (one 105 over)))

abbrev writes : List WriteAnswer
writes = wrote 1 ∷ retry ∷ wrote 2 ∷ []

send_all_lem_example :
    ((rest : List ℕ) × ((send_all (1 ∷ 2 ∷ 3 ∷ []) writes).0 ++ rest ≡ 1 ∷ 2 ∷ 3 ∷ []))
    × ((send_all (1 ∷ 2 ∷ 3 ∷ []) writes).1 ≡ some true
        ↔ (send_all (1 ∷ 2 ∷ 3 ∷ []) writes).0 ≡ 1 ∷ 2 ∷ 3 ∷ [])
send_all_lem_example = send_all_lem (1 ∷ 2 ∷ 3 ∷ []) writes
