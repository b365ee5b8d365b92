-- ===== src/Protocol/Parser/Laws.antt =====
-- What `parse_command` of server/protocol/parser.c reads from a line.
use event_ticketing_platform.Base.{
  ℕ, zero, suc, ◌-◌, ◌≤◌, ◌<◌, ◌≡◌, refl, sym, ap, subst, false, Bool-cases, inl, inr, Option, none,
  some, List, [], ◌∷◌, ◌++◌, arith, length, take,
}
use event_ticketing_platform.Protocol.Commands.{rbac_parse_command_type}
use event_ticketing_platform.Protocol.Parser.{
  max_cmd_length, max_cmd_args, max_arg_len, ParsedCommand, is_space, is_newline, put_unless_last,
  strip_end, skip_space, token, split_from, split_args, parse_line, parse_command,
}

-- No byte of the list is white space.
abbrev pub AllDark : List ℕ → Type 0
AllDark [] = Unit {0}
AllDark (c ∷ cs) = (is_space c ≡ false) × AllDark cs

-- A token: neither empty nor too long, without white space.
abbrev pub IsWord : List ℕ → Type 0
IsWord w = (0 < length w) × (length w < max_arg_len) × AllDark w

abbrev pub AllWords : List (List ℕ) → Type 0
AllWords [] = Unit {0}
AllWords (w ∷ ws) = IsWord w × AllWords ws

-- The arguments as they follow the name on a line, each behind one space.
abbrev pub print_args : List (List ℕ) → List ℕ
print_args [] = []
print_args (w ∷ ws) = 32 ∷ w ++ print_args ws

abbrev pub print_line : List ℕ → List (List ℕ) → List ℕ
print_line name args = name ++ print_args args

token_word :
    (room : ℕ) (w : List ℕ) (ws : List (List ℕ))
    → AllDark w
    → length w ≤ room
    → token room (w ++ print_args ws) ≡ (w, print_args ws)
unfolding token is_space
token_word zero [] ws d h = refl
token_word zero (c ∷ w) ws d h = absurd (omega (arith, h))
token_word (suc room) [] [] d h = refl
token_word (suc room) [] (v ∷ ws) d h = refl
token_word (suc room) (c ∷ w) ws (dark, d) h =
    rw dark (rw (token_word room w ws d (omega (arith, h))) refl)

skip_word : (w : List ℕ) (p : List ℕ) → 0 < length w → AllDark w → skip_space (w ++ p) ≡ w ++ p
unfolding skip_space is_space
skip_word [] p h d = absurd (omega (arith, h))
skip_word (c ∷ w) p h (dark, d) = rw dark refl

skip_one : (w : List ℕ) (p : List ℕ) → 0 < length w → AllDark w → skip_space (32 ∷ w ++ p) ≡ w ++ p
unfolding skip_space is_space
skip_one w p h d = skip_word w p h d

skip_nil : skip_space [] ≡ []
unfolding skip_space
skip_nil = refl

split_words :
    (room : ℕ) (ws : List (List ℕ))
    → AllWords ws
    → length ws ≤ room
    → split_args room (print_args ws) ≡ ws
unfolding split_args
split_words zero [] h k = refl
split_words zero (w ∷ ws) h k = absurd (omega (arith, k))
split_words (suc room) [] h k = ap (split_from (split_args room)) skip_nil
split_words (suc room) ([] ∷ ws) ((a, b, d), h) k = absurd (omega (arith, a))
split_words (suc room) ((c ∷ cs) ∷ ws) ((a, b, d), h) k =
    rw (skip_one (c ∷ cs) (print_args ws) a d) (
      rw (token_word (max_arg_len - 1) (c ∷ cs) ws d (omega (arith, b)))
        (ap (λ (l : List (List ℕ)). (c ∷ cs) ∷ l) (split_words room ws h (omega (arith, k)))))

put_dark : (c : ℕ) (l : List ℕ) → put_unless_last false c l ≡ c ∷ l
put_dark c [] = refl
put_dark c (d ∷ ds) = refl

dark_newline : (c : ℕ) → is_space c ≡ false → is_newline c ≡ false
unfolding is_space
dark_newline c h = ground (arith, h)

strip_word : (w p : List ℕ) → AllDark w → strip_end p ≡ p → strip_end (w ++ p) ≡ w ++ p
unfolding strip_end
strip_word [] p d h = h
strip_word (c ∷ w) p (dark, d) h =
    rw (dark_newline c dark) (rw (strip_word w p d h) (put_dark c (w ++ p)))

strip_args : (ws : List (List ℕ)) → AllWords ws → strip_end (print_args ws) ≡ print_args ws
unfolding strip_end
strip_args [] h = refl
strip_args (w ∷ ws) ((a, b, d), h) =
    rw (strip_word w (print_args ws) d (strip_args ws h)) (put_dark 32 (w ++ print_args ws))

take_all : (n : ℕ) (l : List ℕ) → length l ≤ n → take n l ≡ l
take_all zero [] h = refl
take_all zero (c ∷ l) h = absurd (omega (arith, h))
take_all (suc n) [] h = refl
take_all (suc n) (c ∷ l) h = ap (λ (m : List ℕ). c ∷ m) (take_all n l (omega (arith, h)))

parse_word :
    (name : List ℕ) (args : List (List ℕ))
    → IsWord name
    → AllWords args
    → length args ≤ max_cmd_args
    → parse_line (print_line name args)
      ≡ some (record { command = rbac_parse_command_type name; args = args })
parse_word [] args (a, b, d) h k = absurd (omega (arith, a))
parse_word (c ∷ cs) args (a, b, d) h k =
    rw (token_word (max_arg_len - 1) (c ∷ cs) args d (omega (arith, b)))
      (rw (split_words max_cmd_args args h k) refl)

-- A line of a name and at most 16 arguments, none of them empty, longer than 255 bytes or with white
-- space, each argument behind a space, the whole line below 1024 bytes: `parse_command` reads the
-- command of the name and exactly these arguments.
pub parse_command-print_line :
    (name : List ℕ) (args : List (List ℕ))
    → IsWord name
    → AllWords args
    → length args ≤ max_cmd_args
    → length (print_line name args) < max_cmd_length
    → parse_command (print_line name args)
      ≡ some (record { command = rbac_parse_command_type name; args = args })
unfolding parse_command
parse_command-print_line name args w h k short =
    rw (take_all (max_cmd_length - 1) (print_line name args) (omega (arith, short))) (
      rw (strip_word name (print_args args) w.2 (strip_args args h))
        (rw (skip_word name (print_args args) w.0 w.2) (parse_word name args w h k)))

token-AllDark :
    (room : ℕ) (p : List ℕ) → AllDark (token room p).0 × (length (token room p).0 ≤ room)
unfolding token
token-AllDark zero p = (tt, omega arith)
token-AllDark (suc room) [] = (tt, omega arith)
token-AllDark (suc room) (c ∷ cs) = elim (Bool-cases (is_space c)) [
  | inl e ↦ rw e (tt, omega arith)
  | inr e ↦ rw e ((e, (token-AllDark room cs).0), omega (arith, (token-AllDark room cs).1))
]

skip_dark : (p : List ℕ) (c : ℕ) (cs : List ℕ) → skip_space p ≡ c ∷ cs → is_space c ≡ false
unfolding skip_space
skip_dark [] c cs e = ground (arith, e)
skip_dark (d ∷ ds) c cs e = elim (Bool-cases (is_space d)) [
  | inl h ↦ skip_dark ds c cs (rw (sym e) (rw h refl))
  | inr h ↦ ground (arith, e, h)
]

token-first :
    (room c : ℕ) (cs : List ℕ) → is_space c ≡ false → 0 < length (token (suc room) (c ∷ cs)).0
unfolding token
token-first room c cs dark = rw dark (omega arith)

token-IsWord :
    (c : ℕ) (cs : List ℕ) → is_space c ≡ false → IsWord (token (max_arg_len - 1) (c ∷ cs)).0
token-IsWord c cs dark = (
  token-first 254 c cs dark,
  omega (arith, (token-AllDark (max_arg_len - 1) (c ∷ cs)).1),
  (token-AllDark (max_arg_len - 1) (c ∷ cs)).0,
)

split_args-AllWords :
    (room : ℕ) (p : List ℕ) → AllWords (split_args room p) × (length (split_args room p) ≤ room)
unfolding split_args
split_args-AllWords zero p = (tt, omega arith)
split_args-AllWords (suc room) p = by_rest (skip_space p) (skip_dark p) (split_args-AllWords room)
  where
    by_rest :
        (q : List ℕ)
        → ((c : ℕ) (cs : List ℕ) → q ≡ c ∷ cs → is_space c ≡ false)
        → ((p : List ℕ) → AllWords (split_args room p) × (length (split_args room p) ≤ room))
        → AllWords (split_from (split_args room) q)
          × (length (split_from (split_args room) q) ≤ suc room)
    by_rest [] f ih = (tt, omega arith)
    by_rest (c ∷ cs) f ih = (
      (token-IsWord c cs (f c cs refl), (ih _).0),
      omega (arith, (ih (token (max_arg_len - 1) (c ∷ cs)).1).1),
    )

-- Whatever the line: a parsed command has at most 16 arguments, and none is empty, longer than 255
-- bytes or has white space in it, so each fits its place in `args`.
pub parse_command-AllWords :
    (raw : List ℕ) (cmd : ParsedCommand)
    → parse_command raw ≡ some cmd
    → AllWords cmd.args × (length cmd.args ≤ max_cmd_args)
unfolding parse_command
parse_command-AllWords raw cmd e =
    by_line (skip_space (strip_end (take (max_cmd_length - 1) raw))) e
  where
    by_line :
        (q : List ℕ)
        → parse_line q ≡ some cmd
        → AllWords cmd.args × (length cmd.args ≤ max_cmd_args)
    by_line [] e = absurd (ground (arith, e))
    by_line (c ∷ cs) e =
        subst (λ (l : List (List ℕ)). AllWords l × (length l ≤ max_cmd_args))
          (ap (λ (o : Option ParsedCommand). elim o [ none ↦ [] | some d ↦ d.args ]) e)
          (split_args-AllWords max_cmd_args (token (max_arg_len - 1) (c ∷ cs)).1)
